-- ===== src/Cookie/Jar.antt =====
-- crates/chromulate-cookie/src/jar.rs: the jar over its buckets. A lock guards the store, so an
-- operation is a function on the jar; reads of the clock and the request's origin are arguments.
-- `none` is a panic on a position out of range.
pub mod Replacement
pub mod Eviction
pub mod Storing
pub mod Serving
pub mod Snapshot
pub mod Counts
pub mod Upkeep
pub mod Restoring
pub mod Capacity
pub mod Selection
pub mod Ceiling
pub mod Limits
pub mod Runs
pub mod Wrap
use chromulate.Prelude.{
  ℕ, zero, suc, ◌+◌, ◌-◌, ◌*◌, ◌/◌, ◌%◌, ◌^◌, min, max, Bool, true, false, not, ◌&&◌, ◌||◌, Option,
  none, some, List, [], ◌∷◌, ◌++◌, ltb, leb, nat_beq, if◌then◌else◌, length, filter, get_elem?,
  sum_by, Comparable, ◌==◌, is_some,
}
use chromulate.Prelude.Time.{Instant, from_secs}
use chromulate.Prelude.Int.{ℤ, pos, negsuc}
use chromulate.Prelude.Text.{Text, ascii, text_comparable, u64_max, is_nil}
use chromulate.Prelude.Headers.{HeaderMaps}
use chromulate.Prelude.Assoc.{lookup, insert, remove}
use chromulate.Core.Uri.{Origin}
use chromulate.Cache.Date.{Platform}
use chromulate.Cookie.Domain.{Suffixes, site_of}
use chromulate.Cookie.Expiry.{epoch_seconds_to_system_time}
use chromulate.Cookie.Parsing.{
  Cookie, SameSite, Request, parse, is_expired, applies_to, same_site_eligible,
  keeps_name_prefix_promise,
}
use chromulate.Cookie.Bucket.{
  Entry, identity_of, Bucket, empty, position_of, push, replace, remove_at, remove_expired,
  remove_all, trim_to,
}

pub record JarLimits : Type 0 where
  pub per_domain : ℕ
  pub total : ℕ

unfoldable pub purge_batch : JarLimits → ℕ
purge_batch limits = limits.total / 10

unfoldable pub purge_target : JarLimits → ℕ
unfolding purge_batch
purge_target limits = limits.total - purge_batch limits

unfoldable pub domain_purge_batch : JarLimits → ℕ
domain_purge_batch limits = limits.per_domain / 6

unfoldable pub domain_purge_target : JarLimits → ℕ
unfolding domain_purge_batch
domain_purge_target limits = limits.per_domain - domain_purge_batch limits

abbrev pub default : JarLimits
default = record { per_domain = 180; total = 3000 }

pub record Store : Type 0 where
  pub sites : List (Text × Bucket)
  pub total : ℕ

-- The counters of creations and accesses.
pub record Counters : Type 0 where
  pub creation : ℕ
  pub access : ℕ

-- `fetch_add(1)`, which wraps.
abbrev pub bumped : ℕ → ℕ
bumped n = (n + 1) % 2 ^ 64

-- `apply_set_cookie`.
unfoldable pub put_cookie : Cookie → Option ℕ → Bucket → Counters → Option (Bucket × Counters)
put_cookie cookie (some position) b n =
    elim (replace position
      (record {
        cookie = cookie;
        creation_seq = elim (get_elem? b.entries position) [ none ↦ 0 | some e ↦ e.creation_seq ];
        last_access_seq = n.access;
      })
      b) [ none ↦ none | some b' ↦ some (b', record n { access = bumped n.access }) ]
put_cookie cookie none b n = some (
  push (record { cookie = cookie; creation_seq = n.creation; last_access_seq = n.access }) b,
  record { creation = bumped n.creation; access = bumped n.access },
)

unfoldable pub delete_cookie : Option ℕ → Bucket → Option Bucket
delete_cookie none b = some b
delete_cookie (some position) b = remove_at position b

-- Whether the entry at a position is secure.
abbrev pub is_secure_at : Option ℕ → Bucket → Bool
is_secure_at none b = false
is_secure_at (some position) b = elim (get_elem? b.entries position) [
  | none ↦ false
  | some e ↦ e.cookie.secure
]

unfoldable pub apply_set_cookie :
    Instant → Bool → Cookie → Bucket → Counters → Option (Bucket × Counters)
apply_set_cookie now request_is_secure cookie b n =
    let existing : Option ℕ = position_of (identity_of cookie) b in
    if is_secure_at existing b && not request_is_secure
    then some (b, n)
    else if is_expired cookie now
    then (elim (delete_cookie existing b) [ none ↦ none | some b' ↦ some (b', n) ])
    else put_cookie cookie existing b n

abbrev pub bucket_of : Text → Store → Bucket
bucket_of site store = elim (lookup site store.sites) [ none ↦ empty | some b ↦ b ]

-- The end of `with_site`: the bucket that a change has left.
unfoldable pub with_site : Text → Bucket → Store → Store
with_site site b store = record {
  sites =
      if nat_beq (length b.entries) 0
      then remove site (insert site b store.sites)
      else insert site b store.sites;
  total = store.total - length (bucket_of site store).entries + length b.entries;
}
