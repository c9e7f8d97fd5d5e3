-- ===== src/Http/Hsts.antt =====
-- crates/chromulate-http/src/hsts.rs: which hosts have asked for HTTPS only. `is_ip_addr` is the
-- standard library's test for an IP address. The build is the default one, without a preload list.
pub mod Coverage
pub mod Capacity
pub mod Upgrade
mod Tests
use chromulate.Prelude.{
  ℕ, zero, suc, ◌-◌, max, Bool, true, false, not, ◌&&◌, ◌||◌, Option, none, some, List, [], ◌∷◌,
  ltb, leb, nat_beq, length, filter, if◌then◌else◌, unwrap_or, is_some,
}
use chromulate.Prelude.Time.{Instant, from_secs, checked_add}
use chromulate.Prelude.Text.{
  Text, ascii, text_comparable, trim, split, split_once, strip_prefix, strip_suffix, is_nil,
  parse_u64, eq_ignore_ascii_case, to_ascii_lowercase,
}
use mathlib.Core.List.{reverse}
use chromulate.Prelude.Assoc.{lookup, insert, remove}

abbrev pub default_host_capacity : ℕ
default_host_capacity = 10000

abbrev pub far_future_secs : ℕ
far_future_secs = 64000000000

pub record Policy : Type 0 where
  pub expires : Instant
  pub include_subdomains : Bool

pub record HstsStore : Type 0 where
  pub hosts : List (Text × Policy)
  pub capacity : ℕ

pub record Directive : Type 0 where
  pub max_age : ℕ
  pub include_subdomains : Bool

-- `HstsStore::with_capacity`.
unfoldable pub with_capacity : ℕ → HstsStore
with_capacity capacity = record { hosts = []; capacity = max capacity 1 }

-- `trim_matches('"')`.
unfoldable pub drop_quotes : Text → Text
drop_quotes [] = []
drop_quotes (c ∷ s) = if nat_beq c 34 then drop_quotes s else c ∷ s

unfoldable pub trim_quotes : Text → Text
trim_quotes s = reverse (drop_quotes (reverse (drop_quotes s)))

-- One token of `parse`; `none` where `max-age` has no argument.
unfoldable pub read_token : Text → Option ℕ × Bool → Option (Option ℕ × Bool)
read_token raw (max_age, sub) =
    let token : Text = trim raw in
    let parts : Text × Option Text = (elim (split_once 61 token) [
      | some (name, argument) ↦ (trim name, some (trim argument))
      | none ↦ (token, none)
    ]) in
    if eq_ignore_ascii_case parts.0 (ascii "max-age")
    then (elim parts.1 [
      | none ↦ none
      | some argument ↦ some (parse_u64 (trim_quotes argument), sub)
    ])
    else if eq_ignore_ascii_case parts.0 (ascii "includeSubDomains")
    then some (max_age, true)
    else some (max_age, sub)

unfoldable pub read_tokens : List Text → Option ℕ × Bool → Option (Option ℕ × Bool)
read_tokens [] found = some found
read_tokens (token ∷ tokens) found = elim (read_token token found) [
  | none ↦ none
  | some next ↦ read_tokens tokens next
]

unfoldable pub parse : Text → Option Directive
parse value = elim (read_tokens (split 59 value) (none, false)) [
  | none ↦ none
  | some (age, sub) ↦ elim age [
    | none ↦ none
    | some n ↦ some (record { max_age = n; include_subdomains = sub })
  ]
]

unfoldable pub any_nil : List Text → Bool
any_nil [] = false
any_nil (label ∷ labels) = is_nil label || any_nil labels

unfoldable pub canonical_name : Text → Option Text
canonical_name raw =
    let host : Text = unwrap_or (strip_suffix (ascii ".") raw) raw in
    if is_nil host || any_nil (split b'.' host) then none else some host

-- The policy with the soonest end: `min_by_key`, which keeps the first of equals.
unfoldable pub soonest_from : Text → Instant → List (Text × Policy) → Text
soonest_from host expires [] = host
soonest_from host expires ((other, policy) ∷ rest) =
    if ltb policy.expires expires
    then soonest_from other policy.expires rest
    else soonest_from host expires rest

unfoldable pub soonest : List (Text × Policy) → Option Text
soonest [] = none
soonest ((host, policy) ∷ rest) = some (soonest_from host policy.expires rest)

-- The loop of `evict`.
unfoldable pub drop_soonest : ℕ → ℕ → List (Text × Policy) → List (Text × Policy)
drop_soonest zero capacity hosts = hosts
drop_soonest (suc fuel) capacity hosts =
    if leb (length hosts) capacity then hosts else (elim (soonest hosts) [
      | none ↦ hosts
      | some host ↦ drop_soonest fuel capacity (remove host hosts)
    ])

unfoldable pub evict : Instant → HstsStore → HstsStore
evict now store =
    if leb (length store.hosts) store.capacity
    then store
    else let kept : List (Text × Policy) =
        filter (λ (x : Text × Policy). ltb now x.1.expires) store.hosts in
      record store { hosts = drop_soonest (length kept) store.capacity kept }

abbrev pub exact_match : Text → Instant → List (Text × Policy) → Bool
exact_match host now hosts = elim (lookup host hosts) [ none ↦ false | some p ↦ ltb now p.expires ]

abbrev pub parent_match : Text → Instant → List (Text × Policy) → Bool
parent_match parent now hosts = elim (lookup parent hosts) [
  | none ↦ false
  | some p ↦ p.include_subdomains && ltb now p.expires
]

-- The walk of `applies_to` over the parent domains; each is shorter than the last.
unfoldable pub any_parent : ℕ → Text → Instant → List (Text × Policy) → Bool
any_parent zero rest now hosts = false
any_parent (suc fuel) rest now hosts = elim (split_once b'.' rest) [
  | none ↦ false
  | some (label, parent) ↦ parent_match parent now hosts || any_parent fuel parent now hosts
]

-- `is_ip_addr` and the first and last instants of the platform's clock that the code meets.
module _ (is_ip_addr : Text → Bool) where
  unfoldable pub is_ip_literal : Text → Bool
  is_ip_literal host = is_ip_addr (elim (strip_prefix (ascii "[") host) [
    | none ↦ host
    | some rest ↦ unwrap_or (strip_suffix (ascii "]") rest) host
  ])

  unfoldable pub applies_to : Text → Instant → HstsStore → Bool
  applies_to raw now store = elim (canonical_name raw) [
    | none ↦ false
    | some name ↦
        if is_ip_literal name
        then false
        else let host : Text = to_ascii_lowercase name in
          exact_match host now store.hosts || any_parent (length host) host now store.hosts
  ]

  module _ (epoch last : Instant) where
    abbrev pub far_future : Instant
    far_future = unwrap_or (checked_add last epoch (from_secs far_future_secs)) epoch

    unfoldable pub learn : Text → Directive → Instant → HstsStore → HstsStore
    learn host directive now store =
        if nat_beq directive.max_age 0
        then record store { hosts = remove host store.hosts }
        else evict now (record store {
          hosts =
              insert host
                (record {
                  expires =
                      unwrap_or (checked_add last now (from_secs directive.max_age)) far_future;
                  include_subdomains = directive.include_subdomains;
                })
                store.hosts;
        })

    -- `HstsStore::record`.
    unfoldable pub record_header : Text → Text → Bool → Instant → HstsStore → HstsStore
    record_header raw value over_tls now store =
        if not over_tls then store else (elim (canonical_name raw) [
          | none ↦ store
          | some name ↦ if is_ip_literal name then store else (elim (parse value) [
            | none ↦ store
            | some directive ↦ learn (to_ascii_lowercase name) directive now store
          ])
        ])
