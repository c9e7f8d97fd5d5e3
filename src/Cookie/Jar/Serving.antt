-- ===== src/Cookie/Jar/Serving.antt =====
-- `Jar::cookies_for` of crates/chromulate-cookie/src/jar.rs. `HeaderValue::from_str` of the `http`
-- crate is a parameter. The read lock lets the access numbers change, which are atomic.
pub mod Order
pub mod Sendable
pub mod Sent
pub mod Accessed
use chromulate.Prelude.{
  ℕ, ◌+◌, Bool, true, false, not, ◌&&◌, ◌||◌, Option, none, some, List, [], ◌∷◌, ◌++◌, ltb, leb,
  nat_beq, if◌then◌else◌, length, filter,
}
use chromulate.Prelude.Text.{Text, ascii, text_comparable, is_nil}
use chromulate.Prelude.Assoc.{lookup, insert}
use chromulate.Core.Uri.{Origin}
use chromulate.Cookie.Domain.{Suffixes, site_of}
use chromulate.Cookie.Parsing.{Request, is_expired, applies_to, same_site_eligible}
use chromulate.Cookie.Bucket.{Entry, Bucket}
use chromulate.Cookie.Jar.{Store, Counters, bumped}
use chromulate.Cookie.Jar.Storing.{Jar}

-- `CookieContext` of crates/chromulate-core/src/request.rs.
pub record CookieContext : Type 0 where
  pub initiator : Option Origin
  pub is_top_level_navigation : Bool

unfoldable header_safe : Text → Bool
header_safe [] = true
header_safe (c ∷ s) = (nat_beq c 9 || (leb 32 c && leb c 126)) && header_safe s

unfoldable has_byte : ℕ → Text → Bool
has_byte b [] = false
has_byte b (c ∷ s) = nat_beq b c || has_byte b s

unfoldable pub is_representable : Text → Text → Bool
unfolding header_safe has_byte
is_representable name value =
    not (is_nil name)
    && (header_safe name
        && (header_safe value
            && (not (has_byte b';' name || has_byte b'=' name) && not (has_byte b';' value))))

unfoldable pub is_match : Suffixes → Request → CookieContext → Entry → Bool
is_match ps request context e =
    not (is_expired e.cookie request.now)
    && (applies_to ps e.cookie request.host request.path request.is_secure
        && same_site_eligible ps e.cookie request.host context.initiator
            context.is_top_level_navigation)

-- The comparison of the sort: whether `a` may stand before `b`.
unfoldable pub before : Entry → Entry → Bool
before a b =
    if nat_beq (length b.cookie.path) (length a.cookie.path)
    then leb a.creation_seq b.creation_seq
    else ltb (length b.cookie.path) (length a.cookie.path)

-- `sort_by`, which is stable.
unfoldable pub insert_sorted : Entry → List Entry → List Entry
insert_sorted e [] = e ∷ []
insert_sorted e (f ∷ fs) = if before e f then e ∷ f ∷ fs else f ∷ insert_sorted e fs

unfoldable pub sort : List Entry → List Entry
unfolding insert_sorted
sort [] = []
sort (e ∷ es) = insert_sorted e (sort es)

unfoldable pub pair_text : Entry → Text
pair_text e = e.cookie.name ++ ascii "=" ++ e.cookie.value

unfoldable pub join : List Entry → Text
unfolding pair_text
join [] = []
join (e ∷ []) = pair_text e
join (e ∷ f ∷ es) = pair_text e ++ ascii "; " ++ join (f ∷ es)

-- The matches get the access number.
unfoldable pub accessed : (Entry → Bool) → ℕ → List Entry → List Entry
accessed p access [] = []
accessed p access (e ∷ es) =
    let rest : List Entry = accessed p access es in
    if p e then record e { last_access_seq = access } ∷ rest else e ∷ rest

-- The header of the matches, without those that no header can hold if it comes to that.
unfoldable pub header_of : (Text → Option Text) → List Entry → Option Text
unfolding join is_representable
header_of from_str matches = elim (from_str (join matches)) [
  | some header ↦ some header
  | none ↦
      let fit : List Entry = filter (λ e. is_representable e.cookie.name e.cookie.value) matches in
      elim fit [ [] ↦ none | e ∷ es ↦ from_str (join (e ∷ es)) ]
]

unfoldable pub matches_in : Suffixes → Request → CookieContext → Bucket → List Entry
unfolding is_match sort
matches_in ps request context b = sort (filter (is_match ps request context) b.entries)

-- `Jar::cookies_for`.
unfoldable pub cookies_for :
    Suffixes → (Text → Option Text) → Option Request → CookieContext → Jar → Option Text × Jar
unfolding matches_in header_of accessed
cookies_for ps from_str none context jar = (none, jar)
cookies_for ps from_str (some request) context (store, n) =
    let site : Text = site_of ps request.host in
    elim (lookup site store.sites) [
      | none ↦ (none, (store, n))
      | some b ↦ elim (matches_in ps request context b) [
        | [] ↦ (none, (store, n))
        | e ∷ es ↦
            let entries : List Entry = accessed (is_match ps request context) n.access b.entries in
            (
              header_of from_str (e ∷ es),
              (
                record store { sites = insert site (record b { entries = entries }) store.sites },
                record n { access = bumped n.access },
              ),
            )
      ]
    ]
