-- ===== src/Cache/Entry.antt =====
-- crates/chromulate-cache/src/entry.rs: stored responses, their selectors, and `Vary`.
use chromulate.Prelude.{
  ℕ, Bool, true, false, not, ◌&&◌, ◌||◌, Option, none, some, List, [], ◌∷◌, ◌++◌, ltb, nat_beq,
  ◌==◌, if◌then◌else◌, unwrap_or,
}
use chromulate.Prelude.Time.{Instant, Duration, from_secs}
use chromulate.Prelude.Text.{
  Text, ascii, text_comparable, text_beq, trim, split, is_nil, all_digits, parse_digits, u64_max,
}
use chromulate.Prelude.Headers.{HeaderMaps}
use chromulate.Cache.Date.{Platform, parse_http_date}

-- The order of strings by their bytes.
unfoldable pub text_leb : Text → Text → Bool
text_leb [] t = true
text_leb (x ∷ xs) [] = false
text_leb (x ∷ xs) (y ∷ ys) = ltb x y || (nat_beq x y && text_leb xs ys)

unfoldable pub insert_name : Text → List Text → List Text
insert_name n [] = n ∷ []
insert_name n (m ∷ ms) = if text_leb n m then n ∷ m ∷ ms else m ∷ insert_name n ms

unfoldable pub sort_names : List Text → List Text
sort_names [] = []
sort_names (n ∷ ns) = insert_name n (sort_names ns)

-- `Vec::dedup`.
unfoldable pub dedup_from : Text → List Text → List Text
dedup_from n [] = n ∷ []
dedup_from n (m ∷ ms) = if n == m then dedup_from n ms else n ∷ dedup_from m ms

unfoldable pub dedup : List Text → List Text
dedup [] = []
dedup (n ∷ ns) = dedup_from n ns

unfoldable pub values_beq : List Text → List Text → Bool
values_beq [] [] = true
values_beq [] (y ∷ ys) = false
values_beq (x ∷ xs) [] = false
values_beq (x ∷ xs) (y ∷ ys) = text_beq x y && values_beq xs ys

abbrev pub Selector : Type 0
Selector = List (Text × List Text)

unfoldable pub is_hop_by_hop : Text → Bool
is_hop_by_hop name =
    name == ascii "connection"
    || name == ascii "keep-alive"
    || name == ascii "proxy-authenticate"
    || name == ascii "proxy-authorization"
    || name == ascii "proxy-connection"
    || name == ascii "te"
    || name == ascii "trailer"
    || name == ascii "transfer-encoding"
    || name == ascii "upgrade"

module _ (hm : HeaderMaps) where
  -- `Selector::of` and `Selector::matches`.
  unfoldable pub selector_of : List Text → hm.Headers → Selector
  selector_of [] request = []
  selector_of (n ∷ ns) request = (n, hm.get_all n request) ∷ selector_of ns request

  unfoldable pub matches : Selector → hm.Headers → Bool
  matches [] request = true
  matches ((n, stored) ∷ fields) request =
      values_beq (hm.get_all n request) stored && matches fields request

  -- The names of one value's tokens; `none` for `*` and for what is no name.
  unfoldable pub vary_tokens : List Text → Option (List Text)
  vary_tokens [] = some []
  vary_tokens (raw ∷ tokens) =
      let token : Text = trim raw in
      let rest : Option (List Text) = vary_tokens tokens in
      if is_nil token
      then rest
      else if token == ascii "*"
      then none
      else (elim (hm.header_name token) [
        | none ↦ none
        | some name ↦ elim rest [ none ↦ none | some names ↦ some (name ∷ names) ]
      ])

  unfoldable pub vary_values : List Text → Option (List Text)
  vary_values [] = some []
  vary_values (value ∷ values) = elim (hm.to_str value) [
    | none ↦ none
    | some text ↦ elim (vary_tokens (split b',' text)) [
      | none ↦ none
      | some names ↦ elim (vary_values values) [ none ↦ none | some more ↦ some (names ++ more) ]
    ]
  ]

  unfoldable pub vary_names : hm.Headers → Option (List Text)
  vary_names headers = elim (vary_values (hm.get_all (ascii "vary") headers)) [
    | none ↦ none
    | some names ↦ some (dedup (sort_names names))
  ]

pub record CacheEntry (H : Type 0) : Type 0 where
  pub status : ℕ
  pub version : ℕ
  pub headers : H
  pub body : List ℕ
  pub selector : Selector
  pub requested_at : Instant
  pub received_at : Instant

module _ (hm : HeaderMaps) (p : Platform) where
  unfoldable pub header_date : hm.Headers → Text → Option Instant
  header_date headers name = elim (hm.get name headers) [
    | none ↦ none
    | some value ↦ elim (hm.to_str value) [ none ↦ none | some text ↦ parse_http_date p text ]
  ]

  unfoldable pub date : CacheEntry hm.Headers → Option Instant
  date entry = header_date entry.headers (ascii "date")

  unfoldable pub last_modified : CacheEntry hm.Headers → Option Instant
  last_modified entry = header_date entry.headers (ascii "last-modified")

  unfoldable pub effective_date : CacheEntry hm.Headers → Instant
  effective_date entry = unwrap_or (date entry) entry.received_at

  unfoldable pub age_field : CacheEntry hm.Headers → Option Duration
  age_field entry = elim (hm.get (ascii "age") entry.headers) [
    | none ↦ none
    | some value ↦ elim (hm.to_str value) [
      | none ↦ none
      | some text ↦
          if is_nil text || not (all_digits text)
          then none
          else some (from_secs (unwrap_or (parse_digits text) u64_max))
    ]
  ]

  -- A date that cannot be read is in the past.
  unfoldable pub expires_field : CacheEntry hm.Headers → Option Instant
  expires_field entry = elim (hm.get (ascii "expires") entry.headers) [
    | none ↦ none
    | some value ↦ elim (hm.to_str value) [
      | none ↦ some p.epoch
      | some text ↦ some (unwrap_or (parse_http_date p text) p.epoch)
    ]
  ]
