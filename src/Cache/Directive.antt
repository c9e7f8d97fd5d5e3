-- ===== src/Cache/Directive.antt =====
-- crates/chromulate-cache/src/directive.rs: `Cache-Control`.
pub mod Forbidden
use chromulate.Prelude.{
  ℕ, Bool, true, false, not, ◌||◌, Option, none, some, List, [], ◌∷◌, ◌==◌, if◌then◌else◌,
  unwrap_or,
}
use chromulate.Prelude.Text.{
  Text, ascii, text_comparable, trim, split, split_once, is_nil, all_digits, parse_digits, u64_max,
  to_ascii_lowercase, eq_ignore_ascii_case, strip_prefix, strip_suffix,
}
use chromulate.Prelude.Headers.{HeaderMaps}
use chromulate.Prelude.Time.{Duration, from_secs}

pub record CacheControl : Type 0 where
  pub no_store : Bool
  pub no_cache : Bool
  pub is_private : Bool
  pub is_public : Bool
  pub must_revalidate : Bool
  pub immutable : Bool
  pub max_age : Option ℕ
  pub s_maxage : Option ℕ

abbrev pub no_directives : CacheControl
no_directives = record {
  no_store = false;
  no_cache = false;
  is_private = false;
  is_public = false;
  must_revalidate = false;
  immutable = false;
  max_age = none;
  s_maxage = none;
}

unfoldable pub delta_seconds : Text → Option ℕ
delta_seconds value =
    if is_nil value || not (all_digits value)
    then none
    else some (unwrap_or (parse_digits value) u64_max)

unfoldable pub unquote : Text → Text
unquote value = elim (strip_prefix (ascii "\"") value) [
  | none ↦ value
  | some rest ↦ unwrap_or (strip_suffix (ascii "\"") rest) value
]

-- `argument.and_then(delta_seconds).or(previous)`.
unfoldable pub lifetime_or : Option Text → Option ℕ → Option ℕ
lifetime_or none previous = previous
lifetime_or (some argument) previous = elim (delta_seconds argument) [
  | none ↦ previous
  | some seconds ↦ some seconds
]

-- The name and the argument of a token that is not empty.
unfoldable pub name_and_argument : Text → Text × Option Text
name_and_argument token = elim (split_once b'=' token) [
  | none ↦ (token, none)
  | some (name, argument) ↦ (trim name, some (unquote (trim argument)))
]

-- The `match` of `absorb`, on the lower-case name.
unfoldable pub set_directive : Text → Option Text → CacheControl → CacheControl
set_directive name argument cc =
    if name == ascii "no-store"
    then record cc { no_store = true }
    else if name == ascii "no-cache"
    then record cc { no_cache = true }
    else if name == ascii "private"
    then record cc { is_private = true }
    else if name == ascii "public"
    then record cc { is_public = true }
    else if name == ascii "must-revalidate"
    then record cc { must_revalidate = true }
    else if name == ascii "immutable"
    then record cc { immutable = true }
    else if name == ascii "max-age"
    then record cc { max_age = lifetime_or argument cc.max_age }
    else if name == ascii "s-maxage"
    then record cc { s_maxage = lifetime_or argument cc.s_maxage }
    else cc

unfoldable pub absorb_token : Text → CacheControl → CacheControl
absorb_token raw cc =
    let token : Text = trim raw in
    if is_nil token
    then cc
    else set_directive (to_ascii_lowercase (name_and_argument token).0) (name_and_argument token).1
        cc

unfoldable pub absorb_tokens : List Text → CacheControl → CacheControl
absorb_tokens [] cc = cc
absorb_tokens (token ∷ tokens) cc = absorb_tokens tokens (absorb_token token cc)

unfoldable pub absorb : Text → CacheControl → CacheControl
absorb text cc = absorb_tokens (split b',' text) cc

-- Some token is `no-cache`, in any case.
unfoldable pub any_no_cache : List Text → Bool
any_no_cache [] = false
any_no_cache (t ∷ ts) = eq_ignore_ascii_case (trim t) (ascii "no-cache") || any_no_cache ts

module _ (hm : HeaderMaps) where
  unfoldable pub absorb_values : List Text → CacheControl → CacheControl
  absorb_values [] cc = cc
  absorb_values (v ∷ vs) cc =
      absorb_values vs (elim (hm.to_str v) [ none ↦ cc | some text ↦ absorb text cc ])

  unfoldable pub of : hm.Headers → CacheControl
  of headers = absorb_values (hm.get_all (ascii "cache-control") headers) no_directives

  unfoldable pub pragma_values : List Text → CacheControl → CacheControl
  pragma_values [] cc = cc
  pragma_values (v ∷ vs) cc = pragma_values vs (elim (hm.to_str v) [
    | none ↦ cc
    | some text ↦ if any_no_cache (split b',' text) then record cc { no_cache = true } else cc
  ])

  -- `Pragma` is read only where there is no `Cache-Control`.
  unfoldable pub of_request : hm.Headers → CacheControl
  of_request headers =
      if hm.contains_key (ascii "cache-control") headers
      then of headers
      else pragma_values (hm.get_all (ascii "pragma") headers) (of headers)

unfoldable pub explicit_lifetime : CacheControl → Option Duration
explicit_lifetime cc = elim cc.max_age [ none ↦ none | some s ↦ some (from_secs s) ]
