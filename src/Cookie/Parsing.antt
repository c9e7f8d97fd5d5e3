-- ===== src/Cookie/Parsing.antt =====
-- crates/chromulate-cookie/src/cookie.rs and same_site.rs: a `Set-Cookie` value, and which requests
-- a cookie applies to.
pub mod Accepted
use chromulate.Prelude.{
  ℕ, zero, suc, ◌+◌, ◌*◌, min, Bool, true, false, not, ◌&&◌, ◌||◌, Option, none, some, List, [],
  ◌∷◌, leb, nat_beq, if◌then◌else◌, length, take, ◌==◌, is_some, unwrap_or,
}
use chromulate.Prelude.Time.{Instant, from_secs, checked_add}
use chromulate.Prelude.Int.{ℤ, pos, negsuc, parse_i64}
use chromulate.Prelude.Text.{
  Text, ascii, text_comparable, is_nil, trim, split, split_once, strip_prefix, to_ascii_lowercase,
  eq_ignore_ascii_case,
}
use chromulate.Prelude.Headers.{HeaderMaps}
use chromulate.Core.Uri.{Origin}
use chromulate.Cache.Date.{Platform}
use chromulate.Cache.Directive.{unquote}
use chromulate.Cookie.Domain.{
  Suffixes, is_ip_literal, is_public_suffix, domain_matches, is_same_site,
}
use chromulate.Cookie.Path.{starts_with, default_path, path_matches}
use chromulate.Cookie.Expiry.{parse_cookie_date}

pub data SameSite : Type 0 where
  strict lax no_restriction : SameSite

pub record Cookie : Type 0 where
  pub name : Text
  pub value : Text
  pub domain : Text
  pub host_only : Bool
  pub path : Text
  pub secure : Bool
  pub http_only : Bool
  pub same_site : SameSite
  pub partitioned : Bool
  pub expires : Option Instant

abbrev pub max_cookie_lifetime : ℕ
max_cookie_lifetime = from_secs (400 * 24 * 60 * 60)

unfoldable pub starts_with_ignore_ascii_case : Text → Text → Bool
starts_with_ignore_ascii_case text prefix =
    leb (length prefix) (length text) && eq_ignore_ascii_case (take (length prefix) text) prefix

unfoldable pub has_host_prefix : Text → Bool
has_host_prefix name = starts_with_ignore_ascii_case name (ascii "__Host-")

unfoldable pub has_secure_prefix : Text → Bool
has_secure_prefix name = starts_with_ignore_ascii_case name (ascii "__Secure-")

unfoldable pub carries_a_name_prefix : Text → Bool
carries_a_name_prefix name = has_host_prefix name || has_secure_prefix name

unfoldable pub keeps_name_prefix_promise : Text → Bool → Bool → Text → Bool
keeps_name_prefix_promise name secure host_only path =
    if has_host_prefix name
    then secure && (host_only && path == ascii "/")
    else if has_secure_prefix name
    then secure
    else true

-- The attributes read so far.
pub record Attributes : Type 0 where
  pub expires : Option Instant
  pub max_age : Option ℤ
  pub domain : Option Text
  pub path : Option Text
  pub secure : Bool
  pub http_only : Bool
  pub same_site : Option SameSite
  pub partitioned : Bool

abbrev pub no_attributes : Attributes
no_attributes = record {
  expires = none;
  max_age = none;
  domain = none;
  path = none;
  secure = false;
  http_only = false;
  same_site = none;
  partitioned = false;
}

-- `x.or(previous)`, for attributes whose values may not parse.
abbrev pub or_before {ℓ} : {A : Type ℓ} → Option A → Option A → Option A
or_before none previous = previous
or_before (some v) previous = some v

unfoldable pub same_site_of : Text → Option SameSite
same_site_of v =
    if to_ascii_lowercase v == ascii "strict"
    then some strict
    else if to_ascii_lowercase v == ascii "lax"
    then some lax
    else if to_ascii_lowercase v == ascii "none"
    then some no_restriction
    else none

-- The `Domain` attribute of a value: without its dot, in lower case, if anything is left.
unfoldable pub domain_attribute : Text → Option Text
domain_attribute v =
    let stripped : Text = unwrap_or (strip_prefix (ascii ".") v) v in
    if is_nil stripped then none else some (to_ascii_lowercase stripped)

module _ (p : Platform) where
  -- The `match` on an attribute's name in lower case.
  unfoldable pub set_attribute : Text → Option Text → Attributes → Attributes
  set_attribute name none a =
      if name == ascii "secure"
      then record a { secure = true }
      else if name == ascii "httponly"
      then record a { http_only = true }
      else if name == ascii "partitioned"
      then record a { partitioned = true }
      else a
  set_attribute name (some v) a =
      if name == ascii "expires"
      then record a { expires = or_before (parse_cookie_date p v) a.expires }
      else if name == ascii "max-age"
      then record a { max_age = or_before (parse_i64 v) a.max_age }
      else if name == ascii "domain"
      then record a { domain = or_before (domain_attribute v) a.domain }
      else if name == ascii "path"
      then record a { path = some v }
      else if name == ascii "secure"
      then record a { secure = true }
      else if name == ascii "httponly"
      then record a { http_only = true }
      else if name == ascii "samesite"
      then record a { same_site = same_site_of v }
      else if name == ascii "partitioned"
      then record a { partitioned = true }
      else a

  unfoldable pub read_segment : Text → Attributes → Attributes
  read_segment raw a =
      let segment : Text = trim raw in
      if is_nil segment then a else (elim (split_once b'=' segment) [
        | none ↦ set_attribute (to_ascii_lowercase (trim segment)) none a
        | some (name, v) ↦ set_attribute (to_ascii_lowercase (trim name)) (some (trim v)) a
      ])

  unfoldable pub read_segments : List Text → Attributes → Attributes
  read_segments [] a = a
  read_segments (s ∷ segments) a = read_segments segments (read_segment s a)

  unfoldable pub resolved_expires : Instant → Attributes → Option Instant
  resolved_expires now a =
      let lifetime_cap : ℕ = unwrap_or (checked_add p.last now max_cookie_lifetime) now in
      elim a.max_age [
        | some age ↦ elim age [
          | pos n ↦
              if nat_beq n 0
              then some now
              else some
                  (min (unwrap_or (checked_add p.last now (from_secs n)) lifetime_cap) lifetime_cap)
          | negsuc n ↦ some now
        ]
        | none ↦ elim a.expires [ none ↦ none | some e ↦ some (min e lifetime_cap) ]
      ]

-- The request that a cookie came with.
pub record Request : Type 0 where
  pub host : Text
  pub path : Text
  pub is_secure : Bool
  pub now : Instant

unfoldable pub cookie_path : Text → Option Text → Text
cookie_path request_path none = default_path request_path
cookie_path request_path (some v) =
    if starts_with (ascii "/") v then v else default_path request_path

abbrev pub is_no_restriction : SameSite → Bool
is_no_restriction no_restriction = true
is_no_restriction _ = false

module _ (ps : Suffixes) where
  -- The domain and whether it is the host alone; `none` refuses the cookie.
  unfoldable pub scope : Text → Option Text → Option (Text × Bool)
  scope request_host none = some (request_host, true)
  scope request_host (some d) =
      if is_ip_literal ps request_host
      then (if d == request_host then some (request_host, true) else none)
      else if is_public_suffix ps d || not (domain_matches ps request_host d)
      then none
      else some (d, false)

  module _ (p : Platform) where
    -- `Cookie::parse` behind the attributes.
    unfoldable pub accept : Request → Text → Text → Attributes → Option Cookie
    accept request name value a = elim (scope request.host a.domain) [
      | none ↦ none
      | some (domain, host_only) ↦
          let path : Text = cookie_path request.path a.path in
          let same_site : SameSite = unwrap_or a.same_site lax in
          if is_no_restriction same_site && not a.secure
          then none
          else if carries_a_name_prefix name && not request.is_secure
          then none
          else if carries_a_name_prefix name
              && not (keeps_name_prefix_promise name a.secure (not (is_some a.domain)) path)
          then none
          else some (record {
            name = name;
            value = value;
            domain = domain;
            host_only = host_only;
            path = path;
            secure = a.secure;
            http_only = a.http_only;
            same_site = same_site;
            partitioned = a.partitioned;
            expires = resolved_expires p request.now a;
          })
    ]

    unfoldable pub parse_segments : Request → List Text → Option Cookie
    parse_segments request [] = none
    parse_segments request (first ∷ segments) = elim (split_once b'=' (trim first)) [
      | none ↦ none
      | some (name, value) ↦
          if is_nil (trim name)
          then none
          else accept request (trim name) (unquote (trim value))
              (read_segments p segments no_attributes)
    ]

    -- `Cookie::parse`.
    unfoldable pub parse : (hm : HeaderMaps) → Text → Request → Option Cookie
    parse hm header request = elim (hm.to_str header) [
      | none ↦ none
      | some raw ↦ parse_segments request (split b';' raw)
    ]

  unfoldable pub applies_to : Cookie → Text → Text → Bool → Bool
  applies_to c request_host request_path request_is_secure =
      if c.secure && not request_is_secure
      then false
      else (if c.host_only
          then request_host == c.domain
          else domain_matches ps request_host c.domain)
        && path_matches request_path c.path

  unfoldable pub same_site_eligible : Cookie → Text → Option Origin → Bool → Bool
  same_site_eligible c request_host initiator is_top_level_navigation =
      let same : Bool = (elim initiator [
        | none ↦ false
        | some o ↦ is_same_site ps o.host request_host
      ]) in
      elim c.same_site [
        | no_restriction ↦ true
        | lax ↦ same || is_top_level_navigation
        | strict ↦ same
      ]

unfoldable pub is_expired : Cookie → Instant → Bool
is_expired c now = elim c.expires [ none ↦ false | some expiry ↦ leb expiry now ]
