-- ===== src/Http/Redirect.antt =====
-- crates/chromulate-http/src/redirect.rs: what a 3xx response means for the next request.
pub mod Decisions
pub mod Rebuilding
mod Tests
use chromulate.Prelude.{
  ℕ, Bool, true, false, not, ◌&&◌, ◌||◌, Option, none, some, List, [], ◌∷◌, ◌++◌, ◌⊎◌, inl, inr,
  nat_beq, leb, ◌==◌, if◌then◌else◌,
}
use chromulate.Prelude.Text.{Text, ascii, text_comparable, trim}
use chromulate.Prelude.Headers.{HeaderMaps}
use chromulate.Core.Error.{Error, redirect, too_many_redirects}
use chromulate.Core.Uri.{Urls, origin_of, origin_beq}

abbrev pub credential_headers : List Text
credential_headers = ascii "authorization" ∷ ascii "cookie" ∷ ascii "proxy-authorization" ∷ []

pub record Hop (Url : Type 0) : Type 0 where
  pub url : Url
  pub verb : Text
  pub drop_body : Bool
  pub cross_origin : Bool

pub data Decision (Url : Type 0) : Type 0 where
  stop : Decision Url
  follow : Hop Url → Decision Url

unfoldable pub is_redirect : ℕ → Bool
is_redirect s = nat_beq s 301 || nat_beq s 302 || nat_beq s 303 || nat_beq s 307 || nat_beq s 308

unfoldable pub method_after : ℕ → Text → Text
method_after s verb =
    if (nat_beq s 301 || nat_beq s 302) && verb == ascii "POST"
    then ascii "GET"
    else if nat_beq s 303 && (not (verb == ascii "GET") && not (verb == ascii "HEAD"))
    then ascii "GET"
    else verb

module _ (hm : HeaderMaps) where
  unfoldable pub remove_all : List Text → hm.Headers → hm.Headers
  remove_all [] headers = headers
  remove_all (n ∷ ns) headers = remove_all ns (hm.remove n headers)

  unfoldable pub strip_credentials : hm.Headers → hm.Headers
  strip_credentials headers = remove_all credential_headers headers

-- What a hop changes of a request; the version and the extensions stay.
pub record Parts (Uri Headers Body : Type 0) : Type 0 where
  pub verb : Text
  pub uri : Uri
  pub headers : Headers
  pub content : Body

-- `rebuild` of crates/chromulate-http/src/engine.rs. `parse` reads a `Uri` of the `http` crate, or
-- says why it cannot.
module _ (u : Urls) (hm : HeaderMaps) where
  unfoldable pub hop_headers : Hop u.Url → hm.Headers → hm.Headers
  unfolding strip_credentials
  hop_headers hop headers =
      let stripped : hm.Headers =
        if hop.cross_origin then strip_credentials hm headers else headers in
      let bare : hm.Headers =
        if hop.drop_body
        then hm.remove (ascii "transfer-encoding")
            (hm.remove (ascii "content-type") (hm.remove (ascii "content-length") stripped))
        else stripped in
      hm.remove (ascii "host") bare

  unfoldable pub rebuild :
      {Uri Body : Type 0} (parse : Text → Text ⊎ Uri)
      → Parts Uri hm.Headers Body
      → Hop u.Url
      → Body
      → Error ⊎ Parts Uri hm.Headers Body
  unfolding hop_headers
  rebuild parse previous hop content = elim (parse (u.as_str hop.url)) [
    | inl e ↦ inl (redirect (ascii "redirect target is not a valid URI: " ++ e))
    | inr uri ↦ inr (record {
      verb = hop.verb;
      uri = uri;
      headers = hop_headers hop previous.headers;
      content = content;
    })
  ]

module _ (u : Urls) where
  -- An origin that cannot be computed counts as another one.
  unfoldable pub crosses_origin : u.Url → u.Url → Bool
  crosses_origin from to = elim (origin_of u from) [
    | inl e ↦ true
    | inr a ↦ elim (origin_of u to) [ inl e ↦ true | inr b ↦ not (origin_beq a b) ]
  ]

  abbrev pub follows : ℕ → Text → u.Url → u.Url → Decision u.Url
  follows code verb current target = follow (record {
    url = target;
    verb = method_after code verb;
    drop_body = not (method_after code verb == verb);
    cross_origin = crosses_origin current target;
  })

  module _ (hm : HeaderMaps) where
    unfoldable pub resolve_location : u.Url → Text → Error ⊎ u.Url
    resolve_location current location = elim (hm.to_str location) [
      | none ↦ inl (redirect (ascii "the Location header is not valid text"))
      | some raw ↦ elim (u.join current (trim raw)) [
        | inl e ↦ inl (redirect (ascii "the Location header is not a usable URL: " ++ e))
        | inr target ↦ inr target
      ]
    ]

    unfoldable pub decide : ℕ → hm.Headers → u.Url → Text → Option ℕ → ℕ → Error ⊎ Decision u.Url
    decide code headers current verb limit hops =
        if not (is_redirect code) then inr stop else (elim limit [
          | none ↦ inr stop
          | some most ↦ elim (hm.get (ascii "location") headers) [
            | none ↦ inr stop
            | some location ↦
                if leb most hops
                then inl (too_many_redirects most)
                else (elim (resolve_location current location) [
                  | inl e ↦ inl e
                  | inr target ↦
                      if not (u.scheme target == ascii "http")
                        && not (u.scheme target == ascii "https")
                      then inl (
                          redirect (
                            ascii "refusing to follow a redirect to the `"
                            ++ u.scheme target
                            ++ ascii "` scheme"))
                      else inr (follows code verb current target)
                ])
          ]
        ])
