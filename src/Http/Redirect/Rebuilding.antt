-- ===== src/Http/Redirect/Rebuilding.antt =====
-- The headers of the next request of a redirect chain: `rebuild` of engine.rs with
-- `strip_credentials` of redirect.rs.
use chromulate.Prelude.{
  Bool, false, ◌&&◌, ◌||◌, List, [], ◌∷◌, ◌≡◌, ◌⊎◌, inl, inr, refl, sym, ap, ◌∙◌, arith, ◌==◌,
  if◌then◌else◌, Bool-cases,
}
use chromulate.Prelude.Text.{Text, ascii, text_comparable}
use chromulate.Prelude.Headers.{HeaderMaps}
use chromulate.Core.Error.{}
use chromulate.Core.Uri.{Urls}
use chromulate.Http.Redirect.{
  Hop, Parts, credential_headers, remove_all, strip_credentials, hop_headers, rebuild,
}

-- A field that carries credentials to a server or to a proxy.
abbrev pub is_credential : Text → Bool
is_credential n =
    ascii "authorization" == n || ascii "proxy-authorization" == n || ascii "cookie" == n

one_of : Text → List Text → Bool
one_of n [] = false
one_of n (m ∷ ms) = m == n || one_of n ms

one_of_three : (n a b c : Text) → one_of n (a ∷ b ∷ c ∷ []) ≡ (a == n || c == n || b == n)
unfolding one_of
one_of_three n a b c = elim (Bool-cases (a == n)) [
  | inl e ↦ rw e refl
  | inr e ↦ elim (Bool-cases (b == n)) [
    | inl k ↦ elim (Bool-cases (c == n)) [ inl m ↦ rw (e, k, m) refl | inr m ↦ rw (e, k, m) refl ]
    | inr k ↦ elim (Bool-cases (c == n)) [ inl m ↦ rw (e, k, m) refl | inr m ↦ rw (e, k, m) refl ]
  ]
]

module _ (hm : HeaderMaps) where
  get_all-remove_all :
      (names : List Text) (n : Text) (headers : hm.Headers)
      → hm.get_all n (remove_all hm names headers)
        ≡ (if one_of n names then [] else hm.get_all n headers)
  unfolding remove_all one_of
  get_all-remove_all [] n headers = refl
  get_all-remove_all (m ∷ ms) n headers =
      ground (arith, get_all-remove_all ms n (hm.remove m headers), hm.get_all-remove m n headers)

  get_all-strip_credentials :
      (n : Text) (headers : hm.Headers)
      → hm.get_all n (strip_credentials hm headers)
        ≡ (if is_credential n then [] else hm.get_all n headers)
  unfolding strip_credentials
  get_all-strip_credentials n headers =
      get_all-remove_all credential_headers n headers
      ∙ ap (λ (b : Bool). if b then [] else hm.get_all n headers)
          (one_of_three n (ascii "authorization") (ascii "cookie") (ascii "proxy-authorization"))

Sum-cases : {A B : Type 0} (x : A ⊎ B) → ((a : A) × (x ≡ inl a)) ⊎ ((b : B) × (x ≡ inr b))
Sum-cases (inl a) = inl (a, refl)
Sum-cases (inr b) = inr (b, refl)

-- A field that describes the body.
abbrev pub is_of_body : Text → Bool
is_of_body n =
    ascii "content-length" == n || ascii "content-type" == n || ascii "transfer-encoding" == n

joined :
    (x y z : Bool) (vs : List Text)
    → (if z then [] else if y then [] else if x then [] else vs) ≡ (if x || y || z then [] else vs)
joined x y z vs = ground arith

module _ (u : Urls) (hm : HeaderMaps) where
  -- The fields that do not go on to the next request.
  abbrev pub is_left_behind : Hop u.Url → Text → Bool
  is_left_behind hop n =
      (hop.cross_origin && is_credential n) || (hop.drop_body && is_of_body n) || ascii "host" == n

  stripped : Hop u.Url → hm.Headers → hm.Headers
  stripped hop headers = if hop.cross_origin then strip_credentials hm headers else headers

  bare : Hop u.Url → hm.Headers → hm.Headers
  bare hop headers =
      if hop.drop_body
      then hm.remove (ascii "transfer-encoding")
          (hm.remove (ascii "content-type") (hm.remove (ascii "content-length") headers))
      else headers

  get_all-stripped :
      (hop : Hop u.Url) (n : Text) (headers : hm.Headers)
      → hm.get_all n (stripped hop headers)
        ≡ (if hop.cross_origin && is_credential n then [] else hm.get_all n headers)
  unfolding stripped
  get_all-stripped hop n headers = elim (Bool-cases hop.cross_origin) [
    | inl e ↦ rw e (get_all-strip_credentials hm n headers)
    | inr e ↦ rw e refl
  ]

  removed_three :
      (a b c n : Text) (headers : hm.Headers)
      → hm.get_all n (hm.remove c (hm.remove b (hm.remove a headers)))
        ≡ (if a == n || b == n || c == n then [] else hm.get_all n headers)
  removed_three a b c n headers =
      rw
        (
          hm.get_all-remove c n (hm.remove b (hm.remove a headers)),
          hm.get_all-remove b n (hm.remove a headers),
          hm.get_all-remove a n headers,
        )
        (joined (a == n) (b == n) (c == n) (hm.get_all n headers))

  get_all-bare :
      (hop : Hop u.Url) (n : Text) (headers : hm.Headers)
      → hm.get_all n (bare hop headers)
        ≡ (if hop.drop_body && is_of_body n then [] else hm.get_all n headers)
  unfolding bare
  get_all-bare hop n headers = elim (Bool-cases hop.drop_body) [
    | inl e ↦ rw e (
        removed_three (ascii "content-length") (ascii "content-type") (ascii "transfer-encoding") n
          headers)
    | inr e ↦ rw e refl
  ]

  get_all-hop_headers :
      (hop : Hop u.Url) (n : Text) (headers : hm.Headers)
      → hm.get_all n (hop_headers u hm hop headers)
        ≡ (if is_left_behind hop n then [] else hm.get_all n headers)
  unfolding hop_headers stripped bare
  get_all-hop_headers hop n headers =
      hm.get_all-remove (ascii "host") n (bare hop (stripped hop headers))
      ∙ ap (λ vs. if ascii "host" == n then [] else vs)
          (get_all-bare hop n (stripped hop headers)
            ∙ ap (λ vs. if hop.drop_body && is_of_body n then [] else vs)
                (get_all-stripped hop n headers))
      ∙ joined (hop.cross_origin && is_credential n) (hop.drop_body && is_of_body n)
          (ascii "host" == n) (hm.get_all n headers)

  -- The request that `rebuild` makes for a hop has the hop's method and the body that it is given.
  -- The fields `authorization`, `proxy-authorization` and `cookie` have no value in it if the hop
  -- leaves the origin, nor have `content-length`, `content-type` and `transfer-encoding` if the hop
  -- drops the body, nor has `host`; every other field has the values that it had.
  pub get_all-rebuild :
      {Uri Body : Type 0} (parse : Text → Text ⊎ Uri) (previous next : Parts Uri hm.Headers Body)
      (hop : Hop u.Url) (content : Body)
      → rebuild u hm parse previous hop content ≡ inr next
      → (next.verb ≡ hop.verb)
        × (next.content ≡ content)
        × ((n : Text)
            → hm.get_all n next.headers
              ≡ (if is_left_behind hop n then [] else hm.get_all n previous.headers))
  unfolding rebuild
  get_all-rebuild parse previous next hop content h = elim (Sum-cases (parse (u.as_str hop.url))) [
    | inl (e, k) ↦ absurd (ground (arith, h, k))
    | inr (uri, k) ↦
        let headers : hop_headers u hm hop previous.headers ≡ next.headers = ground (arith, h, k) in
        (
          ground (arith, h, k),
          ground (arith, h, k),
          λ n. ap (hm.get_all n) (sym headers) ∙ get_all-hop_headers hop n previous.headers,
        )
  ]
