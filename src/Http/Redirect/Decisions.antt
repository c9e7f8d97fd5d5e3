-- ===== src/Http/Redirect/Decisions.antt =====
-- What `decide` and `strip_credentials` of redirect.rs guarantee.
use chromulate.Prelude.{
  ℕ, ◌<◌, true, false, not, ◌&&◌, Option, none, some, ◌++◌, subst, ◌≡◌, ◌⊎◌, inl, inr, refl, ap,
  arith, leb, ◌==◌, if◌then◌else◌, Option-cases, Bool-cases,
}
use chromulate.Prelude.Text.{Text, ascii, text_comparable, text_beq_iff}
use chromulate.Prelude.Headers.{HeaderMaps}
use chromulate.Core.Error.{Error, redirect}
use chromulate.Core.Uri.{Urls, Origin, origin_of, origin_beq, origin_beq_iff}
use chromulate.Http.Redirect.{
  Hop, follow, is_redirect, method_after, crosses_origin, follows, resolve_location, decide,
}

same_sides :
    (x y : Error ⊎ Origin)
    → (elim x [ inl e ↦ true | inr a ↦ elim y [ inl e ↦ true | inr b ↦ not (origin_beq a b) ] ])
      ≡ false
    → (o : Origin) × (x ≡ inr o) × (y ≡ inr o)
same_sides (inl e) y h = absurd (ground arith)
same_sides (inr a) (inl e) h = absurd (ground arith)
same_sides (inr a) (inr b) h = (b, ap inr ((origin_beq_iff a b).0 (ground (arith, h))), refl)

module _ (u : Urls) where
  same_origin :
      (from to : u.Url)
      → crosses_origin u from to ≡ false
      → (o : Origin) × (origin_of u from ≡ inr o) × (origin_of u to ≡ inr o)
  unfolding crosses_origin
  same_origin from to h = same_sides (origin_of u from) (origin_of u to) h

  -- What a hop that `decide` follows has to have.
  pub record IsHop (code : ℕ) (current : u.Url) (verb : Text) (limit : Option ℕ) (hops : ℕ)
      (hop : Hop u.Url) : Type 0 where
    pub redirects : is_redirect code ≡ true
    pub allowed : (most : ℕ) × (limit ≡ some most) × (hops < most)
    pub web : (u.scheme hop.url ≡ ascii "http") ⊎ (u.scheme hop.url ≡ ascii "https")
    pub stays :
        hop.cross_origin ≡ false
        → (o : Origin) × (origin_of u current ≡ inr o) × (origin_of u hop.url ≡ inr o)
    pub keeps_body : hop.drop_body ≡ false → hop.verb ≡ verb
    pub drops_body : hop.drop_body ≡ true → hop.verb ≡ ascii "GET"

  method_after_cases :
      (code : ℕ) (verb : Text)
      → (method_after code verb ≡ verb) ⊎ (method_after code verb ≡ ascii "GET")
  unfolding method_after
  method_after_cases code verb = ground arith

  follows-IsHop :
      (code : ℕ) (current target : u.Url) (verb : Text) (most hops : ℕ)
      → is_redirect code ≡ true
      → hops < most
      → (u.scheme target ≡ ascii "http") ⊎ (u.scheme target ≡ ascii "https")
      → IsHop code current verb (some most) hops (record {
        url = target;
        verb = method_after code verb;
        drop_body = not (method_after code verb == verb);
        cross_origin = crosses_origin u current target;
      })
  follows-IsHop code current target verb most hops r h w =
      let same = text_beq_iff (method_after code verb) verb in
      record {
        redirects = r;
        allowed = (most, refl, h);
        web = w;
        stays = same_origin current target;
        keeps_body = λ e. ground (arith, e, same);
        drops_body = λ e. ground (arith, e, same, method_after_cases code verb);
      }

  arrived :
      (code : ℕ) (current : u.Url) (verb : Text) (most hops : ℕ) (hop : Hop u.Url)
      (x : Error ⊎ u.Url)
      → is_redirect code ≡ true
      → hops < most
      → (elim x [
        | inl e ↦ inl e
        | inr target ↦
            if not (u.scheme target == ascii "http") && not (u.scheme target == ascii "https")
            then inl (
                redirect (
                  ascii "refusing to follow a redirect to the `"
                  ++ u.scheme target
                  ++ ascii "` scheme"))
            else inr (follows u code verb current target)
      ])
        ≡ inr (follow hop)
      → IsHop code current verb (some most) hops hop
  arrived code current verb most hops hop (inl e) r g h = absurd (ground (arith, h))
  arrived code current verb most hops hop (inr target) r g h =
      let a = text_beq_iff (u.scheme target) (ascii "http") in
      let b = text_beq_iff (u.scheme target) (ascii "https") in
      let web : (u.scheme target ≡ ascii "http") ⊎ (u.scheme target ≡ ascii "https") =
        ground (arith, h, a, b) in
      subst (IsHop code current verb (some most) hops) (ground (arith, h))
        (follows-IsHop code current target verb most hops r g web)

  module _ (hm : HeaderMaps) where
    located :
        (code : ℕ) (current : u.Url) (verb : Text) (most hops : ℕ) (location : Text)
        (headers : hm.Headers) (hop : Hop u.Url)
        → is_redirect code ≡ true
        → hm.get (ascii "location") headers ≡ some location
        → decide u hm code headers current verb (some most) hops ≡ inr (follow hop)
        → IsHop code current verb (some most) hops hop
    unfolding decide
    located code current verb most hops location headers hop r e h =
        elim (Bool-cases (leb most hops)) [
          | inl g ↦ absurd (ground (arith, h, r, e, g))
          | inr g ↦
              arrived code current verb most hops hop (resolve_location u hm current location) r
                (ground (arith, g)) (rw (r, e, g, decide) at h)
        ]

    -- A hop that `decide` follows comes from one of the five redirecting statuses, within the limit
    -- on hops; it goes to an `http` or `https` URL; unless it is flagged as leaving the origin, both
    -- URLs have one and the same origin; and the body is kept only with the method, and dropped only
    -- for a GET.
    pub decide-IsHop :
        (code : ℕ) (headers : hm.Headers) (current : u.Url) (verb : Text) (limit : Option ℕ)
        (hops : ℕ) (hop : Hop u.Url)
        → decide u hm code headers current verb limit hops ≡ inr (follow hop)
        → IsHop code current verb limit hops hop
    unfolding decide
    decide-IsHop code headers current verb none hops hop h = absurd (ground (arith, h))
    decide-IsHop code headers current verb (some most) hops hop h =
        elim (Bool-cases (is_redirect code)) [
          | inr e ↦ absurd (ground (arith, h, e))
          | inl r ↦ elim (Option-cases (hm.get (ascii "location") headers)) [
            | inl e ↦ absurd (ground (arith, h, r, e))
            | inr (location, e) ↦ located code current verb most hops location headers hop r e h
          ]
        ]
