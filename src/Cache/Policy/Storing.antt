-- ===== src/Cache/Policy/Storing.antt =====
-- `storable` of policy.rs decides exactly the conditions under which a response may be kept.
use chromulate.Prelude.{
  ℕ, true, false, none, some, List, ◌≡◌, ◌≢◌, ◌⊎◌, inl, inr, arith, Option-cases, is_some, ◌↔◌,
}
use chromulate.Prelude.Text.{Text, ascii, text_comparable, text_beq_iff}
use chromulate.Prelude.Headers.{HeaderMaps}
use chromulate.Cache.Directive.{CacheControl}
use chromulate.Cache.Entry.{vary_names}
use chromulate.Cache.Policy.{
  CacheConfig, stored_under, is_cacheable_status, any_unselectable, is_usable, is_shareable,
  storable_as, storable, has_validator,
}

module _ (hm : HeaderMaps) where
  -- The conditions on a response whose `Vary` names `names`.
  pub record IsStorable (config : CacheConfig) (verb : Text) (request : hm.Headers)
      (request_cc : CacheControl) (code : ℕ) (response : hm.Headers) (response_cc : CacheControl)
      (names : List Text) : Type 0 where
    pub is_get : verb ≡ ascii "GET"
    pub request_allows : request_cc.no_store ≡ false
    pub response_allows : response_cc.no_store ≡ false
    pub cacheable : is_cacheable_status code ≡ true
    pub no_cookie : hm.contains_key (ascii "set-cookie") response ≡ false
    pub varies : vary_names hm response ≡ some names
    pub selectable : any_unselectable names ≡ false
    pub not_private : (response_cc.is_private ≡ false) ⊎ (config.store_private ≡ true)
    pub authorized :
        (hm.contains_key (ascii "authorization") request ≡ false)
        ⊎ ((config.store_private ≡ true)
            ⊎ ((response_cc.is_public ≡ true)
                ⊎ ((response_cc.must_revalidate ≡ true) ⊎ (is_some response_cc.s_maxage ≡ true))))
    pub usable :
        (is_some response_cc.max_age ≡ true)
        ⊎ ((hm.contains_key (ascii "expires") response ≡ true) ⊎ (has_validator hm response ≡ true))

  storable_as_sound :
      (config : CacheConfig) (request : hm.Headers) (code : ℕ) (response : hm.Headers)
      (response_cc : CacheControl) (names under : List Text)
      → storable_as hm config request code response response_cc names ≡ stored_under under
      → (under ≡ names)
        × (any_unselectable names ≡ false)
        × ((response_cc.is_private ≡ false) ⊎ (config.store_private ≡ true))
        × ((hm.contains_key (ascii "authorization") request ≡ false)
            ⊎ ((config.store_private ≡ true)
                ⊎ ((response_cc.is_public ≡ true)
                    ⊎ ((response_cc.must_revalidate ≡ true)
                        ⊎ (is_some response_cc.s_maxage ≡ true)))))
        × (is_usable hm response_cc code response ≡ true)
  unfolding storable_as is_shareable
  storable_as_sound config request code response response_cc names under h =
      (ground arith, ground arith, ground arith, ground arith, ground arith)

  storable_as_complete :
      (config : CacheConfig) (verb : Text) (request : hm.Headers) (request_cc : CacheControl)
      (code : ℕ) (response : hm.Headers) (response_cc : CacheControl) (names : List Text)
      → IsStorable config verb request request_cc code response response_cc names
      → storable_as hm config request code response response_cc names ≡ stored_under names
  unfolding storable_as is_shareable is_usable
  storable_as_complete config verb request request_cc code response response_cc names v =
      ground (arith, v.selectable, v.not_private, v.authorized, v.usable)

  storable_sound :
      (config : CacheConfig) (verb : Text) (request : hm.Headers) (request_cc : CacheControl)
      (code : ℕ) (response : hm.Headers) (response_cc : CacheControl) (names found : List Text)
      → vary_names hm response ≡ some found
      → storable hm config verb request request_cc code response response_cc ≡ stored_under names
      → (verb ≡ ascii "GET")
        × (request_cc.no_store ≡ false)
        × (response_cc.no_store ≡ false)
        × (is_cacheable_status code ≡ true)
        × (hm.contains_key (ascii "set-cookie") response ≡ false)
        × (storable_as hm config request code response response_cc found ≡ stored_under names)
  unfolding storable
  storable_sound config verb request request_cc code response response_cc names found e h =
      ground (arith, e, h, text_beq_iff verb (ascii "GET"))

  storable-varies :
      (config : CacheConfig) (verb : Text) (request : hm.Headers) (request_cc : CacheControl)
      (code : ℕ) (response : hm.Headers) (response_cc : CacheControl) (names : List Text)
      → vary_names hm response ≡ none
      → storable hm config verb request request_cc code response response_cc ≢ stored_under names
  unfolding storable
  storable-varies config verb request request_cc code response response_cc names e h =
      ground (arith, e, h)

  storable_complete :
      (config : CacheConfig) (verb : Text) (request : hm.Headers) (request_cc : CacheControl)
      (code : ℕ) (response : hm.Headers) (response_cc : CacheControl) (names : List Text)
      → IsStorable config verb request request_cc code response response_cc names
      → storable hm config verb request request_cc code response response_cc ≡ stored_under names
  unfolding storable
  storable_complete config verb request request_cc code response response_cc names v = ground (
    arith,
    text_beq_iff verb (ascii "GET"),
    v.is_get,
    v.request_allows,
    v.response_allows,
    v.cacheable,
    v.no_cookie,
    v.varies,
    storable_as_complete config verb request request_cc code response response_cc names v,
  )

  IsStorable-intro :
      (config : CacheConfig) (verb : Text) (request : hm.Headers) (request_cc : CacheControl)
      (code : ℕ) (response : hm.Headers) (response_cc : CacheControl) (names found : List Text)
      → vary_names hm response ≡ some found
      → storable hm config verb request request_cc code response response_cc ≡ stored_under names
      → IsStorable config verb request request_cc code response response_cc names
  unfolding is_usable has_validator
  IsStorable-intro config verb request request_cc code response response_cc names found e h =
      let (g, ra, pa, ca, nc, sa) =
        storable_sound config verb request request_cc code response response_cc names found e h in
      let (same, sel, np, au, us) =
        storable_as_sound config request code response response_cc found names sa in
      record {
        is_get = g;
        request_allows = ra;
        response_allows = pa;
        cacheable = ca;
        no_cookie = nc;
        varies = ground (arith, e, same);
        selectable = ground (arith, sel, same);
        not_private = np;
        authorized = au;
        usable = ground (arith, us);
      }

  -- `storable` accepts a response, under the names `names` of its `Vary`, exactly when all of
  -- `IsStorable` holds: a GET, no `no-store` on either side, a cacheable status, no `Set-Cookie`,
  -- a `Vary` without `*` that names only selectable fields, not `private` and not for an
  -- authorized request without leave (unless the cache is private), and a lifetime or a validator.
  pub storable-IsStorable :
      (config : CacheConfig) (verb : Text) (request : hm.Headers) (request_cc : CacheControl)
      (code : ℕ) (response : hm.Headers) (response_cc : CacheControl) (names : List Text)
      → (storable hm config verb request request_cc code response response_cc ≡ stored_under names)
        ↔ IsStorable config verb request request_cc code response response_cc names
  storable-IsStorable config verb request request_cc code response response_cc names = (
    λ h. elim (Option-cases (vary_names hm response)) [
      | inl e ↦
          absurd
            (storable-varies config verb request request_cc code response response_cc names e h)
      | inr (found, e) ↦
          IsStorable-intro config verb request request_cc code response response_cc names found e h
    ],
    storable_complete config verb request request_cc code response response_cc names,
  )
