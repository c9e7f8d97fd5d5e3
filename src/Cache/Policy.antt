-- ===== src/Cache/Policy.antt =====
-- crates/chromulate-cache/src/policy.rs: what may be stored, and what is fresh.
pub mod Storing
pub mod Freshness
use chromulate.Prelude.{
  ℕ, ◌+◌, ◌-◌, ◌*◌, ◌/◌, min, max, Bool, true, false, not, ◌&&◌, ◌||◌, Option, none, some, List, [],
  ◌∷◌, ltb, nat_beq, ◌==◌, if◌then◌else◌, unwrap_or, is_some,
}
use chromulate.Prelude.Time.{Instant, Duration, from_secs, saturating_add, duration_since}
use chromulate.Prelude.Text.{Text, ascii, text_comparable}
use chromulate.Prelude.Headers.{HeaderMaps}
use chromulate.Cache.Date.{Platform}
use chromulate.Cache.Directive.{CacheControl, explicit_lifetime}
use chromulate.Cache.Entry.{
  CacheEntry, vary_names, effective_date, age_field, expires_field, last_modified,
}

pub record CacheConfig : Type 0 where
  pub max_body_bytes : ℕ
  pub store_private : Bool
  pub heuristic_cap : Duration

-- `impl Default for CacheConfig`.
abbrev pub default : CacheConfig
default = record {
  max_body_bytes = 8 * 1024 * 1024;
  store_private = false;
  heuristic_cap = from_secs (24 * 60 * 60);
}

pub data NotStorable : Type 0 where
  method request_no_store response_no_store status set_cookie vary_star vary_unselectable private
        authorization no_freshness_and_no_validator :
      NotStorable

pub data Verdict : Type 0 where
  stored_under : List Text → Verdict
  not_storable : NotStorable → Verdict

unfoldable pub one_of : ℕ → List ℕ → Bool
one_of n [] = false
one_of n (m ∷ ms) = nat_beq n m || one_of n ms

unfoldable pub is_cacheable_status : ℕ → Bool
unfolding one_of
is_cacheable_status s =
    one_of s (200 ∷ 203 ∷ 204 ∷ 300 ∷ 301 ∷ 302 ∷ 307 ∷ 308 ∷ 404 ∷ 405 ∷ 410 ∷ 414 ∷ 501 ∷ [])

unfoldable pub is_heuristically_cacheable : ℕ → Bool
unfolding one_of
is_heuristically_cacheable s =
    one_of s (200 ∷ 203 ∷ 204 ∷ 300 ∷ 301 ∷ 308 ∷ 404 ∷ 405 ∷ 410 ∷ 414 ∷ 501 ∷ [])

abbrev pub unselectable : List Text
unselectable =
    ascii "cookie"
    ∷ ascii "accept"
    ∷ ascii "referer"
    ∷ ascii "origin"
    ∷ ascii "priority"
    ∷ ascii "upgrade-insecure-requests"
    ∷ ascii "sec-fetch-site"
    ∷ ascii "sec-fetch-mode"
    ∷ ascii "sec-fetch-user"
    ∷ ascii "sec-fetch-dest"
    ∷ ascii "sec-ch-ua-arch"
    ∷ ascii "sec-ch-ua-bitness"
    ∷ ascii "sec-ch-ua-model"
    ∷ ascii "sec-ch-ua-platform-version"
    ∷ ascii "sec-ch-ua-full-version-list"
    ∷ []

unfoldable pub contains : Text → List Text → Bool
contains t [] = false
contains t (x ∷ xs) = x == t || contains t xs

unfoldable pub any_unselectable : List Text → Bool
any_unselectable [] = false
any_unselectable (n ∷ ns) = contains n unselectable || any_unselectable ns

module _ (hm : HeaderMaps) where
  unfoldable pub has_validator : hm.Headers → Bool
  has_validator headers =
      hm.contains_key (ascii "etag") headers || hm.contains_key (ascii "last-modified") headers

  -- The test `usable` of `storable`.
  unfoldable pub is_usable : CacheControl → ℕ → hm.Headers → Bool
  is_usable response_cc code headers =
      is_some response_cc.max_age
      || hm.contains_key (ascii "expires") headers
      || has_validator headers
      || (is_heuristically_cacheable code && hm.contains_key (ascii "last-modified") headers)

  unfoldable pub is_shareable : CacheControl → Bool
  is_shareable cc = cc.is_public || cc.must_revalidate || is_some cc.s_maxage

  -- The tests of `storable` behind `Vary`.
  unfoldable pub storable_as :
      CacheConfig → hm.Headers → ℕ → hm.Headers → CacheControl → List Text → Verdict
  storable_as config request_headers code response_headers response_cc names =
      if any_unselectable names
      then not_storable vary_unselectable
      else if response_cc.is_private && not config.store_private
      then not_storable private
      else if hm.contains_key (ascii "authorization") request_headers
          && (not config.store_private && not (is_shareable response_cc))
      then not_storable authorization
      else if not (is_usable response_cc code response_headers)
      then not_storable no_freshness_and_no_validator
      else stored_under names

  unfoldable pub storable :
      CacheConfig → Text → hm.Headers → CacheControl → ℕ → hm.Headers → CacheControl → Verdict
  storable config verb request_headers request_cc code response_headers response_cc =
      if not (verb == ascii "GET")
      then not_storable method
      else if request_cc.no_store
      then not_storable request_no_store
      else if response_cc.no_store
      then not_storable response_no_store
      else if not (is_cacheable_status code)
      then not_storable status
      else if hm.contains_key (ascii "set-cookie") response_headers
      then not_storable set_cookie
      else (elim (vary_names hm response_headers) [
        | none ↦ not_storable vary_star
        | some names ↦ storable_as config request_headers code response_headers response_cc names
      ])

module _ (hm : HeaderMaps) (p : Platform) where
  unfoldable pub initial_age : CacheEntry hm.Headers → Duration
  initial_age entry =
      let apparent_age : ℕ =
        unwrap_or (duration_since entry.received_at (effective_date hm p entry)) 0 in
      let response_delay : ℕ = unwrap_or (duration_since entry.received_at entry.requested_at) 0 in
      max apparent_age (saturating_add (unwrap_or (age_field hm p entry) 0) response_delay)

  unfoldable pub current_age : CacheEntry hm.Headers → Instant → Duration
  current_age entry now =
      saturating_add (initial_age entry) (unwrap_or (duration_since now entry.received_at) 0)

  -- A tenth of the time since the last change, where a heuristic applies.
  unfoldable pub heuristic_lifetime : CacheConfig → CacheEntry hm.Headers → Option Duration
  heuristic_lifetime config entry =
      if not (is_heuristically_cacheable entry.status)
      then none
      else (elim (last_modified hm p entry) [
        | none ↦ none
        | some changed ↦ elim (duration_since (effective_date hm p entry) changed) [
          | none ↦ none
          | some since ↦ some (min (since / 10) config.heuristic_cap)
        ]
      ])

  unfoldable pub freshness_lifetime :
      CacheEntry hm.Headers → CacheControl → CacheConfig → Option Duration
  freshness_lifetime entry response_cc config = elim (explicit_lifetime response_cc) [
    | some lifetime ↦ some lifetime
    | none ↦ elim (expires_field hm p entry) [
      | some expires ↦ some (unwrap_or (duration_since expires (effective_date hm p entry)) 0)
      | none ↦ heuristic_lifetime config entry
    ]
  ]

  unfoldable pub is_fresh : CacheEntry hm.Headers → CacheControl → CacheConfig → Instant → Bool
  is_fresh entry response_cc config now =
      if response_cc.no_cache then false else (elim (freshness_lifetime entry response_cc config) [
        | none ↦ false
        | some lifetime ↦ ltb (current_age entry now) lifetime
      ])

unfoldable pub request_forces_revalidation : CacheControl → Bool
request_forces_revalidation cc =
    cc.no_cache || (elim cc.max_age [ none ↦ false | some s ↦ nat_beq s 0 ])
