-- ===== src/Cookie/Jar/Serving/Sendable.antt =====
-- Which cookies may go with a request: `applies_to` of crates/chromulate-cookie/src/cookie.rs,
-- `same_site_eligible` of same_site.rs and `is_expired`, against what they are for.
use chromulate.Prelude.{
  ◌<◌, Bool, true, false, not, ◌&&◌, ◌||◌, Option, none, some, ◌++◌, ◌≡◌, ◌↔◌, ◌⊎◌, inl, inr, refl,
  arith, ◌==◌, if◌then◌else◌, Bool-cases,
}
use chromulate.Prelude.Time.{Instant}
use chromulate.Prelude.Text.{Text, text_comparable, text_beq_iff}
use chromulate.Core.Uri.{Origin}
use chromulate.Cookie.Domain.{
  Suffixes, is_ip_literal, domain_matches, IsBelow, domain_matches-IsBelow, site_of, is_same_site,
}
use chromulate.Cookie.Path.{path_matches-IsDeeper, IsDeeper}
use chromulate.Cookie.Parsing.{
  SameSite, strict, lax, no_restriction, Cookie, Request, is_expired, applies_to,
  same_site_eligible,
}
use chromulate.Cookie.Bucket.{Entry}
use chromulate.Cookie.Jar.Serving.{CookieContext, is_match}

-- What a cookie needs in order to be alive.
abbrev pub IsAlive : Instant → Option Instant → Type 0
IsAlive now none = Unit
IsAlive now (some expiry) = now < expiry

module _ (ps : Suffixes) where
  -- The request comes from the site that it goes to.
  abbrev pub IsSameSite : Request → Option Origin → Type 0
  IsSameSite request none = ⊥
  IsSameSite request (some o) = site_of ps o.host ≡ site_of ps request.host

  -- What `SameSite` asks of a request.
  abbrev pub IsEligible : SameSite → Request → CookieContext → Type 0
  IsEligible no_restriction request context = Unit
  IsEligible lax request context =
      IsSameSite request context.initiator ⊎ (context.is_top_level_navigation ≡ true)
  IsEligible strict request context = IsSameSite request context.initiator

  -- The host that set the cookie, or where the cookie has a domain, one that the domain covers.
  abbrev pub IsInScope : Bool → Text → Text → Type 0
  IsInScope true host domain = host ≡ domain
  IsInScope false host domain =
      (host ≡ domain) ⊎ ((is_ip_literal ps host ≡ false) × IsBelow ps host domain)

  -- A cookie that goes with a request.
  abbrev pub IsSendable : Request → CookieContext → Cookie → Type 0
  IsSendable request context c =
      IsAlive request.now c.expires
      × ((c.secure ≡ false) ⊎ (request.is_secure ≡ true))
      × IsInScope c.host_only request.host c.domain
      × ((rest : Text) × (request.path ≡ c.path ++ rest) × IsDeeper c.path rest)
      × IsEligible c.same_site request context

is_expired-IsAlive :
    (expires : Option Instant) (now : Instant) (c : Cookie)
    → c.expires ≡ expires
    → (not (is_expired c now) ≡ true) ↔ IsAlive now expires
unfolding is_expired
is_expired-IsAlive none now c e = (λ h. tt, λ h. rw (e, is_expired) refl)
is_expired-IsAlive (some expiry) now c e = (λ h. ground (arith, h, e), λ h. ground (arith, h, e))

and-both : (a b : Bool) → (a && b) ≡ true → (a ≡ true) × (b ≡ true)
and-both a b h = ground (arith, h)

or_cases : (a b : Bool) → (a || b) ≡ true → (a ≡ true) ⊎ (b ≡ true)
or_cases true b h = inl refl
or_cases false b h = inr h

or_true : (a b : Bool) → b ≡ true → (a || b) ≡ true
or_true a b h = ground (arith, h)

secure_or : (a b : Bool) → (a && not b) ≡ false → (a ≡ false) ⊎ (b ≡ true)
secure_or true true h = inr refl
secure_or true false h = absurd (ground (arith, h))
secure_or false b h = inl refl

or_secure : (a b : Bool) → (a ≡ false) ⊎ (b ≡ true) → (a && not b) ≡ false
or_secure a b (inl h) = rw h refl
or_secure true b (inr h) = rw h refl
or_secure false b (inr h) = refl

module _ (ps : Suffixes) where
  same-IsSameSite :
      (initiator : Option Origin) (request : Request)
      → ((elim initiator [ none ↦ false | some o ↦ is_same_site ps o.host request.host ]) ≡ true)
        ↔ IsSameSite ps request initiator
  unfolding is_same_site
  same-IsSameSite none request = (λ h. absurd (ground (arith, h)), λ h. absurd h)
  same-IsSameSite (some o) request = text_beq_iff (site_of ps o.host) (site_of ps request.host)

  same_or_top :
      (initiator : Option Origin) (request : Request) (top : Bool)
      → (((elim initiator [ none ↦ false | some o ↦ is_same_site ps o.host request.host ]) || top)
          ≡ true)
        ↔ (IsSameSite ps request initiator ⊎ (top ≡ true))
  same_or_top initiator request top =
      let same = same-IsSameSite initiator request in
      (
        λ h. elim (or_cases _ top h) [ inl a ↦ inl (same.0 a) | inr b ↦ inr b ],
        λ h. elim h [ inl a ↦ rw (same.1 a) refl | inr b ↦ or_true _ top b ],
      )

  same_site_eligible-IsEligible :
      (kind : SameSite) (request : Request) (context : CookieContext) (c : Cookie)
      → c.same_site ≡ kind
      → (same_site_eligible ps c request.host context.initiator context.is_top_level_navigation
          ≡ true)
        ↔ IsEligible ps kind request context
  unfolding same_site_eligible
  same_site_eligible-IsEligible no_restriction request context c e =
      (λ h. tt, λ h. rw (e, same_site_eligible) refl)
  same_site_eligible-IsEligible lax request context c e =
      rw (e, same_site_eligible)
        (same_or_top context.initiator request context.is_top_level_navigation)
  same_site_eligible-IsEligible strict request context c e =
      rw (e, same_site_eligible) (same-IsSameSite context.initiator request)

  host_test-IsInScope :
      (host_only : Bool) (host domain : Text)
      → ((if host_only then host == domain else domain_matches ps host domain) ≡ true)
        ↔ IsInScope ps host_only host domain
  host_test-IsInScope true host domain = text_beq_iff host domain
  host_test-IsInScope false host domain = domain_matches-IsBelow ps host domain

  applies_to-cases :
      (request : Request) (c : Cookie)
      → (applies_to ps c request.host request.path request.is_secure ≡ true) ↔ (
          ((c.secure ≡ false) ⊎ (request.is_secure ≡ true))
          × IsInScope ps c.host_only request.host c.domain
          × ((rest : Text) × (request.path ≡ c.path ++ rest) × IsDeeper c.path rest))
  unfolding applies_to
  applies_to-cases request c =
      let scope = host_test-IsInScope c.host_only request.host c.domain in
      let path = path_matches-IsDeeper request.path c.path in
      (
        λ h. elim (Bool-cases (c.secure && not request.is_secure)) [
          | inl e ↦ absurd (ground (arith, h, e))
          | inr e ↦
              let (a, b) = and-both _ _ (rw e at h) in
              (secure_or c.secure request.is_secure e, scope.0 a, path.0 b)
        ],
        λ (s, a, b). rw (or_secure c.secure request.is_secure s, scope.1 a, path.1 b) refl,
      )

  pub is_match-IsSendable :
      (request : Request) (context : CookieContext) (e : Entry)
      → (is_match ps request context e ≡ true) ↔ IsSendable ps request context e.cookie
  unfolding is_match
  is_match-IsSendable request context e =
      let c : Cookie = e.cookie in
      let alive = is_expired-IsAlive c.expires request.now c refl in
      let applies = applies_to-cases request c in
      let site = same_site_eligible-IsEligible c.same_site request context c refl in
      (
        λ h.
            let (a, more) = and-both _ _ h in
            let (b, d) = and-both _ _ more in
            let (secure, scope, path) = applies.0 b in (alive.0 a, secure, scope, path, site.0 d),
        λ (a, secure, scope, path, d).
            rw (alive.1 a, applies.1 (secure, scope, path), site.1 d) refl,
      )
