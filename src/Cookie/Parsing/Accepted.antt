-- ===== src/Cookie/Parsing/Accepted.antt =====
-- What holds of every cookie that `Cookie::parse` of cookie.rs accepts.
use chromulate.Prelude.{
  ◌+◌, ◌≤◌, Bool, true, false, not, ◌&&◌, Option, none, some, List, [], ◌∷◌, ◌≡◌, ◌⊎◌, inl, inr,
  subst, arith, is_some, unwrap_or, Option-cases, Bool-cases,
}
use chromulate.Prelude.Time.{Instant}
use chromulate.Prelude.Text.{
  Text, ascii, text_beq_iff, text_comparable, is_nil, trim, split, split_once,
}
use chromulate.Prelude.Headers.{HeaderMaps}
use chromulate.Cache.Date.{Platform}
use chromulate.Cache.Directive.{unquote}
use chromulate.Cookie.Domain.{Suffixes, is_ip_literal, is_public_suffix, domain_matches}
use chromulate.Cookie.Parsing.{
  Cookie, Attributes, Request, lax, no_restriction, max_cookie_lifetime, has_host_prefix,
  has_secure_prefix, carries_a_name_prefix, keeps_name_prefix_promise, resolved_expires, scope,
  cookie_path, is_no_restriction, accept, parse_segments, parse, read_segments, no_attributes,
}

expires_le :
    (p : Platform) (now : Instant) (a : Attributes) (e : Instant)
    → resolved_expires p now a ≡ some e
    → e ≤ now + max_cookie_lifetime
unfolding resolved_expires
expires_le p now a e h = ground (arith, h)

module _ (ps : Suffixes) where
  -- Where a cookie may be sent: to the very host that set it, or to a domain that covers this host,
  -- is no public suffix, and was not set by an IP address.
  abbrev pub IsScoped : Text → Text → Bool → Type 0
  IsScoped host domain host_only =
      ((host_only ≡ true) × (domain ≡ host))
      ⊎ ((host_only ≡ false)
          × (is_ip_literal ps host ≡ false)
          × (is_public_suffix ps domain ≡ false)
          × (domain_matches ps host domain ≡ true))

  pub record IsAccepted (request : Request) (c : Cookie) : Type 0 where
    pub scoped : IsScoped request.host c.domain c.host_only
    pub third_party : c.same_site ≡ no_restriction → c.secure ≡ true
    pub host_prefix :
        has_host_prefix c.name ≡ true
        → (request.is_secure ≡ true)
          × (c.secure ≡ true)
          × (c.host_only ≡ true)
          × (c.path ≡ ascii "/")
    pub secure_prefix :
        has_secure_prefix c.name ≡ true → (request.is_secure ≡ true) × (c.secure ≡ true)
    pub lifetime : (e : Instant) → c.expires ≡ some e → e ≤ request.now + max_cookie_lifetime

  scope-IsScoped :
      (host : Text) (attribute : Option Text) (domain : Text) (host_only : Bool)
      → scope ps host attribute ≡ some (domain, host_only)
      → IsScoped host domain host_only × (attribute ≡ none → host_only ≡ true)
  unfolding scope
  scope-IsScoped host none domain host_only h = (ground (arith, h), λ e. ground (arith, h))
  scope-IsScoped host (some d) domain host_only h =
      (ground (arith, h, text_beq_iff d host), λ e. absurd (ground (arith, e)))

  module _ (p : Platform) (request : Request) (name value : Text) (a : Attributes) where
    abbrev accepted : Text → Bool → Cookie
    accepted domain host_only = record {
      name = name;
      value = value;
      domain = domain;
      host_only = host_only;
      path = cookie_path request.path a.path;
      secure = a.secure;
      http_only = a.http_only;
      same_site = unwrap_or a.same_site lax;
      partitioned = a.partitioned;
      expires = resolved_expires p request.now a;
    }

    -- The three tests behind the scope.
    record Guards : Type 0 where
      site : (is_no_restriction (unwrap_or a.same_site lax) && not a.secure) ≡ false
      origin : (carries_a_name_prefix name && not request.is_secure) ≡ false
      promise :
          (carries_a_name_prefix name
            && not (
                keeps_name_prefix_promise name a.secure
                  (not (is_some a.domain))
                  (cookie_path request.path a.path)))
          ≡ false

    accept_guards :
        (domain : Text) (host_only : Bool) (c : Cookie)
        → scope ps request.host a.domain ≡ some (domain, host_only)
        → accept ps p request name value a ≡ some c
        → Guards × (accepted domain host_only ≡ c)
    unfolding accept
    accept_guards domain host_only c e h =
        elim (Bool-cases (is_no_restriction (unwrap_or a.same_site lax) && not a.secure)) [
          | inl g ↦ absurd (ground (arith, h, e, g))
          | inr g ↦ elim (Bool-cases (carries_a_name_prefix name && not request.is_secure)) [
            | inl k ↦ absurd (ground (arith, h, e, g, k))
            | inr k ↦
                elim (Bool-cases (
                  carries_a_name_prefix name
                  && not (
                      keeps_name_prefix_promise name a.secure (not (is_some a.domain))
                        (cookie_path request.path a.path)))) [
                          | inl m ↦ absurd (ground (arith, h, e, g, k, m))
                          | inr m ↦ (
                            record { site = g; origin = k; promise = m },
                            ground (arith, h, e, g, k, m),
                          )
                        ]
          ]
        ]

    accepted-IsAccepted :
        (domain : Text) (host_only : Bool)
        → IsScoped request.host domain host_only
        → (a.domain ≡ none → host_only ≡ true)
        → Guards
        → IsAccepted request (accepted domain host_only)
    unfolding carries_a_name_prefix keeps_name_prefix_promise
    accepted-IsAccepted domain host_only scoped alone g = record {
      scoped = scoped;
      third_party = λ e. ground (arith, g.site, e);
      host_prefix = λ e. (
        ground (arith, g.origin, e),
        ground (arith, g.promise, e),
        alone (ground (arith, g.promise, e)),
        (text_beq_iff (cookie_path request.path a.path) (ascii "/")).0
            (ground (arith, g.promise, e)),
      );
      secure_prefix = λ e. ground (arith, g.origin, g.promise, e);
      lifetime = λ e h. expires_le p request.now a e h;
    }

  accept-IsAccepted :
      (p : Platform) (request : Request) (name value : Text) (a : Attributes) (c : Cookie)
      → accept ps p request name value a ≡ some c
      → IsAccepted request c
  unfolding accept
  accept-IsAccepted p request name value a c h =
      elim (Option-cases (scope ps request.host a.domain)) [
        | inl n ↦ absurd (ground (arith, h, n))
        | inr ((domain, host_only), n) ↦
            let (scoped, alone) = scope-IsScoped request.host a.domain domain host_only n in
            let (g, same) = accept_guards p request name value a domain host_only c n h in
            subst (IsAccepted request) same
              (accepted-IsAccepted p request name value a domain host_only scoped alone g)
      ]

  parse_segments-IsAccepted :
      (p : Platform) (request : Request) (segments : List Text) (c : Cookie)
      → parse_segments ps p request segments ≡ some c
      → IsAccepted request c
  unfolding parse_segments
  parse_segments-IsAccepted p request [] c h = absurd (ground (arith, h))
  parse_segments-IsAccepted p request (first ∷ segments) c h =
      elim (Option-cases (split_once b'=' (trim first))) [
        | inl n ↦ absurd (ground (arith, h, n))
        | inr ((name, value), n) ↦ elim (Bool-cases (is_nil (trim name))) [
          | inl e ↦ absurd (ground (arith, h, n, e))
          | inr e ↦
              accept-IsAccepted p request (trim name) (unquote (trim value))
                (read_segments p segments no_attributes) c (ground (arith, h, n, e))
        ]
      ]

  -- A cookie that `parse` accepts, whatever the header, is scoped to the very host that set it or
  -- to a domain above it that is no public suffix (never so from an IP address); a cookie
  -- with `SameSite=None` is secure; a name with the prefix `__Host-` or `__Secure-` keeps all that
  -- the prefix promises, a secure request included; and it expires within 400 days, if at all.
  pub parse-IsAccepted :
      (p : Platform) (hm : HeaderMaps) (header : Text) (request : Request) (c : Cookie)
      → parse ps p hm header request ≡ some c
      → IsAccepted request c
  unfolding parse
  parse-IsAccepted p hm header request c h = elim (Option-cases (hm.to_str header)) [
    | inl n ↦ absurd (ground (arith, h, n))
    | inr (raw, n) ↦ parse_segments-IsAccepted p request (split b';' raw) c (ground (arith, h, n))
  ]
