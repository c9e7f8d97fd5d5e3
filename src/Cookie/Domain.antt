-- ===== src/Cookie/Domain.antt =====
-- crates/chromulate-cookie/src/domain.rs: which hosts a cookie's domain covers. `Suffixes` is what
-- the program asks of the list of public suffixes (the `psl` crate) and of the standard library's
-- parsers of IP addresses, none of which is part of this repository.
use chromulate.Prelude.{
  Bool, true, false, not, Option, none, some, ◌++◌, ◌≡◌, ◌↔◌, ◌⊎◌, inl, inr, refl, ap, ◌∙◌, arith,
  if◌then◌else◌, is_some, unwrap_or, ◌==◌, Option-cases, Bool-cases,
}
use chromulate.Prelude.Text.{
  Text, ascii, text_beq, text_beq_iff, text_comparable, strip_prefix, strip_suffix,
  strip_suffix-append, append-strip_suffix,
}

pub record Suffixes : Type 0 where
  pub is_ipv4 : Text → Bool
  pub is_ipv6 : Text → Bool
  pub registrable : Text → Option Text

unfoldable pub ends_with : Text → Text → Bool
ends_with suffix s = is_some (strip_suffix suffix s)

module _ (ps : Suffixes) where
  unfoldable pub is_ip_literal : Text → Bool
  is_ip_literal host =
      let unbracketed : Option Text = (elim (strip_prefix (ascii "[") host) [
        | none ↦ none
        | some rest ↦ strip_suffix (ascii "]") rest
      ]) in
      elim unbracketed [ some inner ↦ ps.is_ipv6 inner | none ↦ ps.is_ipv4 host ]

  unfoldable pub is_public_suffix : Text → Bool
  is_public_suffix domain = not (is_some (ps.registrable domain))

  unfoldable pub domain_matches : Text → Text → Bool
  unfolding ends_with
  domain_matches host cookie_domain =
      if host == cookie_domain
      then true
      else if is_ip_literal host
      then false
      else (elim (strip_suffix cookie_domain host) [
        | some prefix ↦ ends_with (ascii ".") prefix
        | none ↦ false
      ])

  unfoldable pub site_of : Text → Text
  site_of host = if is_ip_literal host then host else unwrap_or (ps.registrable host) host

  unfoldable pub is_same_site : Text → Text → Bool
  is_same_site a b = site_of a == site_of b

  -- A host that stands below a domain.
  abbrev pub IsBelow : Text → Text → Type 0
  IsBelow host domain = (label : Text) × (host ≡ (label ++ ascii ".") ++ domain)

  covered :
      (host domain : Text)
      → (host ≡ domain) ⊎ ((is_ip_literal host ≡ false) × IsBelow host domain)
      → domain_matches host domain ≡ true
  unfolding domain_matches
  covered host domain (inl e) = ground (arith, (text_beq_iff host domain).1 e)
  covered host domain (inr (i, (label, e))) =
      let a = strip_suffix-append domain (label ++ ascii ".") host e in
      let b = strip_suffix-append (ascii ".") label (label ++ ascii ".") refl in
      ground (arith, i, a, b)

  -- A cookie's domain covers a host exactly when it is that host, or the host is no IP address and
  -- is the domain behind further labels and a dot: a domain that only ends in the same letters is
  -- not covered.
  pub domain_matches-IsBelow :
      (host domain : Text)
      → (domain_matches host domain ≡ true)
        ↔ ((host ≡ domain) ⊎ ((is_ip_literal host ≡ false) × IsBelow host domain))
  unfolding domain_matches
  domain_matches-IsBelow host domain = (
    λ h. elim (Bool-cases (text_beq host domain)) [
      | inl e ↦ inl ((text_beq_iff host domain).0 e)
      | inr e ↦ elim (Bool-cases (is_ip_literal host)) [
        | inl i ↦ absurd (ground (arith, h, e, i))
        | inr i ↦ elim (Option-cases (strip_suffix domain host)) [
          | inl n ↦ absurd (ground (arith, h, e, i, n))
          | inr (prefix, n) ↦ elim (Option-cases (strip_suffix (ascii ".") prefix)) [
            | inl k ↦ absurd (ground (arith, h, e, i, n, k))
            | inr (label, k) ↦ inr (
              i,
              (
                label,
                append-strip_suffix domain host prefix n
                    ∙ ap (λ t. t ++ domain) (append-strip_suffix (ascii ".") prefix label k),
              ),
            )
          ]
        ]
      ]
    ],
    covered host domain,
  )
