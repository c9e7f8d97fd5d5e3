-- ===== src/Http/Hsts/Coverage.antt =====
-- Which hosts a store of hsts.rs covers: those it has a policy for, and those below a domain whose
-- policy includes its subdomains.
use chromulate.Prelude.{
  ℕ, zero, suc, ◌≤◌, ◌<◌, Bool, true, false, Option, none, some, List, [], ◌∷◌, ◌++◌, ◌≡◌, ◌≢◌, ◌↔◌,
  ◌⊎◌, inl, inr, refl, sym, ap, ◌∙◌, subst, arith, nat_beq, length, length-append, Bool-cases,
  Option-cases,
}
use chromulate.Prelude.Time.{Instant}
use chromulate.Prelude.Text.{Text, text_comparable, to_ascii_lowercase, split_once}
use chromulate.Http.Hsts.{
  Policy, HstsStore, canonical_name, is_ip_literal, exact_match, parent_match, any_parent,
  applies_to,
}

-- A domain that stands behind a dot of the host.
abbrev pub IsBelow : Text → Text → Type 0
IsBelow host parent = (label : Text) × (host ≡ label ++ b'.' ∷ parent)

some_parts :
    (p q a b : Text)
    → ◌≡◌ {A = Option (Text × Text)} (some (p, q)) (some (a, b))
    → (p ≡ a) × (q ≡ b)
some_parts p q a b h = (ground (arith, h), ground (arith, h))

split_once-none : (sep : ℕ) (s a b : Text) → split_once sep s ≡ none → s ≢ a ++ sep ∷ b
unfolding split_once
split_once-none sep [] [] b h e = absurd (ground (arith, e))
split_once-none sep [] (d ∷ a) b h e = absurd (ground (arith, e))
split_once-none sep (c ∷ s) [] b h e = ground (arith, h, e)
split_once-none sep (c ∷ s) (d ∷ a) b h e = elim (Option-cases (split_once sep s)) [
  | inl n ↦ split_once-none sep s a b n (ground (arith, e))
  | inr (p, n) ↦ absurd (ground (arith, h, n))
]

split_once-some : (sep : ℕ) (s a b : Text) → split_once sep s ≡ some (a, b) → s ≡ a ++ sep ∷ b
unfolding split_once
split_once-some sep [] a b h = absurd (ground (arith, h))
split_once-some sep (c ∷ s) a b h = elim (Bool-cases (nat_beq c sep)) [
  | inl e ↦
      let (p, q) = some_parts [] s a b (rw e at h) in
      rw (sym p, sym q) (ap (λ d. d ∷ s) (ground (arith, e)))
  | inr e ↦ elim (Option-cases (split_once sep s)) [
    | inl n ↦ absurd (ground (arith, h, e, n))
    | inr ((a', b'), n) ↦
        let (p, q) = some_parts (c ∷ a') b' a b (rw (e, n) at h) in
        rw (sym p, sym q) (ap (λ t. c ∷ t) (split_once-some sep s a' b' n))
  ]
]

-- Any other dot stands behind the first one.
split_once-later :
    (sep : ℕ) (s a b x y : Text)
    → split_once sep s ≡ some (a, b)
    → s ≡ x ++ sep ∷ y
    → (y ≡ b) ⊎ ((z : Text) × (b ≡ z ++ sep ∷ y))
unfolding split_once
split_once-later sep [] a b x y h e = absurd (ground (arith, h))
split_once-later sep (c ∷ s) a b [] y h e = inl (ground (arith, h, e))
split_once-later sep (c ∷ s) a b (d ∷ x) y h e = elim (Bool-cases (nat_beq c sep)) [
  | inl g ↦ let (p, q) = some_parts [] s a b (rw g at h) in inr (x, sym q ∙ ground (arith, e))
  | inr g ↦ elim (Option-cases (split_once sep s)) [
    | inl n ↦ absurd (ground (arith, h, g, n))
    | inr ((a', b'), n) ↦
        let (p, q) = some_parts (c ∷ a') b' a b (rw (g, n) at h) in
        subst (λ t. (y ≡ t) ⊎ ((z : Text) × (t ≡ z ++ sep ∷ y))) q
          (split_once-later sep s a' b' x y n (ground (arith, e)))
  ]
]

split_once-length : (sep : ℕ) (s a b : Text) → split_once sep s ≡ some (a, b) → length b < length s
split_once-length sep s a b h =
    omega (arith, ap length (split_once-some sep s a b h), length-append a (sep ∷ b))

join_labels : (a l p q : Text) → p ≡ l ++ b'.' ∷ q → a ++ b'.' ∷ p ≡ (a ++ b'.' ∷ l) ++ b'.' ∷ q
join_labels [] l p q e = ap (λ t. b'.' ∷ t) e
join_labels (c ∷ a) l p q e = ap (λ t. c ∷ t) (join_labels a l p q e)

-- The walk finds a matching domain exactly when there is one.
any_parent-some :
    (fuel : ℕ) (host : Text) (now : Instant) (hosts : List (Text × Policy))
    → any_parent fuel host now hosts ≡ true
    → (parent : Text) × IsBelow host parent × (parent_match parent now hosts ≡ true)
unfolding any_parent
any_parent-some zero host now hosts h = absurd (ground (arith, h))
any_parent-some (suc fuel) host now hosts h = elim (Option-cases (split_once b'.' host)) [
  | inl n ↦ absurd (ground (arith, h, n))
  | inr ((label, parent), n) ↦
      let cut = split_once-some b'.' host label parent n in
      elim (Bool-cases (parent_match parent now hosts)) [
        | inl g ↦ (parent, (label, cut), g)
        | inr g ↦
            let (far, (l, e), g') =
              any_parent-some fuel parent now hosts (rw (n, any_parent, g) at h) in
            (far, (label ++ b'.' ∷ l, cut ∙ join_labels label l parent far e), g')
      ]
]

some-any_parent :
    (fuel : ℕ) (host parent : Text) (now : Instant) (hosts : List (Text × Policy))
    → length host ≤ fuel
    → IsBelow host parent
    → parent_match parent now hosts ≡ true
    → any_parent fuel host now hosts ≡ true
unfolding any_parent
some-any_parent zero host parent now hosts f (l, e) m =
    absurd (omega (arith, ap length e, length-append l (b'.' ∷ parent)))
some-any_parent (suc fuel) host parent now hosts f (l, e) m =
    elim (Option-cases (split_once b'.' host)) [
      | inl n ↦ absurd (split_once-none b'.' host l parent n e)
      | inr ((label, near), n) ↦ elim (Bool-cases (parent_match near now hosts)) [
        | inl g ↦ rw (n, any_parent, g) refl
        | inr g ↦
            rw (n, any_parent, g)
              (elim (split_once-later b'.' host label near l parent n e) [
                | inl same ↦ absurd (ground (arith, g, m, same))
                | inr (z, e') ↦
                    some-any_parent fuel near parent now hosts
                      (omega (arith, split_once-length b'.' host label near n)) (z, e') m
              ])
      ]
    ]

module _ (is_ip_addr : Text → Bool) where
  -- That a store has a policy for a name, or one that includes subdomains for a domain above it.
  pub record IsCovered (raw : Text) (now : Instant) (store : HstsStore) : Type 0 where
    pub name : Text
    pub canonical : canonical_name raw ≡ some name
    pub no_address : is_ip_literal is_ip_addr name ≡ false
    pub policy :
        (exact_match (to_ascii_lowercase name) now store.hosts ≡ true)
        ⊎ ((parent : Text) × IsBelow (to_ascii_lowercase name) parent
            × (parent_match parent now store.hosts ≡ true))

  covered_by :
      (raw : Text) (now : Instant) (store : HstsStore)
      → IsCovered raw now store
      → applies_to is_ip_addr raw now store ≡ true
  unfolding applies_to
  covered_by raw now store v =
      let host : Text = to_ascii_lowercase v.name in
      rw (v.canonical, applies_to, v.no_address)
        (elim v.policy [
          | inl e ↦ rw e refl
          | inr (parent, below, e) ↦ ground (
            arith,
            some-any_parent (length host) host parent now store.hosts (omega arith) below e,
          )
        ])

  covers :
      (raw : Text) (now : Instant) (store : HstsStore)
      → applies_to is_ip_addr raw now store ≡ true
      → IsCovered raw now store
  unfolding applies_to
  covers raw now store h = elim (Option-cases (canonical_name raw)) [
    | inl n ↦ absurd (ground (arith, h, n))
    | inr (name, n) ↦ elim (Bool-cases (is_ip_literal is_ip_addr name)) [
      | inl i ↦ absurd (ground (arith, h, n, i))
      | inr i ↦
          let host : Text = to_ascii_lowercase name in
          record {
            name = name;
            canonical = n;
            no_address = i;
            policy = elim (Bool-cases (exact_match host now store.hosts)) [
              | inl e ↦ inl e
              | inr e ↦ inr (
                  any_parent-some (length host) host now store.hosts
                    (rw (n, applies_to, i, e) at h))
            ];
          }
    ]
  ]

  -- `applies_to` says yes exactly when the host is a name, no IP address, and in lower case has
  -- a policy that has not expired, or stands below a domain, at any depth, with an unexpired policy
  -- that includes subdomains.
  pub applies_to-IsCovered :
      (raw : Text) (now : Instant) (store : HstsStore)
      → (applies_to is_ip_addr raw now store ≡ true) ↔ IsCovered raw now store
  applies_to-IsCovered raw now store = (covers raw now store, covered_by raw now store)
