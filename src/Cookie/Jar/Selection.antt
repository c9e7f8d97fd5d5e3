-- ===== src/Cookie/Jar/Selection.antt =====
-- What one step of the scan of `enforce_total`, crates/chromulate-cookie/src/jar.rs, does to the
-- candidates that it holds.
pub mod Scan
use chromulate.Prelude.{
  ℕ, suc, ◌+◌, ◌≤◌, ◌<◌, min, Bool, true, false, not, ◌&&◌, ◌||◌, none, some, List, [], ◌∷◌, ◌≡◌,
  inl, inr, refl, sym, ap, ◌∙◌, subst, arith, ltb, nat_beq, if◌then◌else◌, length, sum_by, ◌==◌,
  Bool-cases,
}
use chromulate.Prelude.Time.{Instant}
use chromulate.Prelude.Text.{Text, text_comparable}
use chromulate.Prelude.Assoc.{lookup, Distinct}
use chromulate.Cookie.Parsing.{is_expired}
use chromulate.Cookie.Bucket.{Entry, Bucket, contains}
use chromulate.Cookie.Bucket.Trimmed.{IsDoomed}
use chromulate.Cookie.Jar.Eviction.{
  Candidate, candidate_lt, heap_push, consider, scan_bucket, scan_sites,
}

-- The positions of a site among candidates.
abbrev pub positions_at : Text → List Candidate → List ℕ
positions_at s [] = []
positions_at s (c ∷ cs) = if c.site == s then c.position ∷ positions_at s cs else positions_at s cs

contains-IsDoomed : (n : ℕ) (ps : List ℕ) → IsDoomed 0 n ps → contains n ps ≡ false
unfolding contains
contains-IsDoomed n [] d = refl
contains-IsDoomed n (p ∷ ps) d = ground (arith, contains-IsDoomed n ps d.3, d.2)

IsDoomed-suc : (n : ℕ) (ps : List ℕ) → IsDoomed 0 n ps → IsDoomed 0 (suc n) ps
IsDoomed-suc n [] d = tt
IsDoomed-suc n (p ∷ ps) d = (d.0, d.1, omega (arith, d.2), IsDoomed-suc n ps d.3)

contains-heap_push :
    (s : Text) (q : ℕ) (c : Candidate) (xs : List Candidate)
    → contains q (positions_at s (heap_push c xs))
      ≡ (((c.site == s) && nat_beq q c.position) || contains q (positions_at s xs))
unfolding heap_push contains
contains-heap_push s q c [] = elim (Bool-cases (c.site == s)) [
  | inl e ↦ rw e refl
  | inr e ↦ rw e refl
]
contains-heap_push s q c (x ∷ xs) = elim (Bool-cases (candidate_lt c x)) [
  | inr e ↦ rw e (ground arith)
  | inl e ↦ rw e (ground (arith, contains-heap_push s q c xs))
]

-- A candidate of another site, or one whose position is new and below `n`.
abbrev IsNew : Text → ℕ → Candidate → List Candidate → Type 0
IsNew s n c xs =
    (c.site == s) ≡ true → (contains c.position (positions_at s xs) ≡ false) × (c.position < n)

IsDoomed-cons :
    (s : Text) (n : ℕ) (c : Candidate) (xs : List Candidate)
    → IsDoomed 0 n (positions_at s xs)
    → IsNew s n c xs
    → IsDoomed 0 n (positions_at s (c ∷ xs))
IsDoomed-cons s n c xs d f = elim (Bool-cases (c.site == s)) [
  | inl e ↦ rw e ((f e).0, omega arith, omega (arith, (f e).1), d)
  | inr e ↦ rw e d
]

IsDoomed-tail :
    (s : Text) (n : ℕ) (c : Candidate) (xs : List Candidate)
    → IsDoomed 0 n (positions_at s (c ∷ xs))
    → IsDoomed 0 n (positions_at s xs) × IsNew s n c xs
IsDoomed-tail s n c xs d = from (c.site == s) refl d
  where
    from :
        (b : Bool)
        → (c.site == s) ≡ b
        → IsDoomed 0 n (if b then c.position ∷ positions_at s xs else positions_at s xs)
        → IsDoomed 0 n (positions_at s xs) × IsNew s n c xs
    from true e d = (d.3, λ _. (d.0, omega (arith, d.2)))
    from false e d = (d, λ h. absurd (ground (arith, e, h)))

heap_push-IsDoomed :
    (s : Text) (n : ℕ) (c : Candidate) (xs : List Candidate)
    → IsDoomed 0 n (positions_at s xs)
    → IsNew s n c xs
    → IsDoomed 0 n (positions_at s (heap_push c xs))
unfolding heap_push contains
heap_push-IsDoomed s n c [] d f = IsDoomed-cons s n c [] d f
heap_push-IsDoomed s n c (x ∷ xs) d f =
    let (rest, head) = IsDoomed-tail s n x xs d in
    elim (Bool-cases (candidate_lt c x)) [
      | inr e ↦ rw e (IsDoomed-cons s n c (x ∷ xs) d f)
      | inl e ↦ rw e (
          IsDoomed-cons s n x (heap_push c xs)
            (heap_push-IsDoomed s n c xs rest (λ k. (ground (arith, (f k).0), (f k).1)))
            (λ k.
              (ground (arith, contains-heap_push s x.position c xs, (head k).0, f, k), (head k).1)))
    ]

-- The positions of each site stand once each and are below a bound of this site.
abbrev pub IsSelection : (Text → ℕ) → List Candidate → Type 0
IsSelection bound worst = (s : Text) → IsDoomed 0 (bound s) (positions_at s worst)

module _ (c : Candidate) (bound bound' : Text → ℕ) (here : bound c.site ≡ c.position)
    (next : (s : Text) → bound' s ≡ (if c.site == s then suc (bound s) else bound s)) (s : Text)
    (xs : List Candidate) (v : IsDoomed 0 (bound s) (positions_at s xs)) where
  IsDoomed-next : IsDoomed 0 (bound' s) (positions_at s xs)
  IsDoomed-next = elim (Bool-cases (c.site == s)) [
    | inl e ↦
        let is : bound' s ≡ suc (bound s) = next s ∙ rw e refl in
        subst (λ n. IsDoomed 0 n (positions_at s xs)) (sym is)
          (IsDoomed-suc (bound s) (positions_at s xs) v)
    | inr e ↦
        let is : bound' s ≡ bound s = next s ∙ rw e refl in
        subst (λ n. IsDoomed 0 n (positions_at s xs)) (sym is) v
  ]

  IsDoomed-push : IsDoomed 0 (bound' s) (positions_at s (heap_push c xs))
  IsDoomed-push = heap_push-IsDoomed s (bound' s) c xs IsDoomed-next (λ e.
      let same : bound s ≡ c.position =
        ap bound (sym ((text_comparable.same_iff c.site s).0 e)) ∙ here in
      (
        subst (λ q. contains q (positions_at s xs) ≡ false) same
            (contains-IsDoomed (bound s) (positions_at s xs) v),
        (let is : bound' s ≡ suc (bound s) = next s ∙ rw e refl in omega (arith, same, is)),
      ))

consider-IsSelection :
    (d : ℕ) (c : Candidate) (worst : List Candidate) (bound bound' : Text → ℕ)
    → IsSelection bound worst
    → bound c.site ≡ c.position
    → ((s : Text) → bound' s ≡ (if c.site == s then suc (bound s) else bound s))
    → IsSelection bound' (consider d c worst)
unfolding consider
consider-IsSelection d c [] bound bound' v here next s = elim (Bool-cases (ltb 0 d)) [
  | inl e ↦ rw e (IsDoomed-push c bound bound' here next s [] (v s))
  | inr e ↦ rw e (IsDoomed-next c bound bound' here next s [] (v s))
]
consider-IsSelection d c (x ∷ xs) bound bound' v here next s =
    elim (Bool-cases (ltb (length (x ∷ xs)) d)) [
      | inl e ↦ rw e (IsDoomed-push c bound bound' here next s (x ∷ xs) (v s))
      | inr e ↦ elim (Bool-cases (candidate_lt c x)) [
        | inl k ↦
            rw (e, k)
              (IsDoomed-push c bound bound' here next s xs (IsDoomed-tail s (bound s) x xs (v s)).0)
        | inr k ↦ rw (e, k) (IsDoomed-next c bound bound' here next s (x ∷ xs) (v s))
      ]
    ]

length-heap_push : (c : Candidate) (xs : List Candidate) → length (heap_push c xs) ≡ suc (length xs)
unfolding heap_push
length-heap_push c [] = refl
length-heap_push c (x ∷ xs) = ground (arith, length-heap_push c xs)

length-consider :
    (d : ℕ) (c : Candidate) (worst : List Candidate)
    → length worst ≤ d
    → length (consider d c worst) ≡ min d (suc (length worst))
unfolding consider
length-consider d c [] h = elim (Bool-cases (ltb 0 d)) [
  | inl e ↦ rw e (ground (arith, e, length-heap_push c []))
  | inr e ↦ rw e (ground (arith, e))
]
length-consider d c (x ∷ xs) h = elim (Bool-cases (ltb (length (x ∷ xs)) d)) [
  | inl e ↦ rw e (ground (arith, e, length-heap_push c (x ∷ xs)))
  | inr e ↦ elim (Bool-cases (candidate_lt c x)) [
    | inl k ↦ rw (e, k) (ground (arith, e, h, length-heap_push c xs))
    | inr k ↦ rw (e, k) (ground (arith, e, h))
  ]
]
