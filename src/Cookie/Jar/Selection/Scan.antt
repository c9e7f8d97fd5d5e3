-- ===== src/Cookie/Jar/Selection/Scan.antt =====
-- What the scan of `enforce_total`, crates/chromulate-cookie/src/jar.rs, selects: as many entries
-- as are to go, none of them twice.
use chromulate.Prelude.{
  ℕ, suc, ◌+◌, ◌≤◌, min, Bool, true, false, not, none, some, List, [], ◌∷◌, ◌≡◌, inl, inr, refl,
  sym, ap, ◌∙◌, subst, arith, if◌then◌else◌, length, sum_by, ◌==◌, Bool-cases,
}
use chromulate.Prelude.Time.{Instant}
use chromulate.Prelude.Text.{Text, text_comparable}
use chromulate.Prelude.Assoc.{lookup, Distinct}
use chromulate.Cookie.Parsing.{is_expired}
use chromulate.Cookie.Bucket.{Entry, Bucket}
use chromulate.Cookie.Bucket.Trimmed.{IsDoomed}
use chromulate.Cookie.Jar.Eviction.{Candidate, consider, scan_bucket, scan_sites}
use chromulate.Cookie.Jar.Selection.{
  positions_at, IsSelection, consider-IsSelection, length-consider,
}

-- One site more is scanned up to its end.
abbrev pub scanned : (Text → ℕ) → Text → ℕ → Text → ℕ
scanned bound site n s = if site == s then n else bound s

scanned_now :
    (bound : Text → ℕ) (site s : Text) (i n : ℕ)
    → bound site ≡ i
    → scanned bound site (i + n) s ≡ (if site == s then bound s + n else bound s)
scanned_now bound site s i n here = elim (Bool-cases (site == s)) [
  | inr e ↦ rw e refl
  | inl e ↦ rw e (omega (arith, here, ap bound ((text_comparable.same_iff site s).0 e)))
]

scanned_twice :
    (bound : Text → ℕ) (site s : Text) (m n k : ℕ)
    → n ≡ k
    → scanned (scanned bound site m) site n s ≡ scanned bound site k s
scanned_twice bound site s m n k e = elim (Bool-cases (site == s)) [
  | inl b ↦ rw b e
  | inr b ↦ rw b refl
]

scan_bucket-IsSelection :
    (d : ℕ) (now : Instant) (site : Text) (i : ℕ) (es : List Entry) (worst : List Candidate)
    (bound : Text → ℕ)
    → IsSelection bound worst
    → bound site ≡ i
    → IsSelection (scanned bound site (i + length es)) (scan_bucket d now site i es worst)
unfolding scan_bucket
scan_bucket-IsSelection d now site i [] worst bound v here s =
    subst (λ n. IsDoomed 0 n (positions_at s worst))
      (sym (scanned_now bound site s i 0 here ∙ same (bound s) (site == s))) (v s)
  where
    same : (n : ℕ) (b : Bool) → (if b then n + 0 else n) ≡ n
    same n true = omega arith
    same n false = refl
scan_bucket-IsSelection d now site i (e ∷ es) worst bound v here s =
    let c : Candidate = record {
      live = not (is_expired e.cookie now);
      accessed = e.last_access_seq;
      site = site;
      position = i;
    } in
    let first =
      consider-IsSelection d c worst bound (scanned bound site (i + 1)) v here
        (λ t. scanned_now bound site t i 1 here ∙ plus_one (bound t) (site == t)) in
    subst
      (λ n. IsDoomed 0 n (positions_at s (scan_bucket d now site (i + 1) es (consider d c worst))))
      (scanned_twice bound site s (i + 1) (i + 1 + length es) (i + suc (length es)) (omega arith))
      (scan_bucket-IsSelection d now site (i + 1) es (consider d c worst)
        (scanned bound site (i + 1)) first (rw ((text_comparable.same_iff site site).1 refl) refl)
        s)
  where
    plus_one : (n : ℕ) (b : Bool) → (if b then n + 1 else n) ≡ (if b then suc n else n)
    plus_one n true = omega arith
    plus_one n false = refl

length-scan_bucket :
    (d : ℕ) (now : Instant) (site : Text) (i : ℕ) (es : List Entry) (worst : List Candidate)
    → length worst ≤ d
    → length (scan_bucket d now site i es worst) ≡ min d (length worst + length es)
unfolding scan_bucket
length-scan_bucket d now site i [] worst h = omega (arith, h)
length-scan_bucket d now site i (e ∷ es) worst h =
    let c : Candidate = record {
      live = not (is_expired e.cookie now);
      accessed = e.last_access_seq;
      site = site;
      position = i;
    } in
    let one = length-consider d c worst h in
    let rest = length-scan_bucket d now site (i + 1) es (consider d c worst) (omega (arith, one)) in
    omega (arith, one, rest)

-- How many entries of a site the scan of the sites looks at.
abbrev pub scanned_all : (Text → ℕ) → List (Text × Bucket) → Text → ℕ
scanned_all bound [] s = bound s
scanned_all bound ((site, b) ∷ sites) s =
    scanned_all (scanned bound site (length b.entries)) sites s

scan_sites-IsSelection :
    (d : ℕ) (now : Instant) (sites : List (Text × Bucket)) (worst : List Candidate)
    (bound : Text → ℕ)
    → IsSelection bound worst
    → Distinct sites
    → ((s : Text) → (lookup s sites ≡ none → false ≡ true) → bound s ≡ 0)
    → IsSelection (scanned_all bound sites) (scan_sites d now sites worst)
unfolding scan_sites lookup
scan_sites-IsSelection d now [] worst bound v u zero_at = v
scan_sites-IsSelection d now ((site, b) ∷ sites) worst bound v u zero_at =
    let at_site : bound site ≡ 0 =
      zero_at site (λ n. ground (arith, n, (text_comparable.same_iff site site).1 refl)) in
    let first : IsSelection (scanned bound site (length b.entries))
        (scan_bucket d now site 0 b.entries worst) =
      λ s.
        subst
          (λ n.
            IsDoomed 0 (scanned bound site n s)
              (positions_at s (scan_bucket d now site 0 b.entries worst)))
          (omega arith) (scan_bucket-IsSelection d now site 0 b.entries worst bound v at_site s) in
    scan_sites-IsSelection d now sites (scan_bucket d now site 0 b.entries worst)
      (scanned bound site (length b.entries)) first u.1
      (λ s f. elim (Bool-cases (site == s)) [
        | inl e ↦
            let none_here : lookup s sites ≡ none =
              ap (λ k. lookup k sites) (sym ((text_comparable.same_iff site s).0 e)) ∙ u.0 in
            absurd (ground (arith, f none_here))
        | inr e ↦ rw e (zero_at s (λ n. f (ground (arith, n, e))))
      ])

scanned_all-lookup :
    (bound : Text → ℕ) (sites : List (Text × Bucket)) (s : Text)
    → Distinct sites
    → scanned_all bound sites s
      ≡ (elim (lookup s sites) [ none ↦ bound s | some b ↦ length b.entries ])
unfolding lookup
scanned_all-lookup bound [] s u = refl
scanned_all-lookup bound ((site, b) ∷ sites) s u =
    let rest = scanned_all-lookup (scanned bound site (length b.entries)) sites s u.1 in
    elim (Bool-cases (site == s)) [
      | inl e ↦
          let none_here : lookup s sites ≡ none =
            ap (λ k. lookup k sites) (sym ((text_comparable.same_iff site s).0 e)) ∙ u.0 in
          ground (arith, rest, none_here, e)
      | inr e ↦ ground (arith, rest, e)
    ]

-- The scan of all sites selects positions of entries only, none twice.
pub scan_sites_nil-IsSelection :
    (d : ℕ) (now : Instant) (sites : List (Text × Bucket))
    → Distinct sites
    → IsSelection
        (λ s. elim (lookup s sites) [ none ↦ 0 | some b ↦ length b.entries ])
        (scan_sites d now sites [])
scan_sites_nil-IsSelection d now sites u s =
    subst (λ n. IsDoomed 0 n (positions_at s (scan_sites d now sites [])))
      (scanned_all-lookup (λ _. 0) sites s u)
      (scan_sites-IsSelection d now sites [] (λ _. 0) (λ _. tt) u (λ _ _. refl) s)

-- And as many as are to go.
pub length-scan_sites :
    (d : ℕ) (now : Instant) (sites : List (Text × Bucket)) (worst : List Candidate)
    → length worst ≤ d
    → length (scan_sites d now sites worst)
      ≡ min d (length worst + sum_by (λ (x : Text × Bucket). length x.1.entries) sites)
unfolding scan_sites
length-scan_sites d now [] worst h = omega (arith, h)
length-scan_sites d now ((site, b) ∷ sites) worst h =
    let one = length-scan_bucket d now site 0 b.entries worst h in
    let rest =
      length-scan_sites d now sites (scan_bucket d now site 0 b.entries worst)
        (omega (arith, one)) in
    omega (arith, one, rest)
