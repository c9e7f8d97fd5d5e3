-- ===== src/Cookie/Jar/Ceiling.antt =====
-- `enforce_total` of crates/chromulate-cookie/src/jar.rs leaves no more entries than its target.
use chromulate.Prelude.{
  ℕ, ◌+◌, ◌-◌, ◌≤◌, ◌<◌, none, some, List, [], ◌∷◌, ◌++◌, ◌≡◌, inl, inr, refl, sym, ap, ◌∙◌, subst,
  arith, leb, if◌then◌else◌, length, length-append, sum_by, ◌==◌, Option-cases, Bool-cases,
}
use chromulate.Prelude.Time.{Instant}
use chromulate.Prelude.Text.{Text, text_comparable}
use chromulate.Prelude.Assoc.{
  lookup, insert, Distinct, lookup-insert, insert-Distinct, sum_by-insert, sum_by-remove,
}
use chromulate.Cookie.Bucket.{Bucket, remove_all}
use chromulate.Cookie.Bucket.Bulk.{remove_all-IsIndexed}
use chromulate.Cookie.Bucket.Trimmed.{IsDoomed, length-remove_all}
use chromulate.Cookie.Jar.{Store, bucket_of, with_site}
use chromulate.Cookie.Jar.Counts.{IsValid, bucket_length, with_site-IsValid, bucket_of-IsIndexed}
use chromulate.Cookie.Jar.Capacity.{held_of, held_of-with_site}
use chromulate.Cookie.Jar.Eviction.{
  Candidate, victims_of, victims_in, evict, enforce_total, scan_sites,
}
use chromulate.Cookie.Jar.Selection.Scan.{scan_sites_nil-IsSelection, length-scan_sites}
use chromulate.Cookie.Jar.Selection.{positions_at}

abbrev doomed_at : Text → List (Text × List ℕ) → List ℕ
doomed_at s victims = elim (lookup s victims) [ none ↦ [] | some ps ↦ ps ]

append_cons : (a : List ℕ) (x : ℕ) (b : List ℕ) → (a ++ x ∷ []) ++ b ≡ a ++ x ∷ b
append_cons [] x b = refl
append_cons (y ∷ a) x b = ap (λ t. y ∷ t) (append_cons a x b)

append_nil : (a : List ℕ) → a ++ [] ≡ a
append_nil [] = refl
append_nil (y ∷ a) = ap (λ t. y ∷ t) (append_nil a)

doomed_at-insert :
    (k s : Text) (v : List ℕ) (m : List (Text × List ℕ))
    → doomed_at s (insert k v m) ≡ (if k == s then v else doomed_at s m)
doomed_at-insert k s v m = ground (arith, lookup-insert k s v m)

-- The grouping by sites keeps each site's positions, and their number in all.
doomed_at-victims_of :
    (s : Text) (worst : List Candidate) (victims : List (Text × List ℕ))
    → doomed_at s (victims_of worst victims) ≡ doomed_at s victims ++ positions_at s worst
unfolding victims_of
doomed_at-victims_of s [] victims = sym (append_nil (doomed_at s victims))
doomed_at-victims_of s (c ∷ worst) victims =
    let held : List ℕ = doomed_at c.site victims in
    let more : List (Text × List ℕ) = insert c.site (held ++ c.position ∷ []) victims in
    let rest : doomed_at s (victims_of worst more) ≡ doomed_at s more ++ positions_at s worst =
      doomed_at-victims_of s worst more in
    let read = doomed_at-insert c.site s (held ++ c.position ∷ []) victims in
    elim (Bool-cases (c.site == s)) [
      | inr e ↦
          let other : doomed_at s more ≡ doomed_at s victims = read ∙ rw e refl in
          rest ∙ ap (λ t. t ++ positions_at s worst) other ∙ rw e refl
      | inl e ↦
          let this : doomed_at s more ≡ held ++ c.position ∷ [] = read ∙ rw e refl in
          let same : held ≡ doomed_at s victims =
            ap (λ k. doomed_at k victims) ((text_comparable.same_iff c.site s).0 e) in
          rest
          ∙ ap (λ t. t ++ positions_at s worst) this
          ∙ append_cons held c.position (positions_at s worst)
          ∙ ap (λ t. t ++ c.position ∷ positions_at s worst) same
          ∙ rw e refl
    ]

victims_of-Distinct :
    (worst : List Candidate) (victims : List (Text × List ℕ))
    → Distinct victims
    → Distinct (victims_of worst victims)
unfolding victims_of
victims_of-Distinct [] victims u = u
victims_of-Distinct (c ∷ worst) victims u =
    let held : List ℕ = doomed_at c.site victims ++ c.position ∷ [] in
    victims_of-Distinct worst (insert c.site held victims) (insert-Distinct c.site held victims u)

abbrev doomed_count : List (Text × List ℕ) → ℕ
doomed_count victims = sum_by (λ (x : Text × List ℕ). length x.1) victims

doomed_count-victims_of :
    (worst : List Candidate) (victims : List (Text × List ℕ))
    → doomed_count (victims_of worst victims) ≡ doomed_count victims + length worst
unfolding victims_of
doomed_count-victims_of [] victims = omega arith
doomed_count-victims_of (c ∷ worst) victims =
    let held : List ℕ = doomed_at c.site victims ++ c.position ∷ [] in
    let rest = doomed_count-victims_of worst (insert c.site held victims) in
    let put = sum_by-insert length c.site held victims in
    let long = length-append (doomed_at c.site victims) (c.position ∷ []) in
    elim (Option-cases (lookup c.site victims)) [
      | inl n ↦ ground (arith, rest, put, long, n)
      | inr (ps, n) ↦ ground (arith, rest, put, long, n)
    ]

held_of_le : (site : Text) (st : Store) → IsValid st → held_of site st ≤ st.total
held_of_le site st v = elim (Option-cases (lookup site st.sites)) [
  | inl n ↦ ground (arith, n)
  | inr (b, n) ↦ ground (arith, n, sum_by-remove bucket_length site st.sites, v.total)
]

total-with_site :
    (site : Text) (b : Bucket) (st : Store)
    → (with_site site b st).total ≡ st.total - held_of site st + length b.entries
unfolding with_site
total-with_site site b st = refl

doomed_at-cons :
    (k s : Text) (ps : List ℕ) (m : List (Text × List ℕ))
    → doomed_at s ((k, ps) ∷ m) ≡ (if k == s then ps else doomed_at s m)
unfolding lookup
doomed_at-cons k s ps m = ground arith

-- Each removal takes off as many entries as it names.
total-evict :
    (victims : List (Text × List ℕ)) (st : Store)
    → IsValid st
    → Distinct victims
    → ((s : Text) → IsDoomed 0 (held_of s st) (doomed_at s victims))
    → (evict victims st).total + doomed_count victims ≡ st.total
unfolding evict lookup
total-evict [] st v u f = omega arith
total-evict ((site, ps) ∷ victims) st v u f =
    let old : Bucket = bucket_of site st in
    let b : Bucket = remove_all ps old in
    let st' : Store = with_site site b st in
    let mine : IsDoomed 0 (held_of site st) ps =
      subst (IsDoomed 0 (held_of site st))
        (doomed_at-cons site site ps victims
          ∙ rw ((text_comparable.same_iff site site).1 refl) refl)
        (f site) in
    let gone = length-remove_all ps old mine in
    let v' =
      with_site-IsValid site b st (remove_all-IsIndexed ps old (bucket_of-IsIndexed site st v)) v in
    let total' : st'.total ≡ st.total - held_of site st + length b.entries =
      total-with_site site b st in
    let rest = total-evict victims st' v' u.1 (λ s. elim (Bool-cases (site == s)) [
      | inl e ↦
          let none_here : lookup s victims ≡ none =
            ap (λ k. lookup k victims) (sym ((text_comparable.same_iff site s).0 e)) ∙ u.0 in
          let empty : [] ≡ doomed_at s victims = ground (arith, none_here) in
          subst (IsDoomed 0 (held_of s st')) empty tt
      | inr e ↦
          let reads : held_of s st ≡ held_of s st' =
            sym (held_of-with_site s site b st v ∙ rw e refl) in
          let theirs : doomed_at s ((site, ps) ∷ victims) ≡ doomed_at s victims =
            doomed_at-cons site s ps victims ∙ rw e refl in
          subst (λ n. IsDoomed 0 n (doomed_at s victims)) reads
            (subst (IsDoomed 0 (held_of s st)) theirs (f s))
    ]) in
    omega (arith, rest, total', gone, held_of_le site st v)

victims_in-IsDoomed :
    (now : Instant) (target : ℕ) (st : Store)
    → IsValid st
    → (s : Text) → IsDoomed 0 (held_of s st) (doomed_at s (victims_in now target st))
unfolding victims_in lookup
victims_in-IsDoomed now target st v s =
    let worst : List Candidate = scan_sites (st.total - target) now st.sites [] in
    let group : doomed_at s (victims_of worst []) ≡ positions_at s worst =
      doomed_at-victims_of s worst [] in
    let all : (elim (lookup s st.sites) [ none ↦ 0 | some b ↦ length b.entries ]) ≡ held_of s st =
      elim (Option-cases (lookup s st.sites)) [
        | inl n ↦ ground (arith, n)
        | inr (b, n) ↦ ground (arith, n)
      ] in
    subst (λ n. IsDoomed 0 n (doomed_at s (victims_of worst []))) all
      (subst (IsDoomed 0 _) (sym group)
        (scan_sites_nil-IsSelection (st.total - target) now st.sites v.distinct s))

-- What `enforce_total` leaves: the target where the jar was past its cap, and else all.
pub total-enforce_total :
    (now : Instant) (cap target : ℕ) (st : Store)
    → IsValid st
    → target ≤ cap
    → (enforce_total now cap target st).total ≡ (if leb st.total cap then st.total else target)
unfolding enforce_total victims_in
total-enforce_total now cap target st v small = elim (Bool-cases (leb st.total cap)) [
  | inl e ↦ rw e refl
  | inr e ↦
      let worst : List Candidate = scan_sites (st.total - target) now st.sites [] in
      let count = doomed_count-victims_of worst [] in
      let long = length-scan_sites (st.total - target) now st.sites [] (omega arith) in
      let left =
        total-evict (victims_in now target st) st v (victims_of-Distinct worst [] tt)
          (victims_in-IsDoomed now target st v) in
      let past : cap < st.total = ground (arith, e) in
      rw e (omega (arith, left, count, long, v.total, past, small))
]
