-- ===== src/Cookie/Bucket/Reads.antt =====
-- What a key reads through an index, after each change of the list behind it.
use chromulate.Prelude.{
  ℕ, ◌+◌, ◌-◌, ◌<◌, Option, none, some, List, [], ◌∷◌, ◌++◌, ◌≡◌, ◌≢◌, inl, inr, sym, ap, ◌∙◌,
  subst, arith, ltb, if◌then◌else◌, length, get_elem?, set, drop_last, ◌==◌, Option-cases,
  Bool-cases, Comparable,
}
use chromulate.Prelude.Assoc.{lookup, insert, remove, lookup-insert, lookup-remove}
use chromulate.Cookie.Bucket.Positions.{
  get_elem?-append_left, get_elem?-append_last, get_elem?-lt, get_elem?-set,
}
use chromulate.Cookie.Bucket.Index.{IsIndex, same_position, swapped_at, swap-IsIndex, pop-IsIndex}

module _ {K A : Type 0} ⦃c : Comparable K⦄ where
  -- The element that a key's position in the index names.
  abbrev pub at : K → List A → List (K × ℕ) → Option A
  at k xs index = elim (lookup k index) [ none ↦ none | some i ↦ get_elem? xs i ]

module _ {K A : Type 0} ⦃c : Comparable K⦄ (key : A → K) where
  pub at-append :
      (xs : List A) (index : List (K × ℕ)) (x : A) (k : K)
      → IsIndex key xs index
      → at k (xs ++ x ∷ []) (insert (key x) (length xs) index)
        ≡ (if key x == k then some x else at k xs index)
  at-append xs index x k v =
      let law = lookup-insert (key x) k (length xs) index in
      elim (Bool-cases (key x == k)) [
        | inl e ↦ ground (arith, law, e, get_elem?-append_last xs x)
        | inr e ↦ elim (Option-cases (lookup k index)) [
          | inl n ↦ ground (arith, law, e, n)
          | inr (i, n) ↦
              let (y, old, is) = v.sound k i n in
              ground
                (arith, law, e, n, get_elem?-append_left xs (x ∷ []) i (get_elem?-lt xs i y old))
        ]
      ]

  pub at-set :
      (xs : List A) (index : List (K × ℕ)) (i : ℕ) (x y : A) (k : K)
      → IsIndex key xs index
      → get_elem? xs i ≡ some x
      → at k (set xs i y) index ≡ (if key x == k then some y else at k xs index)
  at-set xs index i x y k v here = elim (Option-cases (lookup k index)) [
    | inl n ↦ elim (Bool-cases (key x == k)) [
      | inl e ↦ absurd (
          ground
            (arith, n, v.located i x here, ap (λ j. lookup j index) ((c.same_iff (key x) k).0 e)))
      | inr e ↦ ground (arith, n, e)
    ]
    | inr (j, n) ↦
        let (z, old, is) = v.sound k j n in
        let reads = get_elem?-set xs i j y (get_elem?-lt xs i x here) in
        elim (Bool-cases (key x == k)) [
          | inl e ↦
              let there =
                same_position key xs index i j x z v here old
                  ((c.same_iff (key x) k).0 e ∙ sym is) in
              ground (arith, n, e, reads, there)
          | inr e ↦
              let off : j ≢ i = λ p. ground (
                arith,
                e,
                (c.same_iff (key x) k).1
                    (ap key (ground (arith, here, old, ap (get_elem? xs) p)) ∙ is),
              ) in
              ground (arith, n, e, reads, off)
        ]
  ]

  -- The index behind `swap_remove`, with the entry for what now stands at `i`.
  abbrev pub repaired : Option A → ℕ → List (K × ℕ) → List (K × ℕ)
  repaired moved i index = elim moved [ none ↦ index | some m ↦ insert (key m) i index ]

  at-swap :
      (xs : List A) (index : List (K × ℕ)) (i : ℕ) (removed last : A) (k : K)
      → IsIndex key xs index
      → get_elem? xs i ≡ some removed
      → get_elem? xs (length xs - 1) ≡ some last
      → i + 1 < length xs
      → at k (drop_last (set xs i last)) (insert (key last) i (remove (key removed) index))
        ≡ (if key removed == k then none else at k xs index)
  at-swap xs index i removed last k v here end inner =
      let law = lookup-insert (key last) k i (remove (key removed) index) in
      let law' = lookup-remove (key removed) k index v.distinct in
      elim (Bool-cases (key last == k)) [
        | inl e ↦
            let is = (c.same_iff (key last) k).0 e in
            let stored : lookup k index ≡ some (length xs - 1) =
              ap (λ j. lookup j index) (sym is) ∙ v.located (length xs - 1) last end in
            ground (
              arith,
              law,
              e,
              stored,
              end,
              is,
              swapped_at key xs i i last,
              c.same_iff (key removed) k,
              same_position key xs index i (length xs - 1) removed last v here end,
            )
        | inr e ↦ elim (Bool-cases (key removed == k)) [
          | inl g ↦ ground (arith, law, law', e, g)
          | inr g ↦ elim (Option-cases (lookup k index)) [
            | inl n ↦ ground (arith, law, law', e, g, n)
            | inr (j, n) ↦
                let (z, old, is) = v.sound k j n in
                let inside = get_elem?-lt xs j z old in
                let off : j ≢ i = λ p. ground (
                  arith,
                  g,
                  (c.same_iff (key removed) k).1
                      (ap key (ground (arith, here, old, ap (get_elem? xs) p)) ∙ is),
                ) in
                let off' : j ≢ length xs - 1 = λ p. ground (
                  arith,
                  e,
                  (c.same_iff (key last) k).1
                      (ap key (ground (arith, end, old, ap (get_elem? xs) p)) ∙ is),
                ) in
                ground (arith, law, law', e, g, n, inside, off, off', swapped_at key xs i j last)
          ]
        ]
      ]

  at-pop :
      (xs : List A) (index : List (K × ℕ)) (i : ℕ) (removed : A) (k : K)
      → IsIndex key xs index
      → get_elem? xs i ≡ some removed
      → i + 1 ≡ length xs
      → at k (drop_last (set xs i removed)) (remove (key removed) index)
        ≡ (if key removed == k then none else at k xs index)
  at-pop xs index i removed k v here end =
      let law = lookup-remove (key removed) k index v.distinct in
      elim (Bool-cases (key removed == k)) [
        | inl g ↦ ground (arith, law, g)
        | inr g ↦ elim (Option-cases (lookup k index)) [
          | inl n ↦ ground (arith, law, g, n)
          | inr (j, n) ↦
              let (z, old, is) = v.sound k j n in
              let inside = get_elem?-lt xs j z old in
              let off : j ≢ i = λ p. ground (
                arith,
                g,
                (c.same_iff (key removed) k).1
                    (ap key (ground (arith, here, old, ap (get_elem? xs) p)) ∙ is),
              ) in
              ground (arith, law, g, n, inside, off, end, swapped_at key xs i j removed)
        ]
      ]

  -- What `swap_remove` at `i` and the repair have to leave.
  abbrev pub Removed : List A → List (K × ℕ) → ℕ → A → A → Option A → Type 0
  Removed xs index i removed last moved =
      let ys : List A = drop_last (set xs i last) in
      let index' : List (K × ℕ) = repaired moved i (remove (key removed) index) in
      IsIndex key ys index'
      × ((k : K) → at k ys index' ≡ (if key removed == k then none else at k xs index))

  -- Both cases of `swap_remove` and of the repair of the index behind it.
  pub swap_remove-Removed :
      (xs : List A) (index : List (K × ℕ)) (i : ℕ) (removed last : A)
      → IsIndex key xs index
      → get_elem? xs i ≡ some removed
      → get_elem? xs (length xs - 1) ≡ some last
      → Removed xs index i removed last (get_elem? (drop_last (set xs i last)) i)
  swap_remove-Removed xs index i removed last v here end =
      let inside = get_elem?-lt xs i removed here in
      elim (Bool-cases (ltb (i + 1) (length xs))) [
        | inl e ↦
            let moved : get_elem? (drop_last (set xs i last)) i ≡ some last =
              ground (arith, swapped_at key xs i i last, e) in
            subst (Removed xs index i removed last) (sym moved) (
              swap-IsIndex key xs index i removed last v here end (ground (arith, e)),
              λ k. at-swap xs index i removed last k v here end (ground (arith, e)),
            )
        | inr e ↦
            let final : i + 1 ≡ length xs = ground (arith, e, inside) in
            let at_end : length xs - 1 ≡ i = omega (arith, final) in
            let is : removed ≡ last = ground (arith, sym end ∙ ap (get_elem? xs) at_end ∙ here) in
            let gone : get_elem? (drop_last (set xs i last)) i ≡ none =
              ground (arith, swapped_at key xs i i last, e) in
            subst (Removed xs index i removed last) (sym gone) (
              subst (λ l. Removed xs index i removed l none) is
                (
                  pop-IsIndex key xs index i removed v here final,
                  λ k. at-pop xs index i removed k v here final,
                ))
      ]
