-- ===== src/Cookie/Bucket/Index.antt =====
-- A list and an index from the keys of its elements to their positions, as a bucket of jar.rs keeps
-- them: what keeps the two in step.
use chromulate.Prelude.{
  ℕ, ◌+◌, ◌-◌, ◌≤◌, ◌<◌, false, none, some, List, [], ◌∷◌, ◌++◌, ◌≡◌, ◌≢◌, inl, inr, sym, ap, ◌∙◌,
  subst, arith, ltb, nat_beq, nat_beq_iff, if◌then◌else◌, length, get_elem?, set, drop_last, ◌==◌,
  Bool-cases, length-append, Comparable,
}
use chromulate.Prelude.Assoc.{
  lookup, insert, remove, Distinct, lookup-insert, lookup-remove, insert-Distinct, remove-Distinct,
}
use chromulate.Cookie.Bucket.Positions.{
  get_elem?-append_left, get_elem?-append_last, get_elem?-lt, length-set, get_elem?-set,
  get_elem?-drop_last,
}

ltb-false : (a b : ℕ) → ltb a b ≡ false → b ≤ a
ltb-false a b h = ground arith

module _ {K A : Type 0} ⦃c : Comparable K⦄ (key : A → K) where
  -- The index gives each element its position, and no key a position without one. So no two
  -- elements have the same key.
  pub record IsIndex (xs : List A) (index : List (K × ℕ)) : Type 0 where
    pub located : (i : ℕ) (x : A) → get_elem? xs i ≡ some x → lookup (key x) index ≡ some i
    pub sound :
        (k : K) (i : ℕ)
        → lookup k index ≡ some i
        → (x : A) × (get_elem? xs i ≡ some x) × (key x ≡ k)
    pub distinct : Distinct index

  pub nil-IsIndex : IsIndex [] []
  unfolding lookup
  nil-IsIndex = record {
    located = λ i x h. absurd (ground (arith, h));
    sound = λ k i h. absurd (ground (arith, h));
    distinct = tt;
  }

  append_located :
      (xs : List A) (index : List (K × ℕ)) (x y : A) (i : ℕ)
      → IsIndex xs index
      → lookup (key x) index ≡ none
      → get_elem? (xs ++ x ∷ []) i ≡ some y
      → lookup (key y) (insert (key x) (length xs) index) ≡ some i
  append_located xs index x y i v fresh h = elim (Bool-cases (ltb i (length xs))) [
    | inl e ↦
        let old : get_elem? xs i ≡ some y =
          sym (get_elem?-append_left xs (x ∷ []) i (ground (arith, e))) ∙ h in
        ground (
          arith,
          lookup-insert (key x) (key y) (length xs) index,
          v.located i y old,
          fresh,
          c.same_iff (key x) (key y),
        )
    | inr e ↦
        let short = get_elem?-lt (xs ++ x ∷ []) i y h in
        let here : i ≡ length xs =
          omega (arith, length-append xs (x ∷ []), ltb-false i (length xs) e) in
        let same : x ≡ y = ground (
          arith,
          sym (get_elem?-append_last xs x) ∙ ap (get_elem? (xs ++ x ∷ [])) (sym here) ∙ h,
        ) in
        ground (
          arith,
          lookup-insert (key x) (key y) (length xs) index,
          c.same_iff (key x) (key y),
          here,
          ap key same,
        )
  ]

  append_sound :
      (xs : List A) (index : List (K × ℕ)) (x : A) (k : K) (i : ℕ)
      → IsIndex xs index
      → lookup k (insert (key x) (length xs) index) ≡ some i
      → (y : A) × (get_elem? (xs ++ x ∷ []) i ≡ some y) × (key y ≡ k)
  append_sound xs index x k i v h = elim (Bool-cases (key x == k)) [
    | inl e ↦
        let here : length xs ≡ i =
          ground (arith, h, lookup-insert (key x) k (length xs) index, e) in
        (
          x,
          subst (λ j. get_elem? (xs ++ x ∷ []) j ≡ some x) here (get_elem?-append_last xs x),
          (c.same_iff (key x) k).0 e,
        )
    | inr e ↦
        let (y, at, same) =
          v.sound k i (ground (arith, h, lookup-insert (key x) k (length xs) index, e)) in
        (y, get_elem?-append_left xs (x ∷ []) i (get_elem?-lt xs i y at) ∙ at, same)
  ]

  pub append-IsIndex :
      (xs : List A) (index : List (K × ℕ)) (x : A)
      → IsIndex xs index
      → lookup (key x) index ≡ none
      → IsIndex (xs ++ x ∷ []) (insert (key x) (length xs) index)
  append-IsIndex xs index x v fresh = record {
    located = λ i y h. append_located xs index x y i v fresh h;
    sound = λ k i h. append_sound xs index x k i v h;
    distinct = insert-Distinct (key x) (length xs) index v.distinct;
  }

  -- Two elements of one key stand at one position.
  pub same_position :
      (xs : List A) (index : List (K × ℕ)) (i j : ℕ) (x y : A)
      → IsIndex xs index
      → get_elem? xs i ≡ some x
      → get_elem? xs j ≡ some y
      → key x ≡ key y
      → i ≡ j
  same_position xs index i j x y v p q h =
      ground (arith, v.located i x p, v.located j y q, ap (λ k. lookup k index) h)

  pub set-IsIndex :
      (xs : List A) (index : List (K × ℕ)) (i : ℕ) (x y : A)
      → IsIndex xs index
      → get_elem? xs i ≡ some x
      → key y ≡ key x
      → IsIndex (set xs i y) index
  set-IsIndex xs index i x y v at same = record {
    located = λ j z h. ground (
      arith,
      get_elem?-set xs i j y (get_elem?-lt xs i x at),
      h,
      v.located j z,
      v.located i x at,
      ap key,
      ap (λ k. lookup k index) same,
      nat_beq_iff j i,
    );
    sound = λ k j h.
        let (w, found, is) = v.sound k j h in
        let there = get_elem?-set xs i j y (get_elem?-lt xs i x at) in
        elim (Bool-cases (nat_beq j i)) [
          | inl e ↦ (y, ground (arith, there, e), same ∙ ap key (ground (arith, at, found, e)) ∙ is)
          | inr e ↦ (w, ground (arith, there, e, found), is)
        ];
    distinct = v.distinct;
  }

  -- The reads behind `swap_remove`.
  pub swapped_at :
      (xs : List A) (i j : ℕ) (last : A)
      → i < length xs
      → get_elem? (drop_last (set xs i last)) j ≡ (
          if ltb (j + 1) (length xs)
          then (if nat_beq j i then some last else get_elem? xs j)
          else none)
  swapped_at xs i j last h = ground (
    arith,
    get_elem?-drop_last (set xs i last) j,
    length-set xs i last,
    get_elem?-set xs i j last h,
  )

  -- `swap_remove` of an element that is not the last: the last one takes its place.
  swap_located :
      (xs : List A) (index : List (K × ℕ)) (i j : ℕ) (removed last z : A)
      → IsIndex xs index
      → get_elem? xs i ≡ some removed
      → get_elem? xs (length xs - 1) ≡ some last
      → i + 1 < length xs
      → get_elem? (drop_last (set xs i last)) j ≡ some z
      → lookup (key z) (insert (key last) i (remove (key removed) index)) ≡ some j
  swap_located xs index i j removed last z v at end inner h =
      let reads = swapped_at xs i j last (omega arith) in
      let law = lookup-insert (key last) (key z) i (remove (key removed) index) in
      let law' = lookup-remove (key removed) (key z) index v.distinct in
      elim (Bool-cases (ltb (j + 1) (length xs))) [
        | inr e ↦ absurd (ground (arith, reads, h, e))
        | inl e ↦ elim (Bool-cases (nat_beq j i)) [
          | inl g ↦
              let is : last ≡ z = ground (arith, reads, h, e, g) in
              ground (arith, law, (c.same_iff (key last) (key z)).1 (ap key is), g)
          | inr g ↦
              let old : get_elem? xs j ≡ some z = ground (arith, reads, h, e, g) in
              ground (
                arith,
                law,
                law',
                v.located j z old,
                c.same_iff (key last) (key z),
                c.same_iff (key removed) (key z),
                same_position xs index (length xs - 1) j last z v end old,
                same_position xs index i j removed z v at old,
                e,
                g,
              )
        ]
      ]

  swap_sound :
      (xs : List A) (index : List (K × ℕ)) (i j : ℕ) (removed last : A) (k : K)
      → IsIndex xs index
      → get_elem? xs i ≡ some removed
      → get_elem? xs (length xs - 1) ≡ some last
      → i + 1 < length xs
      → lookup k (insert (key last) i (remove (key removed) index)) ≡ some j
      → (z : A) × (get_elem? (drop_last (set xs i last)) j ≡ some z) × (key z ≡ k)
  swap_sound xs index i j removed last k v at end inner h =
      let reads = swapped_at xs i j last (omega arith) in
      let law = lookup-insert (key last) k i (remove (key removed) index) in
      let law' = lookup-remove (key removed) k index v.distinct in
      elim (Bool-cases (key last == k)) [
        | inl e ↦ (last, ground (arith, reads, law, h, e, inner), (c.same_iff (key last) k).0 e)
        | inr e ↦ elim (Bool-cases (key removed == k)) [
          | inl g ↦ absurd (ground (arith, law, law', h, e, g))
          | inr g ↦
              let (z, old, is) = v.sound k j (ground (arith, law, law', h, e, g)) in
              let inside = get_elem?-lt xs j z old in
              let off : j ≢ i = λ p. ground (
                arith,
                g,
                (c.same_iff (key removed) k).1
                    (ap key (ground (arith, at, old, ap (get_elem? xs) p)) ∙ is),
              ) in
              let off' : j ≢ length xs - 1 = λ p. ground (
                arith,
                e,
                (c.same_iff (key last) k).1
                    (ap key (ground (arith, end, old, ap (get_elem? xs) p)) ∙ is),
              ) in
              (z, ground (arith, reads, old, off, off', inside), is)
        ]
      ]

  pub swap-IsIndex :
      (xs : List A) (index : List (K × ℕ)) (i : ℕ) (removed last : A)
      → IsIndex xs index
      → get_elem? xs i ≡ some removed
      → get_elem? xs (length xs - 1) ≡ some last
      → i + 1 < length xs
      → IsIndex (drop_last (set xs i last)) (insert (key last) i (remove (key removed) index))
  swap-IsIndex xs index i removed last v at end inner = record {
    located = λ j z h. swap_located xs index i j removed last z v at end inner h;
    sound = λ k j h. swap_sound xs index i j removed last k v at end inner h;
    distinct =
        insert-Distinct (key last) i (remove (key removed) index)
          (remove-Distinct (key removed) index v.distinct);
  }

  -- `swap_remove` of the last element.
  pub pop-IsIndex :
      (xs : List A) (index : List (K × ℕ)) (i : ℕ) (removed : A)
      → IsIndex xs index
      → get_elem? xs i ≡ some removed
      → i + 1 ≡ length xs
      → IsIndex (drop_last (set xs i removed)) (remove (key removed) index)
  pop-IsIndex xs index i removed v at end = record {
    located = λ j z h.
        let reads = swapped_at xs i j removed (omega arith) in
        let law = lookup-remove (key removed) (key z) index v.distinct in
        elim (Bool-cases (ltb (j + 1) (length xs))) [
          | inr e ↦ absurd (ground (arith, reads, h, e))
          | inl e ↦
              let old : get_elem? xs j ≡ some z = ground (arith, reads, h, e, end) in
              ground (
                arith,
                law,
                v.located j z old,
                c.same_iff (key removed) (key z),
                same_position xs index i j removed z v at old,
                e,
                end,
              )
        ];
    sound = λ k j h.
        let reads = swapped_at xs i j removed (omega arith) in
        let law = lookup-remove (key removed) k index v.distinct in
        elim (Bool-cases (key removed == k)) [
          | inl g ↦ absurd (ground (arith, law, h, g))
          | inr g ↦
              let (z, old, is) = v.sound k j (ground (arith, law, h, g)) in
              let inside = get_elem?-lt xs j z old in
              let off : j ≢ i = λ p. ground (
                arith,
                g,
                (c.same_iff (key removed) k).1
                    (ap key (ground (arith, at, old, ap (get_elem? xs) p)) ∙ is),
              ) in
              (z, ground (arith, reads, old, off, inside, end), is)
        ];
    distinct = remove-Distinct (key removed) index v.distinct;
  }
