-- ===== src/Cookie/Bucket/Bulk.antt =====
-- The index of a bucket of jar.rs after `reindex`, and so after every removal of many entries.
use chromulate.Prelude.{
  ℕ, zero, suc, ◌+◌, Bool, true, false, not, some, List, [], ◌∷◌, ◌≡◌, ◌⊎◌, inl, inr, refl, ap, ◌∙◌,
  subst, arith, leb, nat_beq, length, filter, get_elem?, ◌==◌, Bool-cases, All, All-filter,
}
use chromulate.Prelude.Time.{Instant}
use chromulate.Prelude.Assoc.{lookup, insert, Distinct, lookup-insert, insert-Distinct}
use chromulate.Cookie.Parsing.{is_expired}
use chromulate.Cookie.Bucket.{
  Entry, Identity, identity_of, identity_comparable, Bucket, reindex_from, reindex, remove_expired,
  keep_from, remove_all, trim_to, contains,
}
use chromulate.Cookie.Bucket.Index.{IsIndex, same_position}

abbrev pub entry_key : Entry → Identity
entry_key e = identity_of e.cookie

abbrev pub IsIndexed : Bucket → Type 0
IsIndexed b = IsIndex entry_key b.entries b.index

-- No entry of the list has this identity; no two have the same.
abbrev Fresh : Identity → List Entry → Type 0
Fresh id = All (λ e. (entry_key e == id) ≡ false)

abbrev Unique : List Entry → Type 0
Unique [] = Unit
Unique (e ∷ es) = Fresh (entry_key e) es × Unique es

All-get_elem? :
    (P : Entry → Type 0) (es : List Entry)
    → ((i : ℕ) (e : Entry) → get_elem? es i ≡ some e → P e)
    → All P es
All-get_elem? P [] h = tt
All-get_elem? P (e ∷ es) h = (h 0 e refl, All-get_elem? P es (λ i f p. h (suc i) f p))

Unique-get_elem? :
    (es : List Entry)
    → ((i j : ℕ) (e f : Entry)
        → get_elem? es i ≡ some e
        → get_elem? es j ≡ some f
        → entry_key e ≡ entry_key f
        → i ≡ j)
    → Unique es
Unique-get_elem? [] h = tt
Unique-get_elem? (e ∷ es) h = (
  All-get_elem? (λ f. (entry_key f == entry_key e) ≡ false) es
      (λ i f p. differ f (λ q. absurd (omega (arith, h (suc i) 0 f e p refl q)))),
  Unique-get_elem? es (λ i j f g p q r. omega (arith, h (suc i) (suc j) f g p q r)),
)
  where
    differ :
        (f : Entry)
        → (entry_key f ≡ entry_key e → true ≡ false)
        → (entry_key f == entry_key e) ≡ false
    differ f n = elim (Bool-cases (entry_key f == entry_key e)) [
      | inr k ↦ k
      | inl k ↦
          absurd
            (ground (arith, n ((identity_comparable.same_iff (entry_key f) (entry_key e)).0 k)))
    ]

IsIndexed-Unique : (b : Bucket) → IsIndexed b → Unique b.entries
IsIndexed-Unique b v =
    Unique-get_elem? b.entries
      (λ i j e f p q r. same_position entry_key b.entries b.index i j e f v p q r)

-- `reindex` over fresh entries leaves what other identities read.
lookup-reindex_from-Fresh :
    (id : Identity) (es : List Entry) (k : ℕ) (index : List (Identity × ℕ))
    → Fresh id es
    → lookup id (reindex_from k es index) ≡ lookup id index
unfolding reindex_from
lookup-reindex_from-Fresh id [] k index f = refl
lookup-reindex_from-Fresh id (e ∷ es) k index f =
    lookup-reindex_from-Fresh id es (k + 1) (insert (entry_key e) k index) f.1
    ∙ lookup-insert (entry_key e) id k index
    ∙ rw f.0 refl

reindex_from_located :
    (es : List Entry) (k i : ℕ) (e : Entry) (index : List (Identity × ℕ))
    → Unique es
    → get_elem? es i ≡ some e
    → lookup (entry_key e) (reindex_from k es index) ≡ some (k + i)
unfolding reindex_from
reindex_from_located [] k i e index u h = absurd (ground (arith, h))
reindex_from_located (x ∷ es) k zero e index u h =
    let here : lookup (entry_key x) (reindex_from (k + 1) es (insert (entry_key x) k index))
        ≡ some (k + 0) =
      lookup-reindex_from-Fresh (entry_key x) es (k + 1) (insert (entry_key x) k index) u.0
      ∙ lookup-insert (entry_key x) (entry_key x) k index
      ∙ rw ((identity_comparable.same_iff (entry_key x) (entry_key x)).1 refl)
          (ap some (omega arith)) in
    let is : x ≡ e = ground (arith, h) in
    subst
      (λ y.
        lookup (entry_key y) (reindex_from (k + 1) es (insert (entry_key x) k index))
        ≡ some (k + 0))
      is here
reindex_from_located (x ∷ es) k (suc i) e index u h =
    reindex_from_located es (k + 1) i e (insert (entry_key x) k index) u.1 h ∙ ap some (omega arith)

reindex_from_sound :
    (es : List Entry) (k i : ℕ) (id : Identity) (index : List (Identity × ℕ))
    → lookup id (reindex_from k es index) ≡ some i
    → (lookup id index ≡ some i)
      ⊎ ((j : ℕ) × (e : Entry) × (get_elem? es j ≡ some e) × (entry_key e ≡ id) × (i ≡ k + j))
unfolding reindex_from
reindex_from_sound [] k i id index h = inl h
reindex_from_sound (x ∷ es) k i id index h =
    elim (reindex_from_sound es (k + 1) i id (insert (entry_key x) k index) h) [
      | inr (j, e, p, q, r) ↦ inr (suc j, e, p, q, omega (arith, r))
      | inl old ↦ elim (Bool-cases (entry_key x == id)) [
        | inl g ↦ inr (
          0,
          x,
          refl,
          (identity_comparable.same_iff (entry_key x) id).0 g,
          ground (arith, old, lookup-insert (entry_key x) id k index, g),
        )
        | inr g ↦ inl (ground (arith, old, lookup-insert (entry_key x) id k index, g))
      ]
    ]

reindex_from-Distinct :
    (es : List Entry) (k : ℕ) (index : List (Identity × ℕ))
    → Distinct index
    → Distinct (reindex_from k es index)
unfolding reindex_from
reindex_from-Distinct [] k index d = d
reindex_from-Distinct (e ∷ es) k index d =
    reindex_from-Distinct es (k + 1) (insert (entry_key e) k index)
      (insert-Distinct (entry_key e) k index d)

pub reindex-IsIndexed : (es : List Entry) → Unique es → IsIndexed (reindex es)
unfolding reindex lookup
reindex-IsIndexed es u = record {
  located = λ i e h. reindex_from_located es 0 i e [] u h ∙ ap some (omega arith);
  sound = λ id i h. elim (reindex_from_sound es 0 i id [] h) [
    | inl none_there ↦ absurd (ground (arith, none_there))
    | inr (j, e, p, q, r) ↦ (e, ap (get_elem? es) (omega (arith, r)) ∙ p, q)
  ];
  distinct = reindex_from-Distinct es 0 [] tt;
}

Unique-filter : (p : Entry → Bool) (es : List Entry) → Unique es → Unique (filter p es)
Unique-filter p [] u = tt
Unique-filter p (e ∷ es) u = elim (Bool-cases (p e)) [
  | inl h ↦
      rw h (All-filter (λ f. (entry_key f == entry_key e) ≡ false) p es u.0, Unique-filter p es u.1)
  | inr h ↦ rw h (Unique-filter p es u.1)
]

All-keep_from :
    (P : Entry → Type 0) (i : ℕ) (doomed : List ℕ) (es : List Entry)
    → All P es
    → All P (keep_from i doomed es)
unfolding keep_from
All-keep_from P i doomed [] a = tt
All-keep_from P i doomed (e ∷ es) a = elim (Bool-cases (contains i doomed)) [
  | inl h ↦ rw h (All-keep_from P (i + 1) doomed es a.1)
  | inr h ↦ rw h (a.0, All-keep_from P (i + 1) doomed es a.1)
]

Unique-keep_from :
    (i : ℕ) (doomed : List ℕ) (es : List Entry) → Unique es → Unique (keep_from i doomed es)
unfolding keep_from
Unique-keep_from i doomed [] u = tt
Unique-keep_from i doomed (e ∷ es) u = elim (Bool-cases (contains i doomed)) [
  | inl h ↦ rw h (Unique-keep_from (i + 1) doomed es u.1)
  | inr h ↦ rw h (
    All-keep_from (λ f. (entry_key f == entry_key e) ≡ false) (i + 1) doomed es u.0,
    Unique-keep_from (i + 1) doomed es u.1,
  )
]

pub remove_expired-IsIndexed :
    (now : Instant) (b : Bucket) → IsIndexed b → IsIndexed (remove_expired now b)
unfolding remove_expired
remove_expired-IsIndexed now b v =
    let kept : List Entry = filter (λ e. not (is_expired e.cookie now)) b.entries in
    elim (Bool-cases (nat_beq (length kept) (length b.entries))) [
      | inl h ↦ rw h v
      | inr h ↦ rw h (reindex-IsIndexed kept (Unique-filter _ b.entries (IsIndexed-Unique b v)))
    ]

pub remove_all-IsIndexed :
    (doomed : List ℕ) (b : Bucket) → IsIndexed b → IsIndexed (remove_all doomed b)
unfolding remove_all
remove_all-IsIndexed [] b v = v
remove_all-IsIndexed (p ∷ ps) b v =
    reindex-IsIndexed _ (Unique-keep_from 0 (p ∷ ps) b.entries (IsIndexed-Unique b v))

pub trim_to-IsIndexed : (keep : ℕ) (b : Bucket) → IsIndexed b → IsIndexed (trim_to keep b)
unfolding trim_to
trim_to-IsIndexed keep b v = elim (Bool-cases (leb (length b.entries) keep)) [
  | inl h ↦ rw h v
  | inr h ↦ rw h (remove_all-IsIndexed _ b v)
]
