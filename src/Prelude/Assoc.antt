-- ===== src/Prelude/Assoc.antt =====
-- A `HashMap` as an association list: its order stands for an arbitrary iteration order.
use Prim.Native.Nat.{ℕ, suc, ◌+◌}
use mathlib.Core.Path.{◌≡◌, refl}
use mathlib.Core.Bool.{Bool}
use mathlib.Core.List.{List, [], ◌∷◌}
use mathlib.Core.Option.{Option, none, some}
use native.Mathlib.Omega.{arith}
use chromulate.Prelude.Tests.{Comparable, ◌==◌, if◌then◌else◌}
use chromulate.Prelude.Lists.{length, sum_by, All, filter}

module _ {ℓ κ} {K : Type ℓ} {V : Type κ} ⦃e : Comparable K⦄ where
  unfoldable pub lookup : K → List (K × V) → Option V
  lookup key [] = none
  lookup key ((first, value) ∷ rest) = if first == key then some value else lookup key rest

  -- `insert`: the value of a key that is there is overwritten in its place.
  unfoldable pub insert : K → V → List (K × V) → List (K × V)
  insert key new [] = (key, new) ∷ []
  insert key new ((first, value) ∷ rest) =
      if first == key then (key, new) ∷ rest else (first, value) ∷ insert key new rest

  unfoldable pub remove : K → List (K × V) → List (K × V)
  remove key [] = []
  remove key ((first, value) ∷ rest) =
      if first == key then rest else (first, value) ∷ remove key rest

  -- What any key reads after an `insert`.
  pub lookup-insert :
      (key other : K) (new : V) (entries : List (K × V))
      → lookup other (insert key new entries)
        ≡ (if key == other then some new else lookup other entries)
  unfolding lookup insert
  lookup-insert key other new [] = refl
  lookup-insert key other new ((first, value) ∷ rest) = ground (
    arith,
    lookup-insert key other new rest,
    e.same_iff key other,
    e.same_iff first key,
    e.same_iff first other,
  )

  -- No key stands twice.
  abbrev pub Distinct : List (K × V) → Type κ
  Distinct [] = Unit
  Distinct ((k, v) ∷ m) = (lookup k m ≡ none) × Distinct m

  pub lookup-remove :
      (k j : K) (m : List (K × V))
      → Distinct m
      → lookup j (remove k m) ≡ (if k == j then none else lookup j m)
  unfolding lookup remove
  lookup-remove k j [] d = ground arith
  lookup-remove k j ((i, w) ∷ m) d =
      ground (arith, e.same_iff k j, e.same_iff i k, e.same_iff i j, lookup-remove k j m d.1)

  pub insert-Distinct : (k : K) (v : V) (m : List (K × V)) → Distinct m → Distinct (insert k v m)
  unfolding insert lookup
  insert-Distinct k v [] d = (refl, tt)
  insert-Distinct k v ((i, w) ∷ m) d =
      ground
        (arith, e.same_iff i k, e.same_iff k i, lookup-insert k i v m, insert-Distinct k v m d.1)

  pub remove-Distinct : (k : K) (m : List (K × V)) → Distinct m → Distinct (remove k m)
  unfolding remove lookup
  remove-Distinct k [] d = tt
  remove-Distinct k ((i, w) ∷ m) d =
      ground (arith, e.same_iff i k, lookup-remove k i m d.1, remove-Distinct k m d.1)

  pub lookup-filter-none :
      (p : K × V → Bool) (k : K) (m : List (K × V))
      → lookup k m ≡ none
      → lookup k (filter p m) ≡ none
  unfolding lookup
  lookup-filter-none p k [] h = refl
  lookup-filter-none p k ((i, w) ∷ m) h = ground (arith, lookup-filter-none p k m)

  pub filter-Distinct : (p : K × V → Bool) (m : List (K × V)) → Distinct m → Distinct (filter p m)
  filter-Distinct p [] d = tt
  filter-Distinct p ((i, w) ∷ m) d =
      ground (arith, lookup-filter-none p i m d.0, filter-Distinct p m d.1)

  -- A total over the entries, when one of them is replaced, added or removed.
  pub sum_by-insert :
      (f : V → ℕ) (k : K) (v : V) (m : List (K × V))
      → sum_by (λ (x : K × V). f x.1) (insert k v m)
          + (elim (lookup k m) [ none ↦ 0 | some w ↦ f w ])
        ≡ sum_by (λ (x : K × V). f x.1) m + f v
  unfolding insert lookup
  sum_by-insert f k v [] = omega arith
  sum_by-insert f k v ((i, w) ∷ m) = ground (arith, sum_by-insert f k v m)

  pub sum_by-remove :
      (f : V → ℕ) (k : K) (m : List (K × V))
      → sum_by (λ (x : K × V). f x.1) (remove k m) + (elim (lookup k m) [ none ↦ 0 | some w ↦ f w ])
        ≡ sum_by (λ (x : K × V). f x.1) m
  unfolding remove lookup
  sum_by-remove f k [] = omega arith
  sum_by-remove f k ((i, w) ∷ m) = ground (arith, sum_by-remove f k m)

  pub length-insert :
      (k : K) (v : V) (m : List (K × V))
      → length (insert k v m) ≡ (elim (lookup k m) [ none ↦ suc (length m) | some _ ↦ length m ])
  unfolding insert lookup
  length-insert k v [] = refl
  length-insert k v ((i, w) ∷ m) = ground (arith, length-insert k v m)

  pub length-remove :
      (k : K) (m : List (K × V))
      → length (remove k m) + (elim (lookup k m) [ none ↦ 0 | some _ ↦ 1 ]) ≡ length m
  unfolding remove lookup
  length-remove k [] = refl
  length-remove k ((i, w) ∷ m) = ground (arith, length-remove k m)

  pub All-insert {μ} :
      (P : V → Type μ) (k : K) (v : V) (m : List (K × V))
      → P v
      → All (λ (x : K × V). P x.1) m
      → All (λ (x : K × V). P x.1) (insert k v m)
  unfolding insert
  All-insert P k v [] h a = (h, tt)
  All-insert P k v ((i, w) ∷ m) h a = ground (arith, All-insert P k v m h a.1)

  pub All-remove {μ} :
      (P : V → Type μ) (k : K) (m : List (K × V))
      → All (λ (x : K × V). P x.1) m
      → All (λ (x : K × V). P x.1) (remove k m)
  unfolding remove
  All-remove P k [] a = tt
  All-remove P k ((i, w) ∷ m) a = ground (arith, All-remove P k m a.1)

  pub All-lookup {μ} :
      (P : V → Type μ) (k : K) (v : V) (m : List (K × V))
      → All (λ (x : K × V). P x.1) m
      → lookup k m ≡ some v
      → P v
  unfolding lookup
  All-lookup P k v [] a h = cc
  All-lookup P k v ((i, w) ∷ m) a h = ground (arith, All-lookup P k v m a.1)
