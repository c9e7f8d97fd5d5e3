-- ===== src/Http/Pool/Sums.antt =====
-- The counts behind `idle_held`: what each list operation of pool.rs does to lengths.
use chromulate.Prelude.{
  ℕ, suc, zero, ◌+◌, ◌-◌, ◌≤◌, ◌<◌, ◌≡◌, refl, Bool, none, some, List, [], ◌∷◌, not, arith,
  Comparable, ◌==◌, length, filter, sum_by, Option-cases, Bool-cases, inl, inr,
}
use chromulate.Prelude.Time.{Duration, Instant}
use chromulate.Prelude.Assoc.{lookup, Distinct}
use chromulate.Http.Pool.{
  Idle, is_empty, pop_live, remove_front, remove_at, oldest_index, oldest_key,
}

abbrev pub total : {K : Type 0} → List (K × List Idle) → ℕ
total {K = K} = sum_by (λ (x : K × List Idle). length x.1)

pub pop_live_counts :
    (closed : ℕ → Bool) (now : Instant) (timeout : Duration) (es : List Idle) (held : ℕ)
    → length es ≤ held
    → let r = pop_live closed now timeout es held in
      (r.1 + length es ≡ held + length r.0) × (length r.0 ≤ length es) × (r.2 ≡ none → r.0 ≡ [])
unfolding pop_live
pop_live_counts closed now timeout [] held h = (refl, omega arith, λ e. refl)
pop_live_counts closed now timeout (e ∷ es) held h =
    ground (arith, pop_live_counts closed now timeout es (held - 1))

pub length-remove_front : (es : List Idle) → length (remove_front es) ≡ length es - 1
unfolding remove_front
length-remove_front [] = refl
length-remove_front (x ∷ []) = refl
length-remove_front (x ∷ y ∷ ys) = omega (arith, length-remove_front (y ∷ ys))

pub length-remove_at :
    (i : ℕ) (es : List Idle) → i < length es → length (remove_at i es) + 1 ≡ length es
unfolding remove_at
length-remove_at i [] h = elim h [ ]
length-remove_at zero (x ∷ xs) h = omega arith
length-remove_at (suc i) (x ∷ xs) h = omega (arith, length-remove_at i xs (omega arith))

pub oldest_index-lt :
    (es : List Idle) {i : ℕ} {t : Instant} → oldest_index es ≡ some (i, t) → i < length es
unfolding oldest_index
oldest_index-lt [] h = cc
oldest_index-lt (e ∷ es) {i} {t} h = elim (Option-cases (oldest_index es)) [
  | inl n ↦ ground arith
  | inr ((j, u), s) ↦ ground (arith, oldest_index-lt es {i = j} {t = u} s)
]

oldest_index-none : (es : List Idle) → oldest_index es ≡ none → es ≡ []
unfolding oldest_index
oldest_index-none [] h = refl
oldest_index-none (e ∷ es) h = absurd (ground arith)

pub oldest_key-none : {K : Type 0} (m : List (K × List Idle)) → oldest_key m ≡ none → total m ≡ 0
unfolding oldest_key
oldest_key-none [] h = refl
oldest_key-none ((k, es) ∷ m) h = ground (arith, oldest_index-none es, oldest_key-none m)

module _ {K : Type 0} ⦃eq : Comparable K⦄ where
  pub oldest_key-lookup :
      (m : List (K × List Idle)) (k : K) (i : ℕ) (t : Instant)
      → Distinct m
      → oldest_key m ≡ some (k, i, t)
      → (es : List Idle) × (lookup k m ≡ some es) × (oldest_index es ≡ some (i, t))
  unfolding oldest_key lookup
  oldest_key-lookup [] k i t d h = absurd (cc)
  oldest_key-lookup ((j, es) ∷ m) k i t d h = elim (Bool-cases (j == k)) [
    | inl same ↦ (es, rw same, ground (arith, eq.same_iff j k, oldest_key-lookup m k i t d.1))
    | inr other ↦
        let (es', found, oldest) =
          oldest_key-lookup m k i t d.1 (ground (arith, eq.same_iff j k)) in
        (es', rw other found, oldest)
  ]

pub total-filter :
    {K : Type 0} (m : List (K × List Idle))
    → total (filter (λ (x : K × List Idle). not (is_empty x.1)) m) ≡ total m
unfolding is_empty
total-filter [] = refl
total-filter ((k, []) ∷ m) = omega (arith, total-filter m)
total-filter ((k, e ∷ es) ∷ m) = omega (arith, total-filter m)
