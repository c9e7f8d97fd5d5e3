-- ===== src/Http/Pool/Validity.antt =====
-- The accounting of pool.rs: `idle_held` is the number of idle connections, and the limits hold.
use chromulate.Prelude.{
  ℕ, ◌+◌, ◌≤◌, ◌≡◌, refl, Bool, some, List, [], ◌∷◌, arith, Comparable, length, max, All,
  Option-cases, inl, inr, unwrap_or,
}
use chromulate.Prelude.Time.{Instant}
use chromulate.Prelude.Assoc.{
  lookup, insert, remove, Distinct, insert-Distinct, remove-Distinct, sum_by-insert, sum_by-remove,
  length-remove, All-insert, All-remove, All-lookup,
}
use chromulate.Http.Pool.{
  Idle, Connection, PoolConfig, PoolState, new, pop_live, checkout, checkout_shared, checkout_idle,
  clear,
}
use chromulate.Http.Pool.Sums.{total, pop_live_counts}

abbrev pub AtMost : {K : Type 0} → ℕ → List (K × List Idle) → Type 0
AtMost {K = K} n = All (λ (x : K × List Idle). length x.1 ≤ n)

module _ {K : Type 0} ⦃eq : Comparable K⦄ where
  -- A pool whose `max_total` is 0 still keeps one idle connection.
  pub record IsValid (config : PoolConfig) (st : PoolState K) : Type 0 where
    pub distinct : Distinct st.idle
    pub shared_distinct : Distinct st.multiplexed
    pub counted : st.idle_held ≡ total st.idle
    pub per_host : AtMost config.max_per_host st.idle
    pub idle_le_total : st.idle_held ≤ max config.max_total 1
    pub shared_le_total : length st.multiplexed ≤ config.max_total

  pub new-IsValid : (config : PoolConfig) (now : Instant) → IsValid config (new now)
  unfolding new
  new-IsValid config now = record {
    distinct = tt;
    shared_distinct = tt;
    counted = refl;
    per_host = tt;
    idle_le_total = omega arith;
    shared_le_total = omega arith;
  }

  pub clear-IsValid : (config : PoolConfig) (st : PoolState K) → IsValid config (clear st)
  unfolding clear
  clear-IsValid config st = record {
    distinct = tt;
    shared_distinct = tt;
    counted = refl;
    per_host = tt;
    idle_le_total = omega arith;
    shared_le_total = omega arith;
  }

  pub total-lookup :
      (k : K) (es : List Idle) (m : List (K × List Idle))
      → lookup k m ≡ some es
      → length es ≤ total m
  unfolding lookup
  total-lookup k es [] h = absurd (cc)
  total-lookup k es ((j, fs) ∷ m) h = ground (arith, total-lookup k es m)

  -- Replacing the entry of a key by a list no longer than the limit.
  pub put-IsValid :
      (config : PoolConfig) (k : K) (es : List Idle) (n : ℕ) (st : PoolState K)
      → IsValid config st
      → length es ≤ config.max_per_host
      → n + length (unwrap_or (lookup k st.idle) []) ≡ st.idle_held + length es
      → n ≤ max config.max_total 1
      → IsValid config (record st { idle = insert k es st.idle; idle_held = n })
  put-IsValid config k es n st v h c b = record {
    distinct = insert-Distinct k es st.idle v.distinct;
    shared_distinct = v.shared_distinct;
    counted = ground (arith, sum_by-insert length k es st.idle);
    per_host = All-insert (λ fs. length fs ≤ config.max_per_host) k es st.idle h v.per_host;
    idle_le_total = b;
    shared_le_total = v.shared_le_total;
  }

  pub drop-IsValid :
      (config : PoolConfig) (k : K) (n : ℕ) (st : PoolState K)
      → IsValid config st
      → n + length (unwrap_or (lookup k st.idle) []) ≡ st.idle_held
      → IsValid config (record st { idle = remove k st.idle; idle_held = n })
  drop-IsValid config k n st v c = record {
    distinct = remove-Distinct k st.idle v.distinct;
    shared_distinct = v.shared_distinct;
    counted = ground (arith, sum_by-remove length k st.idle);
    per_host = All-remove (λ fs. length fs ≤ config.max_per_host) k st.idle v.per_host;
    idle_le_total = omega (arith, v.idle_le_total);
    shared_le_total = v.shared_le_total;
  }

  checkout_idle-IsValid :
      (closed : ℕ → Bool) (now : Instant) (config : PoolConfig) (key : K) (st : PoolState K)
      → IsValid config st
      → IsValid config (checkout_idle closed now config key st).0
  unfolding checkout_idle
  checkout_idle-IsValid closed now config key st v = elim (Option-cases (lookup key st.idle)) [
    | inl e ↦ rw (e, checkout_idle) v
    | inr (es, e) ↦
        let (rest, count, found) = pop_live closed now config.idle_timeout es st.idle_held in
        let room : length es ≤ st.idle_held = omega (arith, total-lookup key es st.idle e) in
        let counts = pop_live_counts closed now config.idle_timeout es st.idle_held room in
        let fits = All-lookup (λ fs. length fs ≤ config.max_per_host) key es st.idle v.per_host e in
        elim (Option-cases found) [
          | inl f ↦
              rw (e, checkout_idle, f)
                (drop-IsValid config key count st v (ground (arith, counts.0, counts.2 f)))
          | inr (c, f) ↦
              rw (e, checkout_idle, f)
                (put-IsValid config key rest count st v (omega arith) (rw e counts.0)
                  (omega (arith, v.idle_le_total)))
        ]
  ]

  pub shared-IsValid :
      (config : PoolConfig) (m : List (K × Connection)) (st : PoolState K)
      → IsValid config st
      → Distinct m
      → length m ≤ config.max_total
      → IsValid config (record st { multiplexed = m })
  shared-IsValid config m st v d h = record {
    distinct = v.distinct;
    shared_distinct = d;
    counted = v.counted;
    per_host = v.per_host;
    idle_le_total = v.idle_le_total;
    shared_le_total = h;
  }

  pub checkout-IsValid :
      (closed : ℕ → Bool) (now : Instant) (config : PoolConfig) (key : K) (st : PoolState K)
      → IsValid config st
      → IsValid config (checkout closed now config key st).0
  unfolding checkout checkout_shared
  checkout-IsValid closed now config key st v = ground (
    arith,
    checkout_idle-IsValid closed now config key st v,
    checkout_idle-IsValid closed now config key
        (record st { multiplexed = remove key st.multiplexed })
        (shared-IsValid config (remove key st.multiplexed) st v
          (remove-Distinct key st.multiplexed v.shared_distinct)
          (omega (arith, length-remove key st.multiplexed, v.shared_le_total))),
  )
