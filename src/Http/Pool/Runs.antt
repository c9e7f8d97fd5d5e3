-- ===== src/Http/Pool/Runs.antt =====
-- Sequences of calls on one pool of pool.rs.
use chromulate.Prelude.{ℕ, ◌≤◌, ◌≡◌, refl, Bool, Option, none, some, List, [], ◌∷◌, Comparable}
use chromulate.Prelude.Time.{Instant}
use chromulate.Http.Pool.{Connection, PoolConfig, PoolState, new, checkout, release, clear}
use chromulate.Http.Pool.Validity.{IsValid, new-IsValid, clear-IsValid, checkout-IsValid}
use chromulate.Http.Pool.Release.{release-IsValid}

-- A call, with what the clock and the senders answer while it runs.
pub data Call (K : Type 0) : Type 0 where
  checks_out : (closed : ℕ → Bool) → (now : Instant) → K → Call K
  releases : (closed : ℕ → Bool) → (swept expired pushed : Instant) → K → Connection → Call K
  clears : Call K

module _ {K : Type 0} ⦃eq : Comparable K⦄ where
  unfoldable pub step : PoolConfig → Call K → PoolState K → Option (PoolState K)
  step config (checks_out closed now key) st = some (checkout closed now config key st).0
  step config (releases closed swept expired pushed key c) st =
      release closed swept expired pushed config key c st
  step config clears st = some (clear st)

  -- `none` once a call has panicked.
  unfoldable pub run : PoolConfig → List (Call K) → PoolState K → Option (PoolState K)
  run config [] st = some st
  run config (call ∷ calls) st = elim (step config call st) [
    | none ↦ none
    | some st' ↦ run config calls st'
  ]

  step-IsValid :
      (config : PoolConfig) (call : Call K) (st : PoolState K)
      → 1 ≤ config.max_per_host
      → IsValid config st
      → (st' : PoolState K) × (step config call st ≡ some st') × IsValid config st'
  unfolding step
  step-IsValid config (checks_out closed now key) st p v =
      (_, refl, checkout-IsValid closed now config key st v)
  step-IsValid config (releases closed swept expired pushed key c) st p v =
      release-IsValid closed swept expired pushed config key c st p v
  step-IsValid config clears st p v = (_, refl, clear-IsValid config st)

  run-IsValid :
      (config : PoolConfig) (calls : List (Call K)) (st : PoolState K)
      → 1 ≤ config.max_per_host
      → IsValid config st
      → (st' : PoolState K) × (run config calls st ≡ some st') × IsValid config st'
  unfolding run
  run-IsValid config [] st p v = (st, refl, v)
  run-IsValid config (call ∷ calls) st p v =
      let (mid, e, w) = step-IsValid config call st p v in
      let (end, f, x) = run-IsValid config calls mid p w in (end, rw (e, run) f, x)

  -- With room for one connection per host, no sequence of checkouts, releases and clears on a new
  -- pool panics, whatever the clock and the connections do. After it, `idle_held` is the number of
  -- idle connections, no host has more than `max_per_host` of them, and the pool holds at most
  -- `max_total` idle ones (one, if that is 0) and at most `max_total` shared ones.
  pub run-new-IsValid :
      (config : PoolConfig) (calls : List (Call K)) (start : Instant)
      → 1 ≤ config.max_per_host
      → (st : PoolState K) × (run config calls (new start) ≡ some st) × IsValid config st
  run-new-IsValid config calls start p =
      run-IsValid config calls (new start) p (new-IsValid config start)
