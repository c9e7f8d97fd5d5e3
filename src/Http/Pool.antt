-- ===== src/Http/Pool.antt =====
-- crates/chromulate-http/src/pool.rs: connections kept for reuse, each under its key.
-- The lock makes every operation a function on `PoolState`. `Instant::now` is an argument for each
-- call of it, and `closed` tells of a sender of `hyper` whether it is closed during the operation.
-- A `Vec` is a list whose head is its back.
pub mod Key
pub mod Sums
pub mod Validity
pub mod Release
pub mod Runs
pub mod Reuse
mod Tests
use chromulate.Prelude.{
  ℕ, suc, zero, ◌+◌, ◌-◌, ◌/◌, Bool, true, false, Option, none, some, List, [], ◌∷◌, not, ◌&&◌, ltb,
  leb, if◌then◌else◌, Comparable, ◌==◌, length, filter, map, unwrap_or, sum_by,
}
use chromulate.Prelude.Time.{Duration, Instant}
use chromulate.Prelude.Assoc.{lookup, insert, remove}

-- A sender by its name.
pub data Connection : Type 0 where
  http1 : ℕ → Connection
  http2 : ℕ → Connection

unfoldable pub is_usable : (ℕ → Bool) → Connection → Bool
is_usable closed (http1 s) = not (closed s)
is_usable closed (http2 s) = not (closed s)

pub record PoolConfig : Type 0 where
  pub idle_timeout : Duration
  pub max_per_host : ℕ
  pub max_total : ℕ

pub record Idle : Type 0 where
  pub connection : Connection
  pub since : Instant

pub record PoolState (K : Type 0) : Type 0 where
  pub idle : List (K × List Idle)
  pub multiplexed : List (K × Connection)
  pub idle_held : ℕ
  pub last_sweep : Instant

unfoldable pub new : {K : Type 0} → Instant → PoolState K
new now = record { idle = []; multiplexed = []; idle_held = 0; last_sweep = now }

unfoldable pub is_empty : {A : Type 0} → List A → Bool
is_empty [] = true
is_empty (x ∷ xs) = false

-- `Vec::remove(0)` of a vector that is not empty.
unfoldable pub remove_front : List Idle → List Idle
remove_front [] = []
remove_front (x ∷ []) = []
remove_front (x ∷ y ∷ ys) = x ∷ remove_front (y ∷ ys)

unfoldable pub remove_at : ℕ → List Idle → List Idle
remove_at i [] = []
remove_at zero (x ∷ xs) = xs
remove_at (suc i) (x ∷ xs) = x ∷ remove_at i xs

-- The test that `checkout` and `evict_expired` make of an idle connection.
unfoldable pub is_live : (ℕ → Bool) → Instant → Duration → Idle → Bool
is_live closed now idle_timeout e =
    ltb (now - e.since) idle_timeout && is_usable closed e.connection

-- The `while let Some(entry) = entries.pop()` of `checkout`: what is left, the count, the find.
unfoldable pub pop_live :
    (ℕ → Bool) → Instant → Duration → List Idle → ℕ → List Idle × ℕ × Option Connection
pop_live closed now idle_timeout [] held = ([], held, none)
pop_live closed now idle_timeout (e ∷ es) held =
    if is_live closed now idle_timeout e
    then (es, held - 1, some e.connection)
    else pop_live closed now idle_timeout es (held - 1)

-- `min_by_key(|entry| entry.since)`: of two equal ones the one nearer the front.
unfoldable pub oldest_index : List Idle → Option (ℕ × Instant)
oldest_index [] = none
oldest_index (e ∷ es) = elim (oldest_index es) [
  | none ↦ some (0, e.since)
  | some (i, t) ↦ if ltb e.since t then some (0, e.since) else some (suc i, t)
]

-- The same over all keys, the first in iteration order among equals.
unfoldable pub oldest_key : {K : Type 0} → List (K × List Idle) → Option (K × ℕ × Instant)
oldest_key [] = none
oldest_key ((k, es) ∷ m) = elim (oldest_index es) [
  | none ↦ oldest_key m
  | some (i, t) ↦ elim (oldest_key m) [
    | none ↦ some (k, i, t)
    | some (k', i', t') ↦ if ltb t' t then some (k', i', t') else some (k, i, t)
  ]
]

module _ {K : Type 0} ⦃eq : Comparable K⦄ where
  unfoldable pub held : PoolState K → ℕ
  held st = st.idle_held + length st.multiplexed

  -- The part of `checkout` behind the multiplexed connections.
  unfoldable pub checkout_idle :
      (ℕ → Bool) → Instant → PoolConfig → K → PoolState K → PoolState K × Option Connection
  checkout_idle closed now config key st = elim (lookup key st.idle) [
    | none ↦ (st, none)
    | some entries ↦
        let (rest, count, found) = pop_live closed now config.idle_timeout entries st.idle_held in
        elim found [
          | some c ↦ (record st { idle = insert key rest st.idle; idle_held = count }, some c)
          | none ↦ (record st { idle = remove key st.idle; idle_held = count }, none)
        ]
  ]

  -- A usable connection in the multiplexed map is shared if it speaks HTTP/2.
  unfoldable pub checkout_shared :
      (ℕ → Bool)
      → Instant
      → PoolConfig
      → K
      → PoolState K
      → Connection
      → PoolState K × Option Connection
  checkout_shared closed now config key st (http2 sender) = (st, some (http2 sender))
  checkout_shared closed now config key st (http1 sender) = checkout_idle closed now config key st

  unfoldable pub checkout :
      (ℕ → Bool) → Instant → PoolConfig → K → PoolState K → PoolState K × Option Connection
  checkout closed now config key st = elim (lookup key st.multiplexed) [
    | none ↦ checkout_idle closed now config key st
    | some shared ↦
        if is_usable closed shared
        then checkout_shared closed now config key st shared
        else checkout_idle closed now config key
            (record st { multiplexed = remove key st.multiplexed })
  ]

  unfoldable pub evict_expired : (ℕ → Bool) → Instant → Duration → PoolState K → PoolState K
  evict_expired closed now idle_timeout st =
      let kept : List (K × List Idle) =
        map (λ (x : K × List Idle). (x.0, filter (is_live closed now idle_timeout) x.1)) st.idle in
      record st {
        idle = filter (λ (x : K × List Idle). not (is_empty x.1)) kept;
        multiplexed = filter (λ (x : K × Connection). is_usable closed x.1) st.multiplexed;
        idle_held = sum_by (λ (x : K × List Idle). length x.1) kept;
      }

  unfoldable pub sweep_if_due :
      (ℕ → Bool) → Instant → Instant → PoolConfig → PoolState K → PoolState K
  sweep_if_due closed now later config st =
      if ltb (now - st.last_sweep) (config.idle_timeout / 4)
      then st
      else evict_expired closed later config.idle_timeout (record st { last_sweep = now })

  -- The entry of the oldest connection's key, without that connection.
  unfoldable pub drop_oldest : K → ℕ → List Idle → PoolState K → PoolState K
  drop_oldest key i entries st =
      let rest : List Idle = remove_at i entries in
      record st {
        idle = if is_empty rest then remove key st.idle else insert key rest st.idle;
        idle_held = st.idle_held - 1;
      }

  unfoldable pub evict_oldest : PoolState K → PoolState K
  evict_oldest st = elim (oldest_key st.idle) [
    | none ↦ st
    | some (key, i, _) ↦ elim (lookup key st.idle) [
      | none ↦ st
      | some entries ↦ drop_oldest key i entries st
    ]
  ]

  unfoldable pub release_multiplexed :
      (ℕ → Bool) → PoolConfig → K → Connection → PoolState K → PoolState K
  release_multiplexed closed config key connection st = elim (lookup key st.multiplexed) [
    | some existing ↦
        if is_usable closed existing
        then st
        else record st { multiplexed = insert key connection st.multiplexed }
    | none ↦
        if leb config.max_total (length st.multiplexed)
        then st
        else record st { multiplexed = insert key connection st.multiplexed }
  ]

  -- The part of `release` that keeps an HTTP/1.1 connection; `none` is the panic of
  -- `entries.remove(0)` on an empty vector.
  unfoldable pub push_idle :
      Instant → PoolConfig → K → Connection → PoolState K → Option (PoolState K)
  push_idle now config key connection st =
      let entries : List Idle = unwrap_or (lookup key st.idle) [] in
      let fresh : Idle = record { connection = connection; since = now } in
      if leb config.max_per_host (length entries)
      then (if is_empty entries
          then none
          else some (record st {
            idle = insert key (fresh ∷ remove_front entries) st.idle;
            idle_held = st.idle_held - 1 + 1;
          }))
      else some
          (record st { idle = insert key (fresh ∷ entries) st.idle; idle_held = st.idle_held + 1 })

  -- `swept`, `expired` and `pushed` are the three readings of the clock.
  unfoldable pub release :
      (ℕ → Bool)
      → (swept expired pushed : Instant) → PoolConfig
      → K
      → Connection
      → PoolState K
      → Option (PoolState K)
  release closed swept expired pushed config key connection st =
      if not (is_usable closed connection)
      then some st
      else let st' : PoolState K = sweep_if_due closed swept expired config st in
        elim connection [
          | http2 sender ↦ some (release_multiplexed closed config key (http2 sender) st')
          | http1 sender ↦
              push_idle pushed config key (http1 sender)
                (if leb config.max_total st'.idle_held then evict_oldest st' else st')
        ]

  unfoldable pub clear : PoolState K → PoolState K
  clear st = record st { idle = []; multiplexed = []; idle_held = 0 }
