-- ===== src/Http/Pool/Reuse.antt =====
-- What `checkout` of pool.rs hands out, and that a released connection comes back.
use chromulate.Prelude.{
  ℕ, ◌-◌, ◌<◌, ◌≡◌, refl, Bool, true, false, none, some, List, [], ◌∷◌, leb, arith, Comparable,
  length, ◌⊎◌, inl, inr, Bool-cases, Option-cases, unwrap_or, if◌then◌else◌, sym, ◌∙◌, subst,
}
use chromulate.Prelude.Time.{Duration, Instant}
use chromulate.Prelude.Assoc.{lookup, remove, lookup-insert, lookup-filter-none}
use chromulate.Http.Pool.{
  Idle, Connection, http1, http2, PoolConfig, PoolState, is_usable, is_live, pop_live, remove_front,
  checkout, checkout_shared, checkout_idle, evict_expired, sweep_if_due, drop_oldest, evict_oldest,
  push_idle, release,
}

-- The list holds `c`, idle for less than the timeout.
abbrev pub HoldsLive : Instant → Duration → Connection → List Idle → Type 0
HoldsLive now timeout c [] = ⊥
HoldsLive now timeout c (e ∷ es) =
    ((e.connection ≡ c) × (now - e.since < timeout)) ⊎ HoldsLive now timeout c es

pop_live_sound :
    (closed : ℕ → Bool) (now : Instant) (timeout : Duration) (es : List Idle) (held : ℕ)
    (c : Connection)
    → (pop_live closed now timeout es held).2 ≡ some c
    → (is_usable closed c ≡ true) × HoldsLive now timeout c es
unfolding pop_live is_live
pop_live_sound closed now timeout [] held c h = absurd (cc)
pop_live_sound closed now timeout (e ∷ es) held c h =
    elim (Bool-cases (is_live closed now timeout e)) [
      | inl live ↦ (ground arith, inl (ground arith, ground arith))
      | inr dead ↦
          let (usable, holds) = pop_live_sound closed now timeout es (held - 1) c (ground arith) in
          (usable, inr holds)
    ]

module _ {K : Type 0} ⦃eq : Comparable K⦄ where
  -- Where a connection that is handed out for a key was held: shared under that key, or idle under
  -- it and not stale.
  pub data Held (now : Instant) (timeout : Duration) (key : K) (st : PoolState K) (c : Connection)
      : Type 0 where
    shared : lookup key st.multiplexed ≡ some c → Held now timeout key st c
    idle :
        (es : List Idle)
        → lookup key st.idle ≡ some es
        → HoldsLive now timeout c es
        → Held now timeout key st c

  checkout_idle_found :
      (closed : ℕ → Bool) (now : Instant) (config : PoolConfig) (key : K) (st : PoolState K)
      → (checkout_idle closed now config key st).1 ≡ (elim (lookup key st.idle) [
        | none ↦ none
        | some es ↦ (pop_live closed now config.idle_timeout es st.idle_held).2
      ])
  unfolding checkout_idle
  checkout_idle_found closed now config key st = ground arith

  checkout_idle_sound :
      (closed : ℕ → Bool) (now : Instant) (config : PoolConfig) (key : K) (st : PoolState K)
      (c : Connection)
      → (checkout_idle closed now config key st).1 ≡ some c
      → (is_usable closed c ≡ true)
        × (es : List Idle) × (lookup key st.idle ≡ some es)
        × HoldsLive now config.idle_timeout c es
  checkout_idle_sound closed now config key st c h =
      let g = sym (checkout_idle_found closed now config key st) ∙ h in
      elim (Option-cases (lookup key st.idle)) [
        | inl e ↦ absurd (ground arith)
        | inr (es, e) ↦
            let (usable, holds) =
              pop_live_sound closed now config.idle_timeout es st.idle_held c (ground arith) in
            (usable, es, e, holds)
      ]

  from_idle :
      (closed : ℕ → Bool) (now : Instant) (config : PoolConfig) (key : K) (st u : PoolState K)
      (c : Connection)
      → u.idle ≡ st.idle
      → (checkout_idle closed now config key u).1 ≡ some c
      → (is_usable closed c ≡ true) × Held now config.idle_timeout key st c
  from_idle closed now config key st u c same h =
      let (usable, es, e, holds) = checkout_idle_sound closed now config key u c h in
      (usable, idle es (subst (λ m. lookup key m ≡ some es) same e) holds)

  -- A connection that `checkout` hands out is not closed, and was held under the very key asked
  -- for: shared between its requests, or idle for less than the timeout.
  pub checkout_sound :
      (closed : ℕ → Bool) (now : Instant) (config : PoolConfig) (key : K) (st : PoolState K)
      (c : Connection)
      → (checkout closed now config key st).1 ≡ some c
      → (is_usable closed c ≡ true) × Held now config.idle_timeout key st c
  unfolding checkout checkout_shared
  checkout_sound closed now config key st c h = elim (Option-cases (lookup key st.multiplexed)) [
    | inl e ↦ from_idle closed now config key st st c refl (rw (e, checkout) at h)
    | inr (held, e) ↦ elim (Bool-cases (is_usable closed held)) [
      | inl live ↦ serve held e live (rw (e, checkout, live) at h)
      | inr dead ↦
          from_idle closed now config key st (record st { multiplexed = remove key st.multiplexed })
            c refl (rw (e, checkout, dead) at h)
    ]
  ]
    where
      serve :
          (held : Connection)
          → lookup key st.multiplexed ≡ some held
          → is_usable closed held ≡ true
          → (checkout_shared closed now config key st held).1 ≡ some c
          → (is_usable closed c ≡ true) × Held now config.idle_timeout key st c
      serve (http1 sender) e live g = from_idle closed now config key st st c refl g
      serve (http2 sender) e live g = (ground arith, shared (ground arith))

  push_idle_front :
      (pushed : Instant) (config : PoolConfig) (key : K) (c : Connection) (st st' : PoolState K)
      → push_idle pushed config key c st ≡ some st'
      → (rest : List Idle) × (lookup key st'.idle
          ≡ some (record { connection = c; since = pushed } ∷ rest))
        × (st'.multiplexed ≡ st.multiplexed)
  unfolding push_idle
  push_idle_front pushed config key c st st' h =
      let entries : List Idle = unwrap_or (lookup key st.idle) [] in
      let fresh : Idle = record { connection = c; since = pushed } in
      elim (Bool-cases (leb config.max_per_host (length entries))) [
        | inr e ↦ (
          entries,
          ground (arith, lookup-insert key key (fresh ∷ entries) st.idle, eq.same_iff key key),
          ground arith,
        )
        | inl e ↦ (
          remove_front entries,
          ground (
            arith,
            lookup-insert key key (fresh ∷ remove_front entries) st.idle,
            eq.same_iff key key,
          ),
          ground arith,
        )
      ]

  evict_oldest-multiplexed : (st : PoolState K) → (evict_oldest st).multiplexed ≡ st.multiplexed
  unfolding evict_oldest drop_oldest
  evict_oldest-multiplexed st = ground arith

  sweep_if_due-multiplexed :
      (closed : ℕ → Bool) (now later : Instant) (config : PoolConfig) (key : K) (st : PoolState K)
      → lookup key st.multiplexed ≡ none
      → lookup key (sweep_if_due closed now later config st).multiplexed ≡ none
  unfolding sweep_if_due evict_expired
  sweep_if_due-multiplexed closed now later config key st h = ground (
    arith,
    lookup-filter-none (λ (x : K × Connection). is_usable closed x.1) key st.multiplexed h,
  )

  -- An HTTP/1.1 connection that was released, is still open and has not been idle for the timeout
  -- is what the next checkout of its key hands out, unless a shared connection serves that key.
  pub checkout-release :
      (closed : ℕ → Bool) (swept expired pushed now : Instant) (config : PoolConfig) (key : K)
      (sender : ℕ) (st st' : PoolState K)
      → closed sender ≡ false
      → lookup key st.multiplexed ≡ none
      → release closed swept expired pushed config key (http1 sender) st ≡ some st'
      → now - pushed < config.idle_timeout
      → (checkout closed now config key st').1 ≡ some (http1 sender)
  unfolding release is_usable checkout pop_live is_live
  checkout-release closed swept expired pushed now config key sender st st' open_ alone h young =
      let u : PoolState K = sweep_if_due closed swept expired config st in
      let v : PoolState K = if leb config.max_total u.idle_held then evict_oldest u else u in
      let (rest, front, same) =
        push_idle_front pushed config key (http1 sender) v st' (ground arith) in
      let free = sweep_if_due-multiplexed closed swept expired config key st alone in
      let quiet : lookup key st'.multiplexed ≡ none =
        ground (arith, same, free, evict_oldest-multiplexed u) in
      rw (quiet, checkout) (checkout_idle_found closed now config key st' ∙ rw front (ground arith))
