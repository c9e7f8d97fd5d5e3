-- ===== src/Http/Pool/Release.antt =====
-- `release` of pool.rs keeps the accounting and does not panic, and so does every run of calls.
use chromulate.Prelude.{
  ℕ, ◌+◌, ◌-◌, ◌/◌, ◌≤◌, ◌<◌, ◌≡◌, refl, Bool, true, false, none, some, List, [], ◌∷◌, not, ltb,
  leb, leb→le, arith, Comparable, length, filter, map, max, Option-cases, Bool-cases, inl, inr,
  length-filter, All-filter, sym, unwrap_or, if◌then◌else◌, tests,
}
use chromulate.Prelude.Time.{Instant}
use chromulate.Prelude.Assoc.{
  lookup, insert, Distinct, filter-Distinct, insert-Distinct, length-insert, All-lookup,
}
use chromulate.Http.Pool.{
  Idle, Connection, http1, http2, PoolConfig, PoolState, is_empty, is_usable, is_live, remove_front,
  remove_at, oldest_key, evict_expired, sweep_if_due, drop_oldest, evict_oldest,
  release_multiplexed, push_idle, release,
}
use chromulate.Http.Pool.Sums.{
  total, length-remove_front, length-remove_at, oldest_index-lt, oldest_key-none, oldest_key-lookup,
  total-filter,
}
use chromulate.Http.Pool.Validity.{
  AtMost, IsValid, total-lookup, put-IsValid, drop-IsValid, shared-IsValid,
}

is_empty-length : {A : Type 0} (xs : List A) → is_empty xs ≡ true → length xs ≡ 0
unfolding is_empty
is_empty-length [] h = refl
is_empty-length (x ∷ xs) h = absurd (ground arith)

is_empty-false-length : {A : Type 0} (xs : List A) → is_empty xs ≡ false → 1 ≤ length xs
unfolding is_empty
is_empty-false-length [] h = absurd (ground arith)
is_empty-false-length (x ∷ xs) h = omega arith

module _ {K : Type 0} ⦃eq : Comparable K⦄ where
  -- Each key's list cut down to what passes the test.
  abbrev pruned : (Idle → Bool) → List (K × List Idle) → List (K × List Idle)
  pruned p = map (λ (x : K × List Idle). (x.0, filter p x.1))

  lookup-pruned-none :
      (p : Idle → Bool) (k : K) (m : List (K × List Idle))
      → lookup k m ≡ none
      → lookup k (pruned p m) ≡ none
  unfolding lookup
  lookup-pruned-none p k [] h = refl
  lookup-pruned-none p k ((j, es) ∷ m) h = ground (arith, lookup-pruned-none p k m)

  pruned-Distinct :
      (p : Idle → Bool) (m : List (K × List Idle)) → Distinct m → Distinct (pruned p m)
  pruned-Distinct p [] d = tt
  pruned-Distinct p ((j, es) ∷ m) d = (lookup-pruned-none p j m d.0, pruned-Distinct p m d.1)

  pruned-AtMost :
      (n : ℕ) (p : Idle → Bool) (m : List (K × List Idle)) → AtMost n m → AtMost n (pruned p m)
  pruned-AtMost n p [] a = tt
  pruned-AtMost n p ((j, es) ∷ m) a =
      (omega (arith, length-filter p es, a.0), pruned-AtMost n p m a.1)

  total-pruned : (p : Idle → Bool) (m : List (K × List Idle)) → total (pruned p m) ≤ total m
  total-pruned p [] = omega arith
  total-pruned p ((j, es) ∷ m) = omega (arith, length-filter p es, total-pruned p m)

  evict_expired-IsValid :
      (closed : ℕ → Bool) (now : Instant) (config : PoolConfig) (st : PoolState K)
      → IsValid config st
      → IsValid config (evict_expired closed now config.idle_timeout st)
  unfolding evict_expired
  evict_expired-IsValid closed now config st v =
      let p = is_live closed now config.idle_timeout in
      record {
        distinct = filter-Distinct _ (pruned p st.idle) (pruned-Distinct p st.idle v.distinct);
        shared_distinct = filter-Distinct _ st.multiplexed v.shared_distinct;
        counted = sym (total-filter (pruned p st.idle));
        per_host =
            All-filter _ _ (pruned p st.idle)
              (pruned-AtMost config.max_per_host p st.idle v.per_host);
        idle_le_total = omega (arith, total-pruned p st.idle, v.counted, v.idle_le_total);
        shared_le_total = omega (
          arith,
          length-filter (λ (x : K × Connection). is_usable closed x.1) st.multiplexed,
          v.shared_le_total,
        );
      }

  swept_at :
      {config : PoolConfig} (now : Instant) (st : PoolState K)
      → IsValid config st
      → IsValid config (record st { last_sweep = now })
  swept_at now st v = record {
    distinct = v.distinct;
    shared_distinct = v.shared_distinct;
    counted = v.counted;
    per_host = v.per_host;
    idle_le_total = v.idle_le_total;
    shared_le_total = v.shared_le_total;
  }

  sweep_if_due-IsValid :
      (closed : ℕ → Bool) (now later : Instant) (config : PoolConfig) (st : PoolState K)
      → IsValid config st
      → IsValid config (sweep_if_due closed now later config st)
  unfolding sweep_if_due
  sweep_if_due-IsValid closed now later config st v =
      elim (Bool-cases (ltb (now - st.last_sweep) (config.idle_timeout / 4))) [
        | inl e ↦ rw e v
        | inr e ↦ rw e (evict_expired-IsValid closed later config _ (swept_at now st v))
      ]

  drop_oldest-IsValid :
      (config : PoolConfig) (k : K) (i : ℕ) (es : List Idle) (st : PoolState K)
      → IsValid config st
      → lookup k st.idle ≡ some es
      → i < length es
      → IsValid config (drop_oldest k i es st)
  unfolding drop_oldest
  drop_oldest-IsValid config k i es st v e h =
      let room : length es ≤ st.idle_held = omega (arith, total-lookup k es st.idle e, v.counted) in
      let fits = All-lookup (λ fs. length fs ≤ config.max_per_host) k es st.idle v.per_host e in
      let shorter = length-remove_at i es h in
      elim (Bool-cases (is_empty (remove_at i es))) [
        | inl f ↦ rw f (
            drop-IsValid config k (st.idle_held - 1) st v
              (rw e (omega (arith, is_empty-length (remove_at i es) f))))
        | inr f ↦ rw f (
            put-IsValid config k (remove_at i es) (st.idle_held - 1) st v (omega arith)
              (rw e (omega arith)) (omega (arith, v.idle_le_total)))
      ]

  -- At the limit a connection is dropped, if there is one.
  evict_oldest-IsValid :
      (config : PoolConfig) (st : PoolState K)
      → IsValid config st
      → IsValid config (evict_oldest st) × ((evict_oldest st).idle_held ≡ st.idle_held - 1)
  unfolding evict_oldest
  evict_oldest-IsValid config st v = elim (Option-cases (oldest_key st.idle)) [
    | inl e ↦ rw (e, evict_oldest) (v, ground (arith, oldest_key-none st.idle e, v.counted))
    | inr ((k, i, t), e) ↦
        let (es, found, oldest) = oldest_key-lookup st.idle k i t v.distinct e in
        rw (e, evict_oldest, found)
          (
            drop_oldest-IsValid config k i es st v found (oldest_index-lt es oldest),
            unfold drop_oldest in refl,
          )
  ]

  entries-AtMost :
      (config : PoolConfig) (key : K) (st : PoolState K)
      → IsValid config st
      → length (unwrap_or (lookup key st.idle) []) ≤ config.max_per_host
        × (length (unwrap_or (lookup key st.idle) []) ≤ st.idle_held)
  entries-AtMost config key st v = ground (
    arith,
    All-lookup (λ fs. length fs ≤ config.max_per_host) key (unwrap_or (lookup key st.idle) [])
        st.idle v.per_host,
    total-lookup key (unwrap_or (lookup key st.idle) []) st.idle,
    v.counted,
  )

  push_idle-IsValid :
      (now : Instant) (config : PoolConfig) (key : K) (c : Connection) (st : PoolState K)
      → 1 ≤ config.max_per_host
      → IsValid config st
      → st.idle_held < max config.max_total 1
      → (st' : PoolState K) × (push_idle now config key c st ≡ some st') × IsValid config st'
  unfolding push_idle
  push_idle-IsValid now config key c st p v h =
      let entries : List Idle = unwrap_or (lookup key st.idle) [] in
      let fresh : Idle = record { connection = c; since = now } in
      let (fits, room) = entries-AtMost config key st v in
      elim (Bool-cases (leb config.max_per_host (length entries))) [
        | inr e ↦ (
          _,
          rw e,
          put-IsValid config key (fresh ∷ entries) (st.idle_held + 1) st v (ground arith)
              (omega arith) (omega arith),
        )
        | inl e ↦ elim (Bool-cases (is_empty entries)) [
          | inl f ↦ absurd (omega (tests, leb→le _ _ e, is_empty-length entries f))
          | inr f ↦ (
            _,
            rw (e, f),
            put-IsValid config key (fresh ∷ remove_front entries) (st.idle_held - 1 + 1) st v
                (omega (arith, length-remove_front entries, is_empty-false-length entries f))
                (omega (arith, length-remove_front entries, is_empty-false-length entries f))
                (omega (arith, v.idle_le_total)),
          )
        ]
      ]

  release_multiplexed-IsValid :
      (closed : ℕ → Bool) (config : PoolConfig) (key : K) (c : Connection) (st : PoolState K)
      → IsValid config st
      → IsValid config (release_multiplexed closed config key c st)
  unfolding release_multiplexed
  release_multiplexed-IsValid closed config key c st v = ground (
    arith,
    length-insert key c st.multiplexed,
    shared-IsValid config (insert key c st.multiplexed) st v
        (insert-Distinct key c st.multiplexed v.shared_distinct),
  )

  -- What `push_idle` is given: one slot below the limit.
  make_room-IsValid :
      (config : PoolConfig) (st : PoolState K)
      → IsValid config st
      → let u = (if leb config.max_total st.idle_held then evict_oldest st else st) in
        IsValid config u × (u.idle_held < max config.max_total 1)
  make_room-IsValid config st v = let (w, fewer) = evict_oldest-IsValid config st v in ground arith

  -- With room for one connection per host, `release` returns, and keeps the accounting.
  pub release-IsValid :
      (closed : ℕ → Bool) (swept expired pushed : Instant) (config : PoolConfig) (key : K)
      (c : Connection) (st : PoolState K)
      → 1 ≤ config.max_per_host
      → IsValid config st
      → (st' : PoolState K) × (release closed swept expired pushed config key c st ≡ some st')
        × IsValid config st'
  unfolding release
  release-IsValid closed swept expired pushed config key c st p v =
      elim (Bool-cases (not (is_usable closed c))) [
        | inl e ↦ (st, rw e, v)
        | inr e ↦ let w = sweep_if_due-IsValid closed swept expired config st v in rw e (kept c w)
      ]
    where
      st' : PoolState K
      st' = sweep_if_due closed swept expired config st

      kept :
          (c : Connection)
          → IsValid config st'
          → (u : PoolState K) × ((elim c [
            | http2 sender ↦ some (release_multiplexed closed config key (http2 sender) st')
            | http1 sender ↦
                push_idle pushed config key
                  (http1 sender)
                  (if leb config.max_total st'.idle_held then evict_oldest st' else st')
          ])
              ≡ some u)
            × IsValid config u
      kept (http1 sender) w =
          let (x, room) = make_room-IsValid config st' w in
          push_idle-IsValid pushed config key (http1 sender) _ p x room
      kept (http2 sender) w =
          (_, refl, release_multiplexed-IsValid closed config key (http2 sender) st' w)

  push_idle_panics :
      (now : Instant) (config : PoolConfig) (key : K) (c : Connection) (st : PoolState K)
      → config.max_per_host ≡ 0
      → IsValid config st
      → push_idle now config key c st ≡ none
  unfolding push_idle
  push_idle_panics now config key c st z v =
      let entries : List Idle = unwrap_or (lookup key st.idle) [] in
      let (fits, room) = entries-AtMost config key st v in
      elim (Bool-cases (is_empty entries)) [
        | inl f ↦ ground (arith, f, fits)
        | inr f ↦ absurd (omega (arith, is_empty-false-length entries f))
      ]

  -- Where the configuration allows no connection per host, every release of an open HTTP/1.1
  -- connection to a pool whose accounting holds panics: it removes the front of an empty vector.
  pub release_panics :
      (closed : ℕ → Bool) (swept expired pushed : Instant) (config : PoolConfig) (key : K)
      (sender : ℕ) (st : PoolState K)
      → config.max_per_host ≡ 0
      → closed sender ≡ false
      → IsValid config st
      → release closed swept expired pushed config key (http1 sender) st ≡ none
  unfolding release is_usable
  release_panics closed swept expired pushed config key sender st z o v =
      let st' : PoolState K = sweep_if_due closed swept expired config st in
      let w = sweep_if_due-IsValid closed swept expired config st v in
      let x = (make_room-IsValid config st' w).0 in
      rw o (push_idle_panics pushed config key (http1 sender) _ z x)
