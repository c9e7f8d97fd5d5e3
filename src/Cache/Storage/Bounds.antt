-- ===== src/Cache/Storage/Bounds.antt =====
-- The budget of storage.rs: a shard's count of bytes is right and within its share, always.
use chromulate.Prelude.{
  ℕ, zero, suc, ◌+◌, ◌*◌, ◌/◌, ◌≤◌, ◌≡◌, refl, List, [], ◌∷◌, ltb, leb, arith, max, length, sum_by,
  All, Bool-cases, Option-cases, inl, inr, ◌∙◌, Comparable, is_some,
}
use native.Mathlib.Decide.{dec_le}
use chromulate.Prelude.Assoc.{
  lookup, insert, remove, Distinct, sum_by-insert, sum_by-remove, insert-Distinct, remove-Distinct,
  filter-Distinct,
}
use chromulate.Cache.Storage.{
  Stored, Record, Shard, MemoryStore, MemoryLimits, per_shard, purge_target, purge, bytes_of,
  merge_variants, variants_at, bytes_at, record_size, shard_get, shard_put, shard_remove, shard_at,
  set_shard, empty_shards, with_limits, get, put, delete, stats, index_of,
}
use chromulate.Cache.Storage.Purge.{purge_over, purge_within}

module _ {K E : Type 0} ⦃c : Comparable K⦄ where
  pub record IsSound (limits : MemoryLimits) (shard : Shard K E) : Type 0 where
    pub distinct : Distinct shard.records
    pub counted : shard.bytes ≡ bytes_of shard.records
    pub within : shard.bytes ≤ per_shard limits

  bytes_of-insert :
      (key : K) (r : Record E) (shard : Shard K E)
      → bytes_of (insert key r shard.records) + bytes_at key shard
        ≡ bytes_of shard.records + r.bytes
  bytes_of-insert key r shard =
      ground (arith, sum_by-insert (λ (x : Record E). x.bytes) key r shard.records)

  bytes_of-remove :
      (key : K) (shard : Shard K E)
      → bytes_of (remove key shard.records) + bytes_at key shard ≡ bytes_of shard.records
  bytes_of-remove key shard =
      ground (arith, sum_by-remove (λ (x : Record E). x.bytes) key shard.records)

  purge-Distinct :
      (limits : MemoryLimits) (shard : Shard K E)
      → Distinct shard.records
      → Distinct (purge limits shard).0.records
  unfolding purge
  purge-Distinct limits shard d = elim (Bool-cases (leb shard.bytes (per_shard limits))) [
    | inl e ↦ rw e d
    | inr e ↦ rw e (filter-Distinct _ shard.records d)
  ]

  purge-IsSound :
      (limits : MemoryLimits) (shard : Shard K E)
      → Distinct shard.records
      → shard.bytes ≡ bytes_of shard.records
      → IsSound limits (purge limits shard).0
  purge-IsSound limits shard d e = elim (dec_le shard.bytes (per_shard limits)) [
    | yes h ↦ rw (purge_within limits shard h) (record { distinct = d; counted = e; within = h })
    | no h ↦
        let (counted, low) = purge_over limits shard e (omega arith) in
        record {
          distinct = purge-Distinct limits shard d;
          counted = counted;
          within = unfold purge_target in omega arith;
        }
  ]

  module _ (s : Stored K E) where
    shard_get-IsSound :
        (limits : MemoryLimits) (tick : ℕ) (key : K) (shard : Shard K E)
        → IsSound limits shard
        → IsSound limits (shard_get tick key shard).0
    unfolding shard_get
    shard_get-IsSound limits tick key shard v = elim (Option-cases (lookup key shard.records)) [
      | inl e ↦ rw (e, shard_get) v
      | inr (r, e) ↦
          rw (e, shard_get)
            (record {
              distinct =
                  insert-Distinct key (record r { last_used = tick }) shard.records v.distinct;
              counted =
                  ground
                    (arith, bytes_of-insert key (record r { last_used = tick }) shard, v.counted);
              within = v.within;
            })
    ]

    shard_remove-IsSound :
        (limits : MemoryLimits) (key : K) (shard : Shard K E)
        → IsSound limits shard
        → IsSound limits (shard_remove key shard)
    unfolding shard_remove
    shard_remove-IsSound limits key shard v = elim (Option-cases (lookup key shard.records)) [
      | inl e ↦ rw (e, shard_remove) v
      | inr (r, e) ↦
          rw (e, shard_remove)
            (record {
              distinct = remove-Distinct key shard.records v.distinct;
              counted = ground (arith, bytes_of-remove key shard, v.counted);
              within = omega (arith, v.within);
            })
    ]

    shard_put-IsSound :
        (limits : MemoryLimits) (tick : ℕ) (key : K) (entry : E) (shard : Shard K E)
        → IsSound limits shard
        → IsSound limits (shard_put s limits tick key entry shard).0
    unfolding shard_put
    shard_put-IsSound limits tick key entry shard v =
        let merged : List E = merge_variants s (variants_at key shard) entry in
        let bytes : ℕ = record_size s key merged in
        let new : Record E = record { variants = merged; bytes = bytes; last_used = tick } in
        elim (Bool-cases (ltb (per_shard limits) bytes)) [
          | inl big ↦ elim (Bool-cases (is_some (lookup key shard.records))) [
            | inl there ↦
                rw (big, there)
                  (record {
                    distinct = remove-Distinct key shard.records v.distinct;
                    counted = omega (arith, bytes_of-remove key shard, v.counted);
                    within = omega (arith, v.within);
                  })
            | inr absent ↦ rw (big, absent) v
          ]
          | inr fits ↦ rw fits (
              purge-IsSound limits _ (insert-Distinct key new shard.records v.distinct) (
                omega (arith, bytes_of-insert key new shard, bytes_of-remove key shard, v.counted)))
        ]

-- A call on the store.
pub data Call (K E : Type 0) : Type 0 where
  gets : K → Call K E
  puts : K → E → Call K E
  removes : K → Call K E

module _ {K E : Type 0} ⦃c : Comparable K⦄ where
  pub record IsWithin (limits : MemoryLimits) (store : MemoryStore K E) : Type 0 where
    pub sound : All (IsSound limits) store.shards
    pub sharded : length store.shards ≡ max limits.shards 1

  pub shard_at-IsSound :
      (limits : MemoryLimits) (i : ℕ) (shards : List (Shard K E))
      → All (IsSound limits) shards
      → IsSound limits (shard_at i shards)
  unfolding shard_at
  shard_at-IsSound limits i [] a = record { distinct = tt; counted = refl; within = omega arith }
  shard_at-IsSound limits zero (x ∷ xs) a = a.0
  shard_at-IsSound limits (suc i) (x ∷ xs) a = shard_at-IsSound limits i xs a.1

  set_shard-IsWithin :
      (limits : MemoryLimits) (i : ℕ) (v : Shard K E) (shards : List (Shard K E))
      → IsSound limits v
      → All (IsSound limits) shards
      → All (IsSound limits) (set_shard i v shards)
        × (length (set_shard i v shards) ≡ length shards)
  unfolding set_shard
  set_shard-IsWithin limits i v [] h a = (tt, refl)
  set_shard-IsWithin limits zero v (x ∷ xs) h a = ((h, a.1), refl)
  set_shard-IsWithin limits (suc i) v (x ∷ xs) h a =
      let (rest, e) = set_shard-IsWithin limits i v xs h a.1 in ((a.0, rest), omega arith)

  total-le :
      (limits : MemoryLimits) (shards : List (Shard K E))
      → All (IsSound limits) shards
      → sum_by (λ (x : Shard K E). x.bytes) shards ≤ length shards * per_shard limits
  total-le limits [] a = omega arith
  total-le limits (x ∷ xs) a = omega (arith, total-le limits xs a.1, a.0.within)

empty_shards-IsSound :
    (K E : Type 0) ⦃c : Comparable K⦄ (limits : MemoryLimits) (n : ℕ)
    → All (IsSound {K = K} {E = E} limits) (empty_shards n)
      × (length (empty_shards {K = K} {E = E} n) ≡ n)
unfolding empty_shards
empty_shards-IsSound K E limits zero = (tt, refl)
empty_shards-IsSound K E limits (suc n) =
    let (rest, e) = empty_shards-IsSound K E limits n in
    ((record { distinct = tt; counted = refl; within = omega arith }, rest), omega arith)

share-le : (n b : ℕ) → 1 ≤ n → n ≤ b → n * max (b / n) 1 ≤ b
share-le n b h k = grind arith

shares-le :
    (limits : MemoryLimits)
    → max limits.shards 1 ≤ limits.max_bytes
    → max limits.shards 1 * per_shard limits ≤ limits.max_bytes
unfolding per_shard
shares-le limits h = share-le (max limits.shards 1) limits.max_bytes (omega arith) h

module _ {K E : Type 0} ⦃c : Comparable K⦄ (s : Stored K E) (hash : K → ℕ)
    (limits : MemoryLimits) where
  unfoldable pub step : Call K E → MemoryStore K E → MemoryStore K E
  step (gets key) store = (get hash key store).0
  step (puts key entry) store = put s hash limits key entry store
  step (removes key) store = delete hash key store

  unfoldable pub run : List (Call K E) → MemoryStore K E → MemoryStore K E
  run [] store = store
  run (call ∷ calls) store = run calls (step call store)

  step-IsWithin :
      (call : Call K E) (store : MemoryStore K E)
      → IsWithin limits store
      → IsWithin limits (step call store)
  unfolding step get put delete
  step-IsWithin (gets key) store v =
      let i : ℕ = index_of hash key store in
      let at = shard_at-IsSound limits i store.shards v.sound in
      let (a, e) =
        set_shard-IsWithin limits i _ store.shards (shard_get-IsSound s limits _ key _ at)
          v.sound in
      record { sound = a; sharded = e ∙ v.sharded }
  step-IsWithin (puts key entry) store v =
      let i : ℕ = index_of hash key store in
      let at = shard_at-IsSound limits i store.shards v.sound in
      let (a, e) =
        set_shard-IsWithin limits i _ store.shards (shard_put-IsSound s limits _ key entry _ at)
          v.sound in
      record { sound = a; sharded = e ∙ v.sharded }
  step-IsWithin (removes key) store v =
      let i : ℕ = index_of hash key store in
      let at = shard_at-IsSound limits i store.shards v.sound in
      let (a, e) =
        set_shard-IsWithin limits i _ store.shards (shard_remove-IsSound s limits key _ at)
          v.sound in
      record { sound = a; sharded = e ∙ v.sharded }

  run-IsWithin :
      (calls : List (Call K E)) (store : MemoryStore K E)
      → IsWithin limits store
      → IsWithin limits (run calls store)
  unfolding run
  run-IsWithin [] store v = v
  run-IsWithin (call ∷ calls) store v =
      run-IsWithin calls (step call store) (step-IsWithin call store v)

  pub run-IsWithin-stats :
      (calls : List (Call K E))
      → let store = run calls (with_limits limits) in
        IsWithin limits store
        × (max limits.shards 1 ≤ limits.max_bytes → (stats store).1 ≤ limits.max_bytes)
  unfolding with_limits stats
  run-IsWithin-stats calls =
      let (a, e) = empty_shards-IsSound K E limits (max limits.shards 1) in
      let v = run-IsWithin calls (with_limits limits) (record { sound = a; sharded = e }) in
      let all = total-le limits (run calls (with_limits limits)).shards v.sound in
      (v, λ h. omega (arith, rw v.sharded at all, shares-le limits h))
