-- ===== src/Cache/Storage/Measured.antt =====
-- The bytes that storage.rs counts are the sizes of the keys and entries that it holds.
use chromulate.Prelude.{
  ℕ, zero, suc, ◌+◌, ◌≤◌, ◌≡◌, refl, List, [], ◌∷◌, ltb, leb, arith, max, sum_by, All, All-filter,
  Bool-cases, Option-cases, inl, inr, ◌∙◌, some, Comparable, is_some, subst,
}
use chromulate.Prelude.Assoc.{lookup, insert, remove}
use chromulate.Cache.Storage.{
  Stored, Record, Shard, MemoryStore, MemoryLimits, per_shard, purge, bytes_of, merge_variants,
  variants_at, record_size, shard_get, shard_put, shard_remove, shard_at, set_shard, empty_shards,
  with_limits, get, put, delete, stats, index_of,
}
use chromulate.Cache.Storage.Bounds.{
  Call, gets, puts, removes, step, run, IsSound, run-IsWithin-stats,
}

module _ {K V : Type 0} ⦃c : Comparable K⦄ (P : K × V → Type 0) where
  All-insert_pair : (k : K) (v : V) (m : List (K × V)) → P (k, v) → All P m → All P (insert k v m)
  unfolding insert
  All-insert_pair k v [] h a = (h, tt)
  All-insert_pair k v ((i, w) ∷ m) h a = ground (arith, All-insert_pair k v m h a.1)

  All-remove_pair : (k : K) (m : List (K × V)) → All P m → All P (remove k m)
  unfolding remove
  All-remove_pair k [] a = tt
  All-remove_pair k ((i, w) ∷ m) a = ground (arith, All-remove_pair k m a.1)

  All-lookup_pair : (k : K) (v : V) (m : List (K × V)) → All P m → lookup k m ≡ some v → P (k, v)
  unfolding lookup
  All-lookup_pair k v [] a h = absurd (ground (arith, h))
  All-lookup_pair k v ((i, w) ∷ m) a h = elim (Bool-cases (c.same i k)) [
    | inl e ↦
        let value : w ≡ v = ground (arith, h, e) in
        subst (λ x. P (x, v)) ((c.same_iff i k).0 e) (subst (λ x. P (i, x)) value a.0)
    | inr e ↦ All-lookup_pair k v m a.1 (ground (arith, h, e))
  ]

module _ {K E : Type 0} (s : Stored K E) where
  -- The size of what a shard holds: each key's, and that of every variant stored under it.
  abbrev pub held_size : List (K × Record E) → ℕ
  held_size = sum_by (λ (x : K × Record E). s.key_size x.0 + sum_by s.size x.1.variants)

  abbrev IsSized : K × Record E → Type 0
  IsSized x = x.1.bytes ≡ s.key_size x.0 + sum_by s.size x.1.variants

  abbrev IsMeasured : Shard K E → Type 0
  IsMeasured shard = All IsSized shard.records

  bytes_of-held_size :
      (records : List (K × Record E)) → All IsSized records → bytes_of records ≡ held_size records
  bytes_of-held_size [] a = refl
  bytes_of-held_size (x ∷ records) a = omega (arith, a.0, bytes_of-held_size records a.1)

  purge-IsMeasured :
      (limits : MemoryLimits) (shard : Shard K E)
      → IsMeasured shard
      → IsMeasured (purge limits shard).0
  unfolding purge
  purge-IsMeasured limits shard a = elim (Bool-cases (leb shard.bytes (per_shard limits))) [
    | inl e ↦ rw e a
    | inr e ↦ rw e (All-filter IsSized _ shard.records a)
  ]

  module _ ⦃c : Comparable K⦄ where
    shard_get-IsMeasured :
        (tick : ℕ) (key : K) (shard : Shard K E)
        → IsMeasured shard
        → IsMeasured (shard_get tick key shard).0
    unfolding shard_get
    shard_get-IsMeasured tick key shard a = elim (Option-cases (lookup key shard.records)) [
      | inl e ↦ rw (e, shard_get) a
      | inr (r, e) ↦
          rw (e, shard_get)
            (All-insert_pair IsSized key (record r { last_used = tick }) shard.records
              (All-lookup_pair IsSized key r shard.records a e) a)
    ]

    shard_remove-IsMeasured :
        (key : K) (shard : Shard K E) → IsMeasured shard → IsMeasured (shard_remove key shard)
    unfolding shard_remove
    shard_remove-IsMeasured key shard a = elim (Option-cases (lookup key shard.records)) [
      | inl e ↦ rw (e, shard_remove) a
      | inr (r, e) ↦ rw (e, shard_remove) (All-remove_pair IsSized key shard.records a)
    ]

    shard_put-IsMeasured :
        (limits : MemoryLimits) (tick : ℕ) (key : K) (entry : E) (shard : Shard K E)
        → IsMeasured shard
        → IsMeasured (shard_put s limits tick key entry shard).0
    unfolding shard_put
    shard_put-IsMeasured limits tick key entry shard a =
        let merged : List E = merge_variants s (variants_at key shard) entry in
        let bytes : ℕ = record_size s key merged in
        let new : Record E = record { variants = merged; bytes = bytes; last_used = tick } in
        elim (Bool-cases (ltb (per_shard limits) bytes)) [
          | inl big ↦ elim (Bool-cases (is_some (lookup key shard.records))) [
            | inl there ↦ rw (big, there) (All-remove_pair IsSized key shard.records a)
            | inr absent ↦ rw (big, absent) a
          ]
          | inr fits ↦
              rw fits
                (purge-IsMeasured limits _ (All-insert_pair IsSized key new shard.records refl a))
        ]

    shard_at-IsMeasured :
        (i : ℕ) (shards : List (Shard K E)) → All IsMeasured shards → IsMeasured (shard_at i shards)
    unfolding shard_at
    shard_at-IsMeasured i [] a = tt
    shard_at-IsMeasured zero (x ∷ xs) a = a.0
    shard_at-IsMeasured (suc i) (x ∷ xs) a = shard_at-IsMeasured i xs a.1

    set_shard-IsMeasured :
        (i : ℕ) (v : Shard K E) (shards : List (Shard K E))
        → IsMeasured v
        → All IsMeasured shards
        → All IsMeasured (set_shard i v shards)
    unfolding set_shard
    set_shard-IsMeasured i v [] h a = tt
    set_shard-IsMeasured zero v (x ∷ xs) h a = (h, a.1)
    set_shard-IsMeasured (suc i) v (x ∷ xs) h a = (a.0, set_shard-IsMeasured i v xs h a.1)

  empty_shards-IsMeasured : (n : ℕ) → All IsMeasured (empty_shards n)
  unfolding empty_shards
  empty_shards-IsMeasured zero = tt
  empty_shards-IsMeasured (suc n) = (tt, empty_shards-IsMeasured n)

module _ {K E : Type 0} ⦃c : Comparable K⦄ (s : Stored K E) (hash : K → ℕ)
    (limits : MemoryLimits) where
  step-IsMeasured :
      (call : Call K E) (store : MemoryStore K E)
      → All (IsMeasured s) store.shards
      → All (IsMeasured s) (step s hash limits call store).shards
  unfolding step get put delete
  step-IsMeasured (gets key) store a =
      set_shard-IsMeasured s (index_of hash key store) _ store.shards
        (shard_get-IsMeasured s _ key _ (shard_at-IsMeasured s _ store.shards a)) a
  step-IsMeasured (puts key entry) store a =
      set_shard-IsMeasured s (index_of hash key store) _ store.shards
        (shard_put-IsMeasured s limits _ key entry _ (shard_at-IsMeasured s _ store.shards a)) a
  step-IsMeasured (removes key) store a =
      set_shard-IsMeasured s (index_of hash key store) _ store.shards
        (shard_remove-IsMeasured s key _ (shard_at-IsMeasured s _ store.shards a)) a

  run-IsMeasured :
      (calls : List (Call K E)) (store : MemoryStore K E)
      → All (IsMeasured s) store.shards
      → All (IsMeasured s) (run s hash limits calls store).shards
  unfolding run
  run-IsMeasured [] store a = a
  run-IsMeasured (call ∷ calls) store a =
      run-IsMeasured calls (step s hash limits call store) (step-IsMeasured call store a)

  -- What a shard counts is what it holds, and within its share.
  abbrev pub IsExact : Shard K E → Type 0
  IsExact shard = (shard.bytes ≡ held_size s shard.records) × (shard.bytes ≤ per_shard limits)

  All-IsExact :
      (shards : List (Shard K E))
      → All (IsSound limits) shards
      → All (IsMeasured s) shards
      → All IsExact shards
  All-IsExact [] v a = tt
  All-IsExact (x ∷ xs) v a =
      ((v.0.counted ∙ bytes_of-held_size s x.records a.0, v.0.within), All-IsExact xs v.1 a.1)

  -- After any sequence of lookups, stores and removals on a new store, each shard's count of bytes
  -- is the size of all keys and variants that it holds, and within the shard's share; and where
  -- there is at least a byte for every shard, the bytes that `stats` reports are at most
  -- `max_bytes`.
  pub run-IsExact-stats :
      (calls : List (Call K E))
      → let store = run s hash limits calls (with_limits limits) in
        All IsExact store.shards
        × (max limits.shards 1 ≤ limits.max_bytes → (stats store).1 ≤ limits.max_bytes)
  unfolding with_limits
  run-IsExact-stats calls =
      let (v, total) = run-IsWithin-stats s hash limits calls in
      let a =
        run-IsMeasured calls (with_limits limits)
          (empty_shards-IsMeasured s (max limits.shards 1)) in
      (All-IsExact (run s hash limits calls (with_limits limits)).shards v.sound a, total)
