-- ===== src/Cache/Storage/Contents.antt =====
-- What a key reads in the store of storage.rs, before and after each call.
pub mod Refusal
use chromulate.Prelude.{
  ℕ, zero, suc, ◌+◌, ◌-◌, ◌%◌, ◌≤◌, ◌<◌, ◌≡◌, refl, Bool, true, false, not, List, [], ◌∷◌, ◌++◌,
  ltb, arith, min, length, filter, if◌then◌else◌, Bool-cases, Option-cases, inl, inr, sym, ◌∙◌, ap,
  Comparable, ◌==◌, nat_beq,
}
use native.Mathlib.Nat.{mod-lt}
use chromulate.Prelude.Assoc.{lookup, insert, Distinct, lookup-insert, lookup-remove}
use chromulate.Cache.Storage.{
  Stored, Record, Shard, MemoryStore, MemoryLimits, per_shard, merge_variants, variants_at,
  bytes_at, record_size, shard_get, shard_put, shard_remove, shard_at, set_shard, get, put,
  next_tick, delete, index_of,
}
use chromulate.Cache.Storage.Purge.{purge_within}
use chromulate.Cache.Storage.Bounds.{IsWithin, shard_at-IsSound}

module _ {K E : Type 0} (s : Stored K E) where
  filter-append_not :
      (p : E → Bool) (xs ys : List E) → filter p (filter (λ x. not (p x)) xs ++ ys) ≡ filter p ys
  filter-append_not p [] ys = refl
  filter-append_not p (x ∷ xs) ys = elim (Bool-cases (p x)) [
    | inl e ↦ rw e (filter-append_not p xs ys)
    | inr e ↦ rw (e, e) (filter-append_not p xs ys)
  ]

  filter_twice :
      (p : E → Bool) (xs ys : List E)
      → filter p ys ≡ []
      → filter p (filter p xs ++ ys) ≡ filter p xs
  filter_twice p [] ys h = h
  filter_twice p (x ∷ xs) ys h = elim (Bool-cases (p x)) [
    | inl e ↦ rw (e, e) (ap (◌∷◌ x) (filter_twice p xs ys h))
    | inr e ↦ rw e (filter_twice p xs ys h)
  ]

  -- Where the comparison of selectors finds the entry's equal to itself, merging the entry in leaves
  -- it as the only variant with its selector, and leaves the variants with other selectors as they
  -- were.
  pub merge_variants_one :
      (existing : List E) (entry : E)
      → s.same_selector entry entry ≡ true
      → (filter (λ x. s.same_selector x entry) (merge_variants s existing entry) ≡ entry ∷ [])
        × (filter (λ x. not (s.same_selector x entry)) (merge_variants s existing entry)
            ≡ filter (λ x. not (s.same_selector x entry)) existing)
  unfolding merge_variants
  merge_variants_one existing entry h = (
    filter-append_not (λ x. s.same_selector x entry) existing (entry ∷ []) ∙ rw h refl,
    filter_twice (λ x. not (s.same_selector x entry)) existing (entry ∷ []) (rw h refl),
  )

module _ {K E : Type 0} ⦃c : Comparable K⦄ where
  shard_at-set_shard :
      (i j : ℕ) (v : Shard K E) (shards : List (Shard K E))
      → i < length shards
      → shard_at j (set_shard i v shards) ≡ (if nat_beq i j then v else shard_at j shards)
  unfolding shard_at set_shard
  shard_at-set_shard i j v [] h = elim h [ ]
  shard_at-set_shard zero zero v (x ∷ xs) h = refl
  shard_at-set_shard zero (suc j) v (x ∷ xs) h = ground arith
  shard_at-set_shard (suc i) zero v (x ∷ xs) h = ground arith
  shard_at-set_shard (suc i) (suc j) v (x ∷ xs) h =
      ground (arith, shard_at-set_shard i j v xs (omega arith))

  -- What a lookup of the key would return.
  abbrev pub contents : (K → ℕ) → MemoryStore K E → K → List E
  contents hash store key = variants_at key (shard_at (index_of hash key store) store.shards)

  variants_at-shard_get :
      (tick : ℕ) (key other : K) (shard : Shard K E)
      → variants_at other (shard_get tick key shard).0 ≡ variants_at other shard
  unfolding shard_get
  variants_at-shard_get tick key other shard = elim (Option-cases (lookup key shard.records)) [
    | inl e ↦ rw (e, shard_get)
    | inr (r, e) ↦
        rw (e, shard_get)
          (ground (
            arith,
            lookup-insert key other (record r { last_used = tick }) shard.records,
            c.same_iff key other,
          ))
  ]

  variants_at-shard_remove :
      (key other : K) (shard : Shard K E)
      → Distinct shard.records
      → variants_at other (shard_remove key shard)
        ≡ (if key == other then [] else variants_at other shard)
  unfolding shard_remove
  variants_at-shard_remove key other shard d = elim (Option-cases (lookup key shard.records)) [
    | inl e ↦ rw (e, shard_remove) (ground (arith, c.same_iff key other))
    | inr (r, e) ↦ rw (e, shard_remove) (ground (arith, lookup-remove key other shard.records d))
  ]

  variants_at-shard_put :
      (s : Stored K E) (limits : MemoryLimits) (tick : ℕ) (key other : K) (entry : E)
      (shard : Shard K E)
      → shard.bytes + record_size s key (merge_variants s (variants_at key shard) entry)
        ≤ per_shard limits
      → variants_at other (shard_put s limits tick key entry shard).0 ≡ (
          if key == other
          then merge_variants s (variants_at key shard) entry
          else variants_at other shard)
  unfolding shard_put
  variants_at-shard_put s limits tick key other entry shard h =
      let merged : List E = merge_variants s (variants_at key shard) entry in
      let new : Record E = record {
        variants = merged;
        bytes = record_size s key merged;
        last_used = tick;
      } in
      let fits : ltb (per_shard limits) (record_size s key merged) ≡ false = ground arith in
      rw
        (
          fits,
          purge_within limits
              (record {
                records = insert key new shard.records;
                bytes =
                    shard.bytes + record_size s key merged - min (bytes_at key shard) shard.bytes;
              })
              (omega arith),
        )
        (ground (arith, lookup-insert key other new shard.records))

  length-set_shard :
      (i : ℕ) (v : Shard K E) (shards : List (Shard K E))
      → length (set_shard i v shards) ≡ length shards
  unfolding set_shard
  length-set_shard i v [] = refl
  length-set_shard zero v (x ∷ xs) = refl
  length-set_shard (suc i) v (x ∷ xs) = ap suc (length-set_shard i v xs)

  index_of-lt :
      (hash : K → ℕ) (limits : MemoryLimits) (key : K) (store : MemoryStore K E)
      → IsWithin limits store
      → index_of hash key store < length store.shards
  index_of-lt hash limits key store v = mod-lt (hash key) (omega (arith, v.sharded))

  -- A change of the shard of `key` that changes only what `key` reads in it.
  contents-set_shard :
      (hash : K → ℕ) (limits : MemoryLimits) (key other : K) (new : List E) (v : Shard K E)
      (shards : List (Shard K E))
      → hash key % length shards < length shards
      → variants_at other v ≡ (
          if key == other
          then new
          else variants_at other (shard_at (hash key % length shards) shards))
      → variants_at other (
          shard_at
            (hash other % length (set_shard (hash key % length shards) v shards))
            (set_shard (hash key % length shards) v shards))
        ≡ (if key == other
            then new
            else variants_at other (shard_at (hash other % length shards) shards))
  contents-set_shard hash limits key other new v shards h e =
      let i : ℕ = hash key % length shards in
      let j : ℕ = hash other % length shards in
      rw (length-set_shard i v shards, shard_at-set_shard i j v shards h)
        (elim (Bool-cases (key == other)) [
          | inl same ↦
              let k : i ≡ j = ap (λ x. hash x % length shards) ((c.same_iff key other).0 same) in
              ground (arith, k, e, same)
          | inr apart ↦ ground (arith, e, apart)
        ])

  shard_get_variants :
      (tick : ℕ) (key : K) (shard : Shard K E)
      → (shard_get tick key shard).1 ≡ variants_at key shard
  unfolding shard_get
  shard_get_variants tick key shard = ground arith

  if_same : (key other : K) (f : K → List E) → (if key == other then f key else f other) ≡ f other
  if_same key other f = elim (Bool-cases (key == other)) [
    | inl e ↦ rw e (ap f ((c.same_iff key other).0 e))
    | inr e ↦ rw e
  ]

  -- A lookup returns what was stored for its key and changes what no key reads.
  pub contents-get :
      (hash : K → ℕ) (limits : MemoryLimits) (key other : K) (store : MemoryStore K E)
      → IsWithin limits store
      → ((get hash key store).1 ≡ contents hash store key)
        × (contents hash (get hash key store).0 other ≡ contents hash store other)
  unfolding get
  contents-get hash limits key other store v =
      let i : ℕ = index_of hash key store in
      let shard : Shard K E = shard_at i store.shards in
      let tick : ℕ = next_tick store.tick in
      (
        shard_get_variants tick key shard,
        contents-set_shard hash limits key other (variants_at key shard)
              (shard_get tick key shard).0 store.shards (index_of-lt hash limits key store v)
              (variants_at-shard_get tick key other shard
                ∙ sym (if_same key other (λ k. variants_at k shard)))
            ∙ if_same key other (contents hash store),
      )

  -- A removal leaves the key with nothing, and every other key as it was.
  pub contents-delete :
      (hash : K → ℕ) (limits : MemoryLimits) (key other : K) (store : MemoryStore K E)
      → IsWithin limits store
      → contents hash (delete hash key store) other
        ≡ (if key == other then [] else contents hash store other)
  unfolding delete
  contents-delete hash limits key other store v =
      let i : ℕ = index_of hash key store in
      contents-set_shard hash limits key other [] _ store.shards
        (index_of-lt hash limits key store v)
        (variants_at-shard_remove key other (shard_at i store.shards)
          (shard_at-IsSound limits i store.shards v.sound).distinct)

  -- Where the shard has room for the key's variants besides what it holds, `put` merges the entry
  -- into the variants of its key and leaves every other key as it was.
  pub contents-put :
      (s : Stored K E) (hash : K → ℕ) (limits : MemoryLimits) (key other : K) (entry : E)
      (store : MemoryStore K E)
      → IsWithin limits store
      → (shard_at (index_of hash key store) store.shards).bytes
          + record_size s key (merge_variants s (contents hash store key) entry)
        ≤ per_shard limits
      → contents hash (put s hash limits key entry store) other ≡ (
          if key == other
          then merge_variants s (contents hash store key) entry
          else contents hash store other)
  unfolding put
  contents-put s hash limits key other entry store v room =
      let i : ℕ = index_of hash key store in
      contents-set_shard hash limits key other _ _ store.shards
        (index_of-lt hash limits key store v)
        (variants_at-shard_put s limits (next_tick store.tick) key other entry
          (shard_at i store.shards) room)
