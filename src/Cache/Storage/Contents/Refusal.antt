-- ===== src/Cache/Storage/Contents/Refusal.antt =====
-- What `put` of storage.rs does with an entry that its shard could never hold.
use chromulate.Prelude.{
  ℕ, ◌<◌, [], ◌≡◌, inl, inr, arith, ltb, if◌then◌else◌, Comparable, ◌==◌, Option-cases, true,
}
use chromulate.Prelude.Assoc.{lookup, lookup-remove, Distinct}
use chromulate.Cache.Storage.{
  Stored, MemoryLimits, MemoryStore, Shard, per_shard, record_size, merge_variants, variants_at,
  shard_at, shard_put, index_of, next_tick, put,
}
use chromulate.Cache.Storage.Bounds.{IsWithin, shard_at-IsSound}
use chromulate.Cache.Storage.Contents.{contents, contents-set_shard, index_of-lt}

module _ {K E : Type 0} ⦃c : Comparable K⦄ where
  variants_at-refused :
      (s : Stored K E) (limits : MemoryLimits) (tick : ℕ) (key other : K) (entry : E)
      (shard : Shard K E)
      → Distinct shard.records
      → per_shard limits < record_size s key (merge_variants s (variants_at key shard) entry)
      → variants_at other (shard_put s limits tick key entry shard).0
        ≡ (if key == other then [] else variants_at other shard)
  unfolding shard_put
  variants_at-refused s limits tick key other entry shard d h =
      let over : ltb (per_shard limits)
            (record_size s key (merge_variants s (variants_at key shard) entry))
          ≡ true =
        ground arith in
      elim (Option-cases (lookup key shard.records)) [
        | inl e ↦ rw (over, e) (ground (arith, e, c.same_iff key other))
        | inr (r, e) ↦ rw (over, e) (ground (arith, lookup-remove key other shard.records d))
      ]

  -- Where the record that an entry would make is larger than its shard's whole share, `put` does
  -- not store it: the key is left with nothing, as what it had is superseded, and every other key
  -- keeps what it had.
  pub contents-put-refused :
      (s : Stored K E) (hash : K → ℕ) (limits : MemoryLimits) (key other : K) (entry : E)
      (store : MemoryStore K E)
      → IsWithin limits store
      → per_shard limits < record_size s key (merge_variants s (contents hash store key) entry)
      → contents hash (put s hash limits key entry store) other
        ≡ (if key == other then [] else contents hash store other)
  unfolding put
  contents-put-refused s hash limits key other entry store v over =
      let i : ℕ = index_of hash key store in
      contents-set_shard hash limits key other [] _ store.shards
        (index_of-lt hash limits key store v)
        (variants_at-refused s limits (next_tick store.tick) key other entry
          (shard_at i store.shards) (shard_at-IsSound limits i store.shards v.sound).distinct over)
