-- ===== src/Cache/Storage.antt =====
-- crates/chromulate-cache/src/storage.rs: the sharded least-recently-used store in memory.
-- A lock guards each shard, so an operation is a function on the store. A shard's map is an
-- association list, and its records are sorted by insertion where the source sorts in place.
pub mod Purge
pub mod Bounds
pub mod Measured
pub mod Contents
use chromulate.Prelude.{
  ℕ, zero, suc, ◌+◌, ◌-◌, ◌/◌, ◌%◌, ◌^◌, min, max, Bool, true, false, not, Option, none, some, List,
  [], ◌∷◌, ◌++◌, ltb, leb, if◌then◌else◌, Comparable, length, filter, sum_by, map, is_some,
}
use chromulate.Prelude.Text.{u64_max}
use chromulate.Prelude.Assoc.{lookup, insert, remove}

-- What the store needs to know of keys and entries: the size of each, and whether two entries
-- have equal selectors.
pub record Stored (K E : Type 0) : Type 0 where
  pub key_size : K → ℕ
  pub size : E → ℕ
  pub same_selector : E → E → Bool

pub record MemoryLimits : Type 0 where
  pub max_bytes : ℕ
  pub shards : ℕ

unfoldable pub per_shard : MemoryLimits → ℕ
per_shard limits = max (limits.max_bytes / max limits.shards 1) 1

unfoldable pub purge_target : MemoryLimits → ℕ
purge_target limits = per_shard limits - per_shard limits / 8

pub record Record (E : Type 0) : Type 0 where
  pub variants : List E
  pub bytes : ℕ
  pub last_used : ℕ

pub record Shard (K E : Type 0) : Type 0 where
  pub records : List (K × Record E)
  pub bytes : ℕ

-- `evictions` and `purge_scans` are statistics, which wrap.
pub record MemoryStore (K E : Type 0) : Type 0 where
  pub shards : List (Shard K E)
  pub tick : ℕ
  pub evictions : ℕ
  pub purge_scans : ℕ

unfoldable pub empty_shards : {K E : Type 0} → ℕ → List (Shard K E)
empty_shards zero = []
empty_shards (suc n) = record { records = []; bytes = 0 } ∷ empty_shards n

-- `MemoryStore::with_limits`.
unfoldable pub with_limits : {K E : Type 0} → MemoryLimits → MemoryStore K E
unfolding empty_shards
with_limits limits = record {
  shards = empty_shards (max limits.shards 1);
  tick = 0;
  evictions = 0;
  purge_scans = 0;
}

-- `next_tick`: the counter and what is returned saturate together.
unfoldable pub next_tick : ℕ → ℕ
next_tick tick = min (tick + 1) u64_max

-- The variants with `entry` in place of those that its selector equals.
unfoldable pub merge_variants : {K E : Type 0} → Stored K E → List E → E → List E
merge_variants s existing entry =
    filter (λ stored. not (s.same_selector stored entry)) existing ++ entry ∷ []

-- The ages of a shard's records, `(last_used, bytes)`, sorted by the first.
unfoldable pub insert_age : ℕ × ℕ → List (ℕ × ℕ) → List (ℕ × ℕ)
insert_age a [] = a ∷ []
insert_age a (b ∷ ages) = if leb a.0 b.0 then a ∷ b ∷ ages else b ∷ insert_age a ages

unfoldable pub sort_ages : List (ℕ × ℕ) → List (ℕ × ℕ)
sort_ages [] = []
sort_ages (a ∷ ages) = insert_age a (sort_ages ages)

-- The loop of `purge`: the last use of the youngest record that has to go.
unfoldable pub cutoff_of : ℕ → ℕ → ℕ → List (ℕ × ℕ) → ℕ
cutoff_of target remaining cutoff [] = cutoff
cutoff_of target remaining cutoff ((last_used, bytes) ∷ ages) =
    if leb remaining target
    then cutoff
    else cutoff_of target (remaining - min bytes remaining) last_used ages

module _ {K E : Type 0} where
  abbrev pub ages_of : List (K × Record E) → List (ℕ × ℕ)
  ages_of = map (λ (x : K × Record E). (x.1.last_used, x.1.bytes))

  abbrev pub bytes_of : List (K × Record E) → ℕ
  bytes_of = sum_by (λ (x : K × Record E). x.1.bytes)

  -- The shard, the number of records evicted, and the number scanned.
  unfoldable pub purge : MemoryLimits → Shard K E → Shard K E × ℕ × ℕ
  purge limits shard =
      if leb shard.bytes (per_shard limits)
      then (shard, 0, 0)
      else let cutoff : ℕ =
          cutoff_of (purge_target limits) shard.bytes 0 (sort_ages (ages_of shard.records)) in
        let kept : List (K × Record E) =
          filter (λ (x : K × Record E). ltb cutoff x.1.last_used) shard.records in
        (
          record { records = kept; bytes = bytes_of kept },
          length shard.records - length kept,
          length shard.records,
        )

module _ {K E : Type 0} ⦃c : Comparable K⦄ where
  -- `get` on the key's shard.
  unfoldable pub shard_get : ℕ → K → Shard K E → Shard K E × List E
  shard_get tick key shard = elim (lookup key shard.records) [
    | none ↦ (shard, [])
    | some r ↦ (
      record shard { records = insert key (record r { last_used = tick }) shard.records },
      r.variants,
    )
  ]

  abbrev pub variants_at : K → Shard K E → List E
  variants_at key shard = elim (lookup key shard.records) [ none ↦ [] | some r ↦ r.variants ]

  abbrev pub bytes_at : K → Shard K E → ℕ
  bytes_at key shard = elim (lookup key shard.records) [ none ↦ 0 | some r ↦ r.bytes ]

  -- `remove` on the key's shard.
  unfoldable pub shard_remove : K → Shard K E → Shard K E
  shard_remove key shard = elim (lookup key shard.records) [
    | none ↦ shard
    | some r ↦ record {
      records = remove key shard.records;
      bytes = shard.bytes - min r.bytes shard.bytes;
    }
  ]

  -- The shard at an index, and the shards with it replaced; `empty` is never reached.
  unfoldable pub shard_at : ℕ → List (Shard K E) → Shard K E
  shard_at i [] = record { records = []; bytes = 0 }
  shard_at zero (x ∷ xs) = x
  shard_at (suc i) (x ∷ xs) = shard_at i xs

  unfoldable pub set_shard : ℕ → Shard K E → List (Shard K E) → List (Shard K E)
  set_shard i v [] = []
  set_shard zero v (x ∷ xs) = v ∷ xs
  set_shard (suc i) v (x ∷ xs) = x ∷ set_shard i v xs

  -- `shard_of`: by the hash that the store was made with.
  abbrev pub index_of : (K → ℕ) → K → MemoryStore K E → ℕ
  index_of hash key store = hash key % length store.shards

  unfoldable pub get : (K → ℕ) → K → MemoryStore K E → MemoryStore K E × List E
  get hash key store =
      let i : ℕ = index_of hash key store in
      let tick : ℕ = next_tick store.tick in
      let (shard, variants) = shard_get tick key (shard_at i store.shards) in
      (record store { shards = set_shard i shard store.shards; tick = tick }, variants)

  unfoldable pub delete : (K → ℕ) → K → MemoryStore K E → MemoryStore K E
  delete hash key store =
      let i : ℕ = index_of hash key store in
      record store {
        shards = set_shard i (shard_remove key (shard_at i store.shards)) store.shards;
      }

  -- `stats`: keys and bytes over all shards.
  unfoldable pub stats : MemoryStore K E → ℕ × ℕ
  stats store = (
    sum_by (λ (shard : Shard K E). length shard.records) store.shards,
    sum_by (λ (shard : Shard K E). shard.bytes) store.shards,
  )

module _ {K E : Type 0} ⦃c : Comparable K⦄ (s : Stored K E) where
  abbrev pub record_size : K → List E → ℕ
  record_size key variants = s.key_size key + sum_by s.size variants

  -- `put` on the key's shard.
  unfoldable pub shard_put : MemoryLimits → ℕ → K → E → Shard K E → Shard K E × ℕ × ℕ
  shard_put limits tick key entry shard =
      let previous : ℕ = bytes_at key shard in
      let merged : List E = merge_variants s (variants_at key shard) entry in
      let bytes : ℕ = record_size key merged in
      if ltb (per_shard limits) bytes
      then (if is_some (lookup key shard.records)
          then (
            record {
              records = remove key shard.records;
              bytes = shard.bytes - min previous shard.bytes;
            },
            0,
            0,
          )
          else (shard, 0, 0))
      else purge limits (record {
        records =
            insert key (record { variants = merged; bytes = bytes; last_used = tick })
              shard.records;
        bytes = shard.bytes + bytes - min previous shard.bytes;
      })

  unfoldable pub put : (K → ℕ) → MemoryLimits → K → E → MemoryStore K E → MemoryStore K E
  put hash limits key entry store =
      let i : ℕ = index_of hash key store in
      let tick : ℕ = next_tick store.tick in
      let (shard, evicted, scanned) = shard_put limits tick key entry (shard_at i store.shards) in
      record {
        shards = set_shard i shard store.shards;
        tick = tick;
        evictions = (store.evictions + evicted) % 2 ^ 64;
        purge_scans = (store.purge_scans + scanned) % 2 ^ 64;
      }
