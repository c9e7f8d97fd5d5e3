-- ===== src/Cache/Storage/Purge.antt =====
-- A purge of storage.rs brings a shard down to its target.
use chromulate.Prelude.{
  ℕ, ◌-◌, ◌≤◌, ◌<◌, ◌≡◌, refl, Bool, true, false, List, [], ◌∷◌, ltb, leb, arith, min, filter,
  sum_by, sym, ◌∙◌, subst,
}
use native.Mathlib.Decide.{dec_le}
use chromulate.Cache.Storage.{
  Record, Shard, MemoryLimits, per_shard, purge_target, insert_age, sort_ages, cutoff_of, ages_of,
  bytes_of, purge,
}

abbrev age_bytes : List (ℕ × ℕ) → ℕ
age_bytes = sum_by (λ (a : ℕ × ℕ). a.1)

-- What stays of the ages above a cutoff.
abbrev above : ℕ → List (ℕ × ℕ) → List (ℕ × ℕ)
above cutoff = filter (λ (a : ℕ × ℕ). ltb cutoff a.0)

abbrev IsSortedFrom : ℕ → List (ℕ × ℕ) → Type 0
IsSortedFrom lo [] = Unit {0}
IsSortedFrom lo (a ∷ ages) = (lo ≤ a.0) × IsSortedFrom a.0 ages

insert_age-IsSortedFrom :
    (lo : ℕ) (a : ℕ × ℕ) (ages : List (ℕ × ℕ))
    → lo ≤ a.0
    → IsSortedFrom lo ages
    → IsSortedFrom lo (insert_age a ages)
unfolding insert_age
insert_age-IsSortedFrom lo a [] h s = (h, tt)
insert_age-IsSortedFrom lo a (b ∷ ages) h s = ground (arith, insert_age-IsSortedFrom b.0 a ages)

sort_ages-IsSortedFrom : (ages : List (ℕ × ℕ)) → IsSortedFrom 0 (sort_ages ages)
unfolding sort_ages
sort_ages-IsSortedFrom [] = tt
sort_ages-IsSortedFrom (a ∷ ages) =
    insert_age-IsSortedFrom 0 a (sort_ages ages) (omega arith) (sort_ages-IsSortedFrom ages)

-- Sorting moves no bytes, above a cutoff or in all.
age_bytes-insert_age :
    (p : ℕ × ℕ → Bool) (a : ℕ × ℕ) (ages : List (ℕ × ℕ))
    → age_bytes (filter p (insert_age a ages)) ≡ age_bytes (filter p (a ∷ ages))
unfolding insert_age
age_bytes-insert_age p a [] = refl
age_bytes-insert_age p a (b ∷ ages) = ground (arith, age_bytes-insert_age p a ages)

age_bytes-sort_ages :
    (p : ℕ × ℕ → Bool) (ages : List (ℕ × ℕ))
    → age_bytes (filter p (sort_ages ages)) ≡ age_bytes (filter p ages)
unfolding sort_ages
age_bytes-sort_ages p [] = refl
age_bytes-sort_ages p (a ∷ ages) =
    age_bytes-insert_age p a (sort_ages ages) ∙ ground (arith, age_bytes-sort_ages p ages)

age_bytes-filter_le :
    (p : ℕ × ℕ → Bool) (ages : List (ℕ × ℕ)) → age_bytes (filter p ages) ≤ age_bytes ages
age_bytes-filter_le p [] = omega arith
age_bytes-filter_le p (a ∷ ages) = ground (arith, age_bytes-filter_le p ages)

cutoff_of-le :
    (target remaining cutoff : ℕ) (ages : List (ℕ × ℕ))
    → IsSortedFrom cutoff ages
    → cutoff ≤ cutoff_of target remaining cutoff ages
unfolding cutoff_of
cutoff_of-le target remaining cutoff [] s = omega arith
cutoff_of-le target remaining cutoff (a ∷ ages) s =
    ground (arith, cutoff_of-le target (remaining - min a.1 remaining) a.0 ages s.1)

cutoff_of_stop :
    (target remaining cutoff : ℕ) (a : ℕ × ℕ) (ages : List (ℕ × ℕ))
    → remaining ≤ target
    → cutoff_of target remaining cutoff (a ∷ ages) ≡ cutoff
unfolding cutoff_of
cutoff_of_stop target remaining cutoff a ages h = ground arith

cutoff_of_go :
    (target cutoff : ℕ) (a : ℕ × ℕ) (ages : List (ℕ × ℕ))
    → target < age_bytes (a ∷ ages)
    → cutoff_of target (age_bytes (a ∷ ages)) cutoff (a ∷ ages)
      ≡ cutoff_of target (age_bytes ages) a.0 ages
unfolding cutoff_of
cutoff_of_go target cutoff a ages h =
    let left : age_bytes (a ∷ ages) - min a.1 (age_bytes (a ∷ ages)) ≡ age_bytes ages =
      omega arith in
    let more : leb (age_bytes (a ∷ ages)) target ≡ false = ground arith in rw (more, left)

-- What is younger than the cutoff weighs no more than the target.
above-cutoff_of :
    (target cutoff : ℕ) (ages : List (ℕ × ℕ))
    → IsSortedFrom cutoff ages
    → age_bytes (above (cutoff_of target (age_bytes ages) cutoff ages) ages) ≤ target
above-cutoff_of target cutoff [] s = omega arith
above-cutoff_of target cutoff (a ∷ ages) s = elim (dec_le (age_bytes (a ∷ ages)) target) [
  | yes h ↦
      subst (λ x. age_bytes (above x (a ∷ ages)) ≤ target)
        (sym (cutoff_of_stop target (age_bytes (a ∷ ages)) cutoff a ages h))
        (omega (arith, age_bytes-filter_le (λ (x : ℕ × ℕ). ltb cutoff x.0) (a ∷ ages)))
  | no h ↦
      subst (λ x. age_bytes (above x (a ∷ ages)) ≤ target)
        (sym (cutoff_of_go target cutoff a ages (omega arith)))
        (ground (
          arith,
          above-cutoff_of target a.0 ages s.1,
          cutoff_of-le target (age_bytes ages) a.0 ages s.1,
        ))
]

age_bytes-true : (ages : List (ℕ × ℕ)) → age_bytes (filter (λ x. true) ages) ≡ age_bytes ages
age_bytes-true [] = refl
age_bytes-true (a ∷ ages) = omega (arith, age_bytes-true ages)

age_bytes-sorted : (ages : List (ℕ × ℕ)) → age_bytes (sort_ages ages) ≡ age_bytes ages
age_bytes-sorted ages =
    sym (age_bytes-true (sort_ages ages))
    ∙ age_bytes-sort_ages (λ x. true) ages
    ∙ age_bytes-true ages

above-sorted :
    (target : ℕ) (ages : List (ℕ × ℕ))
    → age_bytes (above (cutoff_of target (age_bytes ages) 0 (sort_ages ages)) ages) ≤ target
above-sorted target ages =
    let cutoff : ℕ = cutoff_of target (age_bytes ages) 0 (sort_ages ages) in
    subst (λ x. x ≤ target) (age_bytes-sort_ages (λ (a : ℕ × ℕ). ltb cutoff a.0) ages)
      (subst
        (λ x. age_bytes (above (cutoff_of target x 0 (sort_ages ages)) (sort_ages ages)) ≤ target)
        (age_bytes-sorted ages)
        (above-cutoff_of target 0 (sort_ages ages) (sort_ages-IsSortedFrom ages)))

module _ {K E : Type 0} where
  -- The bytes of the records above a cutoff are those of their ages.
  bytes_of-filter :
      (cutoff : ℕ) (records : List (K × Record E))
      → bytes_of (filter (λ (x : K × Record E). ltb cutoff x.1.last_used) records)
        ≡ age_bytes (above cutoff (ages_of records))
  bytes_of-filter cutoff [] = refl
  bytes_of-filter cutoff (x ∷ records) = ground (arith, bytes_of-filter cutoff records)

  bytes_of-ages : (records : List (K × Record E)) → bytes_of records ≡ age_bytes (ages_of records)
  bytes_of-ages [] = refl
  bytes_of-ages (x ∷ records) = omega (arith, bytes_of-ages records)

  kept-le :
      (target : ℕ) (records : List (K × Record E))
      → bytes_of (
          filter
            (λ (x : K × Record E).
              ltb
                (cutoff_of target (bytes_of records) 0 (sort_ages (ages_of records)))
                x.1.last_used)
            records)
        ≤ target
  kept-le target records =
      subst
        (λ b.
          bytes_of (
            filter
              (λ (x : K × Record E).
                ltb (cutoff_of target b 0 (sort_ages (ages_of records))) x.1.last_used)
              records)
          ≤ target)
        (sym (bytes_of-ages records))
        (omega (
          arith,
          bytes_of-filter
              (cutoff_of target (age_bytes (ages_of records)) 0 (sort_ages (ages_of records)))
              records,
          above-sorted target (ages_of records),
        ))

  -- A shard that is over its share is brought down to the target of a purge, and its count of
  -- bytes is right.
  pub purge_over :
      (limits : MemoryLimits) (shard : Shard K E)
      → shard.bytes ≡ bytes_of shard.records
      → per_shard limits < shard.bytes
      → ((purge limits shard).0.bytes ≡ bytes_of (purge limits shard).0.records)
        × ((purge limits shard).0.bytes ≤ purge_target limits)
  unfolding purge
  purge_over limits shard counted over =
      let more : leb shard.bytes (per_shard limits) ≡ false = ground arith in
      rw (more, counted) (refl, kept-le (purge_target limits) shard.records)

  pub purge_within :
      (limits : MemoryLimits) (shard : Shard K E)
      → shard.bytes ≤ per_shard limits
      → purge limits shard ≡ (shard, 0, 0)
  unfolding purge
  purge_within limits shard h = ground arith
