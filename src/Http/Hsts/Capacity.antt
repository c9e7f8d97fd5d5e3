-- ===== src/Http/Hsts/Capacity.antt =====
-- The number of hosts that the store of hsts.rs remembers.
use chromulate.Prelude.{
  ℕ, zero, suc, ◌+◌, ◌≤◌, max, Bool, true, none, some, List, [], ◌∷◌, ◌≡◌, ◌⊎◌, inl, inr, refl, sym,
  subst, arith, nat_beq, ltb, leb, length, is_some, Bool-cases, Option-cases,
}
use chromulate.Prelude.Time.{Instant}
use chromulate.Prelude.Text.{Text, text_comparable, text_beq_iff, to_ascii_lowercase}
use chromulate.Prelude.Assoc.{lookup, remove, length-remove}
use chromulate.Http.Hsts.{
  Policy, HstsStore, Directive, soonest_from, soonest, drop_soonest, evict, learn, canonical_name,
  is_ip_literal, parse, record_header, with_capacity,
}

abbrev Found : Text → List (Text × Policy) → Text → Type 0
Found host hosts x = (x ≡ host) ⊎ (is_some (lookup x hosts) ≡ true)

Found-first :
    (host other : Text) (p : Policy) (rest : List (Text × Policy)) (x : Text)
    → Found other rest x
    → Found host ((other, p) ∷ rest) x
unfolding lookup
Found-first host other p rest x h = ground (arith, h, text_beq_iff other x)

Found-later :
    (host other : Text) (p : Policy) (rest : List (Text × Policy)) (x : Text)
    → Found host rest x
    → Found host ((other, p) ∷ rest) x
unfolding lookup
Found-later host other p rest x h = ground (arith, h, text_beq_iff other x)

soonest_from-lookup :
    (host : Text) (expires : Instant) (hosts : List (Text × Policy))
    → Found host hosts (soonest_from host expires hosts)
unfolding soonest_from
soonest_from-lookup host expires [] = inl refl
soonest_from-lookup host expires ((other, p) ∷ rest) = elim (Bool-cases (ltb p.expires expires)) [
  | inl e ↦ subst (Found host ((other, p) ∷ rest)) (sym (rw e refl)) (
      Found-first host other p rest (soonest_from other p.expires rest)
        (soonest_from-lookup other p.expires rest))
  | inr e ↦ subst (Found host ((other, p) ∷ rest)) (sym (rw e refl)) (
      Found-later host other p rest (soonest_from host expires rest)
        (soonest_from-lookup host expires rest))
]

-- Removing what `soonest` names makes the list shorter.
length-soonest :
    (host : Text) (hosts : List (Text × Policy))
    → soonest hosts ≡ some host
    → length (remove host hosts) + 1 ≡ length hosts
unfolding soonest remove lookup
length-soonest host [] h = absurd (ground arith)
length-soonest host ((first, p) ∷ rest) h = ground (
  arith,
  soonest_from-lookup first p.expires rest,
  text_beq_iff first host,
  length-remove host rest,
  h,
)

soonest-none : (hosts : List (Text × Policy)) → soonest hosts ≡ none → length hosts ≡ 0
unfolding soonest
soonest-none [] h = refl
soonest-none (x ∷ hosts) h = absurd (ground arith)

length-drop_soonest :
    (fuel capacity : ℕ) (hosts : List (Text × Policy))
    → length hosts ≤ fuel + capacity
    → length (drop_soonest fuel capacity hosts) ≤ capacity
unfolding drop_soonest
length-drop_soonest zero capacity hosts h = omega arith
length-drop_soonest (suc fuel) capacity hosts h = elim (Bool-cases (leb (length hosts) capacity)) [
  | inl e ↦ rw e (ground (arith, e))
  | inr e ↦ elim (Option-cases (soonest hosts)) [
    | inl n ↦ absurd (ground (arith, e, soonest-none hosts n))
    | inr (host, n) ↦
        rw (e, n)
          (length-drop_soonest fuel capacity (remove host hosts)
            (omega (arith, length-soonest host hosts n)))
  ]
]

remove_le : (host : Text) (hosts : List (Text × Policy)) → length (remove host hosts) ≤ length hosts
remove_le host hosts = omega (arith, length-remove host hosts)

evict_le : (now : Instant) (store : HstsStore) → length (evict now store).hosts ≤ store.capacity
unfolding evict
evict_le now store = elim (Bool-cases (leb (length store.hosts) store.capacity)) [
  | inl e ↦ rw e (ground (arith, e))
  | inr e ↦ rw e (length-drop_soonest _ store.capacity _ (omega arith))
]

evict_capacity : (now : Instant) (store : HstsStore) → (evict now store).capacity ≡ store.capacity
unfolding evict
evict_capacity now store = ground arith

-- One header as `record` is given it: the host, the value, whether over TLS, and the time.
pub record Seen : Type 0 where
  pub host : Text
  pub value : Text
  pub over_tls : Bool
  pub at : Instant

module _ (is_ip_addr : Text → Bool) (epoch last : Instant) where
  learn_le :
      (host : Text) (directive : Directive) (now : Instant) (store : HstsStore)
      → length store.hosts ≤ store.capacity
      → (length (learn is_ip_addr epoch last host directive now store).hosts ≤ store.capacity)
        × ((learn is_ip_addr epoch last host directive now store).capacity ≡ store.capacity)
  unfolding learn
  learn_le host directive now store h = elim (Bool-cases (nat_beq directive.max_age 0)) [
    | inl e ↦ rw e (omega (arith, remove_le host store.hosts), refl)
    | inr e ↦ rw e (evict_le now _, evict_capacity now _)
  ]

  record_header_le :
      (seen : Seen) (store : HstsStore)
      → length store.hosts ≤ store.capacity
      → let next =
          record_header is_ip_addr epoch last seen.host seen.value seen.over_tls seen.at store in
        (length next.hosts ≤ store.capacity) × (next.capacity ≡ store.capacity)
  unfolding record_header
  record_header_le seen store h = elim (Bool-cases seen.over_tls) [
    | inr e ↦ rw e (h, refl)
    | inl e ↦ elim (Option-cases (canonical_name seen.host)) [
      | inl n ↦ rw (e, n) (h, refl)
      | inr (name, n) ↦ elim (Bool-cases (is_ip_literal is_ip_addr name)) [
        | inl i ↦ rw (e, n, i) (h, refl)
        | inr i ↦ elim (Option-cases (parse seen.value)) [
          | inl q ↦ rw (e, n, i, q) (h, refl)
          | inr (d, q) ↦ rw (e, n, i, q) (learn_le (to_ascii_lowercase name) d seen.at store h)
        ]
      ]
    ]
  ]

  unfoldable pub see_all : List Seen → HstsStore → HstsStore
  see_all [] store = store
  see_all (seen ∷ rest) store =
      see_all rest
        (record_header is_ip_addr epoch last seen.host seen.value seen.over_tls seen.at store)

  see_all_le :
      (headers : List Seen) (store : HstsStore)
      → length store.hosts ≤ store.capacity
      → length (see_all headers store).hosts ≤ store.capacity
  unfolding see_all
  see_all_le [] store h = h
  see_all_le (seen ∷ rest) store h =
      let next : HstsStore =
        record_header is_ip_addr epoch last seen.host seen.value seen.over_tls seen.at store in
      let (a, b) = record_header_le seen store h in
      omega (arith, b, see_all_le rest next (omega (arith, a, b)))

  -- However many headers a new store has seen, from whatever hosts and with whatever values, over
  -- whatever connections and at whatever times, it holds no more hosts than its capacity (one, if
  -- that is 0).
  pub see_all-with_capacity :
      (capacity : ℕ) (headers : List Seen)
      → length (see_all headers (with_capacity capacity)).hosts ≤ max capacity 1
  unfolding with_capacity
  see_all-with_capacity capacity headers = see_all_le headers (with_capacity capacity) (omega arith)
