-- ===== src/Cookie/Bucket/Trimmed.antt =====
-- How many entries `remove_all` and `trim_to` of a bucket of jar.rs leave.
use chromulate.Prelude.{
  ℕ, zero, suc, ◌+◌, ◌-◌, ◌≤◌, ◌<◌, min, true, false, not, ◌||◌, List, [], ◌∷◌, ◌≡◌, refl, ap, ◌∙◌,
  arith, leb, nat_beq, length, take, filter, length-filter, inl, inr, Bool-cases,
}
use chromulate.Prelude.Time.{Instant}
use chromulate.Cookie.Parsing.{is_expired}
use chromulate.Cookie.Bucket.{
  Entry, Bucket, contains, keep_from, remove_all, reindex, insert_ranked, ranked_from, positions,
  trim_to, remove_expired,
}

leb_le : (a b : ℕ) → leb a b ≡ true → a ≤ b
leb_le a b h = ground arith

not_leb_lt : (a b : ℕ) → leb a b ≡ false → b < a
not_leb_lt a b h = ground arith

-- Positions that stand once each and are all of a list of entries counted from `i` on.
abbrev pub IsDoomed : ℕ → ℕ → List ℕ → Type 0
IsDoomed i n [] = Unit
IsDoomed i n (p ∷ ps) = (contains p ps ≡ false) × (i ≤ p) × (p < i + n) × IsDoomed i n ps

keep_from_nil : (i : ℕ) (es : List Entry) → keep_from i [] es ≡ es
unfolding keep_from contains
keep_from_nil i [] = refl
keep_from_nil i (e ∷ es) = ap (λ fs. e ∷ fs) (keep_from_nil (i + 1) es)

-- A doomed position before the first entry dooms none.
keep_from_before :
    (i p : ℕ) (ps : List ℕ) (es : List Entry) → p < i → keep_from i (p ∷ ps) es ≡ keep_from i ps es
unfolding keep_from contains
keep_from_before i p ps [] h = refl
keep_from_before i p ps (e ∷ es) h = ground (arith, keep_from_before (i + 1) p ps es (omega arith))

length-keep_from_cons :
    (i p : ℕ) (ps : List ℕ) (es : List Entry)
    → contains p ps ≡ false
    → i ≤ p
    → p < i + length es
    → suc (length (keep_from i (p ∷ ps) es)) ≡ length (keep_from i ps es)
unfolding keep_from contains
length-keep_from_cons i p ps [] f l u = absurd (omega arith)
length-keep_from_cons i p ps (e ∷ es) f l u = elim (Bool-cases (nat_beq i p)) [
  | inl k ↦
      let same : i ≡ p = ground (arith, k) in
      let skipped = keep_from_before (i + 1) p ps es (omega (arith, same)) in
      let fresh : contains i ps ≡ false = ap (λ j. contains j ps) same ∙ f in
      ground (arith, k, fresh, ap length skipped)
  | inr k ↦
      ground (arith, k, length-keep_from_cons (i + 1) p ps es f (ground (arith, k)) (omega arith))
]

length-keep_from :
    (i : ℕ) (ps : List ℕ) (es : List Entry)
    → IsDoomed i (length es) ps
    → length (keep_from i ps es) + length ps ≡ length es
length-keep_from i [] es d = omega (arith, ap length (keep_from_nil i es))
length-keep_from i (p ∷ ps) es (fresh, low, high, rest) =
    omega (arith, length-keep_from i ps es rest, length-keep_from_cons i p ps es fresh low high)

contains-insert_ranked :
    (q : ℕ) (x : ℕ × ℕ) (ys : List (ℕ × ℕ))
    → contains q (positions (insert_ranked x ys)) ≡ (nat_beq q x.0 || contains q (positions ys))
unfolding insert_ranked contains
contains-insert_ranked q x [] = refl
contains-insert_ranked q x (y ∷ ys) = elim (Bool-cases (leb x.1 y.1)) [
  | inl k ↦ rw k refl
  | inr k ↦ rw k (ground (arith, contains-insert_ranked q x ys))
]

insert_ranked-IsDoomed :
    (i n : ℕ) (x : ℕ × ℕ) (ys : List (ℕ × ℕ))
    → contains x.0 (positions ys) ≡ false
    → i ≤ x.0
    → x.0 < i + n
    → IsDoomed i n (positions ys)
    → IsDoomed i n (positions (insert_ranked x ys))
unfolding insert_ranked contains
insert_ranked-IsDoomed i n x [] f l u d = (refl, l, u, tt)
insert_ranked-IsDoomed i n x (y ∷ ys) f l u d = elim (Bool-cases (leb x.1 y.1)) [
  | inl k ↦ rw k (f, l, u, d)
  | inr k ↦ rw k (
    ground (arith, contains-insert_ranked y.0 x ys, f, d.0),
    d.1,
    d.2,
    insert_ranked-IsDoomed i n x ys (ground (arith, f)) l u d.3,
  )
]

-- The ranking, whose positions are counted from one further on.
IsDoomed-widen : (i n : ℕ) (ps : List ℕ) → IsDoomed (i + 1) n ps → IsDoomed i (suc n) ps
IsDoomed-widen i n [] d = tt
IsDoomed-widen i n (p ∷ ps) d =
    (d.0, omega (arith, d.1), omega (arith, d.2), IsDoomed-widen i n ps d.3)

contains_below : (i n q : ℕ) (ps : List ℕ) → q < i → IsDoomed i n ps → contains q ps ≡ false
unfolding contains
contains_below i n q [] h d = refl
contains_below i n q (p ∷ ps) h d = ground (arith, contains_below i n q ps h d.3, d.1)

ranked_from-IsDoomed :
    (i : ℕ) (es : List Entry) → IsDoomed i (length es) (positions (ranked_from i es))
unfolding ranked_from
ranked_from-IsDoomed i [] = tt
ranked_from-IsDoomed i (e ∷ es) =
    let rest = ranked_from-IsDoomed (i + 1) es in
    insert_ranked-IsDoomed i (length (e ∷ es)) (i, e.last_access_seq) (ranked_from (i + 1) es)
      (contains_below (i + 1) (length es) i (positions (ranked_from (i + 1) es)) (omega arith) rest)
      (omega arith) (omega arith)
      (IsDoomed-widen i (length es) (positions (ranked_from (i + 1) es)) rest)

contains-take :
    (q k : ℕ) (xs : List (ℕ × ℕ))
    → contains q (positions xs) ≡ false
    → contains q (positions (take k xs)) ≡ false
unfolding contains
contains-take q zero xs h = refl
contains-take q (suc k) [] h = refl
contains-take q (suc k) (x ∷ xs) h = ground (arith, contains-take q k xs, h)

take-IsDoomed :
    (i n k : ℕ) (xs : List (ℕ × ℕ))
    → IsDoomed i n (positions xs)
    → IsDoomed i n (positions (take k xs))
take-IsDoomed i n zero xs d = tt
take-IsDoomed i n (suc k) [] d = tt
take-IsDoomed i n (suc k) (x ∷ xs) d =
    (contains-take x.0 k xs d.0, d.1, d.2, take-IsDoomed i n k xs d.3)

length-insert_ranked :
    (x : ℕ × ℕ) (ys : List (ℕ × ℕ)) → length (insert_ranked x ys) ≡ suc (length ys)
unfolding insert_ranked
length-insert_ranked x [] = refl
length-insert_ranked x (y ∷ ys) = ground (arith, length-insert_ranked x ys)

length-ranked_from : (i : ℕ) (es : List Entry) → length (ranked_from i es) ≡ length es
unfolding ranked_from
length-ranked_from i [] = refl
length-ranked_from i (e ∷ es) = omega (
  arith,
  length-insert_ranked (i, e.last_access_seq) (ranked_from (i + 1) es),
  length-ranked_from (i + 1) es,
)

length-positions-take :
    (k : ℕ) (xs : List (ℕ × ℕ)) → k ≤ length xs → length (positions (take k xs)) ≡ k
length-positions-take zero xs h = refl
length-positions-take (suc k) [] h = absurd (omega arith)
length-positions-take (suc k) (x ∷ xs) h = omega (arith, length-positions-take k xs (omega arith))

pub length-remove_all :
    (ps : List ℕ) (b : Bucket)
    → IsDoomed 0 (length b.entries) ps
    → length (remove_all ps b).entries + length ps ≡ length b.entries
unfolding remove_all reindex
length-remove_all [] b d = omega arith
length-remove_all (p ∷ ps) b d = length-keep_from 0 (p ∷ ps) b.entries d

-- `trim_to` leaves just as many entries as it is to keep, or all if there are no more.
pub length-trim_to :
    (keep : ℕ) (b : Bucket) → length (trim_to keep b).entries ≡ min (length b.entries) keep
unfolding trim_to
length-trim_to keep b = elim (Bool-cases (leb (length b.entries) keep)) [
  | inl k ↦ rw k (omega (arith, leb_le (length b.entries) keep k))
  | inr k ↦
      let excess : ℕ = length b.entries - keep in
      let ranked : List (ℕ × ℕ) = ranked_from 0 b.entries in
      let gone =
        length-remove_all (positions (take excess ranked)) b
          (take-IsDoomed 0 (length b.entries) excess ranked (ranked_from-IsDoomed 0 b.entries)) in
      let count =
        length-positions-take excess ranked (omega (arith, length-ranked_from 0 b.entries)) in
      rw k (omega (arith, gone, count, not_leb_lt (length b.entries) keep k))
]

pub length-remove_expired :
    (now : Instant) (b : Bucket) → length (remove_expired now b).entries ≤ length b.entries
unfolding remove_expired reindex
length-remove_expired now b =
    let kept : List Entry = filter (λ e. not (is_expired e.cookie now)) b.entries in
    elim (Bool-cases (nat_beq (length kept) (length b.entries))) [
      | inl k ↦ rw k (omega arith)
      | inr k ↦ rw k (length-filter (λ (e : Entry). not (is_expired e.cookie now)) b.entries)
    ]

length-keep_from_le :
    (i : ℕ) (ps : List ℕ) (es : List Entry) → length (keep_from i ps es) ≤ length es
unfolding keep_from
length-keep_from_le i ps [] = omega arith
length-keep_from_le i ps (e ∷ es) = ground (arith, length-keep_from_le (i + 1) ps es)

pub length-remove_all_le :
    (ps : List ℕ) (b : Bucket) → length (remove_all ps b).entries ≤ length b.entries
unfolding remove_all reindex
length-remove_all_le [] b = omega arith
length-remove_all_le (p ∷ ps) b = length-keep_from_le 0 (p ∷ ps) b.entries
