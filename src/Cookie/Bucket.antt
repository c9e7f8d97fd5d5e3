-- ===== src/Cookie/Bucket.antt =====
-- `Bucket` of crates/chromulate-cookie/src/jar.rs: the cookies of one site, with an index from a
-- cookie's identity to its position. What panics on a position out of range is `none`.
pub mod Positions
pub mod Index
pub mod Reads
pub mod Bulk
pub mod Trimmed
use chromulate.Prelude.{
  ℕ, zero, suc, ◌+◌, ◌-◌, Bool, true, false, not, ◌&&◌, ◌||◌, Option, none, some, List, [], ◌∷◌,
  ◌++◌, ◌≡◌, ◌↔◌, arith, ltb, leb, nat_beq, if◌then◌else◌, length, filter, take, get_elem?, set,
  drop_last, Comparable, ◌==◌,
}
use chromulate.Prelude.Time.{Instant}
use chromulate.Prelude.Text.{Text, text_beq, text_beq_iff}
use chromulate.Prelude.Assoc.{lookup, insert, remove}
use chromulate.Cookie.Parsing.{Cookie, is_expired}

pub record Entry : Type 0 where
  pub cookie : Cookie
  pub creation_seq : ℕ
  pub last_access_seq : ℕ

abbrev pub Identity : Type 0
Identity = Text × Text × Text

abbrev pub identity_of : Cookie → Identity
identity_of c = (c.name, c.domain, c.path)

abbrev pub identity_beq : Identity → Identity → Bool
identity_beq (n, d, p) (n', d', p') = text_beq n n' && (text_beq d d' && text_beq p p')

pub identity_beq_iff : (a b : Identity) → (identity_beq a b ≡ true) ↔ (a ≡ b)
identity_beq_iff (n, d, p) (n', d', p') =
    ground (arith, text_beq_iff n n', text_beq_iff d d', text_beq_iff p p')

instance abbrev pub identity_comparable : Comparable Identity
identity_comparable = record { same = identity_beq; same_iff = identity_beq_iff }

pub record Bucket : Type 0 where
  pub entries : List Entry
  pub index : List (Identity × ℕ)

abbrev pub empty : Bucket
empty = record { entries = []; index = [] }

unfoldable pub position_of : Identity → Bucket → Option ℕ
position_of id b = lookup id b.index

unfoldable pub push : Entry → Bucket → Bucket
push e b = record {
  index = insert (identity_of e.cookie) (length b.entries) b.index;
  entries = b.entries ++ e ∷ [];
}

unfoldable pub replace : ℕ → Entry → Bucket → Option Bucket
replace position e b =
    if ltb position (length b.entries)
    then some (record b { entries = set b.entries position e })
    else none

abbrev pub last_index : {A : Type 0} → List A → ℕ
last_index xs = length xs - 1

-- `Vec::swap_remove`: the last element takes the place of the one removed.
unfoldable pub swap_remove : {A : Type 0} → ℕ → List A → Option (A × List A)
swap_remove i xs = elim (get_elem? xs i) [
  | none ↦ none
  | some removed ↦ elim (get_elem? xs (last_index xs)) [
    | none ↦ none
    | some last ↦ some (removed, drop_last (set xs i last))
  ]
]

-- `Bucket::remove`.
unfoldable pub remove_at : ℕ → Bucket → Option Bucket
unfolding swap_remove
remove_at position b = elim (swap_remove position b.entries) [
  | none ↦ none
  | some (removed, entries) ↦
      let index : List (Identity × ℕ) = remove (identity_of removed.cookie) b.index in
      some (record {
        entries = entries;
        index = elim (get_elem? entries position) [
          | none ↦ index
          | some moved ↦ insert (identity_of moved.cookie) position index
        ];
      })
]

-- `reindex`, over the entries from a position on.
unfoldable pub reindex_from : ℕ → List Entry → List (Identity × ℕ) → List (Identity × ℕ)
reindex_from position [] index = index
reindex_from position (e ∷ es) index =
    reindex_from (position + 1) es (insert (identity_of e.cookie) position index)

unfoldable pub reindex : List Entry → Bucket
reindex entries = record { entries = entries; index = reindex_from 0 entries [] }

unfoldable pub remove_expired : Instant → Bucket → Bucket
remove_expired now b =
    let kept : List Entry = filter (λ e. not (is_expired e.cookie now)) b.entries in
    if nat_beq (length kept) (length b.entries) then b else reindex kept

unfoldable pub contains : ℕ → List ℕ → Bool
contains i [] = false
contains i (p ∷ ps) = nat_beq i p || contains i ps

-- The entries whose positions, counted from one on, are not doomed.
unfoldable pub keep_from : ℕ → List ℕ → List Entry → List Entry
unfolding contains
keep_from i doomed [] = []
keep_from i doomed (e ∷ es) =
    let rest : List Entry = keep_from (i + 1) doomed es in
    if contains i doomed then rest else e ∷ rest

unfoldable pub remove_all : List ℕ → Bucket → Bucket
remove_all [] b = b
remove_all (p ∷ ps) b = reindex (keep_from 0 (p ∷ ps) b.entries)

-- The positions by how long ago they were accessed, longest first. `select_nth_unstable_by_key`
-- leaves the order of equals open; here they stay in theirs.
unfoldable pub insert_ranked : ℕ × ℕ → List (ℕ × ℕ) → List (ℕ × ℕ)
insert_ranked x [] = x ∷ []
insert_ranked x (y ∷ ys) = if leb x.1 y.1 then x ∷ y ∷ ys else y ∷ insert_ranked x ys

unfoldable pub ranked_from : ℕ → List Entry → List (ℕ × ℕ)
unfolding insert_ranked
ranked_from i [] = []
ranked_from i (e ∷ es) = insert_ranked (i, e.last_access_seq) (ranked_from (i + 1) es)

abbrev pub positions : List (ℕ × ℕ) → List ℕ
positions [] = []
positions ((i, a) ∷ xs) = i ∷ positions xs

unfoldable pub trim_to : ℕ → Bucket → Bucket
trim_to keep b =
    if leb (length b.entries) keep
    then b
    else remove_all (positions (take (length b.entries - keep) (ranked_from 0 b.entries))) b
