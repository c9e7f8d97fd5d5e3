-- ===== src/Cookie/Jar/Serving/Order.antt =====
-- What `cookies_for` of crates/chromulate-cookie/src/jar.rs sends, and in which order.
use chromulate.Prelude.{
  ◌≤◌, ◌<◌, true, false, List, [], ◌∷◌, ◌≡◌, ◌⊎◌, inl, inr, arith, nat_beq, length, filter, All,
  Bool-cases,
}
use mathlib.Core.List.{Perm}
use mathlib.Core.List.Perm
use chromulate.Cookie.Domain.{Suffixes}
use chromulate.Cookie.Parsing.{Request}
use chromulate.Cookie.Bucket.{Entry, Bucket}
use chromulate.Cookie.Jar.Serving.{CookieContext, is_match, before, insert_sorted, sort, matches_in}

-- Longer paths first, and of equals the one created first.
abbrev pub Precedes : Entry → Entry → Type 0
Precedes e f =
    (length f.cookie.path < length e.cookie.path)
    ⊎ ((length f.cookie.path ≡ length e.cookie.path) × (e.creation_seq ≤ f.creation_seq))

abbrev pub IsOrdered : List Entry → Type 0
IsOrdered [] = Unit
IsOrdered (e ∷ es) = All (Precedes e) es × IsOrdered es

before-Precedes : (e f : Entry) → before e f ≡ true → Precedes e f
unfolding before
before-Precedes e f h = elim (Bool-cases (nat_beq (length f.cookie.path) (length e.cookie.path))) [
  | inl k ↦ inr (ground (arith, k), ground (arith, h, k))
  | inr k ↦ inl (ground (arith, h, k))
]

not_before-Precedes : (e f : Entry) → before e f ≡ false → Precedes f e
unfolding before
not_before-Precedes e f h =
    elim (Bool-cases (nat_beq (length f.cookie.path) (length e.cookie.path))) [
      | inl k ↦ inr (ground (arith, k), ground (arith, h, k))
      | inr k ↦ inl (ground (arith, h, k))
    ]

Precedes-trans : (e f g : Entry) → Precedes e f → Precedes f g → Precedes e g
Precedes-trans e f g (inl a) (inl b) = inl (omega arith)
Precedes-trans e f g (inl a) (inr b) = inl (omega (arith, b.0))
Precedes-trans e f g (inr a) (inl b) = inl (omega (arith, a.0))
Precedes-trans e f g (inr a) (inr b) = inr (omega (arith, a.0, b.0), omega (arith, a.1, b.1))

All-Precedes_trans :
    (e f : Entry) (es : List Entry) → Precedes e f → All (Precedes f) es → All (Precedes e) es
All-Precedes_trans e f [] h a = tt
All-Precedes_trans e f (g ∷ es) h a = (Precedes-trans e f g h a.0, All-Precedes_trans e f es h a.1)

All-insert_sorted :
    (P : Entry → Type 0) (e : Entry) (es : List Entry) → P e → All P es → All P (insert_sorted e es)
unfolding insert_sorted
All-insert_sorted P e [] h a = (h, tt)
All-insert_sorted P e (f ∷ es) h a = elim (Bool-cases (before e f)) [
  | inl k ↦ rw k (h, a)
  | inr k ↦ rw k (a.0, All-insert_sorted P e es h a.1)
]

insert_sorted-IsOrdered :
    (e : Entry) (es : List Entry) → IsOrdered es → IsOrdered (insert_sorted e es)
unfolding insert_sorted
insert_sorted-IsOrdered e [] o = (tt, tt)
insert_sorted-IsOrdered e (f ∷ es) o = elim (Bool-cases (before e f)) [
  | inl k ↦
      let first = before-Precedes e f k in rw k ((first, All-Precedes_trans e f es first o.0), o)
  | inr k ↦ rw k (
    All-insert_sorted (Precedes f) e es (not_before-Precedes e f k) o.0,
    insert_sorted-IsOrdered e es o.1,
  )
]

insert_sorted-Perm : (e : Entry) (es : List Entry) → Perm (insert_sorted e es) (e ∷ es)
unfolding insert_sorted
insert_sorted-Perm e [] = Perm.refl (e ∷ [])
insert_sorted-Perm e (f ∷ es) = elim (Bool-cases (before e f)) [
  | inl k ↦ rw k (Perm.refl (e ∷ f ∷ es))
  | inr k ↦ rw k (Perm.trans (Perm.cons f (insert_sorted-Perm e es)) (Perm.swap e f es))
]

sort-IsOrdered : (es : List Entry) → IsOrdered (sort es)
unfolding sort
sort-IsOrdered [] = tt
sort-IsOrdered (e ∷ es) = insert_sorted-IsOrdered e (sort es) (sort-IsOrdered es)

sort-Perm : (es : List Entry) → Perm (sort es) es
unfolding sort
sort-Perm [] = Perm.refl []
sort-Perm (e ∷ es) = Perm.trans (insert_sorted-Perm e (sort es)) (Perm.cons e (sort-Perm es))

-- The matches of a bucket, in order, each as often as it stands there.
pub matches_in-IsOrdered :
    (ps : Suffixes) (request : Request) (context : CookieContext) (b : Bucket)
    → IsOrdered (matches_in ps request context b)
      × Perm (matches_in ps request context b) (filter (is_match ps request context) b.entries)
unfolding matches_in
matches_in-IsOrdered ps request context b = (
  sort-IsOrdered (filter (is_match ps request context) b.entries),
  sort-Perm (filter (is_match ps request context) b.entries),
)
