-- ===== src/Prelude/Text.antt =====
-- `str` as the list of its bytes. The source's white space, case and digit tests are the ASCII
-- ones here, which are its own on the header values that the program splits (`to_str` gives ASCII).
use Prim.Native.Nat.{ℕ, ◌+◌, ◌-◌, ◌*◌, ◌^◌}
use Prim.Native.Char.{code}
use Prim.Native.String.{String}
use mathlib.Core.Path.{◌≡◌, refl, sym, ap, ◌≡⟨◌⟩◌, ◌∎}
use mathlib.Core.Logic.{◌↔◌, inl, inr}
use mathlib.Core.Bool.{Bool, true, false, ◌&&◌, ◌||◌, not}
use mathlib.Core.List.{List, [], ◌∷◌, ◌++◌, map, reverse, reverse-append, reverse-reverse}
use mathlib.Core.Option.{Option, none, some}
use native.Mathlib.Omega.{arith}
use chromulate.Prelude.Lists.{filter}
use chromulate.Prelude.Tests.{nat_beq, leb, if◌then◌else◌, Comparable, Option-cases}

abbrev pub Text : Type 0
Text = List ℕ

-- The bytes of an ASCII literal.
abbrev pub ascii : String → Text
ascii String.[] = []
ascii (String.◌∷◌ c s) = code c ∷ ascii s

abbrev pub text_beq : Text → Text → Bool
text_beq [] [] = true
text_beq [] (y ∷ ys) = false
text_beq (x ∷ xs) [] = false
text_beq (x ∷ xs) (y ∷ ys) = nat_beq x y && text_beq xs ys

pub text_beq_iff : (s t : Text) → (text_beq s t ≡ true) ↔ (s ≡ t)
text_beq_iff [] [] = ground arith
text_beq_iff [] (y ∷ ys) = ground arith
text_beq_iff (x ∷ xs) [] = ground arith
text_beq_iff (x ∷ xs) (y ∷ ys) = ground (arith, text_beq_iff xs ys)

instance abbrev pub text_comparable : Comparable Text
text_comparable = record { same = text_beq; same_iff = text_beq_iff }

unfoldable pub option_text_beq : Option Text → Option Text → Bool
option_text_beq none none = true
option_text_beq none (some t) = false
option_text_beq (some s) none = false
option_text_beq (some s) (some t) = text_beq s t

pub option_text_beq_iff : (s t : Option Text) → (option_text_beq s t ≡ true) ↔ (s ≡ t)
unfolding option_text_beq
option_text_beq_iff none none = ground arith
option_text_beq_iff none (some t) = ground arith
option_text_beq_iff (some s) none = ground arith
option_text_beq_iff (some s) (some t) = ground (arith, text_beq_iff s t)

-- `strip_prefix`; `starts_with` is that it finds one.
unfoldable pub strip_prefix : Text → Text → Option Text
strip_prefix [] s = some s
strip_prefix (p ∷ ps) [] = none
strip_prefix (p ∷ ps) (c ∷ s) = if nat_beq p c then strip_prefix ps s else none

unfoldable pub strip_suffix : Text → Text → Option Text
unfolding strip_prefix
strip_suffix suffix s = elim (strip_prefix (reverse suffix) (reverse s)) [
  | none ↦ none
  | some r ↦ some (reverse r)
]

-- `split` at a byte: one piece more than there are separators.
unfoldable pub split : ℕ → Text → List Text
split sep [] = [] ∷ []
split sep (c ∷ s) =
    if nat_beq c sep
    then [] ∷ split sep s
    else (elim (split sep s) [ [] ↦ (c ∷ []) ∷ [] | piece ∷ rest ↦ (c ∷ piece) ∷ rest ])

-- `split_once` at a byte.
unfoldable pub split_once : ℕ → Text → Option (Text × Text)
split_once sep [] = none
split_once sep (c ∷ s) =
    if nat_beq c sep
    then some ([], s)
    else (elim (split_once sep s) [ none ↦ none | some (a, b) ↦ some (c ∷ a, b) ])

unfoldable pub is_space : ℕ → Bool
is_space c = nat_beq c 32 || (leb 9 c && leb c 13)

unfoldable pub trim_start : Text → Text
unfolding is_space
trim_start [] = []
trim_start (c ∷ s) = if is_space c then trim_start s else c ∷ s

unfoldable pub trim : Text → Text
unfolding trim_start
trim s = reverse (trim_start (reverse (trim_start s)))

unfoldable pub lower : ℕ → ℕ
lower c = if leb 65 c && leb c 90 then c + 32 else c

unfoldable pub to_ascii_lowercase : Text → Text
unfolding lower
to_ascii_lowercase s = map lower s

unfoldable pub eq_ignore_ascii_case : Text → Text → Bool
unfolding to_ascii_lowercase
eq_ignore_ascii_case s t = text_beq (to_ascii_lowercase s) (to_ascii_lowercase t)

unfoldable pub is_digit : ℕ → Bool
is_digit c = leb 48 c && leb c 57

unfoldable pub all_digits : Text → Bool
unfolding is_digit
all_digits [] = true
all_digits (c ∷ s) = is_digit c && all_digits s

-- The number that digits spell, behind those read so far.
unfoldable pub digits_value : ℕ → Text → ℕ
digits_value acc [] = acc
digits_value acc (c ∷ s) = digits_value (acc * 10 + (c - 48)) s

abbrev pub u64_max : ℕ
u64_max = 2 ^ 64 - 1

unfoldable pub is_nil : Text → Bool
is_nil [] = true
is_nil (c ∷ s) = false

-- `str::parse::<u64>()`: digits behind an optional `+`, in range.
unfoldable pub parse_digits : Text → Option ℕ
unfolding all_digits digits_value is_nil
parse_digits s =
    if not (is_nil s) && all_digits s && leb (digits_value 0 s) u64_max
    then some (digits_value 0 s)
    else none

unfoldable pub parse_u64 : Text → Option ℕ
unfolding parse_digits
parse_u64 [] = none
parse_u64 (c ∷ s) = if nat_beq c b'+' then parse_digits s else parse_digits (c ∷ s)

-- `split` at the bytes that a test accepts, and its pieces that are not empty.
unfoldable pub split_by : (ℕ → Bool) → Text → List Text
split_by sep [] = [] ∷ []
split_by sep (c ∷ s) =
    if sep c
    then [] ∷ split_by sep s
    else (elim (split_by sep s) [ [] ↦ (c ∷ []) ∷ [] | piece ∷ rest ↦ (c ∷ piece) ∷ rest ])

unfoldable pub pieces : (ℕ → Bool) → Text → List Text
unfolding split_by is_nil
pieces sep s = filter (λ t. not (is_nil t)) (split_by sep s)

-- What is behind a prefix, and before a suffix.
pub strip_prefix-append : (p r : Text) → strip_prefix p (p ++ r) ≡ some r
unfolding strip_prefix
strip_prefix-append [] r = refl
strip_prefix-append (c ∷ p) r = ground (arith, strip_prefix-append p r)

pub append-strip_prefix : (p s r : Text) → strip_prefix p s ≡ some r → s ≡ p ++ r
unfolding strip_prefix
append-strip_prefix [] s r h = ground (arith, h)
append-strip_prefix (c ∷ p) [] r h = absurd (ground (arith, h))
append-strip_prefix (c ∷ p) (d ∷ s) r h = ground (arith, h, append-strip_prefix p s r)

pub strip_suffix-append : (p r s : Text) → s ≡ r ++ p → strip_suffix p s ≡ some r
unfolding strip_suffix
strip_suffix-append p r s e =
    let turned : strip_prefix (reverse p) (reverse s) ≡ some (reverse r) =
      rw (e, reverse-append r p) (strip_prefix-append (reverse p) (reverse r)) in
    rw (turned, strip_suffix) (ap some (reverse-reverse r))

pub append-strip_suffix : (p s r : Text) → strip_suffix p s ≡ some r → s ≡ r ++ p
unfolding strip_suffix
append-strip_suffix p s r h = elim (Option-cases (strip_prefix (reverse p) (reverse s))) [
  | inl e ↦ absurd (ground (arith, h, e))
  | inr (t, e) ↦
      let same : reverse t ≡ r = ground (arith, h, e) in
      s
      ≡⟨ sym (reverse-reverse s) ⟩ reverse (reverse s)
      ≡⟨ ap reverse (append-strip_prefix (reverse p) (reverse s) t e) ⟩ reverse (reverse p ++ t)
      ≡⟨ reverse-append (reverse p) t ⟩ reverse t ++ reverse (reverse p)
      ≡⟨ rw (same, reverse-reverse p) refl ⟩ r ++ p ∎
]
