-- ===== src/Prelude/Int.antt =====
-- Signed integers as the source reads them from text and keeps them in records.
use Prim.Native.Nat.{ℕ, zero, suc, ◌-◌, ◌^◌}
use mathlib.Core.Bool.{not, ◌&&◌}
use mathlib.Core.Option.{Option, none, some}
use mathlib.Core.List.{[], ◌∷◌}
use chromulate.Prelude.Tests.{nat_beq, leb, if◌then◌else◌}
use chromulate.Prelude.Text.{Text, all_digits, digits_value, is_nil}

-- `negsuc n` is -(n + 1).
pub data ℤ : Type 0 where
  pos : ℕ → ℤ
  negsuc : ℕ → ℤ

abbrev pub negated : ℕ → ℤ
negated zero = pos 0
negated (suc n) = negsuc n

-- Digits for a number that is at most `most`.
unfoldable pub digits_within : ℕ → Text → Option ℕ
unfolding all_digits digits_value is_nil
digits_within most s =
    if not (is_nil s) && all_digits s && leb (digits_value 0 s) most
    then some (digits_value 0 s)
    else none

-- `str::parse::<i64>()`.
unfoldable pub parse_i64 : Text → Option ℤ
unfolding digits_within
parse_i64 [] = none
parse_i64 (c ∷ s) =
    if nat_beq c b'-'
    then (elim (digits_within (2 ^ 63) s) [ none ↦ none | some n ↦ some (negated n) ])
    else (elim (digits_within (2 ^ 63 - 1) (if nat_beq c b'+' then s else c ∷ s)) [
      | none ↦ none
      | some n ↦ some (pos n)
    ])
