-- ===== src/Cache/Date/Calendar.antt =====
-- `days_from_civil` counts days as the Gregorian calendar does, for date.rs of chromulate-cache.
use chromulate.Prelude.{
  ℕ, ◌+◌, ◌%◌, ◌≤◌, ◌<◌, ◌≡◌, refl, Bool, false, not, ◌&&◌, ◌||◌, ltb, nat_beq, if◌then◌else◌,
  arith, Bool-cases, inl, inr, sym, subst,
}
use native.Mathlib.Decide.{ℕ_discrete}
use chromulate.Cache.Date.{days_from_civil, epoch_days}

-- The calendar's own rules.
abbrev pub is_leap : ℕ → Bool
is_leap y = nat_beq (y % 4) 0 && (not (nat_beq (y % 100) 0) || nat_beq (y % 400) 0)

abbrev pub month_length : ℕ → ℕ → ℕ
month_length y m =
    if nat_beq m 2
    then (if is_leap y then 29 else 28)
    else if nat_beq m 4 || nat_beq m 6 || nat_beq m 9 || nat_beq m 11
    then 30
    else 31

abbrev pub next_month : ℕ → ℕ → ℕ × ℕ
next_month y m = if nat_beq m 12 then (y + 1, 1) else (y, m + 1)

same_month : (y m d : ℕ) → 1 ≤ d → days_from_civil y m (d + 1) ≡ days_from_civil y m d + 1
unfolding days_from_civil
same_month y m d h = omega arith

-- The first of the next month is a month's length after the first of the month.
abbrev MonthStep : ℕ → ℕ → Type 0
MonthStep y m =
    days_from_civil (next_month y m).0 (next_month y m).1 1
    ≡ days_from_civil y m 1 + month_length y m

february : (y : ℕ) → 1 ≤ y → MonthStep y 2
unfolding days_from_civil
february y h = ground arith

december : (y : ℕ) → 1 ≤ y → MonthStep y 12
unfolding days_from_civil
december y h = ground arith

january : (y : ℕ) → 1 ≤ y → MonthStep y 1
unfolding days_from_civil
january y h = omega arith

later_month : (y m : ℕ) → 3 ≤ m → m < 12 → MonthStep y m
unfolding days_from_civil
later_month y m h k = ground arith

month_step : (y m : ℕ) → 1 ≤ y → 1 ≤ m → m ≤ 12 → MonthStep y m
month_step y m h j k = elim (ℕ_discrete m 1) [
  | yes e ↦ subst (MonthStep y) (sym e) (january y h)
  | no a ↦ elim (ℕ_discrete m 2) [
    | yes e ↦ subst (MonthStep y) (sym e) (february y h)
    | no b ↦ elim (ℕ_discrete m 12) [
      | yes e ↦ subst (MonthStep y) (sym e) (december y h)
      | no c ↦ later_month y m (omega arith) (omega arith)
    ]
  ]
]

last_of : (n d : ℕ) → d ≤ n → ltb d n ≡ false → d ≡ n
last_of n d h e = ground arith

pub record Date : Type 0 where
  pub year : ℕ
  pub month : ℕ
  pub day : ℕ

abbrev pub next_day : Date → Date
next_day t =
    if ltb t.day (month_length t.year t.month) then record t { day = t.day + 1 } else record {
      year = (next_month t.year t.month).0;
      month = (next_month t.year t.month).1;
      day = 1;
    }

pub record IsDate (t : Date) : Type 0 where
  pub year_pos : 1 ≤ t.year
  pub month_pos : 1 ≤ t.month
  pub month_le : t.month ≤ 12
  pub day_pos : 1 ≤ t.day
  pub day_le : t.day ≤ month_length t.year t.month

abbrev pub number_of : Date → ℕ
number_of t = days_from_civil t.year t.month t.day

from_first : (y m d : ℕ) → 1 ≤ d → days_from_civil y m d + 1 ≡ days_from_civil y m 1 + d
unfolding days_from_civil
from_first y m d h = omega arith

-- The day after a date of the Gregorian calendar, by the lengths of its months and its rule for
-- leap years, has the next number, at the end of every month, year, century and era; and the epoch
-- has the number that is taken off.
pub number_of-next_day :
    (t : Date)
    → IsDate t
    → (number_of (next_day t) ≡ number_of t + 1) × (days_from_civil 1970 1 1 ≡ epoch_days)
number_of-next_day t v = (
  elim (Bool-cases (ltb t.day (month_length t.year t.month))) [
    | inl e ↦ rw e (same_month t.year t.month t.day v.day_pos)
    | inr e ↦ rw e (
        omega (
          arith,
          month_step t.year t.month v.year_pos v.month_pos v.month_le,
          from_first t.year t.month t.day v.day_pos,
          last_of (month_length t.year t.month) t.day v.day_le e,
        ))
  ],
  unfold days_from_civil in refl,
)
