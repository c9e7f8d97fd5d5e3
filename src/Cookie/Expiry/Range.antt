-- ===== src/Cookie/Expiry/Range.antt =====
-- `parse_cookie_date` of crates/chromulate-cookie/src/date.rs adds to and subtracts from the epoch
-- without a check; no date that it accepts leaves what the platform's clock can represent.
use chromulate.Prelude.{
  ℕ, ◌+◌, ◌-◌, ◌*◌, ◌/◌, ◌%◌, ◌≤◌, some, ◌≡◌, inl, inr, arith, leb, Bool-cases,
}
use chromulate.Prelude.Time.{Instant, from_secs}
use chromulate.Cache.Date.{Platform, epoch_days, days_from_civil}
use chromulate.Cookie.Expiry.{epoch_seconds_to_system_time, since_epoch}

-- The days before a year that starts in March.
abbrev years_days : ℕ → ℕ
years_days y =
    y / 400 * 146097
    + ((y - y / 400 * 400) * 365 + (y - y / 400 * 400) / 4 - (y - y / 400 * 400) / 100)

years_days_low : (y : ℕ) → 1600 ≤ y → 584388 ≤ years_days y
years_days_low y h = omega arith

years_days_low_1601 : (y : ℕ) → 1601 ≤ y → 584753 ≤ years_days y
years_days_low_1601 y h = omega arith

years_days_high : (y : ℕ) → y ≤ 9999 → years_days y ≤ 3652059
years_days_high y h = omega arith

years_days_high_9998 : (y : ℕ) → y ≤ 9998 → years_days y ≤ 3651694
years_days_high_9998 y h = omega arith

abbrev year_days : ℕ → ℕ → ℕ
year_days month day = (153 * ((month + 9) % 12) + 2) / 5 + day - 1

year_days_winter :
    (month day : ℕ)
    → 1 ≤ month
    → month ≤ 2
    → 1 ≤ day
    → day ≤ 31
    → (306 ≤ year_days month day) × (year_days month day ≤ 367)
year_days_winter month day a b c d = omega arith

year_days_rest : (month day : ℕ) → 3 ≤ month → month ≤ 12 → day ≤ 31 → year_days month day ≤ 305
year_days_rest month day a b c = omega arith

pub days_from_civil_bounds :
    (year month day : ℕ)
    → 1601 ≤ year
    → year ≤ 9999
    → 1 ≤ month
    → month ≤ 12
    → 1 ≤ day
    → day ≤ 31
    → (584694 ≤ days_from_civil year month day) × (days_from_civil year month day ≤ 3652364)
unfolding days_from_civil
days_from_civil_bounds year month day a b c d e f = elim (Bool-cases (leb month 2)) [
  | inl h ↦
      let w = year_days_winter month day c (ground (arith, h)) e f in
      rw h (
        omega (
          arith,
          years_days_low (year - 1) (omega arith),
          years_days_high_9998 (year - 1) (omega arith),
          w.0,
          w.1,
        ))
  | inr h ↦
      let r = year_days_rest month day (ground (arith, h)) d f in
      rw h (omega (arith, years_days_low_1601 year a, years_days_high year b, r))
]

-- Seconds between the starts of the years 1601 and 10000 are a time of the clock's.
pub since_epoch-fits :
    (p : Platform) (seconds : ℕ)
    → 584694 * 86400 ≤ seconds
    → seconds ≤ 3652365 * 86400
    → (t : Instant) × (epoch_seconds_to_system_time p (since_epoch seconds) ≡ some t)
unfolding epoch_seconds_to_system_time since_epoch
since_epoch-fits p seconds lo hi = elim (Bool-cases (leb (epoch_days * 86400) seconds)) [
  | inl h ↦
      (p.epoch + from_secs (seconds - epoch_days * 86400), rw h (ground (arith, p.holds_9999)))
  | inr h ↦
      (p.epoch - from_secs (epoch_days * 86400 - seconds), rw h (ground (arith, p.holds_1601)))
]
