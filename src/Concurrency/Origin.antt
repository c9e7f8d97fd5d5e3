-- ===== src/Concurrency/Origin.antt =====
-- crates/chromulate-concurrency/src/adaptive.rs: `Origin` and `OriginState::try_take_slot`.
-- A lock guards each record, so an operation is a function on it.
use chromulate.Prelude.{
  ℕ, ◌+◌, ◌-◌, Bool, true, false, Option, none, some, ◌||◌, ltb, if◌then◌else◌,
}
use chromulate.Prelude.Time.{Duration, Instant}
use chromulate.Concurrency.Config.{ConcurrencyConfig}

pub record Origin : Type 0 where
  pub limit : ℕ
  pub in_flight : ℕ
  pub ceiling : ℕ
  pub baseline : Option Duration
  pub probe_total : Duration
  pub probe_samples : ℕ
  pub clean_probes : ℕ
  pub saturated : Bool
  pub refused : Bool
  pub refusals : ℕ
  pub retry_after_requested : Option Duration
  pub resume_at : Option Instant
  pub hold_until : Option Instant
  pub ceiling_since : Option Instant

module _ {F : Type 0} where
  unfoldable pub new : ConcurrencyConfig F → Origin
  new config = record {
    limit = config.min_limit;
    in_flight = 0;
    ceiling = config.max_limit;
    baseline = none;
    probe_total = 0;
    probe_samples = 0;
    clean_probes = 0;
    saturated = false;
    refused = false;
    refusals = 0;
    retry_after_requested = none;
    resume_at = none;
    hold_until = none;
    ceiling_since = none;
  }

  unfoldable pub has_lesson : ConcurrencyConfig F → Origin → Bool
  has_lesson config o = o.refused || ltb o.ceiling config.max_limit

unfoldable pub abandon_probe : Origin → Origin
abandon_probe o = record o { probe_total = 0; probe_samples = 0; clean_probes = 0 }

unfoldable pub limit_changed : Origin → Origin
unfolding abandon_probe
limit_changed o = record (abandon_probe o) { saturated = false }

-- `pause_remaining`: `saturating_duration_since` of the instant at which requests resume.
unfoldable pub pause_remaining : Instant → Origin → Duration
pause_remaining now o = elim o.resume_at [ none ↦ 0 | some at ↦ at - now ]

-- The new record, and whether a slot was taken.
unfoldable pub try_take_slot : Bool → Origin → Origin × Bool
try_take_slot waited o =
    if ltb o.in_flight o.limit
    then (record o { in_flight = o.in_flight + 1; saturated = waited || o.saturated }, true)
    else (o, false)
