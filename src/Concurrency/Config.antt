-- ===== src/Concurrency/Config.antt =====
-- crates/chromulate-concurrency/src/adaptive.rs: `ConcurrencyConfig`, `Signal`, `scale`.
use chromulate.Prelude.{
  ℕ, ◌-◌, ◌/◌, min, max, Bool, Option, none, ◌&&◌, nat_beq, leb, ltb, if◌then◌else◌, unwrap_or,
}
use chromulate.Prelude.Time.{Duration, duration_max, from_secs, from_millis}

-- What the source does with `f64`: the type, the two literals, the test
-- `is_finite() && > 1.0`, and `Duration::try_from_secs_f64(d.as_secs_f64() * factor)`.
pub record Floats : Type 1 where
  pub F : Type 0
  pub two : F
  pub baseline_drift : F
  pub above_one : F → Bool
  pub times : ℕ → F → Option ℕ

pub record ConcurrencyConfig (F : Type 0) : Type 0 where
  pub min_limit : ℕ
  pub max_limit : ℕ
  pub probe : ℕ
  pub clean_probes_before_increase : ℕ
  pub degradation : F
  pub hold : Duration
  pub cooldown : Duration
  pub max_cooldown : Duration
  pub max_pause : Duration
  pub capacity : ℕ

abbrev pub default_origin_capacity : ℕ
default_origin_capacity = 4096

abbrev pub degradation_floor : Duration
degradation_floor = from_millis 5

-- `impl Default for ConcurrencyConfig`.
abbrev pub default : (fl : Floats) → ConcurrencyConfig fl.F
default fl = record {
  min_limit = 1;
  max_limit = 6;
  probe = 5;
  clean_probes_before_increase = 4;
  degradation = fl.two;
  hold = from_secs 30;
  cooldown = from_secs 5;
  max_cooldown = from_secs 300;
  max_pause = from_secs 3600;
  capacity = default_origin_capacity;
}

unfoldable pub sanitised : (fl : Floats) → ConcurrencyConfig fl.F → ConcurrencyConfig fl.F
sanitised fl c =
    let lo : ℕ = max c.min_limit 1 in
    record {
      min_limit = lo;
      max_limit = max c.max_limit lo;
      probe = max c.probe 1;
      clean_probes_before_increase = max c.clean_probes_before_increase 1;
      degradation = if fl.above_one c.degradation then c.degradation else fl.two;
      hold = c.hold;
      cooldown = c.cooldown;
      max_cooldown = max c.max_cooldown c.cooldown;
      max_pause = min c.max_pause (from_secs 86400);
      capacity = max c.capacity 1;
    }

module _ {F : Type 0} where
  unfoldable pub purge_batch : ConcurrencyConfig F → ℕ
  purge_batch c = max (c.capacity / 16) 1

  unfoldable pub purge_target : ConcurrencyConfig F → ℕ
  unfolding purge_batch
  purge_target c = max (c.capacity - purge_batch c) 1

-- `scale`: a product that no `Duration` holds becomes `Duration::MAX`.
unfoldable pub scale : (fl : Floats) → Duration → fl.F → Duration
scale fl d factor = unwrap_or (fl.times d factor) duration_max

pub data Signal : Type 0 where
  healthy neutral refused failed : Signal
  backpressure : Option Duration → Signal

-- `Signal::from_status`; `is_server_error` is a status from 500 to 599.
unfoldable pub from_status : ℕ → Signal
from_status s =
    if nat_beq s 403
    then refused
    else if nat_beq s 429
    then backpressure none
    else if nat_beq s 503
    then backpressure none
    else if leb 500 s && ltb s 600
    then neutral
    else healthy

-- `Signal::from_response` and `complete_from`: the header's delay replaces the `None` of a refusal.
unfoldable pub from_response : ℕ → Option Duration → Signal
unfolding from_status
from_response s after = elim (from_status s) [
  | backpressure _ ↦ backpressure after
  | healthy ↦ healthy
  | neutral ↦ neutral
  | refused ↦ refused
  | failed ↦ failed
]
