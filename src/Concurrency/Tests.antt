-- ===== src/Concurrency/Tests.antt =====
-- Runs of the adaptive controller's record, and the theorems at concrete records.
use chromulate.Prelude.{
  ℕ, ◌+◌, ◌-◌, ◌*◌, ◌/◌, ◌≤◌, ◌≡◌, refl, true, false, none, some, arith, min, max, ltb,
}
use chromulate.Prelude.Time.{from_secs, from_millis}
use chromulate.Concurrency.Config.{
  Floats, ConcurrencyConfig, default, sanitised, scale, healthy, refused, backpressure,
}
use chromulate.Concurrency.Origin.{
  Origin, new, try_take_slot, abandon_probe, limit_changed, pause_remaining,
}
use chromulate.Concurrency.Feedback.{
  Shared, cooldown, threshold, probe_mean, close_probe, relax_ceiling, consider_increase,
  judge_probe, on_healthy, apply, release,
}
use chromulate.Concurrency.Invariant.{
  IsSane, IsBounded, Reach, Reach-new-IsBounded, here, next, take, finish,
}
use chromulate.Concurrency.Latch.{Rises, release-Rises, Reach-refused}
use chromulate.Concurrency.Backpressure.{release_backpressure}
use chromulate.Concurrency.Cooldown.{cooldown_doubles}

-- Factors as hundredths.
abbrev hundredths : Floats
hundredths = record {
  F = ℕ;
  two = 200;
  baseline_drift = 105;
  above_one = λ f. ltb 100 f;
  times = λ d f. some (d * f / 100);
}

abbrev last_instant : ℕ
last_instant = from_secs 1000000000

abbrev config : ConcurrencyConfig ℕ
config = sanitised hundredths (default hundredths)

abbrev shared : Shared ℕ
shared = record { config = config; ceiling_recovery = none }

-- A forbidden status after one request.
refused_once :
    Reach hundredths last_instant shared (new config) (
      release hundredths last_instant shared 5 5
        (some refused)
        (try_take_slot false (new config)).0)
unfolding new sanitised try_take_slot
refused_once = next (next here (take false _)) (finish 5 5 (some refused) _ (omega arith))

Reach-new-IsBounded_example :
    IsBounded config (
      release hundredths last_instant shared 5 5
        (some refused)
        (try_take_slot false (new config)).0)
Reach-new-IsBounded_example =
    Reach-new-IsBounded hundredths last_instant (default hundredths) none refused_once

-- A record about to end its fourth clean probe, under the default configuration.
ready : Origin
unfolding new sanitised
ready = record (new config) {
  in_flight = 1;
  saturated = true;
  baseline = some (from_millis 20);
  probe_samples = 4;
  probe_total = from_millis 80;
  clean_probes = 3;
}

ready-IsBounded : IsBounded config ready
unfolding ready new sanitised
ready-IsBounded = omega arith

release-Rises_example :
    (some healthy ≡ some healthy)
    × Rises config 9 ready
        (release hundredths last_instant shared 9 (from_millis 20) (some healthy) ready)
    × (config.probe ≤ ready.probe_samples + 1)
unfolding ready new sanitised release apply on_healthy judge_probe consider_increase relax_ceiling
    close_probe probe_mean threshold scale limit_changed abandon_probe
release-Rises_example =
    release-Rises hundredths last_instant shared 9 (from_millis 20) (some healthy) ready
      ready-IsBounded (omega arith)

-- The limit of `ready` rises from one to two.
release-ready :
    (release hundredths last_instant shared 9 (from_millis 20) (some healthy) ready).limit ≡ 2
unfolding ready new sanitised release apply on_healthy judge_probe consider_increase relax_ceiling
    close_probe probe_mean threshold scale limit_changed abandon_probe
release-ready = refl

config-IsSane : IsSane config
unfolding sanitised
config-IsSane = omega arith

grown : Origin
unfolding ready
grown = record ready { limit = 5; refused = true; ceiling = 6 }

grown-IsBounded : IsBounded config grown
unfolding grown ready new sanitised
grown-IsBounded = omega arith

dropped :
    Reach hundredths last_instant shared grown
      (release hundredths last_instant shared 5 5 none grown)
unfolding grown ready new sanitised
dropped = next here (finish 5 5 none grown (omega arith))

Reach-refused_example :
    ((release hundredths last_instant shared 5 5 none grown).refused ≡ true)
    × ((release hundredths last_instant shared 5 5 none grown).limit ≤ grown.limit)
unfolding grown
Reach-refused_example =
    Reach-refused hundredths last_instant config-IsSane grown-IsBounded refl dropped

release_backpressure_example :
    let u = release hundredths last_instant shared 9 5 (some (backpressure (some 7))) grown in
    let pause : ℕ = min 7 shared.config.max_pause in
    (u.limit ≡ max (grown.limit / 2) config.min_limit)
    × (u.ceiling ≡ u.limit)
    × (pause_remaining 9 u ≤ pause)
    × (9 + pause ≤ last_instant → pause_remaining 9 u ≡ pause)
    × (u.in_flight ≡ grown.in_flight - 1)
release_backpressure_example =
    release_backpressure hundredths last_instant shared 9 5 (some 7) grown grown-IsBounded

cooldown_doubles_example : cooldown config (3 + 1) ≡ min (2 * cooldown config 3) config.max_cooldown
unfolding sanitised
cooldown_doubles_example = cooldown_doubles config 3 (omega arith) (omega arith) (omega arith)

-- The third refusal pauses for twenty seconds.
cooldown_third : cooldown config 3 ≡ from_secs 20
unfolding cooldown sanitised
cooldown_third = refl
