-- ===== src/Concurrency/Feedback.antt =====
-- crates/chromulate-concurrency/src/adaptive.rs: `release`, `apply`, `healthy`, `refuse`,
-- `relax_ceiling`, `cooldown`, `deadline`.
use chromulate.Prelude.{
  ℕ, ◌+◌, ◌-◌, ◌/◌, ◌^◌, min, max, true, false, Option, none, some, not, ltb, leb, nat_beq,
  if◌then◌else◌, unwrap_or,
}
use chromulate.Prelude.Time.{Duration, Instant, saturating_add, saturating_mul, checked_add}
use chromulate.Concurrency.Config.{
  Floats, ConcurrencyConfig, Signal, healthy, neutral, refused, failed, backpressure, scale,
  degradation_floor,
}
use chromulate.Concurrency.Origin.{Origin, abandon_probe, limit_changed}

abbrev pub u32_max : ℕ
u32_max = 2 ^ 32 - 1

-- `Shared`: the configuration is a sanitised one; the clock is an argument of each operation.
pub record Shared (F : Type 0) : Type 0 where
  pub config : ConcurrencyConfig F
  pub ceiling_recovery : Option Duration

-- An instant past the last one that the platform has leaves no wait at all.
unfoldable pub deadline : (last : Instant) → Instant → Duration → Instant
deadline last now duration = unwrap_or (checked_add last now duration) now

unfoldable pub cooldown : {F : Type 0} → ConcurrencyConfig F → ℕ → Duration
cooldown config refusals =
    min (saturating_mul config.cooldown (min (2 ^ min (refusals - 1) 31) u32_max))
      config.max_cooldown

-- The mean of a full probe: `checked_div` by the number of samples, as a `u32`.
unfoldable pub probe_mean : Duration → ℕ → Duration
probe_mean total samples = let n : ℕ = min samples u32_max in if nat_beq n 0 then 0 else total / n

-- The state of the probe behind its sums being taken.
unfoldable pub close_probe : Origin → Origin
close_probe o = record o { probe_total = 0; probe_samples = 0 }

unfoldable pub threshold : (fl : Floats) → ConcurrencyConfig fl.F → Duration → Duration
unfolding scale
threshold fl config baseline =
    max (scale fl baseline config.degradation) (saturating_add baseline degradation_floor)

-- The operations take the arithmetic of `f64` and the platform's last instant.
module _ (fl : Floats) (last : Instant) where
  unfoldable pub refuse : ConcurrencyConfig fl.F → Instant → Option Duration → Origin → Origin
  unfolding limit_changed cooldown
  refuse config now retry_after o =
      let refusals : ℕ = min (o.refusals + 1) u32_max in
      let ceiling : ℕ = min o.ceiling (max (o.limit / 2) config.min_limit) in
      let pause : ℕ = elim retry_after [
        | some asked ↦ min asked config.max_pause
        | none ↦ cooldown config refusals
      ] in
      limit_changed (record o {
        refusals = refusals;
        retry_after_requested = retry_after;
        ceiling = ceiling;
        limit = min o.limit ceiling;
        ceiling_since = some now;
        resume_at = some (deadline last now pause);
        hold_until = some (deadline last now (saturating_add pause config.hold));
        baseline = none;
      })

  unfoldable pub relax_ceiling : Shared fl.F → Instant → Origin → Origin
  relax_ceiling shared now o = elim shared.ceiling_recovery [
    | none ↦ o
    | some interval ↦ if leb shared.config.max_limit o.ceiling then o else elim o.ceiling_since [
      | none ↦ o
      | some since ↦
          if ltb now (deadline last since interval)
          then o
          else record o { ceiling = o.ceiling + 1; ceiling_since = some now }
    ]
  ]

  -- The tail of `healthy` behind `relax_ceiling`: count the clean probe, and raise the limit.
  unfoldable pub consider_increase : ConcurrencyConfig fl.F → Instant → Origin → Origin
  unfolding limit_changed
  consider_increase config now o =
      if (elim o.hold_until [ none ↦ false | some until ↦ ltb now until ])
      then o
      else let counted : Origin = record o { clean_probes = min (o.clean_probes + 1) u32_max } in
        if ltb counted.clean_probes config.clean_probes_before_increase
        then counted
        else if o.refused
        then counted
        else if not o.saturated
        then counted
        else if leb (min o.ceiling config.max_limit) o.limit
        then counted
        else limit_changed (record counted { limit = o.limit + 1 })

  -- The limit and the hold after a probe whose mean passed the threshold.
  unfoldable pub back_off : ConcurrencyConfig fl.F → Instant → Origin → Origin
  unfolding limit_changed
  back_off config now o = limit_changed (record o {
    limit = max (o.limit / 2) config.min_limit;
    hold_until = some (deadline last now config.hold);
  })

  -- What a full probe does, given its mean.
  unfoldable pub judge_probe : Shared fl.F → Instant → Duration → Origin → Origin
  judge_probe shared now mean o = elim o.baseline [
    | none ↦ record o { baseline = some mean }
    | some baseline ↦
        let o' : Origin = record o {
          baseline = some (min mean (scale fl baseline fl.baseline_drift));
        } in
        if ltb (threshold fl shared.config baseline) mean
        then back_off shared.config now o'
        else consider_increase shared.config now (relax_ceiling shared now o')
  ]

  unfoldable pub on_healthy : Shared fl.F → Instant → Duration → Origin → Origin
  on_healthy shared now latency o =
      let total : ℕ = saturating_add o.probe_total latency in
      let samples : ℕ = o.probe_samples + 1 in
      if ltb samples shared.config.probe
      then record o { probe_total = total; probe_samples = samples }
      else judge_probe shared now (probe_mean total samples) (close_probe o)

  unfoldable pub apply : Shared fl.F → Instant → Duration → Signal → Origin → Origin
  apply shared now latency healthy o = on_healthy shared now latency o
  apply shared now latency refused o = abandon_probe (record o { refused = true })
  apply shared now latency (backpressure retry_after) o = refuse shared.config now retry_after o
  apply shared now latency neutral o = abandon_probe o
  apply shared now latency failed o = abandon_probe o

  -- A permit that comes back, with its signal or, when it was dropped, with none.
  unfoldable pub release : Shared fl.F → Instant → Duration → Option Signal → Origin → Origin
  release shared now latency none o = record o { in_flight = o.in_flight - 1 }
  release shared now latency (some signal) o =
      apply shared now latency signal (record o { in_flight = o.in_flight - 1 })
