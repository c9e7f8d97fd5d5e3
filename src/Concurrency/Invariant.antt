-- ===== src/Concurrency/Invariant.antt =====
-- The bounds that every record of an origin keeps, for adaptive.rs.
use chromulate.Prelude.{
  ◌+◌, ◌≤◌, ◌<◌, Bool, Option, none, some, arith, Bool-cases, inl, inr, ltb, tests,
}
use chromulate.Prelude.Time.{Duration, Instant}
use chromulate.Concurrency.Config.{
  Floats, ConcurrencyConfig, Signal, healthy, backpressure, sanitised,
}
use chromulate.Concurrency.Origin.{Origin, new, try_take_slot, abandon_probe}
use chromulate.Concurrency.Feedback.{
  Shared, refuse, relax_ceiling, consider_increase, back_off, judge_probe, close_probe, on_healthy,
  apply, release,
}

-- What `sanitised` establishes.
pub record IsSane {F : Type 0} (c : ConcurrencyConfig F) : Type 0 where
  pub min_pos : 1 ≤ c.min_limit
  pub min_le_max : c.min_limit ≤ c.max_limit
  pub probe_pos : 1 ≤ c.probe

pub sanitised-IsSane : (fl : Floats) (c : ConcurrencyConfig fl.F) → IsSane (sanitised fl c)
unfolding sanitised
sanitised-IsSane fl c = omega arith

pub record IsBounded {F : Type 0} (c : ConcurrencyConfig F) (o : Origin) : Type 0 where
  pub floor : c.min_limit ≤ o.limit
  pub under_ceiling : o.limit ≤ o.ceiling
  pub ceiling_le_max : o.ceiling ≤ c.max_limit
  pub probe_open : o.probe_samples < c.probe
  pub in_flight_le_max : o.in_flight ≤ c.max_limit

pub new-IsBounded : {F : Type 0} (c : ConcurrencyConfig F) → IsSane c → IsBounded c (new c)
unfolding new
new-IsBounded c h = omega arith

pub try_take_slot-IsBounded :
    {F : Type 0} (c : ConcurrencyConfig F) (waited : Bool) (o : Origin)
    → IsBounded c o
    → IsBounded c (try_take_slot waited o).0
unfolding try_take_slot
try_take_slot-IsBounded c waited o b = ground arith

module _ (fl : Floats) (last : Instant) where
  refuse-IsBounded :
      (c : ConcurrencyConfig fl.F) (now : Instant) (after : Option Duration) (o : Origin)
      → IsSane c
      → IsBounded c o
      → IsBounded c (refuse fl last c now after o)
  unfolding refuse
  refuse-IsBounded c now after o s b = ground arith

  relax_ceiling-IsBounded :
      (sh : Shared fl.F) (now : Instant) (o : Origin)
      → IsBounded sh.config o
      → IsBounded sh.config (relax_ceiling fl last sh now o)
  unfolding relax_ceiling
  relax_ceiling-IsBounded sh now o b = ground arith

  consider_increase-IsBounded :
      (c : ConcurrencyConfig fl.F) (now : Instant) (o : Origin)
      → IsSane c
      → IsBounded c o
      → IsBounded c (consider_increase fl last c now o)
  unfolding consider_increase
  consider_increase-IsBounded c now o s b = ground arith

  back_off-IsBounded :
      (c : ConcurrencyConfig fl.F) (now : Instant) (o : Origin)
      → IsSane c
      → IsBounded c o
      → IsBounded c (back_off fl last c now o)
  unfolding back_off
  back_off-IsBounded c now o s b = ground arith

  judge_probe-IsBounded :
      (sh : Shared fl.F) (now : Instant) (mean : Duration) (o : Origin)
      → IsSane sh.config
      → IsBounded sh.config o
      → IsBounded sh.config (judge_probe fl last sh now mean o)
  unfolding judge_probe
  judge_probe-IsBounded sh now mean o s b =
      grind (arith, relax_ceiling-IsBounded, consider_increase-IsBounded, back_off-IsBounded)

  close_probe-IsBounded :
      (c : ConcurrencyConfig fl.F) (o : Origin)
      → IsSane c
      → IsBounded c o
      → IsBounded c (close_probe o)
  unfolding close_probe
  close_probe-IsBounded c o s b = omega arith

  on_healthy-IsBounded :
      (sh : Shared fl.F) (now : Instant) (latency : Duration) (o : Origin)
      → IsSane sh.config
      → IsBounded sh.config o
      → IsBounded sh.config (on_healthy fl last sh now latency o)
  unfolding on_healthy
  on_healthy-IsBounded sh now latency o s b =
      elim (Bool-cases (ltb (o.probe_samples + 1) sh.config.probe)) [
        | inl e ↦ rw e (omega (tests))
        | inr e ↦ rw e (judge_probe-IsBounded sh now _ _ s (close_probe-IsBounded sh.config o s b))
      ]

  apply-IsBounded :
      (sh : Shared fl.F) (now : Instant) (latency : Duration) (signal : Signal) (o : Origin)
      → IsSane sh.config
      → IsBounded sh.config o
      → IsBounded sh.config (apply fl last sh now latency signal o)
  unfolding apply abandon_probe
  apply-IsBounded sh now latency healthy o s b = on_healthy-IsBounded sh now latency o s b
  apply-IsBounded sh now latency (backpressure after) o s b =
      refuse-IsBounded sh.config now after o s b
  apply-IsBounded sh now latency _ o s b = ground arith

  pub release-IsBounded :
      (sh : Shared fl.F) (now : Instant) (latency : Duration) (signal : Option Signal) (o : Origin)
      → IsSane sh.config
      → IsBounded sh.config o
      → IsBounded sh.config (release fl last sh now latency signal o)
  unfolding release
  release-IsBounded sh now latency none o s b = omega arith
  release-IsBounded sh now latency (some signal) o s b =
      apply-IsBounded sh now latency signal _ s (omega arith)

  -- What the permits of one origin do: a slot is taken, or a request that holds one ends.
  pub data Step (sh : Shared fl.F) : Origin → Origin → Type 0 where
    take : (waited : Bool) (o : Origin) → Step sh o (try_take_slot waited o).0
    finish :
        (now : Instant) (latency : Duration) (signal : Option Signal) (o : Origin)
        → 0 < o.in_flight
        → Step sh o (release fl last sh now latency signal o)

  pub data Reach (sh : Shared fl.F) (s : Origin) : Origin → Type 0 where
    here : Reach sh s s
    next : {t u : Origin} → Reach sh s t → Step sh t u → Reach sh s u

  Step-IsBounded :
      {sh : Shared fl.F} {t u : Origin}
      → Step sh t u
      → IsSane sh.config
      → IsBounded sh.config t
      → IsBounded sh.config u
  Step-IsBounded {sh} (take waited o) s b = try_take_slot-IsBounded sh.config waited o b
  Step-IsBounded {sh} (finish now latency signal o h) s b =
      release-IsBounded sh now latency signal o s b

  pub Reach-IsBounded :
      {sh : Shared fl.F} {s t : Origin}
      → IsSane sh.config
      → IsBounded sh.config s
      → Reach sh s t
      → IsBounded sh.config t
  Reach-IsBounded sane b here = b
  Reach-IsBounded sane b (next r st) = Step-IsBounded st sane (Reach-IsBounded sane b r)

-- Under a configuration that `sanitised` returns, whatever order permits are taken, completed and
-- dropped in, and whatever the signals, latencies and times, a record that starts as `Origin::new`
-- keeps `min <= limit <= ceiling <= max`, fewer samples than a probe has, and at most `max`
-- requests in flight.
pub Reach-new-IsBounded :
    (fl : Floats) (last : Instant) (raw : ConcurrencyConfig fl.F) (recovery : Option Duration)
    → {o : Origin}
    → Reach fl last
        (record { config = sanitised fl raw; ceiling_recovery = recovery })
        (new (sanitised fl raw))
        o
    → IsBounded (sanitised fl raw) o
Reach-new-IsBounded fl last raw recovery r =
    Reach-IsBounded fl last (sanitised-IsSane fl raw) (new-IsBounded _ (sanitised-IsSane fl raw)) r
