-- ===== src/Concurrency/Backpressure.antt =====
-- What a 429 or a 503 does to an origin's record, `refuse` of adaptive.rs.
use chromulate.Prelude.{ℕ, ◌+◌, ◌-◌, ◌/◌, ◌≤◌, ◌≡◌, Option, none, some, arith, max, min}
use chromulate.Prelude.Time.{Duration, Instant}
use chromulate.Concurrency.Config.{Floats, backpressure}
use chromulate.Concurrency.Origin.{Origin, abandon_probe, limit_changed, pause_remaining}
use chromulate.Concurrency.Feedback.{Shared, deadline, cooldown, refuse, apply, release}
use chromulate.Concurrency.Invariant.{IsBounded}

module _ (fl : Floats) (last : Instant) where
  -- A 429 or 503 halves the limit, not below the configured floor, and lowers the ceiling to it.
  -- New requests are then held for the delay that the server asked for, cut at `max_pause`, or else
  -- for the cooldown of this many refusals; the hold is exact where the clock can represent it.
  pub release_backpressure :
      (sh : Shared fl.F) (now : Instant) (latency : Duration) (after : Option Duration) (o : Origin)
      → IsBounded sh.config o
      → let u = release fl last sh now latency (some (backpressure after)) o in
        let pause : ℕ = elim after [
          | some asked ↦ min asked sh.config.max_pause
          | none ↦ cooldown sh.config u.refusals
        ] in
        (u.limit ≡ max (o.limit / 2) sh.config.min_limit)
        × (u.ceiling ≡ u.limit)
        × (pause_remaining now u ≤ pause)
        × (now + pause ≤ last → pause_remaining now u ≡ pause)
        × (u.in_flight ≡ o.in_flight - 1)
  unfolding release apply refuse limit_changed abandon_probe pause_remaining deadline
  release_backpressure sh now latency none o b = ground arith
  release_backpressure sh now latency (some asked) o b = ground arith
