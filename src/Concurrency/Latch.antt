-- ===== src/Concurrency/Latch.antt =====
-- When a limit may rise, and what a refusal does, for adaptive.rs.
use chromulate.Prelude.{
  ◌+◌, ◌-◌, ◌≤◌, ◌<◌, ◌≡◌, refl, Bool, true, false, Option, none, some, arith, min, Bool-cases, inl,
  inr, ltb, leb, leb→le, sym, ◌∙◌, tests,
}
use chromulate.Prelude.Time.{Duration, Instant, saturating_add}
use chromulate.Concurrency.Config.{
  Floats, ConcurrencyConfig, Signal, scale, healthy, refused, backpressure,
}
use chromulate.Concurrency.Origin.{Origin, try_take_slot, abandon_probe, limit_changed}
use chromulate.Concurrency.Feedback.{
  Shared, threshold, refuse, relax_ceiling, consider_increase, back_off, judge_probe, probe_mean,
  close_probe, on_healthy, apply, release,
}
use chromulate.Concurrency.Invariant.{
  IsSane, IsBounded, Step, Reach, Reach-IsBounded, here, next, take, finish,
}

-- What a rise of the limit from `o` to `u` takes: no refusal on record, a caller that waited,
-- enough clean probes, no hold at `now`; and it is by one.
pub record Rises {F : Type 0} (c : ConcurrencyConfig F) (now : Instant) (o u : Origin)
    : Type 0 where
  pub not_refused : o.refused ≡ false
  pub was_saturated : o.saturated ≡ true
  pub enough_clean : c.clean_probes_before_increase ≤ o.clean_probes + 1
  pub hold_over : (until : Instant) → o.hold_until ≡ some until → until ≤ now
  pub by_one : u.limit ≡ o.limit + 1

-- `Rises` reads five fields of the record that it starts from.
Rises-from :
    {F : Type 0} (c : ConcurrencyConfig F) (now : Instant) (o p u : Origin)
    → p.refused ≡ o.refused
    → p.saturated ≡ o.saturated
    → p.clean_probes ≡ o.clean_probes
    → p.hold_until ≡ o.hold_until
    → p.limit ≡ o.limit
    → Rises c now o u
    → Rises c now p u
Rises-from c now o p u a b d e f r = record {
  not_refused = a ∙ r.not_refused;
  was_saturated = b ∙ r.was_saturated;
  enough_clean = ground (arith, r.enough_clean);
  hold_over = λ until g. r.hold_over until (sym e ∙ g);
  by_one = ground (arith, r.by_one);
}

abbrev freed : Origin → Origin
freed o = record o { in_flight = o.in_flight - 1 }

module _ (fl : Floats) (last : Instant) where
  relax_ceiling_keeps :
      (sh : Shared fl.F) (now : Instant) (o : Origin)
      → let u = relax_ceiling fl last sh now o in
        (u.limit ≡ o.limit)
        × (u.refused ≡ o.refused)
        × (u.saturated ≡ o.saturated)
        × (u.clean_probes ≡ o.clean_probes)
        × (u.probe_samples ≡ o.probe_samples)
        × (u.hold_until ≡ o.hold_until)
  unfolding relax_ceiling
  relax_ceiling_keeps sh now o = ground arith

  -- The two ways in which a full probe moves the limit.
  consider_increase-Rises :
      (c : ConcurrencyConfig fl.F) (now : Instant) (o : Origin)
      → o.limit < (consider_increase fl last c now o).limit
      → Rises c now o (consider_increase fl last c now o)
  unfolding consider_increase
  consider_increase-Rises c now o h = record {
    not_refused = ground arith;
    was_saturated = ground arith;
    enough_clean = ground arith;
    hold_over = λ until e. ground arith;
    by_one = ground arith;
  }

  -- The record that `judge_probe` goes on with when the probe is not degraded.
  abbrev drifted : Duration → Duration → Origin → Origin
  drifted mean b o = record o { baseline = some (min mean (scale fl b fl.baseline_drift)) }

  judge_probe_fine :
      (sh : Shared fl.F) (now : Instant) (mean b : Duration) (o : Origin)
      → o.baseline ≡ some b
      → ltb (threshold fl sh.config b) mean ≡ false
      → judge_probe fl last sh now mean o
        ≡ consider_increase fl last sh.config now (relax_ceiling fl last sh now (drifted mean b o))
  unfolding judge_probe
  judge_probe_fine sh now mean b o e fine = rw (e, judge_probe, fine)

  judge_probe-Rises :
      (sh : Shared fl.F) (now : Instant) (mean : Duration) (o : Origin) (b : Option Duration)
      → o.baseline ≡ b
      → sh.config.min_limit ≤ o.limit
      → o.limit < (judge_probe fl last sh now mean o).limit
      → Rises sh.config now o (judge_probe fl last sh now mean o)
  unfolding judge_probe
  judge_probe-Rises sh now mean o none e f h = absurd (ground arith)
  judge_probe-Rises sh now mean o (some b) e f h =
      elim (Bool-cases (ltb (threshold fl sh.config b) mean)) [
        | inl slow ↦ absurd (unfold back_off limit_changed abandon_probe in ground arith)
        | inr fine ↦ grind (
          arith,
          judge_probe_fine sh now mean b o e fine,
          relax_ceiling_keeps sh now (drifted mean b o),
          consider_increase-Rises sh.config now (relax_ceiling fl last sh now (drifted mean b o)),
        )
      ]

  on_healthy-Rises :
      (sh : Shared fl.F) (now : Instant) (latency : Duration) (o : Origin)
      → sh.config.min_limit ≤ o.limit
      → o.limit < (on_healthy fl last sh now latency o).limit
      → Rises sh.config now o (on_healthy fl last sh now latency o)
        × (sh.config.probe ≤ o.probe_samples + 1)
  unfolding on_healthy close_probe
  on_healthy-Rises sh now latency o f h =
      elim (Bool-cases (ltb (o.probe_samples + 1) sh.config.probe)) [
        | inl e ↦ absurd (ground arith)
        | inr e ↦
            let mean : Duration =
              probe_mean (saturating_add o.probe_total latency) (o.probe_samples + 1) in
            let r =
              judge_probe-Rises sh now mean (close_probe o) o.baseline refl f
                (rw (e, on_healthy) at h) in
            rw e (
              Rises-from sh.config now (close_probe o) o _ refl refl refl refl refl r,
              leb→le _ _ (ground arith),
            )
      ]

  -- One finished request raises the limit of its origin by one at most, and raises it only if it
  -- was reported healthy, was the last sample of a full probe, and the record shows no refusal, a
  -- caller that waited, enough clean probes and no hold that outlasts `now`.
  pub release-Rises :
      (sh : Shared fl.F) (now : Instant) (latency : Duration) (signal : Option Signal) (o : Origin)
      → IsBounded sh.config o
      → o.limit < (release fl last sh now latency signal o).limit
      → (signal ≡ some healthy)
        × Rises sh.config now o (release fl last sh now latency signal o)
        × (sh.config.probe ≤ o.probe_samples + 1)
  unfolding release apply refuse abandon_probe limit_changed
  release-Rises sh now latency none o b h = absurd (omega arith)
  release-Rises sh now latency (some healthy) o b h =
      let (r, full) = on_healthy-Rises sh now latency (freed o) b.floor h in
      (refl, Rises-from sh.config now (freed o) o _ refl refl refl refl refl r, full)
  release-Rises sh now latency (some (backpressure after)) o b h = absurd (ground arith)
  release-Rises sh now latency (some _) o b h = absurd (ground arith)

  release-limit-le :
      (sh : Shared fl.F) (now : Instant) (latency : Duration) (signal : Option Signal) (o : Origin)
      → IsBounded sh.config o
      → o.refused ≡ true
      → (release fl last sh now latency signal o).limit ≤ o.limit
  release-limit-le sh now latency signal o b r =
      elim (Bool-cases (leb (release fl last sh now latency signal o).limit o.limit)) [
        | inl e ↦ omega tests
        | inr e ↦
            let q = (release-Rises sh now latency signal o b (ground arith)).1.not_refused in cc
      ]

  consider_increase-refused :
      (c : ConcurrencyConfig fl.F) (now : Instant) (o : Origin)
      → (consider_increase fl last c now o).refused ≡ o.refused
  unfolding consider_increase limit_changed abandon_probe
  consider_increase-refused c now o = ground arith

  judge_probe-refused :
      (sh : Shared fl.F) (now : Instant) (mean : Duration) (o : Origin) (b : Option Duration)
      → o.baseline ≡ b
      → (judge_probe fl last sh now mean o).refused ≡ o.refused
  judge_probe-refused sh now mean o none e = unfold judge_probe in ground arith
  judge_probe-refused sh now mean o (some b) e =
      elim (Bool-cases (ltb (threshold fl sh.config b) mean)) [
        | inl slow ↦ unfold judge_probe back_off limit_changed abandon_probe in ground arith
        | inr fine ↦ rw (judge_probe_fine sh now mean b o e fine) (
            consider_increase-refused sh.config now _
            ∙ (relax_ceiling_keeps sh now (drifted mean b o)).1)
      ]

  on_healthy-refused :
      (sh : Shared fl.F) (now : Instant) (latency : Duration) (o : Origin)
      → (on_healthy fl last sh now latency o).refused ≡ o.refused
  unfolding on_healthy close_probe
  on_healthy-refused sh now latency o =
      elim (Bool-cases (ltb (o.probe_samples + 1) sh.config.probe)) [
        | inl e ↦ rw e
        | inr e ↦ rw e (judge_probe-refused sh now _ (close_probe o) o.baseline refl)
      ]

  release-refused :
      (sh : Shared fl.F) (now : Instant) (latency : Duration) (signal : Option Signal) (o : Origin)
      → o.refused ≡ true
      → (release fl last sh now latency signal o).refused ≡ true
  unfolding release apply refuse abandon_probe limit_changed
  release-refused sh now latency none o r = r
  release-refused sh now latency (some healthy) o r =
      on_healthy-refused sh now latency (freed o) ∙ r
  release-refused sh now latency (some refused) o r = refl
  release-refused sh now latency (some _) o r = r

  try_take_slot_keeps :
      (waited : Bool) (o : Origin)
      → let u = (try_take_slot waited o).0 in (u.refused ≡ o.refused) × (u.limit ≡ o.limit)
  unfolding try_take_slot
  try_take_slot_keeps waited o = ground arith

  Step-refused :
      {sh : Shared fl.F} {t u : Origin}
      → Step fl last sh t u
      → IsBounded sh.config t
      → t.refused ≡ true
      → (u.refused ≡ true) × (u.limit ≤ t.limit)
  Step-refused (take waited o) b r =
      let same = try_take_slot_keeps waited o in (same.0 ∙ r, omega (arith, same.1))
  Step-refused {sh} (finish now latency signal o h) b r =
      (release-refused sh now latency signal o r, release-limit-le sh now latency signal o b r)

  -- A 403 is remembered: once an origin's record shows a refusal, it shows it after any further
  -- steps of its permits, and its limit never rises again.
  pub Reach-refused :
      {sh : Shared fl.F} {s t : Origin}
      → IsSane sh.config
      → IsBounded sh.config s
      → s.refused ≡ true
      → Reach fl last sh s t
      → (t.refused ≡ true) × (t.limit ≤ s.limit)
  Reach-refused sane b r here = (r, omega arith)
  Reach-refused sane b r (next p st) =
      let (on, below) = Reach-refused sane b r p in
      let (still, lower) = Step-refused st (Reach-IsBounded fl last sane b p) on in
      (still, omega arith)
