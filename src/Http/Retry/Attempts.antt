-- ===== src/Http/Retry/Attempts.antt =====
-- How often `exchange` of middleware/retry.rs calls what it wraps, what it returns, how long it waits.
use chromulate.Prelude.{
  ℕ, zero, suc, ◌+◌, ◌≤◌, ◌<◌, min, true, false, Option, none, some, List, [], ◌∷◌, ◌≡◌, ◌⊎◌, inl,
  inr, refl, ap, subst, ◌∙◌, arith, length, leb, nat_beq, is_some, Bool-cases, Option-cases,
}
use native.Mathlib.Nat.{pow-le-pow_right, mul-le-mul_left}
use chromulate.Prelude.Time.{Duration}
use chromulate.Prelude.Headers.{HeaderMaps}
use chromulate.Http.Retry.{
  RetryPolicy, Outcome, Messages, may_replay, wait_after, attempts, exchange, delay, backoff,
  factor_of,
}

-- What holds at `a`, and at the `n` numbers behind it, holds at the `suc n` numbers from `a`.
before-suc :
    (P : ℕ → Type 0) (a n : ℕ)
    → P a
    → ((k : ℕ) → k < n → P (a + 1 + k))
    → (k : ℕ) → k < suc n
    → P (a + k)
before-suc P a n p q zero h = subst P (omega arith) p
before-suc P a n p q (suc k) h = subst P (omega arith) (q k (omega arith))

module _ (hm : HeaderMaps) (m : Messages hm)
    (inner : ℕ → m.Parts → m.Body → Outcome m.Response) where
  -- A run that has made `a` calls before: it makes one more than `n`, each with the body `replay`,
  -- and returns the outcome `o` of the last.
  pub record IsRun (policy : RetryPolicy) (parts : m.Parts) (replay : m.Body) (a n : ℕ)
      (o : Outcome m.Response) : Type 0 where
    pub last : o ≡ inner (a + n) parts replay
    pub bounded : a + n ≤ policy.max_retries
    pub retried : (k : ℕ) → k < n → is_some (wait_after hm m (inner (a + k) parts replay)) ≡ true
    pub final : a + n < policy.max_retries → wait_after hm m (inner (a + n) parts replay) ≡ none

  IsRun-again :
      (policy : RetryPolicy) (parts : m.Parts) (replay : m.Body) (a n : ℕ) (o : Outcome m.Response)
      → is_some (wait_after hm m (inner a parts replay)) ≡ true
      → IsRun policy parts replay (a + 1) n o
      → IsRun policy parts replay a (suc n) o
  IsRun-again policy parts replay a n o s v =
      let e : a + 1 + n ≡ a + suc n = omega arith in
      record {
        last = v.last ∙ ap (λ k. inner k parts replay) e;
        bounded = omega (arith, v.bounded);
        retried =
            before-suc (λ k. is_some (wait_after hm m (inner k parts replay)) ≡ true) a n s
              v.retried;
        final = λ h.
            subst (λ k. wait_after hm m (inner k parts replay) ≡ none) e (v.final (omega arith));
      }

  IsRun-stop :
      (policy : RetryPolicy) (parts : m.Parts) (replay : m.Body) (a : ℕ)
      → a ≤ policy.max_retries
      → (a < policy.max_retries → wait_after hm m (inner a parts replay) ≡ none)
      → IsRun policy parts replay a 0 (inner a parts replay)
  IsRun-stop policy parts replay a h f = record {
    last = ap (λ k. inner k parts replay) (omega arith);
    bounded = omega arith;
    retried = λ k l. absurd (omega arith);
    final = λ l.
        subst (λ k. wait_after hm m (inner k parts replay) ≡ none) (omega arith) (f (omega arith));
  }

  attempts-IsRun :
      (fuel : ℕ) (policy : RetryPolicy) (jittered : ℕ → Duration → Duration) (a : ℕ)
      (parts : m.Parts) (b replay : m.Body)
      → m.try_clone b ≡ some replay
      → a ≤ policy.max_retries
      → policy.max_retries < a + fuel
      → (o : Outcome m.Response) × (ds : List Duration) × (attempts hm m inner fuel policy jittered
            a parts b
          ≡ some (o, ds))
        × IsRun policy parts replay a (length ds) o
  unfolding attempts
  attempts-IsRun zero policy jittered a parts b replay c h f = absurd (omega arith)
  attempts-IsRun (suc fuel) policy jittered a parts b replay c h f =
      let last = inner a parts replay in
      elim (Option-cases (wait_after hm m last)) [
        | inl e ↦ (last, [], rw (attempts, c, e), IsRun-stop policy parts replay a h (λ l. e))
        | inr (after, e) ↦ elim (Bool-cases (leb policy.max_retries a)) [
          | inl g ↦ (
            last,
            [],
            rw (attempts, c, e, g),
            IsRun-stop policy parts replay a h (λ l. absurd (ground arith)),
          )
          | inr g ↦
              let (o, ds, t, v) =
                attempts-IsRun fuel policy jittered (a + 1) parts b replay c (ground arith)
                  (omega arith) in
              (
                o,
                delay policy jittered a after ∷ ds,
                rw (attempts, c, e, g, t),
                IsRun-again policy parts replay a (length ds) o (rw e) v,
              )
        ]
      ]

  cloned :
      (policy : RetryPolicy) (parts : m.Parts) (b : m.Body)
      → may_replay hm m policy parts b ≡ true
      → (replay : m.Body) × (m.try_clone b ≡ some replay)
  unfolding may_replay
  cloned policy parts b h = elim (Option-cases (m.try_clone b)) [
    | inl e ↦ absurd (ground (arith, h, e))
    | inr (replay, e) ↦ (replay, e)
  ]

  -- Fuel for one call more than `max_retries` is enough: `exchange` then returns. Either it called
  -- the wrapped exchange once with the request as it is, as the policy has no retries or does not
  -- let this request be sent again, and slept never; or every call had a clone of the body, there
  -- was one more than it slept and at most `max_retries` more, each but the last had an outcome
  -- to be retried, and what it returns is the outcome of the last, which is not to be retried
  -- unless the retries ran out.
  pub exchange-IsRun :
      (fuel : ℕ) (policy : RetryPolicy) (jittered : ℕ → Duration → Duration) (parts : m.Parts)
      (b : m.Body)
      → policy.max_retries < fuel
      → (o : Outcome m.Response) × (ds : List Duration) × (exchange hm m inner fuel policy jittered
            parts b
          ≡ some (o, ds))
        × (((o ≡ inner 0 parts b)
              × (ds ≡ [])
              × ((policy.max_retries ≡ 0) ⊎ (may_replay hm m policy parts b ≡ false)))
            ⊎ ((replay : m.Body) × (m.try_clone b ≡ some replay)
                × (may_replay hm m policy parts b ≡ true)
                × IsRun policy parts replay 0 (length ds) o))
  unfolding exchange
  exchange-IsRun fuel policy jittered parts b h =
      let once = inner 0 parts b in
      elim (Bool-cases (nat_beq policy.max_retries 0)) [
        | inl e ↦ (once, [], rw e refl, inl (refl, refl, inl (ground (arith, e))))
        | inr e ↦ elim (Bool-cases (may_replay hm m policy parts b)) [
          | inl g ↦
              let (replay, c) = cloned policy parts b g in
              let (o, ds, t, v) =
                attempts-IsRun fuel policy jittered 0 parts b replay c (omega arith)
                  (omega arith) in
              (o, ds, rw (e, g) t, inr (replay, c, g, v))
          | inr g ↦ (once, [], rw (e, g) refl, inl (refl, refl, inr g))
        ]
      ]

backoff_le : (policy : RetryPolicy) (attempt : ℕ) → backoff policy attempt ≤ policy.max_delay
unfolding backoff
backoff_le policy attempt = omega arith

factor_of_le : (attempt : ℕ) → factor_of attempt ≤ factor_of (attempt + 1)
factor_of_le attempt =
    omega
      (arith, pow-le-pow_right {n = 2} (omega arith) {i = attempt} {j = attempt + 1} (omega arith))

backoff_mono :
    (policy : RetryPolicy) (attempt : ℕ) → backoff policy attempt ≤ backoff policy (attempt + 1)
unfolding backoff
backoff_mono policy attempt =
    omega (arith, mul-le-mul_left policy.base_delay (factor_of_le attempt))

-- Without jitter, a wait is at most `max_delay`, whatever the server asks for; where a server's
-- wait is honoured, with jitter or without, it is at most `max_delay`, and at least what the
-- server asked for or `max_delay`. The backoff itself never shrinks from one attempt to the next.
pub delay_bounds :
    (policy : RetryPolicy) (jittered : ℕ → Duration → Duration) (attempt : ℕ)
    (after : Option Duration)
    → (policy.jitter ≡ false → delay policy jittered attempt after ≤ policy.max_delay)
      × ((asked : Duration)
          → after ≡ some asked
          → policy.honour_retry_after ≡ true
          → (min asked policy.max_delay ≤ delay policy jittered attempt after)
            × (delay policy jittered attempt after ≤ policy.max_delay))
      × (backoff policy attempt ≤ backoff policy (attempt + 1))
unfolding delay
delay_bounds policy jittered attempt none = (
  λ h. ground (arith, h, backoff_le policy attempt),
  λ asked e. absurd (ground arith),
  backoff_mono policy attempt,
)
delay_bounds policy jittered attempt (some after) = (
  λ h. ground (arith, h, backoff_le policy attempt),
  λ asked e h. ground (arith, e, h),
  backoff_mono policy attempt,
)
