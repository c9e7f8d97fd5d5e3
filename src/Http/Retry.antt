-- ===== src/Http/Retry.antt =====
-- crates/chromulate-http/src/middleware/retry.rs: a bounded retry of an exchange, with backoff.
-- The exchange below is a parameter: what its calls return, by how many were made before, so that
-- it may keep any state. A draw of the jitter is a parameter too.
pub mod Attempts
mod Tests
use chromulate.Prelude.{
  ℕ, zero, suc, ◌+◌, ◌^◌, min, max, Bool, true, false, not, ◌&&◌, ◌||◌, Option, none, some, List,
  [], ◌∷◌, ◌==◌, leb, nat_beq, if◌then◌else◌, is_some,
}
use chromulate.Prelude.Time.{Duration, from_secs, from_millis, saturating_mul}
use chromulate.Prelude.Text.{Text, ascii, text_comparable, trim, parse_u64}
use chromulate.Prelude.Headers.{HeaderMaps}
use chromulate.Core.Error.{Error, is_retryable}

pub data RetryOn : Type 0 where
  idempotent_methods any_method : RetryOn

pub record RetryPolicy : Type 0 where
  pub max_retries : ℕ
  pub base_delay : Duration
  pub max_delay : Duration
  pub retry_on : RetryOn
  pub jitter : Bool
  pub honour_retry_after : Bool

-- `impl Default for RetryPolicy`.
abbrev pub default : RetryPolicy
default = record {
  max_retries = 2;
  base_delay = from_millis 250;
  max_delay = from_secs 10;
  retry_on = idempotent_methods;
  jitter = true;
  honour_retry_after = true;
}

-- `2u32.saturating_pow(attempt)`.
abbrev pub factor_of : ℕ → ℕ
factor_of attempt = min (2 ^ attempt) 4294967295

unfoldable pub backoff : RetryPolicy → ℕ → Duration
backoff policy attempt = min (saturating_mul policy.base_delay (factor_of attempt)) policy.max_delay

unfoldable pub is_idempotent : Text → Bool
is_idempotent verb =
    verb == ascii "GET"
    || verb == ascii "HEAD"
    || verb == ascii "PUT"
    || verb == ascii "DELETE"
    || verb == ascii "OPTIONS"
    || verb == ascii "TRACE"

unfoldable pub should_retry_status : ℕ → Bool
should_retry_status s = nat_beq s 429 || nat_beq s 502 || nat_beq s 503 || nat_beq s 504

-- `Retry::delay`; `jittered attempt d` is what the jitter makes of `d` on this attempt.
unfoldable pub delay : RetryPolicy → (ℕ → Duration → Duration) → ℕ → Option Duration → Duration
unfolding backoff
delay policy jittered attempt retry_after =
    let base : ℕ = backoff policy attempt in
    let drawn : ℕ = if policy.jitter then jittered attempt base else base in
    elim retry_after [
      | none ↦ drawn
      | some after ↦
          if policy.honour_retry_after then min (max drawn after) policy.max_delay else drawn
    ]

pub data Outcome (R : Type 0) : Type 0 where
  response : R → Outcome R
  failed : Error → Outcome R

-- What the code uses of requests and responses.
pub record Messages (hm : HeaderMaps) : Type 1 where
  pub Parts : Type 0
  pub Body : Type 0
  pub Response : Type 0
  pub verb_of : Parts → Text
  pub try_clone : Body → Option Body
  pub status_of : Response → ℕ
  pub headers_of : Response → hm.Headers

module _ (hm : HeaderMaps) where
  unfoldable pub parse_retry_after : Option Text → Option Duration
  parse_retry_after value = elim value [
    | none ↦ none
    | some v ↦ elim (hm.to_str v) [
      | none ↦ none
      | some text ↦ elim (parse_u64 (trim text)) [ none ↦ none | some s ↦ some (from_secs s) ]
    ]
  ]

module _ (hm : HeaderMaps) (m : Messages hm) where
  unfoldable pub may_replay : RetryPolicy → m.Parts → m.Body → Bool
  may_replay policy parts b =
      (elim policy.retry_on [
        | any_method ↦ true
        | idempotent_methods ↦ is_idempotent (m.verb_of parts)
      ])
      && is_some (m.try_clone b)

  -- `none` for an outcome that is returned as it is; otherwise what the server asked for.
  unfoldable pub wait_after : Outcome m.Response → Option (Option Duration)
  wait_after (response r) =
      if should_retry_status (m.status_of r)
      then some (parse_retry_after hm (hm.get (ascii "retry-after") (m.headers_of r)))
      else none
  wait_after (failed e) = if is_retryable e then some none else none

module _ (hm : HeaderMaps) (m : Messages hm)
    (inner : ℕ → m.Parts → m.Body → Outcome m.Response) where
  -- The loop of `exchange`: what it returns, and the delays it slept.
  unfoldable pub attempts :
      ℕ
      → RetryPolicy
      → (ℕ → Duration → Duration)
      → ℕ
      → m.Parts
      → m.Body
      → Option (Outcome m.Response × List Duration)
  attempts zero policy jittered attempt parts b = none
  attempts (suc fuel) policy jittered attempt parts b =
      let next : Option (Outcome m.Response × List Duration) =
        attempts fuel policy jittered (attempt + 1) parts b in
      elim (m.try_clone b) [
        | none ↦ some (inner attempt parts b, [])
        | some replay ↦ elim (wait_after hm m (inner attempt parts replay)) [
          | none ↦ some (inner attempt parts replay, [])
          | some retry_after ↦
              if leb policy.max_retries attempt
              then some (inner attempt parts replay, [])
              else (elim next [
                | none ↦ none
                | some (o, delays) ↦ some (o, delay policy jittered attempt retry_after ∷ delays)
              ])
        ]
      ]

  unfoldable pub exchange :
      ℕ
      → RetryPolicy
      → (ℕ → Duration → Duration)
      → m.Parts
      → m.Body
      → Option (Outcome m.Response × List Duration)
  exchange fuel policy jittered parts b =
      if nat_beq policy.max_retries 0 || not (may_replay hm m policy parts b)
      then some (inner 0 parts b, [])
      else attempts fuel policy jittered 0 parts b
