-- ===== src/Http/Retry/Tests.antt =====
-- Retries of scripted exchanges, and the theorems at them.
use chromulate.Prelude.{
  ℕ, zero, suc, ◌≤◌, min, Bool, true, false, none, some, List, [], ◌∷◌, ◌≡◌, ◌⊎◌, refl, arith,
  if◌then◌else◌, length,
}
use chromulate.Prelude.Time.{Duration, from_secs, from_millis}
use chromulate.Prelude.Text.{Text, ascii}
use chromulate.Prelude.Plain.{plain, no_headers}
use chromulate.Core.Error.{resolve_error, is_retryable}
use chromulate.Http.Retry.{
  Messages, Outcome, response, failed, default, exchange, attempts, may_replay, wait_after, delay,
  backoff, is_idempotent, should_retry_status, parse_retry_after,
}
use chromulate.Http.Retry.Attempts.{IsRun, exchange-IsRun, delay_bounds}

-- A request is its method, a body is whether it can be cloned, a response is its status.
abbrev coded : Messages plain
coded = record {
  Parts = Text;
  Body = Bool;
  Response = ℕ;
  verb_of = λ v. v;
  try_clone = λ b. if b then some b else none;
  status_of = λ r. r;
  headers_of = λ r. no_headers;
}

abbrev script : ℕ → Text → Bool → Outcome ℕ
script zero v b = failed (resolve_error (ascii "a.test"))
script (suc zero) v b = response 503
script (suc (suc n)) v b = response 200

abbrev exactly : ℕ → Duration → Duration
exactly n d = d

-- A failed lookup and a 503, then the answer, after waits of 250 and 500 milliseconds.
third_time :
    exchange plain coded script 3 default exactly (ascii "GET") true
    ≡ some (response 200, from_millis 250 ∷ from_millis 500 ∷ [])
unfolding exchange attempts may_replay wait_after delay backoff is_idempotent should_retry_status
    parse_retry_after is_retryable
third_time = refl

exchange-IsRun_example :
    (o : Outcome ℕ) × (ds : List Duration) × (exchange plain coded script 3 default exactly
        (ascii "GET")
        true
      ≡ some (o, ds))
    × (((o ≡ script 0 (ascii "GET") true)
          × (ds ≡ [])
          × ((default.max_retries ≡ 0)
              ⊎ (may_replay plain coded default (ascii "GET") true ≡ false)))
        ⊎ ((replay : Bool) × (some true ≡ some replay)
            × (may_replay plain coded default (ascii "GET") true ≡ true)
            × IsRun plain coded script default (ascii "GET") replay 0 (length ds) o))
exchange-IsRun_example =
    exchange-IsRun plain coded script 3 default exactly (ascii "GET") true (omega arith)

delay_bounds_example :
    (true ≡ false → delay default exactly 1 (some (from_secs 3)) ≤ from_secs 10)
    × ((asked : Duration)
        → some (from_secs 3) ≡ some asked
        → true ≡ true
        → (min asked (from_secs 10) ≤ delay default exactly 1 (some (from_secs 3)))
          × (delay default exactly 1 (some (from_secs 3)) ≤ from_secs 10))
    × (backoff default 1 ≤ backoff default 2)
delay_bounds_example = delay_bounds default exactly 1 (some (from_secs 3))
