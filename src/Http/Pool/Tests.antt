-- ===== src/Http/Pool/Tests.antt =====
-- Runs of a pool, and the theorems at them.
use chromulate.Prelude.{
  ℕ, ◌≡◌, refl, Bool, true, false, Option, none, some, List, [], ◌∷◌, arith, ℕ_comparable, ◌↔◌,
}
use chromulate.Prelude.Time.{from_secs}
use chromulate.Prelude.Text.{ascii}
use chromulate.Prelude.Assoc.{lookup, insert}
use chromulate.Http.Pool.{
  http1, Idle, PoolConfig, PoolState, new, is_usable, is_live, is_empty, pop_live, remove_front,
  checkout, checkout_idle, sweep_if_due, push_idle, release,
}
use chromulate.Http.Pool.Key.{identity_of, identity_beq, identity_text, identity_of-beq}
use chromulate.Http.Pool.Validity.{IsValid, new-IsValid}
use chromulate.Http.Pool.Release.{release_panics}
use chromulate.Http.Pool.Runs.{Call, releases, run, step, run-new-IsValid}
use chromulate.Http.Pool.Reuse.{Held, checkout_sound, checkout-release}

abbrev small : PoolConfig
small = record { idle_timeout = from_secs 90; max_per_host = 2; max_total = 3 }

abbrev never : ℕ → Bool
never s = false

-- Keys are numbers here.
abbrev three_releases : List (Call ℕ)
three_releases =
    releases never 1 1 1 7 (http1 10)
    ∷ releases never 2 2 2 7 (http1 11)
    ∷ releases never 3 3 3 7 (http1 12)
    ∷ []

-- The third connection pushes the first one out.
after_three : Option (PoolState ℕ)
unfolding run step release is_usable sweep_if_due push_idle new lookup insert is_empty remove_front
after_three = run small three_releases (new 0)

abbrev one_idle : ℕ → ℕ → Idle
one_idle s t = record { connection = http1 s; since = t }

after_three_idle :
    after_three
    ≡ some (record {
      idle = (7, one_idle 12 3 ∷ one_idle 11 2 ∷ []) ∷ [];
      multiplexed = [];
      idle_held = 2;
      last_sweep = 0;
    })
unfolding after_three
after_three_idle = refl

run-new-IsValid_example :
    (st : PoolState ℕ) × (run small three_releases (new 0) ≡ some st) × IsValid small st
run-new-IsValid_example = run-new-IsValid small three_releases 0 (omega arith)

abbrev one_held : PoolState ℕ
one_held = record {
  idle = (7, one_idle 10 1 ∷ []) ∷ [];
  multiplexed = [];
  idle_held = 1;
  last_sweep = 0;
}

checkout_sound_example :
    (is_usable never (http1 10) ≡ true) × Held 5 (from_secs 90) 7 one_held (http1 10)
unfolding checkout checkout_idle lookup pop_live is_live is_usable
checkout_sound_example = checkout_sound never 5 small 7 one_held (http1 10) refl

checkout-release_example : (checkout never 5 small 7 one_held).1 ≡ some (http1 10)
unfolding release is_usable sweep_if_due push_idle new lookup insert is_empty remove_front
checkout-release_example =
    checkout-release never 1 1 1 5 small 7 10 (new 0) one_held refl refl refl (omega arith)

abbrev none_per_host : PoolConfig
none_per_host = record small { max_per_host = 0 }

release_panics_example : release {K = ℕ} never 1 1 1 none_per_host 7 (http1 10) (new 0) ≡ none
release_panics_example =
    release_panics never 1 1 1 none_per_host 7 10 (new 0) refl refl (new-IsValid none_per_host 0)

-- Under a hash that always collides.
identity_of-beq_example :
    (identity_beq
        (identity_of (λ t. 0) (ascii "a") (ascii "b") (ascii "c"))
        (identity_of (λ t. 0) (ascii "a") (ascii "b") (ascii "d"))
      ≡ true)
    ↔ (identity_text (ascii "a") (ascii "b") (ascii "c")
        ≡ identity_text (ascii "a") (ascii "b") (ascii "d"))
identity_of-beq_example =
    identity_of-beq (λ t. 0) (ascii "a") (ascii "b") (ascii "c") (ascii "a") (ascii "b") (ascii "d")
