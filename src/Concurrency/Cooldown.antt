-- ===== src/Concurrency/Cooldown.antt =====
-- The pause after repeated refusals, `cooldown` of adaptive.rs.
use chromulate.Prelude.{ℕ, zero, suc, ◌+◌, ◌-◌, ◌*◌, ◌^◌, ◌≤◌, ◌<◌, ◌≡◌, arith, min}
use chromulate.Prelude.Time.{duration_max}
use chromulate.Concurrency.Config.{ConcurrencyConfig}
use chromulate.Concurrency.Feedback.{cooldown, u32_max}
use native.Mathlib.Nat.{pow-suc, pow-le-pow_right}

two_pow_suc : (k : ℕ) → 2 ^ suc k ≡ 2 * 2 ^ k
two_pow_suc k = omega (arith, pow-suc 2 k)

two_pow_le : (k : ℕ) → k ≤ 31 → 2 ^ k ≤ 2147483648
two_pow_le k h = pow-le-pow_right {n = 2} (omega arith) {i = k} {j = 31} h

cooldown_lem :
    {F : Type 0} (c : ConcurrencyConfig F) (k : ℕ)
    → k ≤ 31
    → c.max_cooldown ≤ duration_max
    → cooldown c (suc k) ≡ min (c.cooldown * 2 ^ k) c.max_cooldown
unfolding cooldown
cooldown_lem c k h m =
    let e : min (suc k - 1) 31 ≡ k = omega arith in
    let f : min (2 ^ k) u32_max ≡ 2 ^ k = omega (arith, two_pow_le k h) in rw (e, f) (omega arith)

-- From the first refusal on, each further one doubles the pause, up to the configured longest
-- pause, for 31 doublings; the product of the base pause and the factor does not wrap.
pub cooldown_doubles :
    {F : Type 0} (c : ConcurrencyConfig F) (r : ℕ)
    → 1 ≤ r
    → r < 32
    → c.max_cooldown ≤ duration_max
    → cooldown c (r + 1) ≡ min (2 * cooldown c r) c.max_cooldown
cooldown_doubles c zero h k m = absurd (omega arith)
cooldown_doubles c (suc r) h k m =
    let e : suc r + 1 ≡ suc (suc r) = omega arith in
    rw (e, cooldown_lem c r (omega arith) m, cooldown_lem c (suc r) (omega arith) m, two_pow_suc r)
      (omega arith)
