-- ===== src/Prelude/Time.antt =====
-- `std::time`: a `Duration` and an `Instant` or `SystemTime` are counts of nanoseconds, an instant
-- from the first one that the platform's clock can represent.
use Prim.Native.Nat.{ℕ, ◌+◌, ◌-◌, ◌*◌, ◌^◌, min}
use mathlib.Core.Option.{Option, none, some}
use chromulate.Prelude.Tests.{leb, if◌then◌else◌}

abbrev pub Duration : Type 0
Duration = ℕ

abbrev pub Instant : Type 0
Instant = ℕ

-- `Duration::MAX`: 2^64 seconds less a nanosecond.
abbrev pub duration_max : ℕ
duration_max = 2 ^ 64 * 1000000000 - 1

abbrev pub from_secs : ℕ → ℕ
from_secs s = s * 1000000000

abbrev pub from_millis : ℕ → ℕ
from_millis ms = ms * 1000000

-- `Duration::saturating_add`, `saturating_mul`.
abbrev pub saturating_add : ℕ → ℕ → ℕ
saturating_add a b = min (a + b) duration_max

abbrev pub saturating_mul : ℕ → ℕ → ℕ
saturating_mul a b = min (a * b) duration_max

-- `checked_add` of an instant and a duration, over the last instant `last` that the platform has.
abbrev pub checked_add : ℕ → ℕ → ℕ → Option ℕ
checked_add last t d = if leb (t + d) last then some (t + d) else none

-- `later.duration_since(earlier)` of two `SystemTime`s: `Err` when `earlier` is the later one.
abbrev pub duration_since : ℕ → ℕ → Option ℕ
duration_since later earlier = if leb earlier later then some (later - earlier) else none
