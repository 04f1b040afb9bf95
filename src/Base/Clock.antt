-- ===== src/Base/Clock.antt =====
-- Points of time and durations, in microseconds: the resolution of Python's `datetime`.
use Prim.Native.Nat.{ℕ, ◌*◌}

abbrev pub Time : Type 0
Time = ℕ

-- the microseconds of a second
abbrev pub second : ℕ
second = 1000000

-- `timedelta(seconds=n)`
abbrev pub seconds : ℕ → Time
seconds n = n * second
