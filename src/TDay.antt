-- ===== src/TDay.antt =====
-- internal/tday/tday.go: the calendar day of the wall clock.
use moos_kernel.Prelude.{ℕ, ◌-◌, ◌/◌, ◌%◌, ◌^◌, leb, if◌then◌else◌}
use moos_kernel.Graph.{Time, Int64}

-- `T0`: 2025-10-31 23:00 UTC, in nanoseconds from the zero time.
abbrev pub t0 : Time
t0 = 63897548400000000000

-- The nanoseconds of `24 * time.Hour`.
abbrev pub day_length : ℕ
day_length = 86400000000000

abbrev min : ℕ → ℕ → ℕ
min a b = if leb a b then a else b

-- `At`, and `Now` at the time of the clock: `Sub` stops at the ends of int64, and the division cuts
-- towards zero.
unfoldable pub t_day : Time → Int64
t_day t =
    if leb t0 t
    then min (t - t0) (2 ^ 63 - 1) / day_length
    else (2 ^ 64 - min (t0 - t) (2 ^ 63) / day_length) % 2 ^ 64
