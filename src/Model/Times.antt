-- ===== src/Model/Times.antt =====
-- What the encoders use of `time.Time` and `time.Duration`.
use zipkin_go.Base.{
  ℕ, ◌+◌, ◌-◌, ◌*◌, ◌/◌, ◌%◌, ◌^◌, ◌<◌, ◌≡◌, arith, ltb, if◌then◌else◌, ℤ, pos, negsuc, ◌+ℤ◌, ◌-ℤ◌,
  to_uint64, to_int64,
}
use zipkin_go.Model.Spans.{Time}

-- `UnixNano`, which wraps around outside of the years 1678 to 2262.
abbrev pub unix_nano : Time → ℤ
unix_nano t = to_int64 (to_uint64 t)

-- The nanoseconds behind the last whole microsecond.
abbrev pub sub_micros : Time → ℕ
sub_micros (pos n) = n % 1000
sub_micros (negsuc n) = 999 - n % 1000

-- `Round(time.Microsecond)`: to the nearest one, halves up.
unfoldable pub round_micros : Time → Time
round_micros t =
    if ltb (sub_micros t + sub_micros t) 1000
    then t -ℤ pos (sub_micros t)
    else t +ℤ pos (1000 - sub_micros t)

-- A time from 1970 to 2262.
abbrev pub IsNanos : ℤ → Type 0
IsNanos t = (n : ℕ) × (t ≡ pos n) × (n + 500 < 2 ^ 63)

pub round_micros_lem : (n : ℕ) → round_micros (pos n) ≡ pos ((n + 500) / 1000 * 1000)
unfolding round_micros ◌+ℤ◌ ◌-ℤ◌
round_micros_lem n = ground arith
