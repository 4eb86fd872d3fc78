-- ===== src/Common/Time.antt =====
-- Go's `time`: a `Time` is the number of nanoseconds since the zero time, a `Duration` an int64.
use spotalis.Common.{ℕ, ◌*◌, ◌-◌, ◌^◌, Bool, ◌==◌, if◌then◌else◌, ℤ, pos, negsuc, sub_ℕ, ltb_ℤ}

abbrev pub Time : Type 0
Time = ℕ

abbrev pub zero_time : Time
zero_time = 0

abbrev pub is_zero : Time → Bool
is_zero t = t == 0

abbrev pub second : ℕ
second = 1000000000

abbrev pub minute : ℕ
minute = 60 * second

-- t.Sub(u), held to the least and the greatest Duration.
unfoldable pub sub_time : Time → Time → ℤ
sub_time t u =
    let d = sub_ℕ t u in
    if ltb_ℤ (pos (2 ^ 63 - 1)) d
    then pos (2 ^ 63 - 1)
    else if ltb_ℤ d (negsuc (2 ^ 63 - 1))
    then negsuc (2 ^ 63 - 1)
    else d

-- time.Since(u), at the time `now`.
abbrev pub since : Time → Time → ℤ
since now u = sub_time now u
