-- ===== src/Callback/Window.antt =====
-- How far from now a timestamp may lie.
use srosha.Prelude.{
  ℕ, ◌+◌, ◌-◌, ◌*◌, ◌^◌, ◌≤◌, ◌<◌, ◌≡◌, ◌↔◌, ◌⊎◌, inr, false, arith, ltb_ℤ, ℤ, pos, negsuc,
}
use srosha.Encode.Decimal.{parse_int-format_int, format_int, IsInt64}
use srosha.Delivery.{Time}
use srosha.Callback.{second, to_unix}
use srosha.Callback.Verifier.{instant, instant_of_now, time_sub, absolute, fresh}

-- The moment of a second since 1970.
abbrev pub from_unix : ℕ → Time
from_unix n = (to_unix + n) * second

-- What `fresh` compares with the tolerance.
unfoldable pub drift : Time → ℤ → ℤ
unfolding instant time_sub absolute
drift now seconds = absolute (time_sub (instant_of_now now) (instant seconds))

-- The nanoseconds from 2 ^ 63 seconds before the year 1 to a second of Unix time.
abbrev pub moment : ℤ → ℕ
moment (pos n) = (2 ^ 63 + to_unix + n) * second
moment (negsuc n) = (2 ^ 63 + to_unix - n - 1) * second

-- A second that is near now, on either side, or 2 ^ 63 nanoseconds or more ahead; and its count
-- from the year 1 is an int64.
abbrev pub IsRecent : ℕ → Time → ℤ → Type 0
IsRecent tolerance now seconds =
    let here = 2 ^ 63 * second + now in
    (moment seconds < 2 ^ 64 * second)
    × (((here ≤ moment seconds + tolerance) × (moment seconds ≤ here + tolerance))
        ⊎ (here + 2 ^ 63 ≤ moment seconds))

pub drift_iff :
    (tolerance : ℕ) (now : Time) (seconds : ℤ)
    → tolerance + 1 < 2 ^ 63
    → IsInt64 seconds
    → (ltb_ℤ (pos tolerance) (drift now seconds) ≡ false) ↔ IsRecent tolerance now seconds
unfolding drift instant time_sub absolute IsInt64
drift_iff tolerance now (pos n) h k = ground (arith, h, k)
drift_iff tolerance now (negsuc n) h k = ground (arith, h, k)

-- With a tolerance below the greatest Duration, the text of a 64-bit number of seconds is accepted
-- exactly when the second, whose count from the year 1 must be a 64-bit number too, lies within the
-- tolerance of now, on either side, or lies 2 ^ 63 nanoseconds or more ahead.
pub fresh_iff :
    (tolerance : ℕ) (now : Time) (seconds : ℤ)
    → tolerance + 1 < 2 ^ 63
    → IsInt64 seconds
    → (fresh tolerance now (format_int seconds) ≡ inr tt) ↔ IsRecent tolerance now seconds
unfolding fresh drift
fresh_iff tolerance now seconds h k =
    ground (arith, parse_int-format_int seconds k, drift_iff tolerance now seconds h k)
