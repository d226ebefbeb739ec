-- ===== src/Quota/Window.antt =====
-- `windowStart` and `WindowReset` of internal/quota/quota.go. A time counts the nanoseconds since Go's
-- zero time, the first of January of the year 1 (UTC).
pub mod Partition
use agent_gpu.Prelude.{
  ℕ, suc, zero, ◌+◌, ◌-◌, ◌*◌, ◌/◌, ◌%◌, ◌==◌, ◌<◌, ◌≤◌, ◌≡◌, String, Bool, true, false, not, ◌&&◌,
  ◌||◌, if◌then◌else◌, arith,
}
use agent_gpu.Store.{Time}

pub data Window : Type 0 where
  minute day month : Window

unfoldable pub window_text : Window → String
window_text minute = "minute"
window_text day = "day"
window_text month = "month"

abbrev pub minute_length : ℕ
minute_length = 60000000000

abbrev pub day_length : ℕ
day_length = 86400000000000

is_leap : ℕ → Bool
is_leap year = year % 4 == 0 && (not (year % 100 == 0) || year % 400 == 0)

-- The days of a month, counted from January of the year 1 on, from 0.
unfoldable pub month_days : ℕ → ℕ
unfolding is_leap
month_days m =
    let k = m % 12 in
    if k == 1
    then (if is_leap (m / 12 + 1) then 29 else 28)
    else if k == 3 || k == 5 || k == 8 || k == 10
    then 30
    else 31

-- The month of a day, both counted from 0, and the days of that month before it.
unfoldable pub civil : ℕ → ℕ × ℕ
civil zero = (0, 0)
civil (suc d) = let (m, k) = civil d in if suc k == month_days m then (suc m, 0) else (m, suc k)

unfoldable pub window_start : Window → Time → Time
unfolding civil
window_start minute t = t - t % minute_length
window_start day t = t - t % day_length
window_start month t = (t / day_length - (civil (t / day_length)).1) * day_length

unfoldable pub window_reset : Window → Time → Time
unfolding window_start civil
window_reset minute t = window_start minute t + minute_length
window_reset day t = window_start day t + day_length
window_reset month t = window_start month t + month_days (civil (t / day_length)).0 * day_length
