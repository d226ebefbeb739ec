-- ===== src/Quota/Window/Partition.antt =====
-- The windows of each length divide the time.
use agent_gpu.Prelude.{
  ℕ, true, false, suc, zero, ◌+◌, ◌-◌, ◌/◌, ◌==◌, ◌<◌, ◌≤◌, ◌≡◌, refl, ap, ◌∙◌, Bool-cases, inl,
  inr, arith,
}
use agent_gpu.Store.{Time}
use agent_gpu.Quota.Window.{
  Window, minute, day, month, day_length, month_days, civil, window_start, window_reset,
}

month_days_pos : (m : ℕ) → 28 ≤ month_days m
unfolding month_days
month_days_pos m = ground arith

first_day : ℕ → ℕ
first_day zero = 0
first_day (suc m) = first_day m + month_days m

-- A day is in its month.
civil_within : (d : ℕ) → (civil d).1 < month_days (civil d).0
unfolding civil
civil_within zero = omega (arith, month_days_pos 0)
civil_within (suc d) = ground (arith, civil_within d, month_days_pos ((civil d).0 + 1))

civil_zero : civil 0 ≡ (0, 0)
unfolding civil
civil_zero = refl

civil_next : (d m k : ℕ) → civil d ≡ (m, k) → suc k < month_days m → civil (suc d) ≡ (m, suc k)
unfolding civil
civil_next d m k e h = let n : (suc k == month_days m) ≡ false = ground arith in rw (e, n) refl

civil_last : (d m k : ℕ) → civil d ≡ (m, k) → suc k ≡ month_days m → civil (suc d) ≡ (suc m, 0)
unfolding civil
civil_last d m k e h = let n : (suc k == month_days m) ≡ true = ground arith in rw (e, n) refl

civil-first_day : (d : ℕ) → first_day (civil d).0 + (civil d).1 ≡ d
unfolding first_day
civil-first_day zero = rw civil_zero (omega arith)
civil-first_day (suc d) =
    let h = civil-first_day d in
    elim (Bool-cases (suc (civil d).1 == month_days (civil d).0)) [
      | inl e ↦
          let k : suc (civil d).1 ≡ month_days (civil d).0 = ground arith in
          rw (civil_last d (civil d).0 (civil d).1 refl k) (omega arith)
      | inr e ↦
          let k : suc (civil d).1 < month_days (civil d).0 = ground (arith, civil_within d) in
          rw (civil_next d (civil d).0 (civil d).1 refl k) (omega arith)
    ]

civil_run :
    (m k : ℕ) → civil (first_day m) ≡ (m, 0) → k < month_days m → civil (first_day m + k) ≡ (m, k)
civil_run m zero e h = ap civil (omega arith) ∙ e
civil_run m (suc k) e h =
    ap civil (omega arith) ∙ civil_next (first_day m + k) m k (civil_run m k e (omega arith)) h

civil_start : (m : ℕ) → civil (first_day m) ≡ (m, 0)
unfolding first_day
civil_start zero = civil_zero
civil_start (suc m) =
    let last = month_days m - 1 in
    ap civil (omega (arith, month_days_pos m))
    ∙ civil_last (first_day m + last) m last
        (civil_run m last (civil_start m) (omega (arith, month_days_pos m)))
        (omega (arith, month_days_pos m))

-- Two days of one month.
civil_same :
    (d e : ℕ)
    → first_day (civil d).0 ≤ e
    → e < first_day (civil d).0 + month_days (civil d).0
    → civil e ≡ ((civil d).0, e - first_day (civil d).0)
civil_same d e h k =
    let m = (civil d).0 in
    let split : e ≡ first_day m + (e - first_day m) = omega arith in
    ap civil split ∙ civil_run m (e - first_day m) (civil_start m) (omega arith)

-- A time is in its window.
pub window_start_within : (w : Window) (t : Time) → (window_start w t ≤ t) × (t < window_reset w t)
unfolding window_start window_reset
window_start_within minute t = (omega arith, omega arith)
window_start_within day t = (omega arith, omega arith)
window_start_within month t =
    let h = civil_within (t / day_length) in
    let k = civil-first_day (t / day_length) in (omega arith, omega arith)

-- Times of one window start it and end it alike.
pub window_start_same :
    (w : Window) (t u : Time)
    → window_start w t ≤ u
    → u < window_reset w t
    → (window_start w u ≡ window_start w t) × (window_reset w u ≡ window_reset w t)
unfolding window_start window_reset
window_start_same minute t u h k = (omega arith, omega arith)
window_start_same day t u h k = (omega arith, omega arith)
window_start_same month t u h k =
    let d = t / day_length in
    let e = u / day_length in
    let first = civil-first_day d in
    let same = civil_same d e (omega arith) (omega arith) in rw same (omega arith, omega arith)
