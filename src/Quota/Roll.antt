-- ===== src/Quota/Roll.antt =====
-- Rolling the windows, and the counters of one key.
use agent_gpu.Prelude.{
  ℕ, ◌==◌, ◌≡◌, refl, String, str_eq, if◌then◌else◌, arith, insert, lookup-insert, Bool-cases, inl,
  inr,
}
use agent_gpu.Store.{Time}
use agent_gpu.Quota.Window.{minute, day, month, window_start}
use agent_gpu.Quota.{Counters, CounterStore, roll, counters_at}

-- The requests that the counters have for the minute that starts at the given time.
unfoldable pub requests_in : Time → Counters → ℕ
requests_in ms c = if c.minute_start == ms then c.minute_requests else 0

-- Rolling puts every counter into the window of the time given: it keeps what was counted in that
-- window, and drops what was counted in another.
pub roll_windows :
    (now : Time) (c : Counters)
    → ((roll now c).minute_start ≡ window_start minute now)
      × ((roll now c).day_start ≡ window_start day now)
      × ((roll now c).month_start ≡ window_start month now)
      × ((roll now c).minute_requests
          ≡ (if c.minute_start == window_start minute now then c.minute_requests else 0))
      × ((roll now c).minute_tokens
          ≡ (if c.minute_start == window_start minute now then c.minute_tokens else 0))
      × ((roll now c).day_tokens
          ≡ (if c.day_start == window_start day now then c.day_tokens else 0))
      × ((roll now c).month_tokens
          ≡ (if c.month_start == window_start month now then c.month_tokens else 0))
unfolding roll
roll_windows now c = (
  ground arith,
  ground arith,
  ground arith,
  ground arith,
  ground arith,
  ground arith,
  ground arith,
)

pub counters_at-insert :
    (id asked : String) (c : Counters) (m : CounterStore)
    → counters_at asked (insert id c m) ≡ (if str_eq id asked then c else counters_at asked m)
unfolding counters_at
counters_at-insert id asked c m = elim (Bool-cases (str_eq id asked)) [
  | inl e ↦ rw (lookup-insert id asked c m, e) refl
  | inr e ↦ rw (lookup-insert id asked c m, e) refl
]
