-- ===== src/Quota/Retry.antt =====
-- The hint of `RetryAfter`, and what the calls leave alone.
use agent_gpu.Prelude.{String, ◌≡◌, ◌<◌, ◌≤◌, ◌⊎◌, inl, inr, true, arith, some, Option-cases}
use agent_gpu.Store.{Limits, Time}
use agent_gpu.Quota.Window.{minute, day, month}
use agent_gpu.Quota.Window.Partition.{window_start_within}
use agent_gpu.Quota.{Snapshot, Engine, consider, exhausted, retry_after, usage}

-- The time t is the end of the window of a spent dimension.
abbrev pub EndsSpent : Snapshot → Time → Type 0
EndsSpent s t =
    ((exhausted s.limits.rpm s.requests_this_minute ≡ true) × (t ≡ s.minute_resets_at))
    ⊎ ((exhausted s.limits.tpm s.tokens_this_minute ≡ true) × (t ≡ s.minute_resets_at))
    ⊎ ((exhausted s.limits.daily_tokens s.tokens_today ≡ true) × (t ≡ s.day_resets_at))
    ⊎ ((exhausted s.limits.monthly_tokens s.tokens_this_month ≡ true) × (t ≡ s.month_resets_at))

-- The time t is no later than the end of the window of any spent dimension.
pub record Soonest (s : Snapshot) (t : Time) : Type 0 where
  pub of_rpm : exhausted s.limits.rpm s.requests_this_minute ≡ true → t ≤ s.minute_resets_at
  pub of_tpm : exhausted s.limits.tpm s.tokens_this_minute ≡ true → t ≤ s.minute_resets_at
  pub of_day : exhausted s.limits.daily_tokens s.tokens_today ≡ true → t ≤ s.day_resets_at
  pub of_month :
      exhausted s.limits.monthly_tokens s.tokens_this_month ≡ true → t ≤ s.month_resets_at

-- If a dimension is spent, and every window ends in the future, then the hint is the end of the
-- window of a spent dimension, of the first of them to end.
pub retry_after-Soonest :
    (now t : Time) (s : Snapshot)
    → now < s.minute_resets_at
    → now < s.day_resets_at
    → now < s.month_resets_at
    → EndsSpent s t
    → (u : Time) × (retry_after now s ≡ some u) × EndsSpent s u × Soonest s u × (now < u)
unfolding retry_after consider
retry_after-Soonest now t s h k l spent = elim (Option-cases (retry_after now s)) [
  | inl n ↦ absurd (ground arith)
  | inr (u, e) ↦ (
    u,
    e,
    ground arith,
    record {
      of_rpm = ground arith;
      of_tpm = ground arith;
      of_day = ground arith;
      of_month = ground arith;
    },
    ground arith,
  )
]

-- A hint on the usage that the engine reports is always there, and in the future.
pub usage-retry_after :
    (id : String) (lim : Limits) (now : Time) (e : Engine)
    → (u : Time) × (retry_after now (usage id lim now e).1 ≡ some u) × (now < u)
unfolding retry_after consider usage
usage-retry_after id lim now e =
    let m = (window_start_within minute now).1 in
    let d = (window_start_within day now).1 in
    let y = (window_start_within month now).1 in
    elim (Option-cases (retry_after now (usage id lim now e).1)) [
      | inl n ↦ absurd (ground arith)
      | inr (u, f) ↦ (u, f, ground arith)
    ]
