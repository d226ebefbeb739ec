-- ===== src/HttpApi/RateLimit.antt =====
-- internal/httpapi/ratelimit.go, in front of the quota engine. A time is a number of nanoseconds;
-- `math.Ceil` of the seconds is exact at the lengths of these windows. The counter store is the one in
-- memory, which fails at nothing but the limits.
pub mod Retry
mod Examples
use agent_gpu.Prelude.{
  ℕ, ◌+◌, ◌-◌, ◌*◌, ◌/◌, ◌%◌, ◌^◌, ltb, leb, String, Option, none, some, if◌then◌else◌,
}
use agent_gpu.Store.{Time}
use agent_gpu.Quota.Window.{minute, window_reset}
use agent_gpu.Quota.{Denial, Engine, check_and_reserve_global}

abbrev pub second : Time
second = 1000000000

unfoldable pub seconds_until : Time → Time → ℕ
seconds_until reset now =
    let d = reset - now in
    if leb d 0
    then 1
    else (let secs = (d + (second - 1)) / second in if ltb secs 1 then 1 else secs)

-- The counters of throttled requests (uint64), and the engine of the server, if it has one.
pub record Limiter : Type 0 where
  pub quota : Option Engine
  pub global_throttled : ℕ
  pub key_throttled : ℕ

unfoldable pub inc_global_throttled : Limiter → Limiter
inc_global_throttled l = record l { global_throttled = (l.global_throttled + 1) % 2 ^ 64 }

unfoldable pub inc_key_throttled : Limiter → Limiter
inc_key_throttled l = record l { key_throttled = (l.key_throttled + 1) % 2 ^ 64 }

pub record RateLimitStats : Type 0 where
  pub global : ℕ
  pub key : ℕ

unfoldable pub rate_limit_stats : Limiter → RateLimitStats
rate_limit_stats l = record { global = l.global_throttled; key = l.key_throttled }

-- What the client gets instead of the handler's answer.
pub record Refusal : Type 0 where
  pub status : ℕ
  pub code : String
  pub message : String
  pub retry_after : ℕ

-- The middleware goes on to the handler when there is no refusal. It reads the clock at the check,
-- for the end of the window, and for the time to wait.
unfoldable pub after_check :
    Time → Time → Limiter → Engine × Option Denial → Limiter × Option Refusal
unfolding inc_global_throttled seconds_until
after_check at_reset at_wait l (e, none) = (record l { quota = some e }, none)
after_check at_reset at_wait l (e, some d) = (
  inc_global_throttled (record l { quota = some e }),
  some (record {
    status = 429;
    code = "rate_limit_exceeded";
    message = "rate limit exceeded";
    retry_after = seconds_until (window_reset minute at_reset) at_wait;
  }),
)

unfoldable pub rate_limit_middleware : Time → Time → Time → Limiter → Limiter × Option Refusal
unfolding after_check
rate_limit_middleware now at_reset at_wait l = elim l.quota [
  | none ↦ (l, none)
  | some e ↦ after_check at_reset at_wait l (check_and_reserve_global now e)
]
