-- ===== src/Quota.antt =====
-- internal/quota/quota.go, store.go and engine.go: fixed-window counters of requests and tokens, and
-- what they admit. The counters and the limits have 64 bits. A lock makes each method one step.
pub mod Window
pub mod Roll
pub mod Admission
pub mod Rate
pub mod Minutes
pub mod Retry
mod Examples
use agent_gpu.Prelude.{
  ℕ, suc, ◌+◌, ◌%◌, ◌^◌, ltb, leb, ◌==◌, String, Bool, true, false, not, ◌&&◌, if◌then◌else◌,
  Option, none, some, List, [], ◌∷◌, map, lookup, insert,
}
use agent_gpu.Store.{ApiKey, Limits, Time}
use agent_gpu.Quota.Window.{minute, day, month, window_start, window_reset}

pub record Counters : Type 0 where
  pub minute_start : Time
  pub minute_requests : ℕ  -- uint64
  pub minute_tokens : ℕ  -- uint64
  pub day_start : Time
  pub day_tokens : ℕ  -- uint64
  pub month_start : Time
  pub month_tokens : ℕ  -- uint64

roll_minute : Time → Counters → Counters
roll_minute now c =
    let ms = window_start minute now in
    if not (c.minute_start == ms)
    then record c { minute_start = ms; minute_requests = 0; minute_tokens = 0 }
    else c

roll_day : Time → Counters → Counters
roll_day now c =
    let ds = window_start day now in
    if not (c.day_start == ds) then record c { day_start = ds; day_tokens = 0 } else c

roll_month : Time → Counters → Counters
roll_month now c =
    let mos = window_start month now in
    if not (c.month_start == mos) then record c { month_start = mos; month_tokens = 0 } else c

unfoldable pub roll : Time → Counters → Counters
unfolding roll_minute roll_day roll_month
roll now c = roll_month now (roll_day now (roll_minute now c))

abbrev pub CounterStore : Type 0
CounterStore = List (String × Counters)

-- `m.counters[keyID]`, the zero value where the key is missing: its times are Go's zero time.
abbrev or_zero : Option Counters → Counters
or_zero none = record {
  minute_start = 0;
  minute_requests = 0;
  minute_tokens = 0;
  day_start = 0;
  day_tokens = 0;
  month_start = 0;
  month_tokens = 0;
}
or_zero (some c) = c

unfoldable pub counters_at : String → CounterStore → Counters
counters_at id m = or_zero (lookup id m)

-- Why a request is denied, as the audit has it.
pub record Denial : Type 0 where
  pub quota_type : String
  pub usage : ℕ
  pub limit : ℕ

abbrev settle : String → Counters → CounterStore → Option Denial → CounterStore × Option Denial
settle id c m (some d) = (insert id c m, some d)
settle id c m none =
    (insert id (record c { minute_requests = (c.minute_requests + 1) % 2 ^ 64 }) m, none)

unfoldable pub reserve :
    String → Time → (Counters → Option Denial) → CounterStore → CounterStore × Option Denial
reserve id now check m = let c = roll now (counters_at id m) in settle id c m (check c)

unfoldable pub add_tokens : String → Time → ℕ → CounterStore → CounterStore
add_tokens id now n m =
    let c = roll now (counters_at id m) in
    insert id
      (record c {
        minute_tokens = (c.minute_tokens + n) % 2 ^ 64;
        day_tokens = (c.day_tokens + n) % 2 ^ 64;
        month_tokens = (c.month_tokens + n) % 2 ^ 64;
      })
      m

unfoldable pub get : String → Time → CounterStore → CounterStore × Counters
get id now m = let c = roll now (counters_at id m) in (insert id c m, c)

pub record Engine : Type 0 where
  pub counters : CounterStore
  pub defaults : Limits
  pub global : Limits

abbrev pub global_key_id : String
global_key_id = "__global__"

unfoldable pub set_defaults : Limits → Engine → Engine
set_defaults d e = record e { defaults = d }

unfoldable pub set_global_limits : ℕ → ℕ → Engine → Engine
set_global_limits rpm tpm e = record e {
  global = record { rpm = rpm; tpm = tpm; daily_tokens = 0; monthly_tokens = 0 };
}

abbrev pub limits_or : Limits → Option Limits → Limits
limits_or defaults none = defaults
limits_or defaults (some own) = own

unfoldable pub effective_limits : ApiKey → Engine → Limits
effective_limits key e = limits_or e.defaults key.limits

-- The check that `CheckAndReserve` passes to the store.
unfoldable pub check : Limits → Counters → Option Denial
check lim c =
    if not (lim.rpm == 0) && ltb lim.rpm ((c.minute_requests + 1) % 2 ^ 64)
    then some (record { quota_type = "rpm"; usage = c.minute_requests; limit = lim.rpm })
    else if not (lim.tpm == 0) && leb lim.tpm c.minute_tokens
    then some (record { quota_type = "tpm"; usage = c.minute_tokens; limit = lim.tpm })
    else if not (lim.daily_tokens == 0) && leb lim.daily_tokens c.day_tokens
    then some
        (record { quota_type = "daily_tokens"; usage = c.day_tokens; limit = lim.daily_tokens })
    else if not (lim.monthly_tokens == 0) && leb lim.monthly_tokens c.month_tokens
    then some (record {
      quota_type = "monthly_tokens";
      usage = c.month_tokens;
      limit = lim.monthly_tokens;
    })
    else none

unfoldable pub check_and_reserve : ApiKey → Time → Engine → Engine × Option Denial
check_and_reserve key now e =
    let (m, r) = reserve key.id now (check (effective_limits key e)) e.counters in
    (record e { counters = m }, r)

unfoldable pub check_global : Limits → Counters → Option Denial
check_global lim c =
    if not (lim.rpm == 0) && ltb lim.rpm ((c.minute_requests + 1) % 2 ^ 64)
    then some (record { quota_type = "global_rpm"; usage = c.minute_requests; limit = lim.rpm })
    else if not (lim.tpm == 0) && leb lim.tpm c.minute_tokens
    then some (record { quota_type = "global_tpm"; usage = c.minute_tokens; limit = lim.tpm })
    else none

unfoldable pub check_and_reserve_global : Time → Engine → Engine × Option Denial
check_and_reserve_global now e =
    if e.global.rpm == 0 && e.global.tpm == 0
    then (e, none)
    else (let (m, r) = reserve global_key_id now (check_global e.global) e.counters in
        (record e { counters = m }, r))

unfoldable pub record_tokens : String → Time → ℕ → Engine → Engine
record_tokens id now n e =
    if n == 0 then e else record e { counters = add_tokens id now n e.counters }

unfoldable pub record_global_tokens : Time → ℕ → Engine → Engine
record_global_tokens now n e =
    if n == 0
    then e
    else if e.global.rpm == 0 && e.global.tpm == 0
    then e
    else record e { counters = add_tokens global_key_id now n e.counters }

pub record Snapshot : Type 0 where
  pub key_id : String
  pub limits : Limits
  pub requests_this_minute : ℕ
  pub tokens_this_minute : ℕ
  pub tokens_today : ℕ
  pub tokens_this_month : ℕ
  pub minute_resets_at : Time
  pub day_resets_at : Time
  pub month_resets_at : Time

unfoldable pub usage : String → Limits → Time → Engine → Engine × Snapshot
usage id lim now e =
    let (m, c) = get id now e.counters in
    (
      record e { counters = m },
      record {
        key_id = id;
        limits = lim;
        requests_this_minute = c.minute_requests;
        tokens_this_minute = c.minute_tokens;
        tokens_today = c.day_tokens;
        tokens_this_month = c.month_tokens;
        minute_resets_at = window_reset minute now;
        day_resets_at = window_reset day now;
        month_resets_at = window_reset month now;
      },
    )

unfoldable pub usage_for_key : ApiKey → Time → Engine → Engine × Snapshot
usage_for_key key now e = usage key.id (effective_limits key e) now e

-- `consider` of `RetryAfter`, with the best time so far.
unfoldable pub consider : Time → Time → Option Time → Option Time
consider now reset best =
    if not (ltb now reset)
    then best
    else elim best [ none ↦ some reset | some b ↦ if ltb reset b then some reset else some b ]

unfoldable pub exhausted : ℕ → ℕ → Bool
exhausted limit used = not (limit == 0) && leb limit used

unfoldable pub retry_after : Time → Snapshot → Option Time
retry_after now s =
    let at_rpm =
      if exhausted s.limits.rpm s.requests_this_minute
      then consider now s.minute_resets_at none
      else none in
    let at_tpm =
      if exhausted s.limits.tpm s.tokens_this_minute
      then consider now s.minute_resets_at at_rpm
      else at_rpm in
    let at_day =
      if exhausted s.limits.daily_tokens s.tokens_today
      then consider now s.day_resets_at at_tpm
      else at_tpm in
    let at_month =
      if exhausted s.limits.monthly_tokens s.tokens_this_month
      then consider now s.month_resets_at at_day
      else at_day in
    elim at_month [
      | some best ↦ some best
      | none ↦
          consider now s.month_resets_at
            (consider now s.day_resets_at (consider now s.minute_resets_at none))
    ]
