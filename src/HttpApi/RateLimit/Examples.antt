-- ===== src/HttpApi/RateLimit/Examples.antt =====
-- One request a minute for the whole server.
use agent_gpu.Prelude.{
  ◌+◌, ◌*◌, ◌≤◌, ◌<◌, ◌≡◌, refl, arith, ◌⊎◌, ◌-◌, insert, none, some, List, [], ◌∷◌, lookup,
}
use agent_gpu.Store.{Limits}
use agent_gpu.Quota.{check_and_reserve_global, reserve, roll, counters_at, check_global}
use agent_gpu.Quota.Admission.{Call, request_global, tokens_global}
use agent_gpu.Quota.Window.{window_reset, window_start, civil}
use agent_gpu.HttpApi.RateLimit.{
  second, seconds_until, Limiter, Refusal, rate_limit_middleware, after_check, inc_global_throttled,
}
use agent_gpu.HttpApi.RateLimit.Retry.{seconds_until-least, after_calls, retry-admitted}

abbrev limits : Limits
limits = record { rpm = 1; tpm = 0; daily_tokens = 0; monthly_tokens = 0 }

abbrev fresh : Limiter
fresh = record {
  quota = some (record { counters = []; defaults = limits; global = limits });
  global_throttled = 0;
  key_throttled = 0;
}

-- After the request at second 10 of a minute.
abbrev used : Limiter
used = (rate_limit_middleware 10000000000 0 0 fresh).0

abbrev refusal : Refusal
refusal = record {
  status = 429;
  code = "rate_limit_exceeded";
  message = "rate limit exceeded";
  retry_after = 39;
}

-- At second 20 it takes a little more than one second until the clock is read for the hint.
refused : (rate_limit_middleware 20000000000 20000000000 21500000000 used).1 ≡ some refusal
unfolding rate_limit_middleware after_check inc_global_throttled seconds_until window_reset
    window_start civil check_and_reserve_global reserve roll counters_at check_global lookup insert
refused = refl

seconds_until-least_example :
    let n = seconds_until 60000000000 21500000000 in
    (1 ≤ n)
    × (60000000000 ≤ 21500000000 + n * second)
    × ((n ≡ 1) ⊎ (21500000000 + (n - 1) * second < 60000000000))
seconds_until-least_example = seconds_until-least 60000000000 21500000000

-- Another client and a job that ends, before the minute is over.
abbrev others : List Call
others = request_global 30000000000 ∷ tokens_global 40000000000 12 ∷ []

retry-admitted_example :
    (rate_limit_middleware 60500000000 60500000000 60500000000
      (after_calls others (rate_limit_middleware 20000000000 20000000000 21500000000 used).0)).1
    ≡ none
unfolding window_start
retry-admitted_example =
    retry-admitted 20000000000 20000000000 21500000000 60500000000 60500000000 60500000000 used
      refusal others (omega arith) refused (omega arith) (omega arith, (omega arith, tt))
