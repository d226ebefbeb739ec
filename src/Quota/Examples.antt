-- ===== src/Quota/Examples.antt =====
-- Requests in January and February of the year 1.
use agent_gpu.Prelude.{◌≡◌, refl, ◌≢◌, ◌≤◌, ◌+◌, ◌*◌, some, List, [], ◌∷◌, arith, eq_iff, lookup}
use agent_gpu.Store.{ApiKey, Limits, Time}
use agent_gpu.Store.Examples.{app_key}
use agent_gpu.Quota.Window.{month, civil, month_days, window_start}
use agent_gpu.Quota.{Engine, Counters, Snapshot, roll, counters_at, effective_limits}
use agent_gpu.Quota.Roll.{requests_in}
use agent_gpu.Quota.Admission.{requests_of, Call, request, tokens, admitted}
use agent_gpu.Quota.Rate.{run, run-admitted}

abbrev limits_two : Limits
limits_two = record { rpm = 2; tpm = 100; daily_tokens = 0; monthly_tokens = 0 }

abbrev key : ApiKey
key = record app_key { limits = some limits_two }

abbrev engine : Engine
engine = record { counters = []; defaults = limits_two; global = limits_two }

-- The second of February.
abbrev feb_2 : Time
feb_2 = 32 * 86400000000000

month_of_feb_2 : window_start month feb_2 ≡ 31 * 86400000000000
unfolding window_start civil month_days
month_of_feb_2 = refl

abbrev used_counters : Counters
used_counters = record {
  minute_start = 0;
  minute_requests = 2;
  minute_tokens = 100;
  day_start = 0;
  day_tokens = 7;
  month_start = 0;
  month_tokens = 7;
}

fresh : (roll 7 (counters_at key.id [])).minute_requests ≡ 0
unfolding roll counters_at lookup window_start
fresh = refl

none_counted : requests_of key.id 0 [] ≡ 0
unfolding requests_in counters_at lookup
none_counted = refl

key_id_apart : key.id ≢ "__global__"
key_id_apart e = ground (arith, eq_iff key.id "__global__")

abbrev calls : List Call
calls = request key 7 ∷ request key 8 ∷ tokens key.id 9 5 ∷ request key 61 ∷ []

run-admitted_example :
    (requests_of key.id 0 (run engine calls).counters
      ≡ requests_of key.id 0 [] + admitted key.id engine calls)
    × (requests_of key.id 0 (run engine calls).counters ≤ 2)
unfolding window_start effective_limits requests_in
run-admitted_example =
    run-admitted key.id 0 2 engine calls key_id_apart (omega arith)
      (refl, (refl, (refl, (refl, tt))))
      (
        (λ e. (omega arith, omega arith)),
        ((λ e. (omega arith, omega arith)), (tt, ((λ e. (omega arith, omega arith)), tt))),
      )
      (rw none_counted (omega arith))

abbrev spent : Snapshot
spent = record {
  key_id = "k";
  limits = limits_two;
  requests_this_minute = 1;
  tokens_this_minute = 120;
  tokens_today = 120;
  tokens_this_month = 120;
  minute_resets_at = 60;
  day_resets_at = 1000;
  month_resets_at = 9000;
}
