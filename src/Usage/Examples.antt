-- ===== src/Usage/Examples.antt =====
-- Two rounds on one day, and one on the next.
use agent_gpu.Prelude.{ℕ, ◌+◌, ◌≡◌, refl, lookup, insert, last_of, String, List, [], ◌∷◌}
use agent_gpu.Store.{Time}
use agent_gpu.Quota.{Snapshot}
use agent_gpu.Quota.Window.{day_length, window_start}
use agent_gpu.Usage.{
  max_days, day_start, ends_on, set_last, trim_days, note, record_snapshot, record_snapshots,
  record_usage, series_for_key,
}
use agent_gpu.Usage.Series.{latest_per_day, samples_of, record_rounds, record_rounds-series}

abbrev snapshot : String → ℕ → Snapshot
snapshot key tokens = record {
  key_id = key;
  limits = record { rpm = 0; tpm = 0; daily_tokens = 0; monthly_tokens = 0 };
  requests_this_minute = 1;
  tokens_this_minute = 0;
  tokens_today = tokens;
  tokens_this_month = tokens;
  minute_resets_at = 0;
  day_resets_at = 0;
  month_resets_at = 0;
}

abbrev rounds : List (List Snapshot × Time)
rounds =
    (snapshot "k1" 5 ∷ snapshot "k2" 6 ∷ [], 10)
    ∷ (snapshot "k1" 8 ∷ [], 20)
    ∷ (snapshot "k1" 2 ∷ [], day_length + 3)
    ∷ []

two_days :
    series_for_key "k1" (record_rounds rounds [])
    ≡ record { day_at = 0; tokens = 8; requests = 1 }
      ∷ record { day_at = day_length; tokens = 2; requests = 1 }
      ∷ []
unfolding series_for_key record_rounds record_usage record_snapshots record_snapshot note ends_on
    set_last trim_days day_start window_start lookup insert
two_days = refl

record_rounds-series_example :
    series_for_key "k1" (record_rounds rounds [])
    ≡ last_of max_days (latest_per_day (samples_of "k1" rounds))
record_rounds-series_example = record_rounds-series "k1" rounds refl
