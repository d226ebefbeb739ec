-- ===== src/Usage.antt =====
-- internal/usage/usage.go: the last days of every key. The lock makes each method one step; the
-- checkpoint's file is left out, and its sort, which is not stable, is an argument.
pub mod Series
mod Examples
use agent_gpu.Prelude.{
  ℕ, suc, ◌+◌, ◌-◌, ltb, ◌==◌, String, str_eq, Bool, true, false, Option, none, some, or_default,
  List, [], ◌∷◌, ◌++◌, map, drop, length, lookup, insert, if◌then◌else◌,
}
use agent_gpu.Store.{Time}
use agent_gpu.Quota.{Snapshot}
use agent_gpu.Quota.Window.{day, window_start}

abbrev pub max_days : ℕ
max_days = 7

pub record DailySample : Type 0 where
  pub day_at : Time  -- `Day`
  pub tokens : ℕ
  pub requests : ℕ

abbrev pub UsageStore : Type 0
UsageStore = List (String × List DailySample)

unfoldable pub day_start : Time → Time
day_start t = window_start day t

-- `len(hist) > 0 && hist[len(hist)-1].Day.Equal(today)`
unfoldable pub ends_on : Time → List DailySample → Bool
ends_on today [] = false
ends_on today (x ∷ []) = x.day_at == today
ends_on today (x ∷ y ∷ hist) = ends_on today (y ∷ hist)

-- `hist[len(hist)-1] = sample`
unfoldable pub set_last : DailySample → List DailySample → List DailySample
set_last sample [] = []
set_last sample (x ∷ []) = sample ∷ []
set_last sample (x ∷ y ∷ hist) = x ∷ set_last sample (y ∷ hist)

-- `hist[len(hist)-MaxDays:]` of a history that is longer.
unfoldable pub trim_days : List DailySample → List DailySample
trim_days hist = if ltb max_days (length hist) then drop (length hist - max_days) hist else hist

-- What becomes of the history of a key.
unfoldable pub note : DailySample → List DailySample → List DailySample
note sample hist =
    if ends_on sample.day_at hist then set_last sample hist else trim_days (hist ++ sample ∷ [])

abbrev pub sample_of : Time → Snapshot → DailySample
sample_of today snap = record {
  day_at = today;
  tokens = snap.tokens_today;
  requests = snap.requests_this_minute;
}

unfoldable pub record_snapshot : Time → Snapshot → UsageStore → UsageStore
record_snapshot today snap m =
    if str_eq snap.key_id ""
    then m
    else insert snap.key_id (note (sample_of today snap) (or_default [] (lookup snap.key_id m))) m

-- The loop of `Record`, and `Record`.
unfoldable pub record_snapshots : Time → List Snapshot → UsageStore → UsageStore
record_snapshots today [] m = m
record_snapshots today (snap ∷ snaps) m =
    record_snapshots today snaps (record_snapshot today snap m)

unfoldable pub record_usage : List Snapshot → Time → UsageStore → UsageStore
record_usage snaps now m = record_snapshots (day_start now) snaps m

unfoldable pub series_for_key : String → UsageStore → List DailySample
series_for_key key m = or_default [] (lookup key m)

-- What `LoadCheckpoint` does to the histories that it has read.
abbrev normal_day : DailySample → DailySample
normal_day x = record x { day_at = day_start x.day_at }

unfoldable pub load_checkpoint :
    (List DailySample → List DailySample) → List (String × List DailySample) → UsageStore
load_checkpoint sort_days [] = []
load_checkpoint sort_days ((id, hist) ∷ loaded) =
    (id, trim_days (sort_days (map normal_day hist))) ∷ load_checkpoint sort_days loaded
