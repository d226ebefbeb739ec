-- ===== src/Server/Wait.antt =====
-- The distribution of the time that jobs spend in the queue, of internal/server/server.go: the
-- `wait…` fields of `Server`, recordWait and WaitTimeStats.
mod Examples
use agent_gpu.Prelude.{
  ℕ, ℤ, pos_part, suc, ◌+◌, ◌/◌, ◌%◌, ◌^◌, ◌≡◌, refl, sym, ◌∙◌, ap, ltb, leb, if◌then◌else◌, List,
  [], ◌∷◌, ◌++◌, map, arith, length,
}

-- In milliseconds.
abbrev wait_bucket_bounds : List ℕ
wait_bucket_bounds = 10 ∷ 100 ∷ 1000 ∷ 10000 ∷ []

-- Each number is a uint64.
pub record WaitTimes : Type 0 where
  pub count : ℕ
  pub sum_ms : ℕ
  pub max_ms : ℕ
  pub buckets : List ℕ

unfoldable pub no_waits : WaitTimes
no_waits = record { count = 0; sum_ms = 0; max_ms = 0; buckets = 0 ∷ 0 ∷ 0 ∷ 0 ∷ [] }

-- The loop over the bounds.
unfoldable pub fill : ℕ → List ℕ → List ℕ → List ℕ
fill ms [] counts = counts
fill ms (bound ∷ bounds) [] = []
fill ms (bound ∷ bounds) (n ∷ counts) =
    (if leb ms bound then (n + 1) % 2 ^ 64 else n) ∷ fill ms bounds counts

-- A duration in nanoseconds as whole milliseconds, where a negative one counts as 0.
abbrev millis : ℤ → ℕ
millis d = pos_part d / 1000000

unfoldable pub record_wait : ℤ → WaitTimes → WaitTimes
unfolding fill
record_wait d t =
    let ms = millis d in
    record {
      count = (t.count + 1) % 2 ^ 64;
      sum_ms = (t.sum_ms + ms) % 2 ^ 64;
      max_ms = if ltb t.max_ms ms then ms else t.max_ms;
      buckets = fill ms wait_bucket_bounds t.buckets;
    }

pub record WaitBucket : Type 0 where
  pub le_ms : ℕ  -- 0 for no bound
  pub count : ℕ

pub record WaitTimeStats : Type 0 where
  pub count : ℕ
  pub sum_ms : ℕ
  pub max_ms : ℕ
  pub buckets : List WaitBucket

zip_buckets : List ℕ → List ℕ → List WaitBucket
zip_buckets [] counts = []
zip_buckets (bound ∷ bounds) [] = []
zip_buckets (bound ∷ bounds) (n ∷ counts) =
    record { le_ms = bound; count = n } ∷ zip_buckets bounds counts

unfoldable pub wait_time_stats : WaitTimes → WaitTimeStats
unfolding zip_buckets
wait_time_stats t = record {
  count = t.count;
  sum_ms = t.sum_ms;
  max_ms = t.max_ms;
  buckets = zip_buckets wait_bucket_bounds t.buckets ++ record { le_ms = 0; count = t.count } ∷ [];
}

-- The waits of a run, the last first.
unfoldable pub record_all : List ℤ → WaitTimes
record_all [] = no_waits
record_all (d ∷ ds) = record_wait d (record_all ds)

-- What the numbers should be.
abbrev total_ms : List ℤ → ℕ
total_ms [] = 0
total_ms (d ∷ ds) = total_ms ds + millis d

abbrev longest_ms : List ℤ → ℕ
longest_ms [] = 0
longest_ms (d ∷ ds) = if ltb (longest_ms ds) (millis d) then millis d else longest_ms ds

abbrev up_to : ℕ → List ℤ → ℕ
up_to bound [] = 0
up_to bound (d ∷ ds) = if leb (millis d) bound then up_to bound ds + 1 else up_to bound ds

abbrev bucket : List ℤ → ℕ → WaitBucket
bucket ds bound = record { le_ms = bound; count = up_to bound ds % 2 ^ 64 }

abbrev expected : List ℤ → WaitTimes
expected ds = record {
  count = length ds % 2 ^ 64;
  sum_ms = total_ms ds % 2 ^ 64;
  max_ms = longest_ms ds;
  buckets = map (λ b. up_to b ds % 2 ^ 64) wait_bucket_bounds;
}

record_all-expected : (ds : List ℤ) → record_all ds ≡ expected ds
unfolding record_all no_waits record_wait
record_all-expected [] = refl
record_all-expected (d ∷ ds) = rw (record_all-expected ds) (ground arith)

-- After any waits the statistics are their number, their sum and their longest, in milliseconds, and
-- for each bound how many were at most as long; the last bucket has all of them. Every number but
-- the longest is counted modulo 2 ^ 64.
pub wait_time_stats-record_all :
    (ds : List ℤ)
    → wait_time_stats (record_all ds) ≡ record {
      count = length ds % 2 ^ 64;
      sum_ms = total_ms ds % 2 ^ 64;
      max_ms = longest_ms ds;
      buckets =
          map (bucket ds) wait_bucket_bounds
          ++ record { le_ms = 0; count = length ds % 2 ^ 64 } ∷ [];
    }
unfolding wait_time_stats
wait_time_stats-record_all ds = rw (record_all-expected ds) refl
