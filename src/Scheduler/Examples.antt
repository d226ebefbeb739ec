-- ===== src/Scheduler/Examples.antt =====
-- A fleet of three workers, of which one has the model loaded.
use agent_gpu.Prelude.{
  eq_iff, difference, lookup, insert, ◌*◌, ◌^◌, ◌<◌, ℕ, String, ◌≡◌, refl, ◌≢◌, some, none, List,
  [], ◌∷◌, Mem, arith, All, ◌⊎◌, sort_strings, false,
}
use mathlib.Core.List.{mem-cons}
use mathlib.Core.Logic.Or
use agent_gpu.Types.{Model, Worker, WorkerStatus, online, stale}
use agent_gpu.Scheduler.{
  free_gib, pick, pick_preferring, runnable, index, first_best, best_of, score_for, worker_at,
  score, has_model,
}
use agent_gpu.Scheduler.Index.{IsFleet}
use agent_gpu.Scheduler.Best.{IsBest, pick_preferring-IsBest}
use agent_gpu.Scheduler.Affinity.{InRange}

abbrev worker : String → List Model → ℕ → WorkerStatus → Worker
worker id models gib status = record {
  id = id;
  models = models;
  last_seen = 0;
  active_jobs = 1;
  total_vram = 64 * 2 ^ 30;
  free_vram = gib * 2 ^ 30;
  load = 10;
  gpu_type = "";
  status = status;
  registered_at = 0;
}

abbrev a : Worker
a = worker "a" [] 8 online

abbrev b : Worker
b = worker "b" (record { name = "llama3"; digest = "" } ∷ []) 1 online

abbrev c : Worker
c = worker "c" [] 64 stale

abbrev fleet : List Worker
fleet = b ∷ a ∷ c ∷ []

apart_a_b : ◌≢◌ {A = String} "a" "b"
apart_a_b e = ground (arith, eq_iff "a" "b")

apart_c_b : ◌≢◌ {A = String} "c" "b"
apart_c_b e = ground (arith, eq_iff "c" "b")

apart_c_a : ◌≢◌ {A = String} "c" "a"
apart_c_a e = ground (arith, eq_iff "c" "a")

fleet-IsFleet : IsFleet fleet
fleet-IsFleet = ((apart_a_b, (apart_c_b, tt)), ((apart_c_a, tt), (tt, tt)))

pair-InRange : (n : ℕ) → 8 < n → All (InRange n) (b ∷ a ∷ [])
unfolding free_gib
pair-InRange n h = (
  record { load_percent = omega arith; few_jobs = omega arith; memory = omega arith },
  (record { load_percent = omega arith; few_jobs = omega arith; memory = omega arith }, tt),
)

pair-IsFleet : IsFleet (b ∷ a ∷ [])
pair-IsFleet = ((apart_a_b, tt), (tt, tt))

pick_preferring-IsBest_example :
    ((pick_preferring fleet "llama3" "c" ≡ none) × All (λ w. runnable w "llama3" ≡ false) fleet)
    ⊎ ((w : Worker) × (pick_preferring fleet "llama3" "c" ≡ some w.id)
        × IsBest fleet "llama3" "c" w)
pick_preferring-IsBest_example = pick_preferring-IsBest fleet "llama3" "c" fleet-IsFleet

pick_loaded : pick fleet "llama3" ≡ some "b"
unfolding pick pick_preferring runnable index first_best best_of score_for worker_at score has_model
    sort_strings difference lookup insert
pick_loaded = refl

b_first : Mem b (b ∷ a ∷ [])
b_first = mem-cons.1 (Or.inl refl)
