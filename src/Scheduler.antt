-- ===== src/Scheduler.antt =====
-- internal/scheduler/scheduler.go: which worker runs a model, and a job's priority in the queue. The
-- fields of a worker have 32 and 64 bits, so that no score leaves the range of an int64.
pub mod Order
pub mod Index
pub mod Best
pub mod Affinity
pub mod Stable
pub mod Roles
mod Examples
use agent_gpu.Prelude.{
  ℕ, ℤ, pos, ◌+ℤ◌, ◌-ℤ◌, ◌*◌, ◌/◌, ◌^◌, ltb, ltz, String, str_eq, Bool, true, false, not, ◌&&◌,
  if◌then◌else◌, Option, none, some, List, [], ◌∷◌, ◌++◌, lookup, insert, sort_strings,
}
use agent_gpu.Types.{Model, Worker, WorkerStatus, online, draining, stale}
use agent_gpu.Authz.{role_admin, role_user}
use agent_gpu.Queue.{Priority, priority_low, priority_normal, priority_high}

abbrev pub weight_model_loaded : ℕ
weight_model_loaded = 1000000000

abbrev free_vram_unit : ℕ
free_vram_unit = 2 ^ 30

abbrev pub weight_free_vram_per_gib : ℕ
weight_free_vram_per_gib = 10000

abbrev pub weight_load_penalty : ℕ
weight_load_penalty = 50

abbrev pub weight_active_job_penalty : ℕ
weight_active_job_penalty = 1

abbrev pub weight_bound_worker_bonus : ℕ
weight_bound_worker_bonus = 100000000

has_named : List Model → String → Bool
has_named [] model = false
has_named (m ∷ ms) model = if str_eq m.name model then true else has_named ms model

unfoldable pub has_model : Worker → String → Bool
unfolding has_named
has_model w model = has_named w.models model

is_online : WorkerStatus → Bool
is_online online = true
is_online draining = false
is_online stale = false

unfoldable pub runnable : Worker → String → Bool
unfolding is_online
runnable w model =
    if not (is_online w.status)
    then false
    else if has_model w model
    then true
    else ltb 0 w.free_vram

-- The whole GiB that are free.
unfoldable pub free_gib : Worker → ℕ
free_gib w = w.free_vram / free_vram_unit

unfoldable pub score : Worker → String → ℤ
unfolding free_gib ◌+ℤ◌ ◌-ℤ◌
score w model =
    let start = if has_model w model then pos weight_model_loaded else pos 0 in
    start
    +ℤ pos (free_gib w * weight_free_vram_per_gib)
    -ℤ pos (w.load * weight_load_penalty)
    -ℤ pos (w.active_jobs * weight_active_job_penalty)

-- The loop over the fleet: the runnable workers by their ids, and these ids.
unfoldable pub index :
    String
    → List Worker
    → List (String × Worker)
    → List String
    → List (String × Worker) × List String
index model [] by_id ids = (by_id, ids)
index model (w ∷ ws) by_id ids =
    if not (runnable w model)
    then index model ws by_id ids
    else index model ws (insert w.id w by_id) (ids ++ w.id ∷ [])

-- What Go reads from a map without the key; the loop reads only ids that are in it.
zero_worker : Worker
zero_worker = record {
  id = "";
  models = [];
  last_seen = 0;
  active_jobs = 0;
  total_vram = 0;
  free_vram = 0;
  load = 0;
  gpu_type = "";
  status = online;
  registered_at = 0;
}

unfoldable pub worker_at : List (String × Worker) → String → Worker
unfolding zero_worker
worker_at by_id id = elim (lookup id by_id) [ none ↦ zero_worker | some w ↦ w ]

unfoldable pub score_for : List (String × Worker) → String → String → String → ℤ
score_for by_id model preferred id =
    let s = score (worker_at by_id id) model in
    if not (str_eq preferred "") && str_eq id preferred
    then s +ℤ pos weight_bound_worker_bonus
    else s

-- The loop over the ids after the first.
unfoldable pub best_of : (String → ℤ) → String → ℤ → List String → String
best_of f best_id best_score [] = best_id
best_of f best_id best_score (id ∷ ids) =
    if ltz best_score (f id) then best_of f id (f id) ids else best_of f best_id best_score ids

unfoldable pub first_best : (String → ℤ) → List String → Option String
first_best f [] = none
first_best f (id ∷ ids) = some (best_of f id (f id) ids)

unfoldable pub pick_preferring : List Worker → String → String → Option String
pick_preferring workers model preferred =
    let (by_id, ids) = index model workers [] [] in
    first_best (score_for by_id model preferred) (sort_strings ids)

unfoldable pub pick : List Worker → String → Option String
pick workers model = pick_preferring workers model ""

raise : Priority → List String → Priority
raise best [] = best
raise best (r ∷ roles) =
    if str_eq r role_admin
    then raise (if ltb best priority_high then priority_high else best) roles
    else if str_eq r role_user
    then raise (if ltb best priority_normal then priority_normal else best) roles
    else raise best roles

unfoldable pub priority_for_roles : List String → Priority
unfolding raise
priority_for_roles roles = raise priority_low roles
