-- ===== src/Server/Fleet.antt =====
-- The registry of connected workers in internal/server/server.go, and what a worker's stream does to
-- it. The workers are objects: the registry holds pointers to them, and a worker that connects again
-- under its id is a new object. A part of a method under a lock is one step.
pub mod Valid
pub mod Evict
pub mod Gone
pub mod Pick
pub mod Examples
use agent_gpu.Prelude.{
  ℕ, ℤ, pos_part, suc, ◌+◌, ◌/◌, ◌%◌, ◌^◌, ltb, ◌==◌, String, str_append, str_eq, Bool, true, false,
  not, ◌&&◌, if◌then◌else◌, Option, none, some, List, [], ◌∷◌, ◌++◌, lookup, insert, remove,
}
use agent_gpu.Store.{Time}
use agent_gpu.Types.{Model, JobResult, JobChunk, JobError, Heartbeat, Worker, stale}
use agent_gpu.Scheduler.{has_model, pick_preferring}
use agent_gpu.Server.Stream.{
  Stream, Send, connected, apply_heartbeat, mark_draining, cancel, in_flight, snapshot, is_stale,
  available, resolve, accumulate, fail_all_pending,
}

-- A pointer to a worker.
abbrev pub Handle : Type 0
Handle = ℕ

-- Handles from `next_handle` on have not been allocated.
pub record Registry : Type 0 where
  pub heap : Handle → Stream
  pub next_handle : Handle
  pub workers : List (String × Handle)
  pub next_session : ℕ  -- uint64
  pub heartbeat_timeout : ℕ

abbrev pub write {ℓ} : {A : Type ℓ} → Handle → A → (Handle → A) → Handle → A
write h w heap other = if other == h then w else heap other

-- Go's `&worker{…}` and `addWorker`: the new handle and the session number.
unfoldable pub add_worker : Stream → Registry → Registry × (Handle × ℕ)
add_worker w r = (
  record r {
    heap = write r.next_handle w r.heap;
    next_handle = suc r.next_handle;
    workers = insert w.id r.next_handle r.workers;
    next_session = (r.next_session + 1) % 2 ^ 64;
  },
  (r.next_handle, (r.next_session + 1) % 2 ^ 64),
)

pub data Refusal : Type 0 where
  not_register missing_worker_id duplicate_register : Refusal

-- A message of a worker, with what its conversion from the wire gives.
pub data WorkerMessage : Type 0 where
  register : String → List Model → WorkerMessage
  heartbeat : Heartbeat → WorkerMessage
  result : JobResult → WorkerMessage
  chunk : JobChunk → WorkerMessage
  deregister unknown : WorkerMessage

pub data Connection : Type 0 where
  refused : Refusal → Connection
  registered : Handle → ℕ → Connection

-- `Connect` up to the registration, on the first message.
unfoldable pub connect : WorkerMessage → Time → Registry → Registry × Connection
unfolding add_worker connected
connect (register id models) now r =
    if str_eq id ""
    then (r, refused missing_worker_id)
    else let (r', (h, ses)) = add_worker (connected id models now) r in (r', registered h ses)
connect _ now r = (r, refused not_register)

-- What one message does: the sends, whether capacity is signalled, and the error that ends it.
pub record Reaction : Type 0 where
  pub registry : Registry
  pub sent : List Send
  pub signals : Bool
  pub ends : Option Refusal

abbrev at : Handle → Stream × List Send → Bool → Registry → Reaction
at h (w, sent) signals r = record {
  registry = record r { heap = write h w r.heap };
  sent = sent;
  signals = signals;
  ends = none;
}

-- The reader loop of `Connect` on one message.
unfoldable pub receive : WorkerMessage → Handle → Time → Registry → Reaction
receive (heartbeat hb) h now r = at h (apply_heartbeat hb now (r.heap h), []) true r
receive (result res) h now r = at h (resolve res (r.heap h)) true r
receive (chunk c) h now r = at h (accumulate c (r.heap h)) c.is_done r
receive deregister h now r = at h (mark_draining (r.heap h), []) false r
receive (register id models) h now r = record {
  registry = r;
  sent = [];
  signals = false;
  ends = some duplicate_register;
}
receive unknown h now r = record { registry = r; sent = []; signals = false; ends = none }

-- `cur, ok := s.workers[w.id]; ok && cur == w`
unfoldable pub is_current : Handle → Registry → Bool
is_current h r = elim (lookup (r.heap h).id r.workers) [ none ↦ false | some cur ↦ cur == h ]

unfoldable pub unregister : Handle → Registry → Registry
unfolding is_current
unregister h r = if is_current h r then record r { workers = remove (r.heap h).id r.workers } else r

unfoldable pub fail_all_at : JobError → Handle → Registry → Registry × List Send
fail_all_at e h r =
    let (w, sent) = fail_all_pending e (r.heap h) in (record r { heap = write h w r.heap }, sent)

unfoldable pub evict_worker : Handle → JobError → Registry → Registry × List Send
evict_worker h e r = fail_all_at e h (unregister h r)

abbrev pub worker_disconnected : JobError
worker_disconnected = record { code = "worker_disconnected"; message = "worker stream closed" }

abbrev pub worker_stale : JobError
worker_stale = record { code = "worker_stale"; message = "worker missed heartbeats" }

abbrev pub worker_evicted : JobError
worker_evicted = record { code = "worker_evicted"; message = "worker drained and evicted" }

unfoldable pub remove_worker : Handle → Registry → Registry × List Send
remove_worker h r = fail_all_at worker_disconnected h (unregister h r)

-- The first pass of `evictStale`.
unfoldable pub stale_handles : Time → Registry → List (String × Handle) → List Handle
stale_handles now r [] = []
stale_handles now r ((_, h) ∷ m) =
    let rest = stale_handles now r m in
    if is_stale now r.heartbeat_timeout (r.heap h) then h ∷ rest else rest

unfoldable pub evict_all : List Handle → Registry → Registry × List Send
evict_all [] r = (r, [])
evict_all (h ∷ hs) r =
    let (r', sent) = evict_worker h worker_stale r in
    let (r'', more) = evict_all hs r' in (r'', sent ++ more)

-- The two passes, each under its own locks: the registry may change in between.
unfoldable pub evict_stale : Time → Registry → Registry → Registry × List Send
unfolding stale_handles evict_all
evict_stale now r r' = evict_all (stale_handles now r r.workers) r'

abbrev size : List (String × Handle) → ℕ
size [] = 0
size (e ∷ m) = suc (size m)

unfoldable pub worker_count : Registry → ℕ
worker_count r = size r.workers

unfoldable pub snapshots : Time → Registry → List (String × Handle) → List Worker
snapshots now r [] = []
snapshots now r ((_, h) ∷ m) = snapshot now r.heartbeat_timeout (r.heap h) ∷ snapshots now r m

-- `Fleet`
unfoldable pub fleet : Time → Registry → List Worker
unfolding snapshots
fleet now r = snapshots now r r.workers

unfoldable pub worker_by_id : String → Time → Registry → Option Worker
worker_by_id id now r = elim (lookup id r.workers) [
  | none ↦ none
  | some h ↦ some (snapshot now r.heartbeat_timeout (r.heap h))
]

abbrev if_available : Time → Registry → Option Handle → Option Handle
if_available now r none = none
if_available now r (some h) = if available now r.heartbeat_timeout (r.heap h) then some h else none

-- `pickWorker`: the clock is read twice, and the registry may change in between.
unfoldable pub pick_worker : String → String → Time → Registry → Time → Registry → Option Handle
pick_worker model preferred now r now' r' = elim (pick_preferring (fleet now r) model preferred) [
  | none ↦ none
  | some id ↦ if_available now' r' (lookup id r'.workers)
]

is_stale_status : Worker → Bool
is_stale_status w = elim w.status [ stale ↦ true | _ ↦ false ]

unfoldable pub serves : String → List Worker → Bool
unfolding is_stale_status
serves model [] = false
serves model (w ∷ ws) =
    if is_stale_status w
    then serves model ws
    else if has_model w model
    then true
    else serves model ws

unfoldable pub model_served : String → Time → Registry → Bool
unfolding serves
model_served model now r = serves model (fleet now r)

-- `ErrWorkerNotFound`, or the deadline that a reaper of the worker is started with.
pub data Drain : Type 0 where
  not_found soft : Drain
  reaped : Handle → ℕ → Drain

abbrev pub drain_at : ℤ → Registry → Option Handle → Registry × Drain
drain_at deadline r none = (r, not_found)
drain_at deadline r (some h) =
    let r' = record r { heap = write h (mark_draining (r.heap h)) r.heap } in
    if not (ltb 0 (pos_part deadline)) then (r', soft) else (r', reaped h (pos_part deadline))

unfoldable pub drain_worker_with_deadline : String → ℤ → Registry → Registry × Drain
drain_worker_with_deadline id deadline r = drain_at deadline r (lookup id r.workers)

unfoldable pub drain_worker : String → Registry → Registry × Drain
unfolding drain_worker_with_deadline
drain_worker id r = drain_worker_with_deadline id (ℤ.pos 0) r

unfoldable pub force_evict_worker : Handle → Registry → Registry × List Send
force_evict_worker h r =
    let (r', sent) = evict_worker h worker_evicted r in
    (record r' { heap = write h (cancel (r'.heap h)) r'.heap }, sent)

-- What wakes the loop of `reapDrainedWorker`.
pub data Wakeup : Type 0 where
  context_done deadline_reached tick : Wakeup

abbrev stops : Registry × List Send → Registry × (List Send × Bool)
stops (r, sent) = (r, (sent, false))

-- One round of the loop, and whether it goes on.
unfoldable pub reap : Handle → Wakeup → Registry → Registry × (List Send × Bool)
reap h context_done r = (r, ([], false))
reap h deadline_reached r = stops (force_evict_worker h r)
reap h tick r =
    if in_flight (r.heap h) == 0 then stops (force_evict_worker h r) else (r, ([], true))

-- `interval` of `reapDrainedWorker`, in nanoseconds.
unfoldable pub reap_interval : ℕ → ℕ
reap_interval deadline =
    let twentieth = deadline / 20 in
    let floored = if ltb twentieth 10000000 then 10000000 else twentieth in
    if ltb 1000000000 floored then 1000000000 else floored
