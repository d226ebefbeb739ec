-- ===== src/Worker.antt =====
-- internal/worker/worker.go and executor.go: one connection of a worker. Its goroutines meet at
-- channels, which are queues with a capacity; a step is what one of them does between two waits, and a
-- step that would wait is not enabled. The executor, the backend and the detector are arguments.
pub mod Steps
pub mod Moves
pub mod Pipeline
pub mod Drain
pub mod Ollama
pub mod Examples
use mathlib.Core.Option
use agent_gpu.Prelude.{
  ℕ, ◌+◌, ◌-◌, ◌%◌, ◌^◌, ltb, ◌==◌, String, str_append, Bool, true, false, Option, none, some, List,
  [], ◌∷◌, ◌++◌, length, if◌then◌else◌,
}
use agent_gpu.Types.{Job, JobChunk, JobResult, Model, Heartbeat}

-- `gpu.Capacity`
pub record Capacity : Type 0 where
  pub type_name : String  -- `Type`
  pub total_vram : ℕ
  pub free_vram : ℕ
  pub load : ℕ

-- What an executor does with a job: the chunks that it emits, and its result.
abbrev pub Executor : Type 0
Executor = Job → List JobChunk × JobResult

-- `EchoExecutor`; `strings.Fields` is an argument.
unfoldable pub echo_executor : (String → ℕ) → Executor
echo_executor fields job =
    let output = str_append "echo: " job.prompt in
    let tokens = fields output in
    (
      record {
        job_id = job.id;
        delta = output;
        is_done = false;
        error = none;
        tokens = 0;
        tool_calls = [];
        finish_reason = "";
        prompt_tokens = 0;
        completion_tokens = 0;
      }
          ∷ [],
      record {
        job_id = job.id;
        output = output;
        error = none;
        tokens = tokens;
        tool_calls = [];
        finish_reason = "stop";
        prompt_tokens = 0;
        completion_tokens = tokens;
      },
    )

-- The chunk that ends a job.
unfoldable pub terminal_chunk : Job → JobResult → JobChunk
terminal_chunk job res = record {
  job_id = job.id;
  delta = "";
  is_done = true;
  error = res.error;
  tokens = res.tokens;
  tool_calls = res.tool_calls;
  finish_reason = res.finish_reason;
  prompt_tokens = res.prompt_tokens;
  completion_tokens = res.completion_tokens;
}

-- All chunks of a job.
unfoldable pub chunks_of : Executor → Job → List JobChunk
chunks_of execute job = let (chunks, res) = execute job in chunks ++ terminal_chunk job res ∷ []

-- What the server sends, and what the worker sends.
pub data ServerMessage : Type 0 where
  dispatches : Job → ServerMessage
  pull_model unload_model : String → ServerMessage
  other : ServerMessage

pub data Sent : Type 0 where
  heartbeat : Heartbeat → Sent
  chunk : JobChunk → Sent
  deregister : String → Sent

-- Whether the loop of `serve` goes on. A chunk whose `Send` fails is already taken from the channel:
-- it is gone with the return.
pub data Loop : Type 0 where
  looping : Loop
  returned : Option JobChunk → Loop

-- The worker with the state of its goroutines: the channels, the chunks that the job at hand has still
-- to emit, and what was sent.
pub record Serving : Type 0 where
  pub worker_id : String
  pub models : List Model
  pub capacity : Capacity
  pub jobs : List Job
  pub pulls : List String
  pub unloads : List String
  pub chunks : List JobChunk
  pub running : Option (List JobChunk)
  pub active_jobs : ℕ  -- int32
  pub loop : Loop
  pub sent : List Sent

-- `serve` with its new channels; the models and the capacity are those of the worker.
unfoldable pub serve : String → List Model → Capacity → Serving
serve worker_id models capacity = record {
  worker_id = worker_id;
  models = models;
  capacity = capacity;
  jobs = [];
  pulls = [];
  unloads = [];
  chunks = [];
  running = none;
  active_jobs = 0;
  loop = looping;
  sent = [];
}

-- A send on a channel of a capacity waits while the channel is full.
abbrev pub put {ℓ} : {A : Type ℓ} → ℕ → A → List A → Option (List A)
put capacity x queue = if ltb (length queue) capacity then some (queue ++ x ∷ []) else none

-- The receive loop.
unfoldable pub receive : ServerMessage → Serving → Option Serving
receive (dispatches job) w = Option.map (λ jobs. record w { jobs = jobs }) (put 8 job w.jobs)
receive (pull_model m) w = Option.map (λ pulls. record w { pulls = pulls }) (put 8 m w.pulls)
receive (unload_model m) w =
    Option.map (λ unloads. record w { unloads = unloads }) (put 8 m w.unloads)
receive other w = some w

-- `refreshModels`: the list, when the backend gives one.
unfoldable pub refresh_models : Option (List Model) → Serving → Serving
refresh_models none w = w
refresh_models (some models) w = record w { models = models }

-- `detectCapacity`, with a detector or without.
unfoldable pub detect_capacity : Option Capacity → Bool → Serving → Serving
detect_capacity none full w = w
detect_capacity (some cap) true w = record w { capacity = cap }
detect_capacity (some cap) false w = record w {
  capacity = record w.capacity { free_vram = cap.free_vram; load = cap.load };
}

unfoldable pub send : Sent → Serving → Serving
send m w = record w { sent = w.sent ++ m ∷ [] }

unfoldable pub heartbeat_of : Serving → Heartbeat
heartbeat_of w = record {
  worker_id = w.worker_id;
  active_jobs = w.active_jobs;
  total_vram = w.capacity.total_vram;
  free_vram = w.capacity.free_vram;
  load = w.capacity.load;
  gpu_type = w.capacity.type_name;
  available_models = w.models;
}

-- `sendHeartbeat` and the return of the loop when `Send` fails; the first argument says whether it
-- does not.
unfoldable pub send_heartbeat : Bool → Option (List Model) → Option Capacity → Serving → Serving
unfolding send
send_heartbeat delivered listed detected w =
    let ready = detect_capacity detected false (refresh_models listed w) in
    if delivered
    then send (heartbeat (heartbeat_of ready)) ready
    else record ready { loop = returned none }

-- The job worker takes a job, when it has none at hand.
unfoldable pub take_job : Executor → Serving → Option Serving
take_job execute w = elim w.running [
  | some left ↦ none
  | none ↦ elim w.jobs [
    | [] ↦ none
    | job ∷ jobs ↦ some (record w {
      jobs = jobs;
      running = some (chunks_of execute job);
      active_jobs = (w.active_jobs + 1) % 2 ^ 32;
    })
  ]
]

-- It emits the next chunk of the job, and is done with the job after the last one.
unfoldable pub emit : Serving → Option Serving
emit w = elim w.running [
  | none ↦ none
  | some [] ↦ some (record w { running = none; active_jobs = w.active_jobs - 1 })
  | some (c ∷ left) ↦
      Option.map (λ chunks. record w { chunks = chunks; running = some left }) (put 64 c w.chunks)
]

-- The loop of `serve` takes a chunk and sends it on, or returns when `Send` fails.
unfoldable pub forward : Bool → Serving → Option Serving
unfolding send
forward delivered w = elim w.chunks [
  | [] ↦ none
  | c ∷ chunks ↦
      let rest = record w { chunks = chunks } in
      some (if delivered then send (chunk c) rest else record rest { loop = returned (some c) })
]

-- The pull worker, with the answer of the backend, and the list after it.
unfoldable pub pull : Bool → Option (List Model) → Serving → Option Serving
pull pulled listed w = elim w.pulls [
  | [] ↦ none
  | m ∷ pulls ↦
      let rest = record w { pulls = pulls } in
      some (if pulled then refresh_models listed rest else rest)
]

unfoldable pub unload : Serving → Option Serving
unload w = elim w.unloads [ [] ↦ none | m ∷ unloads ↦ some (record w { unloads = unloads }) ]

-- A graceful end announces itself, if `Send` does not fail; a dropped stream does not.
unfoldable pub stop : Bool → Serving → Serving
unfolding send
stop delivered w = record (if delivered then send (deregister w.worker_id) w else w) {
  loop = returned none;
}

unfoldable pub drop_stream : Serving → Serving
drop_stream w = record w { loop = returned none }
