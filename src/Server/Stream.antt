-- ===== src/Server/Stream.antt =====
-- The server's view of one connected worker, `worker` of internal/server/server.go. Its mutex makes
-- the part of a method that holds it one step; what the method then sends on channels stands in
-- the result as a list of sends. A channel is a number: `make` gives a new one.
pub mod Answers
pub mod Output
pub mod Observers
pub mod Watched
pub mod Examples
use agent_gpu.Prelude.{
  ℕ, ◌-◌, ltb, ◌==◌, String, str_append, Bool, true, false, not, ◌&&◌, if◌then◌else◌, Option, none,
  some, List, [], ◌∷◌, ◌++◌, lookup, insert, remove,
}
use agent_gpu.Store.{Time}
use agent_gpu.Types.{
  Model, JobResult, JobChunk, JobError, Heartbeat, Worker, WorkerStatus, online, draining, stale,
}

abbrev pub Channel : Type 0
Channel = ℕ

-- A nil slice of models is the empty one: a message on the wire makes no other empty slice. The jobs
-- handed to `send` stand in the outbox of the server.
pub record Stream : Type 0 where
  pub id : String
  pub pending : List (String × Channel)
  pub streams : List (String × String)
  pub observers : List (String × Channel)
  pub registered_at : Time
  pub models : List Model
  pub last_heartbeat : Time
  pub active_jobs : ℕ  -- uint32
  pub total_vram : ℕ  -- uint64
  pub free_vram : ℕ  -- uint64
  pub load : ℕ  -- uint32
  pub gpu_type : String
  pub available_models : List Model
  pub is_draining : Bool
  pub is_cancelled : Bool  -- whether `ctx` is done

-- A send on a result channel, a send that does not block on an observer's channel, a close of it.
pub data Send : Type 0 where
  answers : Channel → JobResult → Send
  forwards : Channel → JobChunk → Send
  closes : Channel → Send

-- The worker that `Connect` makes of a registration.
unfoldable pub connected : String → List Model → Time → Stream
connected id models now = record {
  id = id;
  pending = [];
  streams = [];
  observers = [];
  registered_at = now;
  models = models;
  last_heartbeat = now;
  active_jobs = 0;
  total_vram = 0;
  free_vram = 0;
  load = 0;
  gpu_type = "";
  available_models = [];
  is_draining = false;
  is_cancelled = false;
}

abbrev or_else : List Model → List Model → List Model
or_else [] others = others
or_else (m ∷ ms) others = m ∷ ms

unfoldable pub apply_heartbeat : Heartbeat → Time → Stream → Stream
apply_heartbeat hb now w = record w {
  last_heartbeat = now;
  active_jobs = hb.active_jobs;
  total_vram = hb.total_vram;
  free_vram = hb.free_vram;
  load = hb.load;
  gpu_type = hb.gpu_type;
  available_models = or_else hb.available_models w.available_models;
}

unfoldable pub mark_draining : Stream → Stream
mark_draining w = record w { is_draining = true }

unfoldable pub cancel : Stream → Stream
cancel w = record w { is_cancelled = true }

abbrev size : List (String × Channel) → ℕ
size [] = 0
size (e ∷ m) = ℕ.suc (size m)

unfoldable pub in_flight : Stream → ℕ
in_flight w = size w.pending

-- The timeout is positive, so a clock that has gone back makes nothing stale.
abbrev is_late : Time → ℕ → Time → Bool
is_late now timeout last = not (last == 0) && ltb timeout (now - last)

unfoldable pub snapshot : Time → ℕ → Stream → Worker
snapshot now timeout w = record {
  id = w.id;
  models = or_else w.available_models w.models;
  last_seen = w.last_heartbeat;
  active_jobs = w.active_jobs;
  total_vram = w.total_vram;
  free_vram = w.free_vram;
  load = w.load;
  gpu_type = w.gpu_type;
  status =
      if w.is_draining
      then draining
      else if is_late now timeout w.last_heartbeat
      then stale
      else online;
  registered_at = w.registered_at;
}

unfoldable pub is_stale : Time → ℕ → Stream → Bool
is_stale now timeout w =
    if w.last_heartbeat == 0 then false else ltb timeout (now - w.last_heartbeat)

unfoldable pub available : Time → ℕ → Stream → Bool
available now timeout w =
    if w.is_draining then false else if is_late now timeout w.last_heartbeat then false else true

unfoldable pub add_pending : String → Channel → Stream → Stream
add_pending job ch w = record w { pending = insert job ch w.pending }

-- `delete(w.pending, job.ID)`, when the caller of `dispatchTo` has gone.
unfoldable pub drop_pending : String → Stream → Stream
drop_pending job w = record w { pending = remove job w.pending }

unfoldable pub add_observer : String → Channel → Stream → Stream
add_observer job ch w = record w { observers = insert job ch w.observers }

unfoldable pub remove_observer : String → Stream → Stream
remove_observer job w = record w { observers = remove job w.observers }

unfoldable pub resolve : JobResult → Stream → Stream × List Send
resolve res w = elim (lookup res.job_id w.pending) [
  | none ↦ (w, [])
  | some ch ↦ (record w { pending = remove res.job_id w.pending }, answers ch res ∷ [])
]

-- `forwardChunk`, which does nothing on a nil channel.
unfoldable pub forward_chunk : Option Channel → JobChunk → List Send
forward_chunk none chunk = []
forward_chunk (some obs) chunk = forwards obs chunk ∷ []

abbrev pub or_empty : Option String → String
or_empty none = ""
or_empty (some text) = text

-- The final result: what was gathered, or the error in its place.
unfoldable pub final_result : String → JobChunk → JobResult
final_result output chunk = record {
  job_id = chunk.job_id;
  output = elim chunk.error [ none ↦ output | some e ↦ "" ];
  error = chunk.error;
  tokens = chunk.tokens;
  tool_calls = chunk.tool_calls;
  finish_reason = chunk.finish_reason;
  prompt_tokens = chunk.prompt_tokens;
  completion_tokens = chunk.completion_tokens;
}

unfoldable pub gathered : String → Stream → String
gathered job w = or_empty (lookup job w.streams)

-- The branch of `accumulate` on a chunk that is not the last.
unfoldable pub append_delta : JobChunk → Stream → Stream × List Send
unfolding gathered forward_chunk
append_delta chunk w = (
  record w {
    streams = insert chunk.job_id (str_append (gathered chunk.job_id w) chunk.delta) w.streams;
  },
  forward_chunk (lookup chunk.job_id w.observers) chunk,
)

abbrev pub ended : Option Channel → JobChunk → List Send
ended none chunk = []
ended (some obs) chunk = forwards obs chunk ∷ closes obs ∷ []

-- Without the job's buffer and observer.
unfoldable pub cleared : String → Stream → Stream
cleared job w = record w { streams = remove job w.streams; observers = remove job w.observers }

abbrev pub result_of : JobChunk → Stream → JobResult
result_of chunk w = final_result (str_append (gathered chunk.job_id w) chunk.delta) chunk

-- The branch on the last chunk.
unfoldable pub finish : JobChunk → Stream → Stream × List Send
finish chunk w =
    let (w', answered) = resolve (result_of chunk w) (cleared chunk.job_id w) in
    (w', ended (lookup chunk.job_id w.observers) chunk ++ answered)

unfoldable pub accumulate : JobChunk → Stream → Stream × List Send
accumulate chunk w = if not chunk.is_done then append_delta chunk w else finish chunk w

-- The results and the chunks that tell of a failure and carry nothing else.
abbrev pub failed : String → JobError → JobResult
failed job e = record {
  job_id = job;
  output = "";
  error = some e;
  tokens = 0;
  tool_calls = [];
  finish_reason = "";
  prompt_tokens = 0;
  completion_tokens = 0;
}

abbrev failed_chunk : String → JobError → JobChunk
failed_chunk job e = record {
  job_id = job;
  delta = "";
  is_done = true;
  error = some e;
  tokens = 0;
  tool_calls = [];
  finish_reason = "";
  prompt_tokens = 0;
  completion_tokens = 0;
}

unfoldable pub fail_waiters : JobError → List (String × Channel) → List Send
fail_waiters e [] = []
fail_waiters e ((job, ch) ∷ m) = answers ch (failed job e) ∷ fail_waiters e m

unfoldable pub end_observers : JobError → List (String × Channel) → List Send
end_observers e [] = []
end_observers e ((job, obs) ∷ m) =
    forwards obs (failed_chunk job e) ∷ closes obs ∷ end_observers e m

-- Go's order over a map is any; the list's is one of them.
unfoldable pub fail_all_pending : JobError → Stream → Stream × List Send
unfolding fail_waiters end_observers
fail_all_pending e w = (
  record w { pending = []; streams = []; observers = [] },
  fail_waiters e w.pending ++ end_observers e w.observers,
)
