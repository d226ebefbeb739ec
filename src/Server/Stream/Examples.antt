-- ===== src/Server/Stream/Examples.antt =====
-- A worker that streams the answer to a job while another job fails.
use agent_gpu.Prelude.{
  ◌+◌, ◌≡◌, refl, String, Bool, true, false, none, List, [], ◌∷◌, ◌++◌, count, values, str_append,
  lookup, insert, remove,
}
use agent_gpu.Types.{JobChunk, JobError}
use agent_gpu.Server.Stream.{
  Stream, add_pending, resolve, append_delta, finish, accumulate, final_result, gathered, cleared,
  forward_chunk, fail_waiters, end_observers, fail_all_pending,
}
use agent_gpu.Server.Stream.Answers.{
  Call, adds_pending, accumulates, fails_all, run, all_answered, all_opened, all_given_up,
  run-count, step, answered,
}
use agent_gpu.Server.Stream.Output.{deltas}
use agent_gpu.Server.Stream.Observers.{Lines, deliver_all, accumulate-fail_all_pending_race}

abbrev pub idle : Stream
idle = record {
  id = "w1";
  pending = [];
  streams = [];
  observers = [];
  registered_at = 5;
  models = [];
  last_heartbeat = 5;
  active_jobs = 0;
  total_vram = 0;
  free_vram = 0;
  load = 0;
  gpu_type = "";
  available_models = [];
  is_draining = false;
  is_cancelled = false;
}

abbrev pub says : String → String → Bool → JobChunk
says job text is_done = record {
  job_id = job;
  delta = text;
  is_done = is_done;
  error = none;
  tokens = 3;
  tool_calls = [];
  finish_reason = "stop";
  prompt_tokens = 1;
  completion_tokens = 2;
}

abbrev lost : JobError
lost = record { code = "worker_stale"; message = "worker missed heartbeats" }

-- Two jobs are dispatched, one is answered, and the stream is lost.
abbrev calls : List Call
calls =
    adds_pending "j1" 1
    ∷ adds_pending "j2" 2
    ∷ accumulates (says "j1" "he" false)
    ∷ accumulates (says "j1" "llo" true)
    ∷ fails_all lost
    ∷ []

history_answers : all_answered calls idle ≡ 1 ∷ 2 ∷ []
unfolding all_answered step answered add_pending accumulate append_delta finish resolve cleared
    gathered final_result forward_chunk fail_all_pending fail_waiters end_observers insert remove
    lookup
history_answers = refl

run-count_example :
    count 1 (all_answered calls idle)
      + count 1 (values (run calls idle).pending)
      + count 1 (all_given_up calls idle)
    ≡ count 1 (values idle.pending) + count 1 (all_opened calls)
run-count_example = run-count 1 calls idle (record { pending_map = tt; observers_map = tt })

abbrev waiting : Stream
waiting = record idle { pending = ("j1", 7) ∷ [] }

abbrev between : List Call
between = accumulates (says "j1" "he" false) ∷ accumulates (says "j2" "x" false) ∷ []

deltas-between : str_append (deltas "j1" between) "llo" ≡ "hello"
unfolding deltas
deltas-between = refl

abbrev watched : Stream
watched = record idle { pending = ("j1", 7) ∷ []; observers = ("j1", 8) ∷ [] }

abbrev open_lines : Lines
open_lines ch = record { buffer = []; is_closed = false }

accumulate-fail_all_pending_race_example :
    deliver_all
      ((fail_all_pending lost (accumulate (says "j1" "he" false) watched).0).1
        ++ (accumulate (says "j1" "he" false) watched).1)
      open_lines
    ≡ none
unfolding lookup
accumulate-fail_all_pending_race_example =
    accumulate-fail_all_pending_race (says "j1" "he" false) watched 8 lost open_lines refl refl
