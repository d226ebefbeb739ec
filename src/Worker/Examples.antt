-- ===== src/Worker/Examples.antt =====
-- Two jobs for the executor that echoes.
use agent_gpu.Prelude.{
  pos, ◌≡◌, refl, none, some, or_default, List, [], ◌∷◌, ◌++◌, String, true, false,
}
use agent_gpu.Types.{Job}
use agent_gpu.Worker.{
  Capacity, Executor, echo_executor, chunks_of, terminal_chunk, dispatches, looping, Serving, serve,
  receive, take_job, emit, forward, send,
}
use agent_gpu.Worker.Steps.{
  Event, receives, takes_job, emits, forwards, enabled, step, run, received, plan, sent_chunks,
  left_of, unsent, accounted,
}
use agent_gpu.Worker.Pipeline.{run-accounted}
use agent_gpu.Worker.Drain.{drain-sent}

abbrev pub execute : Executor
execute = echo_executor (λ text. 2)

abbrev pub job : String → Job
job id = record {
  id = id;
  model = "llama3";
  prompt = "hi";
  messages = [];
  tools = [];
  session_id = "";
  keep_alive_seconds = pos 0;
}

abbrev cpu : Capacity
cpu = record { type_name = "cpu"; total_vram = 0; free_vram = 0; load = 0 }

abbrev start : Serving
start = serve "w1" [] cpu

-- The second job comes while the first one is at hand.
abbrev events : List Event
events =
    receives (dispatches (job "a"))
    ∷ takes_job
    ∷ emits
    ∷ receives (dispatches (job "b"))
    ∷ forwards true
    ∷ emits
    ∷ []

abbrev reached : Serving
reached = or_default start (run execute events start)

-- The send of the terminal chunk of the first job fails.
abbrev events_to_failure : List Event
events_to_failure = events ++ forwards false ∷ []

abbrev broken : Serving
broken = or_default start (run execute events_to_failure start)

runs : run execute events_to_failure start ≡ some broken
unfolding run step enabled serve receive take_job emit forward send chunks_of echo_executor
    terminal_chunk
runs = refl

run-accounted_example :
    sent_chunks broken.sent
      ++ (unsent broken.loop
          ++ (broken.chunks ++ (left_of broken.running ++ plan execute broken.jobs)))
    ≡ plan execute (received events_to_failure)
run-accounted_example = run-accounted execute "w1" [] cpu events_to_failure broken runs

drain-sent_example :
    (later : List Event) × (w : Serving) × (received later ≡ [])
    × (run execute later reached ≡ some w)
    × (w.jobs ≡ [])
    × (w.running ≡ none)
    × (w.loop ≡ looping)
    × (sent_chunks w.sent ≡ accounted execute reached)
unfolding run step enabled serve receive take_job emit forward send chunks_of echo_executor
drain-sent_example = drain-sent execute reached refl
