-- ===== src/Worker/Steps.antt =====
-- The goroutines of a connection as steps, and the chunks on their way.
use agent_gpu.Prelude.{Bool, Option, none, some, List, [], ◌∷◌, ◌++◌, to_list}
use agent_gpu.Types.{Job, JobChunk, Model}
use agent_gpu.Worker.{
  Capacity, Executor, chunks_of, ServerMessage, dispatches, Sent, chunk, Loop, looping, returned,
  Serving, receive, send_heartbeat, take_job, emit, forward, pull, unload, stop, drop_stream,
}

-- What one of the goroutines does, with what it is told from outside.
pub data Event : Type 0 where
  receives : ServerMessage → Event
  beats : Bool → Option (List Model) → Option Capacity → Event
  takes_job emits unloads : Event
  forwards : Bool → Event
  pulls : Bool → Option (List Model) → Event
  stops : Bool → Event
  drops : Event

-- A step that is not enabled gives `none`; none is when the connection is over.
unfoldable pub enabled : Executor → Event → Serving → Option Serving
enabled execute (receives m) w = receive m w
enabled execute (beats delivered listed detected) w =
    some (send_heartbeat delivered listed detected w)
enabled execute takes_job w = take_job execute w
enabled execute emits w = emit w
enabled execute (forwards delivered) w = forward delivered w
enabled execute unloads w = unload w
enabled execute (pulls pulled listed) w = pull pulled listed w
enabled execute (stops delivered) w = some (stop delivered w)
enabled execute drops w = some (drop_stream w)

abbrev pub while_looping : Loop → Option Serving → Option Serving
while_looping looping o = o
while_looping (returned c) o = none

unfoldable pub step : Executor → Event → Serving → Option Serving
step execute e w = while_looping w.loop (enabled execute e w)

abbrev pub and_then {ℓ} : {A : Type ℓ} → Option A → (A → Option A) → Option A
and_then none f = none
and_then (some a) f = f a

unfoldable pub run : Executor → List Event → Serving → Option Serving
run execute [] w = some w
run execute (e ∷ events) w = and_then (step execute e w) (run execute events)

-- The jobs that were received.
abbrev pub received : List Event → List Job
received [] = []
received (receives (dispatches job) ∷ events) = job ∷ received events
received (_ ∷ events) = received events

-- The chunks of jobs, one job after the other, and the chunks among what was sent.
abbrev pub plan : Executor → List Job → List JobChunk
plan execute [] = []
plan execute (job ∷ jobs) = chunks_of execute job ++ plan execute jobs

abbrev pub sent_chunks : List Sent → List JobChunk
sent_chunks [] = []
sent_chunks (chunk c ∷ sent) = c ∷ sent_chunks sent
sent_chunks (_ ∷ sent) = sent_chunks sent

abbrev pub left_of : Option (List JobChunk) → List JobChunk
left_of none = []
left_of (some left) = left

-- The chunk that was taken from the channel and not sent, when the loop has returned on it.
abbrev pub unsent : Loop → List JobChunk
unsent looping = []
unsent (returned c) = to_list c

-- What was sent and what is on the way, in order.
abbrev pub accounted : Executor → Serving → List JobChunk
accounted execute w =
    sent_chunks w.sent
    ++ (unsent w.loop ++ (w.chunks ++ (left_of w.running ++ plan execute w.jobs)))
