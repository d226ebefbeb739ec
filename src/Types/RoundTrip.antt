-- ===== src/Types/RoundTrip.antt =====
-- What the wire keeps of the domain types.
use agent_gpu.Prelude.{◌≡◌, refl, Option, none, some, List, [], ◌∷◌, map}
use agent_gpu.Types.{Model, ToolCall, Message, Tool, Job, JobError, JobResult, JobChunk, Heartbeat}
use agent_gpu.Types.Wire.{
  model_proto, model_from_proto, models_to_proto, models_from_proto, tool_call_proto,
  tool_call_from_proto, tool_calls_to_proto, tool_calls_from_proto, message_proto,
  message_from_proto, messages_to_proto, messages_from_proto, tool_proto, tool_from_proto,
  tools_to_proto, tools_from_proto, job_proto, job_from_proto,
}
use agent_gpu.Types.Reports.{
  job_error_proto, job_error_from_proto, job_result_proto, job_result_from_proto, job_chunk_proto,
  job_chunk_from_proto, heartbeat_proto, heartbeat_from_proto,
}

map_inverse {ℓ κ} :
    {A : Type ℓ} {B : Type κ} (f : A → B) (g : B → A)
    → ((x : A) → g (f x) ≡ x)
    → (xs : List A) → map g (map f xs) ≡ xs
map_inverse f g h [] = refl
map_inverse f g h (x ∷ xs) = rw (h x, map_inverse f g h xs) refl

models_inverse : (ms : List Model) → models_from_proto (models_to_proto ms) ≡ ms
unfolding models_from_proto models_to_proto model_proto model_from_proto
models_inverse = map_inverse model_proto model_from_proto (λ m. refl)

tool_calls_inverse : (ts : List ToolCall) → tool_calls_from_proto (tool_calls_to_proto ts) ≡ ts
unfolding tool_calls_from_proto tool_calls_to_proto tool_call_proto tool_call_from_proto
tool_calls_inverse = map_inverse tool_call_proto tool_call_from_proto (λ t. refl)

messages_inverse : (ms : List Message) → messages_from_proto (messages_to_proto ms) ≡ ms
unfolding messages_from_proto messages_to_proto message_proto message_from_proto
messages_inverse =
    map_inverse message_proto message_from_proto (λ m. rw (tool_calls_inverse m.tool_calls) refl)

tools_inverse : (ts : List Tool) → tools_from_proto (tools_to_proto ts) ≡ ts
unfolding tools_from_proto tools_to_proto tool_proto tool_from_proto
tools_inverse = map_inverse tool_proto tool_from_proto (λ t. refl)

job_error_inverse : (e : Option JobError) → job_error_from_proto (job_error_proto e) ≡ e
unfolding job_error_from_proto job_error_proto
job_error_inverse none = refl
job_error_inverse (some e) = refl

-- A job reaches the worker as it was sent, but for the session id, which stays on the server.
pub job_from_proto-job_proto :
    (j : Job) → job_from_proto (job_proto j) ≡ record j { session_id = "" }
unfolding job_from_proto job_proto
job_from_proto-job_proto j = rw (messages_inverse j.messages, tools_inverse j.tools) refl

-- Results, chunks and heartbeats reach the server as the worker sent them, a nil error included.
pub reports_round_trip :
    (r : JobResult) (c : JobChunk) (h : Heartbeat)
    → (job_result_from_proto (job_result_proto r) ≡ r)
      × (job_chunk_from_proto (job_chunk_proto c) ≡ c)
      × (heartbeat_from_proto (heartbeat_proto h) ≡ h)
unfolding job_result_from_proto job_result_proto job_chunk_from_proto job_chunk_proto
    heartbeat_from_proto heartbeat_proto
reports_round_trip r c h = (
  rw (job_error_inverse r.error, tool_calls_inverse r.tool_calls) refl,
  rw (job_error_inverse c.error, tool_calls_inverse c.tool_calls) refl,
  rw (models_inverse h.available_models) refl,
)
