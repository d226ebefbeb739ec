-- ===== src/Worker/Ollama.antt =====
-- `ChatStream` of internal/ollama/ollama.go and OllamaExecutor of internal/worker/executor.go. The
-- HTTP exchange, encoding/json and `isModelNotFound` are arguments: a response is a failure, or the
-- lines of its body as they decode, with how the body ends.
use agent_gpu.Prelude.{
  ℕ, ℤ, pos, negsuc, ◌+◌, ◌%◌, ◌^◌, ltb, ◌==◌, String, str_eq, str_append, Bool, false, not, ◌||◌,
  Option, none, some, List, [], ◌∷◌, ◌++◌, length, if◌then◌else◌,
}
use agent_gpu.Types.{Message, Tool, ToolCall, Job, JobChunk, JobResult, JobError}
use agent_gpu.Worker.{Executor}

-- An error of the transport, with its text.
pub data TransportFailure : Type 0 where
  deadline_exceeded canceled unreachable : String → TransportFailure

unfoldable pub transport_error : TransportFailure → String → JobError
transport_error (deadline_exceeded text) op = record {
  code = "timeout";
  message = str_append op (str_append ": " text);
}
transport_error (canceled text) op = record {
  code = "timeout";
  message = str_append op (str_append ": " text);
}
transport_error (unreachable text) op = record {
  code = "ollama_unreachable";
  message = str_append op (str_append ": " text);
}

-- `chatResponse`, with the tool calls in the program's form.
pub record ChatResponse : Type 0 where
  pub content : String
  pub calls : List ToolCall
  pub is_done : Bool
  pub done_reason : String
  pub eval_count : ℕ  -- uint64
  pub prompt_eval_count : ℕ  -- uint64
  pub error : String

pub data StreamLine : Type 0 where
  cancelled : TransportFailure → StreamLine
  empty_line : StreamLine
  garbled : String → StreamLine
  object : ChatResponse → StreamLine

pub data Response : Type 0 where
  failed : JobError → Response
  body : List StreamLine → Option TransportFailure → Response

pub record ChatResult : Type 0 where
  pub prompt_tokens : ℕ
  pub completion_tokens : ℕ
  pub tokens : ℕ
  pub tool_calls : List ToolCall
  pub done_reason : String

abbrev pub no_result : ChatResult
no_result = record {
  prompt_tokens = 0;
  completion_tokens = 0;
  tokens = 0;
  tool_calls = [];
  done_reason = "";
}

-- What is emitted, the result, and the error beside it.
abbrev pub Streamed : Type 0
Streamed = List (String × List ToolCall) × ChatResult × Option JobError

abbrev pub has_delta : String → List ToolCall → Bool
has_delta content calls = not (str_eq content "") || ltb 0 (length calls)

abbrev pub emitted : String → List ToolCall → Streamed → Streamed
emitted content calls (deltas, result, error) =
    (if has_delta content calls then (content, calls) ∷ deltas else deltas, result, error)

unfoldable pub complete : ChatResponse → ChatResult → ChatResult
complete co result = record result {
  prompt_tokens = co.prompt_eval_count;
  completion_tokens = co.eval_count;
  tokens = (co.eval_count + co.prompt_eval_count) % 2 ^ 64;
  done_reason = co.done_reason;
}

module _ (is_model_not_found : String → Bool) where
  unfoldable pub error_from_message : String → JobError
  error_from_message msg =
      if is_model_not_found msg
      then record { code = "model_not_found"; message = msg }
      else record { code = "ollama_error"; message = msg }

  unfoldable pub scan : List StreamLine → Option TransportFailure → ChatResult → Streamed
  unfolding transport_error error_from_message complete
  scan [] none result = (
    [],
    result,
    some (record { code = "ollama_error"; message = "chat stream ended without completion" }),
  )
  scan [] (some e) result = ([], result, some (transport_error e "read chat stream"))
  scan (cancelled e ∷ lines) end result = ([], result, some (transport_error e "chat cancelled"))
  scan (empty_line ∷ lines) end result = scan lines end result
  scan (garbled text ∷ lines) end result = (
    [],
    result,
    some (record { code = "ollama_error"; message = str_append "decode chat chunk: " text }),
  )
  scan (object co ∷ lines) end result =
      let with_calls = record result { tool_calls = result.tool_calls ++ co.calls } in
      let rest = scan lines end with_calls in
      if not (str_eq co.error "")
      then ([], result, some (error_from_message co.error))
      else emitted co.content co.calls
          (if co.is_done then ([], complete co with_calls, none) else rest)

  unfoldable pub chat_stream : Response → Streamed
  unfolding scan
  chat_stream (failed e) = ([], no_result, some e)
  chat_stream (body lines end) = scan lines end no_result

pub record ChatRequest : Type 0 where
  pub model : String
  pub messages : List Message
  pub tools : List Tool
  pub keep_alive : Option ℤ

unfoldable pub keep_alive_of : ℤ → Option ℤ
keep_alive_of (pos seconds) = if seconds == 0 then none else some (pos seconds)
keep_alive_of (negsuc n) = some (negsuc n)

unfoldable pub chat_messages : Job → List Message
chat_messages job = elim job.messages [
  | [] ↦
      record { role = "user"; content = job.prompt; tool_call_id = ""; name = ""; tool_calls = [] }
      ∷ []
  | m ∷ messages ↦ m ∷ messages
]

unfoldable pub finish_reason_of : ChatResult → String
finish_reason_of res =
    if ltb 0 (length res.tool_calls)
    then "tool_calls"
    else if str_eq res.done_reason "length"
    then "length"
    else if str_eq res.done_reason "" || str_eq res.done_reason "stop"
    then "stop"
    else res.done_reason

-- The chunks of the deltas that have something, and the text of all.
unfoldable pub chunks_from : String → List (String × List ToolCall) → List JobChunk
chunks_from job [] = []
chunks_from job ((delta, calls) ∷ deltas) =
    let rest = chunks_from job deltas in
    if has_delta delta calls
    then record {
      job_id = job;
      delta = delta;
      is_done = false;
      error = none;
      tokens = 0;
      tool_calls = calls;
      finish_reason = "";
      prompt_tokens = 0;
      completion_tokens = 0;
    }
      ∷ rest
    else rest

unfoldable pub text_of : List (String × List ToolCall) → String
text_of [] = ""
text_of ((delta, calls) ∷ deltas) = str_append delta (text_of deltas)

unfoldable pub job_result : Job → Streamed → JobResult
job_result job (deltas, res, some e) = record {
  job_id = job.id;
  output = text_of deltas;
  error = some e;
  tokens = res.tokens;
  tool_calls = [];
  finish_reason = "";
  prompt_tokens = 0;
  completion_tokens = 0;
}
job_result job (deltas, res, none) = record {
  job_id = job.id;
  output = text_of deltas;
  error = none;
  tokens = res.tokens;
  tool_calls = res.tool_calls;
  finish_reason = finish_reason_of res;
  prompt_tokens = res.prompt_tokens;
  completion_tokens = res.completion_tokens;
}

-- `Execute`, over what the backend responds to a request.
unfoldable pub ollama_executor : (ChatRequest → Streamed) → Executor
ollama_executor client job =
    let streamed = client (record {
      model = job.model;
      messages = chat_messages job;
      tools = job.tools;
      keep_alive = keep_alive_of job.keep_alive_seconds;
    }) in
    (chunks_from job.id streamed.0, job_result job streamed)
