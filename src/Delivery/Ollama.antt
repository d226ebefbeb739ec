-- ===== src/Delivery/Ollama.antt =====
-- What a job comes to with Ollama as its backend.
use Prim.Native.String.append
use agent_gpu.Prelude.{
  ◌+◌, ◌%◌, ◌^◌, ◌≡◌, refl, sym, ap, ◌∙◌, arith, String, str_append, str_eq, eq_iff, Bool, false,
  Option, none, some, List, [], ◌∷◌, ◌++◌, Bool-cases, inl, inr, if◌then◌else◌,
}
use agent_gpu.Types.{ToolCall, Job, JobResult, JobError}
use agent_gpu.Worker.Ollama.{
  TransportFailure, ChatResponse, StreamLine, cancelled, empty_line, garbled, object, body,
  ChatResult, ChatRequest, chat_messages, keep_alive_of, Streamed, has_delta, emitted, no_result,
  complete, scan, chat_stream, chunks_from, text_of, job_result, ollama_executor,
}
use agent_gpu.Delivery.{joined, IsFaithful}

-- A delta without content has no text.
no_content : (delta : String) (calls : List ToolCall) → has_delta delta calls ≡ false → delta ≡ ""
no_content delta calls h = ground (arith, eq_iff delta "")

text_of-chunks :
    (job : String) (deltas : List (String × List ToolCall))
    → text_of deltas ≡ joined (chunks_from job deltas)
unfolding text_of chunks_from
text_of-chunks job [] = refl
text_of-chunks job ((delta, calls) ∷ deltas) = elim (Bool-cases (has_delta delta calls)) [
  | inl e ↦ rw (e, chunks_from) (ap (str_append delta) (text_of-chunks job deltas))
  | inr e ↦
      rw (e, chunks_from)
        (ap (λ d. str_append d (text_of deltas)) (no_content delta calls e)
          ∙ append.nil (text_of deltas)
          ∙ text_of-chunks job deltas)
]

job_result_lem :
    (job : Job) (s : Streamed)
    → ((job_result job s).job_id ≡ job.id) × ((job_result job s).output ≡ text_of s.0)
unfolding job_result
job_result_lem job (deltas, res, none) = (refl, refl)
job_result_lem job (deltas, res, some e) = (refl, refl)

pub ollama_executor-IsFaithful :
    (client : ChatRequest → Streamed) (job : Job) → IsFaithful (ollama_executor client) job
unfolding ollama_executor
ollama_executor-IsFaithful client job =
    let s = client (record {
      model = job.model;
      messages = chat_messages job;
      tools = job.tools;
      keep_alive = keep_alive_of job.keep_alive_seconds;
    }) in
    let (same, text) = job_result_lem job s in
    record { same_job = same; same_text = text ∙ text_of-chunks job.id s.0 }

-- The object that ends a stream well: one that says so, with no failure before it. And the text up to
-- the end or the failure.
abbrev pub terminal_object : List StreamLine → Option ChatResponse
terminal_object [] = none
terminal_object (cancelled e ∷ lines) = none
terminal_object (empty_line ∷ lines) = terminal_object lines
terminal_object (garbled text ∷ lines) = none
terminal_object (object co ∷ lines) =
    if str_eq co.error "" then (if co.is_done then some co else terminal_object lines) else none

abbrev pub contents : List StreamLine → String
contents [] = ""
contents (cancelled e ∷ lines) = ""
contents (empty_line ∷ lines) = contents lines
contents (garbled text ∷ lines) = ""
contents (object co ∷ lines) =
    if str_eq co.error ""
    then str_append co.content (if co.is_done then "" else contents lines)
    else ""

-- Without such an object the job fails; with it the job has its counts. The text is kept either way.
abbrev pub Outcome : Option ChatResponse → String → JobResult → Type 0
Outcome none text res = ((e : JobError) × (res.error ≡ some e)) × (res.output ≡ text)
Outcome (some co) text res =
    (res.error ≡ none)
    × (res.output ≡ text)
    × (res.prompt_tokens ≡ co.prompt_eval_count)
    × (res.completion_tokens ≡ co.eval_count)
    × (res.tokens ≡ (co.eval_count + co.prompt_eval_count) % 2 ^ 64)

-- The same of a stream.
abbrev Ends : Option ChatResponse → String → Streamed → Type 0
Ends none text (deltas, res, error) = ((e : JobError) × (error ≡ some e)) × (text_of deltas ≡ text)
Ends (some co) text (deltas, res, error) =
    (error ≡ none)
    × (text_of deltas ≡ text)
    × (res.prompt_tokens ≡ co.prompt_eval_count)
    × (res.completion_tokens ≡ co.eval_count)
    × (res.tokens ≡ (co.eval_count + co.prompt_eval_count) % 2 ^ 64)

emitted-text :
    (content : String) (calls : List ToolCall) (s : Streamed)
    → text_of (emitted content calls s).0 ≡ str_append content (text_of s.0)
unfolding text_of
emitted-text content calls s = elim (Bool-cases (has_delta content calls)) [
  | inl e ↦ rw e refl
  | inr e ↦ rw e (
      sym (
        ap (λ d. str_append d (text_of s.0)) (no_content content calls e)
        ∙ append.nil (text_of s.0)))
]

emitted-Ends :
    (content : String) (calls : List ToolCall) (end : Option ChatResponse) (text : String)
    (s : Streamed)
    → Ends end text s
    → Ends end (str_append content text) (emitted content calls s)
emitted-Ends content calls none text s h =
    (h.0, emitted-text content calls s ∙ ap (str_append content) h.1)
emitted-Ends content calls (some co) text s (e, t, prompt, completion, tokens) =
    (e, emitted-text content calls s ∙ ap (str_append content) t, prompt, completion, tokens)

with_calls : ChatResponse → ChatResult → ChatResult
with_calls co result = record result { tool_calls = result.tool_calls ++ co.calls }

scan-Ends :
    (is_model_not_found : String → Bool) (lines : List StreamLine) (end : Option TransportFailure)
    (result : ChatResult)
    → Ends (terminal_object lines) (contents lines) (scan is_model_not_found lines end result)
unfolding scan with_calls
scan-Ends nf [] none result = ((_, refl), unfold text_of in refl)
scan-Ends nf [] (some e) result = ((_, refl), unfold text_of in refl)
scan-Ends nf (cancelled e ∷ lines) end result = ((_, refl), unfold text_of in refl)
scan-Ends nf (empty_line ∷ lines) end result = scan-Ends nf lines end result
scan-Ends nf (garbled text ∷ lines) end result = ((_, refl), unfold text_of in refl)
scan-Ends nf (object co ∷ lines) end result = elim (Bool-cases (str_eq co.error "")) [
  | inr e ↦ rw (e, scan) ((_, refl), unfold text_of in refl)
  | inl e ↦ elim (Bool-cases co.is_done) [
    | inl d ↦
        rw (e, d)
          (emitted-Ends co.content co.calls (some co) ""
            ([], complete co (with_calls co result), none)
            (
              refl,
              unfold text_of in refl,
              unfold complete in refl,
              unfold complete in refl,
              unfold complete in refl,
            ))
    | inr d ↦
        rw (e, d)
          (emitted-Ends co.content co.calls (terminal_object lines) (contents lines)
            (scan nf lines end (with_calls co result))
            (scan-Ends nf lines end (with_calls co result)))
  ]
]

job_result-Outcome :
    (job : Job) (end : Option ChatResponse) (text : String) (s : Streamed)
    → Ends end text s
    → Outcome end text (job_result job s)
unfolding job_result
job_result-Outcome job none text (deltas, res, some e) h = ((e, refl), h.1)
job_result-Outcome job none text (deltas, res, none) h = cc (h.0.1)
job_result-Outcome job (some co) text (deltas, res, none) h = h
job_result-Outcome job (some co) text (deltas, res, some e) h = cc (h.0)

-- A job that Ollama streams an answer to succeeds exactly when the stream comes to an object that says
-- that it is done, with no failure before it: then it has the counts of that object, and their sum
-- modulo 2 ^ 64. The text of the executor's result is that of all objects up to there, or up to the
-- failure; the chunks that it emitted have the same text, and the result is of the job.
pub ollama_executor-Outcome :
    (is_model_not_found : String → Bool) (lines : List StreamLine) (end : Option TransportFailure)
    (job : Job)
    → let execute = ollama_executor (λ req. chat_stream is_model_not_found (body lines end)) in
      IsFaithful execute job × Outcome (terminal_object lines) (contents lines) (execute job).1
unfolding ollama_executor chat_stream
ollama_executor-Outcome nf lines end job = (
  ollama_executor-IsFaithful (λ req. chat_stream nf (body lines end)) job,
  job_result-Outcome job (terminal_object lines) (contents lines) (scan nf lines end no_result)
      (scan-Ends nf lines end no_result),
)
