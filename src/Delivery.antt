-- ===== src/Delivery.antt =====
-- A job from the executor of a worker (internal/worker) to the channel of its caller
-- (internal/server/server.go).
pub mod Ollama
mod Examples
use Prim.Native.String.append
use agent_gpu.Prelude.{
  ℕ, ◌≡◌, refl, sym, ap, ◌∙◌, String, str_append, str_append-nil, str_eq, Bool-cases, inl, inr,
  Option, none, some, List, [], ◌∷◌, ◌++◌, All, lookup, true, false, if◌then◌else◌,
}
use agent_gpu.Types.{Job, JobChunk, JobResult}
use agent_gpu.Worker.{Executor, echo_executor, terminal_chunk}
use agent_gpu.Server.Stream.{Stream, Channel, answers, accumulate, ended, gathered, final_result}
use agent_gpu.Server.Stream.Answers.{Call, accumulates, run}
use agent_gpu.Server.Stream.Output.{deltas, Spares, accumulate-output}

-- The chunks of a job among the calls, and the text of chunks.
abbrev pub of_job : String → List Call → List JobChunk
of_job job [] = []
of_job job (accumulates chunk ∷ cs) =
    if str_eq chunk.job_id job then chunk ∷ of_job job cs else of_job job cs
of_job job (_ ∷ cs) = of_job job cs

abbrev pub joined : List JobChunk → String
joined [] = ""
joined (c ∷ chunks) = str_append c.delta (joined chunks)

deltas-of_job : (job : String) (cs : List Call) → deltas job cs ≡ joined (of_job job cs)
unfolding deltas
deltas-of_job job [] = refl
deltas-of_job job (accumulates chunk ∷ cs) = elim (Bool-cases (str_eq chunk.job_id job)) [
  | inl e ↦ rw e (ap (str_append chunk.delta) (deltas-of_job job cs))
  | inr e ↦ rw e (deltas-of_job job cs)
]
deltas-of_job job (_ ∷ cs) = deltas-of_job job cs

-- What an executor promises: its result is of the job, with the text of the chunks that it emitted.
pub record IsFaithful (execute : Executor) (job : Job) : Type 0 where
  pub same_job : (execute job).1.job_id ≡ job.id
  pub same_text : (execute job).1.output ≡ joined (execute job).0

-- A failure has no text.
abbrev pub delivered : JobResult → JobResult
delivered res = record res { output = elim res.error [ none ↦ res.output | some e ↦ "" ] }

-- When the chunks of a job that the server has taken in are those that the executor emitted for it,
-- the terminal chunk gives the waiting caller the executor's result, without the text if it is a
-- failure: whatever calls for other jobs came in between. The executor keeps its promise for the job,
-- none of the calls ended the job or took its channel away, and no text of it has come before.
pub terminal-delivered :
    (execute : Executor) (job : Job) (ch : Channel) (cs : List Call) (w : Stream)
    → IsFaithful execute job
    → of_job job.id cs ≡ (execute job).0
    → lookup job.id w.pending ≡ some ch
    → gathered job.id w ≡ ""
    → All (Spares job.id) cs
    → let last = terminal_chunk job (execute job).1 in
      (accumulate last (run cs w)).1
      ≡ ended (lookup job.id (run cs w).observers) last
        ++ answers ch (delivered (execute job).1) ∷ []
unfolding terminal_chunk final_result
terminal-delivered execute job ch cs w faithful chunks pending fresh spares =
    let res = (execute job).1 in
    let last = terminal_chunk job res in
    let text : str_append (deltas job.id cs) "" ≡ res.output =
      str_append-nil (deltas job.id cs)
      ∙ deltas-of_job job.id cs
      ∙ ap joined chunks
      ∙ sym faithful.same_text in
    let given : String → JobResult = λ id. record res {
      job_id = id;
      output = elim res.error [ none ↦ res.output | some e ↦ "" ];
    } in
    accumulate-output last ch cs w pending fresh spares refl
    ∙ ap (λ r. ended (lookup job.id (run cs w).observers) last ++ answers ch r ∷ [])
        (ap (λ t. final_result t last) text ∙ ap given (sym faithful.same_job))

-- The echoing executor keeps the promise.
pub echo_executor-IsFaithful :
    (fields : String → ℕ) (job : Job) → IsFaithful (echo_executor fields) job
unfolding echo_executor
echo_executor-IsFaithful fields job = record {
  same_job = refl;
  same_text = sym (str_append-nil (str_append "echo: " job.prompt));
}
