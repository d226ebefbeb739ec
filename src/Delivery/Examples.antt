-- ===== src/Delivery/Examples.antt =====
-- An echo, with another job's text in between.
use agent_gpu.Prelude.{
  ◌≡◌, refl, Bool, false, true, none, some, if◌then◌else◌, List, [], ◌∷◌, ◌++◌, lookup,
}
use agent_gpu.Worker.{terminal_chunk, echo_executor}
use agent_gpu.Worker.Examples.{execute, job}
use agent_gpu.Server.Stream.{Stream, answers, accumulate, ended, gathered}
use agent_gpu.Server.Stream.Answers.{Call, accumulates, run}
use agent_gpu.Server.Stream.Examples.{idle, says}
use agent_gpu.Worker.Ollama.{
  ChatResponse, StreamLine, empty_line, object, garbled, body, chat_stream, ollama_executor,
}
use agent_gpu.Delivery.Ollama.{Outcome, ollama_executor-Outcome}
use agent_gpu.Delivery.{IsFaithful, delivered, echo_executor-IsFaithful, terminal-delivered}

abbrev waiting : Stream
waiting = record idle { pending = ("j1", 7) ∷ [] }

abbrev echoed : List Call
echoed =
    accumulates (says "j2" "x" false)
    ∷ accumulates (record (says "j1" "echo: hi" false) {
      tokens = 0;
      finish_reason = "";
      prompt_tokens = 0;
      completion_tokens = 0;
    })
    ∷ []

terminal-delivered_example :
    let last = terminal_chunk (job "j1") (execute (job "j1")).1 in
    (accumulate last (run echoed waiting)).1
    ≡ ended (lookup "j1" (run echoed waiting).observers) last
      ++ answers 7 (delivered (execute (job "j1")).1) ∷ []
unfolding lookup gathered echo_executor
terminal-delivered_example =
    terminal-delivered execute (job "j1") 7 echoed waiting
      (echo_executor-IsFaithful (λ text. 2) (job "j1")) refl refl refl (refl, (refl, tt))

-- A stream of two objects after a blank line.
abbrev says_hi : Bool → ChatResponse
says_hi is_done = record {
  content = "hi";
  calls = [];
  is_done = is_done;
  done_reason = if is_done then "stop" else "";
  eval_count = if is_done then 2 else 0;
  prompt_eval_count = if is_done then 5 else 0;
  error = "";
}

abbrev lines : List StreamLine
lines = empty_line ∷ object (says_hi false) ∷ object (says_hi true) ∷ garbled "never read" ∷ []

ollama_executor-Outcome_example :
    let execute = ollama_executor (λ req. chat_stream (λ msg. false) (body lines none)) in
    IsFaithful execute (job "j1") × Outcome (some (says_hi true)) "hihi" (execute (job "j1")).1
ollama_executor-Outcome_example = ollama_executor-Outcome (λ msg. false) lines none (job "j1")
