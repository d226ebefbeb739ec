-- ===== src/Server/Stream/Watched.antt =====
-- The observer of a job in internal/server/server.go, while its worker streams.
use agent_gpu.Prelude.{
  ◌≡◌, refl, ap, ◌∙◌, String, str_eq, false, ◌&&◌, some, List, [], ◌∷◌, arith, All, lookup,
  lookup-remove_other, lookup-insert_other, Bool-cases, inl, inr,
}
use agent_gpu.Types.{JobChunk, JobResult}
use agent_gpu.Server.Stream.{
  Stream, Channel, forwards, add_observer, remove_observer, resolve, append_delta, finish,
  accumulate, cleared, result_of, apply_heartbeat, mark_draining, forward_chunk, add_pending,
  drop_pending,
}
use agent_gpu.Server.Stream.Answers.{
  Call, adds_observer, removes_observer, resolves, accumulates, fails_all, step, run,
  accumulate_last, accumulate_more,
}

-- The call neither ends the job nor takes its observer away.
abbrev pub Watches : String → Call → Type 0
Watches job (adds_observer other obs) = str_eq other job ≡ false
Watches job (removes_observer other) = str_eq other job ≡ false
Watches job (accumulates chunk) = (str_eq chunk.job_id job && chunk.is_done) ≡ false
Watches job (fails_all e) = ⊥
Watches job _ = Unit

resolve-observers : (res : JobResult) (w : Stream) → (resolve res w).0.observers ≡ w.observers
unfolding resolve
resolve-observers res w = ground arith

finish-observers :
    (chunk : JobChunk) (job : String) (w : Stream)
    → str_eq chunk.job_id job ≡ false
    → lookup job (finish chunk w).0.observers ≡ lookup job w.observers
unfolding finish cleared
finish-observers chunk job w h =
    ap (lookup job) (resolve-observers (result_of chunk w) (cleared chunk.job_id w))
    ∙ lookup-remove_other chunk.job_id job w.observers h

step-observers :
    (job : String) (c : Call) (w : Stream)
    → Watches job c
    → lookup job (step c w).0.observers ≡ lookup job w.observers
unfolding step add_pending drop_pending add_observer remove_observer apply_heartbeat mark_draining
step-observers job (adds_observer other obs) w h = lookup-insert_other other job obs w.observers h
step-observers job (removes_observer other) w h = lookup-remove_other other job w.observers h
step-observers job (resolves res) w h = ap (lookup job) (resolve-observers res w)
step-observers job (accumulates chunk) w h = elim (Bool-cases chunk.is_done) [
  | inl e ↦ rw (accumulate_last chunk w e) (finish-observers chunk job w (ground arith))
  | inr e ↦ rw (accumulate_more chunk w e) (unfold append_delta in refl)
]
step-observers job (fails_all e) w h = absurd h
step-observers job _ w h = refl

run-observers :
    (job : String) (cs : List Call) (w : Stream)
    → All (Watches job) cs
    → lookup job (run cs w).observers ≡ lookup job w.observers
unfolding run
run-observers job [] w h = refl
run-observers job (c ∷ cs) w h = run-observers job cs (step c w).0 h.1 ∙ step-observers job c w h.0

-- What comes in of a job, before its end, is tried on its observer.
pub accumulate-forwards :
    (chunk : JobChunk) (obs : Channel) (cs : List Call) (w : Stream)
    → lookup chunk.job_id w.observers ≡ some obs
    → All (Watches chunk.job_id) cs
    → chunk.is_done ≡ false
    → (accumulate chunk (run cs w)).1 ≡ forwards obs chunk ∷ []
unfolding append_delta forward_chunk
accumulate-forwards chunk obs cs w at_observer watched more =
    ap (λ r. r.1) (accumulate_more chunk (run cs w) more)
    ∙ ap (λ o. forward_chunk o chunk) (run-observers chunk.job_id cs w watched ∙ at_observer)
