-- ===== src/Server/Stream/Output.antt =====
-- What a caller gets for a job that its worker streams.
use Prim.Native.String.append
use agent_gpu.Prelude.{
  ◌≡◌, refl, sym, ◌∙◌, ap, String, str_append, str_append_assoc, str_append-nil, str_eq, eq_iff,
  if◌then◌else◌, true, false, ◌&&◌, some, List, [], ◌∷◌, ◌++◌, arith, All, lookup,
  lookup-remove_other, lookup-insert_other, lookup-insert_same, Bool-cases, inl, inr,
}
use agent_gpu.Types.{JobChunk, JobResult}
use agent_gpu.Server.Stream.{
  Stream, Channel, answers, add_pending, drop_pending, add_observer, remove_observer, resolve,
  append_delta, finish, accumulate, ended, gathered, final_result, cleared, result_of,
  apply_heartbeat, mark_draining, or_empty,
}
use agent_gpu.Server.Stream.Answers.{
  Call, adds_pending, drops_pending, resolves, accumulates, fails_all, step, run, accumulate_last,
  accumulate_more,
}

-- The text that the calls add to a job.
unfoldable pub deltas : String → List Call → String
deltas job [] = ""
deltas job (accumulates chunk ∷ cs) =
    let rest = deltas job cs in
    if str_eq chunk.job_id job then str_append chunk.delta rest else rest
deltas job (_ ∷ cs) = deltas job cs

-- The call neither ends the job nor takes its channel away.
abbrev pub Spares : String → Call → Type 0
Spares job (adds_pending other ch) = str_eq other job ≡ false
Spares job (drops_pending other) = str_eq other job ≡ false
Spares job (resolves res) = str_eq res.job_id job ≡ false
Spares job (accumulates chunk) = (str_eq chunk.job_id job && chunk.is_done) ≡ false
Spares job (fails_all e) = ⊥
Spares job _ = Unit

added : String → Call → String
added job (accumulates chunk) = if str_eq chunk.job_id job then chunk.delta else ""
added job _ = ""

resolve-pending :
    (res : JobResult) (job : String) (w : Stream)
    → str_eq res.job_id job ≡ false
    → lookup job (resolve res w).0.pending ≡ lookup job w.pending
unfolding resolve
resolve-pending res job w h = ground (arith, lookup-remove_other res.job_id job w.pending h)

resolve-streams : (res : JobResult) (w : Stream) → (resolve res w).0.streams ≡ w.streams
unfolding resolve
resolve-streams res w = ground arith

-- The end of one job leaves the others as they are.
finish-pending :
    (chunk : JobChunk) (job : String) (w : Stream)
    → str_eq chunk.job_id job ≡ false
    → lookup job (finish chunk w).0.pending ≡ lookup job w.pending
unfolding finish cleared final_result
finish-pending chunk job w h = resolve-pending (result_of chunk w) job (cleared chunk.job_id w) h

finish-gathered :
    (chunk : JobChunk) (job : String) (w : Stream)
    → str_eq chunk.job_id job ≡ false
    → gathered job (finish chunk w).0 ≡ gathered job w
unfolding finish cleared gathered
finish-gathered chunk job w h =
    rw (resolve-streams (result_of chunk w) (cleared chunk.job_id w))
      (ap or_empty (lookup-remove_other chunk.job_id job w.streams h))

step-pending :
    (job : String) (c : Call) (w : Stream)
    → Spares job c
    → lookup job (step c w).0.pending ≡ lookup job w.pending
unfolding step add_pending drop_pending add_observer remove_observer resolve apply_heartbeat
    mark_draining
step-pending job (adds_pending other ch) w h = lookup-insert_other other job ch w.pending h
step-pending job (drops_pending other) w h = lookup-remove_other other job w.pending h
step-pending job (resolves res) w h = resolve-pending res job w h
step-pending job (accumulates chunk) w h = elim (Bool-cases chunk.is_done) [
  | inl e ↦ rw (accumulate_last chunk w e) (finish-pending chunk job w (ground arith))
  | inr e ↦ rw (accumulate_more chunk w e) (unfold append_delta in refl)
]
step-pending job (fails_all e) w h = absurd h
step-pending job _ w h = refl

append_delta-gathered :
    (chunk : JobChunk) (job : String) (w : Stream)
    → gathered job (append_delta chunk w).0
      ≡ str_append (gathered job w) (added job (accumulates chunk))
unfolding append_delta gathered added
append_delta-gathered chunk job w = elim (Bool-cases (str_eq chunk.job_id job)) [
  | inl e ↦
      rw
        (
          lookup-insert_same chunk.job_id job (str_append (gathered chunk.job_id w) chunk.delta)
              w.streams e,
          e,
          (eq_iff chunk.job_id job).0 e,
        )
        refl
  | inr e ↦
      rw
        (
          lookup-insert_other chunk.job_id job (str_append (gathered chunk.job_id w) chunk.delta)
              w.streams e,
          e,
        )
        (sym (str_append-nil _))
]

step-gathered :
    (job : String) (c : Call) (w : Stream)
    → Spares job c
    → gathered job (step c w).0 ≡ str_append (gathered job w) (added job c)
unfolding step add_pending drop_pending add_observer remove_observer apply_heartbeat mark_draining
    gathered added
step-gathered job (adds_pending other ch) w h = sym (str_append-nil _)
step-gathered job (resolves res) w h =
    unfold gathered in rw (resolve-streams res w) (sym (str_append-nil _))
step-gathered job (accumulates chunk) w h = elim (Bool-cases chunk.is_done) [
  | inl e ↦
      let apart : str_eq chunk.job_id job ≡ false = ground arith in
      rw (accumulate_last chunk w e, finish-gathered chunk job w apart, apart)
        (sym (str_append-nil _))
  | inr e ↦ rw (accumulate_more chunk w e) (append_delta-gathered chunk job w)
]
step-gathered job (fails_all e) w h = absurd h
step-gathered job _ w h = sym (str_append-nil _)

deltas-added :
    (job : String) (c : Call) (cs : List Call)
    → deltas job (c ∷ cs) ≡ str_append (added job c) (deltas job cs)
unfolding deltas added
deltas-added job (accumulates chunk) cs = elim (Bool-cases (str_eq chunk.job_id job)) [
  | inl e ↦ rw e refl
  | inr e ↦ rw e (sym (append.nil _))
]
deltas-added job (resolves res) cs = sym (append.nil _)
deltas-added job _ cs = sym (append.nil _)

run-pending :
    (job : String) (cs : List Call) (w : Stream)
    → All (Spares job) cs
    → lookup job (run cs w).pending ≡ lookup job w.pending
unfolding run
run-pending job [] w h = refl
run-pending job (c ∷ cs) w h = run-pending job cs (step c w).0 h.1 ∙ step-pending job c w h.0

run-gathered :
    (job : String) (cs : List Call) (w : Stream)
    → All (Spares job) cs
    → gathered job (run cs w) ≡ str_append (gathered job w) (deltas job cs)
unfolding run
run-gathered job [] w h = unfold deltas in sym (str_append-nil _)
run-gathered job (c ∷ cs) w h =
    run-gathered job cs (step c w).0 h.1
    ∙ ap (λ t. str_append t (deltas job cs)) (step-gathered job c w h.0)
    ∙ str_append_assoc (gathered job w) (added job c) (deltas job cs)
    ∙ ap (str_append (gathered job w)) (sym (deltas-added job c cs))

resolve_waiting :
    (res : JobResult) (ch : Channel) (w : Stream)
    → lookup res.job_id w.pending ≡ some ch
    → (resolve res w).1 ≡ answers ch res ∷ []
unfolding resolve
resolve_waiting res ch w h = rw (h, resolve) refl

finish_waiting :
    (chunk : JobChunk) (ch : Channel) (text : String) (w : Stream)
    → lookup chunk.job_id w.pending ≡ some ch
    → gathered chunk.job_id w ≡ text
    → (finish chunk w).1
      ≡ ended (lookup chunk.job_id w.observers) chunk
        ++ answers ch (final_result (str_append text chunk.delta) chunk) ∷ []
unfolding finish final_result
finish_waiting chunk ch text w h g =
    ap (λ r. ended (lookup chunk.job_id w.observers) chunk ++ r)
      (resolve_waiting (result_of chunk w) ch (cleared chunk.job_id w) (unfold cleared in h)
        ∙ ap (λ t. answers ch (final_result (str_append t chunk.delta) chunk) ∷ []) g)

-- The last chunk of a job answers the channel that waits on it with all the text of its chunks, in
-- the order in which they came, or with an empty text if it tells of a failure. Any other calls may
-- come in between, if none of them ends the job or takes its channel away, and no text of the job
-- has come before.
pub accumulate-output :
    (last : JobChunk) (ch : Channel) (cs : List Call) (w : Stream)
    → lookup last.job_id w.pending ≡ some ch
    → gathered last.job_id w ≡ ""
    → All (Spares last.job_id) cs
    → last.is_done ≡ true
    → (accumulate last (run cs w)).1
      ≡ ended (lookup last.job_id (run cs w).observers) last
        ++ answers ch (final_result (str_append (deltas last.job_id cs) last.delta) last) ∷ []
accumulate-output last ch cs w waits fresh spared over =
    ap (λ r. r.1) (accumulate_last last (run cs w) over)
    ∙ finish_waiting last ch (deltas last.job_id cs) (run cs w)
        (run-pending last.job_id cs w spared ∙ waits)
        (run-gathered last.job_id cs w spared
          ∙ ap (λ t. str_append t (deltas last.job_id cs)) fresh
          ∙ append.nil _)
