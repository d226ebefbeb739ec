-- ===== src/Server/Stream/Answers.antt =====
-- Histories of calls on one stream: who waits on a result, and who was given one.
use mathlib.Core.List.{append-nil}
use agent_gpu.Prelude.{
  ◌∙◌, ◌+◌, ◌≡◌, refl, inl, inr, String, true, false, Option, none, some, List, [], ◌∷◌, ◌++◌,
  arith, lookup, count, count-append, count-insert, count-remove, values, to_list, IsMap,
  insert-IsMap, remove-IsMap, Bool-cases, Option-cases,
}
use agent_gpu.Store.{Time}
use agent_gpu.Types.{JobResult, JobChunk, JobError, Heartbeat}
use agent_gpu.Server.Stream.{
  Stream, Channel, Send, answers, forwards, closes, apply_heartbeat, mark_draining, add_pending,
  drop_pending, add_observer, remove_observer, resolve, append_delta, finish, accumulate, ended,
  forward_chunk, fail_waiters, end_observers, fail_all_pending, cleared, result_of,
}

pub data Call : Type 0 where
  adds_pending : String → Channel → Call
  drops_pending : String → Call
  adds_observer : String → Channel → Call
  removes_observer : String → Call
  resolves : JobResult → Call
  accumulates : JobChunk → Call
  fails_all : JobError → Call
  heartbeats : Heartbeat → Time → Call
  drains : Call

unfoldable pub step : Call → Stream → Stream × List Send
step (adds_pending job ch) w = (add_pending job ch w, [])
step (drops_pending job) w = (drop_pending job w, [])
step (adds_observer job ch) w = (add_observer job ch w, [])
step (removes_observer job) w = (remove_observer job w, [])
step (resolves res) w = resolve res w
step (accumulates chunk) w = accumulate chunk w
step (fails_all e) w = fail_all_pending e w
step (heartbeats hb now) w = (apply_heartbeat hb now w, [])
step drains w = (mark_draining w, [])

-- The channels that were sent a result.
unfoldable pub answered : List Send → List Channel
answered [] = []
answered (answers ch res ∷ sent) = ch ∷ answered sent
answered (forwards obs chunk ∷ sent) = answered sent
answered (closes obs ∷ sent) = answered sent

-- The channels that a call makes.
unfoldable pub opened : Call → List Channel
opened (adds_pending job ch) = ch ∷ []
opened _ = []

-- The channel of a caller that has gone, and one that another job of the same id displaces.
unfoldable pub given_up : Call → Stream → List Channel
given_up (adds_pending job ch) w = to_list (lookup job w.pending)
given_up (drops_pending job) w = to_list (lookup job w.pending)
given_up _ w = []

unfoldable pub run : List Call → Stream → Stream
run [] w = w
run (c ∷ cs) w = run cs (step c w).0

unfoldable pub all_answered : List Call → Stream → List Channel
all_answered [] w = []
all_answered (c ∷ cs) w = answered (step c w).1 ++ all_answered cs (step c w).0

unfoldable pub all_opened : List Call → List Channel
all_opened [] = []
all_opened (c ∷ cs) = opened c ++ all_opened cs

unfoldable pub all_given_up : List Call → Stream → List Channel
all_given_up [] w = []
all_given_up (c ∷ cs) w = given_up c w ++ all_given_up cs (step c w).0

-- Each map has one entry for a key.
pub record IsStream (w : Stream) : Type 0 where
  pub pending_map : IsMap w.pending
  pub observers_map : IsMap w.observers

pub answered-append : (xs ys : List Send) → answered (xs ++ ys) ≡ answered xs ++ answered ys
unfolding answered
answered-append [] ys = refl
answered-append (answers ch res ∷ xs) ys = rw (answered-append xs ys)
answered-append (forwards obs chunk ∷ xs) ys = answered-append xs ys
answered-append (closes obs ∷ xs) ys = answered-append xs ys

answered-ended : (o : Option Channel) (chunk : JobChunk) → answered (ended o chunk) ≡ []
unfolding answered
answered-ended none chunk = refl
answered-ended (some obs) chunk = refl

answered-fail_waiters :
    (e : JobError) (m : List (String × Channel)) → answered (fail_waiters e m) ≡ values m
unfolding answered fail_waiters
answered-fail_waiters e [] = refl
answered-fail_waiters e ((job, ch) ∷ m) = rw (answered-fail_waiters e m)

answered-end_observers :
    (e : JobError) (m : List (String × Channel)) → answered (end_observers e m) ≡ []
unfolding answered end_observers
answered-end_observers e [] = refl
answered-end_observers e ((job, obs) ∷ m) = answered-end_observers e m

resolve-IsStream : (res : JobResult) (w : Stream) → IsStream w → IsStream (resolve res w).0
unfolding resolve
resolve-IsStream res w v = elim (Option-cases (lookup res.job_id w.pending)) [
  | inl e ↦ rw (e, resolve) v
  | inr (ch, e) ↦
      rw (e, resolve)
        (record {
          pending_map = remove-IsMap res.job_id w.pending v.pending_map;
          observers_map = v.observers_map;
        })
]

cleared-IsStream : (job : String) (w : Stream) → IsStream w → IsStream (cleared job w)
unfolding cleared
cleared-IsStream job w v = record {
  pending_map = v.pending_map;
  observers_map = remove-IsMap job w.observers v.observers_map;
}

pub accumulate_last :
    (chunk : JobChunk) (w : Stream) → chunk.is_done ≡ true → accumulate chunk w ≡ finish chunk w
unfolding accumulate
accumulate_last chunk w e = simp e refl

pub accumulate_more :
    (chunk : JobChunk) (w : Stream)
    → chunk.is_done ≡ false
    → accumulate chunk w ≡ append_delta chunk w
unfolding accumulate
accumulate_more chunk w e = simp e refl

accumulate-IsStream : (chunk : JobChunk) (w : Stream) → IsStream w → IsStream (accumulate chunk w).0
unfolding append_delta finish
accumulate-IsStream chunk w v = elim (Bool-cases chunk.is_done) [
  | inl e ↦
      rw (accumulate_last chunk w e)
        (resolve-IsStream (result_of chunk w) _ (cleared-IsStream chunk.job_id w v))
  | inr e ↦
      rw (accumulate_more chunk w e)
        (record { pending_map = v.pending_map; observers_map = v.observers_map })
]

pub step-IsStream : (c : Call) (w : Stream) → IsStream w → IsStream (step c w).0
unfolding step add_pending drop_pending add_observer remove_observer fail_all_pending
    apply_heartbeat mark_draining
step-IsStream (adds_pending job ch) w v = record {
  pending_map = insert-IsMap job ch w.pending v.pending_map;
  observers_map = v.observers_map;
}
step-IsStream (drops_pending job) w v = record {
  pending_map = remove-IsMap job w.pending v.pending_map;
  observers_map = v.observers_map;
}
step-IsStream (adds_observer job ch) w v = record {
  pending_map = v.pending_map;
  observers_map = insert-IsMap job ch w.observers v.observers_map;
}
step-IsStream (removes_observer job) w v = record {
  pending_map = v.pending_map;
  observers_map = remove-IsMap job w.observers v.observers_map;
}
step-IsStream (resolves res) w v = resolve-IsStream res w v
step-IsStream (accumulates chunk) w v = accumulate-IsStream chunk w v
step-IsStream (fails_all e) w v = record { pending_map = tt; observers_map = tt }
step-IsStream (heartbeats hb now) w v = record {
  pending_map = v.pending_map;
  observers_map = v.observers_map;
}
step-IsStream drains w v = record { pending_map = v.pending_map; observers_map = v.observers_map }

module _ (ch : Channel) where
  resolve-count :
      (res : JobResult) (w : Stream)
      → IsStream w
      → count ch (answered (resolve res w).1) + count ch (values (resolve res w).0.pending)
        ≡ count ch (values w.pending)
  unfolding resolve answered
  resolve-count res w v = elim (Option-cases (lookup res.job_id w.pending)) [
    | inl e ↦ rw (e, resolve) (omega arith)
    | inr (found, e) ↦
        let removed = count-remove ch res.job_id w.pending v.pending_map in
        rw (e, resolve) (ground (arith, removed))
  ]

  finish-count :
      (chunk : JobChunk) (w : Stream)
      → IsStream w
      → count ch (answered (finish chunk w).1) + count ch (values (finish chunk w).0.pending)
        ≡ count ch (values w.pending)
  unfolding finish
  finish-count chunk w v =
      rw (answered-append, answered-ended)
        (resolve-count (result_of chunk w) (cleared chunk.job_id w) (cleared-IsStream _ w v)
          ∙ unfold cleared in refl)

  append_delta-count :
      (chunk : JobChunk) (w : Stream)
      → count ch (answered (append_delta chunk w).1)
          + count ch (values (append_delta chunk w).0.pending)
        ≡ count ch (values w.pending)
  unfolding append_delta forward_chunk answered
  append_delta-count chunk w = ground arith

  -- A call opens and gives up channels, and answers the others that it takes away.
  pub step-count :
      (c : Call) (w : Stream)
      → IsStream w
      → count ch (answered (step c w).1)
          + count ch (values (step c w).0.pending)
          + count ch (given_up c w)
        ≡ count ch (values w.pending) + count ch (opened c)
  unfolding step given_up opened
  step-count (adds_pending job obs) w v =
      unfold add_pending answered in omega (arith, count-insert ch job obs w.pending)
  step-count (drops_pending job) w v =
      unfold drop_pending answered in omega (arith, count-remove ch job w.pending v.pending_map)
  step-count (adds_observer job obs) w v = unfold add_observer answered in omega arith
  step-count (removes_observer job) w v = unfold remove_observer answered in omega arith
  step-count (resolves res) w v = omega (arith, resolve-count res w v)
  step-count (accumulates chunk) w v = elim (Bool-cases chunk.is_done) [
    | inl e ↦ rw (accumulate_last chunk w e) (omega (arith, finish-count chunk w v))
    | inr e ↦ rw (accumulate_more chunk w e) (omega (arith, append_delta-count chunk w))
  ]
  step-count (fails_all e) w v =
      unfold fail_all_pending in
      rw (answered-append, answered-fail_waiters, answered-end_observers, append-nil) (omega arith)
  step-count (heartbeats hb now) w v = unfold apply_heartbeat answered in omega arith
  step-count drains w v = unfold mark_draining answered in omega arith

  -- Over any history of calls, each channel is sent a result, still waits for one, or was given up,
  -- as often as it waited at the beginning or was opened. Each map has one entry for a key.
  pub run-count :
      (cs : List Call) (w : Stream)
      → IsStream w
      → count ch (all_answered cs w)
          + count ch (values (run cs w).pending)
          + count ch (all_given_up cs w)
        ≡ count ch (values w.pending) + count ch (all_opened cs)
  unfolding run all_answered all_given_up all_opened
  run-count [] w v = omega arith
  run-count (c ∷ cs) w v = omega (
    arith,
    count-append ch (answered (step c w).1) (all_answered cs (step c w).0),
    count-append ch (given_up c w) (all_given_up cs (step c w).0),
    count-append ch (opened c) (all_opened cs),
    step-count c w v,
    run-count cs (step c w).0 (step-IsStream c w v),
  )
