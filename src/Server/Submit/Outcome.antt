-- ===== src/Server/Submit/Outcome.antt =====
-- What `submit` comes to, on every branch.
use agent_gpu.Prelude.{
  pos, ◌≡◌, refl, sym, subst, inl, inr, String, true, false, none, some, All, Bool-cases,
}
use agent_gpu.Store.{Time}
use agent_gpu.Types.{Job, validate}
use agent_gpu.Queue
use agent_gpu.Queue.{Queue, Item, Priority, new_item, enqueue}
use agent_gpu.Queue.Calls.{enqueue-cases}
use agent_gpu.Scheduler.{runnable}
use agent_gpu.Server.Stream.{Channel}
use agent_gpu.Server.Fleet.{Handle, fleet, model_served, pick_worker}
use agent_gpu.Server.Fleet.Valid.{IsRegistry}
use agent_gpu.Server.Fleet.Pick.{IsPick, pick_worker-IsPick}
use agent_gpu.Server.Affinity.{session_dispatch_hints}
use agent_gpu.Server.Submit.{
  Server, Submission, fails, dispatched, queued, model_unavailable, queue_error, dispatch,
  add_waiter, submit_queued, submit_valid, submit, after_enqueue, remove_waiter,
}

-- The job with the keep-alive that its session gives it.
abbrev pub kept_warm : Job → String → Time → Server → Job
kept_warm job key now s = record job {
  keep_alive_seconds = pos (session_dispatch_hints job key now s.affinity).1;
}

abbrev pub preferred_of : Job → String → Time → Server → String
preferred_of job key now s = (session_dispatch_hints job key now s.affinity).0

-- No worker of the fleet can run the model.
abbrev pub IsBusy : Job → Time → Server → Type 0
IsBusy job now s = All (λ w. runnable w job.model ≡ false) (fleet now s.registry)

-- What a submission may come to.
pub data Outcome (job : Job) (key : String) (prio : Priority) (now : Time) (ch : Channel)
    (s : Server) : Server → Submission → Type 0 where
  unavailable :
      model_served job.model now s.registry ≡ false
      → Outcome job key prio now ch s s (fails model_unavailable)
  placed :
      (h : Handle)
      → model_served job.model now s.registry ≡ true
      → IsPick now s.registry job.model (preferred_of job key now s) h
      → Outcome job key prio now ch s
          (dispatch h (kept_warm job key now s) ch s)
          (dispatched h (kept_warm job key now s) (preferred_of job key now s))
  waiting :
      model_served job.model now s.registry ≡ true
      → IsBusy job now s
      → (enqueue (kept_warm job key now s) key prio now s.queue).1 ≡ none
      → Outcome job key prio now ch s
          (record (add_waiter job.id ch s) {
            queue = (enqueue (kept_warm job key now s) key prio now s.queue).0;
            capacity = true;
          })
          (queued (kept_warm job key now s))
  turned_away :
      (e : Queue.Error)
      → model_served job.model now s.registry ≡ true
      → IsBusy job now s
      → enqueue (kept_warm job key now s) key prio now s.queue ≡ (s.queue, some e)
      → Outcome job key prio now ch s
          (remove_waiter job.id (add_waiter job.id ch s))
          (fails (queue_error e))

pub submit_valid_lem :
    (job : Job) (key : String) (prio : Priority) (now : Time) (ch : Channel) (s : Server)
    → validate job ≡ none
    → submit job key prio now ch s ≡ submit_valid job key prio now ch s
unfolding submit
submit_valid_lem job key prio now ch s e = rw (e, submit) refl

module _ (job : Job) (key : String) (prio : Priority) (now : Time) (ch : Channel) (s : Server) where
  absent_lem :
      model_served job.model now s.registry ≡ false
      → submit_valid job key prio now ch s ≡ (s, fails model_unavailable)
  unfolding submit_valid
  absent_lem e = rw (e, submit_valid) refl

  placed_lem :
      (h : Handle)
      → model_served job.model now s.registry ≡ true
      → pick_worker job.model (preferred_of job key now s) now s.registry now s.registry ≡ some h
      → submit_valid job key prio now ch s ≡ (
        dispatch h (kept_warm job key now s) ch s,
        dispatched h (kept_warm job key now s) (preferred_of job key now s),
      )
  unfolding submit_valid
  placed_lem h e p = rw (e, p, submit_valid) refl

  busy_lem :
      model_served job.model now s.registry ≡ true
      → pick_worker job.model (preferred_of job key now s) now s.registry now s.registry ≡ none
      → submit_valid job key prio now ch s
        ≡ after_enqueue
            (kept_warm job key now s)
            (enqueue (kept_warm job key now s) key prio now s.queue)
            (add_waiter job.id ch s)
  unfolding submit_valid submit_queued
  busy_lem e p = rw (e, p, submit_valid) refl

  abbrev Comes : Server × Submission → Type 0
  Comes r = Outcome job key prio now ch s r.0 r.1

  after_enqueue-Comes :
      model_served job.model now s.registry ≡ true
      → IsBusy job now s
      → Comes (
          after_enqueue
            (kept_warm job key now s)
            (enqueue (kept_warm job key now s) key prio now s.queue)
            (add_waiter job.id ch s))
  unfolding add_waiter
  after_enqueue-Comes e b = elim (enqueue-cases (kept_warm job key now s) key prio now s.queue) [
    | inl ok ↦
        subst
          (λ o. Comes (
            after_enqueue (kept_warm job key now s)
              ((enqueue (kept_warm job key now s) key prio now s.queue).0, o)
              (add_waiter job.id ch s)))
          (sym ok) (waiting e b ok)
    | inr (err, full) ↦
        subst (λ q. Comes (after_enqueue (kept_warm job key now s) q (add_waiter job.id ch s)))
          (sym full) (turned_away err e b full)
  ]

  submit_valid-Comes : IsRegistry s.registry → Comes (submit_valid job key prio now ch s)
  submit_valid-Comes v = elim (Bool-cases (model_served job.model now s.registry)) [
    | inr e ↦ subst Comes (sym (absent_lem e)) (unavailable e)
    | inl e ↦ elim (pick_worker-IsPick job.model (preferred_of job key now s) now s.registry v) [
      | inl (p, b) ↦ subst Comes (sym (busy_lem e p)) (after_enqueue-Comes e b)
      | inr (h, p, best) ↦ subst Comes (sym (placed_lem h e p)) (placed h e best)
    ]
  ]

-- A valid job comes to one of four ends. No worker of the fleet serves its model, and nothing
-- changes; the best worker that can run it has it; none can run it, and it stands in the queue with
-- its caller's channel among the waiters and the placement loop woken; or the queue refuses it, and
-- stays as it was.
pub submit-Outcome :
    (job : Job) (key : String) (prio : Priority) (now : Time) (ch : Channel) (s : Server)
    → IsRegistry s.registry
    → validate job ≡ none
    → Outcome job key prio now ch s
        (submit job key prio now ch s).0
        (submit job key prio now ch s).1
unfolding submit
submit-Outcome job key prio now ch s v valid =
    subst (λ r. Outcome job key prio now ch s r.0 r.1)
      (sym (submit_valid_lem job key prio now ch s valid))
      (submit_valid-Comes job key prio now ch s v)
