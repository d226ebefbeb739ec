-- ===== src/Server/Submit.antt =====
-- How a job gets to a worker in internal/server/server.go: submit, SubmitAuthorizedJob, the waiters of
-- queued jobs and the placement loop. A call runs from one wait to the next as one step: `submit`
-- up to the channel that it blocks on, and from the result on; an attempt of `placeItem`. The
-- options, the logger and the observers of tests are left out.
pub mod Outcome
pub mod Gate
pub mod Late
pub mod Examples
use agent_gpu.Prelude.{
  ℕ, ℤ, pos, ◌-◌, ◌<◌, ltb, String, Bool, true, false, Option, none, some, List, [], ◌∷◌, ◌++◌,
  lookup, insert, remove, if◌then◌else◌,
}
use agent_gpu.Store.{Time, ApiKey}
use agent_gpu.Authz
use agent_gpu.Authz.{authorize, infer, AuditEntry}
use agent_gpu.Types.{Job, JobResult, JobError, InvalidJob, validate}
use agent_gpu.Queue
use agent_gpu.Queue.{Queue, Item, Priority, priority_normal, enqueue}
use agent_gpu.Quota.{Engine, Denial, check_and_reserve, record_tokens, record_global_tokens}
use agent_gpu.Scheduler.{priority_for_roles}
use agent_gpu.Server.Stream.{Stream, Channel, Send, answers, failed, add_pending, drop_pending}
use agent_gpu.Server.Fleet.{Handle, Registry, write, pick_worker, model_served}
use agent_gpu.Server.Wait.{WaitTimes, record_wait}
use agent_gpu.Server.Affinity.{Affinity, affinity_for, session_dispatch_hints, record_affinity}

-- `capacity` says whether a wakeup is pending. `outbox` has the jobs handed to the writers of the
-- workers' streams, the last first.
pub record Server : Type 0 where
  pub registry : Registry
  pub affinity : Affinity
  pub quota : Engine
  pub queue : Queue
  pub waiters : List (String × Channel)
  pub waits : WaitTimes
  pub capacity : Bool
  pub outbox : List (Handle × Job)

pub data SubmitError : Type 0 where
  invalid : InvalidJob → SubmitError
  not_permitted : Authz.Error → SubmitError
  quota_exceeded : Denial → SubmitError
  model_unavailable queue_full shutting_down : SubmitError

unfoldable pub signal_capacity : Server → Server
signal_capacity s = record s { capacity = true }

unfoldable pub add_waiter : String → Channel → Server → Server
add_waiter job ch s = record s { waiters = insert job ch s.waiters }

unfoldable pub remove_waiter : String → Server → Server
remove_waiter job s = record s { waiters = remove job s.waiters }

-- The sends, and whether there was a waiter.
unfoldable pub resolve_waiter : JobResult → Server → Server × (List Send × Bool)
resolve_waiter res s = elim (lookup res.job_id s.waiters) [
  | none ↦ (s, ([], false))
  | some ch ↦ (record s { waiters = remove res.job_id s.waiters }, (answers ch res ∷ [], true))
]

unfoldable pub answer_all : JobError → List (String × Channel) → List Send
answer_all e [] = []
answer_all e ((job, ch) ∷ m) = answers ch (failed job e) ∷ answer_all e m

unfoldable pub fail_all_waiters : JobError → Server → Server × List Send
unfolding answer_all
fail_all_waiters e s = (record s { waiters = [] }, answer_all e s.waiters)

-- `dispatchTo` up to its second select: the job waits on the channel and is handed to the writer.
unfoldable pub dispatch : Handle → Job → Channel → Server → Server
unfolding add_pending
dispatch h job ch s =
    let r = s.registry in
    record s {
      registry = record r { heap = write h (add_pending job.id ch (r.heap h)) r.heap };
      outbox = (h, job) ∷ s.outbox;
    }

-- The end of `dispatchTo` when its context is done.
unfoldable pub abandon : Handle → Job → Server → Server
unfolding drop_pending
abandon h job s =
    let r = s.registry in
    record s { registry = record r { heap = write h (drop_pending job.id (r.heap h)) r.heap } }

-- What `submit` comes to: an error at once, or a wait on the channel for a worker's answer or for
-- the placement loop's. The job is the one with its keep-alive.
pub data Submission : Type 0 where
  fails : SubmitError → Submission
  dispatched : Handle → Job → String → Submission
  queued : Job → Submission

abbrev queue_error : Queue.Error → SubmitError
queue_error Queue.Error.closed = shutting_down
queue_error Queue.Error.full = queue_full

abbrev after_enqueue : Job → Queue × Option Queue.Error → Server → Server × Submission
after_enqueue job (q, some e) s =
    (remove_waiter job.id (record s { queue = q }), fails (queue_error e))
after_enqueue job (q, none) s = (record s { queue = q; capacity = true }, queued job)

-- No worker fits.
unfoldable pub submit_queued :
    Job → String → Priority → Time → Channel → Server → Server × Submission
unfolding add_waiter
submit_queued job key prio now ch s =
    after_enqueue job (enqueue job key prio now s.queue) (add_waiter job.id ch s)

unfoldable pub submit_valid :
    Job → String → Priority → Time → Channel → Server → Server × Submission
submit_valid job0 key prio now ch s =
    let (preferred, keep_alive) = session_dispatch_hints job0 key now s.affinity in
    let job : Job = record job0 { keep_alive_seconds = pos keep_alive } in
    if model_served job.model now s.registry
    then elim (pick_worker job.model preferred now s.registry now s.registry) [
      | some h ↦ (dispatch h job ch s, dispatched h job preferred)
      | none ↦ submit_queued job key prio now ch s
    ]
    else (s, fails model_unavailable)

unfoldable pub submit : Job → String → Priority → Time → Channel → Server → Server × Submission
submit job key prio now ch s = elim (validate job) [
  | some e ↦ (s, fails (invalid e))
  | none ↦ submit_valid job key prio now ch s
]

unfoldable pub submit_job : Job → Time → Channel → Server → Server × Submission
submit_job job now ch s = submit job "" priority_normal now ch s

-- The end of the fast path on a worker's answer.
unfoldable pub finish_dispatched :
    Job → String → Handle → String → JobResult → Time → Server → Server
finish_dispatched job key h preferred res now s = elim res.error [
  | some e ↦ s
  | none ↦ record s {
    affinity = record_affinity job key (s.registry.heap h).id preferred now s.affinity;
  }
]

-- What `SubmitAuthorizedJob` does before it blocks, with the entry that is logged.
abbrev reserved :
    ApiKey → Job → Time → Channel → Engine × Option Denial → Server → Server × Submission
reserved key job now ch (e, some d) s = (record s { quota = e }, fails (quota_exceeded d))
reserved key job now ch (e, none) s =
    submit job key.id (priority_for_roles key.roles) now ch (record s { quota = e })

abbrev permitted : ApiKey → Job → Time → Channel → Option Authz.Error → Server → Server × Submission
permitted key job now ch (some e) s = (s, fails (not_permitted e))
permitted key job now ch none s = reserved key job now ch (check_and_reserve key now s.quota) s

unfoldable pub submit_authorized_job : ApiKey → Job → Time → Channel → Server → Server × Submission
submit_authorized_job key job now ch s = elim (validate job) [
  | some e ↦ (s, fails (invalid e))
  | none ↦ permitted key job now ch (authorize key job.model infer).0 s
]

-- What it does with the result: the tokens of the key and of the fleet are counted.
unfoldable pub account : ApiKey → JobResult → Time → Server → Server
account key res now s = record s {
  quota = record_global_tokens now res.tokens (record_tokens key.id now res.tokens s.quota);
}

-- An attempt of `placeItem`: the worker that the job was dispatched to, with the preferred one.
unfoldable pub place : Item → Time → Channel → Server → Server × Option (Handle × String)
place it now ch s =
    let preferred = affinity_for it.job it.key now s.affinity in
    elim (pick_worker it.job.model preferred now s.registry now s.registry) [
      | none ↦ (s, none)
      | some h ↦ (dispatch h it.job ch s, some (h, preferred))
    ]

abbrev shutting_down_error : JobError
shutting_down_error = record { code = "shutting_down"; message = "server shutting down" }

-- The end of `placeItem` on a worker's answer.
unfoldable pub finish_placed :
    Item → Handle → String → JobResult → Time → Server → Server × (List Send × Bool)
finish_placed it h preferred res now s = elim res.error [
  | some e ↦ resolve_waiter (failed it.job.id e) s
  | none ↦ resolve_waiter res (record s {
    affinity = record_affinity it.job it.key (s.registry.heap h).id preferred now s.affinity;
    waits = record_wait (pos (now - it.enqueued_at)) s.waits;
  })
]

-- Its end when the loop stops before a worker was found.
unfoldable pub give_up : Item → Server → Server × (List Send × Bool)
give_up it s = resolve_waiter (failed it.job.id shutting_down_error) s
