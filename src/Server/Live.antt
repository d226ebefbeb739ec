-- ===== src/Server/Live.antt =====
-- SubmitAuthorizedJobStream of internal/server/server.go: the gates, the observer and the dispatch up
-- to the channel that the call returns, and the ends of the goroutine that forwards.
pub mod Opened
mod Examples
use agent_gpu.Prelude.{
  ℕ, pos, String, Bool, true, false, Option, none, some, List, [], ◌∷◌, if◌then◌else◌,
}
use agent_gpu.Store.{Time, ApiKey}
use agent_gpu.Authz
use agent_gpu.Authz.{authorize, infer}
use agent_gpu.Types.{Job, validate}
use agent_gpu.Quota.{Engine, Denial, check_and_reserve}
use agent_gpu.Server.Stream.{Stream, Channel, add_observer, remove_observer}
use agent_gpu.Server.Fleet.{Handle, Registry, write, pick_worker, model_served}
use agent_gpu.Server.Affinity.{session_dispatch_hints, record_affinity}
use agent_gpu.Server.Submit.{
  Server, SubmitError, invalid, not_permitted, quota_exceeded, model_unavailable, queue_full,
  dispatch, abandon,
}

pub data Opening : Type 0 where
  refused : SubmitError → Opening
  streaming : Handle → Job → Opening

-- `w.addObserver` and `w.removeObserver` on a worker of the registry.
unfoldable pub observe : Handle → String → Channel → Server → Server
unfolding add_observer
observe h job obs s =
    let r = s.registry in
    record s { registry = record r { heap = write h (add_observer job obs (r.heap h)) r.heap } }

unfoldable pub stop_observing : Handle → String → Server → Server
unfolding remove_observer
stop_observing h job s =
    let r = s.registry in
    record s { registry = record r { heap = write h (remove_observer job (r.heap h)) r.heap } }

-- A worker is found: the binding, the observer, and then the dispatch.
unfoldable pub open_stream :
    String → Handle → Job → String → Time → Channel → Channel → Server → Server
unfolding observe
open_stream key h job preferred now ch obs s =
    let bound = record s {
      affinity = record_affinity job key (s.registry.heap h).id preferred now s.affinity;
    } in
    dispatch h job ch (observe h job.id obs bound)

unfoldable pub stream_admitted : String → Job → Time → Channel → Channel → Server → Server × Opening
unfolding open_stream
stream_admitted key job0 now ch obs s =
    let (preferred, keep_alive) = session_dispatch_hints job0 key now s.affinity in
    let job : Job = record job0 { keep_alive_seconds = pos keep_alive } in
    elim (pick_worker job.model preferred now s.registry now s.registry) [
      | some h ↦ (open_stream key h job preferred now ch obs s, streaming h job)
      | none ↦
          if model_served job.model now s.registry
          then (s, refused queue_full)
          else (s, refused model_unavailable)
    ]

abbrev pub stream_reserved :
    String → Job → Time → Channel → Channel → Engine × Option Denial → Server → Server × Opening
stream_reserved key job now ch obs (e, some d) s =
    (record s { quota = e }, refused (quota_exceeded d))
stream_reserved key job now ch obs (e, none) s =
    stream_admitted key job now ch obs (record s { quota = e })

abbrev pub stream_permitted :
    ApiKey → Job → Time → Channel → Channel → Option Authz.Error → Server → Server × Opening
stream_permitted key job now ch obs (some e) s = (s, refused (not_permitted e))
stream_permitted key job now ch obs none s =
    stream_reserved key.id job now ch obs (check_and_reserve key now s.quota) s

unfoldable pub submit_authorized_job_stream :
    ApiKey → Job → Time → Channel → Channel → Server → Server × Opening
submit_authorized_job_stream key job now ch obs s = elim (validate job) [
  | some e ↦ (s, refused (invalid e))
  | none ↦ stream_permitted key job now ch obs (authorize key job.model infer).0 s
]

-- The client has gone: no more is forwarded, and the dispatch gives the job up.
unfoldable pub disconnect : Handle → Job → Server → Server
unfolding stop_observing
disconnect h job s = abandon h job (stop_observing h job.id s)
