-- ===== src/Server/Fleet/Evict.antt =====
-- Who leaves the registry when a stream ends or the scan for stale workers runs.
use agent_gpu.Prelude.{
  ◌<◌, ◌≡◌, ◌≢◌, refl, ◌∙◌, String, str_eq, eq_iff, ==_iff, ◌==◌, if◌then◌else◌, Bool, true, false,
  Option, none, some, List, [], ◌∷◌, arith, ap, lookup, lookup-insert, lookup-remove,
  lookup-Entries, Bool-cases, Option-cases, inl, inr,
}
use agent_gpu.Store.{Time}
use agent_gpu.Types.{Model, JobError}
use agent_gpu.Server.Stream.{connected, is_stale, in_flight}
use agent_gpu.Server.Fleet.{
  Handle, Registry, register, connect, is_current, unregister, fail_all_at, evict_worker,
  remove_worker, stale_handles, evict_all, evict_stale, force_evict_worker, reap, Wakeup,
  context_done, deadline_reached, tick, worker_stale, worker_evicted,
}
use agent_gpu.Server.Fleet.Valid.{
  IsRegistry, Names, Event, connects, receives, scans, drains, disconnects, reaps, evicts,
  dispatches, observes, abandons, stops_observing, step, evict_worker-IsRegistry,
  connect-IsRegistry,
}

abbrev without : Handle → Option Handle → Option Handle
without h none = none
without h (some cur) = if cur == h then none else some cur

current-lookup :
    (id : String) (h cur : Handle) (r : Registry)
    → IsRegistry r
    → lookup id r.workers ≡ some cur
    → (r.heap cur).id ≡ id
current-lookup id h cur r v e =
    (lookup-Entries (Names r.heap r.next_handle) id cur r.workers e v.named).0

-- Just the given object leaves.
unregister-lookup :
    (id : String) (h : Handle) (r : Registry)
    → IsRegistry r
    → lookup id (unregister h r).workers ≡ without h (lookup id r.workers)
unfolding unregister is_current
unregister-lookup id h r v = elim (Option-cases (lookup id r.workers)) [
  | inl e ↦ ground (arith, lookup-remove (r.heap h).id id r.workers, eq_iff (r.heap h).id id)
  | inr (cur, e) ↦ ground (
    arith,
    e,
    lookup-remove (r.heap h).id id r.workers,
    eq_iff (r.heap h).id id,
    ==_iff cur h,
    current-lookup id h cur r v e,
  )
]

evict_worker-lookup :
    (id : String) (h : Handle) (e : JobError) (r : Registry)
    → IsRegistry r
    → lookup id (evict_worker h e r).0.workers ≡ without h (lookup id r.workers)
unfolding evict_worker fail_all_at
evict_worker-lookup id h e r v = unregister-lookup id h r v

abbrev listed : Handle → List Handle → Bool
listed h [] = false
listed h (x ∷ xs) = if h == x then true else listed h xs

abbrev unless : List Handle → Option Handle → Option Handle
unless hs none = none
unless hs (some cur) = if listed cur hs then none else some cur

unless-without :
    (h : Handle) (hs : List Handle) (o : Option Handle)
    → unless hs (without h o) ≡ unless (h ∷ hs) o
unless-without h hs none = refl
unless-without h hs (some cur) = ground arith

evict_all-lookup :
    (id : String) (hs : List Handle) (r : Registry)
    → IsRegistry r
    → lookup id (evict_all hs r).0.workers ≡ unless hs (lookup id r.workers)
unfolding evict_all
evict_all-lookup id [] r v = ground arith
evict_all-lookup id (h ∷ hs) r v =
    evict_all-lookup id hs (evict_worker h worker_stale r).0
      (evict_worker-IsRegistry h worker_stale r v)
    ∙ ap (unless hs) (evict_worker-lookup id h worker_stale r v)
    ∙ unless-without h hs (lookup id r.workers)

listed-fresh :
    (now : Time) (r : Registry) (h : Handle) (m : List (String × Handle))
    → is_stale now r.heartbeat_timeout (r.heap h) ≡ false
    → listed h (stale_handles now r m) ≡ false
unfolding stale_handles
listed-fresh now r h [] f = refl
listed-fresh now r h ((k, x) ∷ m) f = ground (arith, ==_iff h x, listed-fresh now r h m f)

-- The first pass lists the stale workers.
listed-stale_handles :
    (now : Time) (r : Registry) (id : String) (h : Handle) (m : List (String × Handle))
    → lookup id m ≡ some h
    → listed h (stale_handles now r m) ≡ is_stale now r.heartbeat_timeout (r.heap h)
unfolding lookup stale_handles
listed-stale_handles now r id h [] e = cc
listed-stale_handles now r id h ((k, x) ∷ m) e =
    elim (Bool-cases (is_stale now r.heartbeat_timeout (r.heap h))) [
      | inl late ↦ ground (arith, ==_iff h x, listed-stale_handles now r id h m)
      | inr f ↦ ground (arith, ==_iff h x, listed-fresh now r h m f)
    ]

abbrev if_fresh : Time → Registry → Option Handle → Option Handle
if_fresh now r none = none
if_fresh now r (some h) = if is_stale now r.heartbeat_timeout (r.heap h) then none else some h

-- The scan removes the workers that are stale, and no others, when nothing comes between its two
-- passes.
pub evict_stale-lookup :
    (now : Time) (r : Registry) (id : String)
    → IsRegistry r
    → lookup id (evict_stale now r r).0.workers ≡ if_fresh now r (lookup id r.workers)
unfolding evict_stale
evict_stale-lookup now r id v = elim (Option-cases (lookup id r.workers)) [
  | inl e ↦ evict_all-lookup id (stale_handles now r r.workers) r v ∙ rw e refl
  | inr (h, e) ↦
      evict_all-lookup id (stale_handles now r r.workers) r v
      ∙ rw (e, listed-stale_handles now r id h r.workers e) refl
]

without-other :
    (h cur : Handle) (o : Option Handle) → cur ≢ h → o ≡ some cur → without h o ≡ some cur
without-other h cur none apart e = cc
without-other h cur (some c) apart e = ground (arith, ==_iff c h)

force_evict_worker-lookup :
    (id : String) (h cur : Handle) (r : Registry)
    → IsRegistry r
    → cur ≢ h
    → lookup id r.workers ≡ some cur
    → lookup id (force_evict_worker h r).0.workers ≡ some cur
unfolding force_evict_worker
force_evict_worker-lookup id h cur r v apart e =
    evict_worker-lookup id h worker_evicted r v ∙ without-other h cur _ apart e

reap-lookup :
    (id : String) (h cur : Handle) (k : Wakeup) (r : Registry)
    → IsRegistry r
    → cur ≢ h
    → lookup id r.workers ≡ some cur
    → lookup id (reap h k r).0.workers ≡ some cur
unfolding reap
reap-lookup id h cur context_done r v apart e = e
reap-lookup id h cur deadline_reached r v apart e = force_evict_worker-lookup id h cur r v apart e
reap-lookup id h cur tick r v apart e = elim (Bool-cases (in_flight (r.heap h) == 0)) [
  | inl zero_left ↦ rw zero_left (force_evict_worker-lookup id h cur r v apart e)
  | inr some_left ↦ rw some_left e
]

-- The stream that has the handle ends, or its drain does, or a scan that listed it evicts it.
abbrev pub Ends : Handle → Event → Type 0
Ends h (disconnects x) = x ≡ h
Ends h (reaps x k) = x ≡ h
Ends h (evicts x) = x ≡ h
Ends h _ = ⊥

Ends-lookup :
    (e : Event) (id : String) (h cur : Handle) (r : Registry)
    → IsRegistry r
    → Ends h e
    → cur ≢ h
    → lookup id r.workers ≡ some cur
    → lookup id (step e r).workers ≡ some cur
unfolding step remove_worker fail_all_at
Ends-lookup (disconnects x) id h cur r v same apart e =
    rw same (unregister-lookup id h r v ∙ without-other h cur _ apart e)
Ends-lookup (reaps x k) id h cur r v same apart e = rw same (reap-lookup id h cur k r v apart e)
Ends-lookup (connects m now) id h cur r v same apart e = absurd same
Ends-lookup (receives m x now) id h cur r v same apart e = absurd same
Ends-lookup (scans now) id h cur r v same apart e = absurd same
Ends-lookup (drains i deadline) id h cur r v same apart e = absurd same
Ends-lookup (evicts x) id h cur r v same apart e =
    rw same (evict_worker-lookup id h worker_stale r v ∙ without-other h cur _ apart e)
Ends-lookup (dispatches x job ch) id h cur r v same apart e = absurd same
Ends-lookup (observes x job obs) id h cur r v same apart e = absurd same
Ends-lookup (abandons x job) id h cur r v same apart e = absurd same
Ends-lookup (stops_observing x job) id h cur r v same apart e = absurd same

connect-lookup :
    (id : String) (models : List Model) (now : Time) (r : Registry)
    → str_eq id "" ≡ false
    → lookup id (connect (register id models) now r).0.workers ≡ some r.next_handle
unfolding connect connected
connect-lookup id models now r named =
    rw named (lookup-insert id id r.next_handle r.workers ∙ ground (arith, eq_iff id id))

-- A worker that has connected again, under an id that is not empty, stays registered with its new
-- stream when an older stream ends, is evicted by its drain, or is evicted by a scan that listed it.
pub reconnect-lookup :
    (id : String) (models : List Model) (now : Time) (h : Handle) (e : Event) (r : Registry)
    → IsRegistry r
    → str_eq id "" ≡ false
    → h < r.next_handle
    → Ends h e
    → lookup id (step e (connect (register id models) now r).0).workers ≡ some r.next_handle
reconnect-lookup id models now h e r v named older ends =
    Ends-lookup e id h r.next_handle (connect (register id models) now r).0
      (connect-IsRegistry (register id models) now r v) ends (omega arith)
      (connect-lookup id models now r named)
