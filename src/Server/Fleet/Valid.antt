-- ===== src/Server/Fleet/Valid.antt =====
-- The registry points from each id to an object with that id, whatever happens to it.
use agent_gpu.Prelude.{
  suc, ◌<◌, ◌≡◌, refl, String, str_eq, ==_iff, ◌==◌, Option, none, some, List, [], ◌∷◌, arith,
  lookup, IsMap, insert-IsMap, remove-IsMap, Entries, insert-Entries, remove-Entries, Entries-imp,
  Bool-cases, inl, inr, ℤ, ltb, pos_part,
}
use agent_gpu.Store.{Time}
use agent_gpu.Types.{JobError, JobResult, JobChunk}
use agent_gpu.Server.Stream.{
  Channel, Send, add_pending, add_observer, drop_pending, remove_observer, Stream, connected,
  apply_heartbeat, mark_draining, cancel, resolve, append_delta, finish, accumulate, cleared,
  fail_all_pending, in_flight, result_of,
}
use agent_gpu.Server.Stream.Answers.{accumulate_last, accumulate_more}
use agent_gpu.Server.Fleet.{
  Handle, Registry, write, add_worker, WorkerMessage, register, heartbeat, result, chunk,
  deregister, unknown, connect, receive, is_current, unregister, fail_all_at, evict_worker,
  remove_worker, stale_handles, evict_all, evict_stale, drain_worker_with_deadline,
  force_evict_worker, reap, Wakeup, context_done, deadline_reached, tick, worker_stale,
  worker_evicted, worker_disconnected, drain_at,
}

-- The handle is allocated, and its object has the id.
abbrev pub Names : (Handle → Stream) → Handle → String → Handle → Type 0
Names heap next id h = ((heap h).id ≡ id) × (h < next)

pub record IsRegistry (r : Registry) : Type 0 where
  pub workers_map : IsMap r.workers
  pub named : Entries (Names r.heap r.next_handle) r.workers

-- A change of an object that keeps its id.
write-Names :
    (heap : Handle → Stream) (next h : Handle) (w : Stream) (m : List (String × Handle))
    → w.id ≡ (heap h).id
    → Entries (Names heap next) m
    → Entries (Names (write h w heap) next) m
write-Names heap next h w m same =
    Entries-imp (Names heap next) (Names (write h w heap) next) m
      (λ k v n. (ground (arith, ==_iff v h, n.0, same), n.1))

write-IsRegistry :
    (h : Handle) (w : Stream) (r : Registry)
    → w.id ≡ (r.heap h).id
    → IsRegistry r
    → IsRegistry (record r { heap = write h w r.heap })
write-IsRegistry h w r same v = record {
  workers_map = v.workers_map;
  named = write-Names r.heap r.next_handle h w r.workers same v.named;
}

add_worker-IsRegistry : (w : Stream) (r : Registry) → IsRegistry r → IsRegistry (add_worker w r).0
unfolding add_worker
add_worker-IsRegistry w r v = record {
  workers_map = insert-IsMap w.id r.next_handle r.workers v.workers_map;
  named =
      insert-Entries (Names (write r.next_handle w r.heap) (suc r.next_handle)) w.id r.next_handle
        r.workers (ground (arith, ==_iff r.next_handle r.next_handle), omega arith)
        (Entries-imp (Names r.heap r.next_handle) _ r.workers
          (λ k h n. (ground (arith, ==_iff h r.next_handle, n.0, n.1), omega (arith, n.1)))
          v.named);
}

unregister-IsRegistry : (h : Handle) (r : Registry) → IsRegistry r → IsRegistry (unregister h r)
unfolding unregister
unregister-IsRegistry h r v = elim (Bool-cases (is_current h r)) [
  | inl e ↦
      rw (e, unregister)
        (record {
          workers_map = remove-IsMap (r.heap h).id r.workers v.workers_map;
          named = remove-Entries _ (r.heap h).id r.workers v.named;
        })
  | inr e ↦ rw (e, unregister) v
]

resolve-id : (res : JobResult) (w : Stream) → (resolve res w).0.id ≡ w.id
unfolding resolve
resolve-id res w = ground arith

accumulate-id : (c : JobChunk) (w : Stream) → (accumulate c w).0.id ≡ w.id
unfolding append_delta finish cleared
accumulate-id c w = elim (Bool-cases c.is_done) [
  | inl e ↦ rw (accumulate_last c w e) (resolve-id (result_of c w) (cleared c.job_id w))
  | inr e ↦ rw (accumulate_more c w e) refl
]

receive-IsRegistry :
    (m : WorkerMessage) (h : Handle) (now : Time) (r : Registry)
    → IsRegistry r
    → IsRegistry (receive m h now r).registry
unfolding receive apply_heartbeat mark_draining
receive-IsRegistry (heartbeat hb) h now r v = write-IsRegistry h _ r refl v
receive-IsRegistry (result res) h now r v = write-IsRegistry h _ r (resolve-id res (r.heap h)) v
receive-IsRegistry (chunk c) h now r v = write-IsRegistry h _ r (accumulate-id c (r.heap h)) v
receive-IsRegistry deregister h now r v = write-IsRegistry h _ r refl v
receive-IsRegistry (register id models) h now r v = v
receive-IsRegistry unknown h now r v = v

fail_all_at-IsRegistry :
    (e : JobError) (h : Handle) (r : Registry) → IsRegistry r → IsRegistry (fail_all_at e h r).0
unfolding fail_all_at fail_all_pending
fail_all_at-IsRegistry e h r v = write-IsRegistry h _ r refl v

pub evict_worker-IsRegistry :
    (h : Handle) (e : JobError) (r : Registry) → IsRegistry r → IsRegistry (evict_worker h e r).0
unfolding evict_worker
evict_worker-IsRegistry h e r v =
    fail_all_at-IsRegistry e h (unregister h r) (unregister-IsRegistry h r v)

pub evict_all-IsRegistry :
    (hs : List Handle) (r : Registry) → IsRegistry r → IsRegistry (evict_all hs r).0
unfolding evict_all
evict_all-IsRegistry [] r v = v
evict_all-IsRegistry (h ∷ hs) r v =
    evict_all-IsRegistry hs (evict_worker h worker_stale r).0
      (evict_worker-IsRegistry h worker_stale r v)

drain-IsRegistry :
    (deadline : ℤ) (o : Option Handle) (r : Registry)
    → IsRegistry r
    → IsRegistry (drain_at deadline r o).0
unfolding mark_draining
drain-IsRegistry deadline none r v = v
drain-IsRegistry deadline (some h) r v = elim (Bool-cases (ltb 0 (pos_part deadline))) [
  | inl e ↦ rw e (write-IsRegistry h _ r refl v)
  | inr e ↦ rw e (write-IsRegistry h _ r refl v)
]

force_evict_worker-IsRegistry :
    (h : Handle) (r : Registry) → IsRegistry r → IsRegistry (force_evict_worker h r).0
unfolding force_evict_worker cancel
force_evict_worker-IsRegistry h r v =
    write-IsRegistry h _ (evict_worker h worker_evicted r).0 refl
      (evict_worker-IsRegistry h worker_evicted r v)

reap-IsRegistry :
    (h : Handle) (k : Wakeup) (r : Registry) → IsRegistry r → IsRegistry (reap h k r).0
unfolding reap
reap-IsRegistry h context_done r v = v
reap-IsRegistry h deadline_reached r v = force_evict_worker-IsRegistry h r v
reap-IsRegistry h tick r v = elim (Bool-cases (in_flight (r.heap h) == 0)) [
  | inl e ↦ rw e (force_evict_worker-IsRegistry h r v)
  | inr e ↦ rw e v
]

-- What happens to the registry: a stream begins, has a message or ends; a scan for stale workers, and
-- one eviction of its second pass alone; an operator's drain and a round of its reaper; and what the
-- calls that submit jobs do to a worker, up to the end of one whose context is done.
pub data Event : Type 0 where
  connects : WorkerMessage → Time → Event
  receives : WorkerMessage → Handle → Time → Event
  disconnects : Handle → Event
  scans : Time → Event
  evicts : Handle → Event
  drains : String → ℤ → Event
  reaps : Handle → Wakeup → Event
  dispatches observes : Handle → String → Channel → Event
  abandons stops_observing : Handle → String → Event

abbrev change : Handle → (Stream → Stream) → Registry → Registry
change h f r = record r { heap = write h (f (r.heap h)) r.heap }

unfoldable pub step : Event → Registry → Registry
step (connects m now) r = (connect m now r).0
step (receives m h now) r = (receive m h now r).registry
step (disconnects h) r = (remove_worker h r).0
step (scans now) r = (evict_stale now r r).0
step (drains id deadline) r = (drain_worker_with_deadline id deadline r).0
step (reaps h k) r = (reap h k r).0
step (evicts h) r = (evict_worker h worker_stale r).0
step (dispatches h job ch) r = change h (add_pending job ch) r
step (observes h job obs) r = change h (add_observer job obs) r
step (abandons h job) r = change h (drop_pending job) r
step (stops_observing h job) r = change h (remove_observer job) r

-- What an event sends on channels.
unfoldable pub sends : Event → Registry → List Send
sends (receives m h now) r = (receive m h now r).sent
sends (disconnects h) r = (remove_worker h r).1
sends (scans now) r = (evict_stale now r r).1
sends (evicts h) r = (evict_worker h worker_stale r).1
sends (reaps h k) r = (reap h k r).1.0
sends _ r = []

pub connect-IsRegistry :
    (m : WorkerMessage) (now : Time) (r : Registry) → IsRegistry r → IsRegistry (connect m now r).0
unfolding connect
connect-IsRegistry (register id models) now r v = elim (Bool-cases (str_eq id "")) [
  | inl e ↦ rw e v
  | inr e ↦ rw e (add_worker-IsRegistry (connected id models now) r v)
]
connect-IsRegistry _ now r v = v

-- Whatever happens, no id is registered twice, and what is registered under an id is an allocated
-- worker of that id.
pub step-IsRegistry : (e : Event) (r : Registry) → IsRegistry r → IsRegistry (step e r)
unfolding step remove_worker evict_stale drain_worker_with_deadline add_pending add_observer
    drop_pending remove_observer
step-IsRegistry (connects m now) r v = connect-IsRegistry m now r v
step-IsRegistry (receives m h now) r v = receive-IsRegistry m h now r v
step-IsRegistry (disconnects h) r v =
    fail_all_at-IsRegistry worker_disconnected h (unregister h r) (unregister-IsRegistry h r v)
step-IsRegistry (scans now) r v = evict_all-IsRegistry (stale_handles now r r.workers) r v
step-IsRegistry (drains id deadline) r v = drain-IsRegistry deadline (lookup id r.workers) r v
step-IsRegistry (reaps h k) r v = reap-IsRegistry h k r v
step-IsRegistry (evicts h) r v = evict_worker-IsRegistry h worker_stale r v
step-IsRegistry (dispatches h job ch) r v = write-IsRegistry h _ r refl v
step-IsRegistry (observes h job obs) r v = write-IsRegistry h _ r refl v
step-IsRegistry (abandons h job) r v = write-IsRegistry h _ r refl v
step-IsRegistry (stops_observing h job) r v = write-IsRegistry h _ r refl v
