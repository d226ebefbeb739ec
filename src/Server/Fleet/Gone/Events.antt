-- ===== src/Server/Fleet/Gone/Events.antt =====
-- What happens to the registry of internal/server/server.go neither answers nor forgets a job at a
-- worker that has gone.
use agent_gpu.Prelude.{
  ◌≡◌, ◌≢◌, refl, ◌∙◌, String, str_eq, ◌==◌, ==_iff, List, [], ◌∷◌, ◌++◌, arith, All, lookup,
  lookup-insert_other, lookup-remove_other, Entries, insert-Entries, remove-Entries, lookup-Entries,
  count, count-append, Bool-cases, Option-cases, inl, inr, ltb, pos_part, ℤ,
}
use agent_gpu.Store.{Time}
use agent_gpu.Types.{Model, JobError}
use agent_gpu.Server.Stream.{
  Channel, Send, connected, cancel, add_pending, drop_pending, add_observer, remove_observer,
  is_stale, in_flight,
}
use agent_gpu.Server.Stream.Answers.{
  adds_pending, drops_pending, adds_observer, removes_observer, resolves, accumulates, fails_all,
  heartbeats, drains as marks_draining, step as call, answered, answered-append, opened,
}
use agent_gpu.Server.Fleet.{
  Handle, Registry, WorkerMessage, register, heartbeat, result, chunk, deregister, unknown, connect,
  add_worker, receive, is_current, unregister, fail_all_at, evict_worker, remove_worker,
  stale_handles, evict_all, evict_stale, drain_worker_with_deadline, force_evict_worker, reap,
  Wakeup, context_done, deadline_reached, tick, worker_stale, worker_evicted, worker_disconnected,
}
use agent_gpu.Server.Fleet.Valid.{
  Event, connects, receives, disconnects, scans, evicts, drains, reaps, dispatches, observes,
  abandons, stops_observing, step, sends,
}
use agent_gpu.Server.Fleet.Gone.{Misses, Waits, Kept, none_sent, written, call-Kept, call-Waits}

module _ (h : Handle) (job : String) (ch : Channel) where
  unregister-Waits :
      (x : Handle) (r : Registry) → Waits h job ch r → Waits h job ch (unregister x r)
  unfolding unregister
  unregister-Waits x r k = elim (Bool-cases (is_current x r)) [
    | inl e ↦
        rw (e, unregister)
          (record {
            gone = record {
              allocated = k.gone.allocated;
              unlisted = remove-Entries (λ id y. y ≢ h) (r.heap x).id r.workers k.gone.unlisted;
            };
            waiting = k.waiting;
            elsewhere = k.elsewhere;
          })
    | inr e ↦ rw (e, unregister) k
  ]

  evict_worker-Kept :
      (x : Handle) (e : JobError) (r : Registry)
      → Waits h job ch r
      → x ≢ h
      → Kept h job ch (evict_worker x e r).0 (evict_worker x e r).1
  unfolding evict_worker fail_all_at call opened
  evict_worker-Kept x e r k apart =
      call-Kept h job ch (fails_all e) x (unregister x r) (unregister-Waits x r k) apart refl

  sent_both :
      (xs ys : List Send)
      → count ch (answered xs) ≡ 0
      → count ch (answered ys) ≡ 0
      → count ch (answered (xs ++ ys)) ≡ 0
  sent_both xs ys p q =
      rw (answered-append xs ys) (omega (arith, count-append ch (answered xs) (answered ys), p, q))

  evict_all-Kept :
      (hs : List Handle) (r : Registry)
      → Waits h job ch r
      → All (λ x. x ≢ h) hs
      → Kept h job ch (evict_all hs r).0 (evict_all hs r).1
  unfolding evict_all
  evict_all-Kept [] r k a = (k, none_sent h job ch)
  evict_all-Kept (x ∷ hs) r k a =
      let (first, quiet) = evict_worker-Kept x worker_stale r k a.0 in
      let (rest, still) = evict_all-Kept hs (evict_worker x worker_stale r).0 first a.1 in
      (rest, sent_both (evict_worker x worker_stale r).1 _ quiet still)

  -- The scan lists registered workers only.
  stale_handles-All :
      (now : Time) (r : Registry) (m : List (String × Handle))
      → Entries (λ id x. x ≢ h) m
      → All (λ x. x ≢ h) (stale_handles now r m)
  unfolding stale_handles
  stale_handles-All now r [] a = tt
  stale_handles-All now r ((id, x) ∷ m) a =
      elim (Bool-cases (is_stale now r.heartbeat_timeout (r.heap x))) [
        | inl e ↦ rw e (a.0, stale_handles-All now r m a.1)
        | inr e ↦ rw e (stale_handles-All now r m a.1)
      ]

  force_evict_worker-Kept :
      (x : Handle) (r : Registry)
      → Waits h job ch r
      → x ≢ h
      → Kept h job ch (force_evict_worker x r).0 (force_evict_worker x r).1
  unfolding force_evict_worker cancel
  force_evict_worker-Kept x r k apart =
      let (evicted, quiet) = evict_worker-Kept x worker_evicted r k apart in
      let free = evicted.elsewhere x apart in
      (
        written h job ch x _ (evict_worker x worker_evicted r).0 evicted apart (record {
          is_stream = record {
            pending_map = free.is_stream.pending_map;
            observers_map = free.is_stream.observers_map;
          };
          unheld = free.unheld;
        }),
        quiet,
      )

  registered-Waits :
      (id : String) (models : List Model) (now : Time) (r : Registry)
      → Waits h job ch r
      → Waits h job ch (add_worker (connected id models now) r).0
  unfolding add_worker connected
  registered-Waits id models now r k =
      let new : r.next_handle ≢ h = omega (arith, k.gone.allocated) in
      record {
        gone = record {
          allocated = omega (arith, k.gone.allocated);
          unlisted = insert-Entries (λ i y. y ≢ h) id r.next_handle r.workers new k.gone.unlisted;
        };
        waiting = ground (arith, ==_iff h r.next_handle, k.waiting);
        elsewhere = λ y other. elim (Bool-cases (y == r.next_handle)) [
          | inl e ↦ rw e (record {
            is_stream = record { pending_map = tt; observers_map = tt };
            unheld = refl;
          })
          | inr e ↦ rw e (k.elsewhere y other)
        ];
      }

  connect-Waits :
      (m : WorkerMessage) (now : Time) (r : Registry)
      → Waits h job ch r
      → Waits h job ch (connect m now r).0
  unfolding connect
  connect-Waits (register id models) now r k = elim (Bool-cases (str_eq id "")) [
    | inl e ↦ rw e k
    | inr e ↦ rw e (registered-Waits id models now r k)
  ]
  connect-Waits _ now r k = k

  receive-Kept :
      (m : WorkerMessage) (x : Handle) (now : Time) (r : Registry)
      → Waits h job ch r
      → x ≢ h
      → Kept h job ch (receive m x now r).registry (receive m x now r).sent
  unfolding receive call opened
  receive-Kept (heartbeat hb) x now r k apart =
      call-Kept h job ch (heartbeats hb now) x r k apart refl
  receive-Kept (result res) x now r k apart = call-Kept h job ch (resolves res) x r k apart refl
  receive-Kept (chunk c) x now r k apart = call-Kept h job ch (accumulates c) x r k apart refl
  receive-Kept deregister x now r k apart = call-Kept h job ch marks_draining x r k apart refl
  receive-Kept (register id models) x now r k apart = (k, none_sent h job ch)
  receive-Kept unknown x now r k apart = (k, none_sent h job ch)

  drain-Waits :
      (id : String) (deadline : ℤ) (r : Registry)
      → Waits h job ch r
      → Waits h job ch (drain_worker_with_deadline id deadline r).0
  unfolding drain_worker_with_deadline call opened
  drain-Waits id deadline r k = elim (Option-cases (lookup id r.workers)) [
    | inl e ↦ rw (e, drain_worker_with_deadline) k
    | inr (x, e) ↦
        let apart : x ≢ h = lookup-Entries (λ i y. y ≢ h) id x r.workers e k.gone.unlisted in
        let drained = (call-Kept h job ch marks_draining x r k apart refl).0 in
        rw (e, drain_worker_with_deadline)
          (elim (Bool-cases (ltb 0 (pos_part deadline))) [
            | inl t ↦ rw t drained
            | inr t ↦ rw t drained
          ])
  ]

  reap-Kept :
      (x : Handle) (w : Wakeup) (r : Registry)
      → Waits h job ch r
      → Misses h job ch (reaps x w)
      → Kept h job ch (reap x w r).0 (reap x w r).1.0
  unfolding reap
  reap-Kept x context_done r k apart = (k, none_sent h job ch)
  reap-Kept x deadline_reached r k apart = force_evict_worker-Kept x r k apart
  reap-Kept x tick r k apart = elim (Bool-cases (in_flight (r.heap x) == 0)) [
    | inl e ↦ rw e (force_evict_worker-Kept x r k apart)
    | inr e ↦ rw e (k, none_sent h job ch)
  ]

  pub step-Kept :
      (e : Event) (r : Registry)
      → Waits h job ch r
      → Misses h job ch e
      → Kept h job ch (step e r) (sends e r)
  unfolding step sends remove_worker evict_stale call opened add_pending drop_pending add_observer
      remove_observer
  step-Kept (connects m now) r k a = (connect-Waits m now r k, none_sent h job ch)
  step-Kept (receives m x now) r k a = receive-Kept m x now r k a
  step-Kept (disconnects x) r k a =
      unfold evict_worker in evict_worker-Kept x worker_disconnected r k a
  step-Kept (scans now) r k a =
      evict_all-Kept (stale_handles now r r.workers) r k
        (stale_handles-All now r r.workers k.gone.unlisted)
  step-Kept (evicts x) r k a = evict_worker-Kept x worker_stale r k a
  step-Kept (drains id deadline) r k a = (drain-Waits id deadline r k, none_sent h job ch)
  step-Kept (reaps x w) r k a = reap-Kept x w r k a
  step-Kept (dispatches x other c) r k a = (
    call-Waits h job ch (adds_pending other c) x r k (ground (arith, a.1, ==_iff c ch))
        (lookup-insert_other other job c (r.heap h).pending a.0 ∙ k.waiting),
    none_sent h job ch,
  )
  step-Kept (abandons x other) r k a = (
    call-Waits h job ch (drops_pending other) x r k refl
        (lookup-remove_other other job (r.heap h).pending a ∙ k.waiting),
    none_sent h job ch,
  )
  step-Kept (observes x other obs) r k a =
      (call-Waits h job ch (adds_observer other obs) x r k refl k.waiting, none_sent h job ch)
  step-Kept (stops_observing x other) r k a =
      (call-Waits h job ch (removes_observer other) x r k refl k.waiting, none_sent h job ch)
