-- ===== src/Server/Fleet/Gone.antt =====
-- A worker of internal/server/server.go that has left the registry while a caller still has a pointer
-- to it, and a job that waits there.
pub mod Events
use agent_gpu.Prelude.{
  suc, ◌<◌, ◌≡◌, ◌≢◌, ◌⊎◌, refl, ap, ◌∙◌, String, str_eq, eq_iff, ◌==◌, ==_iff, Option, none, some,
  List, [], ◌∷◌, ◌++◌, arith, All, lookup, lookup-insert_other, lookup-remove_other, Entries,
  insert-Entries, remove-Entries, lookup-Entries, count, count-append, values, Bool-cases,
  Option-cases, inl, inr, ltb, pos_part, ℤ, true, false, if◌then◌else◌,
}
use agent_gpu.Store.{Time}
use agent_gpu.Types.{JobError}
use agent_gpu.Server.Stream.{
  Stream, Channel, Send, connected, cancel, add_pending, drop_pending, add_observer,
  remove_observer, apply_heartbeat, mark_draining, is_stale, in_flight,
}
use agent_gpu.Server.Stream.Answers.{
  Call, adds_pending, drops_pending, adds_observer, removes_observer, resolves, accumulates,
  fails_all, heartbeats, drains as marks_draining, step as call, answered, answered-append, opened,
  given_up, IsStream, step-IsStream, step-count,
}
use agent_gpu.Server.Fleet.{
  Handle, Registry, write, WorkerMessage, register, heartbeat, result, chunk, deregister, unknown,
  connect, add_worker, receive, is_current, unregister, fail_all_at, evict_worker, remove_worker,
  stale_handles, evict_all, evict_stale, drain_worker_with_deadline, force_evict_worker, reap,
  Wakeup, context_done, deadline_reached, tick, worker_stale, worker_evicted, worker_disconnected,
}
use agent_gpu.Server.Fleet.Valid.{
  Event, connects, receives, disconnects, scans, evicts, drains, reaps, dispatches, observes,
  abandons, stops_observing, step, sends,
}

-- The worker has been taken out of the registry.
pub record IsGone (h : Handle) (r : Registry) : Type 0 where
  pub allocated : h < r.next_handle
  pub unlisted : Entries (λ id x. x ≢ h) r.workers

-- No job waits on the channel there.
pub record IsFree (ch : Channel) (w : Stream) : Type 0 where
  pub is_stream : IsStream w
  pub unheld : count ch (values w.pending) ≡ 0

-- The event does not come from the stream of the worker, which has ended: its reader has returned, no
-- scan has it on its list, and a reaper finds its context done. Nor does the caller of the job give up,
-- and a later job gets a channel and an id of its own.
abbrev pub Misses : Handle → String → Channel → Event → Type 0
Misses h job ch (receives m x now) = x ≢ h
Misses h job ch (disconnects x) = x ≢ h
Misses h job ch (evicts x) = x ≢ h
Misses h job ch (reaps x context_done) = Unit
Misses h job ch (reaps x deadline_reached) = x ≢ h
Misses h job ch (reaps x tick) = x ≢ h
Misses h job ch (dispatches x other c) = (str_eq other job ≡ false) × (c ≢ ch)
Misses h job ch (abandons x other) = str_eq other job ≡ false
Misses h job ch _ = Unit

module _ (h : Handle) (job : String) (ch : Channel) where
  -- The job waits on the channel at the worker that has gone, and nothing waits on it elsewhere.
  pub record Waits (r : Registry) : Type 0 where
    pub gone : IsGone h r
    pub waiting : lookup job (r.heap h).pending ≡ some ch
    pub elsewhere : (x : Handle) → x ≢ h → IsFree ch (r.heap x)

  abbrev pub Kept : Registry → List Send → Type 0
  Kept r sent = Waits r × (count ch (answered sent) ≡ 0)

  pub none_sent : count ch (answered []) ≡ 0
  unfolding answered
  none_sent = refl

  pub call-IsFree :
      (c : Call) (w : Stream)
      → IsFree ch w
      → count ch (opened c) ≡ 0
      → IsFree ch (call c w).0 × (count ch (answered (call c w).1) ≡ 0)
  call-IsFree c w f o =
      let balance = step-count ch c w f.is_stream in
      (
        record {
          is_stream = step-IsStream c w f.is_stream;
          unheld = omega (arith, balance, f.unheld, o);
        },
        omega (arith, balance, f.unheld, o),
      )

  pub written :
      (x : Handle) (w : Stream) (r : Registry)
      → Waits r
      → x ≢ h
      → IsFree ch w
      → Waits (record r { heap = write x w r.heap })
  written x w r k apart f = record {
    gone = record { allocated = k.gone.allocated; unlisted = k.gone.unlisted };
    waiting = ground (arith, ==_iff h x, k.waiting);
    elsewhere = λ y other. elim (Bool-cases (y == x)) [
      | inl e ↦ rw e f
      | inr e ↦ rw e (k.elsewhere y other)
    ];
  }

  written_here :
      (w : Stream) (r : Registry)
      → Waits r
      → lookup job w.pending ≡ some ch
      → Waits (record r { heap = write h w r.heap })
  written_here w r k e =
      let same : (h == h) ≡ true = (==_iff h h).1 refl in
      record {
        gone = record { allocated = k.gone.allocated; unlisted = k.gone.unlisted };
        waiting = rw same e;
        elsewhere = λ y other.
            let differs : (y == h) ≡ false = ground (arith, ==_iff y h, other) in
            rw differs (k.elsewhere y other);
      }

  -- A call on another worker.
  pub call-Kept :
      (c : Call) (x : Handle) (r : Registry)
      → Waits r
      → x ≢ h
      → count ch (opened c) ≡ 0
      → Kept (record r { heap = write x (call c (r.heap x)).0 r.heap }) (call c (r.heap x)).1
  call-Kept c x r k apart o =
      let (free, quiet) = call-IsFree c (r.heap x) (k.elsewhere x apart) o in
      (written x (call c (r.heap x)).0 r k apart free, quiet)

  -- A call on any worker that leaves the entry of the job.
  pub call-Waits :
      (c : Call) (x : Handle) (r : Registry)
      → Waits r
      → count ch (opened c) ≡ 0
      → lookup job (call c (r.heap h)).0.pending ≡ some ch
      → Waits (record r { heap = write x (call c (r.heap x)).0 r.heap })
  call-Waits c x r k o stays = elim (Bool-cases (x == h)) [
    | inl e ↦ rw ((==_iff x h).0 e) (written_here (call c (r.heap h)).0 r k stays)
    | inr e ↦ (call-Kept c x r k (ground (arith, ==_iff x h)) o).0
  ]
