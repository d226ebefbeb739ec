-- ===== src/Server/Submit/Late.antt =====
-- A job that is dispatched to a worker after the end of its stream. `pickWorker` gives the pointer to
-- the worker, and `dispatchTo` uses it later.
use agent_gpu.Prelude.{
  ◌≡◌, refl, String, eq_iff, ◌==◌, ==_iff, some, List, [], ◌∷◌, ◌++◌, arith, All, lookup,
  lookup-insert_same, count, count-append, true, false,
}
use agent_gpu.Types.{Job}
use agent_gpu.Server.Stream.{Channel, Send, add_pending}
use agent_gpu.Server.Stream.Answers.{answered, answered-append}
use agent_gpu.Server.Fleet.{Handle, Registry}
use agent_gpu.Server.Fleet.Valid.{Event, step, sends}
use agent_gpu.Server.Fleet.Gone.{IsGone, IsFree, Misses, Waits, none_sent}
use agent_gpu.Server.Fleet.Gone.Events.{step-Kept}
use agent_gpu.Server.Submit.{Server, dispatch}

unfoldable pub run : List Event → Registry → Registry
run [] r = r
run (e ∷ es) r = run es (step e r)

-- All that is sent on channels.
unfoldable pub all_sends : List Event → Registry → List Send
all_sends [] r = []
all_sends (e ∷ es) r = sends e r ++ all_sends es (step e r)

run-Waits :
    (h : Handle) (job : String) (ch : Channel) (es : List Event) (r : Registry)
    → Waits h job ch r
    → All (Misses h job ch) es
    → (lookup job ((run es r).heap h).pending ≡ some ch)
      × (count ch (answered (all_sends es r)) ≡ 0)
unfolding run all_sends
run-Waits h job ch [] r k a = (k.waiting, none_sent h job ch)
run-Waits h job ch (e ∷ es) r k a =
    let (next, quiet) = step-Kept h job ch e r k a.0 in
    let (waiting, still) = run-Waits h job ch es (step e r) next a.1 in
    let more = all_sends es (step e r) in
    (
      waiting,
      rw (answered-append (sends e r) more)
          (omega (arith, count-append ch (answered (sends e r)) (answered more), quiet, still)),
    )

dispatch-Waits :
    (h : Handle) (job : Job) (ch : Channel) (s : Server)
    → IsGone h s.registry
    → ((x : Handle) → IsFree ch (s.registry.heap x))
    → Waits h job.id ch (dispatch h job ch s).registry
unfolding dispatch add_pending
dispatch-Waits h job ch s g free =
    let same : (h == h) ≡ true = (==_iff h h).1 refl in
    record {
      gone = record { allocated = g.allocated; unlisted = g.unlisted };
      waiting = rw same (lookup-insert_same job.id job.id ch _ ((eq_iff job.id job.id).1 refl));
      elsewhere = λ y other.
          let differs : (y == h) ≡ false = ground (arith, ==_iff y h, other) in rw differs (free y);
    }

-- A job that is dispatched to a worker that has already left the registry is never answered, unless
-- its caller gives up: whatever happens to the fleet afterwards, nothing is sent on its channel, and
-- it stays among those that wait. The stream of the worker has ended, no scan has it on its list and
-- no reaper evicts it, so that no event comes from it any more; the channel is new, later jobs have
-- other ids and channels, and each map has one entry for a key.
pub dispatch-late :
    (h : Handle) (job : Job) (ch : Channel) (es : List Event) (s : Server)
    → IsGone h s.registry
    → ((x : Handle) → IsFree ch (s.registry.heap x))
    → All (Misses h job.id ch) es
    → (lookup job.id ((run es (dispatch h job ch s).registry).heap h).pending ≡ some ch)
      × (count ch (answered (all_sends es (dispatch h job ch s).registry)) ≡ 0)
dispatch-late h job ch es s g free a =
    run-Waits h job.id ch es (dispatch h job ch s).registry (dispatch-Waits h job ch s g free) a
