-- ===== src/Queue/Examples.antt =====
-- A bounded queue with jobs of two priorities.
use agent_gpu.Prelude.{ℕ, pos, String, ◌≡◌, refl, false, List, [], ◌∷◌, ◌++◌, arith}
use agent_gpu.Types.{Job}
use agent_gpu.Queue.{Queue, Item, new, heap_push, heap_pop, new_item, enqueue, dequeue, close}
use agent_gpu.Queue.Pop.{IsArrival}
use agent_gpu.Queue.Lanes.{lane}
use agent_gpu.Queue.Calls.{
  Call, enqueues, dequeues, closes, step, let_in, run, accepted, served, IsValid, run-lane,
}
use agent_gpu.Queue.Wait.{received, dequeue_wait, look}

abbrev pub job : String → Job
job name = record {
  id = name;
  model = "llama3";
  prompt = "";
  messages = [];
  tools = [];
  session_id = "";
  keep_alive_seconds = pos 0;
}

abbrev item : String → ℕ → ℕ → Item
item name p n = record { job = job name; key = "k"; priority = p; seq = n; enqueued_at = 5 }

abbrev three : List Item
three = item "low" 0 0 ∷ item "first" 2 1 ∷ item "second" 2 2 ∷ []

abbrev queue : Queue
queue = record { items = three; seq = 3; max_depth = 4; is_closed = false }

queue-IsArrival : IsArrival three
queue-IsArrival = ((omega arith, (omega arith, tt)), ((omega arith, tt), (tt, tt)))

queue-IsValid : IsValid queue
queue-IsValid = record {
  arrival = queue-IsArrival;
  used = (omega arith, (omega arith, (omega arith, tt)));
  bounded = λ h. omega arith;
}

history : List Call
history = enqueues (job "third") "k" 2 5 ∷ dequeues ∷ closes ∷ dequeues ∷ []

run-lane_example :
    lane 2 (served queue history) ++ lane 2 (run queue history).items
    ≡ item "first" 2 1 ∷ item "second" 2 2 ∷ item "third" 2 3 ∷ []
unfolding history lane enqueue accepted let_in step dequeue close heap_push heap_pop new_item
run-lane_example = run-lane queue history 2 (omega arith) queue-IsValid

dequeue_wait_late :
    (dequeue_wait false new ((enqueues (job "late") "k" 1 5 ∷ [], false) ∷ [])).1
    ≡ received (item "late" 1 0)
unfolding dequeue_wait look dequeue heap_pop new run step enqueue heap_push new_item
dequeue_wait_late = refl
