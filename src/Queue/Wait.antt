-- ===== src/Queue/Wait.antt =====
-- `DequeueWait` of internal/queue/queue.go: it looks again after each time that it wakes up.
use agent_gpu.Prelude.{
  ◌≡◌, refl, ◌⊎◌, inl, inr, Bool, true, false, Option, none, some, List, [], ◌∷◌, Bool-cases,
  if◌then◌else◌, ◌≢◌, ap,
}
use agent_gpu.Queue.{Queue, Item, dequeue}
use agent_gpu.Queue.Pop.{heap_pop-Pops, Pops-nonempty}
use agent_gpu.Queue.Calls.{Call, run}

pub data Wait : Type 0 where
  received : Item → Wait
  closed cancelled parked : Wait

-- The rest of one turn of the loop after `popLocked`; `none` when it goes on to wait.
unfoldable pub look : Bool → Queue → Option Item → Option Wait
look is_done q (some it) = some (received it)
look is_done q none = if q.is_closed then some closed else if is_done then some cancelled else none

abbrev pub settle : Queue → Option Wait → Queue × Wait → Queue × Wait
settle q (some r) later = (q, r)
settle q none later = later

-- While the caller is parked others call the queue: each round is their calls up to a time that the
-- caller wakes up, and whether its context is done by then. It is parked still when no round is left.
unfoldable pub dequeue_wait : Bool → Queue → List (List Call × Bool) → Queue × Wait
dequeue_wait is_done q [] =
    settle (dequeue q).0 (look is_done (dequeue q).0 (dequeue q).1) ((dequeue q).0, parked)
dequeue_wait is_done q ((calls, d) ∷ rounds) =
    settle (dequeue q).0 (look is_done (dequeue q).0 (dequeue q).1)
      (dequeue_wait d (run (dequeue q).0 calls) rounds)

-- What an outcome says of the queue that the call leaves.
abbrev pub Outcome : Queue × Wait → Type 0
Outcome (q, received it) = (before : Queue) × (dequeue before ≡ (q, some it))
Outcome (q, closed) = (q.items ≡ []) × (q.is_closed ≡ true)
Outcome (q, cancelled) = (q.items ≡ []) × (q.is_closed ≡ false)
Outcome (q, parked) = (q.items ≡ []) × (q.is_closed ≡ false)

dequeue-cases :
    (q : Queue)
    → ((q.items ≡ []) × ((dequeue q).0 ≡ q) × ((dequeue q).1 ≡ none))
      ⊎ ((q.items ≢ []) × (it : Item) × ((dequeue q).1 ≡ some it))
unfolding dequeue
dequeue-cases q = elim (heap_pop-Pops q.items) [
  | inl (n, e) ↦ inl (n, rw (e, dequeue) refl, rw (e, dequeue) refl)
  | inr (it, rest, e, p) ↦ inr (Pops-nonempty p, it, rw (e, dequeue) refl)
]

look_item : (is_done : Bool) (q : Queue) (it : Item) → look is_done q (some it) ≡ some (received it)
unfolding look
look_item is_done q it = refl

look_closed : (is_done : Bool) (q : Queue) → q.is_closed ≡ true → look is_done q none ≡ some closed
unfolding look
look_closed is_done q c = rw c refl

look_open :
    (is_done : Bool) (q : Queue)
    → q.is_closed ≡ false
    → look is_done q none ≡ (if is_done then some cancelled else none)
unfolding look
look_open is_done q c = rw c refl

-- Whatever the other callers do, a wait that gives out an item took it out by one `Dequeue`; it
-- ends with "closed" only on a closed queue that is empty, and it is cancelled or waits on only while
-- the queue is empty and open.
pub dequeue_wait-Outcome :
    (is_done : Bool) (q : Queue) (rounds : List (List Call × Bool))
    → Outcome (dequeue_wait is_done q rounds)
unfolding dequeue_wait
dequeue_wait-Outcome is_done q [] = elim (dequeue-cases q) [
  | inl (n, e, f) ↦ elim (Bool-cases q.is_closed) [
    | inl c ↦ rw (f, e, look_closed is_done q c) (n, c)
    | inr c ↦ elim (Bool-cases is_done) [
      | inl d ↦ rw (f, e, look_open is_done q c, d) (n, c)
      | inr d ↦ rw (f, e, look_open is_done q c, d) (n, c)
    ]
  ]
  | inr (n, it, f) ↦ rw (f, look_item is_done (dequeue q).0 it) (q, ap (λ r. ((dequeue q).0, r)) f)
]
dequeue_wait-Outcome is_done q ((calls, d) ∷ rounds) = elim (dequeue-cases q) [
  | inl (n, e, f) ↦ elim (Bool-cases q.is_closed) [
    | inl c ↦ rw (f, e, look_closed is_done q c) (n, c)
    | inr c ↦ elim (Bool-cases is_done) [
      | inl b ↦ rw (f, e, look_open is_done q c, b) (n, c)
      | inr b ↦ rw (f, e, look_open is_done q c, b) (dequeue_wait-Outcome d (run q calls) rounds)
    ]
  ]
  | inr (n, it, f) ↦ rw (f, look_item is_done (dequeue q).0 it) (q, ap (λ r. ((dequeue q).0, r)) f)
]

-- On a closed queue a wait never blocks, not even with a context that is done: it hands out the items
-- that are left as `Dequeue` does, and it fails when there is none.
pub dequeue_wait-drains :
    (is_done : Bool) (q : Queue) (rounds : List (List Call × Bool))
    → q.is_closed ≡ true
    → ((q.items ≡ []) × (dequeue_wait is_done q rounds ≡ (q, closed)))
      ⊎ ((q.items ≢ [])
          × (it : Item) × ((dequeue q).1 ≡ some it)
          × (dequeue_wait is_done q rounds ≡ ((dequeue q).0, received it)))
unfolding dequeue_wait
dequeue_wait-drains is_done q [] c = elim (dequeue-cases q) [
  | inl (n, e, f) ↦ inl (n, rw (f, e, look_closed is_done q c) refl)
  | inr (n, it, f) ↦ inr (n, it, f, rw (f, look_item is_done (dequeue q).0 it) refl)
]
dequeue_wait-drains is_done q ((calls, d) ∷ rounds) c = elim (dequeue-cases q) [
  | inl (n, e, f) ↦ inl (n, rw (f, e, look_closed is_done q c) refl)
  | inr (n, it, f) ↦ inr (n, it, f, rw (f, look_item is_done (dequeue q).0 it) refl)
]
