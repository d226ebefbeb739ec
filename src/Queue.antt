-- ===== src/Queue.antt =====
-- internal/queue/queue.go: the job queue, FIFO within a priority. Its mutex makes each method one
-- step. The heap of container/heap is kept by its contract: `Push` adds an item and `Pop` takes out
-- the least one by `less`; the list holds the items in their order of arrival.
pub mod Pop
pub mod Lanes
pub mod Calls
pub mod Wait
pub mod Counts
mod Examples
use agent_gpu.Prelude.{
  ℕ, ℤ, pos_part, suc, ◌+◌, ◌%◌, ◌^◌, String, Bool, true, false, not, ◌&&◌, Option, none, some,
  List, [], ◌∷◌, ◌++◌, ltb, leb, ◌==◌, if◌then◌else◌, length,
}
use agent_gpu.Store.{Time}
use agent_gpu.Types.{Job}

-- An int of the source; the program makes no other values than these three.
abbrev pub Priority : Type 0
Priority = ℕ

abbrev pub priority_low : Priority
priority_low = 0

abbrev pub priority_normal : Priority
priority_normal = 1

abbrev pub priority_high : Priority
priority_high = 2

pub data Error : Type 0 where
  full closed : Error

pub record Item : Type 0 where
  pub job : Job
  pub key : String
  pub priority : Priority
  pub seq : ℕ  -- uint64
  pub enqueued_at : Time

pub record Queue : Type 0 where
  pub items : List Item
  pub seq : ℕ  -- uint64
  pub max_depth : ℕ  -- 0 for no bound
  pub is_closed : Bool

unfoldable pub new : Queue
new = record { items = []; seq = 0; max_depth = 0; is_closed = false }

-- A negative bound counts as 0.
unfoldable pub with_max_depth : ℤ → Queue → Queue
with_max_depth n q = record q { max_depth = pos_part n }

-- The higher priority comes first, and within one the smaller number.
unfoldable pub less : Item → Item → Bool
less a b = if not (a.priority == b.priority) then ltb b.priority a.priority else ltb a.seq b.seq

unfoldable pub heap_push : List Item → Item → List Item
heap_push h it = h ++ it ∷ []

unfoldable pub heap_pop : List Item → Option (Item × List Item)
unfolding less
heap_pop [] = none
heap_pop (x ∷ xs) = elim (heap_pop xs) [
  | none ↦ some (x, [])
  | some (least, rest) ↦ if less least x then some (least, x ∷ rest) else some (x, xs)
]

-- The item that `Enqueue` makes of its arguments.
unfoldable pub new_item : Job → String → Priority → Time → Queue → Item
new_item job key p now q = record {
  job = job;
  key = key;
  priority = p;
  seq = q.seq;
  enqueued_at = now;
}

unfoldable pub enqueue : Job → String → Priority → Time → Queue → Queue × Option Error
unfolding heap_push new_item
enqueue job key p now q =
    if q.is_closed
    then (q, some closed)
    else if ltb 0 q.max_depth && leb q.max_depth (length q.items)
    then (q, some full)
    else (
      record q { items = heap_push q.items (new_item job key p now q); seq = (q.seq + 1) % 2 ^ 64 },
      none,
    )

-- `Dequeue`, which is `popLocked`.
unfoldable pub dequeue : Queue → Queue × Option Item
dequeue q = elim (heap_pop q.items) [
  | none ↦ (q, none)
  | some (it, rest) ↦ (record q { items = rest }, some it)
]

unfoldable pub len : Queue → ℕ
len q = length q.items

-- `close` sets the flag once.
unfoldable pub close : Queue → Queue
close q = if q.is_closed then q else record q { is_closed = true }

pub record Stats : Type 0 where
  pub total : ℕ
  pub by_priority : List (Priority × ℕ)

-- `byPriority[p]++`
unfoldable pub count_up : Priority → List (Priority × ℕ) → List (Priority × ℕ)
count_up p [] = (p, 1) ∷ []
count_up p ((r, n) ∷ m) =
    let rest = count_up p m in if r == p then (r, n + 1) ∷ m else (r, n) ∷ rest

unfoldable pub tally : List Item → List (Priority × ℕ) → List (Priority × ℕ)
unfolding count_up
tally [] m = m
tally (it ∷ its) m = tally its (count_up it.priority m)

unfoldable pub stats : Queue → Stats
unfolding tally
stats q = record { total = length q.items; by_priority = tally q.items [] }
