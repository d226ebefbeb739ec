-- ===== src/Queue/Counts.antt =====
-- `Stats` of internal/queue/queue.go counts the lines of the queue.
use agent_gpu.Prelude.{ℕ, ◌+◌, ◌≡◌, List, [], ◌∷◌, arith, ◌==◌, if◌then◌else◌, length}
use agent_gpu.Queue.{Queue, Item, Priority, count_up, tally, stats}
use agent_gpu.Queue.Lanes.{lane}

-- The count that a reader of the map finds, 0 where it has none.
unfoldable pub count_of : Priority → List (Priority × ℕ) → ℕ
count_of p [] = 0
count_of p ((r, n) ∷ m) = if r == p then n else count_of p m

count_of-count_up :
    (p r : Priority) (m : List (Priority × ℕ))
    → count_of p (count_up r m) ≡ (if r == p then count_of p m + 1 else count_of p m)
unfolding count_of count_up
count_of-count_up p r [] = ground arith
count_of-count_up p r ((s, n) ∷ m) = ground (arith, count_of-count_up p r m)

count_of-tally :
    (p : Priority) (its : List Item) (m : List (Priority × ℕ))
    → count_of p (tally its m) ≡ count_of p m + length (lane p its)
unfolding tally lane
count_of-tally p [] m = omega arith
count_of-tally p (it ∷ its) m =
    ground (arith, count_of-tally p its (count_up it.priority m), count_of-count_up p it.priority m)

-- The count of each priority is the length of its line, and 0 for one that has no entry.
pub stats-lane :
    (q : Queue) (p : Priority) → count_of p (stats q).by_priority ≡ length (lane p q.items)
unfolding stats count_of
stats-lane q p = omega (arith, count_of-tally p q.items [])
