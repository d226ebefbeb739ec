-- ===== src/Queue/Lanes.antt =====
-- The queue as its contract has it: a line of items for each priority.
use agent_gpu.Prelude.{
  ◌<◌, ◌≡◌, refl, ◌≢◌, ◌⊎◌, inl, inr, true, false, none, some, List, [], ◌∷◌, ◌++◌, arith, All,
  All-imp, ◌==◌, if◌then◌else◌, String,
}
use agent_gpu.Store.{Time}
use agent_gpu.Types.{Job}
use agent_gpu.Queue.{Queue, Item, Priority, less, new_item, enqueue, dequeue}
use agent_gpu.Queue.Pop.{Pops, one, keep, take, IsArrival, All-Pops, Pops-least, heap_pop-Pops}

-- The items of one priority, the oldest first.
unfoldable pub lane : Priority → List Item → List Item
lane p [] = []
lane p (x ∷ xs) = if x.priority == p then x ∷ lane p xs else lane p xs

lane-snoc :
    (p : Priority) (xs : List Item) (x : Item)
    → lane p (xs ++ x ∷ []) ≡ (if x.priority == p then lane p xs ++ x ∷ [] else lane p xs)
unfolding lane
lane-snoc p [] x = ground arith
lane-snoc p (y ∷ xs) x = ground (arith, lane-snoc p xs x)

-- An accepted job stands at the end of the items.
pub items-enqueue :
    (job : Job) (key : String) (p : Priority) (now : Time) (q : Queue)
    → (enqueue job key p now q).1 ≡ none
    → (enqueue job key p now q).0.items ≡ q.items ++ new_item job key p now q ∷ []
unfolding enqueue
items-enqueue job key p now q h = ground arith

less_younger : (m x : Item) → x.seq < m.seq → less m x ≡ true → m.priority ≢ x.priority
unfolding less
less_younger m x h l = ground arith

-- An item that is taken out was the head of its line, and the other lines are as they were.
pub Pops-lane :
    {xs : List Item} {it : Item} {rest : List Item} (p : Priority)
    → Pops xs it rest
    → IsArrival xs
    → lane p xs ≡ (if it.priority == p then it ∷ lane p rest else lane p rest)
unfolding lane
Pops-lane p (one x) a = refl
Pops-lane p (take x l q) a = refl
Pops-lane p (keep {least = m} x l q) a =
    ground (arith, Pops-lane p q a.1, less_younger m x (All-Pops (λ y. x.seq < y.seq) q a.0).0 l)

not-less_above : (y it : Item) (p : Priority) → it.priority < p → less y it ≡ false → y.priority ≢ p
unfolding less
not-less_above y it p h l = ground arith

lane_empty : (p : Priority) (xs : List Item) → All (λ y. y.priority ≢ p) xs → lane p xs ≡ []
unfolding lane
lane_empty p [] a = refl
lane_empty p (x ∷ xs) a = ground (arith, lane_empty p xs a.1, a.0)

-- The line of a priority above that of the item that is taken out is empty.
pub Pops-lane_above :
    {xs : List Item} {it : Item} {rest : List Item} (p : Priority)
    → Pops xs it rest
    → it.priority < p
    → lane p xs ≡ []
Pops-lane_above {xs} {it} p q h = lane_empty p xs (
    All-imp (λ y. less y it ≡ false) (λ y. y.priority ≢ p) xs (λ y. not-less_above y it p h)
      (Pops-least q))

-- An accepted job joins the end of the line of its priority, and no other line changes.
pub enqueue-lane :
    (job : Job) (key : String) (p r : Priority) (now : Time) (q : Queue)
    → (enqueue job key p now q).1 ≡ none
    → lane r (enqueue job key p now q).0.items
      ≡ (if p == r then lane r q.items ++ new_item job key p now q ∷ [] else lane r q.items)
unfolding new_item
enqueue-lane job key p r now q h =
    rw (items-enqueue job key p now q h, lane-snoc r q.items (new_item job key p now q)) refl

-- `Dequeue` finds the queue empty, or takes the head of the highest line that is not empty and
-- leaves the other lines as they are. The items must stand in the order of arrival.
pub dequeue-lane :
    (q : Queue)
    → IsArrival q.items
    → ((q.items ≡ []) × (dequeue q ≡ (q, none)))
      ⊎ ((it : Item) × (rest : List Item) × (dequeue q ≡ (record q { items = rest }, some it))
          × ((p : Priority)
              → lane p q.items ≡ (if it.priority == p then it ∷ lane p rest else lane p rest))
          × ((p : Priority) → it.priority < p → lane p q.items ≡ []))
unfolding dequeue
dequeue-lane q a = elim (heap_pop-Pops q.items) [
  | inl (n, e) ↦ inl (n, ground arith)
  | inr (it, rest, e, p) ↦
      inr (it, rest, ground arith, λ r. Pops-lane r p a, λ r. Pops-lane_above r p)
]
