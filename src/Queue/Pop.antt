-- ===== src/Queue/Pop.antt =====
-- What the heap's `Pop` takes out: the first of the items by priority and then by age.
use mathlib.Core.List.Perm
use agent_gpu.Prelude.{
  ◌<◌, ◌+◌, length, ◌≡◌, ◌≢◌, refl, ◌⊎◌, inl, inr, true, false, none, some, List, [], ◌∷◌, Perm,
  arith, All, All-imp, Bool-cases,
}
use agent_gpu.Queue.{Item, less, heap_pop}

less_asymm : (a b : Item) → less a b ≡ true → less b a ≡ false
unfolding less
less_asymm a b h = ground arith

less_irrefl : (a : Item) → less a a ≡ false
unfolding less
less_irrefl a = ground arith

not-less_trans : (a b c : Item) → less b a ≡ false → less c b ≡ false → less c a ≡ false
unfolding less
not-less_trans a b c h k = ground arith

-- Of two items with different numbers one comes first.
not-less_total : (a b : Item) → a.seq < b.seq → less b a ≡ false → less a b ≡ true
unfolding less
not-less_total a b h k = ground arith

-- How `Pop` walks the items: the last one is the least of its list, and each item before it
-- either gives way to the least of the rest or takes its place.
pub data Pops : List Item → Item → List Item → Type 0 where
  one : (x : Item) → Pops (x ∷ []) x []
  keep :
      {xs : List Item} {least : Item} {rest : List Item} (x : Item)
      → less least x ≡ true
      → Pops xs least rest
      → Pops (x ∷ xs) least (x ∷ rest)
  take :
      {xs : List Item} {least : Item} {rest : List Item} (x : Item)
      → less least x ≡ false
      → Pops xs least rest
      → Pops (x ∷ xs) x xs

pub heap_pop-Pops :
    (xs : List Item)
    → ((xs ≡ []) × (heap_pop xs ≡ none))
      ⊎ ((it : Item) × (rest : List Item) × (heap_pop xs ≡ some (it, rest)) × Pops xs it rest)
unfolding heap_pop
heap_pop-Pops [] = inl (refl, refl)
heap_pop-Pops (x ∷ xs) = elim (heap_pop-Pops xs) [
  | inl (n, e) ↦ inr (x, [], rw (e, heap_pop), rw n (one x))
  | inr (least, rest, e, p) ↦ elim (Bool-cases (less least x)) [
    | inl l ↦ inr (least, x ∷ rest, rw (e, heap_pop, l), keep x l p)
    | inr l ↦ inr (x, xs, rw (e, heap_pop, l), take x l p)
  ]
]

-- The items in their order of arrival, by rising numbers.
abbrev pub IsArrival : List Item → Type 0
IsArrival [] = Unit {0}
IsArrival (x ∷ xs) = All (λ y. x.seq < y.seq) xs × IsArrival xs

pub Pops-perm :
    {xs : List Item} {it : Item} {rest : List Item} → Pops xs it rest → Perm xs (it ∷ rest)
Pops-perm (one x) = Perm.refl (x ∷ [])
Pops-perm (keep x l p) = Perm.trans (Perm.cons x (Pops-perm p)) (Perm.swap _ x _)
Pops-perm (take x l p) = Perm.refl _

pub All-Pops :
    (P : Item → Type 0) {xs : List Item} {it : Item} {rest : List Item}
    → Pops xs it rest
    → All P xs
    → P it × All P rest
All-Pops P (one x) a = (a.0, tt)
All-Pops P (keep x l p) a = let (m, r) = All-Pops P p a.1 in (m, (a.0, r))
All-Pops P (take x l p) a = (a.0, a.1)

-- No item comes before the one that is taken out.
pub Pops-least :
    {xs : List Item} {it : Item} {rest : List Item}
    → Pops xs it rest
    → All (λ y. less y it ≡ false) xs
Pops-least (one x) = (less_irrefl x, tt)
Pops-least (keep {least = m} x l p) = (less_asymm m x l, Pops-least p)
Pops-least (take {least = m} x l p) = (
  less_irrefl x,
  All-imp (λ y. less y m ≡ false) (λ y. less y x ≡ false) _ (λ y. not-less_trans x m y l)
      (Pops-least p),
)

pub Pops-IsArrival :
    {xs : List Item} {it : Item} {rest : List Item}
    → Pops xs it rest
    → IsArrival xs
    → IsArrival rest
Pops-IsArrival (one x) a = tt
Pops-IsArrival (keep x l p) a = ((All-Pops (λ y. x.seq < y.seq) p a.0).1, Pops-IsArrival p a.1)
Pops-IsArrival (take x l p) a = a.1

-- In the order of arrival, the item that is taken out comes before all that are left.
pub Pops-first :
    {xs : List Item} {it : Item} {rest : List Item}
    → Pops xs it rest
    → IsArrival xs
    → All (λ y. less it y ≡ true) rest
Pops-first (one x) a = tt
Pops-first (keep x l p) a = (l, Pops-first p a.1)
Pops-first (take x l p) a = after x _ a.0 (Pops-least (take x l p)).1
  where
    after :
        (z : Item) (ys : List Item)
        → All (λ y. z.seq < y.seq) ys
        → All (λ y. less y z ≡ false) ys
        → All (λ y. less z y ≡ true) ys
    after z [] b c = tt
    after z (y ∷ ys) b c = (not-less_total z y b.0 c.0, after z ys b.1 c.1)

pub Pops-length :
    {xs : List Item} {it : Item} {rest : List Item} → Pops xs it rest → length xs ≡ length rest + 1
Pops-length (one x) = omega arith
Pops-length (keep x l p) = omega (arith, Pops-length p)
Pops-length (take x l p) = omega arith

pub Pops-nonempty : {xs : List Item} {it : Item} {rest : List Item} → Pops xs it rest → xs ≢ []
Pops-nonempty (one x) = λ e. cc
Pops-nonempty (keep x l p) = λ e. cc
Pops-nonempty (take x l p) = λ e. cc
