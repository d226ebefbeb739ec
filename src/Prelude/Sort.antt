-- ===== src/Prelude/Sort.antt =====
-- `sort.Strings` of the standard library, in Go's byte order, and membership by a scan.
use mathlib.Core.Bool.{Bool-set}
use mathlib.Core.List.{Mem, Perm, mem-cons, not-mem-nil}
use mathlib.Core.List.Perm
use mathlib.Core.Logic.{inl, inr}
use mathlib.Core.Logic.Or
use mathlib.Core.Path.{◌≡◌}
use mathlib.Core.Bool.{true, false}
use mathlib.Core.List.{List, [], ◌∷◌}
use Prim.Native.String.{String}
use native.Mathlib.Omega.{arith}
use text.Mathlib.Text.{◌==◌ as str_eq}
use text.Mathlib.TextEquality.{eq_iff}
use agent_gpu.Prelude.Tests.{if◌then◌else◌, Bool-cases}
use agent_gpu.Prelude.Lists.{All, All-imp}
use agent_gpu.Prelude.Texts.{contains, str_lt, str_lt_trans, str_lt_irrefl, str_lt_total}

pub contains→mem : (xs : List String) (s : String) → contains xs s ≡ true → Mem s xs
unfolding contains
contains→mem [] s h = cc
contains→mem (x ∷ xs) s h = elim (Bool-cases (str_eq x s)) [
  | inl e ↦ mem-cons.1 (Or.inl (ground (arith, eq_iff x s)))
  | inr e ↦ mem-cons.1 (Or.inr (contains→mem xs s (rw e at h)))
]

pub mem→contains : (xs : List String) (s : String) → Mem s xs → contains xs s ≡ true
unfolding contains
mem→contains [] s m = absurd (not-mem-nil m)
mem→contains (x ∷ xs) s m =
    Or.elim (Bool-set _ _) (mem-cons.0 m) (λ e. ground (arith, eq_iff x s))
      (λ n. ground (arith, mem→contains xs s n))

insert_sorted : String → List String → List String
insert_sorted s [] = s ∷ []
insert_sorted s (x ∷ xs) = if str_lt x s then x ∷ insert_sorted s xs else s ∷ x ∷ xs

unfoldable pub sort_strings : List String → List String
unfolding insert_sorted
sort_strings [] = []
sort_strings (x ∷ xs) = insert_sorted x (sort_strings xs)

-- No text comes before the head of its list.
abbrev pub IsSorted : List String → Type 0
IsSorted [] = Unit {0}
IsSorted (x ∷ xs) = All (λ y. str_lt y x ≡ false) xs × IsSorted xs

insert_sorted-perm : (s : String) (xs : List String) → Perm (insert_sorted s xs) (s ∷ xs)
unfolding insert_sorted
insert_sorted-perm s [] = Perm.refl (s ∷ [])
insert_sorted-perm s (x ∷ xs) = elim (Bool-cases (str_lt x s)) [
  | inl e ↦ rw e (Perm.trans (Perm.cons x (insert_sorted-perm s xs)) (Perm.swap s x xs))
  | inr e ↦ rw e (Perm.refl (s ∷ x ∷ xs))
]

pub sort_strings-perm : (xs : List String) → Perm (sort_strings xs) xs
unfolding sort_strings
sort_strings-perm [] = Perm.refl []
sort_strings-perm (x ∷ xs) =
    Perm.trans (insert_sorted-perm x (sort_strings xs)) (Perm.cons x (sort_strings-perm xs))

pub not-lt_trans : (x y s : String) → str_lt x s ≡ false → str_lt y x ≡ false → str_lt y s ≡ false
not-lt_trans x y s h k = elim (Bool-cases (str_lt y s)) [
  | inr e ↦ e
  | inl e ↦ elim (Bool-cases (str_lt x y)) [
    | inl f ↦ cc (str_lt_trans x y s f e)
    | inr f ↦ cc (str_lt_total x y f k)
  ]
]

lt_asymm : (x s : String) → str_lt x s ≡ true → str_lt s x ≡ false
lt_asymm x s h = elim (Bool-cases (str_lt s x)) [
  | inr e ↦ e
  | inl e ↦ cc (str_lt_trans x s x h e, str_lt_irrefl x)
]

All-insert_sorted :
    (P : String → Type 0) (s : String) (xs : List String)
    → P s
    → All P xs
    → All P (insert_sorted s xs)
unfolding insert_sorted
All-insert_sorted P s [] h k = (h, tt)
All-insert_sorted P s (x ∷ xs) h k = ground (arith, All-insert_sorted P s xs h k.1)

insert_sorted-IsSorted :
    (s : String) (xs : List String) → IsSorted xs → IsSorted (insert_sorted s xs)
unfolding insert_sorted
insert_sorted-IsSorted s [] h = (tt, tt)
insert_sorted-IsSorted s (x ∷ xs) h = elim (Bool-cases (str_lt x s)) [
  | inl e ↦ rw e (
    All-insert_sorted (λ y. str_lt y x ≡ false) s xs (lt_asymm x s e) h.0,
    insert_sorted-IsSorted s xs h.1,
  )
  | inr e ↦ rw e (
    (
      e,
      All-imp (λ y. str_lt y x ≡ false) (λ y. str_lt y s ≡ false) xs (λ y. not-lt_trans x y s e)
          h.0,
    ),
    h,
  )
]

pub sort_strings-IsSorted : (xs : List String) → IsSorted (sort_strings xs)
unfolding sort_strings
sort_strings-IsSorted [] = tt
sort_strings-IsSorted (x ∷ xs) =
    insert_sorted-IsSorted x (sort_strings xs) (sort_strings-IsSorted xs)

insert_sorted-All :
    (P : String → Type 0) (s : String) (xs : List String)
    → All P (insert_sorted s xs)
    → P s × All P xs
unfolding insert_sorted
insert_sorted-All P s [] h = h
insert_sorted-All P s (x ∷ xs) h = elim (Bool-cases (str_lt x s)) [
  | inl e ↦ let k = rw e at h in let (a, b) = insert_sorted-All P s xs k.1 in (a, (k.0, b))
  | inr e ↦ rw e at h
]

-- Sorting keeps what holds of every element, in both directions.
pub All-sort_strings : (P : String → Type 0) (xs : List String) → All P xs → All P (sort_strings xs)
unfolding sort_strings
All-sort_strings P [] h = tt
All-sort_strings P (x ∷ xs) h =
    All-insert_sorted P x (sort_strings xs) h.0 (All-sort_strings P xs h.1)

pub sort_strings-All : (P : String → Type 0) (xs : List String) → All P (sort_strings xs) → All P xs
unfolding sort_strings
sort_strings-All P [] h = tt
sort_strings-All P (x ∷ xs) h =
    let (a, b) = insert_sorted-All P x (sort_strings xs) h in (a, sort_strings-All P xs b)
