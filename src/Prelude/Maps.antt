-- ===== src/Prelude/Maps.antt =====
-- Maps from texts as association lists: one entry for each key, and how often a value occurs.
use Prim.Native.Nat.{ℕ, suc, ◌+◌}
use Prim.Native.String.{String}
use mathlib.Core.Path.{sym, subst₂, ap, ◌≡◌, refl, ◌∙◌}
use mathlib.Core.Logic.{inl, inr}
use mathlib.Core.Option.{Option, none, some}
use mathlib.Core.List.{List, [], ◌∷◌, ◌++◌}
use native.Mathlib.Omega.{arith}
use text.Mathlib.Text.{◌==◌ as str_eq}
use text.Mathlib.TextEquality.{eq_iff}
use agent_gpu.Prelude.Tests.{if◌then◌else◌, ◌==◌, Bool-cases}
use agent_gpu.Prelude.Texts.{lookup, insert, remove, lookup-insert, lookup-remove}

-- How often a number stands in a list.
abbrev pub count : ℕ → List ℕ → ℕ
count c [] = 0
count c (x ∷ xs) = if x == c then suc (count c xs) else count c xs

pub count-append : (c : ℕ) (xs ys : List ℕ) → count c (xs ++ ys) ≡ count c xs + count c ys
count-append c [] ys = omega arith
count-append c (x ∷ xs) ys = ground (arith, count-append c xs ys)

abbrev pub to_list {ℓ} : {A : Type ℓ} → Option A → List A
to_list none = []
to_list (some a) = a ∷ []

abbrev pub or_default {ℓ} : {A : Type ℓ} → A → Option A → A
or_default a none = a
or_default a (some b) = b

module _ {ℓ} {V : Type ℓ} where
  abbrev pub values : List (String × V) → List V
  values [] = []
  values ((_, v) ∷ m) = v ∷ values m

  -- No key has two entries.
  abbrev pub IsMap : List (String × V) → Type ℓ
  IsMap [] = Unit
  IsMap ((k, _) ∷ m) = (lookup k m ≡ none) × IsMap m

  pub insert-IsMap :
      (key : String) (val : V) (m : List (String × V)) → IsMap m → IsMap (insert key val m)
  unfolding insert lookup
  insert-IsMap key val [] h = (refl, tt)
  insert-IsMap key val ((k, old) ∷ m) h = elim (Bool-cases (str_eq k key)) [
    | inl e ↦ rw (e, insert) (rw (← (eq_iff k key).0 e) h)
    | inr e ↦
        rw (e, insert)
          (
            lookup-insert key k val m ∙ ground (arith, eq_iff key k, eq_iff k key, h.0),
            insert-IsMap key val m h.1,
          )
  ]

  pub remove-IsMap : (key : String) (m : List (String × V)) → IsMap m → IsMap (remove key m)
  unfolding remove
  remove-IsMap key [] h = tt
  remove-IsMap key ((k, old) ∷ m) h = elim (Bool-cases (str_eq k key)) [
    | inl e ↦ rw (e, remove) (remove-IsMap key m h.1)
    | inr e ↦ rw (e, remove) (lookup-remove key k m ∙ ground (arith, h.0), remove-IsMap key m h.1)
  ]

  -- A key without an entry has nothing to remove.
  pub remove-absent :
      (key : String) (m : List (String × V)) → lookup key m ≡ none → remove key m ≡ m
  unfolding lookup remove
  remove-absent key [] h = refl
  remove-absent key ((k, old) ∷ m) h = elim (Bool-cases (str_eq k key)) [
    | inl e ↦ ground arith
    | inr e ↦ ground (arith, remove-absent key m)
  ]

module _ {ℓ κ} {V : Type ℓ} (P : String → V → Type κ) where
  -- What holds of every entry.
  abbrev pub Entries : List (String × V) → Type κ
  Entries [] = Unit
  Entries ((k, v) ∷ m) = P k v × Entries m

  pub insert-Entries :
      (key : String) (val : V) (m : List (String × V))
      → P key val
      → Entries m
      → Entries (insert key val m)
  unfolding insert
  insert-Entries key val [] p h = (p, tt)
  insert-Entries key val ((k, old) ∷ m) p h = elim (Bool-cases (str_eq k key)) [
    | inl e ↦ rw (e, insert) (p, h.1)
    | inr e ↦ rw (e, insert) (h.0, insert-Entries key val m p h.1)
  ]

  pub remove-Entries : (key : String) (m : List (String × V)) → Entries m → Entries (remove key m)
  unfolding remove
  remove-Entries key [] h = tt
  remove-Entries key ((k, old) ∷ m) h = elim (Bool-cases (str_eq k key)) [
    | inl e ↦ rw (e, remove) (remove-Entries key m h.1)
    | inr e ↦ rw (e, remove) (h.0, remove-Entries key m h.1)
  ]

  pub lookup-Entries :
      (key : String) (val : V) (m : List (String × V))
      → lookup key m ≡ some val
      → Entries m
      → P key val
  unfolding lookup
  lookup-Entries key val [] e h = cc
  lookup-Entries key val ((k, old) ∷ m) e h = elim (Bool-cases (str_eq k key)) [
    | inl s ↦
        subst₂ P ((eq_iff k key).0 s)
          (ap (or_default old) (ap (λ t. if t then some old else lookup key m) (sym s) ∙ e)) h.0
    | inr s ↦
        lookup-Entries key val m (ap (λ t. if t then some old else lookup key m) (sym s) ∙ e) h.1
  ]

pub Entries-imp {ℓ κ μ} :
    {V : Type ℓ} (P : String → V → Type κ) (Q : String → V → Type μ) (m : List (String × V))
    → ((k : String) (v : V) → P k v → Q k v)
    → Entries P m
    → Entries Q m
Entries-imp P Q [] f h = tt
Entries-imp P Q ((k, v) ∷ m) f h = (f k v h.0, Entries-imp P Q m f h.1)

module _ (c : ℕ) where
  -- What a write displaces and what it adds.
  pub count-insert :
      (key : String) (val : ℕ) (m : List (String × ℕ))
      → count c (values (insert key val m)) + count c (to_list (lookup key m))
        ≡ count c (values m) + count c (val ∷ [])
  unfolding insert lookup
  count-insert key val [] = omega arith
  count-insert key val ((k, old) ∷ m) = ground (arith, count-insert key val m)

  pub count-remove :
      (key : String) (m : List (String × ℕ))
      → IsMap m
      → count c (values (remove key m)) + count c (to_list (lookup key m)) ≡ count c (values m)
  unfolding remove lookup
  count-remove key [] h = refl
  count-remove key ((k, old) ∷ m) h = elim (Bool-cases (str_eq k key)) [
    | inl e ↦ rw (e, remove, remove-absent key m (rw (← (eq_iff k key).0 e) h.0)) (ground arith)
    | inr e ↦ ground (arith, count-remove key m h.1)
  ]
