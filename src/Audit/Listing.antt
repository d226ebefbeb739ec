-- ===== src/Audit/Listing.antt =====
-- What a query of the log returns.
use mathlib.Core.List.Perm
use agent_gpu.Prelude.{
  ℕ, ℤ, ◌≤◌, ◌≡◌, refl, ap, ◌∙◌, arith, pos_part, ltb, ◌==◌, ◌&&◌, List, [], ◌∷◌, take, length, All,
  All-imp, take_all, Perm, if◌then◌else◌, Bool-cases, inl, inr,
}
use agent_gpu.Store.{Time}
use agent_gpu.Audit.{Entry, Filter, MemoryStore, select, insert_newest, newest_first, list}

module _ {V : Type 0} where
  -- No entry is older than one behind it.
  abbrev pub IsNewestFirst : List (Entry V) → Type 0
  IsNewestFirst [] = Unit {0}
  IsNewestFirst (x ∷ xs) = All (λ y. y.time ≤ x.time) xs × IsNewestFirst xs

  -- The entries of one time.
  abbrev pub at_time : Time → List (Entry V) → List (Entry V)
  at_time t [] = []
  at_time t (x ∷ xs) = if x.time == t then x ∷ at_time t xs else at_time t xs

  insert_newest-perm : (e : Entry V) (xs : List (Entry V)) → Perm (insert_newest e xs) (e ∷ xs)
  unfolding insert_newest
  insert_newest-perm e [] = Perm.refl (e ∷ [])
  insert_newest-perm e (x ∷ xs) = elim (Bool-cases (ltb e.time x.time)) [
    | inl f ↦ rw f (Perm.trans (Perm.cons x (insert_newest-perm e xs)) (Perm.swap e x xs))
    | inr f ↦ rw f (Perm.refl (e ∷ x ∷ xs))
  ]

  newest_first-perm : (xs : List (Entry V)) → Perm (newest_first xs) xs
  unfolding newest_first
  newest_first-perm [] = Perm.refl []
  newest_first-perm (x ∷ xs) =
      Perm.trans (insert_newest-perm x (newest_first xs)) (Perm.cons x (newest_first-perm xs))

  insert_newest-All :
      (P : Entry V → Type 0) (e : Entry V) (xs : List (Entry V))
      → P e
      → All P xs
      → All P (insert_newest e xs)
  unfolding insert_newest
  insert_newest-All P e [] p h = (p, tt)
  insert_newest-All P e (x ∷ xs) p h = elim (Bool-cases (ltb e.time x.time)) [
    | inl f ↦ rw f (h.0, insert_newest-All P e xs p h.1)
    | inr f ↦ rw f (p, h)
  ]

  insert_newest-IsNewestFirst :
      (e : Entry V) (xs : List (Entry V)) → IsNewestFirst xs → IsNewestFirst (insert_newest e xs)
  unfolding insert_newest
  insert_newest-IsNewestFirst e [] h = (tt, tt)
  insert_newest-IsNewestFirst e (x ∷ xs) h = elim (Bool-cases (ltb e.time x.time)) [
    | inl f ↦ rw f (
      insert_newest-All (λ y. y.time ≤ x.time) e xs (ground (arith, f)) h.0,
      insert_newest-IsNewestFirst e xs h.1,
    )
    | inr f ↦
        let below : x.time ≤ e.time = ground (arith, f) in
        rw f (
          (
            below,
            All-imp (λ y. y.time ≤ x.time) (λ y. y.time ≤ e.time) xs
                (λ y k. omega (arith, k, below)) h.0,
          ),
          h,
        )
  ]

  newest_first-IsNewestFirst : (xs : List (Entry V)) → IsNewestFirst (newest_first xs)
  unfolding newest_first
  newest_first-IsNewestFirst [] = tt
  newest_first-IsNewestFirst (x ∷ xs) =
      insert_newest-IsNewestFirst x (newest_first xs) (newest_first-IsNewestFirst xs)

  insert_newest-at_time :
      (t : Time) (e : Entry V) (xs : List (Entry V))
      → at_time t (insert_newest e xs) ≡ at_time t (e ∷ xs)
  unfolding insert_newest
  insert_newest-at_time t e [] = refl
  insert_newest-at_time t e (x ∷ xs) = ground (arith, insert_newest-at_time t e xs)

  newest_first-at_time :
      (t : Time) (xs : List (Entry V)) → at_time t (newest_first xs) ≡ at_time t xs
  unfolding newest_first
  newest_first-at_time t [] = refl
  newest_first-at_time t (x ∷ xs) =
      insert_newest-at_time t x (newest_first xs)
      ∙ ap (λ r. if x.time == t then x ∷ r else r) (newest_first-at_time t xs)

  within :
      (n : ℕ) (xs : List (Entry V))
      → (if ltb 0 n && ltb n (length xs) then take n xs else xs)
        ≡ (if ltb 0 n then take n xs else xs)
  within n xs = elim (Bool-cases (ltb n (length xs))) [
    | inl e ↦ rw e (ground arith)
    | inr e ↦ rw (e, take_all n xs (ground (arith, e))) (ground arith)
  ]

  -- A query returns, newest first, the entries of the log that match the filter, those of one time in
  -- the order in which they came; with a positive limit it returns the first so many of them, so that
  -- no entry that is left out is newer than one that is returned.
  pub list-newest :
      (f : Filter) (limit : ℤ) (m : MemoryStore V)
      → (found : List (Entry V)) × (list f limit m
          ≡ (if ltb 0 (pos_part limit) then take (pos_part limit) found else found))
        × Perm found (select f m.entries)
        × IsNewestFirst found
        × ((t : Time) → at_time t found ≡ at_time t (select f m.entries))
  unfolding list
  list-newest f limit m =
      let kept = select f m.entries in
      (
        newest_first kept,
        within (pos_part limit) (newest_first kept),
        newest_first-perm kept,
        newest_first-IsNewestFirst kept,
        λ t. newest_first-at_time t kept,
      )
