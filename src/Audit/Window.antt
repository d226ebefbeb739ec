-- ===== src/Audit/Window.antt =====
-- The log is a window on all that was appended.
use agent_gpu.Prelude.{
  append_assoc, append_nil, ℤ, ◌-◌, ◌<◌, ◌≡◌, refl, sym, ap, ◌∙◌, arith, pos_part, ltb, true, List,
  [], ◌∷◌, ◌++◌, drop, length, last_of, last_of-append, Bool-cases, inl, inr,
}
use agent_gpu.Store.{Time}
use agent_gpu.Audit.{Entry, MemoryStore, new_memory_store, stamp, keep_newest, append}

module _ {V : Type 0} where
  -- The calls of `Append`, each with its clock.
  unfoldable pub append_all : List (Entry V × Time) → MemoryStore V → MemoryStore V
  append_all [] m = m
  append_all ((e, now) ∷ calls) m = append_all calls (append e now m)

  unfoldable pub stamped : List (Entry V × Time) → List (Entry V)
  stamped [] = []
  stamped ((e, now) ∷ calls) = stamp now e ∷ stamped calls

  keep_newest-last_of :
      (max : ℤ) (xs : List (Entry V))
      → 0 < pos_part max
      → keep_newest max xs ≡ last_of (pos_part max) xs
  unfolding keep_newest
  keep_newest-last_of max xs p =
      let on : ltb 0 (pos_part max) ≡ true = ground arith in
      elim (Bool-cases (ltb (pos_part max) (length xs))) [
        | inl e ↦ rw (on, e) refl
        | inr e ↦
            let z : length xs - pos_part max ≡ 0 = ground (arith, e) in
            rw (on, e) (ap (λ k. drop k xs) (sym z))
      ]

  window_lem :
      (max : ℤ) (xs : List (Entry V)) (calls : List (Entry V × Time)) (m : MemoryStore V)
      → 0 < pos_part max
      → m.max ≡ max
      → m.entries ≡ last_of (pos_part max) xs
      → (append_all calls m).entries ≡ last_of (pos_part max) (xs ++ stamped calls)
  unfolding append_all stamped append
  window_lem max xs [] m p k h = h ∙ ap (last_of (pos_part max)) (sym (append_nil xs))
  window_lem max xs ((e, now) ∷ calls) m p k h =
      let new = stamp now e ∷ [] in
      let next : (append e now m).entries ≡ last_of (pos_part max) (xs ++ new) =
        ap (λ n. keep_newest n (m.entries ++ new)) k
        ∙ ap (λ r. keep_newest max (r ++ new)) h
        ∙ keep_newest-last_of max (last_of (pos_part max) xs ++ new) p
        ∙ last_of-append (pos_part max) xs new in
      window_lem max (xs ++ new) calls (append e now m) p k next
      ∙ ap (last_of (pos_part max)) (append_assoc xs new (stamped calls))

-- With a positive cap a log that started empty has the newest entries of all that were appended, in
-- the order in which they came, and no more of them than the cap.
pub append_all-last_of :
    {V : Type 0} (max : ℤ) (calls : List (Entry V × Time))
    → 0 < pos_part max
    → (append_all calls (new_memory_store max)).entries ≡ last_of (pos_part max) (stamped calls)
unfolding new_memory_store
append_all-last_of {V = V} max calls p = window_lem max [] calls (new_memory_store max) p refl (
    ap (λ k. drop k (let none_yet : List (Entry V) = [] in none_yet))
      (let z : 0 ≡ 0 - pos_part max = omega arith in z))
