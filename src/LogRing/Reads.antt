-- ===== src/LogRing/Reads.antt =====
-- Reading and writing the buffer of the ring, seen as two lists.
use native.Mathlib.Nat.{add-mod_left, mod-eq_of_lt}
use agent_gpu.Prelude.{
  ◌-◌, sym, ltb, ltb→lt, Bool-cases, inl, inr, length-append, ℕ, zero, suc, ◌+◌, ◌<◌, ◌%◌, ◌≡◌,
  refl, ap, ◌∙◌, List, [], ◌∷◌, ◌++◌, arith, length, take,
}
use agent_gpu.LogRing.{set_at, get_at, collect}

pub set_at-append :
    {R : Type 0} → (x y : R) (xs ys : List R) → set_at (length xs) x (xs ++ y ∷ ys) ≡ xs ++ x ∷ ys
unfolding set_at
set_at-append x y [] ys = refl
set_at-append x y (w ∷ xs) ys = rw (set_at-append x y xs ys) refl

pub take-append : {R : Type 0} → (xs ys : List R) → take (length xs) (xs ++ ys) ≡ xs
take-append [] ys = refl
take-append (x ∷ xs) ys = rw (take-append xs ys) refl

get_at-left :
    {R : Type 0}
    → (z : R) (i : ℕ) (xs ys : List R) → i < length xs
    → get_at z i (xs ++ ys) ≡ get_at z i xs
unfolding get_at
get_at-left z i [] ys h = ground arith
get_at-left z zero (x ∷ xs) ys h = refl
get_at-left z (suc i) (x ∷ xs) ys h = get_at-left z i xs ys (omega arith)

get_at-right :
    {R : Type 0}
    → (z : R) (i : ℕ) (xs ys : List R) → get_at z (length xs + i) (xs ++ ys) ≡ get_at z i ys
unfolding get_at
get_at-right z i [] ys = let e : 0 + i ≡ i = omega arith in ap (λ n. get_at z n ys) e
get_at-right z i (x ∷ xs) ys =
    let e : suc (length xs) + i ≡ suc (length xs + i) = omega arith in
    ap (λ n. get_at z n (x ∷ xs ++ ys)) e ∙ get_at-right z i xs ys

-- A loop that reads a list at each of its places gives the list.
collect_reads :
    {R : Type 0}
    → (z : R) (f : ℕ → R) (i : ℕ) (ys : List R)
    → ((j : ℕ) → j < length ys → f (i + j) ≡ get_at z j ys)
    → collect f i (length ys) ≡ ys
unfolding collect get_at
collect_reads z f i [] h = refl
collect_reads z f i (y ∷ ys) h =
    let e : i ≡ i + 0 = omega arith in
    let head : f i ≡ y = ap f e ∙ h 0 (omega arith) in
    let rest =
      collect_reads z f (suc i) ys
        (λ j l. let k : suc i + j ≡ i + suc j = omega arith in ap f k ∙ h (suc j) (omega arith)) in
    rw (head, rest) refl

-- Reading from the end of the first list on, around the end of the buffer, gives the second list
-- and then the first.
pub collect_rotation :
    {R : Type 0}
    → (z : R) (new old : List R)
    → collect
        (λ i. get_at z ((length new + i) % (length new + length old)) (new ++ old))
        0
        (length new + length old)
      ≡ old ++ new
collect_rotation z new old =
    let turned : length new + length old ≡ length (old ++ new) =
      omega (arith, length-append old new) in
    ap (collect (λ i. get_at z ((length new + i) % (length new + length old)) (new ++ old)) 0)
      turned
    ∙ collect_reads z _ 0 (old ++ new) (λ j l. elim (Bool-cases (ltb j (length old))) [
      | inl a ↦
          let low : j < length old = ltb→lt j (length old) a in
          let m : (length new + (0 + j)) % (length new + length old) ≡ length new + j =
            let e : length new + (0 + j) ≡ length new + j = omega arith in
            ap (λ n. n % (length new + length old)) e ∙ mod-eq_of_lt (omega arith) in
          ap (λ n. get_at z n (new ++ old)) m
          ∙ get_at-right z j new old
          ∙ sym (get_at-left z j old new low)
      | inr b ↦
          let k = j - length old in
          let split : j ≡ length old + k = ground arith in
          let low : k < length new = omega (arith, length-append old new) in
          let m : (length new + (0 + j)) % (length new + length old) ≡ k =
            let e : length new + (0 + j) ≡ length new + length old + k = omega arith in
            ap (λ n. n % (length new + length old)) e
            ∙ add-mod_left (length new + length old) k
            ∙ mod-eq_of_lt (omega arith) in
          ap (λ n. get_at z n (new ++ old)) m
          ∙ get_at-left z k new old low
          ∙ sym (get_at-right z k old new)
          ∙ sym (ap (λ n. get_at z n (old ++ new)) split)
    ])
