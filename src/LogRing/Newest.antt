-- ===== src/LogRing/Newest.antt =====
-- The ring holds the newest of the records that were ever appended.
use mathlib.Core.List.{append_assoc, append-nil}
use native.Mathlib.Nat.{mod_self, mod-eq_of_lt}
use agent_gpu.Prelude.{
  ℕ, ℤ, zero, suc, ◌+◌, ◌-◌, ◌<◌, ◌%◌, ◌^◌, ◌≡◌, refl, sym, ap, ◌∙◌, subst, ◌⊎◌, inl, inr, true,
  false, if◌then◌else◌, ◌==◌, List, [], ◌∷◌, ◌++◌, arith, Bool-cases, length, length-append, drop,
  pos_part,
}
use agent_gpu.LogRing.{LogRing, blank, new_log_ring, append, snapshot_locked, snapshot_count}
use agent_gpu.LogRing.Reads.{set_at-append, take-append, collect_rotation}

module _ {R : Type 0} where
  -- The ring while it is being filled with the records t.
  record IsFilling (r : LogRing R) (t : List R) : Type 0 where
    y : R
    rest : List R
    buf_is : r.buf ≡ t ++ y ∷ rest
    next_is : r.next ≡ length t
    full_is : r.is_full ≡ false
    capacity_is : r.capacity ≡ length t + suc (length rest)

  -- The ring after it has come round: of the records t those in `dropped` are gone.
  record IsRound (r : LogRing R) (t : List R) : Type 0 where
    dropped : List R
    young : List R
    old : List R
    buf_is : r.buf ≡ young ++ old
    next_is : r.next ≡ length young
    full_is : r.is_full ≡ true
    capacity_is : r.capacity ≡ length young + length old
    old_left : 0 < length old
    all_is : t ≡ dropped ++ (old ++ young)

  Holds : LogRing R → List R → Type 0
  Holds r t = IsFilling r t ⊎ IsRound r t

  -- The ring after a record is appended, in terms of its two lists.
  append_at :
      (x y : R) (xs rest : List R) (r : LogRing R)
      → r.buf ≡ xs ++ y ∷ rest
      → r.next ≡ length xs
      → r.capacity ≡ length xs + suc (length rest)
      → append x r ≡ record {
        buf = xs ++ x ∷ rest;
        next = (length xs + 1) % (length xs + suc (length rest));
        is_full =
            if (length xs + 1) % (length xs + suc (length rest)) == 0 then true else r.is_full;
        capacity = length xs + suc (length rest);
        count = r.count + 1;
      }
  unfolding append
  append_at x y xs rest r b n c =
      let positive : (length xs + suc (length rest) == 0) ≡ false = ground arith in
      rw (c, positive, b, n, set_at-append x y xs rest) refl

  -- The place after the last one is the first.
  wraps : (xs : List R) → (length xs + 1) % (length xs + suc (length {A = R} [])) ≡ 0
  wraps xs = mod_self (length xs + 1)

  moves : (xs : List R) (n : ℕ) → (length xs + 1) % (length xs + suc (suc n)) ≡ length xs + 1
  moves xs n = mod-eq_of_lt (omega arith)

  filling-append :
      (x y : R) (t rest : List R) (r : LogRing R)
      → r.buf ≡ t ++ y ∷ rest
      → r.next ≡ length t
      → r.is_full ≡ false
      → r.capacity ≡ length t + suc (length rest)
      → Holds (append x r) (t ++ x ∷ [])
  unfolding Holds
  filling-append x y t [] r b n f c =
      rw (append_at x y t [] r b n c, wraps t)
        (inr (record {
          dropped = [];
          young = [];
          old = t ++ x ∷ [];
          buf_is = refl;
          next_is = refl;
          full_is = refl;
          capacity_is = omega (arith, length-append t (x ∷ []));
          old_left = omega (arith, length-append t (x ∷ []));
          all_is = sym (append-nil (t ++ x ∷ []));
        }))
  filling-append x y t (w ∷ rest) r b n f c =
      let apart : (length t + 1 == 0) ≡ false = ground arith in
      rw (append_at x y t (w ∷ rest) r b n c, moves t (length rest), apart, f)
        (inl (record {
          y = w;
          rest = rest;
          buf_is = sym (append_assoc t (x ∷ []) (w ∷ rest));
          next_is = omega (arith, length-append t (x ∷ []));
          full_is = refl;
          capacity_is = omega (arith, length-append t (x ∷ []));
        }))

  round-append :
      (x : R) (t dropped young old : List R) (r : LogRing R)
      → r.buf ≡ young ++ old
      → r.next ≡ length young
      → r.is_full ≡ true
      → r.capacity ≡ length young + length old
      → 0 < length old
      → t ≡ dropped ++ (old ++ young)
      → Holds (append x r) (t ++ x ∷ [])
  unfolding Holds
  round-append x t dropped young [] r b n f c h a = absurd (omega arith)
  round-append x t dropped young (y ∷ []) r b n f c h a =
      rw (append_at x y young [] r b n c, wraps young)
        (inr (record {
          dropped = dropped ++ y ∷ [];
          young = [];
          old = young ++ x ∷ [];
          buf_is = refl;
          next_is = refl;
          full_is = refl;
          capacity_is = omega (arith, length-append young (x ∷ []));
          old_left = omega (arith, length-append young (x ∷ []));
          all_is = rw a (simp (append_assoc, append-nil) refl);
        }))
  round-append x t dropped young (y ∷ w ∷ rest) r b n f c h a =
      let apart : (length young + 1 == 0) ≡ false = ground arith in
      rw (append_at x y young (w ∷ rest) r b n c, moves young (length rest), apart, f)
        (inr (record {
          dropped = dropped ++ y ∷ [];
          young = young ++ x ∷ [];
          old = w ∷ rest;
          buf_is = sym (append_assoc young (x ∷ []) (w ∷ rest));
          next_is = omega (arith, length-append young (x ∷ []));
          full_is = refl;
          capacity_is = omega (arith, length-append young (x ∷ []));
          old_left = omega arith;
          all_is = rw a (simp (append_assoc) refl);
        }))

  append-Holds : (x : R) (t : List R) (r : LogRing R) → Holds r t → Holds (append x r) (t ++ x ∷ [])
  unfolding Holds
  append-Holds x t r (inl h) =
      filling-append x h.y t h.rest r h.buf_is h.next_is h.full_is h.capacity_is
  append-Holds x t r (inr h) =
      round-append x t h.dropped h.young h.old r h.buf_is h.next_is h.full_is h.capacity_is
        h.old_left h.all_is

  -- One record after the other.
  unfoldable pub append_all : List R → LogRing R → LogRing R
  append_all [] r = r
  append_all (x ∷ xs) r = append_all xs (append x r)

  append_all-Holds : (xs t : List R) (r : LogRing R) → Holds r t → Holds (append_all xs r) (t ++ xs)
  unfolding append_all
  append_all-Holds [] t r h = subst (Holds r) (sym (append-nil t)) h
  append_all-Holds (x ∷ xs) t r h =
      subst (Holds (append_all xs (append x r))) (append_assoc t (x ∷ []) xs)
        (append_all-Holds xs (t ++ x ∷ []) (append x r) (append-Holds x t r h))

  append-capacity : (x : R) (r : LogRing R) → (append x r).capacity ≡ r.capacity
  unfolding append
  append-capacity x r = ground arith

  append-count : (x : R) (r : LogRing R) → 0 < r.capacity → (append x r).count ≡ r.count + 1
  unfolding append
  append-count x r h = ground arith

  append_all-capacity : (xs : List R) (r : LogRing R) → (append_all xs r).capacity ≡ r.capacity
  unfolding append_all
  append_all-capacity [] r = refl
  append_all-capacity (x ∷ xs) r = append_all-capacity xs (append x r) ∙ append-capacity x r

  append_all-count :
      (xs : List R) (r : LogRing R) → 0 < r.capacity → (append_all xs r).count ≡ r.count + length xs
  unfolding append_all
  append_all-count [] r h = omega arith
  append_all-count (x ∷ xs) r h =
      let e = append-capacity x r in
      omega (arith, append_all-count xs (append x r) (omega arith), append-count x r h)

  drop-append : (xs ys : List R) → drop (length xs) (xs ++ ys) ≡ ys
  drop-append [] ys = refl
  drop-append (x ∷ xs) ys = drop-append xs ys

  Holds-snapshot :
      (z : R) (r : LogRing R) (t : List R)
      → Holds r t
      → snapshot_locked z r ≡ drop (length t - r.capacity) t
  unfolding Holds snapshot_locked
  Holds-snapshot z r t (inl h) =
      let none_gone : length t - r.capacity ≡ 0 = omega (arith, h.capacity_is) in
      rw (h.full_is, h.buf_is, h.next_is, none_gone) (take-append t (h.y ∷ h.rest))
  Holds-snapshot z r t (inr h) =
      let gone : length t - r.capacity ≡ length h.dropped = omega (
        arith,
        h.capacity_is,
        ap length h.all_is,
        length-append h.dropped (h.old ++ h.young),
        length-append h.old h.young,
      ) in
      let newest : drop (length t - r.capacity) t ≡ h.old ++ h.young =
        rw gone
          (ap (drop (length h.dropped)) h.all_is ∙ drop-append h.dropped (h.old ++ h.young)) in
      rw (newest, h.full_is, h.buf_is, h.next_is, h.capacity_is) (collect_rotation z h.young h.old)

  length-blank : (z : R) (n : ℕ) → length (blank z n) ≡ n
  unfolding blank
  length-blank z zero = refl
  length-blank z (suc n) = ap suc (length-blank z n)

  new-Holds : (z : R) (n : ℤ) → 0 < pos_part n → Holds (new_log_ring z n) []
  unfolding Holds new_log_ring blank
  new-Holds z n h = inl (record {
    y = z;
    rest = blank z (pos_part n - 1);
    buf_is = let e : pos_part n ≡ suc (pos_part n - 1) = omega arith in ap (blank z) e;
    next_is = refl;
    full_is = refl;
    capacity_is = omega (arith, length-blank z (pos_part n - 1));
  })

  -- The answer is the newest records that were ever appended, as many as the capacity allows, the
  -- oldest first, and how many were appended. A ring without capacity has none and counts none.
  pub snapshot_count-append_all :
      (z : R) (n : ℤ) (xs : List R)
      → snapshot_count z (append_all xs (new_log_ring z n)) ≡ (
          if pos_part n == 0
          then ([], 0)
          else (drop (length xs - pos_part n) xs, length xs % 2 ^ 64))
  unfolding snapshot_count new_log_ring
  snapshot_count-append_all z n xs =
      let c : (append_all xs (new_log_ring z n)).capacity ≡ pos_part n =
        append_all-capacity xs (new_log_ring z n) in
      elim (Bool-cases (pos_part n == 0)) [
        | inl e ↦ rw (c, e) refl
        | inr e ↦
            let h : 0 < pos_part n = ground arith in
            let k : (append_all xs (new_log_ring z n)).count ≡ length xs =
              omega (arith, append_all-count xs (new_log_ring z n) h) in
            let s =
              Holds-snapshot z (append_all xs (new_log_ring z n)) xs
                (append_all-Holds xs [] (new_log_ring z n) (new-Holds z n h)) in
            rw (s, c, e, k) refl
      ]
