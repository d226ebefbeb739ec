-- ===== src/Session/Trim.antt =====
-- Trimming drops the oldest turns only, and as many as the caps ask for.
use mathlib.Core.List.{append_assoc}
use agent_gpu.Prelude.{
  ℕ, ℤ, ◌+◌, ◌-◌, ◌<◌, ◌≤◌, ◌≡◌, refl, sym, ap, ◌∙◌, ◌⊎◌, inl, inr, pos_part, ltb, ◌&&◌, false,
  Bool-cases, List, [], ◌∷◌, ◌++◌, length, length-append, length-drop, take, take-append-drop,
  arith,
}
use agent_gpu.Types.{Message}
use agent_gpu.Session.{
  HistoryStore, total, turn_bytes, turn_tokens, over, trim_loop, trim_cost, trim_turns, trim,
  exceeds_cap,
}

-- What is left of the turns: the oldest are gone, and the newest one is there.
pub record IsLeft (left turns : List Message) : Type 0 where
  pub gone : List Message
  pub split : turns ≡ gone ++ left
  pub some_left : 0 < length turns → 0 < length left

IsLeft-refl : (turns : List Message) → IsLeft turns turns
IsLeft-refl turns = record { gone = []; split = refl; some_left = λ h. h }

IsLeft-trans : (a b c : List Message) → IsLeft a b → IsLeft b c → IsLeft a c
IsLeft-trans a b c h k = record {
  gone = k.gone ++ h.gone;
  split = k.split ∙ ap (λ x. k.gone ++ x) h.split ∙ sym (append_assoc k.gone h.gone a);
  some_left = λ p. h.some_left (k.some_left p);
}

total-append :
    (cost : Message → ℕ) (xs ys : List Message)
    → total cost (xs ++ ys) ≡ total cost xs + total cost ys
unfolding total
total-append cost [] ys = omega arith
total-append cost (x ∷ xs) ys = omega (arith, total-append cost xs ys)

IsLeft-total : (cost : Message → ℕ) (a b : List Message) → IsLeft a b → total cost a ≤ total cost b
IsLeft-total cost a b h = omega (arith, ap (total cost) h.split, total-append cost h.gone a)

IsLeft-length : (a b : List Message) → IsLeft a b → length a ≤ length b
IsLeft-length a b h = omega (arith, ap length h.split, length-append h.gone a)

trim_loop-IsLeft :
    (cost : Message → ℕ) (cap sum : ℕ) (turns : List Message)
    → IsLeft (trim_loop cost cap sum turns) turns
unfolding trim_loop
trim_loop-IsLeft cost cap sum [] = IsLeft-refl []
trim_loop-IsLeft cost cap sum (t ∷ ts) =
    elim (Bool-cases (ltb cap sum && ltb 1 (length (t ∷ ts)))) [
      | inl e ↦
          let k = trim_loop-IsLeft cost cap (sum - cost t) ts in
          rw e (record {
            gone = t ∷ k.gone;
            split = ap (λ x. t ∷ x) k.split;
            some_left = λ h. k.some_left (ground arith);
          })
      | inr e ↦ rw e (IsLeft-refl (t ∷ ts))
    ]

-- The loop ends within the cap or with one turn.
trim_loop-bound :
    (cost : Message → ℕ) (cap : ℕ) (turns : List Message)
    → (total cost (trim_loop cost cap (total cost turns) turns) ≤ cap)
      ⊎ (length (trim_loop cost cap (total cost turns) turns) ≤ 1)
unfolding trim_loop total
trim_loop-bound cost cap [] = inr (omega arith)
trim_loop-bound cost cap (t ∷ ts) =
    let e : cost t + total cost ts - cost t ≡ total cost ts = omega arith in
    elim (Bool-cases (ltb cap (cost t + total cost ts) && ltb 1 (length (t ∷ ts)))) [
      | inl h ↦ rw (h, e) (trim_loop-bound cost cap ts)
      | inr h ↦ rw h (ground arith)
    ]

trim_loop_keep :
    (cost : Message → ℕ) (cap sum : ℕ) (turns : List Message)
    → sum ≤ cap
    → trim_loop cost cap sum turns ≡ turns
unfolding trim_loop
trim_loop_keep cost cap sum [] h = refl
trim_loop_keep cost cap sum (t ∷ ts) h = let e : ltb cap sum ≡ false = ground arith in rw e refl

trim_cost-IsLeft :
    (cost : Message → ℕ) (cap : ℤ) (turns : List Message) → IsLeft (trim_cost cost cap turns) turns
unfolding trim_cost
trim_cost-IsLeft cost cap turns = elim (Bool-cases (ltb 0 (pos_part cap))) [
  | inl e ↦ rw e (trim_loop-IsLeft cost (pos_part cap) (total cost turns) turns)
  | inr e ↦ rw e (IsLeft-refl turns)
]

trim_cost-bound :
    (cost : Message → ℕ) (cap : ℤ) (turns : List Message)
    → (over cap (total cost (trim_cost cost cap turns)) ≡ false)
      ⊎ (length (trim_cost cost cap turns) ≤ 1)
unfolding trim_cost
trim_cost-bound cost cap turns = elim (Bool-cases (ltb 0 (pos_part cap))) [
  | inl e ↦ rw e (elim (trim_loop-bound cost (pos_part cap) turns) [
    | inl h ↦ inl (ground arith)
    | inr h ↦ inr h
  ])
  | inr e ↦ rw e (inl refl)
]

trim_cost_keep :
    (cost : Message → ℕ) (cap : ℤ) (turns : List Message)
    → over cap (total cost turns) ≡ false
    → trim_cost cost cap turns ≡ turns
unfolding trim_cost
trim_cost_keep cost cap turns h = elim (Bool-cases (ltb 0 (pos_part cap))) [
  | inl e ↦ rw e (trim_loop_keep cost (pos_part cap) (total cost turns) turns (ground arith))
  | inr e ↦ rw e refl
]

trim_turns-IsLeft : (cap : ℤ) (turns : List Message) → IsLeft (trim_turns cap turns) turns
unfolding trim_turns
trim_turns-IsLeft cap turns = elim (Bool-cases (over cap (length turns))) [
  | inl e ↦ rw e (record {
    gone = take (length turns - pos_part cap) turns;
    split = sym (take-append-drop (length turns - pos_part cap) turns);
    some_left = λ h. ground (arith, length-drop (length turns - pos_part cap) turns);
  })
  | inr e ↦ rw e (IsLeft-refl turns)
]

trim_turns-bound :
    (cap : ℤ) (turns : List Message) → over cap (length (trim_turns cap turns)) ≡ false
unfolding trim_turns
trim_turns-bound cap turns = elim (Bool-cases (over cap (length turns))) [
  | inl e ↦ rw e (ground (arith, length-drop (length turns - pos_part cap) turns))
  | inr e ↦ rw e e
]

pub trim-IsLeft : (m : HistoryStore) (turns : List Message) → IsLeft (trim m turns) turns
unfolding trim
trim-IsLeft m turns =
    let first = trim_turns m.max_turns turns in
    let second = trim_cost turn_bytes m.max_bytes first in
    IsLeft-trans (trim_cost turn_tokens m.max_tokens second) second turns
      (trim_cost-IsLeft turn_tokens m.max_tokens second)
      (IsLeft-trans second first turns (trim_cost-IsLeft turn_bytes m.max_bytes first)
        (trim_turns-IsLeft m.max_turns turns))

-- What trimming leaves is within every cap, or it is one turn.
pub trim-bound :
    (m : HistoryStore) (turns : List Message)
    → (exceeds_cap m (trim m turns) ≡ false) ⊎ (length (trim m turns) ≤ 1)
unfolding trim exceeds_cap
trim-bound m turns =
    let first = trim_turns m.max_turns turns in
    let second = trim_cost turn_bytes m.max_bytes first in
    let third = trim_cost turn_tokens m.max_tokens second in
    let within_first = trim_turns-bound m.max_turns turns in
    let left = trim_cost-IsLeft turn_tokens m.max_tokens second in
    let n2 = IsLeft-length second first (trim_cost-IsLeft turn_bytes m.max_bytes first) in
    let n3 = IsLeft-length third second left in
    let b3 = IsLeft-total turn_bytes third second left in
    elim (trim_cost-bound turn_bytes m.max_bytes first) [
      | inr one ↦ inr (omega arith)
      | inl bytes_in ↦ elim (trim_cost-bound turn_tokens m.max_tokens second) [
        | inr one ↦ inr one
        | inl tokens_in ↦ inl (ground arith)
      ]
    ]

pub trim_keep :
    (m : HistoryStore) (turns : List Message) → exceeds_cap m turns ≡ false → trim m turns ≡ turns
unfolding trim exceeds_cap trim_turns
trim_keep m turns h =
    let a : over m.max_turns (length turns) ≡ false = ground arith in
    let b : over m.max_bytes (total turn_bytes turns) ≡ false = ground arith in
    let c : over m.max_tokens (total turn_tokens turns) ≡ false = ground arith in
    rw (a, trim_cost_keep turn_bytes m.max_bytes turns b)
      (trim_cost_keep turn_tokens m.max_tokens turns c)
