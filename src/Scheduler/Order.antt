-- ===== src/Scheduler/Order.antt =====
-- The order in which the scheduler ranks: by the score, and then by the smaller id.
use agent_gpu.Prelude.{
  ℤ, ltz, String, str_lt, str_lt_total, str_lt_irrefl, not-lt_trans, Bool, true, false, not, ◌&&◌,
  ◌||◌, ◌≡◌, arith, List, [], ◌∷◌, All, refl, sym, subst, IsSorted, Bool-cases, inl, inr,
}
use agent_gpu.Scheduler.{best_of}

-- The id y is to be taken rather than x.
abbrev pub outranks : (String → ℤ) → String → String → Bool
outranks f y x = ltz (f x) (f y) || not (ltz (f y) (f x)) && str_lt y x

outranks_irrefl : (f : String → ℤ) (x : String) → outranks f x x ≡ false
outranks_irrefl f x = ground (arith, str_lt_irrefl x)

-- Two ids that neither outranks the other are the same.
pub outranks_total :
    (f : String → ℤ) (x y : String) → outranks f x y ≡ false → outranks f y x ≡ false → x ≡ y
outranks_total f x y h k = str_lt_total x y (ground arith) (ground arith)

-- What a step of the loop needs: the id that stays, or that takes over, is not outranked by the
-- other, so that what it does not outrank the other one does not either.
stays :
    (f : String → ℤ) (b y r : String)
    → ltz (f b) (f y) ≡ false
    → str_lt y b ≡ false
    → outranks f b r ≡ false
    → outranks f y r ≡ false
stays f b y r h k m = elim (Bool-cases (str_lt b r)) [
  | inl e ↦ ground arith
  | inr e ↦ ground (arith, not-lt_trans b y r e k)
]

gives_way :
    (f : String → ℤ) (b y r : String)
    → ltz (f b) (f y) ≡ true
    → outranks f y r ≡ false
    → outranks f b r ≡ false
gives_way f b y r h m = ground arith

-- No id of the sorted list outranks the one that the loop ends with.
pub best_of-All :
    (f : String → ℤ) (b : String) (ids : List String)
    → All (λ y. str_lt y b ≡ false) ids
    → IsSorted ids
    → All (λ y. outranks f y (best_of f b (f b) ids) ≡ false) (b ∷ ids)
unfolding best_of
best_of-All f b [] h s = (outranks_irrefl f b, tt)
best_of-All f b (y ∷ ids) h s = elim (Bool-cases (ltz (f b) (f y))) [
  | inl e ↦
      let k = best_of-All f y ids s.0 s.1 in
      let step : best_of f b (f b) (y ∷ ids) ≡ best_of f y (f y) ids = rw e refl in
      subst (λ r. All (λ z. outranks f z r ≡ false) (b ∷ y ∷ ids)) (sym step)
        (gives_way f b y _ e k.0, k)
  | inr e ↦
      let k = best_of-All f b ids h.1 s.1 in
      let step : best_of f b (f b) (y ∷ ids) ≡ best_of f b (f b) ids = rw e refl in
      subst (λ r. All (λ z. outranks f z r ≡ false) (b ∷ y ∷ ids)) (sym step)
        (k.0, (stays f b y _ e h.0 k.0, k.1))
]

-- It is one of the ids.
pub best_of-holds :
    (P : String → Type 0) (f : String → ℤ) (b : String) (ids : List String)
    → All P (b ∷ ids)
    → P (best_of f b (f b) ids)
unfolding best_of
best_of-holds P f b [] h = h.0
best_of-holds P f b (y ∷ ids) h = elim (Bool-cases (ltz (f b) (f y))) [
  | inl e ↦ rw e (best_of-holds P f y ids h.1)
  | inr e ↦ rw e (best_of-holds P f b ids (h.0, h.1.1))
]
