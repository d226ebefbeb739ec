-- ===== src/Usage/Series.antt =====
-- The history of a key is what a plain account of all its samples gives for the last days.
use agent_gpu.Prelude.{
  append_assoc, append_nil, ℕ, zero, suc, ◌-◌, ◌<◌, ◌≡◌, refl, sym, ap, ◌∙◌, subst, arith, ltb,
  ◌==◌, String, str_eq, eq_iff, Bool, false, or_default, List, [], ◌∷◌, ◌++◌, drop, length, last_of,
  last_of-append, lookup, lookup-insert_same, lookup-insert_other, ◌⊎◌, if◌then◌else◌, Bool-cases,
  inl, inr,
}
use agent_gpu.Store.{Time}
use agent_gpu.Quota.{Snapshot}
use agent_gpu.Usage.{
  max_days, DailySample, UsageStore, day_start, ends_on, set_last, trim_days, note, sample_of,
  record_snapshot, record_snapshots, record_usage, series_for_key,
}

-- Of each run of samples of one day the last one.
unfoldable pub latest_per_day : List DailySample → List DailySample
latest_per_day [] = []
latest_per_day (x ∷ []) = x ∷ []
latest_per_day (x ∷ y ∷ xs) =
    let rest = latest_per_day (y ∷ xs) in if x.day_at == y.day_at then rest else x ∷ rest

-- `note` without the bound.
push : DailySample → List DailySample → List DailySample
push s xs = if ends_on s.day_at xs then set_last s xs else xs ++ s ∷ []

trim_days-last_of : (xs : List DailySample) → trim_days xs ≡ last_of max_days xs
unfolding trim_days
trim_days-last_of xs = elim (Bool-cases (ltb max_days (length xs))) [
  | inl e ↦ rw e refl
  | inr e ↦
      let z : length xs - max_days ≡ 0 = ground (arith, e) in rw e (ap (λ k. drop k xs) (sym z))
]

ends_on-drop :
    (d : Time) (k : ℕ) (xs : List DailySample)
    → k < length xs
    → ends_on d (drop k xs) ≡ ends_on d xs
unfolding ends_on
ends_on-drop d zero xs h = refl
ends_on-drop d (suc k) [] h = absurd (omega arith)
ends_on-drop d (suc k) (x ∷ []) h = absurd (omega arith)
ends_on-drop d (suc k) (x ∷ y ∷ xs) h = ends_on-drop d k (y ∷ xs) (omega arith)

length-set_last : (s : DailySample) (xs : List DailySample) → length (set_last s xs) ≡ length xs
unfolding set_last
length-set_last s [] = refl
length-set_last s (x ∷ []) = refl
length-set_last s (x ∷ y ∷ xs) = ap suc (length-set_last s (y ∷ xs))

set_last-drop :
    (s : DailySample) (k : ℕ) (xs : List DailySample)
    → k < length xs
    → set_last s (drop k xs) ≡ drop k (set_last s xs)
unfolding set_last
set_last-drop s zero xs h = refl
set_last-drop s (suc k) [] h = absurd (omega arith)
set_last-drop s (suc k) (x ∷ []) h = absurd (omega arith)
set_last-drop s (suc k) (x ∷ y ∷ xs) h = set_last-drop s k (y ∷ xs) (omega arith)

nil_or_longer : (xs : List DailySample) → (xs ≡ []) ⊎ (0 < length xs)
nil_or_longer [] = inl refl
nil_or_longer (x ∷ xs) = inr (omega arith)

-- The bound and the account go together.
note-last_of :
    (s : DailySample) (xs : List DailySample)
    → note s (last_of max_days xs) ≡ last_of max_days (push s xs)
unfolding note push
note-last_of s xs = elim (nil_or_longer xs) [
  | inl e ↦ rw e (unfold ends_on in unfold trim_days in refl)
  | inr e ↦
      let k = length xs - max_days in
      let kept : ends_on s.day_at (drop k xs) ≡ ends_on s.day_at xs =
        ends_on-drop s.day_at k xs (omega (arith, e)) in
      elim (Bool-cases (ends_on s.day_at xs)) [
        | inl f ↦
            rw (kept, f)
              (set_last-drop s k xs (omega (arith, e))
                ∙ ap (λ n. drop (n - max_days) (set_last s xs)) (sym (length-set_last s xs)))
        | inr f ↦
            rw (kept, f)
              (trim_days-last_of (last_of max_days xs ++ s ∷ [])
                ∙ last_of-append max_days xs (s ∷ []))
      ]
]

push-cons :
    (s x z : DailySample) (zs : List DailySample) → push s (x ∷ z ∷ zs) ≡ x ∷ push s (z ∷ zs)
unfolding push
push-cons s x z zs = elim (Bool-cases (ends_on s.day_at (z ∷ zs))) [
  | inl e ↦ unfold ends_on in unfold set_last in rw e refl
  | inr e ↦ unfold ends_on in rw e refl
]

latest-cons :
    (x : DailySample) (xs : List DailySample)
    → (z : DailySample) × (zs : List DailySample) × (latest_per_day (x ∷ xs) ≡ z ∷ zs)
unfolding latest_per_day
latest-cons x [] = (x, [], refl)
latest-cons x (y ∷ xs) = elim (Bool-cases (x.day_at == y.day_at)) [
  | inl e ↦ rw (e, latest_per_day) (latest-cons y xs)
  | inr e ↦ (x, latest_per_day (y ∷ xs), rw (e, latest_per_day) refl)
]

-- One sample more.
push-latest :
    (s : DailySample) (xs : List DailySample)
    → push s (latest_per_day xs) ≡ latest_per_day (xs ++ s ∷ [])
unfolding latest_per_day
push-latest s [] = unfold push in unfold ends_on in refl
push-latest s (x ∷ []) = elim (Bool-cases (x.day_at == s.day_at)) [
  | inl e ↦ unfold push in unfold ends_on in unfold set_last in rw e refl
  | inr e ↦ unfold push in unfold ends_on in rw e refl
]
push-latest s (x ∷ y ∷ xs) = elim (Bool-cases (x.day_at == y.day_at)) [
  | inl e ↦ rw (e, latest_per_day) (push-latest s (y ∷ xs))
  | inr e ↦
      let (z, zs, same) = latest-cons y xs in
      rw (e, latest_per_day)
        (ap (λ r. push s (x ∷ r)) same
          ∙ push-cons s x z zs
          ∙ ap (λ r. x ∷ push s r) (sym same)
          ∙ ap (λ r. x ∷ r) (push-latest s (y ∷ xs)))
]

note-latest :
    (s : DailySample) (xs : List DailySample)
    → note s (last_of max_days (latest_per_day xs))
      ≡ last_of max_days (latest_per_day (xs ++ s ∷ []))
note-latest s xs = note-last_of s (latest_per_day xs) ∙ ap (last_of max_days) (push-latest s xs)

-- The samples of a key in one round, and in the rounds.
unfoldable pub round_samples : String → Time → List Snapshot → List DailySample
round_samples key today [] = []
round_samples key today (snap ∷ snaps) =
    let rest = round_samples key today snaps in
    if str_eq snap.key_id key then sample_of today snap ∷ rest else rest

unfoldable pub samples_of : String → List (List Snapshot × Time) → List DailySample
samples_of key [] = []
samples_of key ((snaps, now) ∷ rounds) =
    round_samples key (day_start now) snaps ++ samples_of key rounds

unfoldable pub record_rounds : List (List Snapshot × Time) → UsageStore → UsageStore
record_rounds [] m = m
record_rounds ((snaps, now) ∷ rounds) m = record_rounds rounds (record_usage snaps now m)

-- The store has the account of these samples for the key.
abbrev Accounts : String → List DailySample → UsageStore → Type 0
Accounts key xs m = or_default [] (lookup key m) ≡ last_of max_days (latest_per_day xs)

snapshot-Accounts :
    (key : String) (xs : List DailySample) (today : Time) (snap : Snapshot) (m : UsageStore)
    → str_eq key "" ≡ false
    → Accounts key xs m
    → Accounts key
        (if str_eq snap.key_id key then xs ++ sample_of today snap ∷ [] else xs)
        (record_snapshot today snap m)
unfolding record_snapshot
snapshot-Accounts key xs today snap m named h = elim (Bool-cases (str_eq snap.key_id key)) [
  | inl e ↦
      let k : snap.key_id ≡ key = (eq_iff snap.key_id key).0 e in
      let filled : str_eq snap.key_id "" ≡ false = subst (λ i. str_eq i "" ≡ false) (sym k) named in
      rw (e, filled)
        (ap (or_default []) (lookup-insert_same snap.key_id key _ m e)
          ∙ ap (note (sample_of today snap)) (ap (λ i. or_default [] (lookup i m)) k ∙ h)
          ∙ note-latest (sample_of today snap) xs)
  | inr e ↦ elim (Bool-cases (str_eq snap.key_id "")) [
    | inl f ↦ rw (e, f) h
    | inr f ↦ rw (e, f) (ap (or_default []) (lookup-insert_other snap.key_id key _ m e) ∙ h)
  ]
]

snapshots-Accounts :
    (key : String) (xs : List DailySample) (today : Time) (snaps : List Snapshot) (m : UsageStore)
    → str_eq key "" ≡ false
    → Accounts key xs m
    → Accounts key (xs ++ round_samples key today snaps) (record_snapshots today snaps m)
unfolding record_snapshots round_samples
snapshots-Accounts key xs today [] m named h =
    h ∙ ap (λ r. last_of max_days (latest_per_day r)) (sym (append_nil xs))
snapshots-Accounts key xs today (snap ∷ snaps) m named h =
    let next = snapshot-Accounts key xs today snap m named h in
    let m' = record_snapshot today snap m in
    elim (Bool-cases (str_eq snap.key_id key)) [
      | inl e ↦ rw e (
          snapshots-Accounts key (xs ++ sample_of today snap ∷ []) today snaps m' named (
            subst
              (λ (b : Bool). Accounts key (if b then xs ++ sample_of today snap ∷ [] else xs) m') e
              next)
          ∙ ap (λ r. last_of max_days (latest_per_day r))
              (append_assoc xs (sample_of today snap ∷ []) (round_samples key today snaps)))
      | inr e ↦ rw e (
          snapshots-Accounts key xs today snaps m' named (
            subst
              (λ (b : Bool). Accounts key (if b then xs ++ sample_of today snap ∷ [] else xs) m') e
              next))
    ]

rounds-Accounts :
    (key : String) (xs : List DailySample) (rounds : List (List Snapshot × Time)) (m : UsageStore)
    → str_eq key "" ≡ false
    → Accounts key xs m
    → Accounts key (xs ++ samples_of key rounds) (record_rounds rounds m)
unfolding samples_of record_rounds record_usage
rounds-Accounts key xs [] m named h =
    h ∙ ap (λ r. last_of max_days (latest_per_day r)) (sym (append_nil xs))
rounds-Accounts key xs ((snaps, now) ∷ rounds) m named h =
    rounds-Accounts key (xs ++ round_samples key (day_start now) snaps) rounds
      (record_usage snaps now m) named (snapshots-Accounts key xs (day_start now) snaps m named h)
    ∙ ap (λ r. last_of max_days (latest_per_day r))
        (append_assoc xs (round_samples key (day_start now) snaps) (samples_of key rounds))

-- The history of a key after any rounds of snapshots is, of all the samples of the key in their order,
-- the last one of each run of samples of one day, and of these the last seven: the trimming on the
-- way loses none of them. The key must not be empty.
pub record_rounds-series :
    (key : String) (rounds : List (List Snapshot × Time))
    → str_eq key "" ≡ false
    → series_for_key key (record_rounds rounds [])
      ≡ last_of max_days (latest_per_day (samples_of key rounds))
unfolding series_for_key
record_rounds-series key rounds named =
    rounds-Accounts key [] rounds [] named (unfold lookup in unfold latest_per_day in refl)
