-- ===== src/Scheduler/Affinity.antt =====
-- What the weights are for: a loaded model comes before the affinity of a session, and the affinity
-- before all that is left.
use agent_gpu.Prelude.{
  All, ℕ, pos, All-mem, some, ap, ◌∙◌, pos_part, neg_part, difference, ◌+ℤ◌, ◌-ℤ◌, ◌+◌, ◌*◌, ◌≤◌,
  ◌<◌, String, str_eq, true, false, ◌≡◌, ◌≢◌, arith, if◌then◌else◌, not, ◌&&◌, List, Mem, inl, inr,
  parts-+ℤ, eq_iff, Bool-cases,
}
use native.Mathlib.Bridge.{le_prop}
use agent_gpu.Scheduler.Index.{IsFleet}
use agent_gpu.Types.{Worker}
use agent_gpu.Scheduler.{score, pick_preferring, has_model, free_gib, runnable}
use agent_gpu.Scheduler.Best.{appeal, beats, IsBest, pick_preferring-IsBest}

-- The ranges that the weights are made for: a load in percent, below a million jobs, and less than
-- n GiB of free memory.
pub record InRange (n : ℕ) (w : Worker) : Type 0 where
  pub load_percent : w.load ≤ 100
  pub few_jobs : w.active_jobs < 1000000
  pub memory : free_gib w < n

InRange-prop : (n : ℕ) (w : Worker) → IsProp (InRange n w)
InRange-prop n w = hlevel (le_prop)

in_range :
    {n : ℕ} {workers : List Worker} {w : Worker}
    → All (InRange n) workers
    → Mem w workers
    → InRange n w
in_range {n} {workers} {w} range mem = All-mem (InRange n) workers w (InRange-prop n) range mem

-- The score as a difference of sums.
score_parts :
    (w : Worker) (model : String)
    → pos_part (score w model) + (w.load * 50 + w.active_jobs)
      ≡ neg_part (score w model)
        + ((if has_model w model then 1000000000 else 0) + free_gib w * 10000)
unfolding score ◌+ℤ◌ ◌-ℤ◌ difference
score_parts w model = ground arith

unbeaten-le :
    (model preferred : String) (x w : Worker)
    → beats model preferred x w ≡ false
    → pos_part (appeal model preferred x) + neg_part (appeal model preferred w)
      ≤ pos_part (appeal model preferred w) + neg_part (appeal model preferred x)
unfolding beats
unbeaten-le model preferred x w h = ground arith

-- The appeal of a worker as a difference of sums.
appeal_parts :
    (model preferred : String) (w : Worker)
    → pos_part (appeal model preferred w) + (w.load * 50 + w.active_jobs)
      ≡ neg_part (appeal model preferred w)
        + ((if has_model w model then 1000000000 else 0)
            + free_gib w * 10000
            + (if not (str_eq preferred "") && str_eq w.id preferred then 100000000 else 0))
unfolding appeal
appeal_parts model preferred w =
    ground (arith, score_parts w model, parts-+ℤ (score w model) (pos 100000000))

loaded-beats :
    (model preferred : String) (y w : Worker)
    → InRange 80000 w
    → InRange 80000 y
    → has_model y model ≡ true
    → beats model preferred y w ≡ false
    → has_model w model ≡ true
loaded-beats model preferred y w r s h b = elim (Bool-cases (has_model w model)) [
  | inl t ↦ t
  | inr f ↦ ground (
    arith,
    unbeaten-le model preferred y w b,
    appeal_parts model preferred y,
    appeal_parts model preferred w,
    r.load_percent,
    r.few_jobs,
    r.memory,
    s.load_percent,
    s.few_jobs,
    s.memory,
  )
]

bound-beats :
    (model preferred : String) (y w : Worker)
    → InRange 9000 w
    → InRange 9000 y
    → preferred ≢ ""
    → y.id ≡ preferred
    → (has_model w model ≡ true → has_model y model ≡ true)
    → beats model preferred y w ≡ false
    → w.id ≡ preferred
bound-beats model preferred y w r s e same h b = elim (Bool-cases (str_eq w.id preferred)) [
  | inl t ↦ ground (arith, eq_iff w.id preferred)
  | inr f ↦ ground (
    arith,
    eq_iff y.id preferred,
    eq_iff preferred "",
    unbeaten-le model preferred y w b,
    appeal_parts model preferred y,
    appeal_parts model preferred w,
    r.load_percent,
    r.few_jobs,
    r.memory,
    s.load_percent,
    s.few_jobs,
    s.memory,
  )
]

pub unbeaten-by :
    {workers : List Worker} {model preferred : String} {w : Worker} (y : Worker)
    → IsBest workers model preferred w
    → Mem y workers
    → runnable y model ≡ true
    → beats model preferred y w ≡ false
unbeaten-by {workers} {model} {preferred} {w} y best mem run =
    All-mem (λ x. runnable x model ≡ true → beats model preferred x w ≡ false) workers y
      (λ x. hlevel) best.unbeaten mem run

-- A pick is the best worker if one can run the model.
pub picks :
    (workers : List Worker) (model preferred : String) (y : Worker)
    → IsFleet workers
    → Mem y workers
    → runnable y model ≡ true
    → (w : Worker) × (pick_preferring workers model preferred ≡ some w.id)
      × IsBest workers model preferred w
picks workers model preferred y fleet mem run =
    elim (pick_preferring-IsBest workers model preferred fleet) [
      | inl (e, all) ↦ cc (All-mem (λ x. runnable x model ≡ false) workers y (λ x. hlevel) all mem)
      | inr best ↦ best
    ]

-- As long as the fleet, which lists each worker once, keeps to the ranges and a worker that can run
-- the model has it loaded, the pick has it loaded, whichever worker the session prefers.
pub pick_preferring-loaded :
    (workers : List Worker) (model preferred : String) (y : Worker)
    → IsFleet workers
    → All (InRange 80000) workers
    → Mem y workers
    → runnable y model ≡ true
    → has_model y model ≡ true
    → (w : Worker) × (pick_preferring workers model preferred ≡ some w.id)
      × Mem w workers
      × (has_model w model ≡ true)
pick_preferring-loaded workers model preferred y fleet range mem run has =
    let (w, e, best) = picks workers model preferred y fleet mem run in
    (
      w,
      e,
      best.member,
      loaded-beats model preferred y w (in_range range best.member) (in_range range mem) has
          (unbeaten-by y best mem run),
    )

-- As long as the fleet, which lists each worker once, keeps to the ranges, the worker that the
-- session prefers is picked if it can run the model, unless another worker has the model loaded and
-- it has not.
pub pick_preferring-bound :
    (workers : List Worker) (model preferred : String) (y : Worker)
    → IsFleet workers
    → All (InRange 9000) workers
    → preferred ≢ ""
    → y.id ≡ preferred
    → Mem y workers
    → runnable y model ≡ true
    → All (λ x. has_model x model ≡ true → has_model y model ≡ true) workers
    → pick_preferring workers model preferred ≡ some preferred
pick_preferring-bound workers model preferred y fleet range e same mem run only =
    let (w, p, best) = picks workers model preferred y fleet mem run in
    p
    ∙ ap some (
        bound-beats model preferred y w (in_range range best.member) (in_range range mem) e same
          (All-mem (λ x. has_model x model ≡ true → has_model y model ≡ true) workers w
            (λ x. hlevel) only best.member)
          (unbeaten-by y best mem run))
