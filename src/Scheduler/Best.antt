-- ===== src/Scheduler/Best.antt =====
-- What `PickPreferring` picks.
use agent_gpu.Prelude.{
  ℤ, pos, ◌+ℤ◌, String, str_eq, str_lt, ltz, Bool, true, false, not, ◌&&◌, ◌||◌, ◌≡◌, refl, sym,
  subst, ap, if◌then◌else◌, none, some, List, [], ◌∷◌, Mem, ◌⊎◌, inl, inr, sort_strings,
  sort_strings-IsSorted, sort_strings-All, All-sort_strings, IsSorted, All, All-imp, All-both, ◌∙◌,
  All-self, Bool-cases,
}
use agent_gpu.Types.{Worker}
use agent_gpu.Scheduler.{
  weight_bound_worker_bonus, score, runnable, index, worker_at, score_for, best_of, first_best,
  pick_preferring,
}
use agent_gpu.Scheduler.Order.{outranks, best_of-All, best_of-holds}
use agent_gpu.Scheduler.Index.{IsFleet, index-worker_at, index-All, All-index}

-- The score of a worker and, for the worker that the session is bound to, the bonus.
unfoldable pub appeal : String → String → Worker → ℤ
appeal model preferred w =
    if not (str_eq preferred "") && str_eq w.id preferred
    then score w model +ℤ pos weight_bound_worker_bonus
    else score w model

-- The worker x has more appeal than w, or as much and a smaller id.
unfoldable pub beats : String → String → Worker → Worker → Bool
beats model preferred x w =
    ltz (appeal model preferred w) (appeal model preferred x)
    || not (ltz (appeal model preferred x) (appeal model preferred w)) && str_lt x.id w.id

-- The id is that of a runnable worker of the fleet that no runnable one beats.
pub record IsBest (workers : List Worker) (model preferred : String) (w : Worker) : Type 0 where
  pub member : Mem w workers
  pub can_run : runnable w model ≡ true
  pub unbeaten : All (λ x. runnable x model ≡ true → beats model preferred x w ≡ false) workers

score_for-appeal :
    (m : List (String × Worker)) (model preferred : String) (w : Worker)
    → worker_at m w.id ≡ w
    → score_for m model preferred w.id ≡ appeal model preferred w
unfolding score_for appeal
score_for-appeal m model preferred w e = rw (ap (λ x. score x model) e) refl

abbrev Known : List Worker → String → List (String × Worker) → String → Type 0
Known workers model m id =
    (w : Worker) × (w.id ≡ id) × Mem w workers × (runnable w model ≡ true) × (worker_at m id ≡ w)

first_best-cases :
    (f : String → ℤ) (P : String → Type 0) (ids : List String)
    → IsSorted ids
    → All P ids
    → ((ids ≡ []) × (first_best f ids ≡ none))
      ⊎ ((id : String) × (first_best f ids ≡ some id)
          × P id
          × All (λ y. outranks f y id ≡ false) ids)
unfolding first_best
first_best-cases f P [] s h = inl (refl, refl)
first_best-cases f P (id ∷ ids) s h =
    inr (best_of f id (f id) ids, refl, best_of-holds P f id ids h, best_of-All f id ids s.0 s.1)

index-Known :
    (workers : List Worker) (model : String)
    → IsFleet workers
    → All (Known workers model (index model workers [] []).0) (index model workers [] []).1
index-Known workers model fleet =
    index-All (Known workers model (index model workers [] []).0) model workers [] [] tt (
      All-imp
        (λ w.
          (runnable w model ≡ true → worker_at (index model workers [] []).0 w.id ≡ w)
          × Mem w workers)
        (λ w. runnable w model ≡ true → Known workers model (index model workers [] []).0 w.id)
        workers (λ w h e. (w, refl, h.1, e, h.0 e))
        (All-both _ (λ w. Mem w workers) workers (index-worker_at model workers fleet)
          (All-self (λ w. Mem w workers) workers (λ w m. m))))

-- No id, no runnable worker.
index-empty :
    (workers : List Worker) (model : String)
    → sort_strings (index model workers [] []).1 ≡ []
    → All (λ w. runnable w model ≡ false) workers
index-empty workers model e =
    let none_of =
      sort_strings-All (λ id. ⊥) (index model workers [] []).1 (subst (All (λ id. ⊥)) (sym e) tt) in
    All-imp (λ w. runnable w model ≡ true → ⊥) (λ w. runnable w model ≡ false) workers
      (λ w h. elim (Bool-cases (runnable w model)) [ inl t ↦ absurd (h t) | inr f ↦ f ])
      (All-index (λ id. ⊥) model workers [] [] none_of).1

outranks-beats :
    (m : List (String × Worker)) (model preferred : String) (x w : Worker)
    → worker_at m x.id ≡ x
    → worker_at m w.id ≡ w
    → outranks (score_for m model preferred) x.id w.id ≡ beats model preferred x w
unfolding beats
outranks-beats m model preferred x w e h =
    rw (score_for-appeal m model preferred x e, score_for-appeal m model preferred w h) refl

index-unbeaten :
    (workers : List Worker) (model preferred : String) (w : Worker)
    → IsFleet workers
    → worker_at (index model workers [] []).0 w.id ≡ w
    → All
        (λ y. outranks (score_for (index model workers [] []).0 model preferred) y w.id ≡ false)
        (index model workers [] []).1
    → All (λ x. runnable x model ≡ true → beats model preferred x w ≡ false) workers
index-unbeaten workers model preferred w fleet h best =
    let m = (index model workers [] []).0 in
    All-imp _ (λ x. runnable x model ≡ true → beats model preferred x w ≡ false) workers
      (λ x k e. sym (outranks-beats m model preferred x w (k.0 e) h) ∙ k.1 e)
      (All-both _
        (λ x. runnable x model ≡ true → outranks (score_for m model preferred) x.id w.id ≡ false)
        workers (index-worker_at model workers fleet)
        (All-index (λ y. outranks (score_for m model preferred) y w.id ≡ false) model workers [] []
          best).1)

-- In a fleet that lists each worker once, the pick is none exactly if no worker can run the model.
-- Otherwise it is one that can, and no other that can has more appeal, or as much and a smaller id.
pub pick_preferring-IsBest :
    (workers : List Worker) (model preferred : String)
    → IsFleet workers
    → ((pick_preferring workers model preferred ≡ none)
        × All (λ w. runnable w model ≡ false) workers)
      ⊎ ((w : Worker) × (pick_preferring workers model preferred ≡ some w.id)
          × IsBest workers model preferred w)
unfolding pick_preferring
pick_preferring-IsBest workers model preferred fleet =
    let m = (index model workers [] []).0 in
    let ids = (index model workers [] []).1 in
    let f = score_for m model preferred in
    elim (first_best-cases f (Known workers model m) (sort_strings ids) (sort_strings-IsSorted ids)
      (All-sort_strings _ ids (index-Known workers model fleet))) [
        | inl (e, n) ↦ inl (n, index-empty workers model e)
        | inr (id, e, (w, same, mem, run, at), best) ↦ inr (
          w,
          e ∙ ap some (sym same),
          record {
            member = mem;
            can_run = run;
            unbeaten = index-unbeaten workers model preferred w fleet (ap (worker_at m) same ∙ at) (
                subst (λ r. All (λ y. outranks f y r ≡ false) ids) (sym same)
                  (sort_strings-All _ ids best));
          },
        )
      ]
