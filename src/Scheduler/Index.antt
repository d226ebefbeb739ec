-- ===== src/Scheduler/Index.antt =====
-- The first loop of `PickPreferring`: the map and the ids are those of the runnable workers.
use agent_gpu.Prelude.{
  String, eq_iff, true, false, ◌≡◌, ◌≢◌, refl, sym, arith, some, List, [], ◌∷◌, ◌++◌, lookup,
  insert, lookup-insert, All, All-append, All-imp, All-split, subst, Bool-cases, inl, inr,
}
use agent_gpu.Types.{Worker}
use agent_gpu.Scheduler.{runnable, index, worker_at}

-- A fleet lists each worker once.
abbrev pub IsFleet : List Worker → Type 0
IsFleet [] = Unit {0}
IsFleet (w ∷ ws) = All (λ x. x.id ≢ w.id) ws × IsFleet ws

index-keeps :
    (model key : String) (ws : List Worker) (m : List (String × Worker)) (ids : List String)
    → All (λ x. x.id ≢ key) ws
    → lookup key (index model ws m ids).0 ≡ lookup key m
unfolding index
index-keeps model key [] m ids h = refl
index-keeps model key (x ∷ ws) m ids h = ground (
  arith,
  index-keeps model key ws m ids h.1,
  index-keeps model key ws (insert x.id x m) (ids ++ x.id ∷ []) h.1,
  lookup-insert x.id key x m,
  eq_iff x.id key,
  h.0,
)

index_taken :
    (model : String) (w : Worker) (ws : List Worker) (m : List (String × Worker))
    (ids : List String)
    → runnable w model ≡ true
    → index model (w ∷ ws) m ids ≡ index model ws (insert w.id w m) (ids ++ w.id ∷ [])
unfolding index
index_taken model w ws m ids e = rw e refl

index_skipped :
    (model : String) (w : Worker) (ws : List Worker) (m : List (String × Worker))
    (ids : List String)
    → runnable w model ≡ false
    → index model (w ∷ ws) m ids ≡ index model ws m ids
unfolding index
index_skipped model w ws m ids e = rw e refl

-- Every runnable worker of the fleet is found by its id.
index-lookup :
    (model : String) (ws : List Worker) (m : List (String × Worker)) (ids : List String)
    → IsFleet ws
    → All (λ w. runnable w model ≡ true → lookup w.id (index model ws m ids).0 ≡ some w) ws
index-lookup model [] m ids h = tt
index-lookup model (w ∷ ws) m ids h = elim (Bool-cases (runnable w model)) [
  | inl e ↦
      let m2 = insert w.id w m in
      let found : lookup w.id (index model ws m2 (ids ++ w.id ∷ [])).0 ≡ some w =
        rw (index-keeps model w.id ws m2 (ids ++ w.id ∷ []) h.0)
          (ground (arith, lookup-insert w.id w.id w m, eq_iff w.id w.id)) in
      subst (λ r. All (λ x. runnable x model ≡ true → lookup x.id r.0 ≡ some x) (w ∷ ws))
        (sym (index_taken model w ws m ids e))
        ((λ _. found), index-lookup model ws m2 (ids ++ w.id ∷ []) h.1)
  | inr e ↦
      subst (λ r. All (λ x. runnable x model ≡ true → lookup x.id r.0 ≡ some x) (w ∷ ws))
        (sym (index_skipped model w ws m ids e)) ((λ t. cc), index-lookup model ws m ids h.1)
]

pub index-worker_at :
    (model : String) (ws : List Worker)
    → IsFleet ws
    → All (λ w. runnable w model ≡ true → worker_at (index model ws [] []).0 w.id ≡ w) ws
unfolding worker_at
index-worker_at model ws h =
    All-imp (λ w. runnable w model ≡ true → lookup w.id (index model ws [] []).0 ≡ some w)
      (λ w. runnable w model ≡ true → worker_at (index model ws [] []).0 w.id ≡ w) ws
      (λ w found e. rw (found e, worker_at) refl) (index-lookup model ws [] [] h)

-- What holds of the ids of the runnable workers holds of all ids, and the other way round.
pub index-All :
    (P : String → Type 0) (model : String) (ws : List Worker) (m : List (String × Worker))
    (ids : List String)
    → All P ids
    → All (λ w. runnable w model ≡ true → P w.id) ws
    → All P (index model ws m ids).1
unfolding index
index-All P model [] m ids h k = h
index-All P model (w ∷ ws) m ids h k = elim (Bool-cases (runnable w model)) [
  | inl e ↦ rw e (index-All P model ws _ _ (All-append P ids (w.id ∷ []) h (k.0 e, tt)) k.1)
  | inr e ↦ rw e (index-All P model ws m ids h k.1)
]

pub All-index :
    (P : String → Type 0) (model : String) (ws : List Worker) (m : List (String × Worker))
    (ids : List String)
    → All P (index model ws m ids).1
    → All P ids × All (λ w. runnable w model ≡ true → P w.id) ws
unfolding index
All-index P model [] m ids h = (h, tt)
All-index P model (w ∷ ws) m ids h = elim (Bool-cases (runnable w model)) [
  | inl e ↦
      let k =
        All-index P model ws _ _ (subst (λ r. All P r.1) (index_taken model w ws m ids e) h) in
      let (a, b) = All-split P ids (w.id ∷ []) k.0 in (a, ((λ _. b.0), k.1))
  | inr e ↦
      let k =
        All-index P model ws m ids (subst (λ r. All P r.1) (index_skipped model w ws m ids e) h) in
      (k.0, ((λ t. cc), k.1))
]
