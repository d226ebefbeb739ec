-- ===== src/Server/Fleet/Pick.antt =====
-- `pickWorker` and `modelServed` over the snapshots of the registered workers.
use text.Mathlib.TextEquality.{IsScalar-prop}
use agent_gpu.Prelude.{
  ℕ, ◌≡◌, ◌≢◌, ◌↔◌, refl, sym, subst, ◌∙◌, ◌⊎◌, inl, inr, String, str_eq, eq_iff, if◌then◌else◌,
  true, false, Option, none, some, List, [], ◌∷◌, arith, ap, All, All-imp, All-both, All-mem,
  lookup, IsMap, Entries, Option-cases,
}
use agent_gpu.Store.{Time}
use agent_gpu.Types.{Worker, stale}
use agent_gpu.Scheduler.{runnable, has_model}
use agent_gpu.Scheduler.Index.{IsFleet}
use agent_gpu.Scheduler.Best.{IsBest, pick_preferring-IsBest}
use agent_gpu.Server.Stream.{Stream, snapshot, available}
use agent_gpu.Server.Fleet.{
  Handle, Registry, snapshots, fleet, worker_by_id, pick_worker, if_available, serves, model_served,
}
use agent_gpu.Server.Fleet.Valid.{IsRegistry, Names}

snapshot-id : (now : Time) (timeout : ℕ) (w : Stream) → (snapshot now timeout w).id ≡ w.id
unfolding snapshot
snapshot-id now timeout w = refl

module _ (now : Time) (r : Registry) where
  snapshots-fresh :
      (id : String) (m : List (String × Handle))
      → lookup id m ≡ none
      → Entries (Names r.heap r.next_handle) m
      → All (λ x. x.id ≢ id) (snapshots now r m)
  unfolding lookup snapshots
  snapshots-fresh id [] e n = tt
  snapshots-fresh id ((k, h) ∷ m) e n = (
    λ same.
        ground (arith, snapshot-id now r.heartbeat_timeout (r.heap h), n.0.0, same, eq_iff k id),
    snapshots-fresh id m (ground arith) n.1,
  )

  snapshots-IsFleet :
      (m : List (String × Handle))
      → IsMap m
      → Entries (Names r.heap r.next_handle) m
      → IsFleet (snapshots now r m)
  unfolding snapshots
  snapshots-IsFleet [] u n = tt
  snapshots-IsFleet ((k, h) ∷ m) u n = (
    All-imp (λ x. x.id ≢ k) (λ x. x.id ≢ (snapshot now r.heartbeat_timeout (r.heap h)).id)
        (snapshots now r m)
        (λ x a e. a (e ∙ snapshot-id now r.heartbeat_timeout (r.heap h) ∙ n.0.0))
        (snapshots-fresh k m u.0 n.1),
    snapshots-IsFleet m u.1 n.1,
  )

-- The fleet lists each worker once.
fleet-IsFleet : (now : Time) (r : Registry) → IsRegistry r → IsFleet (fleet now r)
unfolding fleet
fleet-IsFleet now r v = snapshots-IsFleet now r r.workers v.workers_map v.named

Worker-set : IsSet (Option Worker)
Worker-set = hlevel IsScalar-prop

abbrev view : Time → Registry → Option Handle → Option Worker
view now r none = none
view now r (some h) = some (snapshot now r.heartbeat_timeout (r.heap h))

worker_by_id-view :
    (id : String) (now : Time) (r : Registry)
    → worker_by_id id now r ≡ view now r (lookup id r.workers)
unfolding worker_by_id
worker_by_id-view id now r = ground arith

apart : (s t : String) → s ≢ t → str_eq s t ≡ false
apart s t h = ground (arith, eq_iff s t)

snapshots-worker_by_id :
    (now : Time) (r : Registry) (m : List (String × Handle))
    → IsMap m
    → Entries (Names r.heap r.next_handle) m
    → All (λ x. view now r (lookup x.id m) ≡ some x) (snapshots now r m)
unfolding lookup snapshots
snapshots-worker_by_id now r [] u n = tt
snapshots-worker_by_id now r ((k, h) ∷ m) u n = (
  rw
      ((eq_iff k (snapshot now r.heartbeat_timeout (r.heap h)).id).1
        (sym n.0.0 ∙ sym (snapshot-id now r.heartbeat_timeout (r.heap h))))
      refl,
  All-imp (λ x. (view now r (lookup x.id m) ≡ some x) × (x.id ≢ k)) _ (snapshots now r m)
      (λ x p. rw (apart k x.id (λ e. p.1 (sym e))) p.0)
      (All-both _ _ (snapshots now r m) (snapshots-worker_by_id now r m u.1 n.1)
        (snapshots-fresh now r k m u.0 n.1)),
)

-- Each worker that `Fleet` lists is the one that `WorkerByID` gives for its id.
pub fleet-worker_by_id :
    (now : Time) (r : Registry)
    → IsRegistry r
    → All (λ x. worker_by_id x.id now r ≡ some x) (fleet now r)
unfolding fleet
fleet-worker_by_id now r v =
    All-imp (λ x. view now r (lookup x.id r.workers) ≡ some x) _ (snapshots now r r.workers)
      (λ x e. worker_by_id-view x.id now r ∙ e)
      (snapshots-worker_by_id now r r.workers v.workers_map v.named)

runnable-available :
    (model : String) (now : Time) (timeout : ℕ) (w : Stream)
    → runnable (snapshot now timeout w) model ≡ true
    → available now timeout w ≡ true
unfolding runnable snapshot available
runnable-available model now timeout w h = ground arith

-- The handle is that of a registered worker that may be given jobs, and no worker of the fleet that
-- can run the model has more appeal, or as much and a smaller id.
pub record IsPick (now : Time) (r : Registry) (model preferred : String) (h : Handle) : Type 0 where
  pub is_registered : lookup (r.heap h).id r.workers ≡ some h
  pub can_take : available now r.heartbeat_timeout (r.heap h) ≡ true
  pub best : IsBest (fleet now r) model preferred (snapshot now r.heartbeat_timeout (r.heap h))

some-injective : {x y : Worker} → some x ≡ some y → x ≡ y
some-injective e = cc

picked :
    (model preferred : String) (now : Time) (r : Registry) (w : Worker)
    → IsBest (fleet now r) model preferred w
    → view now r (lookup w.id r.workers) ≡ some w
    → (h : Handle) × (if_available now r (lookup w.id r.workers) ≡ some h)
      × IsPick now r model preferred h
unfolding snapshot
picked model preferred now r w b e = elim (Option-cases (lookup w.id r.workers)) [
  | inl n ↦ let absent : none ≡ some w = sym (ap (view now r) n) ∙ e in cc
  | inr (h, found) ↦
      let same : snapshot now r.heartbeat_timeout (r.heap h) ≡ w =
        some-injective (sym (ap (view now r) found) ∙ e) in
      let free : available now r.heartbeat_timeout (r.heap h) ≡ true =
        runnable-available model now r.heartbeat_timeout (r.heap h)
          (ap (λ x. runnable x model) same ∙ b.can_run) in
      (
        h,
        ap (if_available now r) found ∙ ap (λ t. if t then some h else none) free,
        record {
          is_registered = ap (λ x. lookup x.id r.workers) same ∙ found;
          can_take = free;
          best = subst (IsBest (fleet now r) model preferred) (sym same) b;
        },
      )
]

-- In one state of the registry and at one time, `pickWorker` finds no worker exactly if none can run
-- the model. Otherwise the worker is registered, neither draining nor stale, and the best of the
-- fleet.
pub pick_worker-IsPick :
    (model preferred : String) (now : Time) (r : Registry)
    → IsRegistry r
    → ((pick_worker model preferred now r now r ≡ none)
        × All (λ w. runnable w model ≡ false) (fleet now r))
      ⊎ ((h : Handle) × (pick_worker model preferred now r now r ≡ some h)
          × IsPick now r model preferred h)
unfolding pick_worker
pick_worker-IsPick model preferred now r v =
    elim (pick_preferring-IsBest (fleet now r) model preferred (fleet-IsFleet now r v)) [
      | inl (n, all_idle) ↦ inl (rw (n, pick_worker) refl, all_idle)
      | inr (w, e, b) ↦
          let seen : worker_by_id w.id now r ≡ some w =
            All-mem (λ x. worker_by_id x.id now r ≡ some x) (fleet now r) w (λ x. Worker-set _ _)
              (fleet-worker_by_id now r v) b.member in
          let (h, found, p) =
            picked model preferred now r w b (sym (worker_by_id-view w.id now r) ∙ seen) in
          inr (h, rw (e, pick_worker) found, p)
    ]

serves-false :
    (model : String) (ws : List Worker)
    → (serves model ws ≡ false) ↔ All (λ w. (w.status ≡ stale) ⊎ (has_model w model ≡ false)) ws
unfolding serves
serves-false model [] = ((λ e. tt), (λ a. refl))
serves-false model (w ∷ ws) = (
  (λ e. (ground arith, (serves-false model ws).0 (ground arith))),
  (λ a. ground (arith, a.0, (serves-false model ws).1 a.1)),
)

-- A model is served exactly unless each worker of the fleet is stale or does not list it.
pub model_served_iff :
    (model : String) (now : Time) (r : Registry)
    → (model_served model now r ≡ false)
      ↔ All (λ w. (w.status ≡ stale) ⊎ (has_model w model ≡ false)) (fleet now r)
unfolding model_served
model_served_iff model now r = serves-false model (fleet now r)
