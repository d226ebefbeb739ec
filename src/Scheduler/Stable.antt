-- ===== src/Scheduler/Stable.antt =====
-- What the pick does not depend on.
use agent_gpu.Prelude.{
  All, All-mem, some, Perm, refl, sym, ap, ◌∙◌, str_lt_total, String, true, false, ◌≡◌, ◌≢◌, arith,
  List, inl, inr, eq_iff,
}
use mathlib.Core.List.Perm.{mem_iff}
use agent_gpu.Scheduler.Index.{IsFleet}
use agent_gpu.Types.{Worker}
use agent_gpu.Scheduler.{pick, pick_preferring, runnable}
use agent_gpu.Scheduler.Best.{appeal, beats, pick_preferring-IsBest}
use agent_gpu.Scheduler.Affinity.{unbeaten-by, picks}

beats_antisym :
    (model preferred : String) (x y : Worker)
    → beats model preferred x y ≡ false
    → beats model preferred y x ≡ false
    → x.id ≡ y.id
unfolding beats
beats_antisym model preferred x y h k = str_lt_total x.id y.id (ground arith) (ground arith)

-- The pick does not depend on the order of a fleet that lists each worker once.
pub pick_preferring-perm :
    (workers others : List Worker) (model preferred : String)
    → IsFleet workers
    → IsFleet others
    → Perm workers others
    → pick_preferring workers model preferred ≡ pick_preferring others model preferred
pick_preferring-perm workers others model preferred fleet fleet2 perm =
    elim (pick_preferring-IsBest workers model preferred fleet) [
      | inl (e, all) ↦ elim (pick_preferring-IsBest others model preferred fleet2) [
        | inl (h, _) ↦ e ∙ sym h
        | inr (w, h, best) ↦
            let m = (mem_iff perm).1 best.member in
            cc (All-mem (λ x. runnable x model ≡ false) workers w (λ x. hlevel) all m, best.can_run)
      ]
      | inr (w, e, best) ↦
          let m = (mem_iff perm).0 best.member in
          let (v, h, other) = picks others model preferred w fleet2 m best.can_run in
          let back = (mem_iff perm).1 other.member in
          e
          ∙ ap some (
              beats_antisym model preferred w v (unbeaten-by w other m best.can_run)
                (unbeaten-by v best back other.can_run))
          ∙ sym h
    ]

appeal_without :
    (model preferred : String) (w : Worker)
    → w.id ≢ preferred
    → appeal model preferred w ≡ appeal model "" w
unfolding appeal
appeal_without model preferred w n = ground (arith, eq_iff w.id preferred)

beats_without :
    (model preferred : String) (x w : Worker)
    → x.id ≢ preferred
    → w.id ≢ preferred
    → beats model preferred x w ≡ beats model "" x w
unfolding beats
beats_without model preferred x w h k =
    rw (appeal_without model preferred x h, appeal_without model preferred w k) refl

-- A preferred worker that cannot run the model, or is gone, leaves the pick as it is without one, in
-- a fleet that lists each worker once.
pub pick_preferring-pick :
    (workers : List Worker) (model preferred : String)
    → IsFleet workers
    → All (λ x. runnable x model ≡ true → x.id ≢ preferred) workers
    → pick_preferring workers model preferred ≡ pick workers model
unfolding pick
pick_preferring-pick workers model preferred fleet gone =
    elim (pick_preferring-IsBest workers model preferred fleet) [
      | inl (e, all) ↦ elim (pick_preferring-IsBest workers model "" fleet) [
        | inl (h, _) ↦ e ∙ sym h
        | inr (w, h, best) ↦ cc (
          All-mem (λ x. runnable x model ≡ false) workers w (λ x. hlevel) all best.member,
          best.can_run,
        )
      ]
      | inr (w, e, best) ↦
          let (v, h, other) = picks workers model "" w fleet best.member best.can_run in
          let w_n =
            All-mem (λ x. runnable x model ≡ true → x.id ≢ preferred) workers w (λ x. hlevel) gone
              best.member best.can_run in
          let v_n =
            All-mem (λ x. runnable x model ≡ true → x.id ≢ preferred) workers v (λ x. hlevel) gone
              other.member other.can_run in
          e
          ∙ ap some (
              beats_antisym model "" w v (unbeaten-by w other best.member best.can_run) (
                sym (beats_without model preferred v w v_n w_n)
                ∙ unbeaten-by v best other.member other.can_run))
          ∙ sym h
    ]
