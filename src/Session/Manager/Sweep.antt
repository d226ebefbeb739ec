-- ===== src/Session/Manager/Sweep.antt =====
-- sweepExpired of internal/session/manager.go and the counts of the sessions.
use agent_gpu.Prelude.{
  ◌≡◌, inl, inr, String, eq_iff, Bool-cases, Option-cases, none, some, remove, subst, List, [], ◌∷◌,
  lookup, lookup-remove, arith, All, All-imp,
}
use agent_gpu.Store.{Time}
use agent_gpu.Session.{delete_by_session}
use agent_gpu.Session.Manager.{Session, Manager, is_expired, delete_session, sweep, sweep_expired}
use agent_gpu.Session.Manager.Counting.{IsSessions}
use agent_gpu.Session.Manager.Slots.{IsCounted, delete_session-IsCounted, release_slot-sessions}

-- The listed session, while it is stored, has the owner that it had.
abbrev Agrees : List (String × Session) → String × Session → Type 0
Agrees m (id, s) =
    (stored : Session) → lookup s.id m ≡ some stored → stored.owner_key_id ≡ s.owner_key_id

cons-Agrees :
    (id : String) (s : Session) (m : List (String × Session)) (e : String × Session)
    → lookup id m ≡ none
    → (lookup e.1.id m ≡ some e.1)
    → lookup e.1.id ((id, s) ∷ m) ≡ some e.1
unfolding lookup
cons-Agrees id s m e new found = ground (arith, eq_iff id e.1.id)

stored_lem : (m : List (String × Session)) → IsSessions m → All (λ e. lookup e.1.id m ≡ some e.1) m
unfolding lookup
stored_lem [] h = tt
stored_lem ((id, s) ∷ m) h = (
  ground (arith, eq_iff id s.id),
  All-imp _ _ m (λ e. cons-Agrees id s m e h.1) (stored_lem m h.2),
)

delete_session-Agrees :
    (id : String) (s : Session) (m : Manager) (e : String × Session)
    → Agrees m.sessions e
    → Agrees (delete_session id s.owner_key_id m).sessions e
unfolding delete_session
delete_session-Agrees id s m (i, t) h = elim (Option-cases (lookup id m.sessions)) [
  | inl e ↦ rw (e, delete_session) h
  | inr (old, e) ↦
      rw
        (
          e,
          delete_session,
          (release_slot-sessions s.owner_key_id (record m {
            sessions = remove id m.sessions;
            history = delete_by_session id m.history;
          })).0,
        )
        (λ stored found. h stored (ground (arith, lookup-remove id t.id m.sessions, found)))
]

-- A listed session that has gone in the meantime is passed over.
delete_listed-IsCounted :
    (s : Session) (m : Manager)
    → Agrees m.sessions (s.id, s)
    → IsCounted m
    → IsCounted (delete_session s.id s.owner_key_id m)
unfolding delete_session
delete_listed-IsCounted s m a h = elim (Option-cases (lookup s.id m.sessions)) [
  | inl e ↦ rw (e, delete_session) h
  | inr (old, e) ↦
      subst (λ owner. IsCounted (delete_session s.id owner m)) (a old e)
        (delete_session-IsCounted s.id old m e h)
]

sweep-IsCounted :
    (now : Time) (listed : List (String × Session)) (m : Manager)
    → All (Agrees m.sessions) listed
    → IsCounted m
    → IsCounted (sweep now listed m)
unfolding sweep
sweep-IsCounted now [] m a h = h
sweep-IsCounted now ((i, s) ∷ listed) m a h = elim (Bool-cases (is_expired now s)) [
  | inr e ↦ rw (e, sweep) (sweep-IsCounted now listed m a.1 h)
  | inl e ↦
      rw (e, sweep)
        (sweep-IsCounted now listed (delete_session s.id s.owner_key_id m)
          (All-imp _ _ listed (λ x. delete_session-Agrees s.id s m x) a.1)
          (delete_listed-IsCounted s m a.0 h))
]

pub sweep_expired-IsCounted :
    (now : Time) (m : Manager) → IsCounted m → IsCounted (sweep_expired now m)
unfolding sweep_expired
sweep_expired-IsCounted now m h =
    sweep-IsCounted now m.sessions m
      (All-imp _ (Agrees m.sessions) m.sessions (λ e found stored there. cc (found, there))
        (stored_lem m.sessions h.stored))
      h
