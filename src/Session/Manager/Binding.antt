-- ===== src/Session/Manager/Binding.antt =====
-- A session after it was bound to a worker.
use agent_gpu.Prelude.{
  ◌≡◌, refl, arith, String, str_eq, eq_iff, true, false, some, lookup, lookup-insert_same,
}
use agent_gpu.Store.{Time}
use agent_gpu.Session.Manager.{Session, Manager, answer, owned_active, is_expired, put, bind, get}

-- An owned session is stored, and is its owner's.
owned_active-owner :
    (id owner : String) (now : Time) (s : Session) (m : Manager)
    → owned_active id owner now m ≡ answer s
    → str_eq s.owner_key_id owner ≡ true
unfolding owned_active
owned_active-owner id owner now s m e = ground arith

not-is_expired-now : (now : Time) (s : Session) → s.last_active_at ≡ now → is_expired now s ≡ false
unfolding is_expired
not-is_expired-now now s e = ground (arith, e)

-- A bound session is owned and active as before, with the worker that it was bound to.
pub bind-get :
    (id owner worker : String) (now : Time) (s : Session) (m : Manager)
    → get id owner now m ≡ answer s
    → s.id ≡ id
    → get id owner now (bind id owner worker now m).0
      ≡ answer (record s { bound_worker_id = worker; last_active_at = now })
unfolding get bind
bind-get id owner worker now s m e named =
    let s' : Session = record s { bound_worker_id = worker; last_active_at = now } in
    let found : lookup id (put s' m).sessions ≡ some s' =
      unfold put in lookup-insert_same s.id id s' m.sessions ((eq_iff s.id id).1 named) in
    let owner_kept : str_eq s'.owner_key_id owner ≡ true = owned_active-owner id owner now s m e in
    let alive : is_expired now s' ≡ false = not-is_expired-now now s' refl in
    rw e (unfold owned_active in rw (found, owner_kept, alive) refl)
