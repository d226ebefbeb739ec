-- ===== src/Session/Manager/Ownership.antt =====
-- Who sees a session.
use agent_gpu.Prelude.{
  ◌≡◌, ◌≢◌, refl, String, str_eq, eq_iff, false, none, some, List, lookup, arith,
}
use agent_gpu.Store.{Time}
use agent_gpu.Types.{Message}
use agent_gpu.Session.{session_not_found}
use agent_gpu.Session.Manager.{
  Session, Manager, refused, owned_active, resume, get, delete, bind, append_turn, append_turns,
  check_appendable, history,
}

-- The key has no session of this id: there is none, or another key owns it.
pub data IsForeign (id owner : String) (m : Manager) : Type 0 where
  missing : lookup id m.sessions ≡ none → IsForeign id owner m
  other_owner :
      (s : Session) → lookup id m.sessions ≡ some s → s.owner_key_id ≢ owner → IsForeign id owner m

owned_active-IsForeign :
    (id owner : String) (now : Time) (m : Manager)
    → IsForeign id owner m
    → owned_active id owner now m ≡ refused session_not_found
unfolding owned_active
owned_active-IsForeign id owner now m (missing e) = rw e refl
owned_active-IsForeign id owner now m (other_owner s e apart) =
    let differ : str_eq s.owner_key_id owner ≡ false =
      ground (arith, eq_iff s.owner_key_id owner) in
    rw (e, differ) refl

delete-IsForeign :
    (id owner : String) (m : Manager)
    → IsForeign id owner m
    → delete id owner m ≡ (m, some session_not_found)
unfolding delete
delete-IsForeign id owner m (missing e) = rw e refl
delete-IsForeign id owner m (other_owner s e apart) =
    let differ : str_eq s.owner_key_id owner ≡ false =
      ground (arith, eq_iff s.owner_key_id owner) in
    rw (e, differ) refl

-- A key that does not own the session cannot tell it from one that is missing: every call is refused
-- with the same error, and none changes anything.
pub operations-IsForeign :
    (id owner worker : String) (turn : Message) (turns : List Message) (now : Time) (m : Manager)
    → IsForeign id owner m
    → (resume id owner now m ≡ (m, refused session_not_found))
      × (get id owner now m ≡ refused session_not_found)
      × (delete id owner m ≡ (m, some session_not_found))
      × (bind id owner worker now m ≡ (m, refused session_not_found))
      × (append_turn id owner turn now m ≡ (m, refused session_not_found))
      × (append_turns id owner turns now m ≡ (m, refused session_not_found))
      × (check_appendable id owner turns now m ≡ some session_not_found)
      × (history id owner now m ≡ refused session_not_found)
unfolding resume get bind append_turn append_turns check_appendable history
operations-IsForeign id owner worker turn turns now m h =
    let e = owned_active-IsForeign id owner now m h in
    (
      rw e refl,
      e,
      delete-IsForeign id owner m h,
      rw e refl,
      rw e refl,
      rw e refl,
      rw (e, check_appendable) refl,
      rw (e, history) refl,
    )
