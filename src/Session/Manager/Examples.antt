-- ===== src/Session/Manager/Examples.antt =====
-- A key with one session and a cap of two.
use agent_gpu.Prelude.{
  subst, eq_iff, ℕ, pos, ◌≡◌, refl, none, some, Option, List, [], ◌∷◌, arith, lookup, hex,
  str_append,
}
use agent_gpu.Types.{Message}
use agent_gpu.Session.{session_not_found, overflow_trim}
use agent_gpu.Session.Manager.{
  Session, Manager, active, refused, active_count, create, resume, get, bind, append_turn,
  append_turns, check_appendable, history, delete, sweep_expired, set_ttl, set_max_sessions_per_key,
}
use agent_gpu.Session.Manager.Ownership.{other_owner, operations-IsForeign}
use agent_gpu.Session.Manager.Counting.{owned_by}
use agent_gpu.Session.Manager.Slots.{IsCounted}
use agent_gpu.Session.Manager.Cap.{operations-IsCounted}

abbrev first : Session
first = record {
  id = "sess_0a";
  owner_key_id = "k1";
  model = "llama3";
  bound_worker_id = "";
  created_at = 1;
  last_active_at = 1;
  ttl = pos 100;
  status = active;
}

abbrev turn : Message
turn = record { role = "user"; content = "hi"; tool_call_id = ""; name = ""; tool_calls = [] }

abbrev manager : Manager
manager = record {
  sessions = ("sess_0a", first) ∷ [];
  history = record {
    max_turns = pos 2;
    max_bytes = pos 0;
    max_tokens = pos 0;
    policy = overflow_trim;
    history = [];
  };
  ttl = pos 100;
  max_per_key = pos 2;
  counts = ("k1", 1) ∷ [];
}

manager-IsCounted : IsCounted manager
unfolding active_count owned_by lookup
manager-IsCounted = record {
  stored = (refl, refl, tt);
  counted = λ k. ground arith;
  capped = λ p k. ground arith;
}

operations-IsForeign_example :
    (resume "sess_0a" "k2" 5 manager ≡ (manager, refused session_not_found))
    × (get "sess_0a" "k2" 5 manager ≡ refused session_not_found)
    × (delete "sess_0a" "k2" manager ≡ (manager, some session_not_found))
    × (bind "sess_0a" "k2" "w" 5 manager ≡ (manager, refused session_not_found))
    × (append_turn "sess_0a" "k2" turn 5 manager ≡ (manager, refused session_not_found))
    × (append_turns "sess_0a" "k2" [] 5 manager ≡ (manager, refused session_not_found))
    × (check_appendable "sess_0a" "k2" [] 5 manager ≡ some session_not_found)
    × (history "sess_0a" "k2" 5 manager ≡ refused session_not_found)
unfolding lookup
operations-IsForeign_example =
    operations-IsForeign "sess_0a" "k2" "w" turn [] 5 manager
      (other_owner first refl (λ e. ground (arith, eq_iff "k1" "k2")))

abbrev IsFresh : Option (List ℕ) → Type 0
IsFresh none = Unit {0}
IsFresh (some bytes) = lookup (str_append "sess_" (hex bytes)) manager.sessions ≡ none

operations-IsCounted_example :
    IsCounted (create "k1" "llama3" 5 (some (11 ∷ [])) manager).0
    × IsCounted (resume "sess_0a" "k1" 5 manager).0
    × IsCounted (bind "sess_0a" "k1" "w" 5 manager).0
    × IsCounted (append_turn "sess_0a" "k1" turn 5 manager).0
    × IsCounted (append_turns "sess_0a" "k1" [] 5 manager).0
    × IsCounted (delete "sess_0a" "k1" manager).0
    × IsCounted (sweep_expired 5 manager)
    × IsCounted (set_ttl (pos 7) manager)
    × IsCounted (set_max_sessions_per_key (pos 1) manager)
unfolding lookup hex owned_by
operations-IsCounted_example =
    operations-IsCounted "sess_0a" "k1" "w" "llama3" turn [] 5 (some (11 ∷ [])) (pos 7) (pos 1)
      manager (λ bytes e. subst IsFresh e refl) (λ p k. ground arith) manager-IsCounted
