-- ===== src/Server/Affinity/Examples.antt =====
-- A session that moves from one worker to another.
use agent_gpu.Prelude.{pos, ◌≡◌, refl, some, [], ◌∷◌, lookup}
use agent_gpu.Types.{Job}
use agent_gpu.Session
use agent_gpu.Session.Manager.{Session, Manager, Status, answer, get, owned_active, is_expired}
use agent_gpu.Server.Affinity.{Affinity}

abbrev pub session : Session
session = record {
  id = "s1";
  owner_key_id = "k1";
  model = "llama3";
  bound_worker_id = "w1";
  created_at = 1;
  last_active_at = 2;
  ttl = pos 0;
  status = Status.active;
}

abbrev pub manager : Manager
manager = record {
  sessions = ("s1", session) ∷ [];
  history = record {
    history = [];
    max_turns = pos 0;
    max_bytes = pos 0;
    max_tokens = pos 0;
    policy = Session.OverflowPolicy.overflow_reject;
  };
  ttl = pos 0;
  max_per_key = pos 0;
  counts = ("k1", 1) ∷ [];
}

abbrev pub affinity : Affinity
affinity = record {
  sessions = some manager;
  model_warm_max = pos 3600000000000;
  hits = 0;
  misses = 0;
  rebinds = 0;
}

abbrev pub chat : Job
chat = record {
  id = "j1";
  model = "llama3";
  prompt = "hi";
  messages = [];
  tools = [];
  session_id = "s1";
  keep_alive_seconds = pos 0;
}

session-get : get "s1" "k1" 5 manager ≡ answer session
unfolding get owned_active is_expired lookup
session-get = refl
