-- ===== src/Server/Submit/Examples.antt =====
-- Submissions to a fleet of two workers.
use agent_gpu.Prelude.{ℕ, ◌≡◌, refl, false, some, none, [], ◌∷◌, arith, lookup, List, count}
use agent_gpu.Store.{ApiKey, Limits}
use agent_gpu.Types.{validate}
use agent_gpu.Server.Fleet.{Handle, register}
use agent_gpu.Server.Fleet.Valid.{Event, connects, scans, dispatches, abandons, disconnects}
use agent_gpu.Server.Fleet.Examples.{two, two-IsRegistry, llama}
use agent_gpu.Server.Affinity.Examples.{affinity, chat}
use agent_gpu.Server.Submit.{Server, dispatch, submit, submit_authorized_job}
use agent_gpu.Server.Submit.Outcome.{Outcome, submit-Outcome}
use agent_gpu.Server.Submit.Gate.{Gated, submit_authorized_job-Gated}
use agent_gpu.Server.Submit.Late.{run, all_sends, dispatch-late}
use agent_gpu.Server.Fleet.Gone.{IsGone, IsFree}
use agent_gpu.Server.Stream.Answers.{answered}

abbrev unlimited : Limits
unlimited = record { rpm = 0; tpm = 0; daily_tokens = 0; monthly_tokens = 0 }

abbrev pub server : Server
server = record {
  registry = two;
  affinity = affinity;
  quota = record { counters = []; defaults = unlimited; global = unlimited };
  queue = record { items = []; seq = 0; max_depth = 0; is_closed = false };
  waiters = [];
  waits = record { count = 0; sum_ms = 0; max_ms = 0; buckets = 0 ∷ 0 ∷ 0 ∷ 0 ∷ [] };
  capacity = false;
  outbox = [];
}

submit-Outcome_example :
    Outcome chat "k1" 1 100 7 server
      (submit chat "k1" 1 100 7 server).0
      (submit chat "k1" 1 100 7 server).1
unfolding validate
submit-Outcome_example = submit-Outcome chat "k1" 1 100 7 server two-IsRegistry refl

abbrev pub key : ApiKey
key = record {
  id = "k1";
  name = "ci";
  prefix = "agpu";
  secret_hash = [];
  salt = [];
  created_at = 1;
  last_used_at = 1;
  usage_count = 0;
  revoked_at = none;
  owner = "";
  team = "";
  expires_at = none;
  created_by = "";
  roles = "user" ∷ [];
  admin_scopes = [];
  allow_models = "llama3" ∷ [];
  deny_models = [];
  limits = none;
}

submit_authorized_job-Gated_example :
    Gated key chat 100 7 server (submit_authorized_job key chat 100 7 server)
submit_authorized_job-Gated_example = submit_authorized_job-Gated key chat 100 7 server

-- The worker w1 has been evicted, and w2 stays.
abbrev without_w1 : Server
without_w1 = record server { registry = record two { workers = ("w2", 1) ∷ [] } }

w1-IsGone : IsGone 0 without_w1.registry
w1-IsGone = record { allocated = omega arith; unlisted = (omega arith, tt) }

none_waits : (x : Handle) → IsFree 7 (without_w1.registry.heap x)
none_waits ℕ.zero = record {
  is_stream = record { pending_map = tt; observers_map = tt };
  unheld = refl;
}
none_waits (ℕ.suc n) = record {
  is_stream = record { pending_map = tt; observers_map = tt };
  unheld = refl;
}

-- The worker connects again, its heartbeats stop, and another job comes for the old pointer.
abbrev afterwards : List Event
afterwards =
    connects (register "w1" llama) 100
    ∷ dispatches 0 "j2" 8
    ∷ scans 200
    ∷ abandons 0 "j2"
    ∷ disconnects 1
    ∷ []

dispatch-late_example :
    (lookup "j1" ((run afterwards (dispatch 0 chat 7 without_w1).registry).heap 0).pending ≡ some 7)
    × (count 7 (answered (all_sends afterwards (dispatch 0 chat 7 without_w1).registry)) ≡ 0)
dispatch-late_example =
    dispatch-late 0 chat 7 afterwards without_w1 w1-IsGone none_waits
      (tt, ((refl, omega arith), (tt, (refl, (omega arith, tt)))))
