-- ===== src/Server/Fleet/Examples.antt =====
-- A registry of two workers, one of which is late.
use agent_gpu.Prelude.{
  ℕ, ◌≡◌, refl, ◌⊎◌, String, false, none, some, List, [], ◌∷◌, arith, All, lookup,
}
use agent_gpu.Store.{Time}
use agent_gpu.Types.{Model}
use agent_gpu.Scheduler.{runnable}
use agent_gpu.Server.Stream.{Stream, is_stale}
use agent_gpu.Server.Fleet.{Handle, Registry, register, connect, fleet, pick_worker, evict_stale}
use agent_gpu.Server.Fleet.Valid.{IsRegistry, step, connects, disconnects, step-IsRegistry}
use agent_gpu.Server.Fleet.Evict.{evict_stale-lookup, reconnect-lookup}
use agent_gpu.Server.Fleet.Pick.{IsPick, pick_worker-IsPick}

abbrev pub llama : List Model
llama = record { name = "llama3"; digest = "" } ∷ []

abbrev pub stream : String → Time → Stream
stream id last = record {
  id = id;
  pending = [];
  streams = [];
  observers = [];
  registered_at = 1;
  models = llama;
  last_heartbeat = last;
  active_jobs = 0;
  total_vram = 0;
  free_vram = 0;
  load = 0;
  gpu_type = "";
  available_models = [];
  is_draining = false;
  is_cancelled = false;
}

abbrev pub heap : Handle → Stream
heap ℕ.zero = stream "w1" 10
heap _ = stream "w2" 90

abbrev pub two : Registry
two = record {
  heap = heap;
  next_handle = 2;
  workers = ("w1", 0) ∷ ("w2", 1) ∷ [];
  next_session = 2;
  heartbeat_timeout = 45;
}

pub two-IsRegistry : IsRegistry two
unfolding lookup
two-IsRegistry = record {
  workers_map = (refl, (refl, tt));
  named = ((refl, omega arith), ((refl, omega arith), tt));
}

step-IsRegistry_example : IsRegistry (step (connects (register "w1" llama) 100) two)
step-IsRegistry_example = step-IsRegistry (connects (register "w1" llama) 100) two two-IsRegistry

evict_stale-lookup_example : lookup "w1" (evict_stale 100 two two).0.workers ≡ none
unfolding lookup is_stale
evict_stale-lookup_example = evict_stale-lookup 100 two "w1" two-IsRegistry

reconnect-lookup_example :
    lookup "w1" (step (disconnects 0) (connect (register "w1" llama) 100 two).0).workers ≡ some 2
reconnect-lookup_example =
    reconnect-lookup "w1" llama 100 0 (disconnects 0) two two-IsRegistry refl (omega arith) refl

pick_worker-IsPick_example :
    ((pick_worker "llama3" "" 100 two 100 two ≡ none)
      × All (λ w. runnable w "llama3" ≡ false) (fleet 100 two))
    ⊎ ((h : Handle) × (pick_worker "llama3" "" 100 two 100 two ≡ some h)
        × IsPick 100 two "llama3" "" h)
pick_worker-IsPick_example = pick_worker-IsPick "llama3" "" 100 two two-IsRegistry
