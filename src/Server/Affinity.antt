-- ===== src/Server/Affinity.antt =====
-- Routing by sessions in internal/server/server.go: the worker that a session is bound to, how long
-- its model is kept warm, and the counters of hits and misses.
pub mod Examples
use agent_gpu.Prelude.{
  ℕ, ℤ, pos, pos_part, ◌+◌, ◌*◌, ◌/◌, ◌%◌, ◌^◌, ◌≤◌, ◌<◌, ◌-◌, ◌≡◌, ◌≢◌, ◌⊎◌, inl, inr, refl, sym,
  ◌∙◌, ap, ltb, ltz, String, str_eq, eq_iff, Bool, true, false, not, ◌&&◌, ◌||◌, if◌then◌else◌,
  Option, none, some, arith, Bool-cases, lookup, insert, lookup-insert_same,
}
use agent_gpu.Store.{Time}
use agent_gpu.Types.{Job}
use agent_gpu.Session.Manager.{
  Manager, Session, Answer, answer, refused, get, bind, put, owned_active, is_expired,
}
use agent_gpu.Session.Manager.Binding.{bind-get}

-- The fields of `Server` for affinity; the counters are uint64.
pub record Affinity : Type 0 where
  pub sessions : Option Manager
  pub model_warm_max : ℤ
  pub hits : ℕ
  pub misses : ℕ
  pub rebinds : ℕ

-- The session manager, if the job has a session and its key is known.
unfoldable pub manager_for : Job → String → Affinity → Option Manager
manager_for job key a = if str_eq job.session_id "" || str_eq key "" then none else a.sessions

abbrev bound_worker : Answer Session → String
bound_worker (refused e) = ""
bound_worker (answer s) = s.bound_worker_id

unfoldable pub affinity_for : Job → String → Time → Affinity → String
affinity_for job key now a = elim (manager_for job key a) [
  | none ↦ ""
  | some m ↦ bound_worker (get job.session_id key now m)
]

abbrev second : ℕ
second = 1000000000

unfoldable pub warm_window_seconds : ℤ → ℤ → ℕ
warm_window_seconds ttl max =
    let window =
      if not (ltb 0 (pos_part ttl)) || (ltb 0 (pos_part max) && ltz max ttl) then max else ttl in
    let secs = pos_part window / second in if ltb secs 1 then 1 else secs

abbrev hints_of : ℤ → Answer Session → String × ℕ
hints_of warm (refused e) = ("", 0)
hints_of warm (answer s) = (s.bound_worker_id, warm_window_seconds s.ttl warm)

unfoldable pub session_dispatch_hints : Job → String → Time → Affinity → String × ℕ
session_dispatch_hints job key now a = elim (manager_for job key a) [
  | none ↦ ("", 0)
  | some m ↦ hints_of a.model_warm_max (get job.session_id key now m)
]

-- A failure of `Bind` is logged and forgotten.
unfoldable pub bound : Job → String → String → Time → Manager → Affinity → Affinity
bound job key chosen now m a = record a { sessions = some (bind job.session_id key chosen now m).0 }

-- `recordAffinity` with a session.
unfoldable pub count_turn : Job → String → String → String → Time → Manager → Affinity → Affinity
count_turn job key chosen preferred now m a =
    if str_eq preferred ""
    then bound job key chosen now m a
    else if str_eq chosen preferred
    then record a { hits = (a.hits + 1) % 2 ^ 64 }
    else bound job key chosen now m
        (record a { misses = (a.misses + 1) % 2 ^ 64; rebinds = (a.rebinds + 1) % 2 ^ 64 })

unfoldable pub record_affinity : Job → String → String → String → Time → Affinity → Affinity
record_affinity job key chosen preferred now a = elim (manager_for job key a) [
  | none ↦ a
  | some m ↦ count_turn job key chosen preferred now m a
]

-- The keep-alive is at least a second. Unless it is one second, it ends within the cap, and within
-- the session's lifetime if that has an end. The cap is positive.
pub warm_window_seconds_bounds :
    (ttl max : ℤ)
    → 0 < pos_part max
    → (1 ≤ warm_window_seconds ttl max)
      × ((warm_window_seconds ttl max ≡ 1) ⊎ (warm_window_seconds ttl max * second ≤ pos_part max))
      × ((pos_part ttl ≡ 0)
          ⊎ (warm_window_seconds ttl max ≡ 1)
          ⊎ (warm_window_seconds ttl max * second ≤ pos_part ttl))
unfolding warm_window_seconds
warm_window_seconds_bounds (pos t) (pos m) h = ground arith
warm_window_seconds_bounds (ℤ.negsuc t) (pos m) h = ground arith
warm_window_seconds_bounds ttl (ℤ.negsuc m) h = absurd (omega arith)

manager_for_open :
    (job : Job) (key : String) (m : Manager) (a : Affinity)
    → str_eq job.session_id "" ≡ false
    → str_eq key "" ≡ false
    → a.sessions ≡ some m
    → manager_for job key a ≡ some m
unfolding manager_for
manager_for_open job key m a named keyed e = rw (named, keyed) e

affinity_for_open :
    (job : Job) (key : String) (now : Time) (m : Manager) (a : Affinity)
    → manager_for job key a ≡ some m
    → affinity_for job key now a ≡ bound_worker (get job.session_id key now m)
unfolding affinity_for
affinity_for_open job key now m a e = rw (e, affinity_for) refl

record_affinity_open :
    (job : Job) (key chosen preferred : String) (now : Time) (m : Manager) (a : Affinity)
    → manager_for job key a ≡ some m
    → record_affinity job key chosen preferred now a ≡ count_turn job key chosen preferred now m a
unfolding record_affinity
record_affinity_open job key chosen preferred now m a e = rw (e, record_affinity) refl

-- The counters do not matter to the routing.
affinity_for-hits :
    (job : Job) (key : String) (now : Time) (n : ℕ) (a : Affinity)
    → affinity_for job key now (record a { hits = n }) ≡ affinity_for job key now a
unfolding affinity_for manager_for
affinity_for-hits job key now n a = refl

module _ (job : Job) (key chosen : String) (now : Time) (s : Session) (m : Manager)
    (named : str_eq job.session_id "" ≡ false) (keyed : str_eq key "" ≡ false)
    (found : get job.session_id key now m ≡ answer s) (own : s.id ≡ job.session_id) where
  bound-affinity_for :
      (a : Affinity) → affinity_for job key now (bound job key chosen now m a) ≡ chosen
  unfolding bound
  bound-affinity_for a =
      affinity_for_open job key now (bind job.session_id key chosen now m).0
        (bound job key chosen now m a)
        (manager_for_open job key _ (bound job key chosen now m a) named keyed refl)
      ∙ ap bound_worker (bind-get job.session_id key chosen now s m found own)

  count_turn-affinity_for :
      (a : Affinity) (preferred : String)
      → affinity_for job key now a ≡ preferred
      → manager_for job key a ≡ some m
      → affinity_for job key now (count_turn job key chosen preferred now m a) ≡ chosen
  unfolding count_turn
  count_turn-affinity_for a preferred was open_for = elim (Bool-cases (str_eq preferred "")) [
    | inl e ↦ rw e (bound-affinity_for a)
    | inr e ↦ elim (Bool-cases (str_eq chosen preferred)) [
      | inl same ↦
          rw (e, same)
            (affinity_for-hits job key now _ a ∙ was ∙ sym ((eq_iff chosen preferred).0 same))
      | inr moved ↦ rw (e, moved) (bound-affinity_for _)
    ]
  ]

-- After a turn its session is bound to the worker that ran it, whether it had no worker, the same
-- one or another one before: the key owns the session, which is active and stands under its id, and
-- the preferred worker is the one that the session was bound to.
pub record_affinity-affinity_for :
    (job : Job) (key chosen : String) (now : Time) (s : Session) (m : Manager) (a : Affinity)
    → str_eq job.session_id "" ≡ false
    → str_eq key "" ≡ false
    → a.sessions ≡ some m
    → get job.session_id key now m ≡ answer s
    → s.id ≡ job.session_id
    → affinity_for job key now (record_affinity job key chosen (affinity_for job key now a) now a)
      ≡ chosen
record_affinity-affinity_for job key chosen now s m a named keyed e found own =
    let open_for : manager_for job key a ≡ some m = manager_for_open job key m a named keyed e in
    ap (affinity_for job key now)
      (record_affinity_open job key chosen (affinity_for job key now a) now m a open_for)
    ∙ count_turn-affinity_for job key chosen now s m named keyed found own a
        (affinity_for job key now a) refl open_for
