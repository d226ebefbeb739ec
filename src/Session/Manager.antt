-- ===== src/Session/Manager.antt =====
-- The session manager of internal/session/manager.go over the in-memory stores of store.go, which
-- never fail. The calls come one after the other; the observer and the logger are left out.
pub mod Ownership
pub mod Counting
pub mod Slots
pub mod Sweep
pub mod Cap
pub mod Binding
mod Examples
use agent_gpu.Prelude.{
  ℕ, ℤ, pos, suc, ◌+◌, ◌-◌, pos_part, ltb, leb, String, str_eq, str_append, hex, Bool, true, false,
  not, ◌&&◌, if◌then◌else◌, Option, none, some, List, [], ◌∷◌, lookup, insert, remove,
}
use agent_gpu.Store.{Time}
use agent_gpu.Types.{Message}
use agent_gpu.Session.{
  HistoryStore, Error, session_limit_exceeded, session_not_found, empty_owner, no_entropy, append,
  append_batch, would_reject, delete_by_session, history_of,
}

pub data Status : Type 0 where
  active expired : Status

pub record Session : Type 0 where
  pub id : String
  pub owner_key_id : String
  pub model : String
  pub bound_worker_id : String
  pub created_at : Time
  pub last_active_at : Time
  pub ttl : ℤ
  pub status : Status

-- A lifetime of 0 or less has no end.
unfoldable pub is_expired : Time → Session → Bool
is_expired now s =
    if not (ltb 0 (pos_part s.ttl)) then false else ltb (pos_part s.ttl) (now - s.last_active_at)

pub record Manager : Type 0 where
  pub sessions : List (String × Session)
  pub history : HistoryStore
  pub ttl : ℤ
  pub max_per_key : ℤ
  pub counts : List (String × ℕ)

-- A value, or the error.
pub data Answer {ℓ} (A : Type ℓ) : Type ℓ where
  answer : A → Answer A
  refused : Error → Answer A

abbrev or_zero : Option ℕ → ℕ
or_zero none = 0
or_zero (some n) = n

-- `m.counts[ownerKeyID]`
unfoldable pub active_count : String → Manager → ℕ
active_count owner m = or_zero (lookup owner m.counts)

-- `none` when the key has as many sessions as it may have.
unfoldable pub reserve_slot : String → Manager → Option Manager
reserve_slot owner m =
    if ltb 0 (pos_part m.max_per_key) && leb (pos_part m.max_per_key) (active_count owner m)
    then none
    else some (record m { counts = insert owner (active_count owner m + 1) m.counts })

unfoldable pub release_slot : String → Manager → Manager
release_slot owner m =
    if ltb 1 (active_count owner m)
    then record m { counts = insert owner (active_count owner m - 1) m.counts }
    else record m { counts = remove owner m.counts }

unfoldable pub put : Session → Manager → Manager
put s m = record m { sessions = insert s.id s m.sessions }

-- The session that `Create` stores.
unfoldable pub new_session : String → String → String → Time → Manager → Session
new_session id owner model now m = record {
  id = id;
  owner_key_id = owner;
  model = model;
  bound_worker_id = "";
  created_at = now;
  last_active_at = now;
  ttl = m.ttl;
  status = active;
}

abbrev with_id : String → String → Time → Option (List ℕ) → Manager → Manager × Answer Session
with_id owner model now none m = (release_slot owner m, refused no_entropy)
with_id owner model now (some bytes) m =
    let s = new_session (str_append "sess_" (hex bytes)) owner model now m in (put s m, answer s)

abbrev with_slot :
    String → String → Time → Option (List ℕ) → Manager → Option Manager → Manager × Answer Session
with_slot owner model now entropy m none = (m, refused session_limit_exceeded)
with_slot owner model now entropy m (some reserved) = with_id owner model now entropy reserved

unfoldable pub create :
    String → String → Time → Option (List ℕ) → Manager → Manager × Answer Session
create owner model now entropy m =
    if str_eq owner ""
    then (m, refused empty_owner)
    else with_slot owner model now entropy m (reserve_slot owner m)

abbrev if_owned : String → Time → Option Session → Answer Session
if_owned owner now none = refused session_not_found
if_owned owner now (some s) =
    if not (str_eq s.owner_key_id owner)
    then refused session_not_found
    else if is_expired now s
    then refused session_not_found
    else answer s

unfoldable pub owned_active : String → String → Time → Manager → Answer Session
owned_active id owner now m = if_owned owner now (lookup id m.sessions)

-- A call on a session of the owner's: refused without effect if there is none.
abbrev with_owned {ℓ} :
    {A : Type ℓ} → Answer Session → Manager → (Session → Manager × Answer A) → Manager × Answer A
with_owned (refused e) m f = (m, refused e)
with_owned (answer s) m f = f s

unfoldable pub resume : String → String → Time → Manager → Manager × Answer Session
resume id owner now m =
    with_owned (owned_active id owner now m) m
      (λ s. let s' = record s { last_active_at = now; status = active } in (put s' m, answer s'))

unfoldable pub get : String → String → Time → Manager → Answer Session
get id owner now m = owned_active id owner now m

-- `deleteSession`
unfoldable pub delete_session : String → String → Manager → Manager
delete_session id owner m = elim (lookup id m.sessions) [
  | none ↦ m
  | some s ↦
      release_slot owner
        (record m { sessions = remove id m.sessions; history = delete_by_session id m.history })
]

abbrev if_owner : String → String → Manager → Option Session → Manager × Option Error
if_owner id owner m none = (m, some session_not_found)
if_owner id owner m (some s) =
    if not (str_eq s.owner_key_id owner)
    then (m, some session_not_found)
    else (delete_session id s.owner_key_id m, none)

unfoldable pub delete : String → String → Manager → Manager × Option Error
delete id owner m = if_owner id owner m (lookup id m.sessions)

unfoldable pub bind : String → String → String → Time → Manager → Manager × Answer Session
bind id owner worker now m = with_owned (owned_active id owner now m) m (λ s.
    let s' = record s { bound_worker_id = worker; last_active_at = now } in (put s' m, answer s'))

abbrev after_append :
    Session → Time → Manager → HistoryStore × Option Error → Manager × Answer (Unit {0})
after_append s now m (h, some e) = (record m { history = h }, refused e)
after_append s now m (h, none) =
    (put (record s { last_active_at = now }) (record m { history = h }), answer tt)

unfoldable pub append_turn :
    String → String → Message → Time → Manager → Manager × Answer (Unit {0})
append_turn id owner turn now m =
    with_owned (owned_active id owner now m) m
      (λ s. after_append s now m (append id turn m.history))

unfoldable pub append_turns :
    String → String → List Message → Time → Manager → Manager × Answer (Unit {0})
append_turns id owner turns now m =
    with_owned (owned_active id owner now m) m
      (λ s. after_append s now m (append_batch id turns m.history))

unfoldable pub check_appendable : String → String → List Message → Time → Manager → Option Error
check_appendable id owner turns now m = elim (owned_active id owner now m) [
  | refused e ↦ some e
  | answer s ↦ if would_reject id turns m.history then some session_limit_exceeded else none
]

unfoldable pub history : String → String → Time → Manager → Answer (List Message)
history id owner now m = elim (owned_active id owner now m) [
  | refused e ↦ refused e
  | answer s ↦ answer (history_of id m.history)
]

-- The loop of `sweepExpired` over the sessions that were listed.
unfoldable pub sweep : Time → List (String × Session) → Manager → Manager
sweep now [] m = m
sweep now ((_, s) ∷ listed) m =
    if not (is_expired now s)
    then sweep now listed m
    else sweep now listed (delete_session s.id s.owner_key_id m)

unfoldable pub sweep_expired : Time → Manager → Manager
sweep_expired now m = sweep now m.sessions m

-- The settings at run time: a lifetime that is not positive is ignored, a negative cap stands for 0.
unfoldable pub set_ttl : ℤ → Manager → Manager
set_ttl d m = if ltb 0 (pos_part d) then record m { ttl = d } else m

unfoldable pub set_max_sessions_per_key : ℤ → Manager → Manager
set_max_sessions_per_key n m = record m { max_per_key = pos (pos_part n) }
