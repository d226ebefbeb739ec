-- ===== src/Session/Manager/Cap.antt =====
-- Every call keeps the counts and the cap of the session manager.
use agent_gpu.Prelude.{
  ◌⊎◌, ℕ, ℤ, ◌<◌, ◌≤◌, ◌+◌, ◌≡◌, refl, ap, ◌∙◌, inl, inr, pos_part, ltb, leb, ◌&&◌, String,
  str_append, hex, str_eq, eq_iff, Bool-cases, Option-cases, Option, none, some, List, [], ◌∷◌,
  lookup, arith,
}
use agent_gpu.Store.{Time}
use agent_gpu.Types.{Message}
use agent_gpu.Session.{Error, HistoryStore, session_not_found, append, append_batch}
use agent_gpu.Session.Manager.{
  active, after_append, is_expired, Session, Manager, answer, refused, active_count, reserve_slot,
  new_session, create, owned_active, resume, bind, append_turn, append_turns, delete, sweep_expired,
  set_ttl, set_max_sessions_per_key,
}
use agent_gpu.Session.Manager.Counting.{owned_by, IsSessions}
use agent_gpu.Session.Manager.Sweep.{sweep_expired-IsCounted}
use agent_gpu.Session.Manager.Slots.{
  IsCounted, put_old-IsCounted, release_slot-IsCounted, create_new-IsCounted, active_count-insert,
  delete_session-IsCounted,
}

lookup-id :
    (id : String) (s : Session) (m : List (String × Session))
    → IsSessions m
    → lookup id m ≡ some s
    → s.id ≡ id
unfolding lookup
lookup-id id s [] i e = cc
lookup-id id s ((j, w) ∷ m) i e = ground (arith, lookup-id id s m i.2, eq_iff j id)

owned_active-lookup :
    (id owner : String) (now : Time) (m : Manager)
    → ((e : Error) × (owned_active id owner now m ≡ refused e))
      ⊎ ((s : Session) × (owned_active id owner now m ≡ answer s) × (lookup id m.sessions ≡ some s))
unfolding owned_active
owned_active-lookup id owner now m = elim (Option-cases (lookup id m.sessions)) [
  | inl n ↦ inl (session_not_found, rw n refl)
  | inr (s, e) ↦ elim (Bool-cases (str_eq s.owner_key_id owner)) [
    | inr no_owner ↦ inl (session_not_found, rw (e, no_owner) refl)
    | inl own ↦ elim (Bool-cases (is_expired now s)) [
      | inl over ↦ inl (session_not_found, rw (e, own, over) refl)
      | inr on ↦ inr (s, rw (e, own, on) refl, e)
    ]
  ]
]

create-IsCounted :
    (owner model : String) (now : Time) (entropy : Option (List ℕ)) (m : Manager)
    → ((bytes : List ℕ)
        → entropy ≡ some bytes
        → lookup (str_append "sess_" (hex bytes)) m.sessions ≡ none)
    → IsCounted m
    → IsCounted (create owner model now entropy m).0
unfolding create reserve_slot new_session
create-IsCounted owner model now entropy m fresh h = elim (Bool-cases (str_eq owner "")) [
  | inl e ↦ rw e h
  | inr e ↦
      elim (Bool-cases
        (ltb 0 (pos_part m.max_per_key) && leb (pos_part m.max_per_key) (active_count owner m))) [
          | inl full ↦ rw (e, full) h
          | inr slot ↦ elim (Option-cases entropy) [
            | inl n ↦
                rw (e, slot, n)
                  (release_slot-IsCounted owner _ h.stored
                    (λ k. ground (
                      arith,
                      active_count-insert owner k (active_count owner m + 1) m,
                      h.counted k,
                      h.counted owner,
                      eq_iff owner k,
                    ))
                    h.capped)
            | inr (bytes, b) ↦
                rw (e, slot, b)
                  (create_new-IsCounted
                    (new_session (str_append "sess_" (hex bytes)) owner model now m) m
                    (fresh bytes b) slot h)
          ]
        ]
]

after_append-IsCounted :
    (s : Session) (now : Time) (m : Manager) (r : HistoryStore × Option Error)
    → lookup s.id m.sessions ≡ some s
    → IsCounted m
    → IsCounted (after_append s now m r).0
unfolding active_count
after_append-IsCounted s now m (g, some e) there h = record {
  stored = h.stored;
  counted = h.counted;
  capped = h.capped;
}
after_append-IsCounted s now m (g, none) there h =
    put_old-IsCounted (record s { last_active_at = now }) s (record m { history = g }) there refl
      (record { stored = h.stored; counted = h.counted; capped = h.capped })

resume-IsCounted :
    (id owner worker : String) (turn : Message) (turns : List Message) (now : Time) (m : Manager)
    → IsCounted m
    → IsCounted (resume id owner now m).0
      × IsCounted (bind id owner worker now m).0
      × IsCounted (append_turn id owner turn now m).0
      × IsCounted (append_turns id owner turns now m).0
unfolding resume bind append_turn append_turns
resume-IsCounted id owner worker turn turns now m h = elim (owned_active-lookup id owner now m) [
  | inl (e, r) ↦ (rw r h, rw r h, rw r h, rw r h)
  | inr (s, a, found) ↦
      let same = lookup-id id s m.sessions h.stored found in
      let there : lookup s.id m.sessions ≡ some s = ap (λ i. lookup i m.sessions) same ∙ found in
      (
        rw a (
            put_old-IsCounted (record s { last_active_at = now; status = active }) s m there refl
              h),
        rw a (
            put_old-IsCounted (record s { bound_worker_id = worker; last_active_at = now }) s m
              there refl h),
        rw a (after_append-IsCounted s now m (append id turn m.history) there h),
        rw a (after_append-IsCounted s now m (append_batch id turns m.history) there h),
      )
]

delete-IsCounted : (id owner : String) (m : Manager) → IsCounted m → IsCounted (delete id owner m).0
unfolding delete
delete-IsCounted id owner m h = elim (Option-cases (lookup id m.sessions)) [
  | inl n ↦ rw n h
  | inr (s, e) ↦ elim (Bool-cases (str_eq s.owner_key_id owner)) [
    | inl own ↦ rw (e, own) (delete_session-IsCounted id s m e h)
    | inr other ↦ rw (e, other) h
  ]
]

-- No key has more sessions than a cap, where 0 stands for none.
abbrev pub Fits : ℤ → Manager → Type 0
Fits n m = 0 < pos_part n → (k : String) → owned_by k m.sessions ≤ pos_part n

set_max-IsCounted :
    (n : ℤ) (m : Manager) → Fits n m → IsCounted m → IsCounted (set_max_sessions_per_key n m)
unfolding set_max_sessions_per_key active_count
set_max-IsCounted n m fits h = record { stored = h.stored; counted = h.counted; capped = fits }

set_ttl-IsCounted : (d : ℤ) (m : Manager) → IsCounted m → IsCounted (set_ttl d m)
unfolding set_ttl active_count
set_ttl-IsCounted d m h = elim (Bool-cases (ltb 0 (pos_part d))) [
  | inl e ↦ rw e (record { stored = h.stored; counted = h.counted; capped = h.capped })
  | inr e ↦ rw e h
]

-- Each call that changes the manager, taken alone, keeps the count of each key equal to the number of
-- its stored sessions, and within the cap, whether it succeeds or fails: a new session, a resumed, a
-- bound and a deleted one, new turns, a sweep, and a new lifetime or cap. The id that a new session
-- gets must not be in use, and a new cap must not be below what a key already has, which
-- SetMaxSessionsPerKey does not look at.
pub operations-IsCounted :
    (id owner worker model : String) (turn : Message) (turns : List Message) (now : Time)
    (entropy : Option (List ℕ)) (ttl cap : ℤ) (m : Manager)
    → ((bytes : List ℕ)
        → entropy ≡ some bytes
        → lookup (str_append "sess_" (hex bytes)) m.sessions ≡ none)
    → Fits cap m
    → IsCounted m
    → IsCounted (create owner model now entropy m).0
      × IsCounted (resume id owner now m).0
      × IsCounted (bind id owner worker now m).0
      × IsCounted (append_turn id owner turn now m).0
      × IsCounted (append_turns id owner turns now m).0
      × IsCounted (delete id owner m).0
      × IsCounted (sweep_expired now m)
      × IsCounted (set_ttl ttl m)
      × IsCounted (set_max_sessions_per_key cap m)
operations-IsCounted id owner worker model turn turns now entropy ttl cap m fresh fits h =
    let (r, b, one, t) = resume-IsCounted id owner worker turn turns now m h in
    (
      create-IsCounted owner model now entropy m fresh h,
      r,
      b,
      one,
      t,
      delete-IsCounted id owner m h,
      sweep_expired-IsCounted now m h,
      set_ttl-IsCounted ttl m h,
      set_max-IsCounted cap m fits h,
    )
