-- ===== src/Session/Manager/Slots.antt =====
-- The count of each key's sessions, and its cap.
use agent_gpu.Prelude.{
  ℕ, ◌+◌, ◌-◌, ◌<◌, ◌≤◌, ◌≡◌, refl, ◌∙◌, inl, inr, pos_part, ltb, leb, ◌&&◌, String, str_eq, eq_iff,
  false, Bool-cases, none, some, lookup, insert, remove, lookup-insert, lookup-remove, arith,
  if◌then◌else◌,
}
use agent_gpu.Session.Manager.{Session, Manager, active_count, release_slot, put, delete_session}
use agent_gpu.Session.Manager.Counting.{
  owned_by, IsSessions, insert-IsSessions, remove-IsSessions, owned_by-insert_new,
  owned_by-insert_old, owned_by-remove,
}

-- The counts are those of the stored sessions, and no key has more than the cap.
pub record IsCounted (m : Manager) : Type 0 where
  pub stored : IsSessions m.sessions
  pub counted : (k : String) → active_count k m ≡ owned_by k m.sessions
  pub capped :
      0 < pos_part m.max_per_key → (k : String) → owned_by k m.sessions ≤ pos_part m.max_per_key

pub active_count-insert :
    (owner k : String) (n : ℕ) (m : Manager)
    → active_count k (record m { counts = insert owner n m.counts })
      ≡ (if str_eq owner k then n else active_count k m)
unfolding active_count
active_count-insert owner k n m = elim (Bool-cases (str_eq owner k)) [
  | inl e ↦ rw (lookup-insert owner k n m.counts, e) refl
  | inr e ↦ rw (lookup-insert owner k n m.counts, e) refl
]

active_count-remove :
    (owner k : String) (m : Manager)
    → active_count k (record m { counts = remove owner m.counts })
      ≡ (if str_eq owner k then 0 else active_count k m)
unfolding active_count
active_count-remove owner k m = elim (Bool-cases (str_eq owner k)) [
  | inl e ↦ rw (lookup-remove owner k m.counts, e) refl
  | inr e ↦ rw (lookup-remove owner k m.counts, e) refl
]

release_slot-count :
    (owner k : String) (m : Manager)
    → active_count k (release_slot owner m)
      ≡ (if str_eq owner k then active_count owner m - 1 else active_count k m)
unfolding release_slot
release_slot-count owner k m = elim (Bool-cases (ltb 1 (active_count owner m))) [
  | inl e ↦ rw e (active_count-insert owner k (active_count owner m - 1) m)
  | inr e ↦ rw e (ground (arith, active_count-remove owner k m))
]

pub release_slot-sessions :
    (owner : String) (m : Manager)
    → ((release_slot owner m).sessions ≡ m.sessions)
      × ((release_slot owner m).max_per_key ≡ m.max_per_key)
unfolding release_slot
release_slot-sessions owner m = (ground arith, ground arith)

-- Putting back a session with the owner that it had.
pub put_old-IsCounted :
    (s old : Session) (m : Manager)
    → lookup s.id m.sessions ≡ some old
    → old.owner_key_id ≡ s.owner_key_id
    → IsCounted m
    → IsCounted (put s m)
unfolding put active_count
put_old-IsCounted s old m e o h = record {
  stored = insert-IsSessions s m.sessions h.stored;
  counted = λ k. rw (owned_by-insert_old k s old m.sessions e o) (h.counted k);
  capped = λ p k. rw (owned_by-insert_old k s old m.sessions e o) (h.capped p k);
}

-- The slot of a session that is gone is given back.
pub release_slot-IsCounted :
    (owner : String) (m : Manager)
    → IsSessions m.sessions
    → ((k : String) → active_count k m ≡ owned_by k m.sessions + (if str_eq owner k then 1 else 0))
    → (0 < pos_part m.max_per_key → (k : String) → owned_by k m.sessions ≤ pos_part m.max_per_key)
    → IsCounted (release_slot owner m)
release_slot-IsCounted owner m i c p =
    let (a, b) = release_slot-sessions owner m in
    record {
      stored = rw a i;
      counted = λ k. rw a (
          ground (
            arith,
            release_slot-count owner k m,
            c k,
            c owner,
            eq_iff owner k,
            eq_iff owner owner,
          ));
      capped = rw (a, b) p;
    }

pub delete_session-IsCounted :
    (id : String) (s : Session) (m : Manager)
    → lookup id m.sessions ≡ some s
    → IsCounted m
    → IsCounted (delete_session id s.owner_key_id m)
unfolding active_count delete_session
delete_session-IsCounted id s m e h =
    rw (e, delete_session)
      (release_slot-IsCounted s.owner_key_id _ (remove-IsSessions id m.sessions h.stored)
        (λ k. h.counted k ∙ owned_by-remove k id s m.sessions h.stored e)
        (λ p k. omega (arith, h.capped p k, owned_by-remove k id s m.sessions h.stored e)))

-- The slot is taken, and a new session stored.
pub create_new-IsCounted :
    (s : Session) (m : Manager)
    → lookup s.id m.sessions ≡ none
    → (ltb 0 (pos_part m.max_per_key)
        && leb (pos_part m.max_per_key) (active_count s.owner_key_id m))
      ≡ false
    → IsCounted m
    → IsCounted (
        put s (record m {
          counts = insert s.owner_key_id (active_count s.owner_key_id m + 1) m.counts;
        }))
unfolding put active_count
create_new-IsCounted s m new slot h =
    let n = active_count s.owner_key_id m in
    record {
      stored = insert-IsSessions s m.sessions h.stored;
      counted = λ k.
          let c : active_count k (record m { counts = insert s.owner_key_id (n + 1) m.counts })
              ≡ (if str_eq s.owner_key_id k then n + 1 else active_count k m) =
            active_count-insert s.owner_key_id k (n + 1) m in
          ground (
            arith,
            c,
            owned_by-insert_new k s m.sessions new,
            h.counted k,
            h.counted s.owner_key_id,
            eq_iff s.owner_key_id k,
          );
      capped = λ p k. ground (
        arith,
        owned_by-insert_new k s m.sessions new,
        h.capped p k,
        h.counted k,
        h.counted s.owner_key_id,
        eq_iff s.owner_key_id k,
      );
    }
