-- ===== src/Session/Caps.antt =====
-- What an append does to the history of its session, and what it refuses.
use agent_gpu.Prelude.{
  ◌∙◌, ◌<◌, ◌≤◌, ◌≡◌, ◌≢◌, refl, ◌⊎◌, inl, inr, String, str_eq, eq_iff, true, false, ◌&&◌,
  if◌then◌else◌, Bool-cases, none, some, List, ◌++◌, length, insert, lookup-insert, arith, ◌==◌,
}
use agent_gpu.Types.{Message}
use agent_gpu.Session.{
  HistoryStore, session_limit_exceeded, is_reject, history_of, exceeds_cap, trim, append_batch,
  would_reject,
}
use agent_gpu.Session.Trim.{IsLeft, trim-IsLeft, trim-bound, trim_keep}

-- The batch was stored: of the old turns and the new ones the oldest may be gone, and what is left
-- is within every cap or is one turn. Nothing is gone if all fit, nor under the policy that rejects.
-- No other session has changed.
pub record IsStored (id : String) (turns : List Message) (m after : HistoryStore) : Type 0 where
  pub left : IsLeft (history_of id after) (history_of id m ++ turns)
  pub within : (exceeds_cap m (history_of id after) ≡ false) ⊎ (length (history_of id after) ≤ 1)
  pub kept :
      exceeds_cap m (history_of id m ++ turns) ≡ false
      → history_of id after ≡ history_of id m ++ turns
  pub whole : is_reject m.policy ≡ true → history_of id after ≡ history_of id m ++ turns
  pub others : (other : String) → other ≢ id → history_of other after ≡ history_of other m

history_of-insert :
    (id other : String) (turns : List Message) (m : HistoryStore)
    → history_of other (record m { history = insert id turns m.history })
      ≡ (if str_eq id other then turns else history_of other m)
unfolding history_of
history_of-insert id other turns m = elim (Bool-cases (str_eq id other)) [
  | inl e ↦ rw (lookup-insert id other turns m.history, e) refl
  | inr e ↦ rw (lookup-insert id other turns m.history, e) refl
]

store-IsStored :
    (id : String) (turns : List Message) (m : HistoryStore)
    → (is_reject m.policy && exceeds_cap m (history_of id m ++ turns)) ≡ false
    → IsStored id turns m
        (record m { history = insert id (trim m (history_of id m ++ turns)) m.history })
store-IsStored id turns m fits =
    let all = history_of id m ++ turns in
    let after = record m { history = insert id (trim m all) m.history } in
    let self : str_eq id id ≡ true = (eq_iff id id).1 refl in
    let now : history_of id after ≡ trim m all =
      history_of-insert id id (trim m all) m ∙ rw self refl in
    record {
      left = rw now (trim-IsLeft m all);
      within = rw now (trim-bound m all);
      kept = λ h. now ∙ trim_keep m all h;
      whole = λ r. now ∙ trim_keep m all (ground arith);
      others = λ other apart.
          let other_key : str_eq id other ≡ false = ground (arith, eq_iff id other) in
          history_of-insert id other (trim m all) m ∙ rw other_key refl;
    }

-- `WouldReject` tells what `AppendBatch` does with a batch that has a turn. If it would be rejected,
-- the store is left as it was. Otherwise it is stored: the session then has the newest of its old turns
-- followed by the new ones, within every cap or down to one turn, which stays even if it alone is above
-- a cap; it has all of them if all fit, or under the policy that rejects; and no other session changes.
pub append_batch-IsStored :
    (id : String) (turns : List Message) (m : HistoryStore)
    → 0 < length turns
    → ((would_reject id turns m ≡ true)
        × (append_batch id turns m ≡ (m, some session_limit_exceeded)))
      ⊎ ((would_reject id turns m ≡ false)
          × ((append_batch id turns m).1 ≡ none)
          × IsStored id turns m (append_batch id turns m).0)
unfolding would_reject append_batch
append_batch-IsStored id turns m h =
    let some_turns : (length turns == 0) ≡ false = ground arith in
    elim (Bool-cases (is_reject m.policy && exceeds_cap m (history_of id m ++ turns))) [
      | inl e ↦ inl (ground arith, rw (some_turns, e) refl)
      | inr e ↦
          inr (
            ground arith,
            rw (some_turns, e) refl,
            rw (some_turns, e) (store-IsStored id turns m e),
          )
    ]
