-- ===== src/Session/Examples.antt =====
-- A session with a cap of two turns.
use agent_gpu.Prelude.{
  pos, String, ◌≡◌, refl, ◌⊎◌, true, false, some, none, List, [], ◌∷◌, arith, lookup, insert,
}
use agent_gpu.Types.{Message}
use agent_gpu.Session.{
  HistoryStore, session_limit_exceeded, overflow_trim, append_batch, would_reject, history_of, trim,
  trim_turns, trim_cost, exceeds_cap,
}
use agent_gpu.Session.Caps.{IsStored, append_batch-IsStored}

abbrev turn : String → String → Message
turn role content = record {
  role = role;
  content = content;
  tool_call_id = "";
  name = "";
  tool_calls = [];
}

abbrev store : HistoryStore
store = record {
  max_turns = pos 2;
  max_bytes = pos 0;
  max_tokens = pos 0;
  policy = overflow_trim;
  history = ("s1", turn "user" "hi" ∷ []) ∷ [];
}

abbrev reply : List Message
reply = turn "assistant" "hello" ∷ turn "user" "bye" ∷ []

append_batch-IsStored_example :
    ((would_reject "s1" reply store ≡ true)
      × (append_batch "s1" reply store ≡ (store, some session_limit_exceeded)))
    ⊎ ((would_reject "s1" reply store ≡ false)
        × ((append_batch "s1" reply store).1 ≡ none)
        × IsStored "s1" reply store (append_batch "s1" reply store).0)
append_batch-IsStored_example = append_batch-IsStored "s1" reply store (omega arith)

oldest_gone : history_of "s1" (append_batch "s1" reply store).0 ≡ reply
unfolding append_batch history_of trim trim_turns trim_cost exceeds_cap lookup insert
oldest_gone = refl
