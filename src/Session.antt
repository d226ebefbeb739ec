-- ===== src/Session.antt =====
-- The conversation history of internal/session/store.go: its caps on turns, bytes and tokens. A lock
-- makes each method one step; a value is copied on the way in and out, so that nothing is shared.
pub mod Trim
pub mod Caps
pub mod Manager
mod Examples
use Prim.Native.Char.{code}
use Prim.Native.String
use agent_gpu.Prelude.{
  ℕ, ℤ, suc, ◌+◌, ◌-◌, pos_part, ltb, leb, ◌==◌, String, bytes, Bool, true, false, not, ◌&&◌, ◌||◌,
  if◌then◌else◌, Option, none, some, List, [], ◌∷◌, ◌++◌, length, drop, lookup, insert, remove,
}
use agent_gpu.Types.{Message, ToolCall}

pub data OverflowPolicy : Type 0 where
  overflow_trim overflow_reject : OverflowPolicy

unfoldable pub policy_text : OverflowPolicy → String
policy_text overflow_reject = "reject"
policy_text overflow_trim = "trim"

abbrev pub is_reject : OverflowPolicy → Bool
is_reject overflow_trim = false
is_reject overflow_reject = true

-- `unicode.IsSpace`
is_space : ℕ → Bool
is_space c =
    leb 9 c && leb c 13
    || c == 32
    || c == 133
    || c == 160
    || c == 5760
    || leb 8192 c && leb c 8202
    || c == 8232
    || c == 8233
    || c == 8239
    || c == 8287
    || c == 12288

-- `len(strings.Fields(s))`, after a character of a field or not.
unfoldable pub fields : Bool → String → ℕ
unfolding is_space
fields inside String.[] = 0
fields inside (String.◌∷◌ c s) =
    let after_space = fields false s in
    let in_field = fields true s in
    if is_space (code c) then after_space else if inside then in_field else suc in_field

-- `len(s)`
byte_length : String → ℕ
byte_length s = length (bytes s)

calls_bytes : List ToolCall → ℕ
unfolding byte_length
calls_bytes [] = 0
calls_bytes (c ∷ cs) =
    byte_length c.id
    + byte_length c.kind
    + byte_length c.function_name
    + byte_length c.arguments
    + calls_bytes cs

unfoldable pub turn_bytes : Message → ℕ
unfolding byte_length calls_bytes
turn_bytes m =
    byte_length m.role
    + byte_length m.content
    + byte_length m.tool_call_id
    + byte_length m.name
    + calls_bytes m.tool_calls

calls_tokens : List ToolCall → ℕ
calls_tokens [] = 0
calls_tokens (c ∷ cs) = fields false c.function_name + fields false c.arguments + calls_tokens cs

unfoldable pub turn_tokens : Message → ℕ
unfolding calls_tokens
turn_tokens m = fields false m.content + fields false m.name + calls_tokens m.tool_calls

pub record HistoryStore : Type 0 where
  pub max_turns : ℤ
  pub max_bytes : ℤ
  pub max_tokens : ℤ
  pub policy : OverflowPolicy
  pub history : List (String × List Message)

pub data Error : Type 0 where
  session_limit_exceeded session_not_found empty_owner no_entropy : Error

unfoldable pub new_with_policy : ℤ → ℤ → ℤ → OverflowPolicy → HistoryStore
new_with_policy turns bytes tokens policy = record {
  max_turns = turns;
  max_bytes = bytes;
  max_tokens = tokens;
  policy = policy;
  history = [];
}

unfoldable pub set_caps : ℤ → ℤ → ℤ → OverflowPolicy → HistoryStore → HistoryStore
set_caps turns bytes tokens policy m = record m {
  max_turns = turns;
  max_bytes = bytes;
  max_tokens = tokens;
  policy = policy;
}

-- `m.history[id]`, no turns where there is no entry.
abbrev or_empty : Option (List Message) → List Message
or_empty none = []
or_empty (some turns) = turns

unfoldable pub history_of : String → HistoryStore → List Message
history_of id m = or_empty (lookup id m.history)

unfoldable pub total : (Message → ℕ) → List Message → ℕ
total cost [] = 0
total cost (t ∷ ts) = cost t + total cost ts

-- A cap of 0 or less does not bind.
abbrev pub over : ℤ → ℕ → Bool
over cap n = ltb 0 (pos_part cap) && ltb (pos_part cap) n

unfoldable pub exceeds_cap : HistoryStore → List Message → Bool
exceeds_cap m turns =
    if over m.max_turns (length turns)
    then true
    else if over m.max_bytes (total turn_bytes turns)
    then true
    else over m.max_tokens (total turn_tokens turns)

-- The loop that drops the oldest turns while the sum is above the cap and more than one is left.
unfoldable pub trim_loop : (Message → ℕ) → ℕ → ℕ → List Message → List Message
trim_loop cost cap sum [] = []
trim_loop cost cap sum (t ∷ ts) =
    let later = trim_loop cost cap (sum - cost t) ts in
    if ltb cap sum && ltb 1 (length (t ∷ ts)) then later else t ∷ ts

unfoldable pub trim_cost : (Message → ℕ) → ℤ → List Message → List Message
trim_cost cost cap turns =
    if ltb 0 (pos_part cap) then trim_loop cost (pos_part cap) (total cost turns) turns else turns

unfoldable pub trim_turns : ℤ → List Message → List Message
trim_turns cap turns =
    if over cap (length turns) then drop (length turns - pos_part cap) turns else turns

unfoldable pub trim : HistoryStore → List Message → List Message
trim m turns =
    trim_cost turn_tokens m.max_tokens
      (trim_cost turn_bytes m.max_bytes (trim_turns m.max_turns turns))

unfoldable pub append_batch : String → List Message → HistoryStore → HistoryStore × Option Error
append_batch id turns m =
    if length turns == 0
    then (m, none)
    else if is_reject m.policy && exceeds_cap m (history_of id m ++ turns)
    then (m, some session_limit_exceeded)
    else (record m { history = insert id (trim m (history_of id m ++ turns)) m.history }, none)

unfoldable pub append : String → Message → HistoryStore → HistoryStore × Option Error
append id turn m =
    if is_reject m.policy && exceeds_cap m (history_of id m ++ turn ∷ [])
    then (m, some session_limit_exceeded)
    else (record m { history = insert id (trim m (history_of id m ++ turn ∷ [])) m.history }, none)

unfoldable pub would_reject : String → List Message → HistoryStore → Bool
would_reject id turns m =
    if not (is_reject m.policy) || length turns == 0
    then false
    else exceeds_cap m (history_of id m ++ turns)

unfoldable pub get : String → HistoryStore → List Message
get id m = history_of id m

unfoldable pub delete_by_session : String → HistoryStore → HistoryStore
delete_by_session id m = record m { history = remove id m.history }
