-- ===== src/Audit.antt =====
-- internal/audit/audit.go: the log of administrative writes. `V` is the type of the values in a
-- snapshot. The lock makes each method one step; a copy of an entry is the entry. A time of 0 is Go's
-- zero time.
pub mod Window
pub mod Listing
mod Examples
use agent_gpu.Prelude.{
  ℕ, ℤ, ◌-◌, pos_part, ltb, ◌==◌, String, str_eq, Bool, true, false, not, ◌&&◌, Option, List, [],
  ◌∷◌, ◌++◌, take, drop, length, if◌then◌else◌,
}
use agent_gpu.Store.{Time}

pub data Outcome : Type 0 where
  success failure : Outcome

unfoldable pub outcome_text : Outcome → String
outcome_text success = "success"
outcome_text failure = "failure"

module _ (V : Type 0) where
  pub record Entry : Type 0 where
    pub time : Time
    pub actor : String
    pub op : String
    pub target : String
    pub before : Option (List (String × V))
    pub after : Option (List (String × V))
    pub request_id : String
    pub outcome : Outcome

  pub record MemoryStore : Type 0 where
    pub entries : List Entry
    pub max : ℤ

pub record Filter : Type 0 where
  pub actor : String
  pub op : String
  pub target : String
  pub since : Time
  pub until : Time

module _ {V : Type 0} where
  unfoldable pub matches : Filter → Entry V → Bool
  matches f e =
      if not (str_eq f.actor "") && not (str_eq e.actor f.actor)
      then false
      else if not (str_eq f.op "") && not (str_eq e.op f.op)
      then false
      else if not (str_eq f.target "") && not (str_eq e.target f.target)
      then false
      else if not (f.since == 0) && ltb e.time f.since
      then false
      else if not (f.until == 0) && not (ltb e.time f.until)
      then false
      else true

  unfoldable pub new_memory_store : ℤ → MemoryStore V
  new_memory_store max = record { entries = []; max = max }

  unfoldable pub stamp : Time → Entry V → Entry V
  stamp now e = if e.time == 0 then record e { time = now } else e

  -- The oldest entries over the cap are dropped, here and in `LoadCheckpoint`.
  unfoldable pub keep_newest : ℤ → List (Entry V) → List (Entry V)
  keep_newest max entries =
      if ltb 0 (pos_part max) && ltb (pos_part max) (length entries)
      then drop (length entries - pos_part max) entries
      else entries

  unfoldable pub append : Entry V → Time → MemoryStore V → MemoryStore V
  append e now m = record m { entries = keep_newest m.max (m.entries ++ stamp now e ∷ []) }

  -- `LoadCheckpoint` from the entries that it has read.
  unfoldable pub load_checkpoint : List (Entry V) → MemoryStore V → MemoryStore V
  load_checkpoint loaded m = record m { entries = keep_newest m.max loaded }

  -- The loop of `List` over the entries.
  unfoldable pub select : Filter → List (Entry V) → List (Entry V)
  select f [] = []
  select f (e ∷ entries) = let rest = select f entries in if matches f e then e ∷ rest else rest

  -- `sort.SliceStable` by `Time.After`.
  insert_newest : Entry V → List (Entry V) → List (Entry V)
  insert_newest e [] = e ∷ []
  insert_newest e (x ∷ xs) =
      let rest = insert_newest e xs in if ltb e.time x.time then x ∷ rest else e ∷ x ∷ xs

  unfoldable pub newest_first : List (Entry V) → List (Entry V)
  unfolding insert_newest
  newest_first [] = []
  newest_first (e ∷ entries) = insert_newest e (newest_first entries)

  unfoldable pub list : Filter → ℤ → MemoryStore V → List (Entry V)
  list f limit m =
      let out = newest_first (select f m.entries) in
      if ltb 0 (pos_part limit) && ltb (pos_part limit) (length out)
      then take (pos_part limit) out
      else out

  unfoldable pub len : MemoryStore V → ℕ
  len m = length m.entries
