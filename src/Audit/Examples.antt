-- ===== src/Audit/Examples.antt =====
-- Three entries in a log of two.
use agent_gpu.Prelude.{pos, ◌≡◌, refl, arith, take, String, none, List, [], ◌∷◌, last_of, Perm}
use agent_gpu.Store.{Time}
use agent_gpu.Audit.{
  success, Entry, Filter, MemoryStore, matches, new_memory_store, keep_newest, append, stamp,
  select, insert_newest, newest_first, list,
}
use agent_gpu.Audit.Window.{append_all, stamped, append_all-last_of}
use agent_gpu.Audit.Listing.{IsNewestFirst, at_time, list-newest}

abbrev entry : Time → String → Entry String
entry t op = record {
  time = t;
  actor = "k1";
  op = op;
  target = "k2";
  before = none;
  after = none;
  request_id = "r";
  outcome = success;
}

abbrev calls : List (Entry String × Time)
calls = (entry 5 "key.create", 5) ∷ (entry 0 "key.revoke", 7) ∷ (entry 9 "key.rotate", 9) ∷ []

abbrev log : MemoryStore String
log = append_all calls (new_memory_store (pos 2))

abbrev every : Filter
every = record { actor = "k1"; op = ""; target = ""; since = 0; until = 0 }

newest : list every (pos 1) log ≡ entry 9 "key.rotate" ∷ []
unfolding list append_all new_memory_store append keep_newest stamp select matches newest_first
    insert_newest
newest = refl

append_all-last_of_example : log.entries ≡ last_of 2 (stamped calls)
append_all-last_of_example = append_all-last_of (pos 2) calls (omega arith)

list-newest_example :
    (found : List (Entry String)) × (list every (pos 1) log ≡ take 1 found)
    × Perm found (select every log.entries)
    × IsNewestFirst found
    × ((t : Time) → at_time t found ≡ at_time t (select every log.entries))
list-newest_example = list-newest every (pos 1) log
