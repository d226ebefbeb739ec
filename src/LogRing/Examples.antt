-- ===== src/LogRing/Examples.antt =====
-- Three records in a ring of two.
use agent_gpu.Prelude.{pos, ◌≡◌, refl, String, List, [], ◌∷◌}
use agent_gpu.LogRing.{
  new_log_ring, append, blank, set_at, get_at, collect, snapshot_locked, snapshot_count,
}
use agent_gpu.LogRing.Newest.{append_all, snapshot_count-append_all}

abbrev three : List String
three = "boot" ∷ "job" ∷ "done" ∷ []

snapshot_count-append_all_example :
    snapshot_count "" (append_all three (new_log_ring "" (pos 2))) ≡ ("job" ∷ "done" ∷ [], 3)
snapshot_count-append_all_example = snapshot_count-append_all "" (pos 2) three

ring_runs :
    snapshot_count "" (append_all three (new_log_ring "" (pos 2))) ≡ ("job" ∷ "done" ∷ [], 3)
unfolding snapshot_count append_all new_log_ring append blank set_at get_at collect snapshot_locked
ring_runs = refl
