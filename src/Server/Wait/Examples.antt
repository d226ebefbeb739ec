-- ===== src/Server/Wait/Examples.antt =====
-- Three waits.
use agent_gpu.Prelude.{pos, negsuc, ◌≡◌, refl, [], ◌∷◌}
use agent_gpu.Server.Wait.{no_waits, record_wait, record_all}

-- 20 seconds, a clock that went back, and 50 milliseconds.
three :
    record_all (pos 20000000000 ∷ negsuc 5 ∷ pos 50000000 ∷ [])
    ≡ record { count = 3; sum_ms = 20050; max_ms = 20000; buckets = 1 ∷ 2 ∷ 2 ∷ 2 ∷ [] }
unfolding record_all record_wait no_waits
three = refl
