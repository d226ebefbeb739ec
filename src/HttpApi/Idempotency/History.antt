-- ===== src/HttpApi/Idempotency/History.antt =====
-- Requests one after the other, and what was answered to each.
use agent_gpu.Prelude.{String, List, [], ◌∷◌}
use agent_gpu.HttpApi.Idempotency.{Cache, Request, Reply, idempotent}
use agent_gpu.HttpApi.Idempotency.Response.{Action}

-- The cache, the state of the handler, and the answers, the last one first.
pub record Served (S : Type 0) : Type 0 where
  pub cache : Cache
  pub app : S
  pub past : List (Request × Reply)

abbrev pub serve_next :
    {S : Type 0} (serve : Request → S → S × (List Action × String)) → Request → Served S → Served S
serve_next serve r st =
    let ((c, s), reply) = idempotent serve r st.cache st.app in
    record { cache = c; app = s; past = (r, reply) ∷ st.past }

unfoldable pub run :
    {S : Type 0} (serve : Request → S → S × (List Action × String))
    → List Request
    → Served S
    → Served S
run serve [] st = st
run serve (r ∷ rs) st = run serve rs (serve_next serve r st)
