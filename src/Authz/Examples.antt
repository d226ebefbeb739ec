-- ===== src/Authz/Examples.antt =====
-- A user key at two models, and its row of the role table.
use mathlib.Core.List.{mem-cons_self, mem-cons_of_mem}
use agent_gpu.Prelude.{◌≡◌, refl, ◌↔◌, false, none, some, [], ◌∷◌, Mem, contains, mem→contains}
use agent_gpu.Store.Examples.{app_key}
use agent_gpu.Authz.{RoleInfo, decide, infer, op, all_roles, authorize, forbidden, role_user}
use agent_gpu.Authz.Ladder.{IsPermitted, authorize-IsPermitted}

decide_user : (decide app_key "llama3" infer).reason ≡ "model in allow-list (role user)"
unfolding decide contains
decide_user = refl

-- A denied model stays denied although it is allow-listed.
decide_denied : (decide app_key "qwen2" infer).reason ≡ "model in deny-list"
unfolding decide contains
decide_denied = refl

authorize-IsPermitted_example :
    (((authorize app_key "llama3" infer).0 ≡ none) ↔ IsPermitted app_key "llama3" infer)
    × (((authorize app_key "llama3" infer).0 ≡ some forbidden)
        ↔ (¬ IsPermitted app_key "llama3" infer))
authorize-IsPermitted_example = authorize-IsPermitted app_key "llama3" infer

abbrev user_row : RoleInfo
user_row = record {
  name = role_user;
  description = "Pull, load, and infer, but only on allow-listed models (deny-list wins).";
  inference_actions = "pull" ∷ "load" ∷ "infer" ∷ [];
  model_scope = "allow-listed";
  grants_all_admin_scopes = false;
}

user_row-mem : Mem user_row all_roles
unfolding all_roles op
user_row-mem = mem-cons_of_mem _ mem-cons_self

denied_not-mem : ¬ Mem "llama3" app_key.deny_models
unfolding contains
denied_not-mem m = cc (mem→contains app_key.deny_models "llama3" m)
