-- ===== src/Authz/Roles.antt =====
-- The role table that the permissions editor shows, against the decisions.
use mathlib.Core.Bool.{Bool-set}
use mathlib.Core.List.Perm
use agent_gpu.Prelude.{
  String, ◌≡◌, refl, ◌≢◌, ◌↔◌, Bool, true, false, [], ◌∷◌, arith, Mem, contains, contains→mem,
  mem→contains, All, All-mem, IsSorted, sort_strings-IsSorted, sort_strings-perm, Perm, str_eq,
  if◌then◌else◌,
}
use agent_gpu.Store.{ApiKey}
use agent_gpu.Authz.Ladder.{not-mem}
use agent_gpu.Authz.{
  Action, pull, load, infer, other, op, is_pull_or_load, decide, RoleInfo, all_roles, all_scopes,
  scopes, has_scope, valid_scope,
}

-- The value of a decision for a key with the one role `name`.
abbrev pub granted : RoleInfo → Bool → Action → Bool
granted r listed action =
    if str_eq r.model_scope "all"
    then true
    else if listed
    then contains r.inference_actions (op action)
    else false

module _ (key : ApiKey) (model scope : String) where
  abbrev Agrees : Action → RoleInfo → Type 0
  Agrees action r =
      key.roles ≡ r.name ∷ []
      → contains key.deny_models model ≡ false
      → op action ≢ "unknown"
      → ((decide key model action).allowed ≡ granted r (contains key.allow_models model) action)
        × (has_scope key scope
            ≡ (if r.grants_all_admin_scopes then true else contains key.admin_scopes scope))

  Agrees-prop : (action : Action) (r : RoleInfo) → IsProp (Agrees action r)
  Agrees-prop action r = hlevel Bool-set

  table-Agrees : (action : Action) → All (Agrees action) all_roles
  unfolding all_roles decide contains op is_pull_or_load has_scope
  table-Agrees pull = (λ e d n. ground arith, (λ e d n. ground arith, (λ e d n. ground arith, tt)))
  table-Agrees load = (λ e d n. ground arith, (λ e d n. ground arith, (λ e d n. ground arith, tt)))
  table-Agrees infer = (λ e d n. ground arith, (λ e d n. ground arith, (λ e d n. ground arith, tt)))
  table-Agrees (other k) =
      (λ e d n. absurd (n refl), (λ e d n. absurd (n refl), (λ e d n. absurd (n refl), tt)))

-- For a key that holds one role of the role table and a model that the key does not deny, the
-- decision on a pull, a load or an inference is what the role's row says: everything for the
-- model scope "all", and else the row's actions on allow-listed models. The row's scope flag says
-- whether the key holds every admin scope, beyond those that it lists.
pub all_roles-decide :
    (r : RoleInfo) (key : ApiKey) (model scope : String) (action : Action)
    → Mem r all_roles
    → key.roles ≡ r.name ∷ []
    → ¬ Mem model key.deny_models
    → op action ≢ "unknown"
    → ((decide key model action).allowed ≡ granted r (contains key.allow_models model) action)
      × (has_scope key scope
          ≡ (if r.grants_all_admin_scopes then true else contains key.admin_scopes scope))
all_roles-decide r key model scope action m e d n =
    All-mem (Agrees key model scope action) all_roles r (Agrees-prop key model scope action)
      (table-Agrees key model scope action) m e (not-mem key.deny_models model d) n

all_scopes-perm : Perm all_scopes scopes
unfolding all_scopes
all_scopes-perm = sort_strings-perm scopes

all_scopes-IsSorted : IsSorted all_scopes
unfolding all_scopes
all_scopes-IsSorted = sort_strings-IsSorted scopes

valid_scope-scopes : (s : String) → (valid_scope s ≡ true) ↔ Mem s scopes
unfolding valid_scope
valid_scope-scopes s = (contains→mem scopes s, mem→contains scopes s)

-- The list of admin scopes is sorted, holds the scopes of the set, each as often, and exactly those
-- that `ValidScope` accepts.
pub all_scopes-valid :
    IsSorted all_scopes
    × Perm all_scopes scopes
    × ((s : String) → (valid_scope s ≡ true) ↔ Mem s all_scopes)
all_scopes-valid = (
  all_scopes-IsSorted,
  all_scopes-perm,
  λ s. (
    λ h. (Perm.mem_iff all_scopes-perm).1 ((valid_scope-scopes s).0 h),
    λ m. (valid_scope-scopes s).1 ((Perm.mem_iff all_scopes-perm).0 m),
  ),
)
