-- ===== src/Authz.antt =====
-- internal/authz/authz.go: roles, admin scopes and the decision ladder of the authorizer.
pub mod Ladder
pub mod Roles
mod Examples
use agent_gpu.Prelude.{
  ℕ, String, ◌≡◌, Bool, true, false, ◌&&◌, ◌||◌, Option, none, some, List, [], ◌∷◌, map, str_eq,
  if◌then◌else◌, str_append, contains, sort_strings,
}
use agent_gpu.Store.{ApiKey}

-- An `Action` is an int; `other` stands for the values that have no name.
pub data Action : Type 0 where
  pull load infer : Action
  other : ℕ → Action

unfoldable pub op : Action → String
op pull = "pull"
op load = "load"
op infer = "infer"
op (other _) = "unknown"

-- `action == Pull || action == Load`
unfoldable pub is_pull_or_load : Action → Bool
is_pull_or_load pull = true
is_pull_or_load load = true
is_pull_or_load infer = false
is_pull_or_load (other _) = false

abbrev pub role_admin : String
role_admin = "admin"

abbrev pub role_user : String
role_user = "user"

abbrev pub role_read_only : String
role_read_only = "read-only"

-- The set `allScopes`, in the order of its literal.
abbrev pub scopes : List String
scopes =
    "config:read" ∷ "config:write" ∷ "workers:read" ∷ "workers:write" ∷ "models:read"
    ∷ "models:write" ∷ "keys:read" ∷ "keys:write" ∷ "logs:read" ∷ "logs:write" ∷ "telemetry:read"
    ∷ "telemetry:write" ∷ "audit:read" ∷ "audit:write" ∷ []

unfoldable pub valid_scope : String → Bool
unfolding contains
valid_scope scope = contains scopes scope

-- A map is walked in any order, and the sort removes the choice.
unfoldable pub all_scopes : List String
unfolding sort_strings
all_scopes = sort_strings scopes

unfoldable pub has_scope : ApiKey → String → Bool
has_scope key scope =
    if contains key.roles role_admin then true else contains key.admin_scopes scope

abbrev pub model_scope_all : String
model_scope_all = "all"

abbrev pub model_scope_allow_listed : String
model_scope_allow_listed = "allow-listed"

pub record RoleInfo : Type 0 where
  pub name : String
  pub description : String
  pub inference_actions : List String
  pub model_scope : String
  pub grants_all_admin_scopes : Bool

unfoldable pub all_roles : List RoleInfo
unfolding op
all_roles =
    record {
      name = role_admin;
      description =
          "Superuser: every inference action on every model (ignoring allow/deny) and every admin scope.";
      inference_actions = op pull ∷ op load ∷ op infer ∷ [];
      model_scope = model_scope_all;
      grants_all_admin_scopes = true;
    }
    ∷ record {
      name = role_user;
      description = "Pull, load, and infer, but only on allow-listed models (deny-list wins).";
      inference_actions = op pull ∷ op load ∷ op infer ∷ [];
      model_scope = model_scope_allow_listed;
      grants_all_admin_scopes = false;
    }
    ∷ record {
      name = role_read_only;
      description = "Infer only (never pull or load), on allow-listed models (deny-list wins).";
      inference_actions = op infer ∷ [];
      model_scope = model_scope_allow_listed;
      grants_all_admin_scopes = false;
    }
    ∷ []

any_named : List RoleInfo → String → Bool
any_named [] name = false
any_named (r ∷ rs) name = if str_eq r.name name then true else any_named rs name

unfoldable pub valid_role : String → Bool
unfolding any_named all_roles
valid_role name = any_named all_roles name

pub record Decision : Type 0 where
  pub role : String
  pub reason : String
  pub allowed : Bool

-- The `switch` of step 4.
allow_listed : ApiKey → Decision
allow_listed key =
    if contains key.roles role_user
    then record { role = role_user; reason = "model in allow-list (role user)"; allowed = true }
    else if contains key.roles role_read_only
    then record {
      role = role_read_only;
      reason = "model in allow-list (role read-only)";
      allowed = true;
    }
    else record { role = ""; reason = "model in allow-list but no granting role"; allowed = false }

-- The precedence ladder; the first rule that fires decides.
unfoldable pub decide : ApiKey → String → Action → Decision
unfolding allow_listed is_pull_or_load op
decide key model action =
    if contains key.deny_models model
    then record { role = ""; reason = "model in deny-list"; allowed = false }
    else if contains key.roles role_admin
    then record { role = role_admin; reason = "role admin"; allowed = true }
    else if contains key.roles role_read_only && is_pull_or_load action
    then record {
      role = role_read_only;
      reason = str_append "role read-only forbids " (op action);
      allowed = false;
    }
    else if contains key.allow_models model
    then allow_listed key
    else record { role = ""; reason = "deny by default"; allowed = false }

pub data Level : Type 0 where
  debug info warn error : Level

-- One record of the audit log.
pub record AuditEntry : Type 0 where
  pub level : Level
  pub result : String
  pub key_id : String
  pub model : String
  pub op : String
  pub reason : String
  pub role : Option String

pub data Error : Type 0 where
  forbidden : Error

unfoldable pub audit : Level → String → String → String → Action → String → String → AuditEntry
audit level result key_id model action reason role = record {
  level = level;
  result = result;
  key_id = key_id;
  model = model;
  op = op action;
  reason = reason;
  role = if str_eq role "" then none else some role;
}

-- The error, `none` for nil, and the entry that is logged.
unfoldable pub authorize : ApiKey → String → Action → Option Error × AuditEntry
unfolding audit
authorize key model action =
    let d = decide key model action in
    if d.allowed
    then (none, audit info "granted" key.id model action d.reason d.role)
    else (some forbidden, audit warn "denied" key.id model action d.reason d.role)
