-- ===== src/Server/Control.antt =====
-- The settings that change at run time, and the models that a worker is told to load or to unload, of
-- internal/server/server.go. A send to a worker waits for its writer: `sends` says whether that came
-- before the end of the caller's context.
pub mod Gate
use agent_gpu.Prelude.{
  ℤ, pos_part, ltb, String, str_eq, Bool, ◌||◌, Option, none, some, List, ◌∷◌, lookup,
  if◌then◌else◌,
}
use agent_gpu.Store.{ApiKey}
use agent_gpu.Authz
use agent_gpu.Authz.{authorize, Action, pull}
use agent_gpu.Server.Fleet.{Handle, Registry}
use agent_gpu.Server.Affinity.{Affinity}

-- A duration that is not positive is refused.
unfoldable pub set_heartbeat_timeout : ℤ → Registry → Registry
set_heartbeat_timeout d r =
    if ltb 0 (pos_part d) then record r { heartbeat_timeout = pos_part d } else r

unfoldable pub set_model_warm_max : ℤ → Affinity → Affinity
set_model_warm_max d a = if ltb 0 (pos_part d) then record a { model_warm_max = d } else a

pub data Command : Type 0 where
  pull_command unload_command : String → Command

pub data ControlError : Type 0 where
  forbidden : Authz.Error → ControlError
  worker_not_found context_done : ControlError

-- The registry with the commands that were handed to the writers, the last first.
pub record Control : Type 0 where
  pub registry : Registry
  pub commands : List (Handle × Command)

unfoldable pub send_command : String → Command → Bool → Control → Control × Option ControlError
send_command worker command sends c = elim (lookup worker c.registry.workers) [
  | none ↦ (c, some worker_not_found)
  | some h ↦
      if sends
      then (record c { commands = (h, command) ∷ c.commands }, none)
      else (c, some context_done)
]

unfoldable pub admin_pull_model : String → String → Bool → Control → Control × Option ControlError
unfolding send_command
admin_pull_model worker model sends c = send_command worker (pull_command model) sends c

unfoldable pub admin_unload_model : String → String → Bool → Control → Control × Option ControlError
unfolding send_command
admin_unload_model worker model sends c = send_command worker (unload_command model) sends c

abbrev pub after_gate :
    String → String → Bool → Option Authz.Error → Control → Control × Option ControlError
after_gate worker model sends (some e) c = (c, some (forbidden e))
after_gate worker model sends none c = send_command worker (pull_command model) sends c

unfoldable pub pull_model :
    ApiKey → String → String → Bool → Control → Control × Option ControlError
pull_model key worker model sends c = after_gate worker model sends (authorize key model pull).0 c

-- Best effort: it does not wait, and tells nothing.
unfoldable pub unload_session_model : String → String → Bool → Control → Control
unfolding send_command
unload_session_model worker model sends c =
    if str_eq worker "" || str_eq model ""
    then c
    else (send_command worker (unload_command model) sends c).0
