-- ===== src/Server/Control/Gate.antt =====
-- What has to hold before a worker is told to load a model.
use agent_gpu.Prelude.{
  ◌≡◌, refl, String, Bool, Option, none, some, ◌∷◌, lookup, Bool-cases, Option-cases, inl, inr,
}
use agent_gpu.Store.{ApiKey}
use agent_gpu.Authz
use agent_gpu.Authz.{authorize, pull}
use agent_gpu.Server.Fleet.{Handle}
use agent_gpu.Server.Control.{
  Control, ControlError, pull_command, send_command, after_gate, pull_model,
}

-- An error changes nothing; a success handed one command to the registered worker.
abbrev pub Told :
    Option Authz.Error → String → String → Control → Control × Option ControlError → Type 0
Told gate worker model c (after, some e) = after ≡ c
Told gate worker model c (after, none) =
    (gate ≡ none)
    × (h : Handle) × (lookup worker c.registry.workers ≡ some h)
    × (after ≡ record c { commands = (h, pull_command model) ∷ c.commands })

after_gate-Told :
    (gate : Option Authz.Error) (worker model : String) (sends : Bool) (c : Control)
    → Told gate worker model c (after_gate worker model sends gate c)
unfolding send_command
after_gate-Told (some e) worker model sends c = refl
after_gate-Told none worker model sends c = elim (Option-cases (lookup worker c.registry.workers)) [
  | inl n ↦ rw (n, send_command) refl
  | inr (h, found) ↦ elim (Bool-cases sends) [
    | inl e ↦ rw (found, send_command, e) (refl, h, found, refl)
    | inr e ↦ rw (found, send_command, e) refl
  ]
]

-- A pull that fails leaves the workers alone; one that succeeds was allowed to the key, and the worker
-- with the id asked for was told to pull the model, once.
pub pull_model-Told :
    (key : ApiKey) (worker model : String) (sends : Bool) (c : Control)
    → Told (authorize key model pull).0 worker model c (pull_model key worker model sends c)
unfolding pull_model
pull_model-Told key worker model sends c =
    after_gate-Told (authorize key model pull).0 worker model sends c
