-- ===== src/Auth/Service/Keyed.antt =====
-- The store under the key service: every key stands under its own id.
use agent_gpu.Prelude.{ℕ, String, ◌≡◌, Option, some, List, Option-cases, Bool-cases, inl, inr}
use agent_gpu.Store.{Time, ApiKey, revoked, Result-cases, ok, Store, StoreLaws, Limits}
use agent_gpu.Auth.Token.{parse_token}
use agent_gpu.Auth.Service.{
  Permissions, Entropy, mint_secret, mint, new_key, create_with_permissions, verifies, used,
  authenticate, rotate, revoke, set_permissions, set_limits,
}

module _ (store : Store) where
  open store use {State, get_api_key}

  -- Every key is found under its own id.
  abbrev pub IsKeyed : State → Type 0
  IsKeyed s = (id : String) (k : ApiKey) → get_api_key id s ≡ ok k → k.id ≡ id

module _ (store : Store) (sha256 : List ℕ → List ℕ) (laws : StoreLaws store) where
  open store use {State, put_api_key, get_api_key}

  -- A write of a key under its id keeps every key under its own id, also when it fails.
  put-IsKeyed : (rec : ApiKey) (s : State) → IsKeyed store s → IsKeyed store (put_api_key rec s).0
  put-IsKeyed rec s keyed id k g = elim (laws.get-put_only rec id s k g) [
    | inl (i, e) ↦ cc
    | inr old ↦ keyed id k old
  ]

  create-IsKeyed :
      (name : String) (perms : Permissions) (now : Time) (i secret salt : Entropy) (s : State)
      → IsKeyed store s
      → IsKeyed store (create_with_permissions store sha256 name perms now i secret salt s).0
  unfolding create_with_permissions
  create-IsKeyed name perms now i secret salt s keyed =
      elim (Result-cases (mint store sha256 i secret salt)) [
        | inl (x, e) ↦
            rw (e, create_with_permissions)
              (put-IsKeyed (new_key store sha256 name perms now x.0 x.1) s keyed)
        | inr (x, e) ↦ rw (e, create_with_permissions) keyed
      ]

  revoke-IsKeyed :
      (id : String) (now : Time) (s : State)
      → IsKeyed store s
      → IsKeyed store (revoke store sha256 id now s).0
  unfolding revoke
  revoke-IsKeyed id now s keyed = elim (Result-cases (get_api_key id s)) [
    | inr (x, e) ↦ rw (e, revoke) keyed
    | inl (rec, e) ↦ elim (Bool-cases (revoked rec)) [
      | inl r ↦ rw (e, revoke, r) keyed
      | inr r ↦ rw (e, revoke, r) (put-IsKeyed (record rec { revoked_at = some now }) s keyed)
    ]
  ]

  set_permissions-IsKeyed :
      (id : String) (perms : Permissions) (s : State)
      → IsKeyed store s
      → IsKeyed store (set_permissions store sha256 id perms s).0
  unfolding set_permissions
  set_permissions-IsKeyed id perms s keyed = elim (Result-cases (get_api_key id s)) [
    | inr (x, e) ↦ rw (e, set_permissions) keyed
    | inl (rec, e) ↦
        let rec' : ApiKey = record rec {
          roles = perms.roles;
          admin_scopes = perms.admin_scopes;
          allow_models = perms.allow_models;
          deny_models = perms.deny_models;
        } in
        rw (e, set_permissions) (put-IsKeyed rec' s keyed)
  ]

  set_limits-IsKeyed :
      (id : String) (limits : Option Limits) (s : State)
      → IsKeyed store s
      → IsKeyed store (set_limits store sha256 id limits s).0
  unfolding set_limits
  set_limits-IsKeyed id limits s keyed = elim (Result-cases (get_api_key id s)) [
    | inr (x, e) ↦ rw (e, set_limits) keyed
    | inl (rec, e) ↦ rw (e, set_limits) (put-IsKeyed (record rec { limits = limits }) s keyed)
  ]

  rotate-IsKeyed :
      (id : String) (secret salt : Entropy) (s : State)
      → IsKeyed store s
      → IsKeyed store (rotate store sha256 id secret salt s).0
  unfolding rotate
  rotate-IsKeyed id secret salt s keyed = elim (Result-cases (get_api_key id s)) [
    | inr (x, e) ↦ rw (e, rotate) keyed
    | inl (rec, e) ↦ elim (Bool-cases (revoked rec)) [
      | inl r ↦ rw (e, rotate, r) keyed
      | inr r ↦ elim (Result-cases (mint_secret store sha256 secret salt)) [
        | inl (fresh, f) ↦
            rw (e, rotate, r, f)
              (put-IsKeyed (record rec { secret_hash = fresh.hash; salt = fresh.salt }) s keyed)
        | inr (x, f) ↦ rw (e, rotate, r, f) keyed
      ]
    ]
  ]

  authenticate-IsKeyed :
      (token : String) (now later : Time) (s : State)
      → IsKeyed store s
      → IsKeyed store (authenticate store sha256 token now later s).0
  unfolding authenticate
  authenticate-IsKeyed token now later s keyed = elim (Option-cases (parse_token token)) [
    | inl p ↦ rw (p, authenticate) keyed
    | inr ((id, secret), p) ↦ elim (Result-cases (get_api_key id s)) [
      | inr (x, e) ↦ rw (p, authenticate, e) keyed
      | inl (rec, e) ↦ elim (Bool-cases (verifies store sha256 rec secret now)) [
        | inl v ↦ rw (p, authenticate, e, v) (put-IsKeyed (used store sha256 rec later) s keyed)
        | inr v ↦ rw (p, authenticate, e, v) keyed
      ]
    ]
  ]

  -- Each operation that writes keeps every key of the store under its own id, whether it succeeds
  -- or fails.
  pub operations-IsKeyed :
      (id name token : String) (perms : Permissions) (limits : Option Limits) (now later : Time)
      (i secret salt : Entropy) (s : State)
      → IsKeyed store s
      → IsKeyed store (create_with_permissions store sha256 name perms now i secret salt s).0
        × IsKeyed store (revoke store sha256 id now s).0
        × IsKeyed store (set_permissions store sha256 id perms s).0
        × IsKeyed store (set_limits store sha256 id limits s).0
        × IsKeyed store (rotate store sha256 id secret salt s).0
        × IsKeyed store (authenticate store sha256 token now later s).0
  operations-IsKeyed id name token perms limits now later i secret salt s keyed = (
    create-IsKeyed name perms now i secret salt s keyed,
    revoke-IsKeyed id now s keyed,
    set_permissions-IsKeyed id perms s keyed,
    set_limits-IsKeyed id limits s keyed,
    rotate-IsKeyed id secret salt s keyed,
    authenticate-IsKeyed token now later s keyed,
  )
