-- ===== src/Auth/Service.antt =====
-- `Service` of internal/auth/auth.go, over any `Store`. Its mutex makes each method one step. The
-- clock is an argument, as are the bytes that the entropy source gives, `none` for its failure, in
-- the order of the calls. `sha256` is the hash of crypto/sha256.
pub mod Lifecycle
pub mod Rejections
pub mod Keyed
mod Examples
use agent_gpu.Prelude.{
  ℕ, ◌+◌, ◌%◌, ◌^◌, String, ◌≡◌, Bool, true, false, Option, none, some, List, [], ◌∷◌, ◌++◌, bytes,
  bytes_eq, hex, if◌then◌else◌,
}
use agent_gpu.Store.{
  Time, Limits, ApiKey, revoked, expired, Error, not_found, unauthenticated, failed, Result, ok,
  err, Store,
}
use agent_gpu.Auth.Token.{prefix, format_token, parse_token}

pub record Permissions : Type 0 where
  pub roles : List String
  pub admin_scopes : List String
  pub allow_models : List String
  pub deny_models : List String
  pub owner : String
  pub team : String
  pub expires_at : Option Time
  pub created_by : String

abbrev pub no_permissions : Permissions
no_permissions = record {
  roles = [];
  admin_scopes = [];
  allow_models = [];
  deny_models = [];
  owner = "";
  team = "";
  expires_at = none;
  created_by = "";
}

-- A fresh secret, its salt and its hash.
pub record Secret : Type 0 where
  pub text : String
  pub salt : List ℕ
  pub hash : List ℕ

abbrev pub Entropy : Type 0
Entropy = Option (List ℕ)

-- A missing key is answered as a wrong secret is; any other error of the store goes up.
unfoldable pub hide_missing : Error → Error
hide_missing not_found = unauthenticated
hide_missing e = e

module _ (store : Store) (sha256 : List ℕ → List ℕ) where
  open store use {State, put_api_key, get_api_key, list_api_keys}

  unfoldable pub hash_secret : List ℕ → String → List ℕ
  hash_secret salt secret = sha256 (salt ++ bytes secret)

  unfoldable pub mint_secret : Entropy → Entropy → Result Secret
  mint_secret none _ = err failed
  mint_secret (some s) none = err failed
  mint_secret (some s) (some salt) =
      ok (record { text = hex s; salt = salt; hash = hash_secret salt (hex s) })

  unfoldable pub mint : Entropy → Entropy → Entropy → Result (String × Secret)
  mint none _ _ = err failed
  mint (some i) s salt = elim (mint_secret s salt) [
    | ok secret ↦ ok (hex i, secret)
    | err e ↦ err e
  ]

  -- The record that `CreateWithPermissions` stores.
  unfoldable pub new_key : String → Permissions → Time → String → Secret → ApiKey
  new_key name perms now id secret = record {
    id = id;
    name = name;
    prefix = prefix;
    secret_hash = secret.hash;
    salt = secret.salt;
    created_at = now;
    last_used_at = 0;
    usage_count = 0;
    revoked_at = none;
    owner = perms.owner;
    team = perms.team;
    expires_at = perms.expires_at;
    created_by = perms.created_by;
    roles = perms.roles;
    admin_scopes = perms.admin_scopes;
    allow_models = perms.allow_models;
    deny_models = perms.deny_models;
    limits = none;
  }

  -- The state after a write, with the answer if it went through.
  unfoldable pub persist {ℓ} : {A : Type ℓ} → ApiKey → A → State → State × Result A
  persist key a s = let (s', e) = put_api_key key s in (s', elim e [ none ↦ ok a | some x ↦ err x ])

  unfoldable pub create_with_permissions :
      String
      → Permissions
      → Time
      → Entropy
      → Entropy
      → Entropy
      → State
      → State × Result (String × ApiKey)
  unfolding persist new_key
  create_with_permissions name perms now i secret salt s = elim (mint i secret salt) [
    | err e ↦ (s, err e)
    | ok (id, fresh) ↦
        let rec = new_key name perms now id fresh in persist rec (format_token id fresh.text, rec) s
  ]

  unfoldable pub create :
      String → Time → Entropy → Entropy → Entropy → State → State × Result (String × ApiKey)
  unfolding create_with_permissions
  create name = create_with_permissions name no_permissions

  unfoldable pub list : State → Result (List ApiKey)
  list s = list_api_keys s

  unfoldable pub get : String → State → Result ApiKey
  get id s = get_api_key id s

  unfoldable pub revoke : String → Time → State → State × Result (Unit {0})
  unfolding persist revoked
  revoke id now s = elim (get_api_key id s) [
    | err e ↦ (s, err e)
    | ok rec ↦
        if revoked rec then (s, ok tt) else persist (record rec { revoked_at = some now }) tt s
  ]

  unfoldable pub set_permissions : String → Permissions → State → State × Result ApiKey
  unfolding persist
  set_permissions id perms s = elim (get_api_key id s) [
    | err e ↦ (s, err e)
    | ok rec ↦
        let rec' = record rec {
          roles = perms.roles;
          admin_scopes = perms.admin_scopes;
          allow_models = perms.allow_models;
          deny_models = perms.deny_models;
        } in
        persist rec' rec' s
  ]

  unfoldable pub set_limits : String → Option Limits → State → State × Result ApiKey
  unfolding persist
  set_limits id limits s = elim (get_api_key id s) [
    | err e ↦ (s, err e)
    | ok rec ↦ let rec' = record rec { limits = limits } in persist rec' rec' s
  ]

  unfoldable pub rotate : String → Entropy → Entropy → State → State × Result String
  unfolding persist revoked
  rotate id secret salt s = elim (get_api_key id s) [
    | err e ↦ (s, err e)
    | ok rec ↦ if revoked rec then (s, err unauthenticated) else elim (mint_secret secret salt) [
      | err e ↦ (s, err e)
      | ok fresh ↦
          persist (record rec { secret_hash = fresh.hash; salt = fresh.salt })
            (format_token id fresh.text) s
    ]
  ]

  -- The record that a successful authentication stores; the counter is a uint64.
  unfoldable pub used : ApiKey → Time → ApiKey
  used rec now = record rec { last_used_at = now; usage_count = (rec.usage_count + 1) % 2 ^ 64 }

  -- The checks after the lookup: the secret, then revocation, then the expiry at the time `now`.
  unfoldable pub verifies : ApiKey → String → Time → Bool
  unfolding hash_secret revoked expired
  verifies rec secret now =
      if bytes_eq rec.secret_hash (hash_secret rec.salt secret)
      then if revoked rec then false else if expired rec now then false else true
      else false

  -- The clock is read once for the expiry and once for the time of the use.
  unfoldable pub authenticate : String → Time → Time → State → State × Result ApiKey
  unfolding persist used hide_missing
  authenticate token now later s = elim (parse_token token) [
    | none ↦ (s, err unauthenticated)
    | some (id, secret) ↦ elim (get_api_key id s) [
      | err e ↦ (s, err (hide_missing e))
      | ok rec ↦
          if verifies rec secret now
          then persist (used rec later) (used rec later) s
          else (s, err unauthenticated)
    ]
  ]
