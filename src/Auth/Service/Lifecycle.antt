-- ===== src/Auth/Service/Lifecycle.antt =====
-- From the creation of a key on: what authenticates, and what a change leaves alone.
use agent_gpu.Prelude.{
  ℕ, String, ◌≡◌, refl, ◌≢◌, ◌≤◌, true, none, some, List, [], ◌∷◌, arith, hex, bytes_eq_iff, eq_iff,
  Option-cases, inl, inr, Avoids, hex-Avoids,
}
use agent_gpu.Store.{Time, ApiKey, ok, Store, StoreLaws}
use agent_gpu.Auth.Token.{format_token, parse_token}
use agent_gpu.Auth.Token.RoundTrip.{parse_token-format_token}
use agent_gpu.Auth.Service.{
  Permissions, Secret, hash_secret, mint_secret, mint, new_key, create_with_permissions, verifies,
  used, authenticate, rotate, set_permissions,
}

hex-ne-nil : (bs : List ℕ) → bs ≢ [] → hex bs ≢ ""
unfolding hex
hex-ne-nil [] h = absurd (h refl)
hex-ne-nil (b ∷ bs) h = λ e. cc

module _ (store : Store) (sha256 : List ℕ → List ℕ) (laws : StoreLaws store) where
  open store use {State, put_api_key, get_api_key}

  -- A token of a stored key whose secret verifies authenticates as that key.
  authenticate_stored :
      (id secret : String) (rec : ApiKey) (now later : Time) (s : State)
      → parse_token (format_token id secret) ≡ some (id, secret)
      → get_api_key id s ≡ ok rec
      → verifies store sha256 rec secret now ≡ true
      → (put_api_key (used store sha256 rec later) s).1 ≡ none
      → (authenticate store sha256 (format_token id secret) now later s).1
        ≡ ok (used store sha256 rec later)
  unfolding authenticate
  authenticate_stored id secret rec now later s p g v w = ground arith

  -- A live key verifies the secret that its hash was made of.
  verifies_live :
      (rec : ApiKey) (text : String) (now : Time)
      → rec.secret_hash ≡ hash_secret store sha256 rec.salt text
      → rec.revoked_at ≡ none
      → ((t : Time) → rec.expires_at ≡ some t → now ≤ t)
      → verifies store sha256 rec text now ≡ true
  unfolding verifies
  verifies_live rec text now e r h =
      let same = (bytes_eq_iff rec.secret_hash (hash_secret store sha256 rec.salt text)).1 e in
      elim (Option-cases rec.expires_at) [
        | inl f ↦ ground arith
        | inr (t, f) ↦ ground (arith, h t f)
      ]

  -- A new key: the token that `CreateWithPermissions` returns authenticates as the key that it
  -- returns, counted once, until the expiry that was asked for. The entropy source must give
  -- bytes, and the store must accept the write that counts the use.
  pub create-authenticate :
      (name : String) (perms : Permissions) (made now later : Time) (i secret salt : List ℕ)
      (s s' : State) (token : String) (key : ApiKey)
      → i ≢ []
      → secret ≢ []
      → create_with_permissions store sha256 name perms made (some i) (some secret) (some salt) s
        ≡ (s', ok (token, key))
      → ((t : Time) → perms.expires_at ≡ some t → now ≤ t)
      → (put_api_key (used store sha256 key later) s').1 ≡ none
      → (authenticate store sha256 token now later s').1 ≡ ok (used store sha256 key later)
  unfolding create_with_permissions mint mint_secret
  create-authenticate name perms made now later i secret salt s s' token key hi hs h fresh w =
      let hash = hash_secret store sha256 salt (hex secret) in
      let secret' : Secret = record { text = hex secret; salt = salt; hash = hash } in
      let rec = new_key store sha256 name perms made (hex i) secret' in
      let written : (put_api_key rec s).1 ≡ none = ground arith in
      let made_by : (s' ≡ (put_api_key rec s).0)
          × (token ≡ format_token (hex i) (hex secret))
          × (key ≡ rec) =
        ground arith in
      let stored : get_api_key (hex i) (put_api_key rec s).0 ≡ ok rec =
        ground (arith, laws.get-put rec (hex i) s written, eq_iff (hex i) (hex i)) in
      let parsed =
        parse_token-format_token (hex i) (hex secret) (hex-Avoids i) (hex-ne-nil i hi)
          (hex-ne-nil secret hs) in
      let verified = verifies_live rec (hex secret) now refl refl fresh in
      rw (made_by.0, made_by.1, made_by.2)
        (authenticate_stored (hex i) (hex secret) rec now later _ parsed stored verified
          (rw (made_by.0, made_by.2) at w))

  -- A change of permissions replaces the roles, the scopes and the model lists of the stored key by
  -- the given ones, returns the key, and leaves its secret, labels, expiry, creator, limits and use
  -- as they were, and every other key.
  pub set_permissions-get :
      (id other : String) (perms : Permissions) (s s' : State) (rec key : ApiKey)
      → get_api_key id s ≡ ok rec
      → rec.id ≡ id
      → set_permissions store sha256 id perms s ≡ (s', ok key)
      → (key ≡ record rec {
        roles = perms.roles;
        admin_scopes = perms.admin_scopes;
        allow_models = perms.allow_models;
        deny_models = perms.deny_models;
      })
        × (get_api_key id s' ≡ ok key)
        × (other ≢ id → get_api_key other s' ≡ get_api_key other s)
  unfolding set_permissions
  set_permissions-get id other perms s s' rec key g e h =
      let rec' : ApiKey = record rec {
        roles = perms.roles;
        admin_scopes = perms.admin_scopes;
        allow_models = perms.allow_models;
        deny_models = perms.deny_models;
      } in
      let written : (put_api_key rec' s).1 ≡ none = ground arith in
      let made : (s' ≡ (put_api_key rec' s).0) × (key ≡ rec') = ground arith in
      (
        made.1,
        ground (arith, laws.get-put rec' id s written, eq_iff rec.id id),
        λ n. ground (arith, laws.get-put rec' other s written, eq_iff rec.id other),
      )

  -- After a rotation the token that it returned authenticates as the key with its other data as
  -- they were, for a key that is not past its expiry and an id without an underscore.
  pub rotate-authenticate_new :
      (id : String) (secret salt : List ℕ) (now later : Time) (s s' : State) (rec : ApiKey)
      (token : String)
      → Avoids b'_' id
      → id ≢ ""
      → secret ≢ []
      → get_api_key id s ≡ ok rec
      → rec.id ≡ id
      → ((t : Time) → rec.expires_at ≡ some t → now ≤ t)
      → rotate store sha256 id (some secret) (some salt) s ≡ (s', ok token)
      → let rec' : ApiKey = record rec {
        secret_hash = hash_secret store sha256 salt (hex secret);
        salt = salt;
      } in
        (put_api_key (used store sha256 rec' later) s').1 ≡ none
        → (authenticate store sha256 token now later s').1 ≡ ok (used store sha256 rec' later)
  unfolding rotate mint_secret
  rotate-authenticate_new id secret salt now later s s' rec token a n hs g e fresh h w =
      let rec' : ApiKey = record rec {
        secret_hash = hash_secret store sha256 salt (hex secret);
        salt = salt;
      } in
      let live : rec.revoked_at ≡ none = ground arith in
      let written : (put_api_key rec' s).1 ≡ none = ground arith in
      let made : (s' ≡ (put_api_key rec' s).0) × (token ≡ format_token id (hex secret)) =
        ground arith in
      let stored : get_api_key id s' ≡ ok rec' =
        ground (arith, laws.get-put rec' id s written, eq_iff rec.id id) in
      rw made.1 (
        authenticate_stored id (hex secret) rec' now later s'
          (parse_token-format_token id (hex secret) a n (hex-ne-nil secret hs)) stored
          (verifies_live rec' (hex secret) now refl live fresh) w)
