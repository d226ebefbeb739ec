-- ===== src/Auth/Service/Rejections.antt =====
-- What no longer authenticates, and what the rejected callers can see.
use agent_gpu.Prelude.{
  ℕ, String, ◌≡◌, refl, ◌≢◌, ◌<◌, false, none, some, List, ◌++◌, arith, hex, bytes, bytes_eq_iff,
  eq_iff, Option-cases, inl, inr,
}
use agent_gpu.Store.{
  Time, ApiKey, expired, Result-cases, ok, err, Store, StoreLaws, unauthenticated, not_found,
}
use agent_gpu.Auth.Token.{format_token, parse_token}
use agent_gpu.Auth.Service.Keyed.{IsKeyed}
use agent_gpu.Auth.Service.{
  hash_secret, mint_secret, persist, verifies, used, authenticate, rotate, revoke,
}

module _ (store : Store) (sha256 : List ℕ → List ℕ) where
  open store use {State, put_api_key, get_api_key}

  -- What an authentication has checked when it succeeds: the token parses to the id of a stored
  -- key and to a secret with that key's hash, and the key is neither revoked nor past its expiry.
  -- The key is returned with the use counted.
  pub authenticate_sound :
      (token : String) (now later : Time) (s : State) (key : ApiKey)
      → (authenticate store sha256 token now later s).1 ≡ ok key
      → (id : String) × (secret : String) × (rec : ApiKey) × (parse_token token ≡ some (id, secret))
        × (get_api_key id s ≡ ok rec)
        × (rec.secret_hash ≡ sha256 (rec.salt ++ bytes secret))
        × (rec.revoked_at ≡ none)
        × (expired rec now ≡ false)
        × (key ≡ used store sha256 rec later)
  unfolding authenticate verifies
  authenticate_sound token now later s key h = elim (Option-cases (parse_token token)) [
    | inl e ↦ ground arith
    | inr ((id, secret), e) ↦ elim (Result-cases (get_api_key id s)) [
      | inl (rec, g) ↦ (
        id,
        secret,
        rec,
        e,
        g,
        ground (arith, bytes_eq_iff rec.secret_hash (sha256 (rec.salt ++ bytes secret))),
        ground arith,
        ground arith,
        ground arith,
      )
      | inr (x, g) ↦ ground arith
    ]
  ]

  -- What an attempt can be refused for.
  pub data IsRefused (token : String) (now : Time) (s : State) : Type 0 where
    malformed : parse_token token ≡ none → IsRefused token now s
    unknown :
        (id secret : String)
        → parse_token token ≡ some (id, secret)
        → get_api_key id s ≡ err not_found
        → IsRefused token now s
    wrong :
        (id secret : String) (rec : ApiKey)
        → parse_token token ≡ some (id, secret)
        → get_api_key id s ≡ ok rec
        → rec.secret_hash ≢ sha256 (rec.salt ++ bytes secret)
        → IsRefused token now s
    gone :
        (id secret : String) (rec : ApiKey) (t : Time)
        → parse_token token ≡ some (id, secret)
        → get_api_key id s ≡ ok rec
        → rec.revoked_at ≡ some t
        → IsRefused token now s
    late :
        (id secret : String) (rec : ApiKey) (t : Time)
        → parse_token token ≡ some (id, secret)
        → get_api_key id s ≡ ok rec
        → rec.expires_at ≡ some t
        → t < now
        → IsRefused token now s

  -- A malformed token, an unknown id, a wrong secret, a revoked key and an expired one have one
  -- answer, `ErrUnauthenticated`, and none of them changes the store.
  pub authenticate_uniform :
      (token : String) (now later : Time) (s : State)
      → IsRefused token now s
      → authenticate store sha256 token now later s ≡ (s, err unauthenticated)
  unfolding authenticate verifies
  authenticate_uniform token now later s (malformed p) = ground arith
  authenticate_uniform token now later s (unknown id secret p g) = ground arith
  authenticate_uniform token now later s (wrong id secret rec p g w) =
      ground (arith, bytes_eq_iff rec.secret_hash (sha256 (rec.salt ++ bytes secret)))
  authenticate_uniform token now later s (gone id secret rec t p g r) = ground arith
  authenticate_uniform token now later s (late id secret rec t p g e l) = ground arith

module _ (store : Store) (sha256 : List ℕ → List ℕ) (laws : StoreLaws store) where
  open store use {State, put_api_key, get_api_key}

  -- What `get` answers at an id after a key was persisted there.
  get-persist :
      {A : Type 0} (id : String) (rec : ApiKey) (a b : A) (s s' : State)
      → rec.id ≡ id
      → persist store sha256 rec a s ≡ (s', ok b)
      → get_api_key id s' ≡ ok rec
  unfolding persist
  get-persist id rec a b s s' e h =
      let written : (put_api_key rec s).1 ≡ none = ground arith in
      ground (arith, laws.get-put rec id s written, eq_iff rec.id id)

  -- A revoked key authenticates no token any more, whatever the secret and the time.
  pub revoke-authenticate :
      (id token secret : String) (t now later : Time) (s s' : State)
      → IsKeyed store s
      → revoke store sha256 id t s ≡ (s', ok tt)
      → parse_token token ≡ some (id, secret)
      → authenticate store sha256 token now later s' ≡ (s', err unauthenticated)
  unfolding revoke
  revoke-authenticate id token secret t now later s s' keyed h p =
      elim (Result-cases (get_api_key id s)) [
        | inr (x, g) ↦ ground arith
        | inl (rec, g) ↦ elim (Option-cases rec.revoked_at) [
          | inr (u, r) ↦
              let same : s ≡ s' = ground arith in
              rw same at
                (authenticate_uniform store sha256 token now later s (gone id secret rec u p g r))
          | inl r ↦
              let rec' : ApiKey = record rec { revoked_at = some t } in
              let q : persist store sha256 rec' tt s ≡ (s', ok (tt {0})) = ground arith in
              authenticate_uniform store sha256 token now later s'
                (gone id secret rec' t p (get-persist id rec' tt tt s s' (keyed id rec g) q) refl)
        ]
      ]

  -- After a rotation the old secret, and every other one whose hash under the key's new salt is not
  -- that of the new secret, authenticates no more.
  pub rotate-authenticate_old :
      (id token text : String) (secret salt : List ℕ) (now later : Time) (s s' : State)
      (fresh : String)
      → IsKeyed store s
      → rotate store sha256 id (some secret) (some salt) s ≡ (s', ok fresh)
      → parse_token token ≡ some (id, text)
      → sha256 (salt ++ bytes (hex secret)) ≢ sha256 (salt ++ bytes text)
      → authenticate store sha256 token now later s' ≡ (s', err unauthenticated)
  unfolding rotate mint_secret hash_secret
  rotate-authenticate_old id token text secret salt now later s s' fresh keyed h p ne =
      elim (Result-cases (get_api_key id s)) [
        | inr (x, g) ↦ ground arith
        | inl (rec, g) ↦
            let rec' : ApiKey = record rec {
              secret_hash = sha256 (salt ++ bytes (hex secret));
              salt = salt;
            } in
            let q : persist store sha256 rec' (format_token id (hex secret)) s ≡ (s', ok fresh) =
              ground arith in
            authenticate_uniform store sha256 token now later s'
              (wrong id text rec' p (get-persist id rec' _ _ s s' (keyed id rec g) q) ne)
      ]
