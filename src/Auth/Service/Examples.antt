-- ===== src/Auth/Service/Examples.antt =====
-- A key over the in-memory store, with a hash that only sums.
use agent_gpu.Prelude.{
  ℕ, ◌+◌, String, ◌≡◌, refl, false, List, [], ◌∷◌, none, some, arith, hex, bytes, lookup, insert,
  eq_iff, ◌++◌,
}
use agent_gpu.Store.{ApiKey, Result, ok, err, unauthenticated, expired}
use agent_gpu.Store.Memory.{Memory, memory, memory-StoreLaws, new_memory, put_api_key, get_api_key}
use agent_gpu.Auth.Token.{parse_token, format_token, cut}
use agent_gpu.Auth.Token.RoundTrip.{parse_token-format_token}
use agent_gpu.Auth.Service.{
  Permissions, no_permissions, create_with_permissions, authenticate, revoke, rotate, used,
  hash_secret, mint, mint_secret,
}
use agent_gpu.Auth.Service.Lifecycle.{create-authenticate}
use agent_gpu.Auth.Service.Rejections.{
  authenticate_sound, authenticate_uniform, malformed, revoke-authenticate, rotate-authenticate_old,
}
use agent_gpu.Auth.Service.Keyed.{IsKeyed}

parse_token-format_token_example : parse_token (format_token "0a" "ff_1") ≡ some ("0a", "ff_1")
parse_token-format_token_example =
    parse_token-format_token "0a" "ff_1" (omega arith) (λ e. cc) (λ e. cc)

sum : List ℕ → List ℕ
unfolding bytes
sum [] = []
sum (x ∷ xs) = elim (sum xs) [ [] ↦ x ∷ [] | y ∷ _ ↦ (x + y) ∷ [] ]

abbrev until : Permissions
until = record no_permissions { expires_at = some 9; roles = "user" ∷ [] }

abbrev made : Memory × Result (String × ApiKey)
made =
    create_with_permissions memory sum "app" until 1 (some (10 ∷ [])) (some (255 ∷ []))
      (some (3 ∷ [])) new_memory

abbrev key_made : ApiKey
key_made = record {
  id = "0a";
  name = "app";
  prefix = "agpu";
  secret_hash = 207 ∷ [];
  salt = 3 ∷ [];
  created_at = 1;
  last_used_at = 0;
  usage_count = 0;
  revoked_at = none;
  owner = "";
  team = "";
  expires_at = some 9;
  created_by = "";
  roles = "user" ∷ [];
  admin_scopes = [];
  allow_models = [];
  deny_models = [];
  limits = none;
}

abbrev with_key : Memory
with_key = record { keys = ("0a", key_made) ∷ [] }

create_runs : made ≡ (with_key, ok ("agpu_0a_ff", key_made))
unfolding create_with_permissions mint mint_secret hash_secret hex bytes sum put_api_key insert
    new_memory format_token
create_runs = refl

create-authenticate_example :
    (authenticate memory sum "agpu_0a_ff" 5 6 with_key).1 ≡ ok (used memory sum key_made 6)
unfolding put_api_key
create-authenticate_example =
    create-authenticate memory sum memory-StoreLaws "app" until 1 5 6 (10 ∷ []) (255 ∷ []) (3 ∷ [])
      new_memory with_key "agpu_0a_ff" key_made (λ e. cc) (λ e. cc) create_runs
      (λ t e. ground arith) refl

key_made_found : get_api_key "0a" with_key ≡ ok key_made
unfolding get_api_key lookup
key_made_found = refl

with_key-IsKeyed : IsKeyed memory with_key
unfolding get_api_key lookup
with_key-IsKeyed id k h = ground (arith, eq_iff "0a" id)

used_by_caller :
    (authenticate memory sum "agpu_0a_ff" 5 6 with_key).1 ≡ ok (used memory sum key_made 6)
used_by_caller = create-authenticate_example

authenticate_sound_example :
    (id : String) × (secret : String) × (rec : ApiKey) × (parse_token "agpu_0a_ff"
      ≡ some (id, secret))
    × (get_api_key id with_key ≡ ok rec)
    × (rec.secret_hash ≡ sum (rec.salt ++ bytes secret))
    × (rec.revoked_at ≡ none)
    × (expired rec 5 ≡ false)
    × (used memory sum key_made 6 ≡ used memory sum rec 6)
authenticate_sound_example =
    authenticate_sound memory sum "agpu_0a_ff" 5 6 with_key (used memory sum key_made 6)
      used_by_caller

authenticate_uniform_example :
    authenticate memory sum "agpu_0a" 5 6 with_key ≡ (with_key, err unauthenticated)
unfolding parse_token cut
authenticate_uniform_example =
    authenticate_uniform memory sum "agpu_0a" 5 6 with_key (malformed refl)

abbrev revoked_state : Memory
revoked_state = record { keys = ("0a", record key_made { revoked_at = some 7 }) ∷ [] }

revoke-authenticate_example :
    authenticate memory sum "agpu_0a_ff" 8 8 revoked_state ≡ (revoked_state, err unauthenticated)
unfolding revoke get_api_key put_api_key insert lookup parse_token cut
revoke-authenticate_example =
    revoke-authenticate memory sum memory-StoreLaws "0a" "agpu_0a_ff" "ff" 7 8 8 with_key
      revoked_state with_key-IsKeyed refl refl

abbrev rotated_key : ApiKey
rotated_key = record key_made { secret_hash = 99 ∷ []; salt = 2 ∷ [] }

abbrev rotated_state : Memory
rotated_state = record { keys = ("0a", rotated_key) ∷ [] }

rotate_runs :
    rotate memory sum "0a" (some (1 ∷ [])) (some (2 ∷ [])) with_key
    ≡ (rotated_state, ok "agpu_0a_01")
unfolding rotate mint_secret hash_secret hex bytes sum put_api_key get_api_key insert lookup
    format_token
rotate_runs = refl

rotate-authenticate_old_example :
    authenticate memory sum "agpu_0a_ff" 5 6 rotated_state ≡ (rotated_state, err unauthenticated)
unfolding parse_token cut sum hex bytes
rotate-authenticate_old_example =
    rotate-authenticate_old memory sum memory-StoreLaws "0a" "agpu_0a_ff" "ff" (1 ∷ []) (2 ∷ []) 5 6
      with_key rotated_state "agpu_0a_01" with_key-IsKeyed rotate_runs refl (λ e. ground arith)

abbrev promoted : ApiKey
promoted = record key_made { roles = [] }
