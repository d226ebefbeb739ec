-- ===== src/Store.antt =====
-- internal/store: the API-key record, the `Store` interface and its in-memory implementation.
-- A time is a number of nanoseconds, a byte string a list of numbers. The deep copies of the
-- source keep the store and its callers from sharing memory; a value of the model is never shared.
pub mod Memory
pub mod File
pub mod Examples
use agent_gpu.Prelude.{
  ℕ, String, ◌≡◌, refl, ◌⊎◌, inl, inr, Bool, true, false, Option, none, some, List, ltb, str_eq,
  if◌then◌else◌,
}

abbrev pub Time : Type 0
Time = ℕ

pub record Limits : Type 0 where
  pub rpm : ℕ
  pub tpm : ℕ
  pub daily_tokens : ℕ
  pub monthly_tokens : ℕ

pub record ApiKey : Type 0 where
  pub id : String
  pub name : String
  pub prefix : String
  pub secret_hash : List ℕ
  pub salt : List ℕ
  pub created_at : Time
  pub last_used_at : Time
  pub usage_count : ℕ
  pub revoked_at : Option Time
  pub owner : String
  pub team : String
  pub expires_at : Option Time
  pub created_by : String
  pub roles : List String
  pub admin_scopes : List String
  pub allow_models : List String
  pub deny_models : List String
  pub limits : Option Limits

unfoldable pub revoked : ApiKey → Bool
revoked k = elim k.revoked_at [ none ↦ false | some _ ↦ true ]

-- `now.After(*k.ExpiresAt)`
unfoldable pub expired : ApiKey → Time → Bool
expired k now = elim k.expires_at [ none ↦ false | some t ↦ ltb t now ]

-- The errors that the key operations return. `failed` is what a backend reports beside
-- `ErrNotFound`: a write or a read that did not go through, or an entropy source that failed.
pub data Error : Type 0 where
  not_found unauthenticated failed : Error

pub data Result {ℓ} (A : Type ℓ) : Type ℓ where
  ok : A → Result A
  err : Error → Result A

pub Result-cases {ℓ} :
    {A : Type ℓ} (r : Result A) → ((a : A) × (r ≡ ok a)) ⊎ ((e : Error) × (r ≡ err e))
Result-cases (ok a) = inl (a, refl)
Result-cases (err e) = inr (e, refl)

-- The interface. A method that writes returns the new state and its error.
pub record Store : Type 1 where
  pub State : Type 0
  pub put_api_key : ApiKey → State → State × Option Error
  pub get_api_key : String → State → Result ApiKey
  pub list_api_keys : State → Result (List ApiKey)
  pub delete_api_key : String → State → State × Option Error

-- What a client relies on: a key that was stored without an error is read back, and the other
-- keys with it; a write that fails may or may not have taken place, and made nothing else up; a key
-- that was deleted without an error is gone, and no other.
pub record StoreLaws (store : Store) : Type 0 where
  pub get-put :
      (k : ApiKey) (j : String) (s : store.State)
      → (store.put_api_key k s).1 ≡ none
      → store.get_api_key j (store.put_api_key k s).0
        ≡ (if str_eq k.id j then ok k else store.get_api_key j s)
  pub get-put_only :
      (k : ApiKey) (j : String) (s : store.State) (x : ApiKey)
      → store.get_api_key j (store.put_api_key k s).0 ≡ ok x
      → ((j ≡ k.id) × (x ≡ k)) ⊎ (store.get_api_key j s ≡ ok x)
  pub get-delete :
      (i j : String) (s : store.State)
      → (store.delete_api_key i s).1 ≡ none
      → store.get_api_key j (store.delete_api_key i s).0
        ≡ (if str_eq i j then err not_found else store.get_api_key j s)
