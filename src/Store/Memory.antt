-- ===== src/Store/Memory.antt =====
-- `Memory` of internal/store/store.go.
use agent_gpu.Prelude.{
  eq_iff, String, Option, none, some, List, [], ◌∷◌, arith, lookup, insert, remove, lookup-insert,
  lookup-remove,
}
use agent_gpu.Store.{ApiKey, Result, ok, err, not_found, Error, Store, StoreLaws}

pub record Memory : Type 0 where
  pub keys : List (String × ApiKey)

unfoldable pub new_memory : Memory
new_memory = record { keys = [] }

unfoldable pub values : List (String × ApiKey) → List ApiKey
values [] = []
values ((_, k) ∷ m) = k ∷ values m

unfoldable pub found : Option ApiKey → Result ApiKey
found none = err not_found
found (some k) = ok k

unfoldable pub put_api_key : ApiKey → Memory → Memory × Option Error
put_api_key key m = (record m { keys = insert key.id key m.keys }, none)

unfoldable pub get_api_key : String → Memory → Result ApiKey
unfolding found
get_api_key id m = found (lookup id m.keys)

unfoldable pub list_api_keys : Memory → Result (List ApiKey)
unfolding values
list_api_keys m = ok (values m.keys)

unfoldable pub delete_api_key : String → Memory → Memory × Option Error
delete_api_key id m = (record m { keys = remove id m.keys }, none)

abbrev pub memory : Store
memory = record {
  State = Memory;
  put_api_key = put_api_key;
  get_api_key = get_api_key;
  list_api_keys = list_api_keys;
  delete_api_key = delete_api_key;
}

-- The in-memory store keeps the contract that the key service is written against.
pub memory-StoreLaws : StoreLaws memory
unfolding put_api_key get_api_key delete_api_key
memory-StoreLaws = record {
  get-put = λ k j s _. ground (arith, lookup-insert k.id j k s.keys);
  get-put_only = λ k j s x h. ground (arith, lookup-insert k.id j k s.keys, eq_iff k.id j);
  get-delete = λ i j s _. ground (arith, lookup-remove i j s.keys);
}
