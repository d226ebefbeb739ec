-- ===== src/Store/File.antt =====
-- `File` of internal/store/file.go. The file system is a parameter: `write` is the temporary file
-- and the rename of `flush` on the encoded records, with `none` for success.
pub mod Reload
use agent_gpu.Prelude.{
  String, Bool, true, false, Option, none, some, List, [], ◌∷◌, arith, lookup, insert, remove,
  lookup-insert, lookup-remove, Option-cases, ◌≡◌, refl, str_eq, if◌then◌else◌, eq_iff,
}
use agent_gpu.Store.{ApiKey, Result, ok, err, not_found, Error, Store, StoreLaws}
use agent_gpu.Store.Memory.{values, found}

pub record File (Disk : Type 0) : Type 0 where
  pub disk : Disk
  pub keys : List (String × ApiKey)

-- The loop of `load`: a later record of one id replaces an earlier one.
unfoldable pub index : List ApiKey → List (String × ApiKey) → List (String × ApiKey)
index [] m = m
index (k ∷ ks) m = index ks (insert k.id k m)

module _ {Disk : Type 0} (read : Disk → Result (List ApiKey))
    (write : List ApiKey → Disk → Disk × Option Error) where
  -- `NewFile` with `load`. A missing or an empty file reads as no record.
  unfoldable pub new_file : Disk → Result (File Disk)
  unfolding index
  new_file d = elim (read d) [
    | ok records ↦ ok (record { disk = d; keys = index records [] })
    | err e ↦ err e
  ]

  unfoldable pub flush : File Disk → File Disk × Option Error
  flush f = let (d, e) = write (values f.keys) f.disk in (record f { disk = d }, e)

  unfoldable pub put_api_key : ApiKey → File Disk → File Disk × Option Error
  unfolding flush
  put_api_key key f = flush (record f { keys = insert key.id key f.keys })

  unfoldable pub get_api_key : String → File Disk → Result ApiKey
  unfolding found
  get_api_key id f = found (lookup id f.keys)

  unfoldable pub list_api_keys : File Disk → Result (List ApiKey)
  unfolding values
  list_api_keys f = ok (values f.keys)

  unfoldable pub delete_api_key : String → File Disk → File Disk × Option Error
  unfolding flush
  delete_api_key id f = elim (lookup id f.keys) [
    | none ↦ (f, none)
    | some _ ↦ flush (record f { keys = remove id f.keys })
  ]

  abbrev pub file_store : Store
  file_store = record {
    State = File Disk;
    put_api_key = put_api_key;
    get_api_key = get_api_key;
    list_api_keys = list_api_keys;
    delete_api_key = delete_api_key;
  }

  -- The file store keeps the contract that the key service is written against, whatever the disk
  -- does.
  pub file_store-StoreLaws : StoreLaws file_store
  unfolding put_api_key get_api_key delete_api_key
  file_store-StoreLaws = record {
    get-put = λ k j s _. ground (arith, lookup-insert k.id j k s.keys);
    get-put_only = λ k j s x h. ground (arith, lookup-insert k.id j k s.keys, eq_iff k.id j);
    get-delete = λ i j s _. ground (arith, lookup-remove i j s.keys, eq_iff i j);
  }
