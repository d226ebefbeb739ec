-- ===== src/Store/Examples.antt =====
-- Two keys in a file store whose disk holds the records themselves.
use agent_gpu.Prelude.{lookup, String, ◌≡◌, refl, List, [], ◌∷◌, none, Option}
use agent_gpu.Store.{ApiKey, Result, ok, Error, StoreLaws}
use agent_gpu.Store.File.{
  file_store, file_store-StoreLaws, File, new_file, put_api_key, get_api_key,
}
use agent_gpu.Store.File.Reload.{put_api_key-reload}

abbrev pub app_key : ApiKey
app_key = record {
  id = "0a1b";
  name = "app";
  prefix = "agpu";
  secret_hash = 7 ∷ [];
  salt = 1 ∷ 2 ∷ [];
  created_at = 5;
  last_used_at = 0;
  usage_count = 0;
  revoked_at = none;
  owner = "";
  team = "";
  expires_at = none;
  created_by = "";
  roles = "user" ∷ [];
  admin_scopes = [];
  allow_models = "llama3" ∷ "qwen2" ∷ [];
  deny_models = "qwen2" ∷ [];
  limits = none;
}

abbrev pub admin_key : ApiKey
admin_key = record app_key { id = "0c2d"; name = "admin"; roles = "admin" ∷ [] }

abbrev read_all : List ApiKey → Result (List ApiKey)
read_all d = ok d

abbrev write_all : List ApiKey → List ApiKey → List ApiKey × Option Error
write_all ks d = (ks, none)

abbrev stored : File (List ApiKey)
stored = record { disk = []; keys = ("0a1b", app_key) ∷ [] }

put_api_key-reload_example :
    (g : File (List ApiKey)) × (new_file read_all write_all
        (put_api_key read_all write_all admin_key stored).0.disk
      ≡ ok g)
    × ((j : String)
        → get_api_key read_all write_all j g
          ≡ get_api_key read_all write_all j (put_api_key read_all write_all admin_key stored).0)
unfolding put_api_key lookup
put_api_key-reload_example =
    put_api_key-reload read_all write_all (λ ks d e. refl) admin_key stored (refl, refl, tt) refl

file_store-StoreLaws_example : StoreLaws (file_store read_all write_all)
file_store-StoreLaws_example = file_store-StoreLaws read_all write_all
