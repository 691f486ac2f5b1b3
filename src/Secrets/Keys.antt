-- ===== src/Secrets/Keys.antt =====
-- registry-server/auth.go: the keys file while the server starts, with the reload of the key store
-- over it. `hash_key` is SHA-256 in hexadecimal digits, and the JSON form of the keys is a codec.
use terraform_registry.Base.{
  ℕ, ◌≡◌, Bool, true, false, Option, none, some, List, [], ◌∷◌, if◌then◌else◌, is_nil, ◌==◌,
}
use terraform_registry.Text.{Bytes, codes}
use terraform_registry.Auth.Keys.{
  ApiKey, admin, KeyStore, ReloadError, unreadable, ok, err, check_keys, reload,
}
use terraform_registry.Disk.{
  Node, file, directory, Files, not_exist, io, corrupt, Result, done, fails, M, ◌>>=◌, ◌>>◌, return,
  stop, attempt, call, node_at, stat,
}
use terraform_registry.Secrets.{write_keys_config_atomic}

-- `APIKeysConfig` in JSON
pub record KeysCodec : Type 0 where
  pub encode : List ApiKey → Bytes
  pub decode : Bytes → Option (List ApiKey)
  pub decode-encode : (ks : List ApiKey) → decode (encode ks) ≡ some ks

abbrev pub read_result : Option Node → Result Bytes
read_result none = fails not_exist
read_result (some (file b t)) = done b
read_result (some directory) = fails io

-- `os.ReadFile`
unfoldable pub read_file : Bytes → M Bytes
read_file p = call (λ w. (read_result (node_at p w.files), w.files)) (λ n w. w.files)

abbrev pub succeeded : {A : Type 0} → Result A → Bool
succeeded (done a) = true
succeeded (fails e) = false

abbrev pub time_of : Result Node → Option ℕ
time_of (done (file b t)) = some t
time_of (done directory) = none
time_of (fails e) = none

abbrev pub empty_store : KeyStore
empty_store = record { keys = []; keys_list = []; last_mod = 0 }

abbrev pub stop_on : KeyStore × Option ReloadError → M KeyStore
stop_on (ks, none) = return ks
stop_on (ks, some e) = stop corrupt

module _ (suffix : Bytes → Files → Bytes) (hash_key : Bytes → Bytes) (c : KeysCodec)
    (path : Bytes) where
  -- the keys that are written back without their plaintext, if there was one
  unfoldable pub migration : List ApiKey → Option (List ApiKey)
  migration config = elim (check_keys hash_key [] config) [
    | err e ↦ none
    | ok checked ↦
        if checked.enabled == 0 then none else if checked.migrated then some checked.keys else none
  ]

  unfoldable pub write_back : Option (List ApiKey) → M Bool
  write_back none = return true
  write_back (some keys) =
      attempt (write_keys_config_atomic suffix path (c.encode keys)) >>= λ r. return (succeeded r)

  -- The time of the file is asked for in any case, which changes no file.
  unfoldable pub reload_config : KeyStore → Option (List ApiKey) → M (KeyStore × Option ReloadError)
  reload_config ks none = return (ks, some unreadable)
  reload_config ks (some config) = do
    written ← write_back (migration config)
    n ← attempt (stat path)
    return (
        reload hash_key
          (record { stat = none; config = some config; writable = written; stat_after = time_of n })
          ks)

  unfoldable pub reload_text : KeyStore → Result Bytes → M (KeyStore × Option ReloadError)
  reload_text ks (fails e) = return (ks, some unreadable)
  reload_text ks (done text) = reload_config ks (c.decode text)

  -- `reload`: the store, which is the old one on an error
  unfoldable pub reload_file : KeyStore → M (KeyStore × Option ReloadError)
  reload_file ks = attempt (read_file path) >>= reload_text ks

  unfoldable pub default_key : Bytes → ApiKey
  default_key key = record {
    key = [];
    hash = hash_key key;
    name = codes "default-admin";
    permission = admin;
    enabled = true;
  }

  -- `createDefaultFile`
  unfoldable pub create_default_file : Bytes → M (Unit {0})
  create_default_file key = write_keys_config_atomic suffix path (c.encode (default_key key ∷ []))

  -- `if os.IsNotExist(err)`; a random key stands in for an empty `REGISTRY_API_KEY`.
  unfoldable pub create_if_missing : Bytes → Bytes → Result Node → M (Unit {0})
  create_if_missing variable random (fails not_exist) =
      create_default_file (if is_nil variable then random else variable)
  create_if_missing variable random (fails e) = return tt
  create_if_missing variable random (done n) = return tt

  -- `NewKeyStore`
  unfoldable pub new_key_store : Bytes → Bytes → M KeyStore
  new_key_store variable random = do
    there ← attempt (stat path)
    create_if_missing variable random there
    r ← reload_file empty_store
    stop_on r
