-- ===== src/Auth/Tests.antt =====
-- The theorems on authentication at concrete inputs.
use terraform_registry.Base.{true, some, ◌≡◌, ◌≢◌, ◌⊎◌, ◌↔◌, refl, [], ◌∷◌}
use terraform_registry.Text.{Bytes, codes}
use terraform_registry.Auth.Hash.{is_sha256_hex}
use terraform_registry.Auth.Keys.{write, ApiKey, KeyStore, KeysFile, is_known, reload}
use terraform_registry.Auth.Reload.{ReloadOutcome, IsKept, IsValidStore, reload_atomic}
use terraform_registry.Auth.Gate.{Request, extract_api_key, is_public, pass, Guard, auth_middleware}
use terraform_registry.Auth.Access.{Opens, auth_middleware_iff}

-- a hash of 64 hexadecimal digits
abbrev pub digest : Bytes
digest = codes "0123456789abcdef0123456789abcdef0123456789abcdef0123456789abcdef"

abbrev pub hash_key : Bytes → Bytes
hash_key key = digest

abbrev pub kept_key : ApiKey
kept_key = record { key = []; hash = digest; name = codes "ci"; permission = write; enabled = true }

abbrev pub new_key : ApiKey
new_key = record {
  key = codes "secret";
  hash = [];
  name = codes "ci";
  permission = write;
  enabled = true;
}

abbrev pub store : KeyStore
store = record { keys = (digest, kept_key) ∷ []; keys_list = kept_key ∷ []; last_mod = 1 }

abbrev pub keys_file : KeysFile
keys_file = record {
  stat = some 2;
  config = some (new_key ∷ []);
  writable = true;
  stat_after = some 3;
}

abbrev pub guard : Guard
guard = record { store = store; auth_failures = some 0 }

abbrev pub upload : Request
upload = record {
  method = codes "POST";
  path = codes "/api/v1/providers";
  x_api_key = [];
  authorization = codes "Bearer secret";
}

kept_key-IsKept : IsKept kept_key
unfolding is_known is_sha256_hex
kept_key-IsKept = record { no_plaintext = refl; hash = refl; permission = refl }

pub store-IsValidStore : IsValidStore store
store-IsValidStore = record {
  kept = (kept_key-IsKept, tt);
  distinct = (tt, tt);
  some_enabled = refl;
  by_hash = refl;
}

reload_atomic_example : ReloadOutcome hash_key keys_file store (reload hash_key keys_file store)
reload_atomic_example = reload_atomic hash_key keys_file store

auth_middleware_iff_example :
    ((auth_middleware hash_key keys_file keys_file guard upload).1 ≡ pass) ↔ (
      (is_public upload ≡ true)
      ⊎ ((extract_api_key upload ≢ []) × ((k : ApiKey) × Opens hash_key keys_file store upload k)))
auth_middleware_iff_example =
    auth_middleware_iff hash_key keys_file keys_file guard upload store-IsValidStore
