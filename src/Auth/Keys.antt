-- ===== src/Auth/Keys.antt =====
-- registry-server/auth.go: the key store, its reload from the keys file and the lookup of a key.
-- The times and descriptions that keys carry are not read by the code and left out.
use terraform_registry.Base.{
  ℕ, suc, Bool, true, false, not, ◌&&◌, ◌||◌, Option, none, some, List, [], ◌∷◌, ltb, ◌==◌,
  if◌then◌else◌, is_nil, any, map,
}
use terraform_registry.Text.{Bytes, text_eq}
use terraform_registry.Auth.Hash.{normalize_hash, is_sha256_hex}

-- `Permission`, a string of which three values are known
pub data Permission : Type 0 where
  read write admin : Permission
  unknown : Bytes → Permission

-- `APIKey`
pub record ApiKey : Type 0 where
  pub key : Bytes
  pub hash : Bytes
  pub name : Bytes
  pub permission : Permission
  pub enabled : Bool

-- `KeyStore`: the map from hashes and the list are built together.
pub record KeyStore : Type 0 where
  pub keys : List (Bytes × ApiKey)
  pub keys_list : List ApiKey
  pub last_mod : ℕ

-- What the operating system answers while a key is looked up: the modification time of the keys
-- file, its keys if it can be read and decoded, whether a migrated file can be written back, and the
-- modification time behind that.
pub record KeysFile : Type 0 where
  pub stat : Option ℕ
  pub config : Option (List ApiKey)
  pub writable : Bool
  pub stat_after : Option ℕ

pub data ReloadError : Type 0 where
  unreadable no_keys no_enabled_key not_written : ReloadError
  invalid_hash invalid_permission duplicate_hash : Bytes → ReloadError

pub data Result {ℓ} (A : Type ℓ) : Type ℓ where
  ok : A → Result A
  err : ReloadError → Result A

unfoldable pub is_known : Permission → Bool
is_known read = true
is_known write = true
is_known admin = true
is_known (unknown _) = false

-- the hashes that the map `seen` holds
unfoldable pub seen_hash : Bytes → List Bytes → Bool
seen_hash h seen = any (text_eq h) seen

-- What the loop of `reload` has computed: the keys as they are kept, the number of enabled keys, and
-- whether a plaintext key was found.
pub record Checked : Type 0 where
  pub keys : List ApiKey
  pub enabled : ℕ
  pub migrated : Bool

-- the loop of `Validate`
unfoldable pub find_key : Bytes → List ApiKey → Option ApiKey
find_key hash [] = none
find_key hash (k ∷ ks) = if k.enabled && text_eq k.hash hash then some k else find_key hash ks

-- the `switch` of `HasPermission`
unfoldable pub grants : Permission → Permission → Bool
grants read p = true
grants write write = true
grants write admin = true
grants write _ = false
grants admin admin = true
grants admin _ = false
grants (unknown _) p = false

unfoldable pub key_grants : Permission → Option ApiKey → Bool
key_grants required none = false
key_grants required (some k) = grants required k.permission

-- a key in front of those behind it: its kept form, and what the loop counts of it
unfoldable pub add_key : ApiKey → ApiKey → Checked → Checked
add_key k k' c = record {
  keys = k' ∷ c.keys;
  enabled = if k.enabled then suc c.enabled else c.enabled;
  migrated = not (is_nil k.key) || c.migrated;
}

-- the part of `reload` behind the loop
unfoldable pub install_keys : KeysFile → KeyStore → Checked → KeyStore × Option ReloadError
install_keys file ks c =
    if c.enabled == 0
    then (ks, some no_enabled_key)
    else if c.migrated && not file.writable
    then (ks, some not_written)
    else (
      record {
        keys = map (λ (k : ApiKey). (k.hash, k)) c.keys;
        keys_list = c.keys;
        last_mod = elim file.stat_after [ none ↦ ks.last_mod | some t ↦ t ];
      },
      none,
    )

module _ (hash_key : Bytes → Bytes) where
  -- one key without its plaintext, its hash normalized
  unfoldable pub migrate_key : ApiKey → ApiKey
  migrate_key k = record k {
    key = [];
    hash = normalize_hash (if not (is_nil k.key) && is_nil k.hash then hash_key k.key else k.hash);
  }

  -- the loop of `reload` over the keys, with the hashes seen so far
  unfoldable pub check_keys : List Bytes → List ApiKey → Result Checked
  check_keys seen [] = ok (record { keys = []; enabled = 0; migrated = false })
  check_keys seen (k ∷ ks) =
      let k' = migrate_key k in
      let rest = check_keys (k'.hash ∷ seen) ks in
      if not (is_sha256_hex k'.hash)
      then err (invalid_hash k.name)
      else if not (is_known k.permission)
      then err (invalid_permission k.name)
      else if seen_hash k'.hash seen
      then err (duplicate_hash k.name)
      else elim rest [ err e ↦ err e | ok c ↦ ok (add_key k k' c) ]

  unfoldable pub reload_keys : KeysFile → KeyStore → List ApiKey → KeyStore × Option ReloadError
  reload_keys file ks [] = (ks, some no_keys)
  reload_keys file ks (k ∷ config) = elim (check_keys [] (k ∷ config)) [
    | err e ↦ (ks, some e)
    | ok c ↦ install_keys file ks c
  ]

  -- `reload`
  unfoldable pub reload : KeysFile → KeyStore → KeyStore × Option ReloadError
  reload file ks = elim file.config [
    | none ↦ (ks, some unreadable)
    | some config ↦ reload_keys file ks config
  ]

  -- `maybeReload`
  unfoldable pub maybe_reload : KeysFile → KeyStore → KeyStore
  maybe_reload file ks = elim file.stat [
    | none ↦ ks
    | some t ↦ if ltb ks.last_mod t then (reload file ks).0 else ks
  ]

  -- `Validate`, with the store that a reload may have replaced
  unfoldable pub validate : KeysFile → KeyStore → Bytes → KeyStore × Option ApiKey
  unfolding maybe_reload find_key
  validate file ks [] = (ks, none)
  validate file ks (c ∷ key) =
      let ks' = maybe_reload file ks in (ks', find_key (hash_key (c ∷ key)) ks'.keys_list)

  -- `HasPermission`
  unfoldable pub has_permission : KeysFile → KeyStore → Bytes → Permission → KeyStore × Bool
  unfolding validate key_grants grants
  has_permission file ks key required =
      let (ks', found) = validate file ks key in (ks', key_grants required found)

-- `HasKeys`
unfoldable pub has_keys : KeyStore → Bool
has_keys ks = not (is_nil ks.keys)
