-- ===== src/Secrets/Tests.antt =====
-- The keys file and the signing key of a new registry.
use terraform_registry.Base.{
  ◌≡◌, refl, sym, arith, Bool, true, false, some, List, [], ◌∷◌, ℕ, not, is_nil, if◌then◌else◌,
  ◌==◌,
}
use terraform_registry.Text.{Bytes, codes, text_eq}
use terraform_registry.Auth.Keys.{ApiKey, Permission, read, write, admin, unknown}
use terraform_registry.Disk.{file, directory, World}
use terraform_registry.Disk.Laws.{content}
use terraform_registry.Disk.Triples.{Ensures}
use terraform_registry.Storage.Published.{Kept}
use terraform_registry.Storage.DiskTests.{suffix}
use terraform_registry.Storage.Tests.{encode_texts, decode_texts, decode_texts-encode_texts}
use terraform_registry.Secrets.Keys.{KeysCodec, new_key_store}
use terraform_registry.Secrets.Opened.{OpensTo, Whole, new_key_store-OpensTo}
use terraform_registry.Secrets.Signer.{OpenPgp, new_registry_signer}
use terraform_registry.Secrets.Restarted.{Restarts, new_registry_signer-Restarts}

abbrev pgp : OpenPgp Bytes
pgp = record {
  read_private = λ b. some b;
  new_entity = some (codes "key");
  private_armor = λ e. some e;
  public_armor = λ e. some (0 ∷ e);
  key_id = λ e. codes "ID";
  detach_sign = λ e b. some b;
}

abbrev key_path : Bytes
key_path = codes "keys/signing.asc"

abbrev world : World
world = record { files = (codes "a", file (7 ∷ []) 0) ∷ []; now = 5; faults = [] }

key_path-unmarked :
    terraform_registry.Text.has_prefix
      (terraform_registry.Disk.cut_base key_path).1
      (codes ".signing-key-")
    ≡ false
unfolding terraform_registry.Text.has_prefix terraform_registry.Disk.cut_base text_eq
key_path-unmarked = refl

new_registry_signer-Restarts_example :
    Ensures
      (λ s f. Restarts pgp suffix key_path s f × Kept key_path (content key_path world.files) f)
      (Kept key_path (content key_path world.files))
      (new_registry_signer pgp suffix key_path world)
new_registry_signer-Restarts_example =
    new_registry_signer-Restarts pgp suffix key_path (λ e. ground (arith, e)) key_path-unmarked
      (λ e b h. sym h) world

abbrev hash_key : Bytes → Bytes
hash_key key = codes "0123456789abcdef0123456789abcdef0123456789abcdef0123456789abcdef"

abbrev keys_path : Bytes
keys_path = codes "keys.json"

hash-normal :
    terraform_registry.Auth.Hash.normalize_hash (hash_key (codes "secret"))
    ≡ hash_key (codes "secret")
unfolding terraform_registry.Auth.Hash.normalize_hash
hash-normal = refl

hash-hex : terraform_registry.Auth.Hash.is_sha256_hex (hash_key (codes "secret")) ≡ true
unfolding terraform_registry.Auth.Hash.is_sha256_hex
hash-hex = refl

keys_path-unmarked :
    terraform_registry.Text.has_prefix
      (terraform_registry.Disk.cut_base keys_path).1
      (codes ".keys-")
    ≡ false
unfolding terraform_registry.Text.has_prefix terraform_registry.Disk.cut_base text_eq
keys_path-unmarked = refl

abbrev permission_text : Permission → Bytes
permission_text read = 0 ∷ []
permission_text write = 1 ∷ []
permission_text admin = 2 ∷ []
permission_text (unknown b) = 3 ∷ b

abbrev permission_tagged : ℕ → Bytes → Permission
permission_tagged t b =
    if t == 0 then read else if t == 1 then write else if t == 2 then admin else unknown b

abbrev permission_of : Bytes → Permission
permission_of [] = read
permission_of (t ∷ b) = permission_tagged t b

permission_of-permission_text : (p : Permission) → permission_of (permission_text p) ≡ p
permission_of-permission_text read = refl
permission_of-permission_text write = refl
permission_of-permission_text admin = refl
permission_of-permission_text (unknown b) = refl

abbrev flag : Bool → Bytes
flag true = 1 ∷ []
flag false = []

flag-kept : (b : Bool) → not (is_nil (flag b)) ≡ b
flag-kept true = refl
flag-kept false = refl

unfoldable texts_of : List ApiKey → List Bytes
texts_of [] = []
texts_of (k ∷ ks) =
    k.key ∷ k.hash ∷ k.name ∷ permission_text k.permission ∷ flag k.enabled ∷ texts_of ks

unfoldable keys_of : List Bytes → List ApiKey
keys_of (k ∷ h ∷ n ∷ p ∷ e ∷ rest) =
    record { key = k; hash = h; name = n; permission = permission_of p; enabled = not (is_nil e) }
    ∷ keys_of rest
keys_of _ = []

keys_of-texts_of : (ks : List ApiKey) → keys_of (texts_of ks) ≡ ks
unfolding keys_of texts_of
keys_of-texts_of [] = refl
keys_of-texts_of (k ∷ ks) =
    rw (permission_of-permission_text k.permission, flag-kept k.enabled, keys_of-texts_of ks) refl

keys_codec : KeysCodec
keys_codec = record {
  encode = λ ks. encode_texts (texts_of ks);
  decode = λ s. some (keys_of (decode_texts s).1);
  decode-encode = λ ks. rw (decode_texts-encode_texts (texts_of ks), keys_of-texts_of ks) refl;
}

new_key_store-OpensTo_example :
    Ensures
      (OpensTo suffix hash_key keys_codec keys_path (codes "secret"))
      (Whole suffix hash_key keys_codec keys_path (codes "secret"))
      (new_key_store suffix hash_key keys_codec keys_path (codes "secret") [] world)
unfolding terraform_registry.Disk.lookup text_eq
new_key_store-OpensTo_example =
    new_key_store-OpensTo suffix hash_key keys_codec keys_path (codes "secret")
      (λ e. ground (arith, e)) hash-normal hash-hex keys_path-unmarked (codes "secret") [] refl
      world refl
