-- ===== src/Manage/Provider.antt =====
-- registry-server/api.go: the upload and the deletion of a provider version over the files.
-- `validate` is validateProviderArchive; the JSON form of a platform is a codec.
use terraform_registry.Base.{
  ℕ, ◌⊎◌, inl, inr, Bool, true, false, Option, none, some, List, [], ◌∷◌, ◌++◌, if◌then◌else◌, ltb,
  length,
}
use terraform_registry.Text.{Bytes, codes}
use terraform_registry.Protocol.Reader.{Read, PlatformMeta, path_of}
use terraform_registry.Disk.{Files, Error, Result, done, fails, M, ◌>>=◌, ◌>>◌, return, attempt}
use terraform_registry.Upload.{UploadError, validate_upload, write_upload_error}
use terraform_registry.Storage.Writes.{Stream, put, put_stream_immutable}
use terraform_registry.Storage.Index.{IndexCodec}
use terraform_registry.Storage.Removal.{stage_delete_tree}
use terraform_registry.Signing.{
  ChecksumEntry, checksums_key, signature_key, rebuild_provider_checksums,
}
use terraform_registry.Manage.{
  VersionKeys, ArtifactCodec, store_status, read_key, add_module_version, drop_new, restore,
  drop_old, behind_stage, peek,
}

-- what the route of an upload names
pub record ProviderRoute : Type 0 where
  pub namespace : Bytes
  pub name : Bytes
  pub version : Bytes
  pub os : Bytes
  pub arch : Bytes

-- `PlatformMeta` in JSON
pub record PlatformCodec : Type 0 where
  pub encode : PlatformMeta → Bytes
  pub decode : Bytes → Option PlatformMeta

unfoldable pub provider_keys : ProviderRoute → VersionKeys
provider_keys u = record {
  index = path_of (codes "providers" ∷ u.namespace ∷ u.name ∷ codes "index.json" ∷ []);
  prefix = path_of (codes "providers" ∷ u.namespace ∷ u.name ∷ u.version ∷ []);
  version = u.version;
}

-- the key of the metadata of a platform
unfoldable pub platform_meta_key : ProviderRoute → Bytes
platform_meta_key u = path_of (
    codes "providers"
    ∷ u.namespace
    ∷ u.name
    ∷ u.version
    ∷ (u.os ++ codes "_" ++ u.arch ++ codes ".json")
    ∷ [])

-- the name of an archive, by its hash
unfoldable pub archive_name : ProviderRoute → Bytes → Bytes
archive_name u shasum =
    codes "terraform-provider-"
    ++ u.name
    ++ codes "_"
    ++ u.version
    ++ codes "_"
    ++ u.os
    ++ codes "_"
    ++ u.arch
    ++ codes "_"
    ++ shasum
    ++ codes ".zip"

abbrev filename_in : Option PlatformMeta → Option Bytes
filename_in none = none
filename_in (some m) = some m.filename

-- The metadata of a platform as what an upload writes and reads of them.
unfoldable pub platform_artifacts : PlatformCodec → ProviderRoute → ArtifactCodec
platform_artifacts p u = record {
  encode = λ filename shasum.
      p.encode (record { os = u.os; arch = u.arch; filename = filename; shasum = shasum });
  decode = λ text. filename_in (p.decode text);
}

module _ (link_escapes : Bytes → Bool) (suffix : Bytes → Files → Bytes) (hash : Bytes → Bytes)
    (validate : Bytes → Option Error) {Meta : Type 0} (c : IndexCodec Meta) (p : PlatformCodec)
    (sort_slice : (ChecksumEntry → ChecksumEntry → Bool) → List ChecksumEntry → List ChecksumEntry)
    (signer : Option (Bytes → Option Bytes)) (u : ProviderRoute) where
  abbrev pub archive_key : Bytes → Bytes
  archive_key bytes =
      path_of
        (codes "providers" ∷ u.namespace ∷ u.name ∷ u.version ∷ archive_name u (hash bytes) ∷ [])

  -- what a key reads as
  abbrev pub previous : Bytes → M Read
  previous = read_key link_escapes suffix hash validate (platform_artifacts p u) c

  abbrev restored : Bytes → Read → M (Unit {0})
  restored = restore link_escapes suffix hash validate (platform_artifacts p u) c

  abbrev dropped : Bytes → Bool → M (Unit {0})
  dropped = drop_new link_escapes suffix hash validate (platform_artifacts p u) c

  -- `restorePublication`, of what was read of the metadata, the checksums and the signature
  unfoldable pub restore_publication : Bytes → Bool → Read → Read → Read → M (Unit {0})
  restore_publication key existed meta checksums signature = do
    restored (platform_meta_key u) meta
    restored (checksums_key u.namespace u.name u.version) checksums
    restored (signature_key u.namespace u.name u.version) signature
    dropped key existed

  -- the steps behind the change of the index, by its success
  unfoldable pub behind_listing : Bytes → Bytes → Bool → Read → Read → Read → Bool → M ℕ
  behind_listing bytes key existed meta checksums signature false =
      restore_publication key existed meta checksums signature >> return 500
  behind_listing bytes key existed meta checksums signature true = do
    drop_old link_escapes suffix hash validate (platform_artifacts p u) c (provider_keys u)
        (archive_name u (hash bytes)) meta
    return 200

  -- the steps behind the rebuild of the checksums, by its success
  unfoldable pub behind_checksums :
      Bytes → Bytes → Bool → Read → Read → Read → Result (Unit {0}) → M ℕ
  behind_checksums bytes key existed meta checksums signature (fails e) =
      restore_publication key existed meta checksums signature >> return 500
  behind_checksums bytes key existed meta checksums signature (done x) =
      add_module_version link_escapes suffix hash validate (platform_artifacts p u) c
        (provider_keys u)
      >>= behind_listing bytes key existed meta checksums signature

  -- the steps behind the write of the metadata, by its success
  unfoldable pub behind_platform : Bytes → Bytes → Bool → Read → Result (Unit {0}) → M ℕ
  behind_platform bytes key existed meta (fails e) = dropped key existed >> return 500
  behind_platform bytes key existed meta (done x) = do
    checksums ← previous (checksums_key u.namespace u.name u.version)
    signature ← previous (signature_key u.namespace u.name u.version)
    rebuilt ← attempt (
        rebuild_provider_checksums link_escapes suffix p.decode sort_slice signer u.namespace u.name
          u.version)
    behind_checksums bytes key existed meta checksums signature rebuilt

  -- the steps behind the write of the archive, by its success
  unfoldable pub behind_archive : Result (Bytes × Bytes × Bool) → M ℕ
  behind_archive (fails e) = return (store_status e)
  behind_archive (done (bytes, key, existed)) = do
    meta ← previous (platform_meta_key u)
    written ← attempt (
        put link_escapes suffix (platform_meta_key u)
          ((platform_artifacts p u).encode (archive_name u (hash bytes)) (hash bytes)))
    behind_platform bytes key existed meta written

  unfoldable pub store_provider : ℕ → Stream → M ℕ
  store_provider max_size s =
      attempt (put_stream_immutable link_escapes suffix s max_size validate archive_key)
      >>= behind_archive

  -- `uploadProviderHandler`, of the part of the request: the status
  unfoldable pub upload_provider : ℕ → UploadError ⊎ Stream → M ℕ
  upload_provider max_size (inl e) = return (write_upload_error e)
  upload_provider max_size (inr s) =
      if ltb (length s.bytes) 4
      then return 400
      else elim (validate_upload
          (peek link_escapes suffix hash validate (platform_artifacts p u) c s.bytes)
          (codes "zip")) [ some e ↦ return 400 | none ↦ store_provider max_size s ]

  -- `deleteProviderVersionHandler`: the status
  unfoldable pub delete_provider_version : M ℕ
  delete_provider_version =
      attempt (stage_delete_tree link_escapes suffix (provider_keys u).prefix)
      >>= behind_stage link_escapes suffix hash validate (platform_artifacts p u) c
          (provider_keys u)
