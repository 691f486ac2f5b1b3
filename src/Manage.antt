-- ===== src/Manage.antt =====
-- registry-server/api.go: the upload and the deletion of a module version over the files. The
-- handlers hold one mutex, so that one of them runs at a time. `validate` is validateModuleArchive,
-- `hash` SHA-256 in hexadecimal digits; the JSON forms of the artifact and of the index are codecs.
pub mod Steady
pub mod Failed
pub mod Provider
pub mod Upkeep
pub mod Withdrawn
pub mod Tests
pub mod ProviderTests
use terraform_registry.Base.{
  ℕ, ◌⊎◌, inl, inr, Bool, true, false, Option, none, some, List, [], ◌∷◌, ◌++◌, if◌then◌else◌, ltb,
  length, take, is_nil, not, ◌&&◌, ◌||◌,
}
use terraform_registry.Text.{Bytes, codes, text_eq}
use terraform_registry.Protocol.Reader.{Read, path_of, found, missing, failed}
use terraform_registry.Disk.{
  Files, Error, io, too_large, invalid_archive, Result, done, fails, World, M, ◌>>=◌, ◌>>◌, return,
  try, attempt,
}
use terraform_registry.Upload.{UploadError, validate_upload, write_upload_error}
use terraform_registry.Storage.Writes.{Stream, put, put_stream_immutable}
use terraform_registry.Storage.OnDisk.{get, on_disk}
use terraform_registry.Storage.Index.{IndexCodec, add_version_to_index, remove_version_from_index}
use terraform_registry.Storage.Removal.{delete, stage_delete_tree, rollback, commit}

-- the keys of a version: of its index, and of what lies below it
pub record VersionKeys : Type 0 where
  pub index : Bytes
  pub prefix : Bytes
  pub version : Bytes

unfoldable pub module_keys : Bytes → Bytes → Bytes → Bytes → VersionKeys
module_keys namespace name provider version = record {
  index = path_of (codes "modules" ∷ namespace ∷ name ∷ provider ∷ codes "index.json" ∷ []);
  prefix = path_of (codes "modules" ∷ namespace ∷ name ∷ provider ∷ version ∷ []);
  version = version;
}

abbrev pub artifact_meta_key : VersionKeys → Bytes
artifact_meta_key k = k.prefix ++ codes "/artifact.json"

-- `ModuleArtifactMeta` in JSON: a file name and a hash; what is decoded is the file name.
pub record ArtifactCodec : Type 0 where
  pub encode : Bytes → Bytes → Bytes
  pub decode : Bytes → Option Bytes

-- the status for an error of the storage
unfoldable pub store_status : Error → ℕ
store_status too_large = 413
store_status invalid_archive = 400
store_status _ = 500

module _ (link_escapes : Bytes → Bool) (suffix : Bytes → Files → Bytes) (hash : Bytes → Bytes)
    (validate : Bytes → Option Error) (a : ArtifactCodec) {Meta : Type 0}
    (c : IndexCodec Meta) where
  abbrev pub filename_of : Bytes → Bytes
  filename_of bytes = codes "module_" ++ (hash bytes ++ codes ".tar.gz")

  abbrev pub module_key : VersionKeys → Bytes → Bytes
  module_key k bytes = k.prefix ++ (codes "/" ++ filename_of bytes)

  abbrev pub read_key : Bytes → M Read
  read_key key w = (done (get link_escapes w key), w)

  abbrev pub changed : World × Bool → Result Bool × World
  changed (w, ok) = (done ok, w)

  -- `AddModuleVersion` and `RemoveModuleVersion`: whether they succeed
  abbrev pub add_module_version : VersionKeys → M Bool
  add_module_version k w =
      changed (add_version_to_index (on_disk link_escapes suffix) c w k.index k.version)

  abbrev pub remove_module_version : VersionKeys → M Bool
  remove_module_version k w =
      changed (remove_version_from_index (on_disk link_escapes suffix) c w k.index k.version)

  -- `if !artifactExisted { _ = store.Delete(key) }`
  unfoldable pub drop_new : Bytes → Bool → M (Unit {0})
  drop_new key true = return tt
  drop_new key false = try (delete link_escapes key)

  -- the metadata as they were before
  unfoldable pub restore : Bytes → Read → M (Unit {0})
  restore key (found text) = try (put link_escapes suffix key text)
  restore key missing = try (delete link_escapes key)
  restore key failed = try (delete link_escapes key)

  -- the file that the metadata named before goes, if it is another one
  unfoldable pub drop_file : VersionKeys → Bytes → Option Bytes → M (Unit {0})
  drop_file k filename none = return tt
  drop_file k filename (some old) =
      if is_nil old || text_eq old filename
      then return tt
      else try (delete link_escapes (k.prefix ++ (codes "/" ++ old)))

  unfoldable pub drop_old : VersionKeys → Bytes → Read → M (Unit {0})
  drop_old k filename (found text) = drop_file k filename (a.decode text)
  drop_old k filename missing = return tt
  drop_old k filename failed = return tt

  -- the steps behind the change of the index, by its success
  unfoldable pub behind_index : VersionKeys → Bytes → Bytes → Bool → Read → Bool → M ℕ
  behind_index k bytes key existed previous false = do
    restore (artifact_meta_key k) previous
    drop_new key existed
    return 500
  behind_index k bytes key existed previous true = do
    drop_old k (filename_of bytes) previous
    return 200

  -- the steps behind the write of the metadata, by its success
  unfoldable pub behind_metadata :
      VersionKeys → Bytes → Bytes → Bool → Read → Result (Unit {0}) → M ℕ
  behind_metadata k bytes key existed previous (fails e) = drop_new key existed >> return 500
  behind_metadata k bytes key existed previous (done u) =
      add_module_version k >>= behind_index k bytes key existed previous

  -- the steps behind the write of the artifact, by its success
  unfoldable pub behind_artifact : VersionKeys → Result (Bytes × Bytes × Bool) → M ℕ
  behind_artifact k (fails e) = return (store_status e)
  behind_artifact k (done (bytes, key, existed)) = do
    previous ← read_key (artifact_meta_key k)
    written ←
        attempt (
          put link_escapes suffix (artifact_meta_key k) (a.encode (filename_of bytes) (hash bytes)))
    behind_metadata k bytes key existed previous written

  -- the steps behind the tests of the upload
  unfoldable pub store_module : VersionKeys → ℕ → Stream → M ℕ
  store_module k max_size s =
      attempt (put_stream_immutable link_escapes suffix s max_size validate (module_key k))
      >>= behind_artifact k

  -- the four bytes that are looked at, with zeros where the upload ends before
  abbrev pub peek : Bytes → Bytes
  peek bytes = take 4 (bytes ++ (0 ∷ 0 ∷ 0 ∷ 0 ∷ []))

  -- `uploadModuleHandler`, of the part of the request: the status
  unfoldable pub upload_module : VersionKeys → ℕ → UploadError ⊎ Stream → M ℕ
  upload_module k max_size (inl e) = return (write_upload_error e)
  upload_module k max_size (inr s) =
      if ltb (length s.bytes) 2
      then return 400
      else elim (validate_upload (peek s.bytes) (codes "tar.gz")) [
        | some e ↦ return 400
        | none ↦ store_module k max_size s
      ]

  unfoldable pub behind_commit : Result (Unit {0}) → M ℕ
  behind_commit (fails e) = return 500
  behind_commit (done u) = return 200

  unfoldable pub behind_removal : Bytes × Bytes → Bool → M ℕ
  behind_removal staged false = try (rollback staged) >> return 500
  behind_removal staged true = attempt (commit staged) >>= behind_commit

  unfoldable pub behind_stage : VersionKeys → Result (Bytes × Bytes) → M ℕ
  behind_stage k (fails e) = return 404
  behind_stage k (done staged) = remove_module_version k >>= behind_removal staged

  -- `deleteModuleVersionHandler`: the status
  unfoldable pub delete_module_version : VersionKeys → M ℕ
  delete_module_version k =
      attempt (stage_delete_tree link_escapes suffix k.prefix) >>= behind_stage k
