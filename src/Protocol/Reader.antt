-- ===== src/Protocol/Reader.antt =====
-- registry-server/storage.go: what the handlers read of the storage, and the readers of its JSON files.
use terraform_registry.Base.{
  ℕ, ◌+◌, ◌%◌, ◌^◌, Bool, true, false, not, ◌&&◌, Option, none, some, List, [], ◌∷◌, ◌++◌,
  if◌then◌else◌, any,
}
use terraform_registry.Text.{Bytes, codes, text_eq, has_suffix, join}
use terraform_registry.Semver.{sort_semantic_versions}

-- How a read of a file ends.
pub data Read : Type 0 where
  found : Bytes → Read
  missing failed : Read

-- `PlatformMeta`; the protocols are not read by the code.
pub record PlatformMeta : Type 0 where
  pub os : Bytes
  pub arch : Bytes
  pub filename : Bytes
  pub shasum : Bytes

-- `VersionMetadata`, as far as the handlers read it
pub record VersionMetadata : Type 0 where
  pub version : Bytes
  pub deprecated : Bool
  pub deprecation : Bytes

-- The operations of the storage: `Get`, `Exists`, and the files that `List` finds below a prefix.
-- The decoders of the package `encoding/json` stand beside them; a module's artifact metadata is its
-- file name.
pub record Reader : Type 0 where
  pub get : Bytes → Read
  pub exists : Bytes → Bool
  pub walk : Bytes → Option (List Bytes)
  pub base_url : Bytes
  pub decode_index : Bytes → Option (List Bytes)
  pub decode_metadata : Bytes → Option VersionMetadata
  pub decode_platform : Bytes → Option PlatformMeta
  pub decode_artifact : Bytes → Option Bytes

abbrev pub path_of : List Bytes → Bytes
path_of parts = join b'/' parts

-- what a handler answers: an error's status, or a body
pub data Answer {ℓ} (A : Type ℓ) : Type ℓ where
  error : ℕ → Answer A
  body : A → Answer A

-- a counter of 64 bits, one more
unfoldable pub counted : ℕ → ℕ
counted n = (n + 1) % 2 ^ 64

-- the loop of `GetProviderPlatforms`, with the keys of the platforms seen so far
unfoldable pub collect :
    (Bytes → Read) → (Bytes → Option PlatformMeta) → List Bytes → List Bytes → List PlatformMeta
collect get decode seen [] = []
collect get decode seen (obj ∷ objs) =
    let skip = collect get decode seen objs in
    if has_suffix obj (codes ".json")
      && not (has_suffix obj (codes "index.json"))
      && not (has_suffix obj (codes "metadata.json"))
    then elim (get obj) [
      | missing ↦ skip
      | failed ↦ skip
      | found data_bytes ↦ elim (decode data_bytes) [
        | none ↦ skip
        | some pm ↦
            let key = pm.os ++ codes "/" ++ pm.arch in
            let more = collect get decode (key ∷ seen) objs in
            if any (text_eq key) seen then skip else pm ∷ more
      ]
    ]
    else skip

-- `indexHasVersion`
unfoldable pub index_has_version : List Bytes → Bytes → Bool
index_has_version [] version = false
index_has_version (v ∷ vs) version =
    let rest = index_has_version vs version in if text_eq v version then true else rest

module _ (r : Reader) where
  -- `getIndex`
  unfoldable pub get_index : Bytes → Option (List Bytes)
  get_index key = elim (r.get key) [
    | missing ↦ some []
    | failed ↦ none
    | found text ↦ elim (r.decode_index text) [
      | none ↦ none
      | some versions ↦ some (sort_semantic_versions versions)
    ]
  ]

  -- `GetVersionMetadata`
  unfoldable pub get_version_metadata : Bytes → Option VersionMetadata
  get_version_metadata key = elim (r.get key) [
    | missing ↦ none
    | failed ↦ none
    | found text ↦ r.decode_metadata text
  ]

  -- the test of the handlers that skip deprecated versions
  unfoldable pub is_deprecated : Bytes → Bool
  is_deprecated key = elim (get_version_metadata key) [ none ↦ false | some m ↦ m.deprecated ]

  -- `GetProviderPlatforms`
  unfoldable pub get_provider_platforms : Bytes → Bytes → Bytes → Option (List PlatformMeta)
  get_provider_platforms namespace name version =
      elim (r.walk (path_of (codes "providers" ∷ namespace ∷ name ∷ version ∷ [] ∷ []))) [
        | none ↦ none
        | some objects ↦ some (collect r.get r.decode_platform [] objects)
      ]

  -- `DownloadURL`
  unfoldable pub download_url : Bytes → Bytes
  download_url key = r.base_url ++ codes "/download/" ++ key
