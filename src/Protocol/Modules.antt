-- ===== src/Protocol/Modules.antt =====
-- registry-server/main.go: the handlers of the module protocol, and the download of files.
use terraform_registry.Base.{ℕ, not, Option, none, some, List, [], ◌∷◌, ◌++◌, if◌then◌else◌, is_nil}
use terraform_registry.Text.{Bytes, codes, has_suffix}
use terraform_registry.Regex.{match_string}
use terraform_registry.Validation.{module_file_re, is_public_artifact_path}
use terraform_registry.Protocol.Reader.{
  found, missing, failed, Reader, Answer, error, body, path_of, get_index, is_deprecated,
  download_url, counted,
}

-- the route variables of a module
pub record ModuleId : Type 0 where
  pub namespace : Bytes
  pub name : Bytes
  pub provider : Bytes

abbrev pub module_path : ModuleId → List Bytes → Bytes
module_path id rest = path_of (codes "modules" ∷ id.namespace ∷ id.name ∷ id.provider ∷ rest)

module _ (r : Reader) where
  -- the file of a version's artifact metadata
  unfoldable pub named_artifact : Bytes → Option Bytes → Option Bytes
  named_artifact prefix none = none
  named_artifact prefix (some filename) =
      let key = prefix ++ codes "/" ++ filename in
      if not (match_string module_file_re filename)
      then none
      else if not (r.exists key)
      then none
      else some key

  -- `moduleArtifactKey`
  unfoldable pub module_artifact_key : ModuleId → Bytes → Option Bytes
  module_artifact_key id version =
      let prefix = module_path id (version ∷ []) in
      let legacy = prefix ++ codes "/module.tar.gz" in
      let old = if r.exists legacy then some legacy else none in
      elim (r.get (prefix ++ codes "/artifact.json")) [
        | found text ↦ named_artifact prefix (r.decode_artifact text)
        | missing ↦ old
        | failed ↦ old
      ]

  abbrev pub module_metadata_key : ModuleId → Bytes → Bytes
  module_metadata_key id version = module_path id (version ∷ codes "metadata.json" ∷ [])

  -- the loop of `moduleVersionsHandler`
  unfoldable pub module_entries : ModuleId → List Bytes → List Bytes
  module_entries id [] = []
  module_entries id (v ∷ vs) =
      let rest = module_entries id vs in
      if is_deprecated r (module_metadata_key id v)
      then rest
      else elim (module_artifact_key id v) [ none ↦ rest | some key ↦ v ∷ rest ]

  -- `moduleVersionsHandler`: the source and the versions
  unfoldable pub module_versions : ModuleId → Answer (Bytes × List Bytes)
  module_versions id = elim (get_index r (module_path id (codes "index.json" ∷ []))) [
    | none ↦ error 404
    | some versions ↦
        let modules = module_entries id versions in
        if is_nil modules
        then error 404
        else body (path_of (id.namespace ∷ id.name ∷ id.provider ∷ []), modules)
  ]

  -- the answer of `moduleDownloadHandler`: the header `X-Terraform-Get` of the answer 204
  unfoldable pub module_download : ModuleId → Bytes → Answer Bytes
  module_download id version = elim (module_artifact_key id version) [
    | none ↦ error 404
    | some key ↦ body (download_url r key)
  ]

  -- the handler: it counts the request
  unfoldable pub module_download_handler : ℕ → ModuleId → Bytes → ℕ × Answer Bytes
  module_download_handler downloads id version = (counted downloads, module_download id version)

  -- the loop of `moduleLatestDownloadHandler`, which begins at the end of the index
  unfoldable pub find_latest : ModuleId → List Bytes → Option (Bytes × Bytes)
  find_latest id [] = none
  find_latest id (v ∷ vs) =
      let behind = find_latest id vs in
      elim behind [
        | some hit ↦ some hit
        | none ↦
            if is_deprecated r (module_metadata_key id v)
            then none
            else elim (module_artifact_key id v) [ none ↦ none | some key ↦ some (v, key) ]
      ]

  -- `moduleLatestDownloadHandler`; an empty version counts as none
  unfoldable pub module_latest_download : ModuleId → Answer Bytes
  module_latest_download id = elim (get_index r (module_path id (codes "index.json" ∷ []))) [
    | none ↦ error 404
    | some versions ↦ elim (find_latest id versions) [
      | none ↦ error 404
      | some (v, key) ↦ if is_nil v then error 404 else body (download_url r key)
    ]
  ]

  -- `fileDownloadHandler`: the content type, and the file's bytes
  unfoldable pub file_download : Bytes → Answer (Bytes × Bytes)
  file_download path = if not (is_public_artifact_path path) then error 403 else elim (r.get path) [
    | missing ↦ error 404
    | failed ↦ error 404
    | found text ↦
        if has_suffix path (codes ".tar.gz")
        then body (codes "application/gzip", text)
        else if has_suffix path (codes ".zip")
        then body (codes "application/zip", text)
        else body (codes "application/octet-stream", text)
  ]
