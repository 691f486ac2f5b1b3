-- ===== src/Upload.antt =====
-- registry-server/middleware.go, api.go, storage.go and ui.go: the tests of an upload and their
-- statuses, the scans of the storage for versions, and the choice of a page of the user interface.
use terraform_registry.Base.{
  ℕ, zero, suc, ◌*◌, Bool, true, false, not, ◌&&◌, ◌||◌, Option, none, some, List, [], ◌∷◌,
  if◌then◌else◌, ltb, leb, ◌==◌, is_nil, any,
}
use terraform_registry.Base.Int.{ℤ, pos, negsuc}
use terraform_registry.Text.{Bytes, codes, text_eq, has_suffix, trim_suffix, split}
use terraform_registry.Semver.{sort_semantic_versions}

pub data UploadError : Type 0 where
  too_small not_zip not_gzip not_multipart no_part wrong_part too_large : UploadError

-- `ValidateUpload`
unfoldable pub validate_upload : Bytes → Bytes → Option UploadError
validate_upload (a ∷ b ∷ c ∷ d ∷ rest) expected_type =
    if text_eq expected_type (codes "zip")
    then if not (a == b'P') || not (b == b'K') || not (c == 3) || not (d == 4)
      then some not_zip
      else none
    else if text_eq expected_type (codes "tar.gz")
    then if not (a == 31) || not (b == 139) then some not_gzip else none
    else none
validate_upload _ expected_type = some too_small

-- `SetMaxUploadSize`: the limit, of the variable `MAX_UPLOAD_MB` and what `Sscanf` reads of it
unfoldable pub set_max_upload_size : (Bytes → Option ℤ) → Bytes → ℕ → ℕ
set_max_upload_size scan value limit = if is_nil value then limit else elim (scan value) [
  | none ↦ limit
  | some (negsuc n) ↦ limit
  | some (pos mb) ↦ if ltb 0 mb && leb mb 10240 then mb * 1024 * 1024 else limit
]

-- A part of a multipart body, or how reading it fails.
pub record Part : Type 0 where
  pub form_name : Bytes
  pub file_name : Bytes
  pub content : Bytes

pub data Multipart : Type 0 where
  no_reader : Multipart
  next_fails : (over_limit : Bool) → Multipart
  next_part : Part → Multipart

pub data PartResult : Type 0 where
  part : Part → PartResult
  refused : UploadError → PartResult

-- `multipartUploadPart`; an error that wraps `MaxBytesError` is the error `too_large`.
unfoldable pub multipart_upload_part : Multipart → PartResult
multipart_upload_part no_reader = refused not_multipart
multipart_upload_part (next_fails over_limit) = refused (if over_limit then too_large else no_part)
multipart_upload_part (next_part p) =
    if not (text_eq p.form_name (codes "file")) || is_nil p.file_name
    then refused wrong_part
    else part p

-- `isUploadTooLarge`
unfoldable pub is_upload_too_large : UploadError → Bool
is_upload_too_large too_large = true
is_upload_too_large _ = false

-- `writeUploadError`: the status
unfoldable pub write_upload_error : UploadError → ℕ
write_upload_error e = if is_upload_too_large e then 413 else 400

-- the segment behind `n` others
unfoldable pub segment : ℕ → List Bytes → Option Bytes
segment n [] = none
segment zero (p ∷ ps) = some p
segment (suc n) (p ∷ ps) = segment n ps

-- the loop of `ScanProviderVersions`
unfoldable pub scan_provider : List Bytes → List Bytes → List Bytes
scan_provider seen [] = []
scan_provider seen (p ∷ ps) =
    let skip = scan_provider seen ps in
    elim (segment 3 (split b'/' (trim_suffix p (codes "/")))) [
      | none ↦ skip
      | some v ↦
          let more = scan_provider (v ∷ seen) ps in
          if not (any (text_eq v) seen) && not (text_eq v (codes "index.json"))
          then v ∷ more
          else skip
    ]

-- `ScanProviderVersions`, of the directories that `List` finds
unfoldable pub scan_provider_versions : Option (List Bytes) → Option (List Bytes)
scan_provider_versions none = none
scan_provider_versions (some prefixes) = some (sort_semantic_versions (scan_provider [] prefixes))

-- the loop of `ScanModuleVersions`
unfoldable pub scan_module : List Bytes → List Bytes
scan_module [] = []
scan_module (p ∷ ps) =
    let rest = scan_module ps in
    elim (segment 4 (split b'/' (trim_suffix p (codes "/")))) [ none ↦ rest | some v ↦ v ∷ rest ]

-- `ScanModuleVersions`, of the directories that `List` finds
unfoldable pub scan_module_versions : Option (List Bytes) → Option (List Bytes)
scan_module_versions none = none
scan_module_versions (some prefixes) = some (sort_semantic_versions (scan_module prefixes))

pub data Page : Type 0 where
  index_html style_css app_js : Page

-- `uiHandler`: the page, and its content type
unfoldable pub ui_page : Bytes → Page × Bytes
ui_page path =
    let index : Page × Bytes = (index_html, codes "text/html; charset=utf-8") in
    if text_eq path (codes "/ui")
      || text_eq path (codes "/ui/")
      || text_eq path (codes "/ui/index.html")
    then index
    else if has_suffix path (codes "/ui/style.css")
    then (style_css, codes "text/css; charset=utf-8")
    else if has_suffix path (codes "/ui/app.js")
    then (app_js, codes "application/javascript; charset=utf-8")
    else index
