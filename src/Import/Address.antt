-- ===== src/Import/Address.antt =====
-- cmd/tfreg/import.go: the address to which an imported package is uploaded.
use terraform_registry.Base.{
  ℕ, ◌+◌, ◌/◌, ◌%◌, Bool, not, ◌&&◌, ◌||◌, Option, none, some, is_some, is_nil, map, ltb, List, [],
  ◌∷◌, ◌++◌, ◌==◌, if◌then◌else◌,
}
use terraform_registry.Text.{Bytes, codes, text_eq, join, trim_right}
use terraform_registry.Validation.{is_alnum}
use terraform_registry.Import.Manifest.{
  ArtifactMetadata, bad_url, bad_identity, unknown_kind, Result, ok, err, ◌>>=◌, provider_identity,
  module_identity,
}

-- `url.URL`, as far as `importUploadURL` reads it
pub record Url : Type 0 where
  pub scheme : Bytes
  pub user : Option Bytes
  pub host : Bytes
  pub path : Bytes
  pub raw_query : Bytes
  pub fragment : Bytes

abbrev hex_digit : ℕ → ℕ
hex_digit n = if ltb n 10 then n + b'0' else n + 55

-- the bytes that `url.PathEscape` keeps
unfoldable pub keeps_byte : ℕ → Bool
keeps_byte c =
    is_alnum c
    || c == b'-'
    || c == b'_'
    || c == b'.'
    || c == b'~'
    || c == b'$'
    || c == b'&'
    || c == b'+'
    || c == b'='
    || c == b':'
    || c == b'@'

-- `url.PathEscape`
unfoldable pub path_escape : Bytes → Bytes
path_escape [] = []
path_escape (c ∷ s) =
    (if keeps_byte c then c ∷ [] else b'%' ∷ hex_digit (c / 16) ∷ hex_digit (c % 16) ∷ [])
    ++ path_escape s

-- the segments behind the registry's own path
unfoldable pub upload_segments : ArtifactMetadata → Result (List Bytes)
upload_segments m =
    if text_eq m.kind (codes "provider")
    then if not (provider_identity m)
      then err bad_identity
      else ok (
          codes "api"
          ∷ codes "v1"
          ∷ codes "providers"
          ∷ m.namespace
          ∷ m.name
          ∷ m.version
          ∷ m.os
          ∷ m.arch
          ∷ [])
    else if text_eq m.kind (codes "module")
    then if not (module_identity m)
      then err bad_identity
      else ok (
          codes "api"
          ∷ codes "v1"
          ∷ codes "modules"
          ∷ m.namespace
          ∷ m.name
          ∷ m.provider
          ∷ m.version
          ∷ [])
    else err unknown_kind

-- the tests of the registry's address
unfoldable pub bad_base : Url → Bool
bad_base u =
    not (text_eq u.scheme (codes "http")) && not (text_eq u.scheme (codes "https"))
    || is_nil u.host
    || is_some u.user
    || not (is_nil u.raw_query)
    || not (is_nil u.fragment)

-- `importUploadURL`. `url.Parse` is a parameter, and the result is the address before `String`.
unfoldable pub import_upload_url : (Bytes → Option Url) → Bytes → ArtifactMetadata → Result Url
import_upload_url url_parse registry_url m = elim (url_parse (trim_right b'/' registry_url)) [
  | none ↦ err bad_url
  | some base ↦
      if bad_base base
      then err bad_url
      else upload_segments m >>= λ segments. ok (record base {
        path = trim_right b'/' base.path ++ (b'/' ∷ join b'/' (map path_escape segments));
      })
]
