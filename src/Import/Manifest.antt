-- ===== src/Import/Manifest.antt =====
-- cmd/tfreg/import.go: the manifest of an OCI artifact, and the identity in its annotations.
use terraform_registry.Base.Int.{ℤ}
use terraform_registry.Base.{ℕ, Bool, true, false, not, ◌&&◌, List, [], ◌∷◌, if◌then◌else◌}
use terraform_registry.Text.{Bytes, codes, text_eq}
use terraform_registry.Import.Version.{valid_import_name, valid_import_version}

-- A layer of an OCI manifest, and a descriptor: both have a media type, a digest and a size.
pub record Descriptor : Type 0 where
  pub media_type : Bytes
  pub digest : Bytes
  pub size : ℤ

-- `ocispec.Manifest`, as far as the client reads it
pub record Manifest : Type 0 where
  pub schema_version : ℕ
  pub artifact_type : Bytes
  pub layers : List Descriptor
  pub annotations : List (Bytes × Bytes)

-- `ociArtifactMetadata`
pub record ArtifactMetadata : Type 0 where
  pub kind : Bytes
  pub namespace : Bytes
  pub name : Bytes
  pub provider : Bytes
  pub version : Bytes
  pub os : Bytes
  pub arch : Bytes

pub data ImportError : Type 0 where
  manifest_media_type manifest_fetch manifest_decode schema_version artifact_type : ImportError
  layer_count layer_media_type bad_identity unknown_kind bad_url : ImportError
  bad_digest size_exceeds_limit fetch_failed copy_failed size_mismatch digest_mismatch : ImportError

pub data Result {ℓ} (A : Type ℓ) : Type ℓ where
  err : ImportError → Result A
  ok : A → Result A

-- The first error ends the run.
infixl 5 ◌>>=◌ ◌>>◌
abbrev pub ◌>>=◌ {ℓ κ} : {B : Type κ} {A : Type ℓ} (m : Result A) (f : A → Result B) → Result B
m >>= f = elim m [ err e ↦ err e | ok a ↦ f a ]

abbrev pub ◌>>◌ {κ} : {B : Type κ} (m : Result (Unit {0})) (next : Result B) → Result B
m >> next = m >>= λ done. next

-- `if failed { return err }`
abbrev pub fail_if : Bool → ImportError → Result (Unit {0})
fail_if true e = err e
fail_if false e = ok tt

-- A Go map of strings read at a key: the empty string where the key is missing.
unfoldable pub annotation : List (Bytes × Bytes) → Bytes → Bytes
annotation [] key = []
annotation ((k, v) ∷ rest) key = if text_eq k key then v else annotation rest key

abbrev pub terraform_oci_artifact_type : Bytes
terraform_oci_artifact_type = codes "application/vnd.terraform.registry.artifact.v1"

abbrev pub terraform_provider_layer_type : Bytes
terraform_provider_layer_type = codes "application/vnd.terraform.provider.package.v1+zip"

abbrev pub terraform_module_layer_type : Bytes
terraform_module_layer_type = codes "application/vnd.terraform.module.package.v1+tar+gzip"

-- the identity tests for the two kinds, which `metadataFromOCIManifest` and `importUploadURL` share
unfoldable pub provider_identity : ArtifactMetadata → Bool
provider_identity m =
    valid_import_name m.namespace
    && (valid_import_name m.name
        && (valid_import_name m.os && (valid_import_name m.arch && valid_import_version m.version)))

unfoldable pub module_identity : ArtifactMetadata → Bool
module_identity m =
    valid_import_name m.namespace
    && (valid_import_name m.name
        && (valid_import_name m.provider && valid_import_version m.version))

unfoldable pub read_annotations : List (Bytes × Bytes) → ArtifactMetadata
read_annotations a = record {
  kind = annotation a (codes "io.terraform.kind");
  namespace = annotation a (codes "io.terraform.namespace");
  name = annotation a (codes "io.terraform.name");
  provider = annotation a (codes "io.terraform.provider");
  version = annotation a (codes "io.terraform.version");
  os = annotation a (codes "io.terraform.os");
  arch = annotation a (codes "io.terraform.arch");
}

-- the `switch` over the kind, for the one layer of the manifest
unfoldable pub check_kind : ArtifactMetadata → Bytes → Result ArtifactMetadata
check_kind m media_type =
    if text_eq m.kind (codes "provider")
    then if not (text_eq media_type terraform_provider_layer_type)
      then err layer_media_type
      else if not (provider_identity m)
      then err bad_identity
      else ok m
    else if text_eq m.kind (codes "module")
    then if not (text_eq media_type terraform_module_layer_type)
      then err layer_media_type
      else if not (module_identity m)
      then err bad_identity
      else ok m
    else err unknown_kind

unfoldable pub check_layers : ArtifactMetadata → List Descriptor → Result ArtifactMetadata
check_layers m (layer ∷ []) = check_kind m layer.media_type
check_layers m _ = err layer_count

-- `metadataFromOCIManifest`
unfoldable pub metadata_from_oci_manifest : Manifest → Result ArtifactMetadata
metadata_from_oci_manifest manifest =
    check_layers (read_annotations manifest.annotations) manifest.layers
