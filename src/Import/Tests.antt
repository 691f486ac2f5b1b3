-- ===== src/Import/Tests.antt =====
-- The theorems on the import at concrete inputs.
use terraform_registry.Base.Int.{pos}
use terraform_registry.Base.{◌+◌, ◌≤◌, false, some, ◌≡◌, refl, [], ◌∷◌, ◌++◌, length}
use terraform_registry.Text.{
  Bytes, codes, text_eq, has_prefix, contains, cut, split, is_digit, digits_value, parse_uint,
}
use terraform_registry.Semver.{is_identifier_char, has_leading_zero, valid_version}
use terraform_registry.Regex.{
  one_then, star_then, upto_then, exactly_then, find, submatches, match_string,
}
use terraform_registry.Validation.{is_alnum, is_name_char}
use terraform_registry.Import.Version.{
  valid_import_name, valid_import_identifier, valid_import_identifiers, valid_import_part,
  valid_import_core, valid_import_version_and_pre, valid_import_version,
}
use terraform_registry.Import.Manifest.{
  Descriptor, Manifest, ArtifactMetadata, ok, annotation, terraform_oci_artifact_type,
  terraform_provider_layer_type, provider_identity, module_identity, read_annotations, check_kind,
  check_layers, metadata_from_oci_manifest,
}
use terraform_registry.Import.Fetch.{
  Oci, media_type_image_manifest, read_limited, fetch_descriptor, check_manifest, check_decoded,
  open_manifest, copy_layer, download_layer, unpack_layers, unpack_oci_artifact,
}
use terraform_registry.Import.Mirror.{valid_import_version_mirror}
use terraform_registry.Import.Verified.{IsUnpacked, unpack-IsVerified, unpack_bounded}

valid_import_version_mirror_example :
    valid_import_version (codes "v1.2.3-rc.01") ≡ valid_version (codes "v1.2.3-rc.01")
valid_import_version_mirror_example = valid_import_version_mirror (codes "v1.2.3-rc.01")

abbrev zip_bytes : Bytes
zip_bytes = codes "zip"

abbrev layer : Descriptor
layer = record {
  media_type = terraform_provider_layer_type;
  digest = codes "sha256:zip";
  size = pos 3;
}

abbrev descriptor : Descriptor
descriptor = record {
  media_type = media_type_image_manifest;
  digest = codes "sha256:zip";
  size = pos 3;
}

abbrev manifest : Manifest
manifest = record {
  schema_version = 2;
  artifact_type = terraform_oci_artifact_type;
  layers = layer ∷ [];
  annotations =
      (codes "io.terraform.kind", codes "provider")
      ∷ (codes "io.terraform.namespace", codes "acme")
      ∷ (codes "io.terraform.name", codes "cloud")
      ∷ (codes "io.terraform.version", codes "1.0.0")
      ∷ (codes "io.terraform.os", codes "linux")
      ∷ (codes "io.terraform.arch", codes "amd64")
      ∷ [];
}

abbrev identity : ArtifactMetadata
identity = record {
  kind = codes "provider";
  namespace = codes "acme";
  name = codes "cloud";
  provider = [];
  version = codes "1.0.0";
  os = codes "linux";
  arch = codes "amd64";
}

-- a source that delivers the same bytes for each descriptor
abbrev oci : Oci
oci = record {
  digest_valid = λ d. text_eq d (codes "sha256:zip");
  digest_of = λ d b. text_eq d (codes "sha256:" ++ b);
  fetch = λ d. some (zip_bytes, false);
  decode_manifest = λ b. some manifest;
}

unpack_runs : (unpack_oci_artifact oci descriptor 100).1 ≡ ok identity
unfolding text_eq unpack_oci_artifact open_manifest fetch_descriptor read_limited check_decoded
    check_manifest metadata_from_oci_manifest check_layers check_kind read_annotations annotation
    provider_identity valid_import_name match_string find is_alnum is_name_char copy_layer
    download_layer unpack_layers module_identity valid_import_core valid_import_identifier
    valid_import_identifiers valid_import_part valid_import_version valid_import_version_and_pre
    exactly_then one_then star_then submatches upto_then has_leading_zero is_identifier_char
    contains cut digits_value has_prefix is_digit parse_uint split
unpack_runs = refl

unpack-IsVerified_example :
    IsUnpacked oci descriptor 100 (unpack_oci_artifact oci descriptor 100).0 identity
unpack-IsVerified_example = unpack-IsVerified oci descriptor 100 identity unpack_runs

unpack_bounded_example : length (unpack_oci_artifact oci descriptor 2).0 ≤ 2 + 1
unpack_bounded_example = unpack_bounded oci descriptor 2
