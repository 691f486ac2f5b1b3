-- ===== src/Protocol/Tests.antt =====
-- The theorems on the protocol handlers at concrete inputs.
use terraform_registry.Base.{false, none, some, ◌≡◌, ◌⊎◌, ◌↔◌, refl, List, [], ◌∷◌}
use terraform_registry.Text.{
  has_suffix, Bytes, codes, text_eq, has_prefix, contains, cut, split, join, is_digit, digits_value,
  parse_uint,
}
use terraform_registry.Semver.{
  numeric_identifier, is_identifier_char, has_leading_zero, valid_identifier, valid_identifiers,
  core_number, parse_core, parse_version_and_pre, parse_semantic_version, compare_semver,
  sort_semantic_versions,
}
use terraform_registry.Semver.Sort.{IsVersion}
use terraform_registry.Regex.{
  one_then, star_then, upto_then, exactly_then, find, submatches, match_string,
}
use terraform_registry.Validation.{is_hex}
use terraform_registry.Protocol.Reader.{
  Reader, found, missing, body, error, get_index, get_version_metadata, is_deprecated, download_url,
}
use terraform_registry.Protocol.Modules.{
  ModuleId, module_path, named_artifact, module_artifact_key, module_entries, module_versions,
  module_latest_download,
}
use terraform_registry.Protocol.Providers.{ProviderId, network_mirror_index, provider_versions}
use terraform_registry.Protocol.Latest.{is_served, IsLatest, module_latest_download_lem}
use terraform_registry.Protocol.Listed.{
  Lists, network_mirror_index_iff, CanDownload, module_versions-CanDownload,
}
use terraform_registry.Base.{is_nil, All, if◌then◌else◌}
use terraform_registry.Semver.{compare_identifier}
use terraform_registry.Semver.{compare_identifiers}
use terraform_registry.Semver.{compare_parsed}
use terraform_registry.Semver.{compare_pre}
use terraform_registry.Semver.{compare_versions}
use terraform_registry.Semver.{insert_version}
use terraform_registry.Text.{compare_list}
use terraform_registry.Text.{compare_text}

IsVersion-2 : IsVersion (codes "2.0.0")
unfolding parse_semantic_version parse_version_and_pre parse_core core_number valid_identifiers
    valid_identifier has_leading_zero is_identifier_char numeric_identifier is_digit digits_value
    parse_uint cut split has_prefix
IsVersion-2 = (record { major = 2; minor = 0; patch = 0; pre = [] }, refl)

IsVersion-10 : IsVersion (codes "10.0.0+a")
unfolding parse_semantic_version parse_version_and_pre parse_core core_number valid_identifiers
    valid_identifier has_leading_zero is_identifier_char numeric_identifier is_digit digits_value
    parse_uint cut split has_prefix contains
IsVersion-10 = (record { major = 10; minor = 0; patch = 0; pre = [] }, refl)

abbrev unsorted : List Bytes
unsorted = codes "10.0.0+a" ∷ codes "2.0.0" ∷ []

abbrev vpc : ModuleId
vpc = record { namespace = codes "acme"; name = codes "vpc"; provider = codes "aws" }

abbrev vpc_index : Bytes
vpc_index = codes "modules/acme/vpc/aws/index.json"

-- a storage with two versions of a module, whose archives exist and which have no metadata
abbrev reader : Reader
reader = record {
  get = λ key. if text_eq key vpc_index then found [] else missing;
  exists = λ key. has_suffix key (codes "/module.tar.gz");
  walk = λ prefix. some [];
  base_url = codes "https://registry.example";
  decode_index = λ text. some unsorted;
  decode_metadata = λ text. none;
  decode_platform = λ text. none;
  decode_artifact = λ text. none;
}

reader_index : reader.get (module_path vpc (codes "index.json" ∷ [])) ≡ found []
unfolding text_eq join
reader_index = refl

module_latest_download_lem_example :
    (module_latest_download reader vpc ≡ error 404)
      × All (λ v. is_served reader vpc v ≡ false) (sort_semantic_versions unsorted)
    ⊎ ((v : Bytes) × (key : Bytes) × (module_latest_download reader vpc
          ≡ body (download_url reader key))
        × IsLatest reader vpc (sort_semantic_versions unsorted) v key)
module_latest_download_lem_example =
    module_latest_download_lem reader vpc [] unsorted reader_index refl
      (IsVersion-10, (IsVersion-2, tt))

abbrev provider : ProviderId
provider = record { namespace = codes "acme"; name = codes "cloud" }

network_mirror_index_iff_example :
    Lists (codes "1.0.0") (network_mirror_index reader provider)
    ↔ Lists (codes "1.0.0") (provider_versions reader provider)
network_mirror_index_iff_example = network_mirror_index_iff reader provider (codes "1.0.0")

abbrev sorted : List Bytes
sorted = codes "2.0.0" ∷ codes "10.0.0+a" ∷ []

module_versions_run : module_versions reader vpc ≡ body (codes "acme/vpc/aws", sorted)
unfolding module_versions get_index text_eq join module_entries sort_semantic_versions
    compare_semver parse_semantic_version has_prefix cut parse_version_and_pre parse_core split
    core_number has_leading_zero numeric_identifier is_digit parse_uint module_artifact_key
    named_artifact get_version_metadata is_deprecated exactly_then find match_string one_then
    star_then submatches upto_then compare_identifier compare_identifiers compare_parsed compare_pre
    compare_versions insert_version is_identifier_char valid_identifier valid_identifiers
    compare_list compare_text contains digits_value is_hex has_suffix
module_versions_run = refl

module_versions-CanDownload_example : (is_nil sorted ≡ false) × All (CanDownload reader vpc) sorted
module_versions-CanDownload_example =
    module_versions-CanDownload reader vpc (codes "acme/vpc/aws") sorted module_versions_run
