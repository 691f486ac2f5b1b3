-- ===== src/Manage/ProviderTests.antt =====
-- The upload of a provider over a few files.
use terraform_registry.Base.{◌≢◌, ◌≡◌, refl, arith, Option, none, some, inr, List, [], ◌∷◌, Bool}
use terraform_registry.Text.{Bytes, codes, text_eq}
use terraform_registry.Disk.{file, directory, Error, World}
use terraform_registry.Disk.Laws.{content}
use terraform_registry.Disk.Triples.{Ensures}
use terraform_registry.Storage.Resolve.{resolve}
use terraform_registry.Storage.Writes.{Stream}
use terraform_registry.Storage.DiskTests.{confined, suffix, suffix-Fresh}
use terraform_registry.Storage.Tests.{index_codec}
use terraform_registry.Signing.{ChecksumEntry, checksums_key, signature_key}
use terraform_registry.Manage.Tests.{path-Elsewhere}
use terraform_registry.Manage.Provider.{
  ProviderRoute, PlatformCodec, provider_keys, platform_meta_key, upload_provider,
}
use terraform_registry.Manage.Withdrawn.{upload_provider_fails_safely}

abbrev route : ProviderRoute
route = record {
  namespace = codes "n";
  name = codes "p";
  version = codes "1.0.0";
  os = codes "linux";
  arch = codes "arm";
}

abbrev platforms : PlatformCodec
platforms = record {
  encode = λ m. m.filename;
  decode = λ text.
      some (record { os = codes "linux"; arch = codes "arm"; filename = text; shasum = codes "0" });
}

abbrev as_listed : (ChecksumEntry → ChecksumEntry → Bool) → List ChecksumEntry → List ChecksumEntry
as_listed less es = es

abbrev key_of_registry : Option (Bytes → Option Bytes)
key_of_registry = some (λ b. some (1 ∷ b))

abbrev zero_hash : Bytes → Bytes
zero_hash b = codes "0"

abbrev accept : Bytes → Option Error
accept b = none

abbrev index : Bytes
index = codes "providers/n/p/index.json"

-- An index that cannot be decoded, so that the upload fails behind the checksums.
abbrev world : World
world = record {
  files =
      (codes "providers", directory)
      ∷ (codes "providers/n", directory)
      ∷ (codes "providers/n/p", directory)
      ∷ (index, file (7 ∷ []) 0)
      ∷ [];
  now = 5;
  faults = [];
}

abbrev upload : Stream
upload = record { bytes = 80 ∷ 75 ∷ 3 ∷ 4 ∷ []; failure = none }

index_path : resolve confined (provider_keys route).index ≡ some index
unfolding resolve provider_keys terraform_registry.Text.join text_eq
    terraform_registry.Text.has_prefix terraform_registry.Text.contains
    terraform_registry.Paths.path_clean terraform_registry.Paths.clean_segments
    terraform_registry.Text.split
index_path = refl

meta_path :
    resolve confined (platform_meta_key route) ≡ some (codes "providers/n/p/1.0.0/linux_arm.json")
unfolding resolve platform_meta_key terraform_registry.Text.join text_eq
    terraform_registry.Text.has_prefix terraform_registry.Text.contains
    terraform_registry.Paths.path_clean terraform_registry.Paths.clean_segments
    terraform_registry.Text.split
meta_path = refl

sums_path :
    resolve confined (checksums_key route.namespace route.name route.version)
    ≡ some (codes "providers/n/p/1.0.0/terraform-provider-p_1.0.0_SHA256SUMS")
unfolding resolve terraform_registry.Text.join text_eq terraform_registry.Text.has_prefix
    terraform_registry.Text.contains terraform_registry.Protocol.Providers.provider_checksums_names
    terraform_registry.Paths.path_clean terraform_registry.Paths.clean_segments
    terraform_registry.Text.split
sums_path = refl

signature_path :
    resolve confined (signature_key route.namespace route.name route.version)
    ≡ some (codes "providers/n/p/1.0.0/terraform-provider-p_1.0.0_SHA256SUMS.sig")
unfolding resolve terraform_registry.Text.join text_eq terraform_registry.Text.has_prefix
    terraform_registry.Text.contains terraform_registry.Protocol.Providers.provider_checksums_names
    terraform_registry.Paths.path_clean terraform_registry.Paths.clean_segments
    terraform_registry.Text.split
signature_path = refl

abbrev archive : Bytes
archive = codes "providers/n/p/1.0.0/terraform-provider-p_1.0.0_linux_arm_0.zip"

archive_path : resolve confined archive ≡ some archive
unfolding resolve text_eq terraform_registry.Text.has_prefix terraform_registry.Text.contains
    terraform_registry.Paths.path_clean terraform_registry.Paths.clean_segments
    terraform_registry.Text.split terraform_registry.Text.join
archive_path = refl

upload_provider_fails_safely_example :
    Ensures
      (λ status f. status ≢ 200 → content index f ≡ some (7 ∷ []))
      (λ f. ⊥)
      (upload_provider confined suffix zero_hash accept index_codec platforms as_listed
        key_of_registry route 10
        (inr upload)
        world)
unfolding terraform_registry.Disk.lookup text_eq terraform_registry.Manage.Provider.archive_name
    terraform_registry.Text.join
upload_provider_fails_safely_example =
    upload_provider_fails_safely confined suffix zero_hash accept index_codec platforms as_listed
      key_of_registry route index (7 ∷ []) index_path (λ x. ground (arith, x))
      (path-Elsewhere index (platform_meta_key route) (codes "providers/n/p/1.0.0/linux_arm.json")
        meta_path (λ x. ground (arith, x)) (omega arith) (omega arith))
      (path-Elsewhere index (checksums_key route.namespace route.name route.version)
        (codes "providers/n/p/1.0.0/terraform-provider-p_1.0.0_SHA256SUMS") sums_path
        (λ x. ground (arith, x)) (omega arith) (omega arith))
      (path-Elsewhere index (signature_key route.namespace route.name route.version)
        (codes "providers/n/p/1.0.0/terraform-provider-p_1.0.0_SHA256SUMS.sig") signature_path
        (λ x. ground (arith, x)) (omega arith) (omega arith))
      upload 10 suffix-Fresh
      (path-Elsewhere index archive archive archive_path (λ x. ground (arith, x)) (omega arith)
        (omega arith))
      world refl
