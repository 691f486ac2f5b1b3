-- ===== src/Catalog/Tests.antt =====
-- The lists of a small registry.
use terraform_registry.Base.{◌≡◌, ◌≤◌, refl, Bool, Option, some, List, [], ◌∷◌, if◌then◌else◌}
use terraform_registry.Text.{Bytes, codes, text_eq}
use terraform_registry.Protocol.Reader.{PlatformMeta, body}
use terraform_registry.Catalog.{
  ProviderInfo, ModuleInfo, registry_stats, list_providers, list_modules,
}
use terraform_registry.Catalog.Counts.{versions_of_providers, registry_stats_counts}

abbrev list : Bytes → Option (List Bytes)
list p =
    if text_eq p (codes "providers/")
    then some (codes "providers/n/" ∷ [])
    else if text_eq p (codes "providers/n/")
    then some (codes "providers/n/p/" ∷ [])
    else if text_eq p (codes "providers/n/p/")
    then some (codes "providers/n/p/1.0.0/" ∷ [])
    else if text_eq p (codes "modules/")
    then some (codes "modules/n/" ∷ [])
    else if text_eq p (codes "modules/n/")
    then some (codes "modules/n/m/" ∷ [])
    else if text_eq p (codes "modules/n/m/")
    then some (codes "modules/n/m/aws/" ∷ [])
    else some []

abbrev no_platforms : Bytes → Bytes → Bytes → Option (List PlatformMeta)
no_platforms ns name v = some []

abbrev as_listed : (ModuleInfo → ModuleInfo → Bool) → List ModuleInfo → List ModuleInfo
as_listed less ms = ms

abbrev provider : ProviderInfo
provider = record {
  namespace = codes "n";
  name = codes "p";
  versions = record { version = codes "1.0.0"; protocols = codes "5.0" ∷ []; platforms = [] } ∷ [];
}

abbrev aws : ModuleInfo
aws = record { namespace = codes "n"; name = codes "m"; provider = codes "aws"; versions = [] }

providers_listed : list_providers list no_platforms ≡ body (provider ∷ [])
unfolding list_providers text_eq terraform_registry.Catalog.providers_below
    terraform_registry.Catalog.providers_in terraform_registry.Catalog.namespace_of
    terraform_registry.Catalog.name_of terraform_registry.Catalog.with_platforms
    terraform_registry.Text.trim_prefix terraform_registry.Text.trim_suffix
    terraform_registry.Upload.scan_provider_versions terraform_registry.Text.join
    terraform_registry.Semver.sort_semantic_versions terraform_registry.Upload.scan_provider
    terraform_registry.Upload.segment terraform_registry.Text.split
providers_listed = refl

modules_listed : list_modules list as_listed ≡ body (aws ∷ [])
unfolding list_modules text_eq terraform_registry.Catalog.modules_below
    terraform_registry.Catalog.modules_in terraform_registry.Catalog.modules_of
    terraform_registry.Text.join terraform_registry.Catalog.namespace_of
    terraform_registry.Text.trim_prefix terraform_registry.Text.trim_suffix
    terraform_registry.Catalog.name_of terraform_registry.Upload.scan_module_versions
    terraform_registry.Semver.sort_semantic_versions terraform_registry.Upload.scan_module
modules_listed = refl

registry_stats_counts_example :
    ((registry_stats list).providers ≡ 1)
    × ((registry_stats list).provider_versions ≡ versions_of_providers (provider ∷ []))
    × (1 ≤ (registry_stats list).modules)
registry_stats_counts_example =
    registry_stats_counts list no_platforms as_listed (λ less ms. refl) (provider ∷ []) (aws ∷ [])
      providers_listed modules_listed
