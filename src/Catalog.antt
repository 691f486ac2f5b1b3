-- ===== src/Catalog.antt =====
-- registry-server/api.go: the lists of the providers and of the modules, one of each, and the
-- statistics, over what `List` finds with the delimiter `/` and the platforms of a version.
-- `sort_slice` is the function of the package sort.
pub mod Counts
pub mod Tests
use terraform_registry.Base.{
  ℕ, ◌+◌, Bool, true, false, Option, none, some, List, [], ◌∷◌, ◌++◌, if◌then◌else◌, any, length,
  is_nil, map, lt, eq, gt,
}
use terraform_registry.Text.{Bytes, codes, text_eq, trim_prefix, trim_suffix, compare_text}
use terraform_registry.Protocol.Reader.{PlatformMeta, Answer, error, body, path_of}
use terraform_registry.Upload.{scan_provider_versions, scan_module_versions}

-- `ProviderVersion`
pub record ProviderVersion : Type 0 where
  pub version : Bytes
  pub protocols : List Bytes
  pub platforms : List PlatformMeta

-- `ProviderInfo`
pub record ProviderInfo : Type 0 where
  pub namespace : Bytes
  pub name : Bytes
  pub versions : List ProviderVersion

-- `ModuleInfo`; a `ModuleVersion` is its version.
pub record ModuleInfo : Type 0 where
  pub namespace : Bytes
  pub name : Bytes
  pub provider : Bytes
  pub versions : List Bytes

-- `RegistryStats`
pub record RegistryStats : Type 0 where
  pub providers : ℕ
  pub provider_versions : ℕ
  pub modules : ℕ
  pub module_versions : ℕ

-- `result, _ := call`
abbrev pub or_empty : {A : Type 0} → Option (List A) → List A
or_empty none = []
or_empty (some xs) = xs

-- the namespace of a directory below `root`
unfoldable pub namespace_of : Bytes → Bytes → Bytes
namespace_of root p = trim_prefix (trim_suffix p (codes "/")) root

-- the name of a directory below another one
unfoldable pub name_of : Bytes → Bytes → Bytes
name_of parent p = trim_suffix (trim_prefix (trim_suffix p (codes "/")) parent) (codes "/")

-- the order of the list of modules
unfoldable pub is_listed_before : ModuleInfo → ModuleInfo → Bool
is_listed_before x y = elim (compare_text (x.namespace ++ x.name) (y.namespace ++ y.name)) [
  | lt ↦ true
  | eq ↦ false
  | gt ↦ false
]

module _ (list : Bytes → Option (List Bytes)) where
  abbrev pub provider_versions_of : Bytes → Bytes → Option (List Bytes)
  provider_versions_of namespace name =
      scan_provider_versions (list (path_of (codes "providers" ∷ namespace ∷ name ∷ [] ∷ [])))

  abbrev pub module_versions_of : Bytes → Bytes → Bytes → Option (List Bytes)
  module_versions_of namespace name provider =
      scan_module_versions
        (list (path_of (codes "modules" ∷ namespace ∷ name ∷ provider ∷ [] ∷ [])))

  -- the loops of `registryStatsHandler`
  unfoldable pub count_providers : Bytes → Bytes → RegistryStats → List Bytes → RegistryStats
  count_providers ns ns_prefix stats [] = stats
  count_providers ns ns_prefix stats (p ∷ ps) =
      count_providers ns ns_prefix
        (record stats {
          providers = stats.providers + 1;
          provider_versions =
              stats.provider_versions
              + length (or_empty (provider_versions_of ns (name_of ns_prefix p)));
        })
        ps

  unfoldable pub count_provider_namespaces : RegistryStats → List Bytes → RegistryStats
  count_provider_namespaces stats [] = stats
  count_provider_namespaces stats (p ∷ ps) =
      count_provider_namespaces
        (count_providers (namespace_of (codes "providers/") p) p stats (or_empty (list p))) ps

  unfoldable pub count_module_providers :
      Bytes → Bytes → Bytes → RegistryStats → List Bytes → RegistryStats
  count_module_providers ns mod_name mod_prefix stats [] = stats
  count_module_providers ns mod_name mod_prefix stats (p ∷ ps) =
      count_module_providers ns mod_name mod_prefix
        (record stats {
          modules = stats.modules + 1;
          module_versions =
              stats.module_versions
              + length (or_empty (module_versions_of ns mod_name (name_of mod_prefix p)));
        })
        ps

  abbrev pub module_prefix : Bytes → Bytes → Bytes
  module_prefix ns mod_name = path_of (codes "modules" ∷ ns ∷ mod_name ∷ [] ∷ [])

  unfoldable pub count_modules : Bytes → Bytes → RegistryStats → List Bytes → RegistryStats
  count_modules ns ns_prefix stats [] = stats
  count_modules ns ns_prefix stats (p ∷ ps) =
      let mod_name = name_of ns_prefix p in
      count_modules ns ns_prefix
        (count_module_providers ns mod_name (module_prefix ns mod_name) stats
          (or_empty (list (module_prefix ns mod_name))))
        ps

  unfoldable pub count_module_namespaces : RegistryStats → List Bytes → RegistryStats
  count_module_namespaces stats [] = stats
  count_module_namespaces stats (p ∷ ps) =
      count_module_namespaces
        (count_modules (namespace_of (codes "modules/") p) p stats (or_empty (list p))) ps

  abbrev pub no_stats : RegistryStats
  no_stats = record { providers = 0; provider_versions = 0; modules = 0; module_versions = 0 }

  -- `registryStatsHandler`
  unfoldable pub registry_stats : RegistryStats
  registry_stats =
      count_module_namespaces
        (count_provider_namespaces no_stats (or_empty (list (codes "providers/"))))
        (or_empty (list (codes "modules/")))

  module _ (platforms : Bytes → Bytes → Bytes → Option (List PlatformMeta)) where
    -- the versions of a provider with their platforms
    unfoldable pub with_platforms : Bytes → Bytes → List Bytes → List ProviderVersion
    with_platforms ns name [] = []
    with_platforms ns name (v ∷ vs) =
        record {
          version = v;
          protocols = codes "5.0" ∷ [];
          platforms = or_empty (platforms ns name v);
        }
        ∷ with_platforms ns name vs

    -- the loops of `listProvidersHandler`
    unfoldable pub providers_in : Bytes → Bytes → List Bytes → List ProviderInfo
    providers_in ns ns_prefix [] = []
    providers_in ns ns_prefix (p ∷ ps) =
        let name = name_of ns_prefix p in
        record {
          namespace = ns;
          name = name;
          versions = with_platforms ns name (or_empty (provider_versions_of ns name));
        }
        ∷ providers_in ns ns_prefix ps

    unfoldable pub providers_below : List Bytes → List ProviderInfo
    providers_below [] = []
    providers_below (p ∷ ps) =
        providers_in (namespace_of (codes "providers/") p) p (or_empty (list p))
        ++ providers_below ps

    -- `listProvidersHandler`
    unfoldable pub list_providers : Answer (List ProviderInfo)
    list_providers = elim (list (codes "providers/")) [
      | none ↦ error 500
      | some prefixes ↦ body (providers_below prefixes)
    ]

    -- `getProviderHandler`
    unfoldable pub get_provider : Bytes → Bytes → Answer ProviderInfo
    get_provider namespace name =
        let versions : List Bytes = or_empty (provider_versions_of namespace name) in
        if is_nil versions
        then error 404
        else body (record {
          namespace = namespace;
          name = name;
          versions = with_platforms namespace name versions;
        })

  -- the loops of `listModulesHandler`: the modules and the keys that were seen
  unfoldable pub modules_of :
      Bytes → Bytes → Bytes → List Bytes → List Bytes → List ModuleInfo × List Bytes
  modules_of ns mod_name mod_prefix seen [] = ([], seen)
  modules_of ns mod_name mod_prefix seen (p ∷ ps) =
      let provider = name_of mod_prefix p in
      let key = ns ++ codes "/" ++ mod_name ++ codes "/" ++ provider in
      let skip = modules_of ns mod_name mod_prefix seen ps in
      let (more, seen_more) = modules_of ns mod_name mod_prefix (key ∷ seen) ps in
      if any (text_eq key) seen then skip else (
        record {
          namespace = ns;
          name = mod_name;
          provider = provider;
          versions = or_empty (module_versions_of ns mod_name provider);
        }
            ∷ more,
        seen_more,
      )

  unfoldable pub modules_in : Bytes → Bytes → List Bytes → List Bytes → List ModuleInfo × List Bytes
  modules_in ns ns_prefix seen [] = ([], seen)
  modules_in ns ns_prefix seen (p ∷ ps) =
      let mod_name = name_of ns_prefix p in
      let (here, seen_here) =
        modules_of ns mod_name (module_prefix ns mod_name) seen
          (or_empty (list (module_prefix ns mod_name))) in
      let (more, seen_more) = modules_in ns ns_prefix seen_here ps in (here ++ more, seen_more)

  unfoldable pub modules_below : List Bytes → List Bytes → List ModuleInfo
  modules_below seen [] = []
  modules_below seen (p ∷ ps) =
      let (here, seen_here) =
        modules_in (namespace_of (codes "modules/") p) p seen (or_empty (list p)) in
      here ++ modules_below seen_here ps

  -- `listModulesHandler`
  unfoldable pub list_modules :
      ((ModuleInfo → ModuleInfo → Bool) → List ModuleInfo → List ModuleInfo)
      → Answer (List ModuleInfo)
  list_modules sort_slice = elim (list (codes "modules/")) [
    | none ↦ error 500
    | some prefixes ↦ body (sort_slice is_listed_before (modules_below [] prefixes))
  ]

  -- `getModuleHandler`
  unfoldable pub get_module : Bytes → Bytes → Bytes → Answer ModuleInfo
  get_module namespace name provider =
      let versions : List Bytes = or_empty (module_versions_of namespace name provider) in
      if is_nil versions
      then error 404
      else body
          (record { namespace = namespace; name = name; provider = provider; versions = versions })
