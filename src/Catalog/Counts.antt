-- ===== src/Catalog/Counts.antt =====
-- registry-server/api.go: the statistics count what the lists show.
use terraform_registry.Base.{
  ℕ, ◌+◌, ◌≤◌, ◌≡◌, refl, ap, subst, ◌∙◌, inl, inr, arith, Bool, Bool-cases, Option, none, some,
  List, [], ◌∷◌, ◌++◌, length, length-append, any,
}
use terraform_registry.Text.{Bytes, codes, text_eq}
use terraform_registry.Protocol.Reader.{PlatformMeta, body}
use terraform_registry.Catalog.{
  ProviderInfo, ModuleInfo, RegistryStats, or_empty, namespace_of, name_of, is_listed_before,
  no_stats, count_providers, count_provider_namespaces, count_module_providers, count_modules,
  count_module_namespaces, registry_stats, module_prefix, with_platforms, providers_in,
  providers_below, list_providers, modules_of, modules_in, modules_below, list_modules,
  provider_versions_of, module_versions_of,
}

-- how many versions the providers have
unfoldable pub versions_of_providers : List ProviderInfo → ℕ
versions_of_providers [] = 0
versions_of_providers (p ∷ ps) = length p.versions + versions_of_providers ps

-- how many versions the modules have
unfoldable pub versions_of_modules : List ModuleInfo → ℕ
versions_of_modules [] = 0
versions_of_modules (m ∷ ms) = length m.versions + versions_of_modules ms

versions_of_providers-append :
    (ps qs : List ProviderInfo)
    → versions_of_providers (ps ++ qs) ≡ versions_of_providers ps + versions_of_providers qs
unfolding versions_of_providers
versions_of_providers-append [] qs = ground arith
versions_of_providers-append (p ∷ ps) qs = ground (arith, versions_of_providers-append ps qs)

versions_of_modules-append :
    (ms ns : List ModuleInfo)
    → versions_of_modules (ms ++ ns) ≡ versions_of_modules ms + versions_of_modules ns
unfolding versions_of_modules
versions_of_modules-append [] ns = ground arith
versions_of_modules-append (m ∷ ms) ns = ground (arith, versions_of_modules-append ms ns)

-- The statistics `t` are those of `s` with the providers `ps` more.
abbrev WithProviders : RegistryStats → List ProviderInfo → RegistryStats → Type 0
WithProviders s ps t =
    (t.providers ≡ s.providers + length ps)
    × (t.provider_versions ≡ s.provider_versions + versions_of_providers ps)
    × (t.modules ≡ s.modules)
    × (t.module_versions ≡ s.module_versions)

-- The modules of `t` are those of `s` with at least the modules `ms` more.
abbrev WithModules : RegistryStats → List ModuleInfo → RegistryStats → Type 0
WithModules s ms t =
    (s.modules + length ms ≤ t.modules)
    × (s.module_versions + versions_of_modules ms ≤ t.module_versions)
    × (t.providers ≡ s.providers)
    × (t.provider_versions ≡ s.provider_versions)

WithProviders-join :
    (s t r : RegistryStats) (ps qs : List ProviderInfo)
    → WithProviders s ps t
    → WithProviders t qs r
    → WithProviders s (ps ++ qs) r
WithProviders-join s t r ps qs (a, b, c, d) (e, f, g, h) = (
  omega (arith, a, e, length-append ps qs),
  omega (arith, b, f, versions_of_providers-append ps qs),
  g ∙ c,
  h ∙ d,
)

WithModules-join :
    (s t r : RegistryStats) (ms ns : List ModuleInfo)
    → WithModules s ms t
    → WithModules t ns r
    → WithModules s (ms ++ ns) r
WithModules-join s t r ms ns (a, b, c, d) (e, f, g, h) = (
  omega (arith, a, e, length-append ms ns),
  omega (arith, b, f, versions_of_modules-append ms ns),
  g ∙ c,
  h ∙ d,
)

module _ (list : Bytes → Option (List Bytes)) where
  module _ (platforms : Bytes → Bytes → Bytes → Option (List PlatformMeta)) where
    length-with_platforms :
        (ns name : Bytes) (vs : List Bytes)
        → length (with_platforms list platforms ns name vs) ≡ length vs
    unfolding with_platforms
    length-with_platforms ns name [] = refl
    length-with_platforms ns name (v ∷ vs) = ground (arith, length-with_platforms ns name vs)

    count_providers_lem :
        (ns prefix : Bytes) (s : RegistryStats) (ps : List Bytes)
        → WithProviders s
            (providers_in list platforms ns prefix ps)
            (count_providers list ns prefix s ps)
    unfolding count_providers providers_in versions_of_providers
    count_providers_lem ns prefix s [] = (omega arith, omega arith, refl, refl)
    count_providers_lem ns prefix s (p ∷ ps) =
        let t : RegistryStats = record s {
          providers = s.providers + 1;
          provider_versions =
              s.provider_versions
              + length (or_empty (provider_versions_of list ns (name_of prefix p)));
        } in
        let (a, b, c, d) = count_providers_lem ns prefix t ps in
        (
          omega (arith, a),
          omega (
            arith,
            b,
            length-with_platforms ns (name_of prefix p)
                (or_empty (provider_versions_of list ns (name_of prefix p))),
          ),
          c,
          d,
        )

    count_provider_namespaces_lem :
        (s : RegistryStats) (ps : List Bytes)
        → WithProviders s (providers_below list platforms ps) (count_provider_namespaces list s ps)
    unfolding count_provider_namespaces providers_below versions_of_providers
    count_provider_namespaces_lem s [] = (omega arith, omega arith, refl, refl)
    count_provider_namespaces_lem s (p ∷ ps) =
        let ns : Bytes = namespace_of (codes "providers/") p in
        WithProviders-join s (count_providers list ns p s (or_empty (list p)))
          (count_provider_namespaces list s (p ∷ ps))
          (providers_in list platforms ns p (or_empty (list p))) (providers_below list platforms ps)
          (count_providers_lem ns p s (or_empty (list p)))
          (count_provider_namespaces_lem (count_providers list ns p s (or_empty (list p))) ps)

  modules_of_lem :
      (ns mod_name prefix : Bytes) (seen : List Bytes) (s : RegistryStats) (ps : List Bytes)
      → WithModules s
          (modules_of list ns mod_name prefix seen ps).0
          (count_module_providers list ns mod_name prefix s ps)
  unfolding count_module_providers modules_of versions_of_modules
  modules_of_lem ns mod_name prefix seen s [] = (omega arith, omega arith, refl, refl)
  modules_of_lem ns mod_name prefix seen s (p ∷ ps) =
      let provider : Bytes = name_of prefix p in
      let key : Bytes = ns ++ codes "/" ++ mod_name ++ codes "/" ++ provider in
      let vs : List Bytes = or_empty (module_versions_of list ns mod_name provider) in
      let t : RegistryStats = record s {
        modules = s.modules + 1;
        module_versions = s.module_versions + length vs;
      } in
      elim (Bool-cases (any (text_eq key) seen)) [
        | inl e ↦
            let (a, b, c, d) = modules_of_lem ns mod_name prefix seen t ps in
            rw (e, modules_of) (omega (arith, a), omega (arith, b), c, d)
        | inr e ↦
            let (a, b, c, d) = modules_of_lem ns mod_name prefix (key ∷ seen) t ps in
            rw (e, modules_of, versions_of_modules) (omega (arith, a), omega (arith, b), c, d)
      ]

  modules_in_lem :
      (ns prefix : Bytes) (seen : List Bytes) (s : RegistryStats) (ps : List Bytes)
      → WithModules s (modules_in list ns prefix seen ps).0 (count_modules list ns prefix s ps)
  unfolding count_modules modules_in versions_of_modules
  modules_in_lem ns prefix seen s [] = (omega arith, omega arith, refl, refl)
  modules_in_lem ns prefix seen s (p ∷ ps) =
      let mod_name : Bytes = name_of prefix p in
      let found : List Bytes = or_empty (list (module_prefix list ns mod_name)) in
      let (here, seen_here) =
        modules_of list ns mod_name (module_prefix list ns mod_name) seen found in
      let t : RegistryStats =
        count_module_providers list ns mod_name (module_prefix list ns mod_name) s found in
      WithModules-join s t (count_modules list ns prefix t ps) here
        (modules_in list ns prefix seen_here ps).0
        (modules_of_lem ns mod_name (module_prefix list ns mod_name) seen s found)
        (modules_in_lem ns prefix seen_here t ps)

  modules_below_lem :
      (seen : List Bytes) (s : RegistryStats) (ps : List Bytes)
      → WithModules s (modules_below list seen ps) (count_module_namespaces list s ps)
  unfolding count_module_namespaces modules_below versions_of_modules
  modules_below_lem seen s [] = (omega arith, omega arith, refl, refl)
  modules_below_lem seen s (p ∷ ps) =
      let ns : Bytes = namespace_of (codes "modules/") p in
      let (here, seen_here) = modules_in list ns p seen (or_empty (list p)) in
      let t : RegistryStats = count_modules list ns p s (or_empty (list p)) in
      WithModules-join s t (count_module_namespaces list t ps) here
        (modules_below list seen_here ps) (modules_in_lem ns p seen s (or_empty (list p)))
        (modules_below_lem seen_here t ps)

  shown_providers :
      (platforms : Bytes → Bytes → Bytes → Option (List PlatformMeta)) (ps : List ProviderInfo)
      → list_providers list platforms ≡ body ps
      → WithProviders
          (no_stats list)
          ps
          (count_provider_namespaces list (no_stats list) (or_empty (list (codes "providers/"))))
  unfolding list_providers
  shown_providers platforms ps e = go (list (codes "providers/")) refl
    where
      go :
          (o : Option (List Bytes))
          → list (codes "providers/") ≡ o
          → WithProviders
              (no_stats list)
              ps
              (count_provider_namespaces list (no_stats list) (or_empty o))
      go none g = ground (arith, e, g)
      go (some prefixes) g =
          let shown : providers_below list platforms prefixes ≡ ps = ground (arith, e, g) in
          subst
            (λ ps.
              WithProviders (no_stats list) ps
                (count_provider_namespaces list (no_stats list) prefixes))
            shown (count_provider_namespaces_lem platforms (no_stats list) prefixes)

  shown_modules :
      (s : RegistryStats)
      (sort_slice : (ModuleInfo → ModuleInfo → Bool) → List ModuleInfo → List ModuleInfo)
      → ((less : ModuleInfo → ModuleInfo → Bool) (ms : List ModuleInfo)
          → length (sort_slice less ms) ≡ length ms)
      → (ms : List ModuleInfo) → list_modules list sort_slice ≡ body ms
      → let t : RegistryStats =
          count_module_namespaces list s (or_empty (list (codes "modules/"))) in
        (s.modules + length ms ≤ t.modules)
        × (t.providers ≡ s.providers)
        × (t.provider_versions ≡ s.provider_versions)
  unfolding list_modules
  shown_modules s sort_slice h ms e = go (list (codes "modules/")) refl
    where
      go :
          (o : Option (List Bytes))
          → list (codes "modules/") ≡ o
          → let t : RegistryStats = count_module_namespaces list s (or_empty o) in
            (s.modules + length ms ≤ t.modules)
            × (t.providers ≡ s.providers)
            × (t.provider_versions ≡ s.provider_versions)
      go none g = ground (arith, e, g)
      go (some prefixes) g =
          let shown : sort_slice is_listed_before (modules_below list [] prefixes) ≡ ms =
            ground (arith, e, g) in
          let (a, b, c, d) = modules_below_lem [] s prefixes in
          (
            omega (arith, a, ap length shown, h is_listed_before (modules_below list [] prefixes)),
            c,
            d,
          )

  -- Where the list of the providers is answered, the statistics count its providers and their
  -- versions; where the list of the modules is answered and the sort keeps the number of the modules,
  -- they count no fewer modules than the list has.
  pub registry_stats_counts :
      (platforms : Bytes → Bytes → Bytes → Option (List PlatformMeta))
      (sort_slice : (ModuleInfo → ModuleInfo → Bool) → List ModuleInfo → List ModuleInfo)
      → ((less : ModuleInfo → ModuleInfo → Bool) (ms : List ModuleInfo)
          → length (sort_slice less ms) ≡ length ms)
      → (ps : List ProviderInfo) (ms : List ModuleInfo) → list_providers list platforms ≡ body ps
      → list_modules list sort_slice ≡ body ms
      → ((registry_stats list).providers ≡ length ps)
        × ((registry_stats list).provider_versions ≡ versions_of_providers ps)
        × (length ms ≤ (registry_stats list).modules)
  unfolding registry_stats
  registry_stats_counts platforms sort_slice h ps ms e g =
      let s : RegistryStats =
        count_provider_namespaces list (no_stats list) (or_empty (list (codes "providers/"))) in
      let (a, b, c, d) = shown_providers platforms ps e in
      let (k, m, n) = shown_modules s sort_slice h ms g in
      (omega (arith, a, m), omega (arith, b, n), omega (arith, k, c))
