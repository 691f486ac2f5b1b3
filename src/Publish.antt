-- ===== src/Publish.antt =====
-- cmd/tfreg/publish.go, archive.go and oci.go: what the client writes about an artifact that it
-- publishes, and what it keeps out of a module's bundle and out of the environment of its commands.
pub mod RoundTrip
pub mod Tests
use terraform_registry.Base.{
  Bool, true, false, not, ◌&&◌, ◌||◌, Option, none, some, List, [], ◌∷◌, ◌++◌, if◌then◌else◌,
  is_nil, any,
}
use terraform_registry.Text.{Bytes, codes, text_eq, has_prefix, has_suffix, contains, split, cut}
use terraform_registry.Paths.{path_base}
use terraform_registry.Import.Manifest.{ArtifactMetadata}
use terraform_registry.Protocol.Providers.{set_entry}

-- a value that is written only if it is not empty
unfoldable pub set_if : Bytes → Bytes → List (Bytes × Bytes) → List (Bytes × Bytes)
set_if key [] m = m
set_if key (c ∷ v) m = set_entry key (c ∷ v) m

-- `artifactAnnotations`
unfoldable pub artifact_annotations : ArtifactMetadata → Bytes → List (Bytes × Bytes)
artifact_annotations m title = set_if (codes "io.terraform.arch") m.arch (
    set_if (codes "io.terraform.os") m.os (
      set_if (codes "io.terraform.provider") m.provider (
        (codes "org.opencontainers.image.title", title)
        ∷ (codes "io.terraform.kind", m.kind)
        ∷ (codes "io.terraform.namespace", m.namespace)
        ∷ (codes "io.terraform.name", m.name)
        ∷ (codes "io.terraform.version", m.version)
        ∷ [])))

-- `excludeModuleBundlePath`
unfoldable pub exclude_module_bundle_path : Bytes → Bool
exclude_module_bundle_path path =
    let name = path_base path in
    any (λ part. text_eq part (codes ".git") || text_eq part (codes ".terraform")) (split b'/' path)
    || text_eq name (codes "crash.log")
    || (has_prefix name (codes "crash.") && has_suffix name (codes ".log"))
    || has_suffix name (codes ".tfstate")
    || contains name (codes ".tfstate.")

abbrev pub variable_name : Bytes → Bytes
variable_name entry = elim (cut b'=' entry) [ none ↦ entry | some (key, value) ↦ key ]

-- `filteredEnvironment`, of the environment
unfoldable pub filtered_environment : List Bytes → List Bytes → List Bytes
filtered_environment keys [] = []
filtered_environment keys (entry ∷ env) =
    let rest = filtered_environment keys env in
    if any (text_eq (variable_name entry)) keys then rest else entry ∷ rest

-- A reference as the package `registry` parses it: the repository, the reference, and whether that is
-- a tag or a digest.
pub record Reference : Type 0 where
  pub registry : Bytes
  pub repository : Bytes
  pub reference : Bytes
  pub is_tag : Bool
  pub is_digest : Bool

-- `splitOCIReference`, of the parsed reference
unfoldable pub split_oci_reference : Option Reference → Option (Bytes × Bytes)
split_oci_reference none = none
split_oci_reference (some r) =
    if not r.is_tag || is_nil r.reference
    then none
    else some (r.registry ++ codes "/" ++ r.repository, r.reference)

-- `splitOCIImportReference`, of the parsed reference
unfoldable pub split_oci_import_reference : Option Reference → Option (Bytes × Bytes)
split_oci_import_reference none = none
split_oci_import_reference (some r) =
    if is_nil r.reference
    then none
    else if not r.is_tag && not r.is_digest
    then none
    else some (r.registry ++ codes "/" ++ r.repository, r.reference)
