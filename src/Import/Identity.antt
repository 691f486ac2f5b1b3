-- ===== src/Import/Identity.antt =====
-- What an artifact that the client accepts has been checked for.
use terraform_registry.Base.{true, Bool-cases, ◌≡◌, ◌⊎◌, inl, inr, refl, sym, ◌∙◌, arith}
use terraform_registry.Text.{Bytes, codes, text_eq}
use terraform_registry.Text.Laws.{text_eq_iff}
use terraform_registry.Semver.{valid_version}
use terraform_registry.Validation.{valid_artifact_name}
use terraform_registry.Validation.Names.{IsName, valid_artifact_name_iff}
use terraform_registry.Import.Version.{valid_import_name, valid_import_version}
use terraform_registry.Import.Mirror.{valid_import_version_mirror}
use terraform_registry.Import.Manifest.{
  ArtifactMetadata, ok, provider_identity, module_identity, check_kind,
  terraform_provider_layer_type, terraform_module_layer_type,
}

-- The client and the server accept the same names.
valid_import_name_mirror : (v : Bytes) → valid_import_name v ≡ valid_artifact_name v
unfolding valid_import_name valid_artifact_name
valid_import_name_mirror v = refl

-- An identity that the server's routes accept: each part is a name, the version is a version.
pub record IsProvider (m : ArtifactMetadata) : Type 0 where
  pub kind : m.kind ≡ codes "provider"
  pub namespace : IsName m.namespace
  pub name : IsName m.name
  pub os : IsName m.os
  pub arch : IsName m.arch
  pub version : valid_version m.version ≡ true

pub record IsModule (m : ArtifactMetadata) : Type 0 where
  pub kind : m.kind ≡ codes "module"
  pub namespace : IsName m.namespace
  pub name : IsName m.name
  pub provider : IsName m.provider
  pub version : valid_version m.version ≡ true

IsName-of : (v : Bytes) → valid_import_name v ≡ true → IsName v
IsName-of v h = (valid_artifact_name_iff v).0 (sym (valid_import_name_mirror v) ∙ h)

version_of : (v : Bytes) → valid_import_version v ≡ true → valid_version v ≡ true
version_of v h = sym (valid_import_version_mirror v) ∙ h

IsProvider-of :
    (m : ArtifactMetadata)
    → text_eq m.kind (codes "provider") ≡ true
    → provider_identity m ≡ true
    → IsProvider m
unfolding provider_identity
IsProvider-of m k h = record {
  kind = (text_eq_iff m.kind (codes "provider")).0 k;
  namespace = IsName-of m.namespace (ground arith);
  name = IsName-of m.name (ground arith);
  os = IsName-of m.os (ground arith);
  arch = IsName-of m.arch (ground arith);
  version = version_of m.version (ground arith);
}

IsModule-of :
    (m : ArtifactMetadata)
    → text_eq m.kind (codes "module") ≡ true
    → module_identity m ≡ true
    → IsModule m
unfolding module_identity
IsModule-of m k h = record {
  kind = (text_eq_iff m.kind (codes "module")).0 k;
  namespace = IsName-of m.namespace (ground arith);
  name = IsName-of m.name (ground arith);
  provider = IsName-of m.provider (ground arith);
  version = version_of m.version (ground arith);
}

-- An accepted artifact has the layer type of its kind and a valid identity.
pub check_kind-ok :
    (m m' : ArtifactMetadata) (media_type : Bytes)
    → check_kind m media_type ≡ ok m'
    → (m' ≡ m)
      × ((media_type ≡ terraform_provider_layer_type) × IsProvider m
          ⊎ (media_type ≡ terraform_module_layer_type) × IsModule m)
unfolding check_kind
check_kind-ok m m' media_type h = elim (Bool-cases (text_eq m.kind (codes "provider"))) [
  | inl k ↦ elim (Bool-cases (text_eq media_type terraform_provider_layer_type)) [
    | inl t ↦ elim (Bool-cases (provider_identity m)) [
      | inl i ↦ (ground arith, inl ((text_eq_iff media_type _).0 t, IsProvider-of m k i))
      | inr i ↦ absurd (ground arith)
    ]
    | inr t ↦ absurd (ground arith)
  ]
  | inr k ↦ elim (Bool-cases (text_eq m.kind (codes "module"))) [
    | inl k' ↦ elim (Bool-cases (text_eq media_type terraform_module_layer_type)) [
      | inl t ↦ elim (Bool-cases (module_identity m)) [
        | inl i ↦ (ground arith, inr ((text_eq_iff media_type _).0 t, IsModule-of m k' i))
        | inr i ↦ absurd (ground arith)
      ]
      | inr t ↦ absurd (ground arith)
    ]
    | inr k' ↦ absurd (ground arith)
  ]
]
