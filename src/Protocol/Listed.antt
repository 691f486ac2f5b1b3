-- ===== src/Protocol/Listed.antt =====
-- What the version lists promise to the other handlers.
use terraform_registry.Base.{
  false, not, Bool-cases, Option-cases, List, [], ◌∷◌, ◌≡◌, ◌↔◌, ◌⊎◌, inl, inr, refl, subst, arith,
  All, is_nil,
}
use terraform_registry.Text.{Bytes, codes, text_eq}
use terraform_registry.Text.Laws.{text_eq_iff}
use terraform_registry.Protocol.Reader.{
  Reader, PlatformMeta, Answer, error, body, get_index, is_deprecated, download_url,
}
use terraform_registry.Protocol.Modules.{
  ModuleId, module_path, module_artifact_key, module_metadata_key, module_entries, module_versions,
  module_download,
}
use terraform_registry.Protocol.Providers.{
  ProviderId, index_key, metadata_key, set_entry, published, platforms_of, provider_entries,
  provider_versions, some_published, mirror_entries, network_mirror_index,
}

-- The list has an entry at the key.
abbrev pub HasKey {ℓ} : {A : Type ℓ} → Bytes → List (Bytes × A) → Type 0
HasKey v [] = ⊥
HasKey v ((k, a) ∷ es) = (k ≡ v) ⊎ HasKey v es

-- The answer lists the version.
abbrev pub Lists {ℓ} : {A : Type ℓ} → Bytes → Answer (List (Bytes × A)) → Type 0
Lists v (error status) = ⊥
Lists v (body es) = HasKey v es

set_entry-HasKey {ℓ} :
    {A : Type ℓ} (v k : Bytes) (a : A) (es : List (Bytes × A))
    → HasKey v (set_entry k a es) ↔ ((k ≡ v) ⊎ HasKey v es)
unfolding set_entry
set_entry-HasKey v k a [] = (λ h. h, λ h. h)
set_entry-HasKey v k a ((j, b) ∷ es) = elim (Bool-cases (text_eq j k)) [
  | inl e ↦ ground (arith, text_eq_iff j k)
  | inr e ↦ ground (arith, set_entry-HasKey v k a es)
]

module _ (r : Reader) (id : ProviderId) where
  some_published-published :
      (v : Bytes) (ps : List PlatformMeta)
      → some_published r id v ps ≡ not (is_nil (published r id v ps))
  unfolding some_published published
  some_published-published v [] = refl
  some_published-published v (p ∷ ps) = ground (arith, some_published-published v ps)

  mirror_entries-HasKey :
      (v : Bytes) (m : List (Bytes × Unit {0})) (vs : List Bytes)
      → HasKey v (mirror_entries r id m vs) ↔ (HasKey v m ⊎ HasKey v (provider_entries r id vs))
  unfolding mirror_entries provider_entries
  mirror_entries-HasKey v m [] = (λ h. inl h, λ h. elim h [ inl k ↦ k | inr k ↦ absurd k ])
  mirror_entries-HasKey v m (w ∷ vs) = elim (Bool-cases (is_deprecated r (metadata_key r id w))) [
    | inl e ↦ ground (arith, mirror_entries-HasKey v m vs)
    | inr e ↦ elim (Bool-cases (some_published r id w (platforms_of r id w))) [
      | inr f ↦
          ground
            (arith, some_published-published w (platforms_of r id w), mirror_entries-HasKey v m vs)
      | inl f ↦ ground (
        arith,
        some_published-published w (platforms_of r id w),
        mirror_entries-HasKey v (set_entry w tt m) vs,
        set_entry-HasKey v w tt m,
      )
    ]
  ]

  -- In each state of the storage the network mirror lists exactly the versions that the provider
  -- protocol lists.
  pub network_mirror_index_iff :
      (v : Bytes) → Lists v (network_mirror_index r id) ↔ Lists v (provider_versions r id)
  unfolding network_mirror_index provider_versions
  network_mirror_index_iff v = elim (Option-cases (get_index r (index_key r id))) [
    | inl e ↦ ground arith
    | inr (vs, e) ↦ ground (arith, mirror_entries-HasKey v [] vs)
  ]

module _ (r : Reader) (id : ModuleId) where
  abbrev pub CanDownload : Bytes → Type 0
  CanDownload v = (url : Bytes) × (module_download r id v ≡ body url)

  module_entries-CanDownload : (vs : List Bytes) → All CanDownload (module_entries r id vs)
  unfolding module_entries module_download
  module_entries-CanDownload [] = tt
  module_entries-CanDownload (v ∷ vs) =
      let rest = module_entries-CanDownload vs in
      elim (Bool-cases (is_deprecated r (module_metadata_key r id v))) [
        | inl e ↦ rw (e, module_entries) rest
        | inr e ↦ elim (Option-cases (module_artifact_key r id v)) [
          | inl k ↦ rw (e, k, module_entries) rest
          | inr (key, k) ↦
              rw (e, k, module_entries) ((download_url r key, rw (k, module_download) refl), rest)
        ]
      ]

  -- Each version that `moduleVersionsHandler` lists can be downloaded from the same state of the
  -- storage, and the list is not empty.
  pub module_versions-CanDownload :
      (source : Bytes) (vs : List Bytes)
      → module_versions r id ≡ body (source, vs)
      → (is_nil vs ≡ false) × All CanDownload vs
  unfolding module_versions
  module_versions-CanDownload source vs h =
      elim (Option-cases (get_index r (module_path id (codes "index.json" ∷ [])))) [
        | inl e ↦ absurd (ground arith)
        | inr (xs, e) ↦
            let same : module_entries r id xs ≡ vs = ground arith in
            (ground arith, subst (All CanDownload) same (module_entries-CanDownload xs))
      ]
