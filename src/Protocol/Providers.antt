-- ===== src/Protocol/Providers.antt =====
-- registry-server/main.go: the handlers of the provider protocol and of the network mirror.
use terraform_registry.Base.{
  ℕ, Bool, true, false, not, ◌||◌, Option, none, some, List, [], ◌∷◌, ◌++◌, if◌then◌else◌, is_nil,
}
use terraform_registry.Text.{Bytes, codes, text_eq}
use terraform_registry.Protocol.Reader.{
  found, missing, failed, PlatformMeta, Reader, Answer, error, body, path_of, index_has_version,
  get_index, is_deprecated, get_provider_platforms, download_url, counted,
}

-- the route variables of a provider
pub record ProviderId : Type 0 where
  pub namespace : Bytes
  pub name : Bytes

abbrev pub provider_path : ProviderId → List Bytes → Bytes
provider_path id rest = path_of (codes "providers" ∷ id.namespace ∷ id.name ∷ rest)

-- the signer's key, if there is a signer
pub record Signer : Type 0 where
  pub key_id : Bytes
  pub armor : Bytes

-- `ProviderDownloadResponse`; the protocols are constant.
pub record ProviderDownload : Type 0 where
  pub os : Bytes
  pub arch : Bytes
  pub filename : Bytes
  pub url : Bytes
  pub shasums_url : Bytes
  pub signature_url : Bytes
  pub shasum : Bytes
  pub signing_key : Signer

-- `providerChecksumsNames`
unfoldable pub provider_checksums_names : Bytes → Bytes → Bytes × Bytes
provider_checksums_names name version =
    let sums = codes "terraform-provider-" ++ name ++ codes "_" ++ version ++ codes "_SHA256SUMS" in
    (sums, sums ++ codes ".sig")

-- A Go map of strings, written at a key.
unfoldable pub set_entry {ℓ} : {A : Type ℓ} → Bytes → A → List (Bytes × A) → List (Bytes × A)
set_entry k v [] = (k, v) ∷ []
set_entry k v ((j, w) ∷ es) =
    let rest = set_entry k v es in if text_eq j k then (k, v) ∷ es else (j, w) ∷ rest

module _ (r : Reader) (id : ProviderId) where
  abbrev pub index_key : Bytes
  index_key = provider_path id (codes "index.json" ∷ [])

  abbrev pub metadata_key : Bytes → Bytes
  metadata_key v = provider_path id (v ∷ codes "metadata.json" ∷ [])

  abbrev pub zip_key : Bytes → PlatformMeta → Bytes
  zip_key v p = provider_path id (v ∷ p.filename ∷ [])

  abbrev pub platform_key : Bytes → Bytes → Bytes → Bytes
  platform_key v os arch = provider_path id (v ∷ (os ++ codes "_" ++ arch ++ codes ".json") ∷ [])

  -- `platforms, _ := store.GetProviderPlatforms(…)`
  abbrev pub platforms_of : Bytes → List PlatformMeta
  platforms_of v = elim (get_provider_platforms r id.namespace id.name v) [
    | none ↦ []
    | some ps ↦ ps
  ]

  -- the platforms whose archive exists
  unfoldable pub published : Bytes → List PlatformMeta → List PlatformMeta
  published v [] = []
  published v (p ∷ ps) =
      let rest = published v ps in if r.exists (zip_key v p) then p ∷ rest else rest

  -- the loop of `providerVersionsHandler`
  unfoldable pub provider_entries : List Bytes → List (Bytes × List PlatformMeta)
  provider_entries [] = []
  provider_entries (v ∷ vs) =
      let rest = provider_entries vs in
      let ps = published v (platforms_of v) in
      if is_deprecated r (metadata_key v) then rest else if is_nil ps then rest else (v, ps) ∷ rest

  -- the answer of `providerVersionsHandler`
  unfoldable pub provider_versions : Answer (List (Bytes × List PlatformMeta))
  provider_versions = elim (get_index r index_key) [
    | none ↦ error 404
    | some vs ↦
        let entries = provider_entries vs in if is_nil entries then error 404 else body entries
  ]

  -- the handler: it counts the request
  unfoldable pub provider_versions_handler : ℕ → ℕ × Answer (List (Bytes × List PlatformMeta))
  provider_versions_handler downloads = (counted downloads, provider_versions)

  -- the part of `providerDownloadHandler` behind the metadata
  unfoldable pub platform_download :
      Option Signer → Bytes → Bytes → Bytes → Option PlatformMeta → Answer ProviderDownload
  platform_download signer version os arch none = error 500
  platform_download signer version os arch (some p) =
      let (sums, signature) = provider_checksums_names id.name version in
      let sums_key = provider_path id (version ∷ sums ∷ []) in
      let signature_key = provider_path id (version ∷ signature ∷ []) in
      if not (r.exists (zip_key version p)) then error 404 else elim signer [
        | none ↦ error 500
        | some s ↦
            if not (r.exists sums_key) || not (r.exists signature_key)
            then error 500
            else body (record {
              os = os;
              arch = arch;
              filename = p.filename;
              url = download_url r (zip_key version p);
              shasums_url = download_url r sums_key;
              signature_url = download_url r signature_key;
              shasum = p.shasum;
              signing_key = s;
            })
      ]

  -- the answer of `providerDownloadHandler`
  unfoldable pub provider_download : Option Signer → Bytes → Bytes → Bytes → Answer ProviderDownload
  provider_download signer version os arch = elim (r.get (platform_key version os arch)) [
    | missing ↦ error 404
    | failed ↦ error 404
    | found text ↦ platform_download signer version os arch (r.decode_platform text)
  ]

  -- the handler: it counts the request
  unfoldable pub provider_download_handler :
      ℕ → Option Signer → Bytes → Bytes → Bytes → ℕ × Answer ProviderDownload
  provider_download_handler downloads signer version os arch =
      (counted downloads, provider_download signer version os arch)

  -- the inner loop of `networkMirrorIndexHandler`
  unfoldable pub some_published : Bytes → List PlatformMeta → Bool
  some_published v [] = false
  some_published v (p ∷ ps) =
      let rest = some_published v ps in if r.exists (zip_key v p) then true else rest

  -- the loop of `networkMirrorIndexHandler`, over the map built so far
  unfoldable pub mirror_entries : List (Bytes × Unit {0}) → List Bytes → List (Bytes × Unit {0})
  mirror_entries m [] = m
  mirror_entries m (v ∷ vs) =
      if is_deprecated r (metadata_key v)
      then mirror_entries m vs
      else if some_published v (platforms_of v)
      then mirror_entries (set_entry v tt m) vs
      else mirror_entries m vs

  -- `networkMirrorIndexHandler`
  unfoldable pub network_mirror_index : Answer (List (Bytes × Unit {0}))
  network_mirror_index = elim (get_index r index_key) [
    | none ↦ error 404
    | some vs ↦
        let entries = mirror_entries [] vs in if is_nil entries then error 404 else body entries
  ]

  -- the loop of `networkMirrorVersionHandler`: by platform, the address and the hash of the archive
  unfoldable pub mirror_archives :
      Bytes → List (Bytes × (Bytes × Bytes)) → List PlatformMeta → List (Bytes × (Bytes × Bytes))
  mirror_archives version m [] = m
  mirror_archives version m (p ∷ ps) =
      let skip = mirror_archives version m ps in
      elim (r.get (platform_key version p.os p.arch)) [
        | missing ↦ skip
        | failed ↦ skip
        | found text ↦ elim (r.decode_platform text) [
          | none ↦ skip
          | some q ↦
              let archive : Bytes × Bytes =
                (download_url r (zip_key version q), codes "zh:" ++ q.shasum) in
              let more =
                mirror_archives version (set_entry (p.os ++ codes "_" ++ p.arch) archive m) ps in
              if not (r.exists (zip_key version q)) then skip else more
        ]
      ]

  -- the part of `networkMirrorVersionHandler` behind the index
  unfoldable pub mirror_version : Bytes → Answer (List (Bytes × (Bytes × Bytes)))
  mirror_version version =
      if is_deprecated r (metadata_key version)
      then error 404
      else elim (get_provider_platforms r id.namespace id.name version) [
        | none ↦ error 404
        | some ps ↦
            let archives = mirror_archives version [] ps in
            if is_nil archives then error 404 else body archives
      ]

  -- `networkMirrorVersionHandler`
  unfoldable pub network_mirror_version : Bytes → Answer (List (Bytes × (Bytes × Bytes)))
  network_mirror_version version = elim (get_index r index_key) [
    | none ↦ error 404
    | some vs ↦ if not (index_has_version vs version) then error 404 else mirror_version version
  ]
