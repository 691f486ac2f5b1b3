-- ===== src/Protocol/Latest.antt =====
-- The latest version of a module.
use terraform_registry.Base.{
  Bool, false, not, ◌&&◌, Bool-cases, Option-cases, Option, none, some, is_some, List, [], ◌∷◌, ◌≡◌,
  ◌≢◌, ◌⊎◌, inl, inr, refl, arith, lt, All, All-map, All-Holds, Holds, is_nil,
}
use terraform_registry.Text.{Bytes, codes}
use terraform_registry.Semver.{compare_semver, sort_semantic_versions, parse_semantic_version}
use terraform_registry.Semver.Order.{compare_semver_flips}
use terraform_registry.Semver.Sort.{IsVersion, IsSorted, sort-IsSorted, All-sort}
use terraform_registry.Protocol.Reader.{
  Reader, found, error, body, get_index, is_deprecated, download_url,
}
use terraform_registry.Protocol.Modules.{
  ModuleId, module_path, module_artifact_key, module_metadata_key, find_latest,
  module_latest_download,
}

compare_semver_self : (v : Bytes) → compare_semver v v ≢ lt
compare_semver_self v h = absurd (ground (arith, compare_semver_flips v v))

IsVersion-ne_nil : (v : Bytes) → IsVersion v → is_nil v ≡ false
unfolding parse_semantic_version
IsVersion-ne_nil [] (p, e) = absurd (ground arith)
IsVersion-ne_nil (c ∷ v) h = refl

module _ (r : Reader) (id : ModuleId) where
  -- The version is not deprecated and has an artifact.
  abbrev pub is_served : Bytes → Bool
  is_served v =
      not (is_deprecated r (module_metadata_key r id v)) && is_some (module_artifact_key r id v)

  -- `v` is served from `key`, and no served version of the list is greater.
  pub record IsLatest (vs : List Bytes) (v key : Bytes) : Type 0 where
    pub held : Holds v vs
    pub not_deprecated : is_deprecated r (module_metadata_key r id v) ≡ false
    pub artifact : module_artifact_key r id v ≡ some key
    pub greatest : All (λ w. (is_served w ≡ false) ⊎ (compare_semver v w ≢ lt)) vs

  abbrev Found : List Bytes → Option (Bytes × Bytes) → Type 0
  Found vs hit =
      (hit ≡ none) × All (λ v. is_served v ≡ false) vs
      ⊎ ((v : Bytes) × (key : Bytes) × (hit ≡ some (v, key)) × IsLatest vs v key)

  find_latest-Found : (vs : List Bytes) → IsSorted vs → Found vs (find_latest r id vs)
  unfolding find_latest
  find_latest-Found [] s = inl (refl, tt)
  find_latest-Found (v ∷ vs) (a, s) = elim (find_latest-Found vs s) [
    | inr (u, key, e, l) ↦ inr (
      u,
      key,
      ground arith,
      record {
        held = inr l.held;
        not_deprecated = l.not_deprecated;
        artifact = l.artifact;
        greatest = (inr (All-Holds _ u vs l.held a), l.greatest);
      },
    )
    | inl (e, n) ↦ elim (Bool-cases (is_deprecated r (module_metadata_key r id v))) [
      | inl d ↦ inl (ground arith, (ground arith, n))
      | inr d ↦ elim (Option-cases (module_artifact_key r id v)) [
        | inl k ↦ inl (ground arith, (ground arith, n))
        | inr (key, k) ↦ inr (
          v,
          key,
          ground arith,
          record {
            held = inl refl;
            not_deprecated = d;
            artifact = k;
            greatest = (inr (compare_semver_self v), All-map _ _ vs (λ w h. inl h) n);
          },
        )
      ]
    ]
  ]

-- For an index of semantic versions `moduleLatestDownloadHandler` sends the client to the artifact
-- of the greatest version that is not deprecated and has an artifact, and it answers 404 only if the
-- index holds no such version.
pub module_latest_download_lem :
    (r : Reader) (id : ModuleId) (text : Bytes) (raw : List Bytes)
    → r.get (module_path id (codes "index.json" ∷ [])) ≡ found text
    → r.decode_index text ≡ some raw
    → All IsVersion raw
    → (module_latest_download r id ≡ error 404)
        × All (λ v. is_served r id v ≡ false) (sort_semantic_versions raw)
      ⊎ ((v : Bytes) × (key : Bytes) × (module_latest_download r id ≡ body (download_url r key))
          × IsLatest r id (sort_semantic_versions raw) v key)
unfolding module_latest_download get_index
module_latest_download_lem r id text raw g d h =
    let vs = sort_semantic_versions raw in
    elim (find_latest-Found r id vs (sort-IsSorted raw h)) [
      | inl (e, n) ↦ inl (ground arith, n)
      | inr (v, key, e, l) ↦
          let plain =
            IsVersion-ne_nil v (All-Holds IsVersion v vs l.held (All-sort IsVersion raw h)) in
          inr (v, key, ground arith, l)
    ]
