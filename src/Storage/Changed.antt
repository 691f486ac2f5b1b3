-- ===== src/Storage/Changed.antt =====
-- What the changes of an index and of the metadata leave behind.
use terraform_registry.Base.{
  ℕ, Bool, true, false, Bool-cases, Option-cases, some, ◌≡◌, ◌≢◌, ◌↔◌, ◌⊎◌, inl, inr, refl, sym,
  subst, arith, List, [], ◌∷◌, ◌++◌, Holds,
}
use terraform_registry.Text.{Bytes, text_eq}
use terraform_registry.Text.Laws.{text_eq_iff}
use terraform_registry.Semver.{sort_semantic_versions, insert_version, semver_less}
use terraform_registry.Protocol.Reader.{found, index_has_version}
use terraform_registry.Storage.Index.{
  Backend, IndexCodec, Index, load_index, put_versions, add_version_to_index,
  remove_version_from_index, without,
}
use terraform_registry.Storage.Deprecate.{
  MetadataCodec, Metadata, load_metadata, set_deprecation, deprecate_version,
}

Holds-insert_version :
    (x v : Bytes) (vs : List Bytes) → Holds x (insert_version v vs) ↔ ((x ≡ v) ⊎ Holds x vs)
unfolding insert_version
Holds-insert_version x v [] = (λ h. h, λ h. h)
Holds-insert_version x v (w ∷ ws) = elim (Bool-cases (semver_less w v)) [
  | inl e ↦ ground (arith, Holds-insert_version x v ws)
  | inr e ↦ ground arith
]

Holds-sort : (x : Bytes) (vs : List Bytes) → Holds x (sort_semantic_versions vs) ↔ Holds x vs
unfolding sort_semantic_versions
Holds-sort x [] = (λ h. h, λ h. h)
Holds-sort x (v ∷ vs) =
    ground (arith, Holds-insert_version x v (sort_semantic_versions vs), Holds-sort x vs)

Holds-append : (x v : Bytes) (vs : List Bytes) → Holds x (vs ++ v ∷ []) ↔ ((x ≡ v) ⊎ Holds x vs)
Holds-append x v [] = (λ h. h, λ h. h)
Holds-append x v (w ∷ ws) = ground (arith, Holds-append x v ws)

Holds-without : (x v : Bytes) (vs : List Bytes) → Holds x (without v vs) ↔ ((x ≢ v) × Holds x vs)
unfolding without
Holds-without x v [] = (λ h. absurd h, λ h. absurd h.1)
Holds-without x v (w ∷ ws) = elim (Bool-cases (text_eq w v)) [
  | inl e ↦ ground (arith, Holds-without x v ws, text_eq_iff w v)
  | inr e ↦ ground (arith, Holds-without x v ws, text_eq_iff w v)
]

index_has_version_iff : (vs : List Bytes) (v : Bytes) → (index_has_version vs v ≡ true) ↔ Holds v vs
unfolding index_has_version
index_has_version_iff [] v = ground arith
index_has_version_iff (w ∷ ws) v = ground (arith, index_has_version_iff ws v, text_eq_iff w v)

module _ {W Meta : Type 0} (b : Backend W) (c : IndexCodec Meta) where
  load_index-found :
      (w : W) (key text : Bytes) (i : Index Meta)
      → b.get w key ≡ found text
      → c.decode text ≡ some i
      → load_index b c w key
        ≡ some (record { versions = sort_semantic_versions i.versions; metadata = i.metadata })
  unfolding load_index
  load_index-found w key text i g d = ground arith

  -- The index that is loaded after a successful write holds the versions that were written.
  load_index-put :
      (w : W) (key : Bytes) (i : Index Meta) (vs : List Bytes)
      → (put_versions b c w key i vs).1 ≡ true
      → load_index b c (put_versions b c w key i vs).0 key
        ≡ some (record { versions = sort_semantic_versions vs; metadata = i.metadata })
  unfolding put_versions
  load_index-put w key i vs h =
      let j : Index Meta = record i { versions = vs } in
      load_index-found (b.put w key (c.encode j)).0 key (c.encode j) j
        (b.put_ok w key (c.encode j) h) (c.decode-encode j)

  -- The index, read again, satisfies `P`.
  abbrev pub Reads : Bytes → (List Bytes → Type 0) → W → Type 0
  Reads key P w = (j : Index Meta) × (load_index b c w key ≡ some j) × P j.versions

  pub added :
      (w : W) (key version : Bytes) (i : Index Meta)
      → load_index b c w key ≡ some i
      → index_has_version i.versions version ≡ true
      → add_version_to_index b c w key version ≡ (w, true)
  unfolding add_version_to_index
  added w key version i l e = rw (l, e, add_version_to_index) refl

  pub adding :
      (w : W) (key version : Bytes) (i : Index Meta)
      → load_index b c w key ≡ some i
      → index_has_version i.versions version ≡ false
      → add_version_to_index b c w key version
        ≡ put_versions b c w key i (sort_semantic_versions (i.versions ++ version ∷ []))
  unfolding add_version_to_index
  adding w key version i l e = rw (l, e, add_version_to_index) refl

  pub removing :
      (w : W) (key version : Bytes) (i : Index Meta)
      → load_index b c w key ≡ some i
      → remove_version_from_index b c w key version
        ≡ put_versions b c w key i (without version i.versions)
  unfolding remove_version_from_index
  removing w key version i l = rw (l, remove_version_from_index) refl

  -- If a version is added with success to an index that can be read, then the index, read again,
  -- lists it and the versions that it listed before, and no other.
  pub add_version_to_index-Reads :
      (w : W) (key version x : Bytes) (i : Index Meta)
      → load_index b c w key ≡ some i
      → (add_version_to_index b c w key version).1 ≡ true
      → Reads key
          (λ vs. Holds x vs ↔ ((x ≡ version) ⊎ Holds x i.versions))
          (add_version_to_index b c w key version).0
  add_version_to_index-Reads w key version x i l h =
      let more = sort_semantic_versions (i.versions ++ version ∷ []) in
      let P : List Bytes → Type 0 = λ vs. Holds x vs ↔ ((x ≡ version) ⊎ Holds x i.versions) in
      elim (Bool-cases (index_has_version i.versions version)) [
        | inl e ↦
            let held = (index_has_version_iff i.versions version).0 e in
            subst (λ (o : W × Bool). Reads key P o.0) (sym (added w key version i l e))
              (
                i,
                l,
                (
                  λ m. inr m,
                  λ m. elim m [ inl p ↦ subst (λ u. Holds u i.versions) (sym p) held | inr k ↦ k ],
                ),
              )
        | inr e ↦
            let run = adding w key version i l e in
            subst (λ (o : W × Bool). Reads key P o.0) (sym run)
              (
                record { versions = sort_semantic_versions more; metadata = i.metadata },
                load_index-put w key i more (subst (λ (o : W × Bool). o.1 ≡ true) run h),
                ground (
                  arith,
                  Holds-sort x more,
                  Holds-sort x (i.versions ++ version ∷ []),
                  Holds-append x version i.versions,
                ),
              )
      ]

  -- If a version is removed with success from an index that can be read, then the index, read again,
  -- lists the versions that it listed before except that one.
  pub remove_version_from_index-Reads :
      (w : W) (key version x : Bytes) (i : Index Meta)
      → load_index b c w key ≡ some i
      → (remove_version_from_index b c w key version).1 ≡ true
      → Reads key
          (λ vs. Holds x vs ↔ ((x ≢ version) × Holds x i.versions))
          (remove_version_from_index b c w key version).0
  remove_version_from_index-Reads w key version x i l h =
      let less = without version i.versions in
      let P : List Bytes → Type 0 = λ vs. Holds x vs ↔ ((x ≢ version) × Holds x i.versions) in
      let run = removing w key version i l in
      subst (λ (o : W × Bool). Reads key P o.0) (sym run)
        (
          record { versions = sort_semantic_versions less; metadata = i.metadata },
          load_index-put w key i less (subst (λ (o : W × Bool). o.1 ≡ true) run h),
          ground (arith, Holds-sort x less, Holds-without x version i.versions),
        )

module _ {W Meta Rest : Type 0} (b : Backend W) (c : IndexCodec Meta) (d : MetadataCodec Rest) where
  load_metadata-found :
      (w : W) (key : Bytes) (m : Metadata Rest)
      → b.get w key ≡ found (d.encode m)
      → load_metadata b c d w key ≡ m
  unfolding load_metadata
  load_metadata-found w key m g = rw (g, load_metadata) (d.decode-encode m)

  load_metadata-same :
      (w w' : W) (key : Bytes)
      → b.get w' key ≡ b.get w key
      → load_metadata b c d w' key ≡ load_metadata b c d w key
  unfolding load_metadata
  load_metadata-same w w' key g = rw (g, load_metadata) refl

  -- How the handler ends: for a version of the index with the status 200 and metadata that, read
  -- again, says that the version is deprecated with this message; or otherwise, and the metadata
  -- reads as before.
  abbrev pub DeprecateOutcome : W → Bytes → Bytes → Bytes → Bytes → W × ℕ → Type 0
  DeprecateOutcome w index_key metadata_key version message (w', status) =
      (status ≡ 200)
        × Reads b c index_key (λ vs. Holds version vs) w
        × (load_metadata b c d w' metadata_key ≡ record (load_metadata b c d w metadata_key) {
          version = version;
          deprecated = true;
          deprecation = message;
        })
      ⊎ (status ≢ 200) × (load_metadata b c d w' metadata_key ≡ load_metadata b c d w metadata_key)

  set_deprecation-load :
      (w : W) (key version message : Bytes)
      → ((set_deprecation b c d w key version message).1 ≡ true)
          × (load_metadata b c d (set_deprecation b c d w key version message).0 key
              ≡ record (load_metadata b c d w key) {
                version = version;
                deprecated = true;
                deprecation = message;
              })
        ⊎ ((set_deprecation b c d w key version message).1 ≡ false)
          × (load_metadata b c d (set_deprecation b c d w key version message).0 key
              ≡ load_metadata b c d w key)
  unfolding set_deprecation
  set_deprecation-load w key version message =
      let m : Metadata Rest = record (load_metadata b c d w key) {
        version = version;
        deprecated = true;
        deprecation = message;
      } in
      elim (Bool-cases (b.put w key (d.encode m)).1) [
        | inl g ↦ inl (g, load_metadata-found _ key m (b.put_ok w key (d.encode m) g))
        | inr g ↦ inr (g, load_metadata-same w _ key (b.put_failed w key (d.encode m) g))
      ]

  -- The handlers that deprecate a version answer 200 only for a version of the index, and then the
  -- metadata, read again, says that the version is deprecated with the message of the request, its
  -- other fields as they were; with any other answer the metadata reads as before.
  pub deprecate_version_lem :
      (w : W) (index_key metadata_key version message : Bytes)
      → DeprecateOutcome w index_key metadata_key version message
          (deprecate_version b c d w index_key metadata_key version message)
  unfolding deprecate_version
  deprecate_version_lem w index_key metadata_key version message =
      elim (Option-cases (load_index b c w index_key)) [
        | inl e ↦ rw (e, deprecate_version) (inr (ground arith, refl))
        | inr (i, e) ↦ elim (Bool-cases (index_has_version i.versions version)) [
          | inr f ↦ rw (e, f, deprecate_version) (inr (ground arith, refl))
          | inl f ↦
              let held = (index_has_version_iff i.versions version).0 f in
              elim (set_deprecation-load w metadata_key version message) [
                | inl (g, m) ↦ rw (e, f, g, deprecate_version) (inl (refl, (i, refl, held), m))
                | inr (g, m) ↦ rw (e, f, g, deprecate_version) (inr (ground arith, m))
              ]
        ]
      ]
