-- ===== src/Storage/Index.antt =====
-- registry-server/storage.go: the version indexes.
use terraform_registry.Base.{
  Bool, true, false, Option, none, some, ◌≡◌, List, [], ◌∷◌, ◌++◌, if◌then◌else◌,
}
use terraform_registry.Text.{Bytes, text_eq}
use terraform_registry.Semver.{sort_semantic_versions}
use terraform_registry.Protocol.Reader.{Read, found, missing, failed, index_has_version}

-- `Index`; the metadata, of a type `Meta`, are passed on.
pub record Index (Meta : Type 0) : Type 0 where
  pub versions : List Bytes
  pub metadata : Meta

-- What the changes use of the storage, over its states `W`: `Get`, and `putUnlocked`, which answers
-- whether it has succeeded. The laws are those of an atomic write at the key that is written.
pub record Backend (W : Type 0) : Type 0 where
  pub get : W → Bytes → Read
  pub put : W → Bytes → Bytes → W × Bool
  pub put_ok : (w : W) (k d : Bytes) → (put w k d).1 ≡ true → get (put w k d).0 k ≡ found d
  pub put_failed : (w : W) (k d : Bytes) → (put w k d).1 ≡ false → get (put w k d).0 k ≡ get w k

-- The JSON form of an index: what is encoded decodes to the same. `no_metadata` is the empty map.
pub record IndexCodec (Meta : Type 0) : Type 0 where
  pub no_metadata : Meta
  pub encode : Index Meta → Bytes
  pub decode : Bytes → Option (Index Meta)
  pub decode-encode : (i : Index Meta) → decode (encode i) ≡ some i

unfoldable pub without : Bytes → List Bytes → List Bytes
without version [] = []
without version (v ∷ vs) =
    let rest = without version vs in if text_eq v version then rest else v ∷ rest

module _ {W Meta : Type 0} (b : Backend W) (c : IndexCodec Meta) where
  -- `getIndex`
  unfoldable pub load_index : W → Bytes → Option (Index Meta)
  load_index w key = elim (b.get w key) [
    | missing ↦ some (record { versions = []; metadata = c.no_metadata })
    | failed ↦ none
    | found text ↦ elim (c.decode text) [
      | none ↦ none
      | some i ↦ some (record i { versions = sort_semantic_versions i.versions })
    ]
  ]

  unfoldable pub put_versions : W → Bytes → Index Meta → List Bytes → W × Bool
  put_versions w key i versions = b.put w key (c.encode (record i { versions = versions }))

  -- `addVersionToIndex`
  unfoldable pub add_version_to_index : W → Bytes → Bytes → W × Bool
  add_version_to_index w key version = elim (load_index w key) [
    | none ↦ (w, false)
    | some i ↦
        if index_has_version i.versions version
        then (w, true)
        else put_versions w key i (sort_semantic_versions (i.versions ++ version ∷ []))
  ]

  -- `removeVersionFromIndex`
  unfoldable pub remove_version_from_index : W → Bytes → Bytes → W × Bool
  remove_version_from_index w key version = elim (load_index w key) [
    | none ↦ (w, false)
    | some i ↦ put_versions w key i (without version i.versions)
  ]
