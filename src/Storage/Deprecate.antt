-- ===== src/Storage/Deprecate.antt =====
-- registry-server/storage.go: `setDeprecation`; registry-server/api.go: the handlers that deprecate a
-- version. The other fields of the metadata are of a type `Rest`, which is passed on.
use terraform_registry.Base.{ℕ, Bool, true, not, none, some, ◌≡◌, [], ◌∷◌, if◌then◌else◌}
use terraform_registry.Text.{Bytes, codes}
use terraform_registry.Protocol.Reader.{found, missing, failed, index_has_version, path_of}
use terraform_registry.Storage.Index.{Backend, IndexCodec, load_index}

-- `VersionMetadata`
pub record Metadata (Rest : Type 0) : Type 0 where
  pub version : Bytes
  pub deprecated : Bool
  pub deprecation : Bytes
  pub rest : Rest

-- The JSON form of the metadata. `decode_into` is what `json.Unmarshal` leaves in a fresh value,
-- whether or not it fails, and `fresh` is that value.
pub record MetadataCodec (Rest : Type 0) : Type 0 where
  pub fresh : Metadata Rest
  pub encode : Metadata Rest → Bytes
  pub decode_into : Bytes → Metadata Rest
  pub decode-encode : (m : Metadata Rest) → decode_into (encode m) ≡ m

module _ {W Meta Rest : Type 0} (b : Backend W) (c : IndexCodec Meta) (d : MetadataCodec Rest) where
  unfoldable pub load_metadata : W → Bytes → Metadata Rest
  load_metadata w key = elim (b.get w key) [
    | missing ↦ d.fresh
    | failed ↦ d.fresh
    | found text ↦ d.decode_into text
  ]

  -- `setDeprecation`
  unfoldable pub set_deprecation : W → Bytes → Bytes → Bytes → W × Bool
  set_deprecation w key version message =
      let m = record (load_metadata w key) {
        version = version;
        deprecated = true;
        deprecation = message;
      } in
      b.put w key (d.encode m)

  -- the two handlers behind their keys: the status that they answer
  unfoldable pub deprecate_version : W → Bytes → Bytes → Bytes → Bytes → W × ℕ
  deprecate_version w index_key metadata_key version message = elim (load_index b c w index_key) [
    | none ↦ (w, 404)
    | some i ↦
        let (w', done) = set_deprecation w metadata_key version message in
        if not (index_has_version i.versions version)
        then (w, 404)
        else if done
        then (w', 200)
        else (w', 500)
  ]

  -- `deprecateProviderHandler`
  unfoldable pub deprecate_provider : W → Bytes → Bytes → Bytes → Bytes → W × ℕ
  deprecate_provider w namespace name version message =
      deprecate_version w (path_of (codes "providers" ∷ namespace ∷ name ∷ codes "index.json" ∷ []))
        (path_of (codes "providers" ∷ namespace ∷ name ∷ version ∷ codes "metadata.json" ∷ []))
        version message

  -- `deprecateModuleHandler`
  unfoldable pub deprecate_module : W → Bytes → Bytes → Bytes → Bytes → Bytes → W × ℕ
  deprecate_module w namespace name provider version message =
      deprecate_version w
        (path_of (codes "modules" ∷ namespace ∷ name ∷ provider ∷ codes "index.json" ∷ []))
        (path_of
          (codes "modules" ∷ namespace ∷ name ∷ provider ∷ version ∷ codes "metadata.json" ∷ []))
        version message
