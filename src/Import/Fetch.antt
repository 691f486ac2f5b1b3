-- ===== src/Import/Fetch.antt =====
-- cmd/tfreg/import.go: downloading the manifest and the package with their size limits and digests.
use terraform_registry.Base.Int.{out_of_range, int_is}
use terraform_registry.Base.{
  ℕ, ◌+◌, Bool, not, ◌&&◌, ◌||◌, ◌*◌, Option, none, some, List, [], ◌∷◌, if◌then◌else◌, ltb, ◌==◌,
  take, length,
}
use terraform_registry.Text.{Bytes, codes, text_eq}
use terraform_registry.Import.Manifest.{
  Descriptor, Manifest, ArtifactMetadata, ImportError, manifest_media_type, manifest_decode,
  layer_count, bad_digest, size_exceeds_limit, fetch_failed, copy_failed, size_mismatch,
  digest_mismatch, Result, ok, err, ◌>>=◌, ◌>>◌, fail_if, terraform_oci_artifact_type,
  metadata_from_oci_manifest,
}

-- What the client uses of the OCI and JSON packages: whether a digest is well formed, whether some
-- bytes have a digest, what a fetch of a descriptor yields (nothing if it fails; the bytes that the
-- reader delivers, and whether it then fails in place of ending), and the decoder of manifests.
pub record Oci : Type 0 where
  pub digest_valid : Bytes → Bool
  pub digest_of : Bytes → Bytes → Bool
  pub fetch : Descriptor → Option (Bytes × Bool)
  pub decode_manifest : Bytes → Option Manifest

-- `maxOCIManifestBytes`
abbrev pub max_oci_manifest_bytes : ℕ
max_oci_manifest_bytes = 4 * 1048576

-- `ocispec.MediaTypeImageManifest`
abbrev pub media_type_image_manifest : Bytes
media_type_image_manifest = codes "application/vnd.oci.image.manifest.v1+json"

-- What a reader behind `io.LimitReader(reader, limit)` delivers, and whether it fails: a failure of
-- the reader shows only if it comes before the limit.
unfoldable pub read_limited : ℕ → Bytes × Bool → Bytes × Bool
read_limited limit (body, fails) = (take limit body, fails && ltb (length body) limit)

module _ (oci : Oci) where
  -- `fetchDescriptor`
  unfoldable pub fetch_descriptor : Descriptor → ℕ → Result Bytes
  fetch_descriptor d max_bytes = do
    fail_if (not (oci.digest_valid d.digest)) bad_digest
    fail_if (out_of_range d.size max_bytes) size_exceeds_limit
    elim (oci.fetch d) [
      | none ↦ err fetch_failed
      | some reader ↦
          let (body, fails) = read_limited (max_bytes + 1) reader in
          do
            fail_if fails copy_failed
            fail_if (ltb max_bytes (length body) || not (int_is (length body) d.size)) size_mismatch
            fail_if (not (oci.digest_of d.digest body)) digest_mismatch
            ok body
    ]

  -- the tests of `unpackOCIArtifact` on the decoded manifest
  unfoldable pub check_manifest : Manifest → Result ArtifactMetadata
  check_manifest m = do
    fail_if (not (m.schema_version == 2)) ImportError.schema_version
    fail_if (not (text_eq m.artifact_type terraform_oci_artifact_type)) ImportError.artifact_type
    fail_if (not (length m.layers == 1)) layer_count
    metadata_from_oci_manifest m

  unfoldable pub check_decoded : Option Manifest → Result (ArtifactMetadata × List Descriptor)
  check_decoded none = err manifest_decode
  check_decoded (some m) = check_manifest m >>= λ metadata. ok (metadata, m.layers)

  -- `unpackOCIArtifact` up to the layer: the identity, and the one layer
  unfoldable pub open_manifest : Descriptor → Result (ArtifactMetadata × List Descriptor)
  open_manifest d = do
    fail_if (not (text_eq d.media_type media_type_image_manifest)) manifest_media_type
    body ← fetch_descriptor d max_oci_manifest_bytes
    check_decoded (oci.decode_manifest body)

  -- the download of the layer: what is written to the output, and how it ends
  unfoldable pub copy_layer : Descriptor → ℕ → Bytes × Bool → Bytes × Result (Unit {0})
  copy_layer layer max_bytes reader =
      let (written, fails) = read_limited (max_bytes + 1) reader in
      (
        written,
        do
          fail_if fails copy_failed
          fail_if (ltb max_bytes (length written)) size_exceeds_limit
          fail_if (not (int_is (length written) layer.size)) size_mismatch
          fail_if (not (oci.digest_of layer.digest written)) digest_mismatch,
      )

  unfoldable pub download_layer : Descriptor → ℕ → Bytes × Result (Unit {0})
  download_layer layer max_bytes =
      if not (oci.digest_valid layer.digest)
      then ([], err bad_digest)
      else if out_of_range layer.size max_bytes
      then ([], err size_exceeds_limit)
      else elim (oci.fetch layer) [
        | none ↦ ([], err fetch_failed)
        | some reader ↦ copy_layer layer max_bytes reader
      ]

  unfoldable pub unpack_layers :
      ArtifactMetadata → List Descriptor → ℕ → Bytes × Result ArtifactMetadata
  unpack_layers metadata (layer ∷ []) max_bytes =
      let (written, end) = download_layer layer max_bytes in (written, end >> ok metadata)
  unpack_layers metadata _ max_bytes = ([], err layer_count)

  -- `unpackOCIArtifact`: what is written to the output, and the result
  unfoldable pub unpack_oci_artifact : Descriptor → ℕ → Bytes × Result ArtifactMetadata
  unpack_oci_artifact d max_bytes = elim (open_manifest d) [
    | err e ↦ ([], err e)
    | ok (metadata, layers) ↦ unpack_layers metadata layers max_bytes
  ]
