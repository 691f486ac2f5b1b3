-- ===== src/Import/Verified.antt =====
-- What the client has verified of a package when `unpackOCIArtifact` succeeds.
use terraform_registry.Base.Int.{ℤ, pos, negsuc, int_is, out_of_range}
use terraform_registry.Base.{
  ℕ, suc, zero, ◌+◌, ◌*◌, ◌≤◌, Bool, true, false, Bool-cases, Option-cases, not, Option, none, some,
  ◌≡◌, ◌⊎◌, inl, inr, refl, sym, ap, ◌∙◌, arith, List, [], ◌∷◌, ltb, ltb-false, take, length,
}
use terraform_registry.Text.{Bytes, codes, text_eq}
use terraform_registry.Text.Laws.{text_eq_iff}
use terraform_registry.Import.Manifest.{
  Descriptor, Manifest, ArtifactMetadata, ImportError, Result, ok, err, ◌>>=◌, fail_if,
  terraform_oci_artifact_type, annotation, check_layers, read_annotations,
  metadata_from_oci_manifest, terraform_provider_layer_type, terraform_module_layer_type,
  manifest_media_type, size_exceeds_limit, bad_digest, fetch_failed,
}
use terraform_registry.Import.Identity.{IsProvider, IsModule, check_kind-ok}
use terraform_registry.Import.Fetch.{
  Oci, media_type_image_manifest, max_oci_manifest_bytes, read_limited, fetch_descriptor,
  check_manifest, check_decoded, copy_layer, download_layer, open_manifest, unpack_layers,
  unpack_oci_artifact,
}

>>=-eq-ok {κ ℓ} :
    {B : Type κ} {A : Type ℓ} (next : A → Result B) (y : B) (first : Result A)
    → (first >>= next) ≡ ok y
    → (x : A) × (first ≡ ok x) × (next x ≡ ok y)
>>=-eq-ok next y (err e) p = absurd (ground arith)
>>=-eq-ok next y (ok x) p = (x, refl, p)

fail_if-ok : (b : Bool) (e : ImportError) → fail_if b e ≡ ok tt → b ≡ false
fail_if-ok false e h = refl
fail_if-ok true e h = absurd (ground arith)

length-take_le {ℓ} : {A : Type ℓ} (n : ℕ) (xs : List A) → length (take n xs) ≤ n
length-take_le zero xs = omega arith
length-take_le (suc n) [] = omega arith
length-take_le (suc n) (x ∷ xs) = omega (arith, length-take_le n xs)

int_is-pos : (n : ℕ) (z : ℤ) → int_is n z ≡ true → z ≡ pos n
int_is-pos n (pos m) h = ground arith
int_is-pos n (negsuc m) h = absurd (ground arith)

-- The layer that was downloaded, against the bytes that were written.
pub record IsVerified (oci : Oci) (max_bytes : ℕ) (layer : Descriptor) (written : Bytes)
    : Type 0 where
  pub digest : oci.digest_of layer.digest written ≡ true
  pub size : layer.size ≡ pos (length written)
  pub bounded : length written ≤ max_bytes

-- The bytes of the manifest, against its descriptor.
pub record IsFetched (oci : Oci) (d : Descriptor) (body : Bytes) : Type 0 where
  pub digest : oci.digest_of d.digest body ≡ true
  pub size : d.size ≡ pos (length body)
  pub bounded : length body ≤ 4 * 1048576

-- The identity that the annotations of a manifest state.
pub record IsStated (annotations : List (Bytes × Bytes)) (m : ArtifactMetadata) : Type 0 where
  pub kind : m.kind ≡ annotation annotations (codes "io.terraform.kind")
  pub namespace : m.namespace ≡ annotation annotations (codes "io.terraform.namespace")
  pub name : m.name ≡ annotation annotations (codes "io.terraform.name")
  pub provider : m.provider ≡ annotation annotations (codes "io.terraform.provider")
  pub version : m.version ≡ annotation annotations (codes "io.terraform.version")
  pub os : m.os ≡ annotation annotations (codes "io.terraform.os")
  pub arch : m.arch ≡ annotation annotations (codes "io.terraform.arch")

read_annotations-IsStated :
    (annotations : List (Bytes × Bytes)) (m : ArtifactMetadata)
    → m ≡ read_annotations annotations
    → IsStated annotations m
unfolding read_annotations
read_annotations-IsStated annotations m e = record {
  kind = ap (λ (m : ArtifactMetadata). m.kind) e;
  namespace = ap (λ (m : ArtifactMetadata). m.namespace) e;
  name = ap (λ (m : ArtifactMetadata). m.name) e;
  provider = ap (λ (m : ArtifactMetadata). m.provider) e;
  version = ap (λ (m : ArtifactMetadata). m.version) e;
  os = ap (λ (m : ArtifactMetadata). m.os) e;
  arch = ap (λ (m : ArtifactMetadata). m.arch) e;
}

abbrev pub HasIdentity : ArtifactMetadata → Descriptor → Type 0
HasIdentity m layer =
    (layer.media_type ≡ terraform_provider_layer_type) × IsProvider m
    ⊎ (layer.media_type ≡ terraform_module_layer_type) × IsModule m

module _ (oci : Oci) where
  copy_layer-ok :
      (layer : Descriptor) (max_bytes : ℕ) (reader : Bytes × Bool)
      → (copy_layer oci layer max_bytes reader).1 ≡ ok tt
      → IsVerified oci max_bytes layer (copy_layer oci layer max_bytes reader).0
  unfolding copy_layer
  copy_layer-ok layer max_bytes reader h =
      let written = (read_limited (max_bytes + 1) reader).0 in
      let parts : (ltb max_bytes (length written) ≡ false)
          × (int_is (length written) layer.size ≡ true)
          × (oci.digest_of layer.digest written ≡ true) =
        (ground arith, ground arith, ground arith) in
      record {
        digest = parts.2;
        size = int_is-pos (length written) layer.size parts.1;
        bounded = ltb-false max_bytes (length written) parts.0;
      }

  copy_layer_bound :
      (layer : Descriptor) (max_bytes : ℕ) (reader : Bytes × Bool)
      → length (copy_layer oci layer max_bytes reader).0 ≤ max_bytes + 1
  unfolding copy_layer read_limited
  copy_layer_bound layer max_bytes (body, fails) = length-take_le (max_bytes + 1) body

  -- How a download ends: with a refusal and no byte written, or as the copy of a reader.
  download_layer_cases :
      (layer : Descriptor) (max_bytes : ℕ)
      → ((e : ImportError) × (download_layer oci layer max_bytes ≡ ([], err e)))
        ⊎ ((reader : Bytes × Bool) × (download_layer oci layer max_bytes
              ≡ copy_layer oci layer max_bytes reader))
  unfolding download_layer
  download_layer_cases layer max_bytes = elim (Bool-cases (oci.digest_valid layer.digest)) [
    | inr e ↦ inl (bad_digest, rw e)
    | inl e ↦ elim (Bool-cases (out_of_range layer.size max_bytes)) [
      | inl f ↦ inl (size_exceeds_limit, rw (e, f))
      | inr f ↦ elim (Option-cases (oci.fetch layer)) [
        | inl g ↦ inl (fetch_failed, rw (e, f, g))
        | inr (reader, g) ↦ inr (reader, rw (e, f, g))
      ]
    ]
  ]

  download_layer-ok :
      (layer : Descriptor) (max_bytes : ℕ)
      → (download_layer oci layer max_bytes).1 ≡ ok tt
      → IsVerified oci max_bytes layer (download_layer oci layer max_bytes).0
  download_layer-ok layer max_bytes h = elim (download_layer_cases layer max_bytes) [
    | inl (e, p) ↦ absurd (ground arith)
    | inr (reader, p) ↦ rw p (copy_layer-ok layer max_bytes reader (rw p at h))
  ]

  download_layer_bound :
      (layer : Descriptor) (max_bytes : ℕ)
      → length (download_layer oci layer max_bytes).0 ≤ max_bytes + 1
  download_layer_bound layer max_bytes = elim (download_layer_cases layer max_bytes) [
    | inl (e, p) ↦ rw p (omega arith)
    | inr (reader, p) ↦ rw p (copy_layer_bound layer max_bytes reader)
  ]

  fetch_descriptor-ok :
      (d : Descriptor) (body : Bytes)
      → fetch_descriptor oci d max_oci_manifest_bytes ≡ ok body
      → IsFetched oci d body
  unfolding fetch_descriptor
  fetch_descriptor-ok d body h = elim (Option-cases (oci.fetch d)) [
    | inl g ↦ absurd (ground arith)
    | inr (reader, g) ↦
        let b = (read_limited (max_oci_manifest_bytes + 1) reader).0 in
        let parts : (b ≡ body)
            × (ltb max_oci_manifest_bytes (length b) ≡ false)
            × (int_is (length b) d.size ≡ true)
            × (oci.digest_of d.digest b ≡ true) =
          (ground arith, ground arith, ground arith, ground arith) in
        let (e, l, z, g) = parts in
        record {
          digest = rw⁻¹ e g;
          size = rw⁻¹ e (int_is-pos (length b) d.size z);
          bounded = rw⁻¹ e (ltb-false max_oci_manifest_bytes (length b) l);
        }
  ]

  check_manifest-ok :
      (mf : Manifest) (m : ArtifactMetadata)
      → check_manifest oci mf ≡ ok m
      → (mf.schema_version ≡ 2)
        × (mf.artifact_type ≡ terraform_oci_artifact_type)
        × (check_layers (read_annotations mf.annotations) mf.layers ≡ ok m)
  unfolding check_manifest metadata_from_oci_manifest
  check_manifest-ok mf m h = (
    ground arith,
    (text_eq_iff mf.artifact_type terraform_oci_artifact_type).0 (ground arith),
    ground arith,
  )

  decoded-ok :
      (decoded : Option Manifest) (m : ArtifactMetadata) (layers : List Descriptor)
      → check_decoded oci decoded ≡ ok (m, layers)
      → (mf : Manifest) × (decoded ≡ some mf)
        × (check_manifest oci mf ≡ ok m)
        × (layers ≡ mf.layers)
  unfolding check_decoded
  decoded-ok none m layers h = absurd (ground arith)
  decoded-ok (some mf) m layers h =
      let (a, p, q) = >>=-eq-ok _ _ (check_manifest oci mf) h in
      (mf, refl, p ∙ ground arith, ground arith)

  open_manifest-ok :
      (d : Descriptor) (m : ArtifactMetadata) (layers : List Descriptor)
      → open_manifest oci d ≡ ok (m, layers)
      → (body : Bytes) × (mf : Manifest) × IsFetched oci d body
        × (oci.decode_manifest body ≡ some mf)
        × (check_manifest oci mf ≡ ok m)
        × (layers ≡ mf.layers)
  unfolding open_manifest
  open_manifest-ok d m layers h =
      let rest : Bytes → Result (ArtifactMetadata × List Descriptor) =
        λ body. check_decoded oci (oci.decode_manifest body) in
      let fetched = fetch_descriptor oci d max_oci_manifest_bytes in
      let type_ok = text_eq d.media_type media_type_image_manifest in
      let (u, p, q) =
        >>=-eq-ok (λ _. fetched >>= rest) _ (fail_if (not type_ok) manifest_media_type) h in
      let (body, p', q') = >>=-eq-ok rest _ fetched q in
      let (mf, e, c, l) = decoded-ok (oci.decode_manifest body) m layers q' in
      (body, mf, fetch_descriptor-ok d body p', e, c, l)

  check_layers-ok :
      (a m : ArtifactMetadata) (layer : Descriptor)
      → check_layers a (layer ∷ []) ≡ ok m
      → (m ≡ a) × HasIdentity m layer
  unfolding check_layers
  check_layers-ok a m layer h = let (e, i) = check_kind-ok a m layer.media_type h in (e, rw e i)

  unpack_layers-ok :
      (m m' : ArtifactMetadata) (layers : List Descriptor) (max_bytes : ℕ)
      → (unpack_layers oci m layers max_bytes).1 ≡ ok m'
      → (layer : Descriptor) × (layers ≡ layer ∷ [])
        × (m' ≡ m)
        × IsVerified oci max_bytes layer (unpack_layers oci m layers max_bytes).0
  unfolding unpack_layers
  unpack_layers-ok m m' (layer ∷ []) max_bytes h =
      let (u, p, q) = >>=-eq-ok _ _ (download_layer oci layer max_bytes).1 h in
      (layer, refl, ground arith, download_layer-ok layer max_bytes p)
  unpack_layers-ok m m' [] max_bytes h = absurd (ground arith)
  unpack_layers-ok m m' _ max_bytes h = absurd (ground arith)

  unpack_layers_bound :
      (m : ArtifactMetadata) (layers : List Descriptor) (max_bytes : ℕ)
      → length (unpack_layers oci m layers max_bytes).0 ≤ max_bytes + 1
  unfolding unpack_layers
  unpack_layers_bound m (layer ∷ []) max_bytes = download_layer_bound layer max_bytes
  unpack_layers_bound m [] max_bytes = omega arith
  unpack_layers_bound m _ max_bytes = omega arith

Result-cases {ℓ} :
    {A : Type ℓ} (r : Result A) → ((e : ImportError) × (r ≡ err e)) ⊎ ((a : A) × (r ≡ ok a))
Result-cases (ok a) = inr (a, refl)
Result-cases (err e) = inl (e, refl)

-- What the client has verified of a package: the manifest's bytes are those of the descriptor, it
-- states the identity, and its one layer is what was written.
pub record IsUnpacked (oci : Oci) (d : Descriptor) (max_bytes : ℕ) (written : Bytes)
    (m : ArtifactMetadata) : Type 0 where
  pub body : Bytes
  pub manifest : Manifest
  pub layer : Descriptor
  pub fetched : IsFetched oci d body
  pub decoded : oci.decode_manifest body ≡ some manifest
  pub schema_version : manifest.schema_version ≡ 2
  pub artifact_type : manifest.artifact_type ≡ terraform_oci_artifact_type
  pub one_layer : manifest.layers ≡ layer ∷ []
  pub stated : IsStated manifest.annotations m
  pub identity : HasIdentity m layer
  pub verified : IsVerified oci max_bytes layer written

-- If `unpackOCIArtifact` succeeds, then the manifest is decoded from bytes that have the digest and
-- the size of the descriptor, it has the schema version 2, the type of a Terraform artifact and one
-- layer, and its annotations state the identity that is returned. The bytes written have the digest
-- and the size that this layer declares and are no more than the limit, the layer has the media type
-- of the artifact's kind, and the identity is one that the server's routes accept.
pub unpack-IsVerified :
    (oci : Oci) (d : Descriptor) (max_bytes : ℕ) (m : ArtifactMetadata)
    → (unpack_oci_artifact oci d max_bytes).1 ≡ ok m
    → IsUnpacked oci d max_bytes (unpack_oci_artifact oci d max_bytes).0 m
unfolding unpack_oci_artifact
unpack-IsVerified oci d max_bytes m h = elim (Result-cases (open_manifest oci d)) [
  | inl (e, p) ↦ absurd (ground arith)
  | inr ((a, layers), p) ↦
      let (layer, q, r, v) =
        unpack_layers-ok oci a m layers max_bytes (rw (p, unpack_oci_artifact) at h) in
      let (body, mf, f, e, c, l) = open_manifest-ok oci d a layers p in
      let (sv, at, k) = check_manifest-ok oci mf a c in
      let one : mf.layers ≡ layer ∷ [] = sym l ∙ q in
      let (t, i) =
        check_layers-ok oci (read_annotations mf.annotations) a layer
          (ap (check_layers (read_annotations mf.annotations)) (sym one) ∙ k) in
      rw (p, unpack_oci_artifact)
        (record {
          body = body;
          manifest = mf;
          layer = layer;
          fetched = f;
          decoded = e;
          schema_version = sv;
          artifact_type = at;
          one_layer = one;
          stated = read_annotations-IsStated mf.annotations m (r ∙ t);
          identity = rw r i;
          verified = v;
        })
]

-- Whatever the source delivers and however the download ends, at most one byte more than the limit
-- is written.
pub unpack_bounded :
    (oci : Oci) (d : Descriptor) (max_bytes : ℕ)
    → length (unpack_oci_artifact oci d max_bytes).0 ≤ max_bytes + 1
unfolding unpack_oci_artifact
unpack_bounded oci d max_bytes = elim (Result-cases (open_manifest oci d)) [
  | inl (e, p) ↦ rw (p, unpack_oci_artifact) (omega arith)
  | inr ((a, layers), p) ↦ rw (p, unpack_oci_artifact) (unpack_layers_bound oci a layers max_bytes)
]
