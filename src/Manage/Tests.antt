-- ===== src/Manage/Tests.antt =====
-- The upload of a module over a few files.
use terraform_registry.Base.{
  ◌≤◌, ◌≡◌, ◌≢◌, refl, ap, subst, arith, Option, none, some, inr, [], ◌∷◌, length,
}
use terraform_registry.Text.{Bytes, codes, text_eq}
use terraform_registry.Paths.{dot}
use terraform_registry.Disk.{file, directory, Files, Error, World, Result, done, fails}
use terraform_registry.Disk.Laws.{content}
use terraform_registry.Disk.Triples.{Ensures}
use terraform_registry.Storage.Resolve.{resolve}
use terraform_registry.Storage.Writes.{Stream, temp_path}
use terraform_registry.Storage.Written.{beside-length}
use terraform_registry.Storage.DiskTests.{confined, suffix, suffix-Fresh}
use terraform_registry.Storage.Tests.{index_codec}
use terraform_registry.Manage.{VersionKeys, ArtifactCodec, artifact_meta_key, upload_module}
use terraform_registry.Manage.Steady.{Elsewhere}
use terraform_registry.Manage.Failed.{upload_module_fails_safely}

abbrev index : Bytes
index = codes "m/index.json"

abbrev keys : VersionKeys
keys = record { index = index; prefix = codes "m/1.0.0"; version = codes "1.0.0" }

abbrev artifacts : ArtifactCodec
artifacts = record { encode = λ name hash. name; decode = λ text. some text }

abbrev zero_hash : Bytes → Bytes
zero_hash b = codes "0"

abbrev accept : Bytes → Option Error
accept b = none

abbrev upload : Stream
upload = record { bytes = 31 ∷ 139 ∷ 8 ∷ 0 ∷ []; failure = none }

-- An index that cannot be decoded, so that the upload fails behind its metadata.
abbrev world : World
world = record {
  files = (codes "m", directory) ∷ (index, file (7 ∷ []) 0) ∷ [];
  now = 5;
  faults = [];
}

index_path : resolve confined index ≡ some index
unfolding resolve text_eq terraform_registry.Text.has_prefix terraform_registry.Text.contains
    terraform_registry.Paths.path_clean terraform_registry.Paths.clean_segments
    terraform_registry.Text.split terraform_registry.Text.join
index_path = refl

meta_path : resolve confined (artifact_meta_key keys) ≡ some (codes "m/1.0.0/artifact.json")
unfolding resolve text_eq terraform_registry.Text.has_prefix terraform_registry.Text.contains
    terraform_registry.Paths.path_clean terraform_registry.Paths.clean_segments
    terraform_registry.Text.split terraform_registry.Text.join
meta_path = refl

module_path :
    resolve confined (codes "m/1.0.0/module_0.tar.gz") ≡ some (codes "m/1.0.0/module_0.tar.gz")
unfolding resolve text_eq terraform_registry.Text.has_prefix terraform_registry.Text.contains
    terraform_registry.Paths.path_clean terraform_registry.Paths.clean_segments
    terraform_registry.Text.split terraform_registry.Text.join
module_path = refl

pub path-Elsewhere :
    (q key p : Bytes)
    → resolve confined key ≡ some p
    → p ≢ q
    → length q ≤ length p
    → 2 ≤ length p
    → Elsewhere confined q key
path-Elsewhere q key p e h l m r g =
    subst (λ r. (r ≢ q) × (temp_path r ≢ q) × (r ≢ dot)) same
      (
        h,
        (λ x. omega (arith, ap length x, beside-length (codes ".tmp-") [] p)),
        (λ x. omega (arith, ap length x)),
      )
  where
    same : p ≡ r
    same = ground (arith, e, g)

upload_module_fails_safely_example :
    Ensures
      (λ status f. status ≢ 200 → content index f ≡ some (7 ∷ []))
      (λ f. ⊥)
      (upload_module confined suffix zero_hash accept artifacts index_codec keys 10
        (inr upload)
        world)
unfolding terraform_registry.Disk.lookup text_eq
upload_module_fails_safely_example =
    upload_module_fails_safely confined suffix index (7 ∷ []) zero_hash accept artifacts index_codec
      keys upload 10 world suffix-Fresh index_path (λ x. ground (arith, x))
      (path-Elsewhere index (artifact_meta_key keys) (codes "m/1.0.0/artifact.json") meta_path
        (λ x. ground (arith, x)) (omega arith) (omega arith))
      (path-Elsewhere index (codes "m/1.0.0/module_0.tar.gz") (codes "m/1.0.0/module_0.tar.gz")
        module_path (λ x. ground (arith, x)) (omega arith) (omega arith))
      refl
