-- ===== src/Publish/Tests.antt =====
-- The theorems on publishing at concrete inputs.
use terraform_registry.Base.{◌≡◌, List, [], ◌∷◌}
use terraform_registry.Text.{Bytes, codes}
use terraform_registry.Import.Manifest.{ArtifactMetadata, read_annotations}
use terraform_registry.Publish.{artifact_annotations}
use terraform_registry.Publish.RoundTrip.{read_annotations-artifact_annotations}

abbrev published_module : ArtifactMetadata
published_module = record {
  kind = codes "module";
  namespace = codes "acme";
  name = codes "vpc";
  provider = codes "aws";
  version = codes "1.0.0";
  os = [];
  arch = [];
}

read_annotations-artifact_annotations_example :
    read_annotations (artifact_annotations published_module (codes "vpc.tar.gz")) ≡ published_module
read_annotations-artifact_annotations_example =
    read_annotations-artifact_annotations published_module (codes "vpc.tar.gz")

abbrev env : List Bytes
env = codes "HOME=/root" ∷ codes "TFREG_API_KEY=secret" ∷ []
