-- ===== src/Publish/RoundTrip.antt =====
-- The import reads the identity that the publication has written.
use terraform_registry.Base.{
  false, ◌≡◌, refl, arith, List, [], ◌∷◌, any, Bool-cases, inl, inr, Holds, ◌↔◌,
}
use terraform_registry.Text.{Bytes, text_eq}
use terraform_registry.Import.Manifest.{ArtifactMetadata, annotation, read_annotations}
use terraform_registry.Protocol.Providers.{set_entry}
use terraform_registry.Publish.{set_if, artifact_annotations, filtered_environment, variable_name}

-- What `metadataFromOCIManifest` reads of the annotations that `artifactAnnotations` has written is
-- the identity that was published, whatever its texts, the empty ones included.
pub read_annotations-artifact_annotations :
    (m : ArtifactMetadata) (title : Bytes) → read_annotations (artifact_annotations m title) ≡ m
unfolding read_annotations artifact_annotations annotation set_entry set_if text_eq
read_annotations-artifact_annotations m title = by_cases m.provider m.os m.arch
  where
    by_cases :
        (provider os arch : Bytes)
        → read_annotations
            (artifact_annotations (record m { provider = provider; os = os; arch = arch }) title)
          ≡ record m { provider = provider; os = os; arch = arch }
    by_cases [] [] [] = refl
    by_cases [] [] (a ∷ xs) = refl
    by_cases [] (o ∷ os) [] = refl
    by_cases [] (o ∷ os) (a ∷ xs) = refl
    by_cases (p ∷ ps) [] [] = refl
    by_cases (p ∷ ps) [] (a ∷ xs) = refl
    by_cases (p ∷ ps) (o ∷ os) [] = refl
    by_cases (p ∷ ps) (o ∷ os) (a ∷ xs) = refl

-- The filtered environment holds exactly the entries of the environment whose variable is none of the
-- blocked ones.
pub filtered_environment-Holds :
    (keys env : List Bytes) (entry : Bytes)
    → Holds entry (filtered_environment keys env)
      ↔ (Holds entry env × (any (text_eq (variable_name entry)) keys ≡ false))
unfolding filtered_environment
filtered_environment-Holds keys [] entry = (λ h. absurd h, λ h. absurd h.0)
filtered_environment-Holds keys (e ∷ env) entry =
    elim (Bool-cases (any (text_eq (variable_name e)) keys)) [
      | inl f ↦ ground (arith, filtered_environment-Holds keys env entry)
      | inr f ↦ ground (arith, filtered_environment-Holds keys env entry)
    ]
