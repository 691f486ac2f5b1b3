-- ===== src/Validation/Tests.antt =====
-- The theorems on request validation at concrete inputs.
use mathlib.Core.List.{Mem}
use terraform_registry.Base.{true, none, ◌≡◌, ◌↔◌, List, [], ◌∷◌}
use terraform_registry.Text.{Bytes, codes}
use terraform_registry.Validation.{valid_artifact_name, route_validation}
use terraform_registry.Validation.Names.{IsName, valid_artifact_name_iff}
use terraform_registry.Validation.Routes.{IsAllowed, route_validation_iff}

valid_artifact_name_iff_example :
    (valid_artifact_name (codes "aws_eu-1") ≡ true) ↔ IsName (codes "aws_eu-1")
valid_artifact_name_iff_example = valid_artifact_name_iff (codes "aws_eu-1")

abbrev route_vars : List (Bytes × Bytes)
route_vars = (codes "namespace", codes "acme") ∷ (codes "version", codes "1.0.0") ∷ []

route_validation_iff_example :
    (route_validation route_vars ≡ none)
    ↔ ((var : Bytes × Bytes) → Mem var route_vars → IsAllowed var.0 var.1)
route_validation_iff_example = route_validation_iff route_vars
