-- ===== src/Semver/Tests.antt =====
-- The theorems on semantic versions at concrete inputs.
use mathlib.Core.List.{Perm}
use terraform_registry.Base.{some, ◌≡◌, ◌↔◌, refl, List, [], ◌∷◌}
use terraform_registry.Text.{
  Bytes, codes, has_prefix, contains, cut, split, is_digit, digits_value, parse_uint,
}
use terraform_registry.Semver.{
  numeric_identifier, is_identifier_char, has_leading_zero, valid_identifier, valid_identifiers,
  core_number, parse_core, parse_version_and_pre, parse_semantic_version, sort_semantic_versions,
}
use terraform_registry.Semver.Grammar.{VersionText, render, Denotes}
use terraform_registry.Semver.Accept.{parse_iff}
use terraform_registry.Semver.Sort.{IsVersion, IsSorted, ties, sort_stable}

abbrev full_version : Bytes
full_version = codes "1.20.3-rc.1+linux.7"

parse_iff_example :
    (parse_semantic_version full_version
      ≡ some (record { major = 1; minor = 20; patch = 3; pre = codes "rc" ∷ codes "1" ∷ [] }))
    ↔ ((t : VersionText) × (full_version ≡ render t)
        × Denotes t
            (record { major = 1; minor = 20; patch = 3; pre = codes "rc" ∷ codes "1" ∷ [] }))
parse_iff_example =
    parse_iff full_version
      (record { major = 1; minor = 20; patch = 3; pre = codes "rc" ∷ codes "1" ∷ [] })

IsVersion-2 : IsVersion (codes "2.0.0")
unfolding parse_semantic_version parse_version_and_pre parse_core core_number valid_identifiers
    valid_identifier has_leading_zero is_identifier_char numeric_identifier is_digit digits_value
    parse_uint cut split has_prefix
IsVersion-2 = (record { major = 2; minor = 0; patch = 0; pre = [] }, refl)

IsVersion-10 : IsVersion (codes "10.0.0+a")
unfolding parse_semantic_version parse_version_and_pre parse_core core_number valid_identifiers
    valid_identifier has_leading_zero is_identifier_char numeric_identifier is_digit digits_value
    parse_uint cut split has_prefix contains
IsVersion-10 = (record { major = 10; minor = 0; patch = 0; pre = [] }, refl)

abbrev unsorted : List Bytes
unsorted = codes "10.0.0+a" ∷ codes "2.0.0" ∷ []

sort_stable_example :
    Perm (sort_semantic_versions unsorted) unsorted
    × IsSorted (sort_semantic_versions unsorted)
    × (ties (codes "2.0.0") (sort_semantic_versions unsorted) ≡ ties (codes "2.0.0") unsorted)
sort_stable_example =
    sort_stable unsorted (codes "2.0.0") (IsVersion-10, (IsVersion-2, tt)) IsVersion-2
