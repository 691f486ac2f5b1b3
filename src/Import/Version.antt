-- ===== src/Import/Version.antt =====
-- cmd/tfreg/import.go: names and versions as the client checks them.
use terraform_registry.Base.{
  Bool, true, false, not, ◌&&◌, ◌||◌, none, some, List, [], ◌∷◌, if◌then◌else◌, all,
}
use terraform_registry.Text.{Bytes, codes, has_prefix, contains, cut, split, is_digit, parse_uint}
use terraform_registry.Regex.{match_string}
use terraform_registry.Validation.{artifact_name_re}
use terraform_registry.Semver.{is_identifier_char, has_leading_zero}

-- `validImportName`; `importArtifactNameRE` is spelled like the server's `artifactNameRE`.
unfoldable pub valid_import_name : Bytes → Bool
valid_import_name value = match_string artifact_name_re value

-- one round of the loop of `validImportIdentifiers`
unfoldable pub valid_import_identifier : Bool → Bytes → Bool
valid_import_identifier enforce [] = false
valid_import_identifier enforce (c ∷ s) =
    if all is_identifier_char (c ∷ s)
    then if enforce && all is_digit (c ∷ s) && has_leading_zero (c ∷ s) then false else true
    else false

-- `validImportIdentifiers`
unfoldable pub valid_import_identifiers : Bytes → Bool → Bool
valid_import_identifiers [] enforce = false
valid_import_identifiers (c ∷ s) enforce =
    all (valid_import_identifier enforce) (split b'.' (c ∷ s))

-- one round of the loop over the core: `part == ""`, a leading zero, and then `ParseUint`
unfoldable pub valid_import_part : Bytes → Bool
valid_import_part [] = false
valid_import_part (c ∷ s) =
    if has_leading_zero (c ∷ s)
    then false
    else elim (parse_uint (c ∷ s)) [ some _ ↦ true | none ↦ false ]

-- the loop over the parts of the core, of which there have to be three
unfoldable pub valid_import_core : List Bytes → Bool
valid_import_core (a ∷ b ∷ c ∷ []) =
    valid_import_part a && (valid_import_part b && valid_import_part c)
valid_import_core _ = false

-- the part of `validImportVersion` that reads `versionAndPre`
unfoldable pub valid_import_version_and_pre : Bytes → Bool
valid_import_version_and_pre value = elim (cut b'-' value) [
  | none ↦ valid_import_core (split b'.' value)
  | some (core, prerelease) ↦
      if valid_import_identifiers prerelease true
      then valid_import_core (split b'.' core)
      else false
]

-- `validImportVersion`
unfoldable pub valid_import_version : Bytes → Bool
valid_import_version [] = false
valid_import_version (c ∷ s) =
    if has_prefix (c ∷ s) (codes "v") then false else elim (cut b'+' (c ∷ s)) [
      | none ↦ valid_import_version_and_pre (c ∷ s)
      | some (version_and_pre, build) ↦
          if contains build (codes "+") || not (valid_import_identifiers build false)
          then false
          else valid_import_version_and_pre version_and_pre
    ]
