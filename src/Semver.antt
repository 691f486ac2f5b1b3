-- ===== src/Semver.antt =====
-- registry-server/semver.go: parsing, comparing and sorting semantic versions.
-- A string is the list of its bytes. The loops over runes read bytes here: a byte of 128 or more
-- is part of no accepted rune, so both loops refuse the same strings.
pub mod Order
pub mod Grammar
pub mod Parse
pub mod Accept
pub mod Sort
pub mod Tests
use terraform_registry.Base.{
  ℕ, ◌^◌, Bool, true, false, not, ◌&&◌, ◌||◌, Option, none, some, List, [], ◌∷◌, ◌≡◌, Ordering, lt,
  eq, gt, compare, ltb, leb, ◌==◌, if◌then◌else◌, length, all,
}
use terraform_registry.Text.{
  Bytes, codes, has_prefix, contains, cut, split, compare_text, compare_list, then_by, is_digit,
  parse_uint,
}

-- `semanticVersion`, its array `core` field by field
pub record SemanticVersion : Type 0 where
  pub major : ℕ
  pub minor : ℕ
  pub patch : ℕ
  pub pre : List Bytes

-- `numericIdentifier`
unfoldable pub numeric_identifier : Bytes → Option ℕ
numeric_identifier value = if all is_digit value then parse_uint value else none

-- the characters that an identifier may hold
unfoldable pub is_identifier_char : ℕ → Bool
unfolding is_digit
is_identifier_char c =
    is_digit c || leb b'A' c && leb c b'Z' || leb b'a' c && leb c b'z' || c == b'-'

-- `len(part) > 1 && part[0] == '0'`
unfoldable pub has_leading_zero : Bytes → Bool
has_leading_zero [] = false
has_leading_zero (c ∷ []) = false
has_leading_zero (c ∷ d ∷ s) = c == b'0'

-- one round of the loop of `validIdentifiers`
unfoldable pub valid_identifier : Bool → Bytes → Bool
valid_identifier enforce [] = false
valid_identifier enforce (c ∷ s) =
    all is_identifier_char (c ∷ s)
    && not (enforce && all is_digit (c ∷ s) && has_leading_zero (c ∷ s))

-- `validIdentifiers`
unfoldable pub valid_identifiers : Bytes → Bool → Bool
valid_identifiers [] enforce = false
valid_identifiers (c ∷ s) enforce = all (valid_identifier enforce) (split b'.' (c ∷ s))

-- one part of `major.minor.patch`
unfoldable pub core_number : Bytes → Option ℕ
core_number part = if has_leading_zero part then none else numeric_identifier part

-- The numbers of the core, which has to have three parts, with what stands after it.
unfoldable pub parse_core : List Bytes → List Bytes → Option SemanticVersion
parse_core (a ∷ b ∷ c ∷ []) pre = elim (core_number a) [
  | none ↦ none
  | some x ↦ elim (core_number b) [
    | none ↦ none
    | some y ↦ elim (core_number c) [
      | none ↦ none
      | some z ↦ some (record { major = x; minor = y; patch = z; pre = pre })
    ]
  ]
]
parse_core _ pre = none

-- the part of `parseSemanticVersion` that reads `versionAndPre`
unfoldable pub parse_version_and_pre : Bytes → Option SemanticVersion
parse_version_and_pre value = elim (cut b'-' value) [
  | none ↦ parse_core (split b'.' value) []
  | some (core, prerelease) ↦
      if valid_identifiers prerelease true
      then parse_core (split b'.' core) (split b'.' prerelease)
      else none
]

-- `parseSemanticVersion`
unfoldable pub parse_semantic_version : Bytes → Option SemanticVersion
parse_semantic_version [] = none
parse_semantic_version (c ∷ s) =
    if has_prefix (c ∷ s) (codes "v") then none else elim (cut b'+' (c ∷ s)) [
      | none ↦ parse_version_and_pre (c ∷ s)
      | some (version_and_pre, build) ↦
          if contains build (codes "+") || not (valid_identifiers build false)
          then none
          else parse_version_and_pre version_and_pre
    ]

-- `validVersion` of validation.go
unfoldable pub valid_version : Bytes → Bool
valid_version v = elim (parse_semantic_version v) [ none ↦ false | some _ ↦ true ]

-- the `switch` over two pre-release identifiers, with their numbers where they are numeric
unfoldable pub compare_parsed : Option ℕ → Option ℕ → Bytes → Bytes → Ordering
compare_parsed (some m) (some n) a b = compare m n
compare_parsed (some m) none a b = lt
compare_parsed none (some n) a b = gt
compare_parsed none none a b = compare_text a b

unfoldable pub compare_identifier : Bytes → Bytes → Ordering
unfolding compare_parsed
compare_identifier a b = compare_parsed (numeric_identifier a) (numeric_identifier b) a b

-- the loop over the pre-release identifiers, and the comparison of their numbers behind it
unfoldable pub compare_identifiers : List Bytes → List Bytes → Ordering
unfolding compare_list
compare_identifiers as' bs = compare_list compare_identifier as' bs

-- A version with no pre-release comes after those that have one.
unfoldable pub compare_pre : List Bytes → List Bytes → Ordering
compare_pre [] [] = eq
compare_pre [] (b ∷ bs) = gt
compare_pre (a ∷ as') [] = lt
compare_pre (a ∷ as') (b ∷ bs) = compare_identifiers (a ∷ as') (b ∷ bs)

-- what `compareSemver` does with two versions that parse
unfoldable pub compare_versions : SemanticVersion → SemanticVersion → Ordering
compare_versions a b = then_by (compare a.major b.major) (
    then_by (compare a.minor b.minor) (then_by (compare a.patch b.patch) (compare_pre a.pre b.pre)))

-- `compareSemver`; `lt`, `eq` and `gt` stand for -1, 0 and 1.
unfoldable pub compare_semver : Bytes → Bytes → Ordering
compare_semver a b = elim (parse_semantic_version a) [
  | none ↦ compare_text a b
  | some va ↦ elim (parse_semantic_version b) [
    | none ↦ compare_text a b
    | some vb ↦ compare_versions va vb
  ]
]

-- `compareSemver(a, b) < 0`
abbrev pub semver_less : Bytes → Bytes → Bool
semver_less a b = elim (compare_semver a b) [ lt ↦ true | eq ↦ false | gt ↦ false ]

-- One step of a stable sort: `v` goes in front of the first element that is not less than it.
unfoldable pub insert_version : Bytes → List Bytes → List Bytes
insert_version v [] = v ∷ []
insert_version v (w ∷ ws) =
    let rest = insert_version v ws in if semver_less w v then w ∷ rest else v ∷ w ∷ ws

-- `sortSemanticVersions`: `sort.SliceStable` by `compareSemver(a, b) < 0`
unfoldable pub sort_semantic_versions : List Bytes → List Bytes
unfolding insert_version
sort_semantic_versions [] = []
sort_semantic_versions (v ∷ vs) = insert_version v (sort_semantic_versions vs)
