-- ===== src/Semver/Grammar.antt =====
-- The grammar of semantic versions, stated with no parser in it.
use terraform_registry.Base.{
  ℕ, ◌^◌, ◌≤◌, ◌<◌, true, false, ◌≡◌, ◌≢◌, ◌⊎◌, ◌↔◌, inl, inr, refl, arith, some, List, [], ◌∷◌,
  ◌++◌, all, All, Bool-cases,
}
use terraform_registry.Text.{Bytes, join, digits_value, is_digit, parse_uint}
use terraform_registry.Semver.{
  SemanticVersion, numeric_identifier, is_identifier_char, has_leading_zero, valid_identifier,
  core_number,
}

abbrev pub IsDigit : ℕ → Type 0
IsDigit c = (b'0' ≤ c) × (c ≤ b'9')

abbrev pub IsIdentifierChar : ℕ → Type 0
IsIdentifierChar c =
    IsDigit c ⊎ (((b'A' ≤ c) × (c ≤ b'Z')) ⊎ (((b'a' ≤ c) × (c ≤ b'z')) ⊎ (c ≡ b'-')))

-- A number of more than one digit does not begin with a zero.
abbrev pub NoLeadingZero : Bytes → Type 0
NoLeadingZero [] = Unit
NoLeadingZero (c ∷ []) = Unit
NoLeadingZero (c ∷ d ∷ s) = c ≢ b'0'

-- `s` is the decimal form of the 64-bit number `n`.
pub record IsNumeral (s : Bytes) (n : ℕ) : Type 0 where
  pub ne_nil : s ≢ []
  pub digits : All IsDigit s
  pub canonical : NoLeadingZero s
  pub value : n ≡ digits_value 0 s
  pub fits : n < 2 ^ 64

pub record IsIdentifier (s : Bytes) : Type 0 where
  pub ne_nil : s ≢ []
  pub chars : All IsIdentifierChar s

-- A pre-release identifier that consists of digits has no leading zero.
pub record IsPreIdentifier (s : Bytes) : Type 0 where
  pub ne_nil : s ≢ []
  pub chars : All IsIdentifierChar s
  pub canonical : All IsDigit s → NoLeadingZero s

-- The parts of a version as they are written; no identifiers means that the part is absent.
pub record VersionText : Type 0 where
  pub major : Bytes
  pub minor : Bytes
  pub patch : Bytes
  pub pre : List Bytes
  pub build : List Bytes

abbrev pub tagged : ℕ → List Bytes → Bytes
tagged mark [] = []
tagged mark (w ∷ ws) = mark ∷ join b'.' (w ∷ ws)

abbrev pub core_text : VersionText → Bytes
core_text t = join b'.' (t.major ∷ t.minor ∷ t.patch ∷ [])

abbrev pub render : VersionText → Bytes
render t = (core_text t ++ tagged b'-' t.pre) ++ tagged b'+' t.build

-- `t` is well formed, and stands for the version `v`.
pub record Denotes (t : VersionText) (v : SemanticVersion) : Type 0 where
  pub major : IsNumeral t.major v.major
  pub minor : IsNumeral t.minor v.minor
  pub patch : IsNumeral t.patch v.patch
  pub pre : All IsPreIdentifier t.pre
  pub pre_eq : v.pre ≡ t.pre
  pub build : All IsIdentifier t.build

pub is_digit_iff : (c : ℕ) → (is_digit c ≡ true) ↔ IsDigit c
unfolding is_digit
is_digit_iff c = ground arith

pub is_identifier_char_iff : (c : ℕ) → (is_identifier_char c ≡ true) ↔ IsIdentifierChar c
unfolding is_identifier_char
is_identifier_char_iff c = ground arith

pub all-is_digit_iff : (s : Bytes) → (all is_digit s ≡ true) ↔ All IsDigit s
all-is_digit_iff [] = ground arith
all-is_digit_iff (c ∷ s) = ground (arith, is_digit_iff c, all-is_digit_iff s)

pub all-is_identifier_char_iff :
    (s : Bytes) → (all is_identifier_char s ≡ true) ↔ All IsIdentifierChar s
all-is_identifier_char_iff [] = ground arith
all-is_identifier_char_iff (c ∷ s) =
    ground (arith, is_identifier_char_iff c, all-is_identifier_char_iff s)

pub has_leading_zero_iff : (s : Bytes) → (has_leading_zero s ≡ false) ↔ NoLeadingZero s
unfolding has_leading_zero
has_leading_zero_iff [] = ground arith
has_leading_zero_iff (c ∷ []) = ground arith
has_leading_zero_iff (c ∷ d ∷ s) = ground arith

-- `core_number` accepts the numerals, and returns their values.
pub core_number_iff : (s : Bytes) (n : ℕ) → (core_number s ≡ some n) ↔ IsNumeral s n
unfolding core_number numeric_identifier parse_uint
core_number_iff [] n = (λ h. absurd (ground arith), λ h. absurd (h.ne_nil refl))
core_number_iff (c ∷ s) n = (
  λ h. record {
    ne_nil = ground arith;
    digits = ground (arith, all-is_digit_iff (c ∷ s));
    canonical = ground (arith, has_leading_zero_iff (c ∷ s));
    value = ground arith;
    fits = ground arith;
  },
  λ h.
      let number : n ≡ digits_value 0 (c ∷ s) = h.value in
      let small : n < 2 ^ 64 = h.fits in
      let plain : has_leading_zero (c ∷ s) ≡ false = (has_leading_zero_iff (c ∷ s)).1 h.canonical in
      let digits : all is_digit (c ∷ s) ≡ true = (all-is_digit_iff (c ∷ s)).1 h.digits in
      ground arith,
)

pub valid_identifier-build_iff : (s : Bytes) → (valid_identifier false s ≡ true) ↔ IsIdentifier s
unfolding valid_identifier
valid_identifier-build_iff [] = (λ h. absurd (ground arith), λ h. absurd (h.ne_nil refl))
valid_identifier-build_iff (c ∷ s) = (
  λ h. record {
    ne_nil = ground arith;
    chars = (all-is_identifier_char_iff (c ∷ s)).0 (ground arith);
  },
  λ h. ground (arith, (all-is_identifier_char_iff (c ∷ s)).1 h.chars),
)

pub valid_identifier-pre_iff : (s : Bytes) → (valid_identifier true s ≡ true) ↔ IsPreIdentifier s
unfolding valid_identifier
valid_identifier-pre_iff [] = (λ h. absurd (ground arith), λ h. absurd (h.ne_nil refl))
valid_identifier-pre_iff (c ∷ s) = (
  λ h. record {
    ne_nil = ground arith;
    chars = (all-is_identifier_char_iff (c ∷ s)).0 (ground arith);
    canonical =
        λ d. (has_leading_zero_iff (c ∷ s)).0 (ground (arith, (all-is_digit_iff (c ∷ s)).1 d));
  },
  λ h. elim (Bool-cases (all is_digit (c ∷ s))) [
    | inl d ↦
        let z : has_leading_zero (c ∷ s) ≡ false =
          (has_leading_zero_iff (c ∷ s)).1 (h.canonical ((all-is_digit_iff (c ∷ s)).0 d)) in
        ground (arith, (all-is_identifier_char_iff (c ∷ s)).1 h.chars)
    | inr d ↦ ground (arith, (all-is_identifier_char_iff (c ∷ s)).1 h.chars)
  ],
)
