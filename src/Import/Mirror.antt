-- ===== src/Import/Mirror.antt =====
-- `validImportVersion` of the client mirrors the parser of the server.
use terraform_registry.Base.{
  Bool, true, false, Option-cases, none, ◌≡◌, refl, inl, inr, arith, List, [], ◌∷◌, all, is_some,
}
use terraform_registry.Text.{Bytes, split, cut, is_digit, parse_uint}
use terraform_registry.Semver.{
  numeric_identifier, has_leading_zero, valid_identifier, valid_identifiers, core_number,
  parse_core, parse_version_and_pre, parse_semantic_version, valid_version,
}
use terraform_registry.Import.Version.{
  valid_import_identifier, valid_import_identifiers, valid_import_part, valid_import_core,
  valid_import_version_and_pre, valid_import_version,
}

all_cong {ℓ} :
    {A : Type ℓ} (p q : A → Bool) (xs : List A) → ((x : A) → p x ≡ q x) → all p xs ≡ all q xs
all_cong p q [] h = refl
all_cong p q (x ∷ xs) h = cc (h x, all_cong p q xs h)

identifier_mirror : (e : Bool) (s : Bytes) → valid_import_identifier e s ≡ valid_identifier e s
unfolding valid_import_identifier valid_identifier
identifier_mirror e [] = refl
identifier_mirror e (c ∷ s) = ground arith

identifiers_mirror : (s : Bytes) (e : Bool) → valid_import_identifiers s e ≡ valid_identifiers s e
unfolding valid_import_identifiers valid_identifiers
identifiers_mirror [] e = refl
identifiers_mirror (c ∷ s) e =
    all_cong (valid_import_identifier e) (valid_identifier e) (split b'.' (c ∷ s))
      (identifier_mirror e)

-- `ParseUint` refuses what is not all digits.
parse_uint-digits : (s : Bytes) → all is_digit s ≡ false → parse_uint s ≡ none
unfolding parse_uint
parse_uint-digits [] h = refl
parse_uint-digits (c ∷ s) h = rw h

part_mirror : (s : Bytes) → valid_import_part s ≡ is_some (core_number s)
unfolding valid_import_part core_number numeric_identifier
part_mirror [] = unfold has_leading_zero parse_uint in refl
part_mirror (c ∷ s) = ground (arith, parse_uint-digits (c ∷ s))

core_mirror : (ws pre : List Bytes) → valid_import_core ws ≡ is_some (parse_core ws pre)
unfolding valid_import_core parse_core
core_mirror (a ∷ b ∷ c ∷ []) pre = ground (arith, part_mirror a, part_mirror b, part_mirror c)
core_mirror [] pre = refl
core_mirror _ pre = refl

version_and_pre_mirror :
    (s : Bytes) → valid_import_version_and_pre s ≡ is_some (parse_version_and_pre s)
unfolding valid_import_version_and_pre parse_version_and_pre
version_and_pre_mirror s = elim (Option-cases (cut b'-' s)) [
  | inl e ↦
      rw (e, valid_import_version_and_pre, parse_version_and_pre) (core_mirror (split b'.' s) [])
  | inr ((core, pre), e) ↦
      ground (arith, identifiers_mirror pre true, core_mirror (split b'.' core) (split b'.' pre))
]

-- The client accepts the version of an artifact exactly if the server does.
pub valid_import_version_mirror : (v : Bytes) → valid_import_version v ≡ valid_version v
unfolding valid_import_version valid_version parse_semantic_version
valid_import_version_mirror [] = refl
valid_import_version_mirror (c ∷ s) = elim (Option-cases (cut b'+' (c ∷ s))) [
  | inl e ↦ ground (arith, version_and_pre_mirror (c ∷ s))
  | inr ((l, r), e) ↦ ground (arith, version_and_pre_mirror l, identifiers_mirror r false)
]
