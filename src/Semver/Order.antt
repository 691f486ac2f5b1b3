-- ===== src/Semver/Order.antt =====
-- `compareSemver` is a total order on the versions that parse.
use terraform_registry.Base.{
  ℕ, ◌≡◌, refl, arith, Option, Option-cases, inl, inr, none, some, List, [], ◌∷◌, Ordering, lt, eq,
}
use terraform_registry.Text.{Bytes}
use terraform_registry.Text.Compare.{
  flip, IsWeakOrder, pullback-IsWeakOrder, then_by-IsWeakOrder, nat-IsWeakOrder, list-IsWeakOrder,
  text-IsWeakOrder,
}
use terraform_registry.Semver.{
  SemanticVersion, numeric_identifier, parse_semantic_version, compare_parsed, compare_identifier,
  compare_identifiers, compare_pre, compare_versions, compare_semver,
}

-- An identifier with the number that it stands for.
abbrev Key : Type 0
Key = Option ℕ × Bytes

abbrev compare_key : Key → Key → Ordering
compare_key (m, a) (n, b) = compare_parsed m n a b

key_flips : (x y : Key) → compare_key y x ≡ flip (compare_key x y)
unfolding compare_parsed
key_flips (some m, a) (some n, b) = nat-IsWeakOrder.flips m n
key_flips (some m, a) (none, b) = refl
key_flips (none, a) (some n, b) = refl
key_flips (none, a) (none, b) = text-IsWeakOrder.flips a b

key_lt_trans : (x y z : Key) → compare_key x y ≡ lt → compare_key y z ≡ lt → compare_key x z ≡ lt
unfolding compare_parsed
key_lt_trans (some k, a) (some m, b) (some n, c) h g = nat-IsWeakOrder.lt_trans k m n h g
key_lt_trans (none, a) (none, b) (none, c) h g = text-IsWeakOrder.lt_trans a b c h g
key_lt_trans (some k, a) (y, b) (none, c) h g = refl
key_lt_trans (x, a) (none, b) (some k, c) h g = absurd (ground arith)
key_lt_trans (none, a) (some m, b) (z, c) h g = absurd (ground arith)

key_eq_left : (x y z : Key) → compare_key x y ≡ eq → compare_key x z ≡ compare_key y z
unfolding compare_parsed
key_eq_left (some k, a) (some m, b) (some n, c) h = nat-IsWeakOrder.eq_left k m n h
key_eq_left (some k, a) (some m, b) (none, c) h = refl
key_eq_left (none, a) (none, b) (none, c) h = text-IsWeakOrder.eq_left a b c h
key_eq_left (none, a) (none, b) (some n, c) h = refl
key_eq_left (some k, a) (none, b) z h = absurd (ground arith)
key_eq_left (none, a) (some k, b) z h = absurd (ground arith)

key-IsWeakOrder : IsWeakOrder compare_key
key-IsWeakOrder = record { flips = key_flips; lt_trans = key_lt_trans; eq_left = key_eq_left }

identifier-IsWeakOrder : IsWeakOrder compare_identifier
unfolding compare_identifier
identifier-IsWeakOrder = pullback-IsWeakOrder (λ a. (numeric_identifier a, a)) key-IsWeakOrder

identifiers-IsWeakOrder : IsWeakOrder compare_identifiers
unfolding compare_identifiers
identifiers-IsWeakOrder = list-IsWeakOrder identifier-IsWeakOrder

pre_flips : (x y : List Bytes) → compare_pre y x ≡ flip (compare_pre x y)
unfolding compare_pre
pre_flips [] [] = refl
pre_flips [] (y ∷ ys) = refl
pre_flips (x ∷ xs) [] = refl
pre_flips (x ∷ xs) (y ∷ ys) = identifiers-IsWeakOrder.flips (x ∷ xs) (y ∷ ys)

pre_lt_trans :
    (x y z : List Bytes) → compare_pre x y ≡ lt → compare_pre y z ≡ lt → compare_pre x z ≡ lt
unfolding compare_pre
pre_lt_trans (x ∷ xs) (y ∷ ys) (z ∷ zs) h k =
    identifiers-IsWeakOrder.lt_trans (x ∷ xs) (y ∷ ys) (z ∷ zs) h k
pre_lt_trans (x ∷ xs) y [] h k = refl
pre_lt_trans (x ∷ xs) [] (z ∷ zs) h k = absurd (ground arith)
pre_lt_trans [] [] z h k = absurd (ground arith)
pre_lt_trans [] (y ∷ ys) z h k = absurd (ground arith)

pre_eq_left : (x y z : List Bytes) → compare_pre x y ≡ eq → compare_pre x z ≡ compare_pre y z
unfolding compare_pre
pre_eq_left [] [] z h = refl
pre_eq_left [] (y ∷ ys) z h = absurd (ground arith)
pre_eq_left (x ∷ xs) [] z h = absurd (ground arith)
pre_eq_left (x ∷ xs) (y ∷ ys) [] h = refl
pre_eq_left (x ∷ xs) (y ∷ ys) (z ∷ zs) h =
    identifiers-IsWeakOrder.eq_left (x ∷ xs) (y ∷ ys) (z ∷ zs) h

pre-IsWeakOrder : IsWeakOrder compare_pre
pre-IsWeakOrder = record { flips = pre_flips; lt_trans = pre_lt_trans; eq_left = pre_eq_left }

-- Comparing parsed versions is a total order up to ties: it is antisymmetric and transitive, and
-- versions that tie compare alike with every third version.
pub compare_versions-IsWeakOrder : IsWeakOrder compare_versions
unfolding compare_versions
compare_versions-IsWeakOrder =
    then_by-IsWeakOrder (pullback-IsWeakOrder (λ (v : SemanticVersion). v.major) nat-IsWeakOrder) (
      then_by-IsWeakOrder (pullback-IsWeakOrder (λ (v : SemanticVersion). v.minor) nat-IsWeakOrder)
        (then_by-IsWeakOrder
          (pullback-IsWeakOrder (λ (v : SemanticVersion). v.patch) nat-IsWeakOrder)
          (pullback-IsWeakOrder (λ (v : SemanticVersion). v.pre) pre-IsWeakOrder)))

-- Swapping the arguments of `compareSemver` turns its answer round, for every two strings.
pub compare_semver_flips : (a b : Bytes) → compare_semver b a ≡ flip (compare_semver a b)
unfolding compare_semver
compare_semver_flips a b = elim (Option-cases (parse_semantic_version a)) [
  | inl e ↦ ground (arith, text-IsWeakOrder.flips a b)
  | inr (va, e) ↦ elim (Option-cases (parse_semantic_version b)) [
    | inl f ↦ ground (arith, text-IsWeakOrder.flips a b)
    | inr (vb, f) ↦ ground (arith, compare_versions-IsWeakOrder.flips va vb)
  ]
]

-- On strings that parse, `compareSemver` compares the parsed versions.
pub compare_semver-parsed :
    (a b : Bytes) {va vb : SemanticVersion}
    → parse_semantic_version a ≡ some va
    → parse_semantic_version b ≡ some vb
    → compare_semver a b ≡ compare_versions va vb
unfolding compare_semver
compare_semver-parsed a b e f = rw (e, compare_semver) (rw f)
