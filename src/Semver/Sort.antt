-- ===== src/Semver/Sort.antt =====
-- `sortSemanticVersions` is a stable sort.
use mathlib.Core.List.{Perm}
use mathlib.Core.List.Perm
use terraform_registry.Base.{
  Bool-cases, ◌≡◌, ◌≢◌, refl, sym, ◌∙◌, arith, some, List, [], ◌∷◌, lt, eq, gt, All, inl, inr,
}
use terraform_registry.Text.{Bytes}
use terraform_registry.Text.Compare.{not_before_trans}
use terraform_registry.Semver.Order.{
  compare_versions-IsWeakOrder, compare_semver-parsed, compare_semver_flips,
}
use terraform_registry.Semver.{
  SemanticVersion, parse_semantic_version, compare_semver, semver_less, insert_version,
  sort_semantic_versions,
}

-- The string is a semantic version.
abbrev pub IsVersion : Bytes → Type 0
IsVersion v = (p : SemanticVersion) × (parse_semantic_version v ≡ some p)

-- No element is less than one that stands in front of it.
abbrev pub IsSorted : List Bytes → Type 0
IsSorted [] = Unit
IsSorted (v ∷ vs) = All (λ w. compare_semver w v ≢ lt) vs × IsSorted vs

-- The elements that tie with `x`, in order.
abbrev pub ties : Bytes → List Bytes → List Bytes
ties x [] = []
ties x (v ∷ vs) = elim (compare_semver x v) [ eq ↦ v ∷ ties x vs | lt ↦ ties x vs | gt ↦ ties x vs ]

semver_not_before_trans :
    (u v w : Bytes)
    → IsVersion u
    → IsVersion v
    → IsVersion w
    → compare_semver w v ≢ lt
    → compare_semver u w ≢ lt
    → compare_semver u v ≢ lt
semver_not_before_trans u v w (pu, eu) (pv, ev) (pw, ew) h k l =
    not_before_trans compare_versions-IsWeakOrder pv pw pu
      (λ e. h (compare_semver-parsed w v ew ev ∙ e)) (λ e. k (compare_semver-parsed u w eu ew ∙ e))
      (sym (compare_semver-parsed u v eu ev) ∙ l)

semver_ties_apart :
    (x v w : Bytes)
    → IsVersion x
    → IsVersion v
    → IsVersion w
    → compare_semver w v ≡ lt
    → compare_semver x v ≡ eq
    → compare_semver x w ≢ eq
semver_ties_apart x v w (px, ex) (pv, ev) (pw, ew) h k l = ground (
  arith,
  compare_semver-parsed w v ew ev,
  compare_semver-parsed x v ex ev,
  compare_semver-parsed x w ex ew,
  compare_versions-IsWeakOrder.eq_left px pw pv,
)

All-insert_version {κ} :
    (P : Bytes → Type κ) (v : Bytes) (vs : List Bytes)
    → P v
    → All P vs
    → All P (insert_version v vs)
unfolding insert_version
All-insert_version P v [] h k = (h, tt)
All-insert_version P v (w ∷ ws) h (k, l) = elim (Bool-cases (semver_less w v)) [
  | inl e ↦ rw e (k, All-insert_version P v ws h l)
  | inr e ↦ rw e (h, (k, l))
]

pub All-sort {κ} :
    (P : Bytes → Type κ) (vs : List Bytes) → All P vs → All P (sort_semantic_versions vs)
unfolding sort_semantic_versions
All-sort P [] h = tt
All-sort P (v ∷ vs) (h, k) = All-insert_version P v (sort_semantic_versions vs) h (All-sort P vs k)

perm-insert_version : (v : Bytes) (vs : List Bytes) → Perm (insert_version v vs) (v ∷ vs)
unfolding insert_version
perm-insert_version v [] = Perm.refl (v ∷ [])
perm-insert_version v (w ∷ ws) = elim (Bool-cases (semver_less w v)) [
  | inl e ↦ rw e (Perm.trans (Perm.cons w (perm-insert_version v ws)) (Perm.swap v w ws))
  | inr e ↦ rw e (Perm.refl (v ∷ w ∷ ws))
]

perm-sort : (vs : List Bytes) → Perm (sort_semantic_versions vs) vs
unfolding sort_semantic_versions
perm-sort [] = Perm.refl []
perm-sort (v ∷ vs) =
    Perm.trans (perm-insert_version v (sort_semantic_versions vs)) (Perm.cons v (perm-sort vs))

-- What is not before `w` is not before what `w` is not before.
All-not_before :
    (v w : Bytes) (us : List Bytes)
    → IsVersion v
    → IsVersion w
    → All IsVersion us
    → compare_semver w v ≢ lt
    → All (λ u. compare_semver u w ≢ lt) us
    → All (λ u. compare_semver u v ≢ lt) us
All-not_before v w [] hv hw h k a = tt
All-not_before v w (u ∷ us) hv hw (hu, h) k (b, a) =
    (semver_not_before_trans u v w hu hv hw k b, All-not_before v w us hv hw h k a)

insert_version-IsSorted :
    (v : Bytes) (vs : List Bytes)
    → IsVersion v
    → All IsVersion vs
    → IsSorted vs
    → IsSorted (insert_version v vs)
unfolding insert_version
insert_version-IsSorted v [] hv h s = (tt, tt)
insert_version-IsSorted v (w ∷ ws) hv (hw, h) (a, s) = elim (Bool-cases (semver_less w v)) [
  | inl e ↦ rw e (
    All-insert_version (λ u. compare_semver u w ≢ lt) v ws
        (ground (arith, compare_semver_flips w v)) a,
    insert_version-IsSorted v ws hv h s,
  )
  | inr e ↦
      let first : compare_semver w v ≢ lt = ground arith in
      rw e ((first, All-not_before v w ws hv hw h first a), (a, s))
]

pub sort-IsSorted : (vs : List Bytes) → All IsVersion vs → IsSorted (sort_semantic_versions vs)
unfolding sort_semantic_versions
sort-IsSorted [] h = tt
sort-IsSorted (v ∷ vs) (h, k) =
    insert_version-IsSorted v (sort_semantic_versions vs) h (All-sort IsVersion vs k)
      (sort-IsSorted vs k)

ties-insert_version :
    (x v : Bytes) (vs : List Bytes)
    → IsVersion x
    → IsVersion v
    → All IsVersion vs
    → ties x (insert_version v vs) ≡ ties x (v ∷ vs)
unfolding insert_version
ties-insert_version x v [] hx hv h = refl
ties-insert_version x v (w ∷ ws) hx hv (hw, h) =
    ground (arith, ties-insert_version x v ws hx hv h, semver_ties_apart x v w hx hv hw)

ties-sort :
    (x : Bytes) (vs : List Bytes)
    → IsVersion x
    → All IsVersion vs
    → ties x (sort_semantic_versions vs) ≡ ties x vs
unfolding sort_semantic_versions
ties-sort x [] hx h = refl
ties-sort x (v ∷ vs) hx (hv, h) =
    ties-insert_version x v (sort_semantic_versions vs) hx hv (All-sort IsVersion vs h)
    ∙ ground (arith, ties-sort x vs hx h)

-- On semantic versions `sortSemanticVersions` is a stable sort: the result holds the same strings
-- as often, none is less than one in front of it, and those that tie with a version `x` keep their
-- order.
pub sort_stable :
    (vs : List Bytes) (x : Bytes)
    → All IsVersion vs
    → IsVersion x
    → Perm (sort_semantic_versions vs) vs
      × IsSorted (sort_semantic_versions vs)
      × (ties x (sort_semantic_versions vs) ≡ ties x vs)
sort_stable vs x h hx = (perm-sort vs, sort-IsSorted vs h, ties-sort x vs hx h)
