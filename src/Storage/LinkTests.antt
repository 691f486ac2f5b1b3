-- ===== src/Storage/LinkTests.antt =====
-- The loop over the ancestors of a path, with directories of a small tree.
use terraform_registry.Base.{
  ℕ, zero, suc, ◌+◌, ◌-◌, ◌≤◌, ◌<◌, ◌≡◌, ◌≢◌, ◌⊎◌, inl, inr, ◌↔◌, refl, ap, arith, Bool-cases,
  Option, none, some, subst, drop, [], ◌∷◌, ◌++◌, if◌then◌else◌, length, length-append, take,
}
use terraform_registry.Text.{Bytes, codes, text_eq, has_prefix}
use terraform_registry.Text.Laws.{Lacks, text_eq_iff, prefix-append}
use terraform_registry.Paths.{dot_dot}
use terraform_registry.Disk.{cut_base}
use terraform_registry.Disk.Laws.{cut_base-append}
use terraform_registry.Storage.Links.{
  Evaluated, resolved, missing, confined, escapes, out_of_fuel, IsBelow, IsLexical,
  reject_symlink_escape, Confined, Shortens, reject_symlink_escape_terminates,
}

abbrev without_slash : Bytes → Bytes
without_slash d = if text_eq d (codes "/") then d else take (length d - 1) d

-- the directory of a path without a slash at its end
abbrev dir_of : Bytes × Bytes → Bytes → Bytes
dir_of (d, []) p = p
dir_of (d, c ∷ b) p = without_slash d

abbrev dir : Bytes → Bytes
dir p = dir_of (cut_base p) p

abbrev root : Bytes
root = codes "/data"

-- The root is there, and in it a link to a directory outside.
abbrev tree : Bytes → Evaluated
tree p =
    if text_eq p root
    then resolved root
    else if text_eq p (codes "/data/link")
    then resolved (codes "/etc")
    else missing

abbrev relative : Bytes → Option Bytes
relative p =
    if text_eq p root
    then some (codes ".")
    else if has_prefix p (codes "/data/")
    then some (drop 6 p)
    else some (codes "../" ++ p)

dotted : (l r : Bytes) → ¬ Lacks b'.' (l ++ (b'/' ∷ b'.' ∷ r))
dotted [] r h = ground arith
dotted (c ∷ l) r h = dotted l r h.1

tree-Lacks : (p path : Bytes) → tree p ≡ resolved path → Lacks b'.' path
tree-Lacks p path e = elim (Bool-cases (text_eq p root)) [
  | inl f ↦ subst (Lacks b'.') {x = root} (ground (arith, e, f)) ground_root
  | inr f ↦ elim (Bool-cases (text_eq p (codes "/data/link"))) [
    | inl g ↦ subst (Lacks b'.') {x = codes "/etc"} (ground (arith, e, f, g)) ground_etc
    | inr g ↦ absurd (ground (arith, e, f, g))
  ]
]
  where
    ground_root : Lacks b'.' root
    ground_root = ground arith

    ground_etc : Lacks b'.' (codes "/etc")
    ground_etc = ground arith

relative_outside :
    (path : Bytes)
    → ¬ IsBelow root path
    → (relative path ≡ none)
      ⊎ (relative path ≡ some dot_dot)
      ⊎ ((x : Bytes) × (relative path ≡ some (codes "../" ++ x)))
relative_outside path n = elim (Bool-cases (text_eq path root)) [
  | inl e ↦ absurd (n (inl ((text_eq_iff path root).0 e)))
  | inr e ↦ elim (Bool-cases (has_prefix path (codes "/data/"))) [
    | inl f ↦ absurd (n (inr (prefix-append path (codes "/data/") f)))
    | inr f ↦ inr (inr (path, rw (e, f) refl))
  ]
]

lexical : IsLexical tree relative dir root
unfolding text_eq has_prefix
lexical = record {
  clean = λ p path e l r. (
    λ k. dotted l (b'.' ∷ []) (subst (Lacks b'.') k (tree-Lacks p path e)),
    λ k. dotted l (b'.' ∷ b'/' ∷ r) (subst (Lacks b'.') k (tree-Lacks p path e)),
  );
  same = refl;
  below = λ p x e. refl;
  outside = λ p path e n. relative_outside path n;
}

abbrev Any : Bytes → Type 0
Any p = Unit {0}

take-short : (n : ℕ) (s : Bytes) → length (take n s) ≤ length s
take-short zero s = omega arith
take-short (suc n) [] = omega arith
take-short (suc n) (c ∷ s) = omega (arith, take-short n s)

without_slash-short : (d : Bytes) → length (without_slash d) ≤ length d
without_slash-short d = elim (Bool-cases (text_eq d (codes "/"))) [
  | inl e ↦ rw (e) (omega arith)
  | inr e ↦ rw (e) (take-short (length d - 1) d)
]

shortens : Shortens tree relative dir Any
shortens p a = go (cut_base p) (cut_base-append p)
  where
    go :
        (o : Bytes × Bytes)
        → o.0 ++ o.1 ≡ p
        → (dir_of o p ≡ p) ⊎ (Unit {0} × (length (dir_of o p) < length p))
    go (d, []) e = inl refl
    go (d, c ∷ b) e =
        inr (tt, omega (arith, without_slash-short d, length-append d (c ∷ b), ap length e))

below_root : reject_symlink_escape tree relative dir 20 (codes "/data/a/b") ≡ confined
unfolding reject_symlink_escape text_eq cut_base terraform_registry.Storage.Links.is_inside
    terraform_registry.Text.has_prefix
below_root = refl

through_link : reject_symlink_escape tree relative dir 20 (codes "/data/link/b") ≡ escapes
unfolding reject_symlink_escape text_eq cut_base terraform_registry.Storage.Links.is_inside
    terraform_registry.Text.has_prefix
through_link = refl

reject_symlink_escape_terminates_example :
    (reject_symlink_escape tree relative dir (length (codes "/data/a/b") + 1) (codes "/data/a/b")
      ≢ out_of_fuel)
    × ((reject_symlink_escape tree relative dir (length (codes "/data/a/b") + 1) (codes "/data/a/b")
          ≡ confined)
        ↔ Confined tree relative dir root (codes "/data/a/b"))
reject_symlink_escape_terminates_example =
    reject_symlink_escape_terminates tree relative dir root lexical Any shortens (codes "/data/a/b")
      tt
