-- ===== src/Storage/Resolve.antt =====
-- registry-server/storage.go: `resolve` confines the keys to the storage root. What the operating
-- system answers about symbolic links is a parameter: whether the nearest existing ancestor of a path
-- resolves to a place outside the root, or cannot be resolved.
use terraform_registry.Base.{
  Bool, false, Bool-cases, ◌||◌, Option, none, some, ◌≡◌, inl, inr, sym, subst, arith, [], ◌∷◌,
  if◌then◌else◌, is_nil,
}
use terraform_registry.Text.{Bytes, codes, text_eq, has_prefix, contains, split}
use terraform_registry.Text.Laws.{text_eq_iff}
use terraform_registry.Paths.{dot, dot_dot, path_clean, is_skipped}
use terraform_registry.Paths.Inside.{StaysInside, path_clean-StaysInside}

module _ (link_escapes : Bytes → Bool) where
  -- `resolve`: the path below the root. `filepath.Rel` of the root and the joined path is the clean
  -- key, which is tested twice.
  unfoldable pub resolve : Bytes → Option Bytes
  resolve key =
      let clean = path_clean key in
      if is_nil key || text_eq key dot
      then some dot
      else if has_prefix key (codes "/") || contains key (codes "\\")
      then none
      else if text_eq clean dot_dot || has_prefix clean (codes "../")
      then none
      else if link_escapes clean
      then none
      else some clean

  nil-StaysInside : StaysInside 0 (split b'/' [])
  unfolding split is_skipped
  nil-StaysInside = tt

  dot-StaysInside : StaysInside 0 (split b'/' dot)
  unfolding split is_skipped text_eq
  dot-StaysInside = tt

  -- No prefix of a key that `resolve` accepts leads above the storage root.
  pub resolve-StaysInside :
      (key path : Bytes) → resolve key ≡ some path → StaysInside 0 (split b'/' key)
  unfolding resolve
  resolve-StaysInside [] path h = nil-StaysInside
  resolve-StaysInside (c ∷ key) path h = elim (Bool-cases (text_eq (c ∷ key) dot)) [
    | inl e ↦
        subst (λ s. StaysInside 0 (split b'/' s)) (sym ((text_eq_iff (c ∷ key) dot).0 e))
          dot-StaysInside
    | inr e ↦
        let rooted : has_prefix (c ∷ key) (codes "/") ≡ false = ground arith in
        let up : text_eq (path_clean (c ∷ key)) dot_dot ≡ false = ground arith in
        let up_more : has_prefix (path_clean (c ∷ key)) (codes "../") ≡ false = ground arith in
        path_clean-StaysInside (c ∷ key) rooted up up_more
  ]
