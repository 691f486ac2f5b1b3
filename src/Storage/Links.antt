-- ===== src/Storage/Links.antt =====
-- registry-server/storage.go: `rejectSymlinkEscape`, which looks for the nearest existing ancestor of a
-- path. `filepath.EvalSymlinks`, `filepath.Rel` of the root and `filepath.Dir` are parameters. The loop
-- runs on fuel.
use terraform_registry.Base.{
  ℕ, zero, suc, ◌+◌, ◌<◌, ◌≡◌, ◌≢◌, ◌⊎◌, inl, inr, ◌↔◌, refl, sym, ap, ◌∙◌, subst, arith, [], ◌∷◌,
  append_assoc, Bool, true, false, Bool-cases, not, ◌||◌, Option, none, some, ◌++◌, if◌then◌else◌,
  length,
}
use terraform_registry.Text.{Bytes, codes, text_eq, has_prefix}
use terraform_registry.Text.Laws.{text_eq_iff, has_prefix-append, prefix-append}
use terraform_registry.Paths.{dot_dot}

-- how `filepath.EvalSymlinks` ends
pub data Evaluated : Type 0 where
  resolved : Bytes → Evaluated
  missing failed : Evaluated

pub data Outcome : Type 0 where
  confined escapes unresolved out_of_fuel : Outcome

-- the test of the relative path
unfoldable pub is_inside : Option Bytes → Bool
is_inside none = false
is_inside (some rel) = not (text_eq rel dot_dot || has_prefix rel (codes "../"))

-- The root itself, or a path below it.
abbrev pub IsBelow : Bytes → Bytes → Type 0
IsBelow root path = (path ≡ root) ⊎ ((x : Bytes) × (path ≡ root ++ (b'/' ∷ x)))

IsBelow-cases : (root path : Bytes) → IsBelow root path ⊎ ¬ IsBelow root path
IsBelow-cases root path = elim (Bool-cases (text_eq path root)) [
  | inl e ↦ inl (inl ((text_eq_iff path root).0 e))
  | inr e ↦ elim (Bool-cases (has_prefix path (root ++ b'/' ∷ []))) [
    | inl f ↦
        let (x, k) = prefix-append path (root ++ b'/' ∷ []) f in
        inl (inr (x, k ∙ append_assoc root (b'/' ∷ []) x))
    | inr f ↦ inr λ h. elim h [
      | inl k ↦ ground (arith, e, (text_eq_iff path root).1 k)
      | inr (x, k) ↦ ground (
        arith,
        f,
        ap (λ p. has_prefix p (root ++ b'/' ∷ [])) (k ∙ sym (append_assoc root (b'/' ∷ []) x)),
        has_prefix-append (root ++ b'/' ∷ []) x,
      )
    ]
  ]
]

module _ (eval : Bytes → Evaluated) (rel : Bytes → Option Bytes) (dir : Bytes → Bytes) where
  -- the loop of `rejectSymlinkEscape`
  unfoldable pub reject_symlink_escape : ℕ → Bytes → Outcome
  reject_symlink_escape zero candidate = out_of_fuel
  reject_symlink_escape (suc fuel) candidate =
      let rest = reject_symlink_escape fuel (dir candidate) in
      elim (eval candidate) [
        | resolved path ↦ if is_inside (rel path) then confined else escapes
        | failed ↦ unresolved
        | missing ↦ if text_eq (dir candidate) candidate then unresolved else rest
      ]

  -- whether a path below the root leaves it, with fuel for every ancestor
  unfoldable pub link_escapes_below : Bytes → Bytes → Bool
  link_escapes_below root p =
      let path : Bytes = root ++ codes "/" ++ p in
      elim (reject_symlink_escape (length path + 1) path) [
        | confined ↦ false
        | escapes ↦ true
        | unresolved ↦ true
        | out_of_fuel ↦ true
      ]

  -- The nearest ancestor of a path that exists resolves to the root or to a path below it.
  pub data Confined (root : Bytes) : Bytes → Type 0 where
    here : (p path : Bytes) → eval p ≡ resolved path → IsBelow root path → Confined root p
    above : (p : Bytes) → eval p ≡ missing → dir p ≢ p → Confined root (dir p) → Confined root p

  -- What `filepath.EvalSymlinks` and `filepath.Rel` do, for a root other than `/`: a resolved path has
  -- no `..` in it; the relative path of the root is `.`, that of a path below is what comes behind the
  -- root, and that of another path begins by leaving the root, where there is one.
  pub record IsLexical (root : Bytes) : Type 0 where
    pub clean :
        (p path : Bytes)
        → eval p ≡ resolved path
        → (l r : Bytes) → (path ≢ l ++ codes "/..") × (path ≢ l ++ (codes "/../" ++ r))
    pub same : rel root ≡ some (codes ".")
    pub below :
        (p x : Bytes) → eval p ≡ resolved (root ++ (b'/' ∷ x)) → rel (root ++ (b'/' ∷ x)) ≡ some x
    pub outside :
        (p path : Bytes)
        → eval p ≡ resolved path
        → ¬ IsBelow root path
        → (rel path ≡ none)
          ⊎ (rel path ≡ some dot_dot)
          ⊎ ((x : Bytes) × (rel path ≡ some (codes "../" ++ x)))

  -- `filepath.Dir` of an absolute path is absolute, and it is shorter but at the top.
  abbrev pub Shortens : (Bytes → Type 0) → Type 0
  Shortens Absolute =
      (p : Bytes) → Absolute p → (dir p ≡ p) ⊎ (Absolute (dir p) × (length (dir p) < length p))

  module _ (root : Bytes) (lexical : IsLexical root) where
    is_inside-below :
        (p x : Bytes) → eval p ≡ resolved (root ++ (b'/' ∷ x)) → is_inside (some x) ≡ true
    unfolding is_inside
    is_inside-below p x e = elim (Bool-cases (text_eq x dot_dot)) [
      | inl f ↦ absurd (
          (lexical.clean p _ e root []).0
            (ap (λ x. root ++ (b'/' ∷ x)) ((text_eq_iff x dot_dot).0 f)))
      | inr f ↦ elim (Bool-cases (has_prefix x (codes "../"))) [
        | inl g ↦
            let (r, k) = prefix-append x (codes "../") g in
            absurd ((lexical.clean p _ e root r).1 (ap (λ x. root ++ (b'/' ∷ x)) k))
        | inr g ↦ ground arith
      ]
    ]

    is_inside_iff :
        (p path : Bytes)
        → eval p ≡ resolved path
        → (is_inside (rel path) ≡ true) ↔ IsBelow root path
    unfolding is_inside has_prefix text_eq
    is_inside_iff p path e = (
      λ h. elim (IsBelow-cases root path) [
        | inl b ↦ b
        | inr b ↦ absurd (leaves (lexical.outside p path e b) h)
      ],
      λ b. elim b [
        | inl k ↦ ap (λ p. is_inside (rel p)) k ∙ ap is_inside lexical.same
        | inr (x, k) ↦
            let e' = e ∙ ap resolved k in
            ap (λ p. is_inside (rel p)) k
            ∙ ap is_inside (lexical.below p x e')
            ∙ is_inside-below p x e'
      ],
    )
      where
        leaves :
            (rel path ≡ none)
              ⊎ (rel path ≡ some dot_dot)
              ⊎ ((x : Bytes) × (rel path ≡ some (codes "../" ++ x)))
            → is_inside (rel path) ≡ true
            → ⊥
        leaves (inl k) h = ground (arith, h, ap is_inside k)
        leaves (inr (inl k)) h = ground (arith, h, ap is_inside k)
        leaves (inr (inr (x, k))) h = ground (arith, h, ap is_inside k)

  module _ (root : Bytes) (lexical : IsLexical root) (Absolute : Bytes → Type 0)
      (shortens : Shortens Absolute) where
    -- What the loop comes to with the fuel `n`.
    abbrev Ends : ℕ → Bytes → Type 0
    Ends n p =
        (reject_symlink_escape n p ≢ out_of_fuel)
        × ((reject_symlink_escape n p ≡ confined) ↔ Confined root p)

    -- how a path is confined
    split_Confined :
        (p : Bytes)
        → Confined root p
        → ((path : Bytes) × ((eval p ≡ resolved path) × IsBelow root path))
          ⊎ ((eval p ≡ missing) × ((dir p ≢ p) × Confined root (dir p)))
    split_Confined _ (here p path e i) = inl (path, (e, i))
    split_Confined _ (above p e n c) = inr (e, (n, c))

    same_path : (a b : Bytes) → resolved a ≡ resolved b → a ≡ b
    same_path a b e = ground (arith, e)

    not_here :
        (p path : Bytes)
        → eval p ≡ resolved path
        → ¬ IsBelow root path
        → ((path : Bytes) × ((eval p ≡ resolved path) × IsBelow root path))
          ⊎ ((eval p ≡ missing) × ((dir p ≢ p) × Confined root (dir p)))
        → ⊥
    not_here p path e i (inl (path', (e', i'))) =
        i (subst (IsBelow root) (same_path path' path (sym e' ∙ e)) i')
    not_here p path e i (inr (e', r)) = ground (arith, e, e')

    not_failed :
        (p : Bytes)
        → eval p ≡ failed
        → ((path : Bytes) × ((eval p ≡ resolved path) × IsBelow root path))
          ⊎ ((eval p ≡ missing) × ((dir p ≢ p) × Confined root (dir p)))
        → ⊥
    not_failed p e (inl (path', (e', i'))) = ground (arith, e, e')
    not_failed p e (inr (e', r)) = ground (arith, e, e')

    only_above :
        (p : Bytes)
        → eval p ≡ missing
        → ((path : Bytes) × ((eval p ≡ resolved path) × IsBelow root path))
          ⊎ ((eval p ≡ missing) × ((dir p ≢ p) × Confined root (dir p)))
        → (dir p ≢ p) × Confined root (dir p)
    only_above p e (inl (path', (e', i'))) = ground (arith, e, e')
    only_above p e (inr (e', r)) = r

    step :
        (n : ℕ) (p : Bytes) (o : Evaluated)
        → eval p ≡ o
        → (dir p ≢ p → Ends n (dir p))
        → Ends (suc n) p
    unfolding reject_symlink_escape
    step n p (resolved path) e h = elim (Bool-cases (is_inside (rel path))) [
      | inl i ↦
          rw (e, i, reject_symlink_escape)
            (
              λ x. ground arith,
              (λ x. here p path e ((is_inside_iff root lexical p path e).0 i), λ x. refl),
            )
      | inr i ↦
          rw (e, i, reject_symlink_escape)
            (
              λ x. ground arith,
              (
                λ x. ground arith,
                λ c. absurd (
                    not_here p path e
                      (λ b. ground (arith, i, (is_inside_iff root lexical p path e).1 b))
                      (split_Confined p c)),
              ),
            )
    ]
    step n p failed e h =
        rw (e, reject_symlink_escape)
          (
            λ x. ground arith,
            (λ x. ground arith, λ c. absurd (not_failed p e (split_Confined p c))),
          )
    step n p missing e h = elim (Bool-cases (text_eq (dir p) p)) [
      | inl t ↦
          rw (e, t, reject_symlink_escape)
            (
              λ x. ground arith,
              (
                λ x. ground arith,
                λ c. absurd ((only_above p e (split_Confined p c)).0 ((text_eq_iff (dir p) p).0 t)),
              ),
            )
      | inr t ↦
          let n : dir p ≢ p = λ k. ground (arith, t, (text_eq_iff (dir p) p).1 k) in
          let (a, (b, c)) = h n in
          rw (e, t, reject_symlink_escape)
            (a, (λ x. above p e n (b x), λ k. c (only_above p e (split_Confined p k)).1))
    ]

    next-Ends :
        (n : ℕ) (p : Bytes)
        → length p < suc n
        → (dir p ≡ p) ⊎ (Absolute (dir p) × (length (dir p) < length p))
        → (Absolute (dir p) → length (dir p) < n → Ends n (dir p))
        → dir p ≢ p
        → Ends n (dir p)
    next-Ends n p l (inl e) h k = absurd (k e)
    next-Ends n p l (inr (b, m)) h k = h b (omega (arith, l, m))

    ends : (n : ℕ) (p : Bytes) → Absolute p → length p < n → Ends n p
    ends zero p a l = absurd (omega (arith, l))
    ends (suc n) p a l =
        step n p (eval p) refl (next-Ends n p l (shortens p a) (λ b m. ends n (dir p) b m))

    -- Where the directory of an absolute path is the path itself or an absolute path that is shorter,
    -- and resolved and relative paths are as documented for a root other than `/`, the fuel of one step
    -- more than its length is enough for an absolute path: the loop ends with an answer, and it accepts exactly the paths whose
    -- nearest existing ancestor resolves to the root or to a path below it.
    pub reject_symlink_escape_terminates :
        (p : Bytes)
        → Absolute p
        → (reject_symlink_escape (length p + 1) p ≢ out_of_fuel)
          × ((reject_symlink_escape (length p + 1) p ≡ confined) ↔ Confined root p)
    reject_symlink_escape_terminates p a = ends (length p + 1) p a (omega arith)
