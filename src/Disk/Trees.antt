-- ===== src/Disk/Trees.antt =====
-- What the move of a tree of files does to the paths.
use terraform_registry.Base.{
  ◌<◌, ◌≡◌, refl, sym, ap, ap₂, ◌∙◌, subst, arith, false, Bool-cases, inl, inr, none, some,
  Option-cases, [], ◌∷◌, ◌++◌, length, length-append, All,
}
use terraform_registry.Text.{Bytes, codes, text_eq, cut_prefix}
use terraform_registry.Text.Laws.{text_eq_iff, differs}
use terraform_registry.Disk.{Node, Files, rekey, move_tree, insert, erase, lookup}

cut_prefix_append : (p s : Bytes) → cut_prefix (p ++ s) p ≡ some s
unfolding cut_prefix
cut_prefix_append [] s = ground arith
cut_prefix_append (c ∷ p) s = ground (arith, cut_prefix_append p s)

cut_prefix-some : (k p s : Bytes) → cut_prefix k p ≡ some s → k ≡ p ++ s
unfolding cut_prefix
cut_prefix-some k [] s h = ground (arith, h)
cut_prefix-some [] (c ∷ p) s h = ground (arith, h)
cut_prefix-some (d ∷ k) (c ∷ p) s h = ground (arith, h, cut_prefix-some k p s)

pub cut_prefix_short : (k p : Bytes) → length k < length p → cut_prefix k p ≡ none
unfolding cut_prefix
cut_prefix_short k [] h = ground arith
cut_prefix_short [] (c ∷ p) h = refl
cut_prefix_short (d ∷ k) (c ∷ p) h = ground (arith, cut_prefix_short k p)

-- The path is not `q`, and does not lie below it.
abbrev pub Outside : Bytes → Bytes → Type 0
Outside q k = (text_eq k q ≡ false) × (cut_prefix k (q ++ codes "/") ≡ none)

rekey_self : (p q : Bytes) → rekey p q p ≡ q
unfolding rekey
rekey_self p q = ground (arith, text_eq_iff p p)

longer : (p s : Bytes) → text_eq (p ++ codes "/" ++ s) p ≡ false
longer p s =
    differs (p ++ codes "/" ++ s) p (λ e.
      omega (arith, ap length e, length-append (p ++ codes "/") s, length-append p (codes "/")))

rekey_below : (p q s : Bytes) → rekey p q (p ++ codes "/" ++ s) ≡ q ++ codes "/" ++ s
unfolding rekey
rekey_below p q s = rw (longer p s, cut_prefix_append (p ++ codes "/") s, rekey) refl

rekey-Outside : (p q k : Bytes) → Outside p k → rekey p q k ≡ k
unfolding rekey
rekey-Outside p q k (h, g) = rw (h, g, rekey) refl

rekey_back : (p q k : Bytes) → Outside q k → rekey q p (rekey p q k) ≡ k
rekey_back p q k o = elim (Bool-cases (text_eq k p)) [
  | inl e ↦
      let same : k ≡ p = (text_eq_iff k p).0 e in
      subst (λ x. rekey q p (rekey p q x) ≡ x) (sym same)
        (ap (rekey q p) (rekey_self p q) ∙ rekey_self q p)
  | inr e ↦ elim (Option-cases (cut_prefix k (p ++ codes "/"))) [
    | inl g ↦ ap (rekey q p) (rekey-Outside p q k (e, g)) ∙ rekey-Outside q p k o
    | inr (s, g) ↦
        let same : k ≡ p ++ codes "/" ++ s = cut_prefix-some k (p ++ codes "/") s g in
        subst (λ x. rekey q p (rekey p q x) ≡ x) (sym same)
          (ap (rekey q p) (rekey_below p q s) ∙ rekey_below q p s)
  ]
]

-- A tree that moves to a free place and back leaves the files as they were.
pub move_tree_back :
    (p q : Bytes) (fs : Files)
    → All (λ (e : Bytes × Node). Outside q e.0) fs
    → move_tree q p (move_tree p q fs) ≡ fs
unfolding move_tree
move_tree_back p q [] h = refl
move_tree_back p q ((k, n) ∷ fs) (o, h) =
    ap₂ (λ (e : Bytes × Node) (r : Files). e ∷ r) (ap (λ x. (x, n)) (rekey_back p q k o))
      (move_tree_back p q fs h)

-- A new path goes again without a trace.
pub erase-insert :
    (p : Bytes) (n : Node) (fs : Files)
    → All (λ (e : Bytes × Node). Outside p e.0) fs
    → erase p (insert p n fs) ≡ fs
unfolding erase insert
erase-insert p n [] h = ground (arith, text_eq_iff p p)
erase-insert p n ((k, m) ∷ fs) ((o, g), h) = ground (arith, erase-insert p n fs h)

rekey_hits : (p q k : Bytes) → Outside q k → text_eq (rekey p q k) q ≡ text_eq k p
rekey_hits p q k o = elim (Bool-cases (text_eq k p)) [
  | inl e ↦
      let same : k ≡ p = (text_eq_iff k p).0 e in
      ap (λ x. text_eq (rekey p q x) q) same
      ∙ ap (λ x. text_eq x q) (rekey_self p q)
      ∙ (text_eq_iff q q).1 refl
      ∙ sym e
  | inr e ↦ elim (Option-cases (cut_prefix k (p ++ codes "/"))) [
    | inl g ↦ ap (λ x. text_eq x q) (rekey-Outside p q k (e, g)) ∙ o.0 ∙ sym e
    | inr (s, g) ↦
        let same : k ≡ p ++ codes "/" ++ s = cut_prefix-some k (p ++ codes "/") s g in
        ap (λ x. text_eq (rekey p q x) q) same
        ∙ ap (λ x. text_eq x q) (rekey_below p q s)
        ∙ longer q s
        ∙ sym e
  ]
]

-- What was at the path is where the tree has moved.
pub lookup-move_tree :
    (p q : Bytes) (fs : Files)
    → All (λ (e : Bytes × Node). Outside q e.0) fs
    → lookup q (move_tree p q fs) ≡ lookup p fs
unfolding lookup move_tree
lookup-move_tree p q [] h = refl
lookup-move_tree p q ((k, n) ∷ fs) (o, h) =
    ground (arith, rekey_hits p q k o, lookup-move_tree p q fs h)

-- Nothing is at a path that all are outside of.
pub lookup-Outside :
    (q : Bytes) (fs : Files) → All (λ (e : Bytes × Node). Outside q e.0) fs → lookup q fs ≡ none
unfolding lookup
lookup-Outside q [] h = refl
lookup-Outside q ((k, n) ∷ fs) (o, h) = rw (o.0) (lookup-Outside q fs h)

rekey_leaves : (p q k : Bytes) → length p < length q → text_eq (rekey p q k) p ≡ false
rekey_leaves p q k l = elim (Bool-cases (text_eq k p)) [
  | inl e ↦
      subst (λ x. text_eq (rekey p q x) p ≡ false) (sym ((text_eq_iff k p).0 e))
        (ap (λ x. text_eq x p) (rekey_self p q) ∙ differs q p (λ g. omega (arith, l, ap length g)))
  | inr e ↦ elim (Option-cases (cut_prefix k (p ++ codes "/"))) [
    | inl g ↦ ap (λ x. text_eq x p) (rekey-Outside p q k (e, g)) ∙ e
    | inr (s, g) ↦
        let below : Bytes = q ++ codes "/" ++ s in
        let apart : text_eq below p ≡ false = differs below p (λ h.
          omega (
            arith,
            l,
            ap length h,
            length-append (q ++ codes "/") s,
            length-append q (codes "/"),
          )) in
        subst (λ x. text_eq (rekey p q x) p ≡ false) (sym (cut_prefix-some k (p ++ codes "/") s g))
          (ap (λ x. text_eq x p) (rekey_below p q s) ∙ apart)
  ]
]

-- Nothing stays at the path of a tree that has moved to a longer path.
pub lookup-move_tree_gone :
    (p q : Bytes) (fs : Files) → length p < length q → lookup p (move_tree p q fs) ≡ none
unfolding lookup move_tree
lookup-move_tree_gone p q [] l = refl
lookup-move_tree_gone p q ((k, n) ∷ fs) l =
    rw (rekey_leaves p q k l) (lookup-move_tree_gone p q fs l)
