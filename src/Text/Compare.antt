-- ===== src/Text/Compare.antt =====
-- What makes a three-way comparison a total order up to ties, and how such comparisons combine.
use terraform_registry.Base.{
  ℕ, ◌≡◌, ◌≢◌, refl, sym, ◌∙◌, ap, arith, List, [], ◌∷◌, Ordering, lt, eq, gt, compare,
  Ordering-cases, inl, inr,
}
use terraform_registry.Text.{then_by, compare_list, compare_text}

abbrev pub flip : Ordering → Ordering
flip lt = gt
flip eq = eq
flip gt = lt

-- A comparison that is total, antisymmetric and transitive, where ties are interchangeable.
pub record IsWeakOrder {ℓ} {A : Type ℓ} (c : A → A → Ordering) : Type ℓ where
  pub flips : (x y : A) → c y x ≡ flip (c x y)
  pub lt_trans : (x y z : A) → c x y ≡ lt → c y z ≡ lt → c x z ≡ lt
  pub eq_left : (x y z : A) → c x y ≡ eq → c x z ≡ c y z

module _ {ℓ} {A : Type ℓ} {c : A → A → Ordering} (w : IsWeakOrder c) where
  pub compare_self : (x : A) → c x x ≡ eq
  compare_self x = elim (Ordering-cases (c x x)) [
    | inl e ↦ ground (arith, w.flips x x)
    | inr (inl e) ↦ e
    | inr (inr e) ↦ ground (arith, w.flips x x)
  ]

  pub eq_right : (x y z : A) → c y z ≡ eq → c x y ≡ c x z
  eq_right x y z e = w.flips y x ∙ ap flip (w.eq_left y z x e) ∙ sym (w.flips z x)

  -- If `y` is not before `x` and `z` is not before `y`, then `z` is not before `x`.
  pub not_before_trans : (x y z : A) → c y x ≢ lt → c z y ≢ lt → c z x ≢ lt
  not_before_trans x y z h k l = elim (Ordering-cases (c z y)) [
    | inl e ↦ k e
    | inr (inl e) ↦ h (sym (w.eq_left z y x e) ∙ l)
    | inr (inr e) ↦ h (w.lt_trans y z x (w.flips z y ∙ ap flip e) l)
  ]

nat-IsWeakOrder_flips : (x y : ℕ) → compare y x ≡ flip (compare x y)
nat-IsWeakOrder_flips x y = ground arith

pub nat-IsWeakOrder : IsWeakOrder compare
nat-IsWeakOrder = record {
  flips = nat-IsWeakOrder_flips;
  lt_trans = λ x y z h k. ground arith;
  eq_left = λ x y z h. ground arith;
}

-- The comparison of the images under a function.
pub pullback-IsWeakOrder {ℓ κ} :
    {A : Type ℓ} {B : Type κ} {c : B → B → Ordering} (f : A → B)
    → IsWeakOrder c
    → IsWeakOrder (λ x y. c (f x) (f y))
pullback-IsWeakOrder f w = record {
  flips = λ x y. w.flips (f x) (f y);
  lt_trans = λ x y z. w.lt_trans (f x) (f y) (f z);
  eq_left = λ x y z. w.eq_left (f x) (f y) (f z);
}

module _ {ℓ} {A : Type ℓ} {c d : A → A → Ordering} (w : IsWeakOrder c) (v : IsWeakOrder d) where
  then_by_trans :
      (x y z : A)
      → then_by (c x y) (d x y) ≡ lt
      → then_by (c y z) (d y z) ≡ lt
      → then_by (c x z) (d x z) ≡ lt
  then_by_trans x y z h k =
      ground (arith, w.lt_trans x y z, w.eq_left x y z, eq_right w x y z, v.lt_trans x y z)

  -- Comparing by `c`, and by `d` where `c` sees a tie.
  pub then_by-IsWeakOrder : IsWeakOrder (λ x y. then_by (c x y) (d x y))
  then_by-IsWeakOrder = record {
    flips = λ x y. ground (arith, w.flips x y, v.flips x y);
    lt_trans = then_by_trans;
    eq_left = λ x y z h. ground (arith, w.eq_left x y z, v.eq_left x y z);
  }

module _ {ℓ} {A : Type ℓ} {c : A → A → Ordering} (w : IsWeakOrder c) where
  list_flips : (xs ys : List A) → compare_list c ys xs ≡ flip (compare_list c xs ys)
  unfolding compare_list
  list_flips [] [] = refl
  list_flips [] (y ∷ ys) = refl
  list_flips (x ∷ xs) [] = refl
  list_flips (x ∷ xs) (y ∷ ys) = ground (arith, w.flips x y, list_flips xs ys)

  list_eq_left :
      (xs ys zs : List A) → compare_list c xs ys ≡ eq → compare_list c xs zs ≡ compare_list c ys zs
  unfolding compare_list
  list_eq_left [] [] zs h = refl
  list_eq_left [] (y ∷ ys) zs h = absurd (ground arith)
  list_eq_left (x ∷ xs) [] zs h = absurd (ground arith)
  list_eq_left (x ∷ xs) (y ∷ ys) [] h = refl
  list_eq_left (x ∷ xs) (y ∷ ys) (z ∷ zs) h = ground (arith, w.eq_left x y z, list_eq_left xs ys zs)

  list_lt_trans :
      (xs ys zs : List A)
      → compare_list c xs ys ≡ lt
      → compare_list c ys zs ≡ lt
      → compare_list c xs zs ≡ lt
  unfolding compare_list
  list_lt_trans [] [] zs h k = absurd (ground arith)
  list_lt_trans [] (y ∷ ys) [] h k = absurd (ground arith)
  list_lt_trans [] (y ∷ ys) (z ∷ zs) h k = refl
  list_lt_trans (x ∷ xs) [] zs h k = absurd (ground arith)
  list_lt_trans (x ∷ xs) (y ∷ ys) [] h k = absurd (ground arith)
  list_lt_trans (x ∷ xs) (y ∷ ys) (z ∷ zs) h k =
      ground (arith, w.lt_trans x y z, w.eq_left x y z, eq_right w x y z, list_lt_trans xs ys zs)

  pub list-IsWeakOrder : IsWeakOrder (compare_list c)
  list-IsWeakOrder = record { flips = list_flips; lt_trans = list_lt_trans; eq_left = list_eq_left }

pub text-IsWeakOrder : IsWeakOrder compare_text
unfolding compare_text
text-IsWeakOrder = list-IsWeakOrder nat-IsWeakOrder
