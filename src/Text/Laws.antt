-- ===== src/Text/Laws.antt =====
-- Laws of the string functions: cutting, splitting and joining undo one another.
use terraform_registry.Base.{
  ℕ, true, false, ◌↔◌, ◌≡◌, ◌≢◌, refl, sym, ap, ◌∙◌, arith, none, some, List, [], ◌∷◌, ◌++◌, ◌==◌,
  All, Bool-cases, ==_iff, Option-cases, inl, inr,
}
use terraform_registry.Text.{Bytes, has_prefix, text_eq, cut, split, join, onto_first}

-- No byte of `s` is `c`.
abbrev pub Lacks : ℕ → Bytes → Type 0
Lacks c s = All (λ b. (b == c) ≡ false) s

pub text_eq_iff : (a b : Bytes) → (text_eq a b ≡ true) ↔ (a ≡ b)
unfolding text_eq
text_eq_iff (x ∷ a) (y ∷ b) = ground (arith, text_eq_iff a b)
text_eq_iff _ _ = ground arith

pub differs : (a b : Bytes) → a ≢ b → text_eq a b ≡ false
differs a b h = elim (Bool-cases (text_eq a b)) [
  | inl e ↦ absurd (h ((text_eq_iff a b).0 e))
  | inr e ↦ e
]

pub cut-append : (c : ℕ) (l r : Bytes) → Lacks c l → cut c (l ++ (c ∷ r)) ≡ some (l, r)
unfolding cut
cut-append c [] r h = ground arith
cut-append c (x ∷ l) r (e, h) = ground (arith, cut-append c l r h)

pub cut-Lacks : (c : ℕ) (s : Bytes) → Lacks c s → cut c s ≡ none
unfolding cut
cut-Lacks c [] h = refl
cut-Lacks c (x ∷ s) (e, h) = ground (arith, cut-Lacks c s h)

pub cut-some : (c : ℕ) (s l r : Bytes) → cut c s ≡ some (l, r) → (s ≡ l ++ (c ∷ r)) × Lacks c l
unfolding cut
cut-some c [] l r h = absurd (ground arith)
cut-some c (x ∷ s) l r h = elim (Bool-cases (x == c)) [
  | inl e ↦ ground (arith, sym h)
  | inr e ↦ elim (Option-cases (cut c s)) [
    | inl n ↦ absurd (ground arith)
    | inr ((l', r'), m) ↦
        let ih = cut-some c s l' r' m in
        let p : (x ∷ l' ≡ l) × (r' ≡ r) = (ground arith, ground arith) in
        (rw (ih.0, ← p.0, ← p.1), rw (← p.0) (e, ih.1))
  ]
]

pub cut-none : (c : ℕ) (s : Bytes) → cut c s ≡ none → Lacks c s
unfolding cut
cut-none c [] h = tt
cut-none c (x ∷ s) h = ground (arith, cut-none c s)

pub split-ne-nil : (c : ℕ) (s : Bytes) → (w : Bytes) × (ws : List Bytes) × (split c s ≡ w ∷ ws)
unfolding split
split-ne-nil c [] = ([], [], refl)
split-ne-nil c (x ∷ s) = elim (Bool-cases (x == c)) [
  | inl e ↦ ([], split c s, ground arith)
  | inr e ↦ let (w, ws, p) = split-ne-nil c s in (x ∷ w, ws, rw (e, p))
]

join-onto_first :
    (c x : ℕ) (w : Bytes) (ws : List Bytes) → join c (onto_first x (w ∷ ws)) ≡ x ∷ join c (w ∷ ws)
unfolding join
join-onto_first c x w [] = refl
join-onto_first c x w (v ∷ vs) = refl

join-nil : (c : ℕ) (w : Bytes) (ws : List Bytes) → join c ([] ∷ w ∷ ws) ≡ c ∷ join c (w ∷ ws)
unfolding join
join-nil c w ws = refl

pub join-split : (c : ℕ) (s : Bytes) → join c (split c s) ≡ s
unfolding split
join-split c [] = unfold join in refl
join-split c (x ∷ s) =
    let (w, ws, p) = split-ne-nil c s in
    let ih : join c (w ∷ ws) ≡ s = rw p at (join-split c s) in
    elim (Bool-cases (x == c)) [
      | inl e ↦ rw (e, p) (join-nil c w ws ∙ rw (ih, (==_iff x c).0 e))
      | inr e ↦ rw (e, p) (join-onto_first c x w ws ∙ rw ih)
    ]

pub split-Lacks : (c : ℕ) (s : Bytes) → All (Lacks c) (split c s)
unfolding split
split-Lacks c [] = (tt, tt)
split-Lacks c (x ∷ s) =
    let (w, ws, p) = split-ne-nil c s in
    let ih : All (Lacks c) (w ∷ ws) = rw p at (split-Lacks c s) in
    elim (Bool-cases (x == c)) [ inl e ↦ rw (e, p) (tt, ih) | inr e ↦ rw (e, p) ((e, ih.0), ih.1) ]

pub split_single : (c : ℕ) (w : Bytes) → Lacks c w → split c w ≡ w ∷ []
unfolding split
split_single c [] h = refl
split_single c (x ∷ w) (e, h) = ground (arith, split_single c w h)

pub split-append : (c : ℕ) (w s : Bytes) → Lacks c w → split c (w ++ (c ∷ s)) ≡ w ∷ split c s
unfolding split
split-append c [] s h = ground arith
split-append c (x ∷ w) s (e, h) = ground (arith, split-append c w s h)

pub split-join :
    (c : ℕ) (w : Bytes) (ws : List Bytes)
    → All (Lacks c) (w ∷ ws)
    → split c (join c (w ∷ ws)) ≡ w ∷ ws
unfolding join
split-join c w [] h = split_single c w h.0
split-join c w (v ∷ vs) (h, k) = split-append c w _ h ∙ ap (◌∷◌ w) (split-join c v vs k)

pub has_prefix-append : (p r : Bytes) → has_prefix (p ++ r) p ≡ true
unfolding has_prefix
has_prefix-append [] r = refl
has_prefix-append (c ∷ p) r = ground (arith, has_prefix-append p r)

pub prefix-append : (s p : Bytes) → has_prefix s p ≡ true → (r : Bytes) × (s ≡ p ++ r)
unfolding has_prefix
prefix-append s [] h = (s, refl)
prefix-append [] (c ∷ p) h = absurd (ground arith)
prefix-append (d ∷ s) (c ∷ p) h =
    let (r, e) = prefix-append s p (ground arith) in
    (r, ap (λ t. d ∷ t) e ∙ ap (λ x. x ∷ (p ++ r)) (ground arith))
