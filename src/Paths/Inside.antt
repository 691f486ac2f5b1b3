-- ===== src/Paths/Inside.antt =====
-- A path that `Clean` leaves without a leading `..` never leads above the place where it starts.
use mathlib.Core.List.{reverse, reverse-append}
use terraform_registry.Base.{
  ℕ, zero, suc, true, false, Bool-cases, ◌≡◌, refl, ap, ◌∙◌, ◌⊎◌, inl, inr, arith, List, [], ◌∷◌,
  ◌++◌, if◌then◌else◌,
}
use terraform_registry.Text.{Bytes, codes, text_eq, join, split, has_prefix}
use terraform_registry.Text.Laws.{text_eq_iff}
use terraform_registry.Paths.{dot_dot, is_skipped, pop, clean_segments, path_clean}

-- Walking the segments from `depth` directories below the start never climbs above it.
abbrev pub StaysInside : ℕ → List Bytes → Type 0
StaysInside depth [] = Unit
StaysInside zero (s ∷ ss) =
    if is_skipped s then StaysInside zero ss else if text_eq s dot_dot then ⊥ else StaysInside 1 ss
StaysInside (suc depth) (s ∷ ss) =
    if is_skipped s
    then StaysInside (suc depth) ss
    else if text_eq s dot_dot
    then StaysInside depth ss
    else StaysInside (suc (suc depth)) ss

-- The segments that are kept, the last one first, have `..` at the front of the path.
abbrev pub Escapes : List Bytes → Type 0
Escapes kept = (rest : List Bytes) × (kept ≡ rest ++ dot_dot ∷ [])

-- no `..` among the kept segments, as many as the depth
abbrev Plain : ℕ → List Bytes → Type 0
Plain zero [] = Unit
Plain (suc n) (s ∷ ss) = (text_eq s dot_dot ≡ false) × Plain n ss
Plain _ _ = ⊥

pop-Escapes : (kept : List Bytes) → Escapes kept → Escapes (pop false kept)
unfolding pop text_eq
pop-Escapes [] ([], e) = absurd (ground arith)
pop-Escapes [] (r ∷ rest, e) = absurd (ground arith)
pop-Escapes (top ∷ kept) ([], e) = (dot_dot ∷ [], ground (arith, text_eq_iff top dot_dot))
pop-Escapes (top ∷ kept) (r ∷ rest, e) = elim (Bool-cases (text_eq top dot_dot)) [
  | inl f ↦ rw f (dot_dot ∷ r ∷ rest, ap (◌∷◌ dot_dot) e)
  | inr f ↦ rw f (rest, ground arith)
]

clean_segments-Escapes :
    (kept ss : List Bytes) → Escapes kept → Escapes (clean_segments false kept ss)
unfolding clean_segments
clean_segments-Escapes kept [] h = h
clean_segments-Escapes kept (s ∷ ss) (rest, e) = elim (Bool-cases (is_skipped s)) [
  | inl f ↦ rw f (clean_segments-Escapes kept ss (rest, e))
  | inr f ↦ elim (Bool-cases (text_eq s dot_dot)) [
    | inl g ↦ rw (f, g) (clean_segments-Escapes (pop false kept) ss (pop-Escapes kept (rest, e)))
    | inr g ↦ rw (f, g) (clean_segments-Escapes (s ∷ kept) ss (s ∷ rest, ap (◌∷◌ s) e))
  ]
]

-- A walk that climbs too high leaves `..` at the front for good.
clean_segments-StaysInside :
    (depth : ℕ) (kept ss : List Bytes)
    → Plain depth kept
    → Escapes (clean_segments false kept ss) ⊎ StaysInside depth ss
unfolding clean_segments pop
clean_segments-StaysInside zero [] [] p = inr tt
clean_segments-StaysInside zero (k ∷ kept) ss p = absurd p
clean_segments-StaysInside (suc n) [] ss p = absurd p
clean_segments-StaysInside (suc n) (k ∷ kept) [] p = inr tt
clean_segments-StaysInside zero [] (s ∷ ss) p = elim (Bool-cases (is_skipped s)) [
  | inl f ↦ rw f (clean_segments-StaysInside zero [] ss p)
  | inr f ↦ elim (Bool-cases (text_eq s dot_dot)) [
    | inl g ↦ rw (f, g) (inl (clean_segments-Escapes (dot_dot ∷ []) ss ([], refl)))
    | inr g ↦ rw (f, g) (clean_segments-StaysInside 1 (s ∷ []) ss (g, tt))
  ]
]
clean_segments-StaysInside (suc n) (k ∷ kept) (s ∷ ss) p = elim (Bool-cases (is_skipped s)) [
  | inl f ↦ rw f (clean_segments-StaysInside (suc n) (k ∷ kept) ss p)
  | inr f ↦ elim (Bool-cases (text_eq s dot_dot)) [
    | inl g ↦ rw (f, g, p.0) (clean_segments-StaysInside n kept ss p.1)
    | inr g ↦ rw (f, g) (clean_segments-StaysInside (suc (suc n)) (s ∷ k ∷ kept) ss (g, p))
  ]
]

-- a cleaned path that leads out
abbrev pub LeadsOut : Bytes → Type 0
LeadsOut clean = (text_eq clean dot_dot ≡ true) ⊎ (has_prefix clean (codes "../") ≡ true)

join-dot_dot : (ss : List Bytes) → LeadsOut (join b'/' (dot_dot ∷ ss))
unfolding join text_eq has_prefix
join-dot_dot [] = inl refl
join-dot_dot (s ∷ ss) = inr refl

Escapes-LeadsOut :
    (s : Bytes)
    → has_prefix s (codes "/") ≡ false
    → Escapes (clean_segments false [] (split b'/' s))
    → LeadsOut (path_clean s)
unfolding path_clean
Escapes-LeadsOut s h (rest, e) =
    let r : reverse (clean_segments false [] (split b'/' s)) ≡ dot_dot ∷ reverse rest =
      ap reverse e ∙ reverse-append rest (dot_dot ∷ []) in
    rw (h, r) (join-dot_dot (reverse rest))

-- If `Clean` of a path that is not rooted is neither `..` nor begins with `../`, then no prefix of the
-- path leads above its start.
pub path_clean-StaysInside :
    (s : Bytes)
    → has_prefix s (codes "/") ≡ false
    → text_eq (path_clean s) dot_dot ≡ false
    → has_prefix (path_clean s) (codes "../") ≡ false
    → StaysInside 0 (split b'/' s)
path_clean-StaysInside s h a b = elim (clean_segments-StaysInside 0 [] (split b'/' s) tt) [
  | inr i ↦ i
  | inl e ↦ elim (Escapes-LeadsOut s h e) [
    | inl f ↦ absurd (ground arith)
    | inr f ↦ absurd (ground arith)
  ]
]
