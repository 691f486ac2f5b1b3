-- ===== src/Metrics/Search.antt =====
-- registry-server/metrics.go: `contains` and `containsSubstr` search as `strings.Contains` does.
use terraform_registry.Base.{
  ℕ, zero, suc, ◌+◌, ◌-◌, ◌≤◌, ◌<◌, ◌≡◌, refl, sym, subst, arith, true, false, Bool-cases, inl, inr,
  [], ◌∷◌, leb, length, take,
}
use terraform_registry.Text
use terraform_registry.Text.{Bytes, text_eq, has_prefix}
use terraform_registry.Text.Laws.{text_eq_iff}
use terraform_registry.Metrics.{contains, contains_substr, contains_substr_from}

prefix_take : (s p : Bytes) → text_eq (take (length p) s) p ≡ has_prefix s p
unfolding text_eq has_prefix
prefix_take s [] = refl
prefix_take [] (c ∷ p) = refl
prefix_take (d ∷ s) (c ∷ p) = ground (arith, prefix_take s p)

has_prefix-short : (s p : Bytes) → length s < length p → has_prefix s p ≡ false
unfolding has_prefix
has_prefix-short s [] h = ground arith
has_prefix-short [] (c ∷ p) h = refl
has_prefix-short (d ∷ s) (c ∷ p) h = ground (arith, has_prefix-short s p)

contains-short : (s p : Bytes) → length s < length p → Text.contains s p ≡ false
unfolding Text.contains
contains-short [] p h = has_prefix-short [] p h
contains-short (c ∷ s) p h =
    rw (has_prefix-short (c ∷ s) p h) (contains-short s p (omega (arith, h)))

-- The loop from a place on finds what the search finds.
from-contains :
    (n : ℕ) (s p : Bytes) → length s ≡ n + length p → contains_substr_from n s p ≡ Text.contains s p
unfolding contains_substr_from Text.contains
from-contains zero [] p h = prefix_take [] p
from-contains zero (c ∷ s) p h =
    ground (arith, prefix_take (c ∷ s) p, contains-short s p (omega (arith, h)))
from-contains (suc n) [] p h = ground (arith, h)
from-contains (suc n) (c ∷ s) p h =
    ground (arith, prefix_take (c ∷ s) p, from-contains n s p (omega (arith, h)))

has_prefix_self : (s : Bytes) → has_prefix s s ≡ true
unfolding has_prefix
has_prefix_self [] = refl
has_prefix_self (c ∷ s) = ground (arith, has_prefix_self s)

contains_self : (s : Bytes) → Text.contains s s ≡ true
unfolding Text.contains
contains_self [] = refl
contains_self (c ∷ s) = ground (arith, has_prefix_self (c ∷ s))

same_text : (s p : Bytes) → text_eq s p ≡ true → Text.contains s p ≡ true
same_text s p h = subst (λ q. Text.contains s q ≡ true) ((text_eq_iff s p).0 h) (contains_self s)

-- A text that is not the whole is searched for from place to place.
long :
    (s p : Bytes)
    → leb (length p) (length s) ≡ true
    → text_eq s p ≡ false
    → contains s p ≡ Text.contains s p
unfolding contains contains_substr text_eq
long [] [] e t = ground (arith, t)
long [] (c ∷ p) e t = ground (arith, e)
long (c ∷ s) p e t =
    let l : length p ≤ length (c ∷ s) = ground arith in
    ground (arith, e, t, from-contains (length (c ∷ s) - length p) (c ∷ s) p (omega (arith, l)))

-- The search of metrics.go finds a text exactly where `strings.Contains` does.
pub contains_agrees : (s p : Bytes) → contains s p ≡ Text.contains s p
unfolding contains contains_substr
contains_agrees s p = elim (Bool-cases (leb (length p) (length s))) [
  | inr e ↦ rw (e, contains) (sym (contains-short s p (ground arith)))
  | inl e ↦ elim (Bool-cases (text_eq s p)) [
    | inl t ↦ rw (e, t, contains) (sym (same_text s p t))
    | inr t ↦ long s p e t
  ]
]
