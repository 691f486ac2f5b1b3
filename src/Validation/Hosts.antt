-- ===== src/Validation/Hosts.antt =====
-- The host names that the server accepts.
use terraform_registry.Base.{
  ℕ, ◌≤◌, Bool, true, false, Bool-cases, ◌≡◌, ◌≢◌, ◌↔◌, ◌⊎◌, inl, inr, refl, sym, ap, ◌∙◌, subst,
  arith, [], ◌∷◌, ◌++◌, All, length,
}
use terraform_registry.Text.{Bytes, codes, has_prefix, contains}
use terraform_registry.Text.Laws.{has_prefix-append, prefix-append}
use terraform_registry.Regex.{done, one, upto, maybe, Captures, match_string}
use terraform_registry.Regex.Sound.{Matches}
use terraform_registry.Validation.{is_alnum, is_host_char, hostname_re, valid_hostname}
use terraform_registry.Validation.Names.{match_string_iff}

-- The text has the other as a part.
abbrev HasPart : Bytes → Bytes → Type 0
HasPart v needle = (l : Bytes) × (r : Bytes) × (v ≡ l ++ (needle ++ r))

contains-HasPart : (v needle : Bytes) → contains v needle ≡ true → HasPart v needle
unfolding contains
contains-HasPart [] needle h = let (r, e) = prefix-append [] needle h in ([], r, e)
contains-HasPart (c ∷ v) needle h = elim (Bool-cases (has_prefix (c ∷ v) needle)) [
  | inl e ↦ let (r, k) = prefix-append (c ∷ v) needle e in ([], r, k)
  | inr e ↦
      let (l, r, k) = contains-HasPart v needle (ground arith) in (c ∷ l, r, ap (λ t. c ∷ t) k)
]

HasPart-contains : (l needle r : Bytes) → contains (l ++ (needle ++ r)) needle ≡ true
unfolding contains
HasPart-contains [] needle r = here (needle ++ r) needle (has_prefix-append needle r)
  where
    here : (s p : Bytes) → has_prefix s p ≡ true → contains s p ≡ true
    here [] p h = h
    here (c ∷ s) p h = ground arith
HasPart-contains (c ∷ l) needle r = ground (arith, HasPart-contains l needle r)

-- One letter or digit, or two with at most 251 letters, digits, dots and dashes between them; and no
-- two dots in a row.
pub record IsHostname (v : Bytes) : Type 0 where
  pub first : ℕ
  pub rest : Bytes
  pub is_cons : v ≡ first ∷ rest
  pub first_alnum : is_alnum first ≡ true
  pub ends :
      (rest ≡ [])
      ⊎ ((middle : Bytes) × (last : ℕ) × (rest ≡ middle ++ last ∷ [])
          × All (λ c. is_host_char c ≡ true) middle
          × (length middle ≤ 251)
          × (is_alnum last ≡ true))
  pub no_dots : (l r : Bytes) → v ≢ l ++ (codes ".." ++ r)

-- `validHostname` accepts exactly these.
pub valid_hostname_iff : (v : Bytes) → (valid_hostname v ≡ true) ↔ IsHostname v
unfolding valid_hostname
valid_hostname_iff v = (
  λ h.
      let (caps, x) = (match_string_iff hostname_re v).0 (ground arith) in
      let (c, t, e, f, m) = x in
      record {
        first = c;
        rest = t;
        is_cons = e;
        first_alnum = f;
        ends = ends_of (c ∷ []) t caps m;
        no_dots = λ l r g. no_part (contains v (codes "..")) (ground arith) (
            subst (λ v. contains v (codes "..") ≡ true) (sym g)
              (HasPart-contains l (codes "..") r));
      },
  λ n. elim (Bool-cases (contains v (codes ".."))) [
    | inl g ↦ let (l, r, e) = contains-HasPart v (codes "..") g in absurd (n.no_dots l r e)
    | inr g ↦ ground (arith, matched n)
  ],
)
  where
    no_part : (b : Bool) → b ≡ false → b ≡ true → ⊥
    no_part b h k = ground arith

    ends_of :
        (taken t : Bytes) (caps : Captures)
        → Matches (maybe (upto 251 is_host_char (one is_alnum done)) done) taken t caps
        → (t ≡ [])
          ⊎ ((middle : Bytes) × (last : ℕ) × (t ≡ middle ++ last ∷ [])
              × All (λ c. is_host_char c ≡ true) middle
              × (length middle ≤ 251)
              × (is_alnum last ≡ true))
    ends_of taken t caps (inr (e, f)) = inl e
    ends_of taken t caps (inl k) =
        let (c, rest, e, f, g) = k.goes_on in
        inr (
          k.part,
          c,
          k.splits ∙ ap (λ l. k.part ++ l) (e ∙ ap (λ l. c ∷ l) g.0),
          k.in_class,
          k.count,
          f,
        )

    matched : IsHostname v → match_string hostname_re v ≡ true
    matched n =
        (match_string_iff hostname_re v).1
          ([], (n.first, n.rest, n.is_cons, n.first_alnum, tail_of (n.first ∷ []) n.rest n.ends))
      where
        tail_of :
            (taken t : Bytes)
            → (t ≡ [])
              ⊎ ((middle : Bytes) × (last : ℕ) × (t ≡ middle ++ last ∷ [])
                  × All (λ c. is_host_char c ≡ true) middle
                  × (length middle ≤ 251)
                  × (is_alnum last ≡ true))
            → Matches (maybe (upto 251 is_host_char (one is_alnum done)) done) taken t []
        tail_of taken t (inl e) = inr (e, refl)
        tail_of taken t (inr (middle, last, e, a, l, f)) = inl (record {
          part = middle;
          left = last ∷ [];
          splits = e;
          in_class = a;
          count = l;
          goes_on = (last, [], refl, f, (refl, refl));
        })
