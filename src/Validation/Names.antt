-- ===== src/Validation/Names.antt =====
-- The names that the server accepts.
use terraform_registry.Base.{
  ℕ, ◌≤◌, true, Option-cases, ◌≡◌, ◌↔◌, inl, inr, refl, sym, ap, ◌∙◌, subst, arith, [], ◌∷◌, ◌++◌,
  All, length, append-nil,
}
use terraform_registry.Text.{Bytes}
use terraform_registry.Regex.{Regex, Captures, find, match_string}
use terraform_registry.Regex.Sound.{Matches, find_sound, find_complete}
use terraform_registry.Validation.{is_alnum, is_name_char, artifact_name_re, valid_artifact_name}

-- `MatchString` answers true exactly where the text matches.
pub match_string_iff :
    (r : Regex) (s : Bytes) → (match_string r s ≡ true) ↔ ((caps : Captures) × Matches r [] s caps)
unfolding match_string
match_string_iff r s = elim (Option-cases (find r [] s)) [
  | inl e ↦ (λ h. absurd (ground arith), λ (caps, m). absurd (find_complete r [] s caps m e))
  | inr (caps, e) ↦ (λ h. (caps, find_sound r [] s caps e), λ m. ground arith)
]

-- A letter or digit, and at most 63 letters, digits, underscores and dashes behind it.
pub record IsName (v : Bytes) : Type 0 where
  pub first : ℕ
  pub rest : Bytes
  pub is_cons : v ≡ first ∷ rest
  pub first_alnum : is_alnum first ≡ true
  pub rest_chars : All (λ c. is_name_char c ≡ true) rest
  pub short : length rest ≤ 63

-- `validArtifactName` accepts exactly the names of up to 64 bytes: one letter or digit, and then
-- letters, digits, underscores and dashes.
pub valid_artifact_name_iff : (v : Bytes) → (valid_artifact_name v ≡ true) ↔ IsName v
unfolding valid_artifact_name
valid_artifact_name_iff v = (
  λ h.
      let (caps, m) = (match_string_iff artifact_name_re v).0 h in
      let (c, t, e, f, k) = m in
      let p : k.part ≡ t =
        sym (append-nil k.part) ∙ ap (λ l. k.part ++ l) (sym k.goes_on.0) ∙ sym k.splits in
      record {
        first = c;
        rest = t;
        is_cons = e;
        first_alnum = f;
        rest_chars = subst (All (λ c. is_name_char c ≡ true)) p k.in_class;
        short = subst (λ u. length u ≤ 63) p k.count;
      },
  λ n. (match_string_iff artifact_name_re v).1 (
    [],
    (
      n.first,
      n.rest,
      n.is_cons,
      n.first_alnum,
      record {
        part = n.rest;
        left = [];
        splits = sym (append-nil n.rest);
        in_class = n.rest_chars;
        count = n.short;
        goes_on = (refl, refl);
      },
    ),
  ),
)
