-- ===== src/Semver/Accept.antt =====
-- `parseSemanticVersion` accepts exactly the grammar, and returns what the text denotes.
use terraform_registry.Base.{
  ℕ, true, false, Bool, Option-cases, none, some, not, ◌||◌, ◌≡◌, ◌≢◌, ◌↔◌, ◌∙◌, inl, inr, refl,
  sym, ap, ap₂, Option, subst, arith, List, [], ◌∷◌, ◌++◌, ◌==◌, if◌then◌else◌, All, All-append,
  append-nil,
}
use terraform_registry.Text.{Bytes, codes, join, split, cut, has_prefix, contains}
use terraform_registry.Text.Laws.{Lacks, cut-append, cut-Lacks, cut-some}
use terraform_registry.Semver.{
  SemanticVersion, valid_identifiers, parse_version_and_pre, parse_semantic_version,
}
use terraform_registry.Semver.Grammar.{
  IsIdentifier, IsPreIdentifier, IsNumeral, VersionText, tagged, core_text, render, Denotes,
  valid_identifier-build_iff,
}
use terraform_registry.Semver.Parse.{
  All-join, identifier-Lacks, valid_identifiers_sound, valid_identifiers_complete, core_text-Lacks,
  build-Lacks_dot, version_and_pre_complete, version_and_pre_sound, tagged-split,
}

starts_with_v : Bytes → Bool
starts_with_v s = has_prefix s (codes "v")

-- `parseSemanticVersion` by what it finds at the first plus sign.
parse-plain :
    (s : Bytes)
    → s ≢ []
    → starts_with_v s ≡ false
    → cut b'+' s ≡ none
    → parse_semantic_version s ≡ parse_version_and_pre s
unfolding parse_semantic_version starts_with_v
parse-plain [] n h e = absurd (n refl)
parse-plain (c ∷ s) n h e = rw h (rw (e, parse_semantic_version))

parse-plus :
    (s l r : Bytes)
    → s ≢ []
    → starts_with_v s ≡ false
    → cut b'+' s ≡ some (l, r)
    → parse_semantic_version s ≡ (
        if contains r (codes "+") || not (valid_identifiers r false)
        then none
        else parse_version_and_pre l)
unfolding parse_semantic_version starts_with_v
parse-plus [] l r n h e = absurd (n refl)
parse-plus (c ∷ s) l r n h e = rw h (rw (e, parse_semantic_version))

parse-starts :
    (s : Bytes) (v : SemanticVersion)
    → parse_semantic_version s ≡ some v
    → (s ≢ []) × (starts_with_v s ≡ false)
unfolding parse_semantic_version starts_with_v
parse-starts [] v h = absurd (ground arith)
parse-starts (c ∷ s) v h = (ground arith, ground arith)

numeral-starts :
    (w x y z : Bytes) {n : ℕ}
    → IsNumeral w n
    → (((w ++ x) ++ y) ++ z ≢ []) × (starts_with_v (((w ++ x) ++ y) ++ z) ≡ false)
unfolding starts_with_v has_prefix
numeral-starts [] x y z h = absurd (h.ne_nil refl)
numeral-starts (c ∷ w) x y z h = let d = h.digits.0 in (ground arith, ground arith)

render-starts :
    (t : VersionText) (v : SemanticVersion) (z : Bytes)
    → Denotes t v
    → ((core_text t ++ tagged b'-' t.pre) ++ z ≢ [])
      × (starts_with_v ((core_text t ++ tagged b'-' t.pre) ++ z) ≡ false)
unfolding join
render-starts t v z d = numeral-starts t.major _ (tagged b'-' t.pre) z d.major

contains-Lacks : (c : ℕ) (s : Bytes) → Lacks c s → contains s (c ∷ []) ≡ false
unfolding contains
contains-Lacks c [] h = refl
contains-Lacks c (x ∷ s) (e, h) = ground (arith, contains-Lacks c s h)

pre-Lacks_plus : (ws : List Bytes) → All IsPreIdentifier ws → All (Lacks b'+') ws
pre-Lacks_plus [] h = tt
pre-Lacks_plus (w ∷ ws) (h, k) =
    (identifier-Lacks b'+' w (omega arith) (omega arith) h.chars, pre-Lacks_plus ws k)

build-Lacks_plus : (ws : List Bytes) → All IsIdentifier ws → All (Lacks b'+') ws
build-Lacks_plus [] h = tt
build-Lacks_plus (w ∷ ws) (h, k) =
    (identifier-Lacks b'+' w (omega arith) (omega arith) h.chars, build-Lacks_plus ws k)

tagged-Lacks_plus : (ws : List Bytes) → All IsPreIdentifier ws → Lacks b'+' (tagged b'-' ws)
tagged-Lacks_plus [] h = tt
tagged-Lacks_plus (w ∷ ws) h =
    (refl, All-join (λ b. (b == b'+') ≡ false) b'.' (w ∷ ws) refl (pre-Lacks_plus (w ∷ ws) h))

before_plus-Lacks :
    (t : VersionText) (v : SemanticVersion)
    → Denotes t v
    → Lacks b'+' (core_text t ++ tagged b'-' t.pre)
before_plus-Lacks t v d =
    All-append (λ b. (b == b'+') ≡ false) (core_text t) (tagged b'-' t.pre)
      (core_text-Lacks b'+' t v (omega arith) (omega arith) d) (tagged-Lacks_plus t.pre d.pre)

parse_complete :
    (t : VersionText) (v : SemanticVersion) (build : List Bytes)
    → t.build ≡ build
    → Denotes t v
    → parse_semantic_version ((core_text t ++ tagged b'-' t.pre) ++ tagged b'+' build) ≡ some v
parse_complete t v [] e d =
    let whole = core_text t ++ tagged b'-' t.pre in
    let starts = render-starts t v [] d in
    ap parse_semantic_version (append-nil whole)
    ∙ parse-plain whole (subst (λ s. s ≢ []) (append-nil whole) starts.0)
        (subst (λ s. starts_with_v s ≡ false) (append-nil whole) starts.1)
        (cut-Lacks b'+' whole (before_plus-Lacks t v d))
    ∙ version_and_pre_complete t v t.pre refl d
parse_complete t v (w ∷ ws) e d =
    let whole = core_text t ++ tagged b'-' t.pre in
    let build : All IsIdentifier (w ∷ ws) = subst (All IsIdentifier) e d.build in
    let starts = render-starts t v (tagged b'+' (w ∷ ws)) d in
    let plain : contains (join b'.' (w ∷ ws)) (codes "+") ≡ false =
      contains-Lacks b'+' _ (
        All-join (λ b. (b == b'+') ≡ false) b'.' (w ∷ ws) refl (build-Lacks_plus (w ∷ ws) build)) in
    let valid : valid_identifiers (join b'.' (w ∷ ws)) false ≡ true =
      valid_identifiers_complete IsIdentifier false w ws build.0.ne_nil
        (build-Lacks_dot (w ∷ ws) build) (λ u h. (valid_identifier-build_iff u).1 h) build in
    parse-plus _ whole (join b'.' (w ∷ ws)) starts.0 starts.1
      (cut-append b'+' whole _ (before_plus-Lacks t v d))
    ∙ rw (plain, valid) (version_and_pre_complete t v t.pre refl d)

plus-inversion :
    (bad valid : Bool) (m : Option SemanticVersion) (v : SemanticVersion)
    → (if bad || not valid then none else m) ≡ some v
    → (valid ≡ true) × (m ≡ some v)
plus-inversion bad valid m v h = ground arith

-- A build part behind a text that denotes `v`.
with_build :
    (t : VersionText) (s l r : Bytes) (v : SemanticVersion)
    → s ≡ l ++ (b'+' ∷ r)
    → valid_identifiers r false ≡ true
    → l ≡ core_text t ++ tagged b'-' t.pre
    → Denotes t v
    → (u : VersionText) × (s ≡ render u) × Denotes u v
with_build t s l r v e f p d = (
  record t { build = split b'.' r },
  e ∙ ap₂ ◌++◌ p (sym (tagged-split b'+' r)),
  record {
    major = d.major;
    minor = d.minor;
    patch = d.patch;
    pre = d.pre;
    pre_eq = d.pre_eq;
    build = valid_identifiers_sound IsIdentifier false r (λ w. (valid_identifier-build_iff w).0) f;
  },
)

parse_sound :
    (s : Bytes) (v : SemanticVersion)
    → parse_semantic_version s ≡ some v
    → (t : VersionText) × (s ≡ render t) × Denotes t v
parse_sound s v h = elim (Option-cases (cut b'+' s)) [
  | inl e ↦
      let (ne, start) = parse-starts s v h in
      let (t, p, d, b) = version_and_pre_sound s v (sym (parse-plain s ne start e) ∙ h) in
      (
        t,
        p
            ∙ sym (append-nil _)
            ∙ ap (λ ws. (core_text t ++ tagged b'-' t.pre) ++ tagged b'+' ws) (sym b),
        d,
      )
  | inr ((l, r), e) ↦
      let (ne, start) = parse-starts s v h in
      let (f, g) = plus-inversion _ _ _ v (sym (parse-plus s l r ne start e) ∙ h) in
      let (t, p, d, b) = version_and_pre_sound l v g in
      with_build t s l r v (cut-some b'+' s l r e).0 f p d
]

-- `parseSemanticVersion` returns `v` exactly on the texts that are written by the grammar of
-- semantic versions and denote `v`: numerals without leading zeros below 2 ^ 64, pre-release
-- identifiers that are not numerals with a leading zero, and build identifiers.
pub parse_iff :
    (s : Bytes) (v : SemanticVersion)
    → (parse_semantic_version s ≡ some v) ↔ ((t : VersionText) × (s ≡ render t) × Denotes t v)
parse_iff s v =
    (parse_sound s v, λ (t, e, d). ap parse_semantic_version e ∙ parse_complete t v t.build refl d)
