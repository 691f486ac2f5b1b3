-- ===== src/Semver/Parse.antt =====
-- `parseSemanticVersion` accepts exactly the grammar, and returns what the text denotes.
use terraform_registry.Base.{
  ℕ, ◌<◌, Bool, true, false, Bool-cases, Option-cases, none, some, ◌≡◌, ◌≢◌, ◌∙◌, inl, inr, refl,
  sym, ap, ap₂, subst, if◌then◌else◌, arith, List, [], ◌∷◌, ◌++◌, ◌==◌, all, All, All-map,
  All-append, all→All, All→all, append-nil,
}
use terraform_registry.Text.{Bytes, join, split, cut}
use terraform_registry.Text.Laws.{
  Lacks, cut-append, cut-Lacks, cut-some, join-split, split-join, split-ne-nil,
}
use terraform_registry.Semver.{
  SemanticVersion, valid_identifier, valid_identifiers, core_number, parse_core,
  parse_version_and_pre,
}
use terraform_registry.Semver.Grammar.{
  IsDigit, IsIdentifierChar, IsNumeral, IsIdentifier, IsPreIdentifier, VersionText, tagged,
  core_text, Denotes, core_number_iff, valid_identifier-pre_iff,
}

-- A property of every byte of a joined text.
pub All-join : (P : ℕ → Type 0) (c : ℕ) (ws : List Bytes) → P c → All (All P) ws → All P (join c ws)
unfolding join
All-join P c [] h k = tt
All-join P c (w ∷ []) h k = k.0
All-join P c (w ∷ v ∷ vs) h (k, l) = All-append P w _ k (h, All-join P c (v ∷ vs) h l)

-- Bytes of cores and of pre-releases: no plus sign, and in a core no dash.
digits-Lacks : (c : ℕ) (s : Bytes) → c < b'0' → All IsDigit s → Lacks c s
digits-Lacks c [] h k = tt
digits-Lacks c (d ∷ s) h (k, l) = (ground arith, digits-Lacks c s h l)

pub identifier-Lacks :
    (c : ℕ) (s : Bytes) → c < b'0' → c ≢ b'-' → All IsIdentifierChar s → Lacks c s
identifier-Lacks c [] h n k = tt
identifier-Lacks c (d ∷ s) h n (k, l) = (ground arith, identifier-Lacks c s h n l)

valid_identifiers-split :
    (s : Bytes) (e : Bool)
    → s ≢ []
    → valid_identifiers s e ≡ all (valid_identifier e) (split b'.' s)
unfolding valid_identifiers
valid_identifiers-split [] e h = absurd (h refl)
valid_identifiers-split (c ∷ s) e h = refl

valid_identifiers-nil : (e : Bool) → valid_identifiers [] e ≡ false
unfolding valid_identifiers
valid_identifiers-nil e = refl

-- `validIdentifiers` accepts what splits at the dots into valid identifiers.
pub valid_identifiers_sound :
    (P : Bytes → Type 0) (e : Bool) (s : Bytes)
    → ((w : Bytes) → valid_identifier e w ≡ true → P w)
    → valid_identifiers s e ≡ true
    → All P (split b'.' s)
valid_identifiers_sound P e [] f h = absurd (ground (arith, valid_identifiers-nil e))
valid_identifiers_sound P e (c ∷ s) f h =
    All-map _ P (split b'.' (c ∷ s)) f
      (all→All (valid_identifier e) _ (sym (valid_identifiers-split (c ∷ s) e (ground arith)) ∙ h))

join-ne-nil : (w : Bytes) (ws : List Bytes) → w ≢ [] → join b'.' (w ∷ ws) ≢ []
unfolding join
join-ne-nil [] ws h = absurd (h refl)
join-ne-nil (c ∷ w) [] h = ground arith
join-ne-nil (c ∷ w) (v ∷ vs) h = ground arith

pub valid_identifiers_complete :
    (P : Bytes → Type 0) (e : Bool) (w : Bytes) (ws : List Bytes)
    → w ≢ []
    → All (Lacks b'.') (w ∷ ws)
    → ((u : Bytes) → P u → valid_identifier e u ≡ true)
    → All P (w ∷ ws)
    → valid_identifiers (join b'.' (w ∷ ws)) e ≡ true
valid_identifiers_complete P e w ws n l f h =
    valid_identifiers-split _ e (join-ne-nil w ws n)
    ∙ ap (all (valid_identifier e)) (split-join b'.' w ws l)
    ∙ All→all (valid_identifier e) (w ∷ ws) (All-map P _ (w ∷ ws) f h)

-- The core has three numerals.
parse_core_sound :
    (ws pre : List Bytes) (v : SemanticVersion)
    → parse_core ws pre ≡ some v
    → (a b c : Bytes) × (ws ≡ a ∷ b ∷ c ∷ [])
      × IsNumeral a v.major
      × IsNumeral b v.minor
      × IsNumeral c v.patch
      × (v.pre ≡ pre)
unfolding parse_core
parse_core_sound (a ∷ b ∷ c ∷ []) pre v h =
    let parts : (core_number a ≡ some v.major)
        × (core_number b ≡ some v.minor)
        × (core_number c ≡ some v.patch)
        × (v.pre ≡ pre) =
      ground arith in
    (
      a,
      b,
      c,
      refl,
      (core_number_iff a v.major).0 parts.0,
      (core_number_iff b v.minor).0 parts.1,
      (core_number_iff c v.patch).0 parts.2,
      parts.3,
    )
parse_core_sound [] pre v h = absurd (ground arith)
parse_core_sound _ pre v h = absurd (ground arith)

parse_core_complete :
    (a b c : Bytes) (v : SemanticVersion)
    → IsNumeral a v.major
    → IsNumeral b v.minor
    → IsNumeral c v.patch
    → parse_core (a ∷ b ∷ c ∷ []) v.pre ≡ some v
unfolding parse_core
parse_core_complete a b c v ha hb hc = ground (
  arith,
  (core_number_iff a v.major).1 ha,
  (core_number_iff b v.minor).1 hb,
  (core_number_iff c v.patch).1 hc,
)

-- The dots of a core and of a list of identifiers stand between the parts only.
numeral-Lacks_dot : {s : Bytes} {n : ℕ} → IsNumeral s n → Lacks b'.' s
numeral-Lacks_dot {s} h = digits-Lacks b'.' s (omega arith) h.digits

pub core_text-Lacks :
    (c : ℕ) (t : VersionText) (v : SemanticVersion)
    → c < b'0'
    → c ≢ b'.'
    → Denotes t v
    → Lacks c (core_text t)
core_text-Lacks c t v h n d =
    All-join (λ b. (b == c) ≡ false) b'.' (t.major ∷ t.minor ∷ t.patch ∷ []) (ground arith)
      (
        digits-Lacks c t.major h d.major.digits,
        (digits-Lacks c t.minor h d.minor.digits, (digits-Lacks c t.patch h d.patch.digits, tt)),
      )

split-core_text :
    (t : VersionText) (v : SemanticVersion)
    → Denotes t v
    → split b'.' (core_text t) ≡ t.major ∷ t.minor ∷ t.patch ∷ []
split-core_text t v d =
    split-join b'.' t.major (t.minor ∷ t.patch ∷ [])
      (numeral-Lacks_dot d.major, (numeral-Lacks_dot d.minor, (numeral-Lacks_dot d.patch, tt)))

pre-Lacks_dot : (ws : List Bytes) → All IsPreIdentifier ws → All (Lacks b'.') ws
pre-Lacks_dot ws =
    All-map IsPreIdentifier (Lacks b'.') ws
      λ w h. identifier-Lacks b'.' w (omega arith) (omega arith) h.chars

pub build-Lacks_dot : (ws : List Bytes) → All IsIdentifier ws → All (Lacks b'.') ws
build-Lacks_dot ws =
    All-map IsIdentifier (Lacks b'.') ws
      λ w h. identifier-Lacks b'.' w (omega arith) (omega arith) h.chars

-- `parse_version_and_pre` by what it finds at the first dash.
version_and_pre-plain :
    (s : Bytes) → cut b'-' s ≡ none → parse_version_and_pre s ≡ parse_core (split b'.' s) []
unfolding parse_version_and_pre
version_and_pre-plain s e = rw (e, parse_version_and_pre)

version_and_pre-dash :
    (s core prerelease : Bytes)
    → cut b'-' s ≡ some (core, prerelease)
    → parse_version_and_pre s ≡ (
        if valid_identifiers prerelease true
        then parse_core (split b'.' core) (split b'.' prerelease)
        else none)
unfolding parse_version_and_pre
version_and_pre-dash s core prerelease e = rw (e, parse_version_and_pre)

-- The core with its pre-release, read back.
pub version_and_pre_complete :
    (t : VersionText) (v : SemanticVersion) (pre : List Bytes)
    → t.pre ≡ pre
    → Denotes t v
    → parse_version_and_pre (core_text t ++ tagged b'-' pre) ≡ some v
version_and_pre_complete t v [] e d =
    ap parse_version_and_pre (append-nil (core_text t))
    ∙ version_and_pre-plain _
        (cut-Lacks b'-' _ (core_text-Lacks b'-' t v (omega arith) (omega arith) d))
    ∙ ap (λ ws. parse_core ws []) (split-core_text t v d)
    ∙ ap (parse_core _) (sym (d.pre_eq ∙ e))
    ∙ parse_core_complete _ _ _ v d.major d.minor d.patch
version_and_pre_complete t v (w ∷ ws) e d =
    let pres : All IsPreIdentifier (w ∷ ws) = subst (All IsPreIdentifier) e d.pre in
    let valid : valid_identifiers (join b'.' (w ∷ ws)) true ≡ true =
      valid_identifiers_complete IsPreIdentifier true w ws pres.0.ne_nil
        (pre-Lacks_dot (w ∷ ws) pres) (λ u h. (valid_identifier-pre_iff u).1 h) pres in
    version_and_pre-dash _ (core_text t) (join b'.' (w ∷ ws))
      (cut-append b'-' _ _ (core_text-Lacks b'-' t v (omega arith) (omega arith) d))
    ∙ rw valid (
        ap (λ us. parse_core us (split b'.' (join b'.' (w ∷ ws)))) (split-core_text t v d)
        ∙ ap (parse_core _)
            (split-join b'.' w ws (pre-Lacks_dot (w ∷ ws) pres) ∙ sym (d.pre_eq ∙ e))
        ∙ parse_core_complete _ _ _ v d.major d.minor d.patch)

pub tagged-split : (mark : ℕ) (s : Bytes) → tagged mark (split b'.' s) ≡ mark ∷ s
tagged-split mark s =
    let (w, ws, p) = split-ne-nil b'.' s in
    rw p (ap (◌∷◌ mark) (ap (join b'.') (sym p) ∙ join-split b'.' s))

-- What is read before a plus sign is a core with its pre-release.
pub version_and_pre_sound :
    (s : Bytes) (v : SemanticVersion)
    → parse_version_and_pre s ≡ some v
    → (t : VersionText) × (s ≡ core_text t ++ tagged b'-' t.pre) × Denotes t v × (t.build ≡ [])
version_and_pre_sound s v h = elim (Option-cases (cut b'-' s)) [
  | inl e ↦
      let (a, b, c, ws, ha, hb, hc, hp) =
        parse_core_sound (split b'.' s) [] v (sym (version_and_pre-plain s e) ∙ h) in
      (
        record { major = a; minor = b; patch = c; pre = []; build = [] },
        sym (join-split b'.' s) ∙ ap (join b'.') ws ∙ sym (append-nil _),
        record { major = ha; minor = hb; patch = hc; pre = tt; pre_eq = hp; build = tt },
        refl,
      )
  | inr ((core, prerelease), e) ↦ elim (Bool-cases (valid_identifiers prerelease true)) [
    | inl f ↦
        let (a, b, c, ws, ha, hb, hc, hp) =
          parse_core_sound (split b'.' core) (split b'.' prerelease) v
            (ground (arith, version_and_pre-dash s core prerelease e)) in
        (
          record { major = a; minor = b; patch = c; pre = split b'.' prerelease; build = [] },
          (cut-some b'-' s core prerelease e).0
              ∙ ap₂ ◌++◌ (sym (join-split b'.' core) ∙ ap (join b'.') ws)
                  (sym (tagged-split b'-' prerelease)),
          record {
            major = ha;
            minor = hb;
            patch = hc;
            pre =
                valid_identifiers_sound IsPreIdentifier true prerelease
                  (λ w. (valid_identifier-pre_iff w).0) f;
            pre_eq = hp;
            build = tt;
          },
          refl,
        )
    | inr f ↦ absurd (ground (arith, version_and_pre-dash s core prerelease e))
  ]
]
