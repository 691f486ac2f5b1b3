-- ===== src/Validation/Routes.antt =====
-- What `routeValidationMiddleware` lets through.
use mathlib.Core.Logic.Or
use mathlib.Core.List.{Mem, mem-cons, mem-cons_self, mem-cons_of_mem, not-mem-nil}
use mathlib.Core.Bool.{Bool-set}
use terraform_registry.Base.{
  Bool, true, false, Bool-cases, Option-cases, ◌||◌, none, sym, subst, ◌≡◌, ◌↔◌, inl, inr, refl, ap,
  ap₂, ◌∙◌, arith, List, [], ◌∷◌,
}
use terraform_registry.Text.{Bytes, codes, text_eq}
use terraform_registry.Text.Laws.{text_eq_iff}
use terraform_registry.Validation.{is_name_key, valid_route_var, route_validation}
use terraform_registry.Validation.Names.{IsName, valid_artifact_name_iff}
use terraform_registry.Validation.Hosts.{IsHostname, valid_hostname_iff}
use terraform_registry.Semver.{SemanticVersion, parse_semantic_version, valid_version}
use terraform_registry.Semver.Grammar.{VersionText, render, Denotes}
use terraform_registry.Semver.Accept.{parse_iff}

-- The key is one of those that name a part of an address.
pub data NamesPart : Bytes → Type 0 where
  namespace : NamesPart (codes "namespace")
  name : NamesPart (codes "name")
  type_name : NamesPart (codes "type")
  provider : NamesPart (codes "provider")
  os : NamesPart (codes "os")
  arch : NamesPart (codes "arch")

-- The text is one of the grammar of semantic versions.
abbrev IsVersion : Bytes → Type 0
IsVersion v = (t : VersionText) × (version : SemanticVersion) × (v ≡ render t) × Denotes t version

-- Variables that name a part of an address are names, and `version` and `hostname` hold such.
pub record IsAllowed (key value : Bytes) : Type 0 where
  pub names : NamesPart key → IsName value
  pub version : key ≡ codes "version" → IsVersion value
  pub hostname : key ≡ codes "hostname" → IsHostname value

valid_version_iff : (v : Bytes) → (valid_version v ≡ true) ↔ IsVersion v
unfolding valid_version
valid_version_iff v = (
  λ h. elim (Option-cases (parse_semantic_version v)) [
    | inl e ↦ absurd (ground arith)
    | inr (s, e) ↦ let (t, r, d) = (parse_iff v s).0 e in (t, s, r, d)
  ],
  λ (t, s, r, d). ground (arith, (parse_iff v s).1 (t, r, d)),
)

NamesPart-key : (k : Bytes) → NamesPart k → is_name_key k ≡ true
unfolding is_name_key text_eq
NamesPart-key _ namespace = refl
NamesPart-key _ name = refl
NamesPart-key _ type_name = refl
NamesPart-key _ provider = refl
NamesPart-key _ os = refl
NamesPart-key _ arch = refl

key-NamesPart : (k : Bytes) → is_name_key k ≡ true → NamesPart k
unfolding is_name_key
key-NamesPart k h =
    go (text_eq k (codes "namespace")) (text_eq k (codes "name")) (text_eq k (codes "type"))
      (text_eq k (codes "provider")) (text_eq k (codes "os")) (text_eq k (codes "arch")) refl refl
      refl refl refl refl h
  where
    is : (s : Bytes) → text_eq k s ≡ true → NamesPart s → NamesPart k
    is s e n = subst NamesPart (sym ((text_eq_iff k s).0 e)) n

    go :
        (a b c d e f : Bool)
        → text_eq k (codes "namespace") ≡ a
        → text_eq k (codes "name") ≡ b
        → text_eq k (codes "type") ≡ c
        → text_eq k (codes "provider") ≡ d
        → text_eq k (codes "os") ≡ e
        → text_eq k (codes "arch") ≡ f
        → (a || b || c || d || e || f) ≡ true
        → NamesPart k
    go true b c d e f p q r s t u h = is _ p namespace
    go false true c d e f p q r s t u h = is _ q name
    go false false true d e f p q r s t u h = is _ r type_name
    go false false false true e f p q r s t u h = is _ s provider
    go false false false false true f p q r s t u h = is _ t os
    go false false false false false true p q r s t u h = is _ u arch
    go false false false false false false p q r s t u h = absurd (ground arith)

valid_route_var_iff : (k v : Bytes) → (valid_route_var k v ≡ true) ↔ IsAllowed k v
unfolding valid_route_var is_name_key text_eq
valid_route_var_iff k v = (
  λ h. record {
    names = λ e. (valid_artifact_name_iff v).0 (ground (arith, NamesPart-key k e));
    version = λ e. (valid_version_iff v).0 (rw e at h);
    hostname = λ e. (valid_hostname_iff v).0 (rw e at h);
  },
  λ a. elim (Bool-cases (is_name_key k)) [
    | inl e ↦ ground (arith, (valid_artifact_name_iff v).1 (a.names (key-NamesPart k e)))
    | inr e ↦ elim (Bool-cases (text_eq k (codes "version"))) [
      | inl f ↦
          ground
            (arith, (valid_version_iff v).1 (a.version ((text_eq_iff k (codes "version")).0 f)))
      | inr f ↦ elim (Bool-cases (text_eq k (codes "hostname"))) [
        | inl g ↦
            ground (
              arith,
              (valid_hostname_iff v).1 (a.hostname ((text_eq_iff k (codes "hostname")).0 g)),
            )
        | inr g ↦ ground arith
      ]
    ]
  ],
)

all_valid→none :
    (vars : List (Bytes × Bytes))
    → ((var : Bytes × Bytes) → Mem var vars → valid_route_var var.0 var.1 ≡ true)
    → route_validation vars ≡ none
unfolding route_validation
all_valid→none [] h = refl
all_valid→none ((k, v) ∷ vars) h =
    rw (h (k, v) mem-cons_self) (all_valid→none vars λ var m. h var (mem-cons_of_mem (k, v) m))

none→all_valid :
    (vars : List (Bytes × Bytes))
    → route_validation vars ≡ none
    → (var : Bytes × Bytes) → Mem var vars
    → valid_route_var var.0 var.1 ≡ true
unfolding route_validation
none→all_valid [] h var m = absurd (not-mem-nil m)
none→all_valid ((k, v) ∷ vars) h var m = elim (Bool-cases (valid_route_var k v)) [
  | inl e ↦
      let later : route_validation vars ≡ none = rw e at h in
      Or.elim (Bool-set _ _) (mem-cons.0 m)
        (λ p.
          ap₂ valid_route_var (ap (λ (x : Bytes × Bytes). x.0) p)
            (ap (λ (x : Bytes × Bytes). x.1) p)
          ∙ e)
        (none→all_valid vars later var)
  | inr e ↦ absurd (ground arith)
]

-- A request passes the validation exactly if each of its route variables is allowed: `namespace`,
-- `name`, `type`, `provider`, `os` and `arch` are names, `version` is a semantic version and `hostname`
-- a host name.
pub route_validation_iff :
    (vars : List (Bytes × Bytes))
    → (route_validation vars ≡ none)
      ↔ ((var : Bytes × Bytes) → Mem var vars → IsAllowed var.0 var.1)
route_validation_iff vars = (
  λ h var m. (valid_route_var_iff var.0 var.1).0 (none→all_valid vars h var m),
  λ a. all_valid→none vars λ var m. (valid_route_var_iff var.0 var.1).1 (a var m),
)
