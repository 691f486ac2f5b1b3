-- ===== src/Flags.antt =====
-- cmd/tfreg/main.go: the parser of the command line's options, `flagSet`, and `envOr`.
use terraform_registry.Base.{
  Bool, true, false, Option, none, some, List, [], ◌∷◌, if◌then◌else◌, any,
}
use terraform_registry.Text.{Bytes, codes, text_eq, has_prefix, trim_prefix}

-- `envOr`, of the variable's value
unfoldable pub env_or : Bytes → Bytes → Bytes
env_or [] default_value = default_value
env_or (c ∷ v) default_value = c ∷ v

-- The options with a value and those without, by name; the descriptions are only printed.
pub record FlagSet : Type 0 where
  pub flags : List (Bytes × Bytes)
  pub bool_flags : List (Bytes × Bool)

-- How the program ends while it parses: with the status 0 after `--help`, otherwise with 2.
pub data Exit : Type 0 where
  help : Exit
  requires_value unknown_option unexpected_argument : Bytes → Exit

pub data Parsed : Type 0 where
  exits : Exit → Parsed
  parsed : FlagSet → Parsed

abbrev pub has_name : {A : Type 0} → Bytes → List (Bytes × A) → Bool
has_name {A = A} key fs = any (λ (f : Bytes × A). text_eq f.0 key) fs

-- the first entry of the name, set
unfoldable pub set_first : {A : Type 0} → Bytes → A → List (Bytes × A) → List (Bytes × A)
set_first key a [] = []
set_first key a ((n, b) ∷ fs) =
    let rest = set_first key a fs in if text_eq n key then (n, a) ∷ fs else (n, b) ∷ rest

pub data Step : Type 0 where
  stop : Exit → Step
  go : FlagSet → (takes_next : Bool) → Step

-- an option and the argument behind it
unfoldable pub option_step : FlagSet → Bytes → Option Bytes → Step
option_step fs key next =
    let fs' = record fs { bool_flags = set_first key true fs.bool_flags } in
    if text_eq key (codes "help")
    then stop help
    else if has_name key fs.flags
    then elim next [
      | none ↦ stop (requires_value key)
      | some value ↦
          if has_prefix value (codes "--")
          then stop (requires_value key)
          else go (record fs' { flags = set_first key value fs.flags }) true
    ]
    else if has_name key fs.bool_flags
    then go fs' false
    else stop (unknown_option key)

-- the first of the arguments that are no options
abbrev pub keep_first : Option Bytes → Bytes → Option Bytes
keep_first none a = some a
keep_first (some b) a = some b

unfoldable pub finish : FlagSet → Option Bytes → Parsed
finish fs none = parsed fs
finish fs (some a) = exits (unexpected_argument a)

-- `flagSet.Parse`
unfoldable pub parse : FlagSet → Option Bytes → List Bytes → Parsed
parse fs remaining [] = finish fs remaining
parse fs remaining (a ∷ []) =
    if has_prefix a (codes "--")
    then elim (option_step fs (trim_prefix a (codes "--")) none) [
      | stop x ↦ exits x
      | go fs' takes_next ↦ finish fs' remaining
    ]
    else finish fs (keep_first remaining a)
parse fs remaining (a ∷ b ∷ rest) =
    if has_prefix a (codes "--")
    then elim (option_step fs (trim_prefix a (codes "--")) (some b)) [
      | stop x ↦ exits x
      | go fs' takes_next ↦
          if takes_next then parse fs' remaining rest else parse fs' remaining (b ∷ rest)
    ]
    else parse fs (keep_first remaining a) (b ∷ rest)
