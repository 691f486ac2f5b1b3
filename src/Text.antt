-- ===== src/Text.antt =====
-- Go strings as lists of bytes, and the functions of the standard packages `strings` and `strconv`
-- that the registry calls.
pub mod Laws
pub mod Compare
use Prim.Native.Char.{code}
use Prim.Native.String.{String}
use terraform_registry.Base.{
  ℕ, suc, ◌+◌, ◌-◌, ◌*◌, ◌^◌, Bool, true, false, ◌&&◌, Option, none, some, List, [], ◌∷◌, ◌++◌,
  Ordering, lt, eq, gt, compare, ltb, leb, ◌==◌, if◌then◌else◌, length, is_nil, all,
}

abbrev pub Bytes : Type 0
Bytes = List ℕ

-- The bytes of an ASCII literal.
abbrev pub codes : String → Bytes
codes String.[] = []
codes (String.◌∷◌ c s) = code c ∷ codes s

-- Equality of two strings, `a == b`.
unfoldable pub text_eq : Bytes → Bytes → Bool
text_eq [] [] = true
text_eq (x ∷ xs) (y ∷ ys) = x == y && text_eq xs ys
text_eq _ _ = false

-- `strings.HasPrefix(s, prefix)`
unfoldable pub has_prefix : Bytes → Bytes → Bool
has_prefix s [] = true
has_prefix [] (p ∷ ps) = false
has_prefix (c ∷ s) (p ∷ ps) = c == p && has_prefix s ps

-- `strings.CutPrefix(s, prefix)`: what follows the prefix, if it is there
unfoldable pub cut_prefix : Bytes → Bytes → Option Bytes
cut_prefix s [] = some s
cut_prefix [] (p ∷ ps) = none
cut_prefix (c ∷ s) (p ∷ ps) = if c == p then cut_prefix s ps else none

-- `strings.TrimPrefix(s, prefix)`
unfoldable pub trim_prefix : Bytes → Bytes → Bytes
unfolding cut_prefix
trim_prefix s p = elim (cut_prefix s p) [ some rest ↦ rest | none ↦ s ]

-- `strings.HasSuffix(s, suffix)`
unfoldable pub has_suffix : Bytes → Bytes → Bool
unfolding text_eq
has_suffix [] suffix = text_eq [] suffix
has_suffix (c ∷ s) suffix = if text_eq (c ∷ s) suffix then true else has_suffix s suffix

-- `strings.TrimSuffix(s, suffix)`
unfoldable pub trim_suffix : Bytes → Bytes → Bytes
unfolding text_eq
trim_suffix [] suffix = []
trim_suffix (c ∷ s) suffix =
    let rest = trim_suffix s suffix in if text_eq (c ∷ s) suffix then [] else c ∷ rest

-- `strings.TrimLeft(s, cutset)` and `strings.TrimRight(s, cutset)` for a cutset of one byte
unfoldable pub trim_left : ℕ → Bytes → Bytes
trim_left c [] = []
trim_left c (x ∷ s) = let rest = trim_left c s in if x == c then rest else x ∷ s

unfoldable pub trim_right : ℕ → Bytes → Bytes
trim_right c [] = []
trim_right c (x ∷ s) = let rest = trim_right c s in if is_nil rest && x == c then [] else x ∷ rest

-- `strings.Trim(s, cutset)` for a cutset of one byte
unfoldable pub trim : ℕ → Bytes → Bytes
unfolding trim_left trim_right
trim c s = trim_right c (trim_left c s)

-- `strings.Contains(s, needle)`
unfoldable pub contains : Bytes → Bytes → Bool
unfolding has_prefix
contains [] needle = has_prefix [] needle
contains (c ∷ s) needle = if has_prefix (c ∷ s) needle then true else contains s needle

-- `strings.Cut(s, sep)` for a separator of one byte: `some (before, after)` if it was found.
unfoldable pub cut : ℕ → Bytes → Option (Bytes × Bytes)
cut sep [] = none
cut sep (c ∷ s) =
    if c == sep
    then some ([], s)
    else elim (cut sep s) [ none ↦ none | some (before, after) ↦ some (c ∷ before, after) ]

-- `strings.Cut(s, sep)` for any separator that is not empty
unfoldable pub cut_text : Bytes → Bytes → Option (Bytes × Bytes)
unfolding cut_prefix
cut_text sep [] = none
cut_text sep (c ∷ s) = elim (cut_prefix (c ∷ s) sep) [
  | some after ↦ some ([], after)
  | none ↦ elim (cut_text sep s) [ none ↦ none | some (before, after) ↦ some (c ∷ before, after) ]
]

-- A byte in front of the first part.
abbrev pub onto_first : ℕ → List Bytes → List Bytes
onto_first c [] = (c ∷ []) ∷ []
onto_first c (w ∷ ws) = (c ∷ w) ∷ ws

-- `strings.Split(s, sep)` for a separator of one byte
unfoldable pub split : ℕ → Bytes → List Bytes
split sep [] = [] ∷ []
split sep (c ∷ s) = let rest = split sep s in if c == sep then [] ∷ rest else onto_first c rest

-- `strings.Join(parts, sep)` for a separator of one byte
unfoldable pub join : ℕ → List Bytes → Bytes
join sep [] = []
join sep (w ∷ []) = w
join sep (w ∷ v ∷ vs) = w ++ (sep ∷ join sep (v ∷ vs))

-- One comparison, and the next if that was equal.
abbrev pub then_by : Ordering → Ordering → Ordering
then_by eq o = o
then_by o _ = o

-- Lists by their first difference; a list comes before its own extensions.
unfoldable pub compare_list {ℓ} : {A : Type ℓ} → (A → A → Ordering) → List A → List A → Ordering
compare_list c [] [] = eq
compare_list c [] (y ∷ ys) = lt
compare_list c (x ∷ xs) [] = gt
compare_list c (x ∷ xs) (y ∷ ys) = then_by (c x y) (compare_list c xs ys)

-- `strings.Compare(a, b)`: `lt`, `eq` and `gt` stand for -1, 0 and 1.
unfoldable pub compare_text : Bytes → Bytes → Ordering
unfolding compare_list
compare_text a b = compare_list compare a b

unfoldable pub is_digit : ℕ → Bool
is_digit c = leb b'0' c && leb c b'9'

-- The number that a string of digits stands for, read after `n`.
unfoldable pub digits_value : ℕ → Bytes → ℕ
digits_value n [] = n
digits_value n (c ∷ s) = digits_value (n * 10 + (c - b'0')) s

-- `strconv.ParseUint(s, 10, 64)`: a syntax error and an overflow are both `none`.
unfoldable pub parse_uint : Bytes → Option ℕ
parse_uint [] = none
parse_uint (c ∷ s) =
    if all is_digit (c ∷ s)
    then if ltb (digits_value 0 (c ∷ s)) (2 ^ 64) then some (digits_value 0 (c ∷ s)) else none
    else none
