-- ===== src/Regex.antt =====
-- The part of the Go package `regexp` that registry-server/validation.go and cmd/tfreg/import.go
-- use: anchored patterns of character classes with greedy repetition, an optional part and capture
-- groups. `find` takes the branches in the order of the package (leftmost, first), and returns the
-- captures of the first match.
pub mod Sound
use terraform_registry.Base.{
  ℕ, zero, suc, Bool, true, false, Option, none, some, List, [], ◌∷◌, ◌++◌, if◌then◌else◌, ◌==◌,
}
use terraform_registry.Text.{Bytes}

-- A pattern with what follows it. `star c r` is `c*`, `upto n c r` is `c{0,n}` and `exactly n c r`
-- is `c{n}`; `maybe p r` is the optional part of `p` (which ends in `r` too), or `r` alone;
-- `open_group r` and `close_group r` are the ends of a capture group.
pub data Regex : Type 0 where
  done : Regex
  one : (ℕ → Bool) → Regex → Regex
  star : (ℕ → Bool) → Regex → Regex
  upto : ℕ → (ℕ → Bool) → Regex → Regex
  exactly : ℕ → (ℕ → Bool) → Regex → Regex
  maybe : Regex → Regex → Regex
  open_group : Regex → Regex
  close_group : Regex → Regex

-- A literal text
abbrev pub literal : Bytes → Regex → Regex
literal [] r = r
literal (c ∷ s) r = one (λ b. b == c) (literal s r)

abbrev pub Captures : Type 0
Captures = List Bytes

abbrev pub or_else : Option Captures → Option Captures → Option Captures
or_else (some x) m = some x
or_else none m = m

-- What is left to match, given what the open group has taken and the text that is left.
abbrev pub Rest : Type 0
Rest = Bytes → Bytes → Option Captures

unfoldable pub one_then : (ℕ → Bool) → Rest → Rest
one_then p k taken [] = none
one_then p k taken (c ∷ s) = if p c then k (taken ++ c ∷ []) s else none

-- Greedy: another round is tried first.
unfoldable pub star_then : (ℕ → Bool) → Rest → Rest
star_then p k taken [] = k taken []
star_then p k taken (c ∷ s) =
    let more = star_then p k (taken ++ c ∷ []) s in
    if p c then or_else more (k taken (c ∷ s)) else k taken (c ∷ s)

unfoldable pub upto_then : ℕ → (ℕ → Bool) → Rest → Rest
upto_then zero p k taken s = k taken s
upto_then (suc n) p k taken [] = k taken []
upto_then (suc n) p k taken (c ∷ s) =
    let more = upto_then n p k (taken ++ c ∷ []) s in
    if p c then or_else more (k taken (c ∷ s)) else k taken (c ∷ s)

unfoldable pub exactly_then : ℕ → (ℕ → Bool) → Rest → Rest
exactly_then zero p k taken s = k taken s
exactly_then (suc n) p k taken [] = none
exactly_then (suc n) p k taken (c ∷ s) =
    let more = exactly_then n p k (taken ++ c ∷ []) s in if p c then more else none

abbrev pub with_capture : Bytes → Option Captures → Option Captures
with_capture taken none = none
with_capture taken (some caps) = some (taken ∷ caps)

unfoldable pub find : Regex → Rest
unfolding one_then star_then upto_then exactly_then
find done taken [] = some []
find done taken (c ∷ s) = none
find (one p r) taken s = one_then p (find r) taken s
find (star p r) taken s = star_then p (find r) taken s
find (upto n p r) taken s = upto_then n p (find r) taken s
find (exactly n p r) taken s = exactly_then n p (find r) taken s
find (maybe p r) taken s = or_else (find p taken s) (find r taken s)
find (open_group r) taken s = find r [] s
find (close_group r) taken s = with_capture taken (find r [] s)

-- `FindStringSubmatch` without its first element, which is the whole text
unfoldable pub submatches : Regex → Bytes → Option Captures
submatches r s = find r [] s

-- `MatchString`
unfoldable pub match_string : Regex → Bytes → Bool
unfolding submatches
match_string r s = elim (submatches r s) [ some _ ↦ true | none ↦ false ]
