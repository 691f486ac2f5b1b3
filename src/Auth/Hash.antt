-- ===== src/Auth/Hash.antt =====
-- `strings.ToLower(strings.TrimSpace(hash))` and the test of a stored hash.
use mathlib.Core.List.{reverse}
use terraform_registry.Base.{
  ℕ, zero, suc, ◌+◌, Bool, ◌&&◌, ◌||◌, [], ◌∷◌, leb, ◌==◌, if◌then◌else◌, all, length,
}
use terraform_registry.Text.{Bytes}
use terraform_registry.Validation.{is_hex}

-- the white space of ASCII
unfoldable pub is_ascii_space : ℕ → Bool
is_ascii_space c = leb 9 c && leb c 13 || c == 32

-- three bytes that encode a space beyond U+0100
unfoldable pub is_wide_space : ℕ → ℕ → ℕ → Bool
is_wide_space a b c =
    a == 0xe1 && b == 0x9a && c == 0x80
    || a == 0xe2 && b == 0x80 && (leb 0x80 c && leb c 0x8a || c == 0xa8 || c == 0xa9 || c == 0xaf)
    || a == 0xe2 && b == 0x81 && c == 0x9f
    || a == 0xe3 && b == 0x80 && c == 0x80

-- the number of bytes after the first of the space that a text begins with, plus one; or 0
unfoldable pub space_width : Bytes → ℕ
unfolding is_ascii_space is_wide_space
space_width [] = 0
space_width (a ∷ []) = if is_ascii_space a then 1 else 0
space_width (a ∷ b ∷ []) =
    if is_ascii_space a then 1 else if a == 0xc2 && (b == 0x85 || b == 0xa0) then 2 else 0
space_width (a ∷ b ∷ c ∷ s) =
    if is_ascii_space a
    then 1
    else if a == 0xc2 && (b == 0x85 || b == 0xa0)
    then 2
    else if is_wide_space a b c
    then 3
    else 0

-- the same for the reversed text, which ends in the space
unfoldable pub space_width_back : Bytes → ℕ
unfolding is_ascii_space is_wide_space
space_width_back [] = 0
space_width_back (a ∷ []) = if is_ascii_space a then 1 else 0
space_width_back (b ∷ a ∷ []) =
    if is_ascii_space b then 1 else if a == 0xc2 && (b == 0x85 || b == 0xa0) then 2 else 0
space_width_back (c ∷ b ∷ a ∷ s) =
    if is_ascii_space c
    then 1
    else if b == 0xc2 && (c == 0x85 || c == 0xa0)
    then 2
    else if is_wide_space a b c
    then 3
    else 0

-- Drops spaces; the first argument counts the bytes of the current space that are still to drop.
unfoldable pub drop_spaces : (Bytes → ℕ) → ℕ → Bytes → Bytes
drop_spaces width n [] = []
drop_spaces width (suc n) (c ∷ s) = drop_spaces width n s
drop_spaces width zero (c ∷ s) = elim (width (c ∷ s)) [
  | zero ↦ c ∷ s
  | suc n ↦ drop_spaces width n s
]

-- `strings.TrimSpace`
unfoldable pub trim_space : Bytes → Bytes
unfolding drop_spaces space_width space_width_back
trim_space s = reverse (drop_spaces space_width_back 0 (reverse (drop_spaces space_width 0 s)))

-- `strings.ToLower` on ASCII. Other letters keep their bytes here: none of them becomes a
-- hexadecimal digit, so the text is refused either way.
unfoldable pub to_lower : Bytes → Bytes
to_lower [] = []
to_lower (c ∷ s) = (if leb b'A' c && leb c b'Z' then c + 32 else c) ∷ to_lower s

unfoldable pub normalize_hash : Bytes → Bytes
unfolding trim_space to_lower
normalize_hash h = to_lower (trim_space h)

-- `hex.DecodeString` accepts the text and returns 32 bytes. The texts here are in lower case.
unfoldable pub is_sha256_hex : Bytes → Bool
unfolding is_hex
is_sha256_hex h = all is_hex h && length h == 64
