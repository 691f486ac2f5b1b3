-- ===== src/Archive/Names.antt =====
-- registry-server/archive_validation.go: the tests of an entry's name, and the size limit.
use terraform_registry.Base.Int.{ℤ, pos, negsuc}
use terraform_registry.Base.{
  ℕ, ◌*◌, ◌/◌, ◌^◌, Bool, true, false, not, ◌&&◌, ◌||◌, none, some, ◌++◌, if◌then◌else◌, is_nil,
  ltb, leb, all,
}
use terraform_registry.Text.{
  Bytes, codes, text_eq, has_prefix, contains, trim_suffix, cut_prefix, cut_text, is_digit,
}
use terraform_registry.Paths.{dot, dot_dot, path_clean}
use terraform_registry.Semver.{valid_version}

-- `archivePathSafe`
unfoldable pub archive_path_safe : Bytes → Bool
archive_path_safe name =
    if is_nil name || contains name (codes "\\") || has_prefix name (codes "/")
    then false
    else let clean = path_clean name in
      if text_eq clean dot
      then text_eq name dot || text_eq name (codes "./")
      else not (text_eq clean dot_dot) && not (has_prefix clean (codes "../"))

-- `20 << 30`
abbrev pub max_expanded : ℕ
max_expanded = 20 * 2 ^ 30

-- `expandedArchiveLimit`
unfoldable pub expanded_archive_limit : ℤ → ℕ
expanded_archive_limit (negsuc n) = max_expanded
expanded_archive_limit (pos n) =
    if leb n 0 || ltb (max_expanded / 20) n then max_expanded else n * 20

-- the version in a binary's name, without the protocol behind `_x`
unfoldable pub binary_version_matches : Bytes → Bool
binary_version_matches version = elim (cut_text (codes "_x") version) [
  | none ↦ valid_version version
  | some (version_only, protocol) ↦
      if is_nil protocol || not (all is_digit protocol) then false else valid_version version_only
]

-- `providerBinaryNameMatches`
unfoldable pub provider_binary_name_matches : Bytes → Bytes → Bool
unfolding binary_version_matches
provider_binary_name_matches base prefix =
    let base' = trim_suffix base (codes ".exe") in
    if text_eq base' prefix then true else elim (cut_prefix base' (prefix ++ codes "_v")) [
      | none ↦ false
      | some version ↦ binary_version_matches version
    ]
