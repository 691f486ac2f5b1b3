-- ===== src/Archive/Provider.antt =====
-- registry-server/archive_validation.go: `validateProviderArchive`. The ZIP reader is a parameter:
-- it yields the entries, and for each of them what reading it gives.
use terraform_registry.Base.Int.{ℤ}
use terraform_registry.Base.{
  ℕ, ◌+◌, ◌-◌, ◌^◌, ◌%◌, Bool, false, not, ◌&&◌, ◌||◌, Option, none, some, List, [], ◌∷◌, ◌++◌,
  if◌then◌else◌, ltb, ◌==◌,
}
use terraform_registry.Text.{Bytes, codes}
use terraform_registry.Paths.{path_base}
use terraform_registry.Archive.Names.{
  archive_path_safe, expanded_archive_limit, provider_binary_name_matches,
}

-- An entry of the ZIP: its name and mode, its declared size (64 bits), and whether it opens, how many
-- bytes are copied from it (`none` if the copy fails), and whether it closes without an error.
pub record ZipEntry : Type 0 where
  pub name : Bytes
  pub is_symlink : Bool
  pub is_regular : Bool
  pub is_dir : Bool
  pub size : ℕ
  pub opens : Bool
  pub copied : Option ℕ
  pub closes : Bool

pub data ArchiveError : Type 0 where
  not_an_archive unsafe_path unsupported_entry expanded_size : ArchiveError
  entry_open entry_copy entry_close entry_size missing_content trailer : ArchiveError

-- The variables of the loop.
pub record Progress : Type 0 where
  pub expanded : ℕ
  pub found : Bool

pub data Outcome : Type 0 where
  accepted : Progress → Outcome
  rejected : ArchiveError → Outcome

-- `uint64(limit-expanded)`, a difference of signed integers that is converted
abbrev pub remaining : ℕ → ℕ → ℕ
remaining limit expanded = (limit + 2 ^ 64 - expanded) % 2 ^ 64

-- the copy of an entry and the tests behind it
unfoldable pub read_entry : ZipEntry → Option ArchiveError
read_entry e = if not e.opens then some entry_open else elim e.copied [
  | none ↦ some entry_copy
  | some written ↦
      if not e.closes then some entry_close else if written == e.size then none else some entry_size
]

-- one round of the loop over the entries
unfoldable pub check_entry : Bytes → ℕ → Progress → ZipEntry → Outcome
check_entry binary_prefix limit p e =
    if not (archive_path_safe e.name)
    then rejected unsafe_path
    else if e.is_symlink || not e.is_regular && not e.is_dir
    then rejected unsupported_entry
    else if e.is_dir
    then accepted p
    else if ltb (remaining limit p.expanded) e.size
    then rejected expanded_size
    else elim (read_entry e) [
      | some x ↦ rejected x
      | none ↦ accepted (record {
        expanded = p.expanded + e.size;
        found = provider_binary_name_matches (path_base e.name) binary_prefix || p.found;
      })
    ]

unfoldable pub check_entries : Bytes → ℕ → Progress → List ZipEntry → Outcome
check_entries binary_prefix limit p [] = accepted p
check_entries binary_prefix limit p (e ∷ es) = elim (check_entry binary_prefix limit p e) [
  | rejected x ↦ rejected x
  | accepted p' ↦ check_entries binary_prefix limit p' es
]

-- the test behind the loop
unfoldable pub has_binary : Outcome → Option ArchiveError
has_binary (rejected x) = some x
has_binary (accepted p) = if p.found then none else some missing_content

-- `validateProviderArchive`, over what `zip.NewReader` returns; `none` is acceptance.
unfoldable pub validate_provider_archive : Option (List ZipEntry) → Bytes → ℤ → Option ArchiveError
unfolding has_binary
validate_provider_archive none provider_name upload_limit = some not_an_archive
validate_provider_archive (some entries) provider_name upload_limit = has_binary (
    check_entries (codes "terraform-provider-" ++ provider_name)
      (expanded_archive_limit upload_limit) (record { expanded = 0; found = false }) entries)
