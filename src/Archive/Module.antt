-- ===== src/Archive/Module.antt =====
-- registry-server/archive_validation.go: `validateModuleArchive`. The gzip and tar readers are
-- parameters: they yield the headers up to the end of the archive or to an error.
use terraform_registry.Base.Int.{ℤ, out_of_range, int_is}
use terraform_registry.Base.{
  ℕ, ◌-◌, Bool, false, not, ◌||◌, Option, none, some, List, [], ◌∷◌, if◌then◌else◌,
}
use terraform_registry.Text.{Bytes, codes, has_suffix}
use terraform_registry.Paths.{path_base}
use terraform_registry.Archive.Names.{archive_path_safe, expanded_archive_limit}
use terraform_registry.Archive.Provider.{
  ArchiveError, not_an_archive, unsafe_path, unsupported_entry, expanded_size, entry_copy,
  missing_content, trailer,
}

pub data Typeflag : Type 0 where
  directory regular other : Typeflag

-- A header of the tar file, and how many bytes are copied of what follows (`none` if that fails).
pub record TarHeader : Type 0 where
  pub name : Bytes
  pub typeflag : Typeflag
  pub size : ℤ
  pub copied : Option ℕ

-- What the readers deliver: the headers, whether `Next` then fails in place of reaching the end,
-- and whether the rest of the compressed stream reads and closes without an error.
pub record TarStream : Type 0 where
  pub headers : List TarHeader
  pub fails : Bool
  pub trailer_reads : Bool
  pub closes : Bool

-- The variables of the loop.
pub record TarProgress : Type 0 where
  pub remaining : ℕ
  pub found : Bool

pub data TarOutcome : Type 0 where
  accepted : TarProgress → TarOutcome
  rejected : ArchiveError → TarOutcome

-- a regular file: its size against what remains, and the copy of its content
unfoldable pub check_regular : TarProgress → TarHeader → TarOutcome
check_regular p h =
    if out_of_range h.size p.remaining then rejected expanded_size else elim h.copied [
      | none ↦ rejected entry_copy
      | some written ↦
          if int_is written h.size
          then accepted (record {
            remaining = p.remaining - written;
            found =
                has_suffix (path_base h.name) (codes ".tf")
                || has_suffix (path_base h.name) (codes ".tf.json")
                || p.found;
          })
          else rejected entry_copy
    ]

-- the `switch` over the type of the entry
unfoldable pub check_type : Typeflag → TarProgress → TarHeader → TarOutcome
check_type directory p h = accepted p
check_type regular p h = check_regular p h
check_type other p h = rejected unsupported_entry

-- one round of the loop
unfoldable pub check_header : TarProgress → TarHeader → TarOutcome
check_header p h =
    if not (archive_path_safe h.name) then rejected unsafe_path else check_type h.typeflag p h

unfoldable pub check_headers : TarProgress → List TarHeader → TarOutcome
check_headers p [] = accepted p
check_headers p (h ∷ hs) = elim (check_header p h) [
  | rejected x ↦ rejected x
  | accepted p' ↦ check_headers p' hs
]

-- the tests behind the loop
unfoldable pub finish_module : TarStream → TarOutcome → Option ArchiveError
finish_module s (rejected x) = some x
finish_module s (accepted p) =
    if s.fails
    then some not_an_archive
    else if not s.trailer_reads
    then some trailer
    else if not s.closes
    then some not_an_archive
    else if p.found
    then none
    else some missing_content

-- `validateModuleArchive`, over what `gzip.NewReader` and the tar reader deliver
unfoldable pub validate_module_archive : Option TarStream → ℤ → Option ArchiveError
unfolding finish_module
validate_module_archive none upload_limit = some not_an_archive
validate_module_archive (some s) upload_limit = finish_module s (
    check_headers (record { remaining = expanded_archive_limit upload_limit; found = false })
      s.headers)
