-- ===== src/Signing.antt =====
-- registry-server/signing.go: the checksums of a provider version and their signature, over the files.
-- `signer` is the registry's OpenPGP key, if there is one, which signs bytes or fails; `sort_slice`
-- is the function of the package sort; `decode` reads the JSON form of a platform.
pub mod Listed
pub mod Signed
pub mod Tests
use terraform_registry.Base.{
  ℕ, Bool, true, false, Option, none, some, List, [], ◌∷◌, ◌++◌, if◌then◌else◌, ◌&&◌,
}
use terraform_registry.Text.{Bytes, codes, compare_text, trim_suffix, trim_prefix}
use terraform_registry.Base.{lt, eq, gt}
use terraform_registry.Protocol.Reader.{PlatformMeta, Reader, path_of, get_provider_platforms}
use terraform_registry.Protocol.Providers.{provider_checksums_names}
use terraform_registry.Disk.{
  Files, Error, io, not_exist, unavailable, M, ◌>>=◌, ◌>>◌, return, stop, World, Result, done,
  fails, attempt,
}
use terraform_registry.Storage.Writes.{put}
use terraform_registry.Storage.Listing.{disk_reader, list_prefixes}
use terraform_registry.Upload.{scan_provider_versions}

-- `checksumEntry`
pub record ChecksumEntry : Type 0 where
  pub filename : Bytes
  pub checksum : Bytes

-- the order of the entries
unfoldable pub has_less_name : ChecksumEntry → ChecksumEntry → Bool
has_less_name x y = elim (compare_text x.filename y.filename) [
  | lt ↦ true
  | eq ↦ false
  | gt ↦ false
]

-- the lines that are signed
unfoldable pub checksum_lines : List ChecksumEntry → Bytes
checksum_lines [] = []
checksum_lines (e ∷ es) = e.checksum ++ codes "  " ++ e.filename ++ (10 ∷ []) ++ checksum_lines es

-- the loop over the platforms: the artifacts that are there
unfoldable pub present : (Bytes → Bool) → Bytes → List PlatformMeta → List ChecksumEntry
present exists prefix [] = []
present exists prefix (p ∷ ps) =
    let rest = present exists prefix ps in
    if exists (prefix ++ p.filename)
    then record { filename = p.filename; checksum = p.shasum } ∷ rest
    else rest

-- the prefix of the keys of a version
abbrev pub version_prefix : Bytes → Bytes → Bytes → Bytes
version_prefix namespace name version =
    path_of (codes "providers" ∷ namespace ∷ name ∷ version ∷ [] ∷ [])

abbrev pub checksums_key : Bytes → Bytes → Bytes → Bytes
checksums_key namespace name version =
    version_prefix namespace name version ++ (provider_checksums_names name version).0

abbrev pub signature_key : Bytes → Bytes → Bytes → Bytes
signature_key namespace name version =
    version_prefix namespace name version ++ (provider_checksums_names name version).1

-- What is read of the files.
abbrev pub of_files : {A : Type 0} → (Files → A) → M A
of_files g w = (done (g w.files), w)

abbrev pub or_stop : {A : Type 0} → Error → Option A → M A
or_stop e none = stop e
or_stop e (some a) = return a

module _ (link_escapes : Bytes → Bool) (suffix : Bytes → Files → Bytes)
    (decode : Bytes → Option PlatformMeta)
    (sort_slice : (ChecksumEntry → ChecksumEntry → Bool) → List ChecksumEntry → List ChecksumEntry)
    (signer : Option (Bytes → Option Bytes)) where
  abbrev pub reader : Files → Reader
  reader = disk_reader link_escapes [] (λ t. none) (λ t. none) decode (λ t. none)

  -- the entries of a version, in the order of its platforms
  unfoldable pub entries_of_version : Bytes → Bytes → Bytes → Files → Option (List ChecksumEntry)
  entries_of_version namespace name version f =
      elim (get_provider_platforms (reader f) namespace name version) [
        | none ↦ none
        | some platforms ↦
            some (present (reader f).exists (version_prefix namespace name version) platforms)
      ]

  -- the bytes of `SHA256SUMS`
  unfoldable pub checksums_of : List ChecksumEntry → M Bytes
  checksums_of [] = stop not_exist
  checksums_of (e ∷ es) = return (checksum_lines (sort_slice has_less_name (e ∷ es)))

  -- `rebuildProviderChecksums`
  unfoldable pub rebuild_provider_checksums : Bytes → Bytes → Bytes → M (Unit {0})
  rebuild_provider_checksums namespace name version = do
    sign ← or_stop unavailable signer
    found_entries ← of_files (entries_of_version namespace name version)
    entries ← or_stop io found_entries
    checksums ← checksums_of entries
    signature ← or_stop io (sign checksums)
    put link_escapes suffix (checksums_key namespace name version) checksums
    put link_escapes suffix (signature_key namespace name version) signature

  -- the name in `prefix` of a directory that `List` found
  abbrev name_in : Bytes → Bytes → Bytes
  name_in prefix p = trim_suffix (trim_prefix p prefix) (codes "/")

  abbrev went_well : Result (Unit {0}) → Bool
  went_well (done u) = true
  went_well (fails e) = false

  -- the loop over the versions of a provider: whether there was no failure
  unfoldable pub rebuild_versions : Bytes → Bytes → List Bytes → M Bool
  rebuild_versions namespace name [] = return true
  rebuild_versions namespace name (v ∷ vs) = do
    r ← attempt (rebuild_provider_checksums namespace name v)
    rest ← rebuild_versions namespace name vs
    return (went_well r && rest)

  unfoldable pub rebuild_scanned : Bytes → Bytes → Option (List Bytes) → M Bool
  rebuild_scanned namespace name none = return false
  rebuild_scanned namespace name (some versions) = rebuild_versions namespace name versions

  -- the loop over the providers of a namespace
  unfoldable pub rebuild_providers : Bytes → Bytes → List Bytes → M Bool
  rebuild_providers namespace_prefix namespace [] = return true
  rebuild_providers namespace_prefix namespace (p ∷ ps) = do
    let name = name_in namespace_prefix p
    versions ← of_files (λ f.
        scan_provider_versions
          (list_prefixes link_escapes f (path_of (codes "providers" ∷ namespace ∷ name ∷ [] ∷ []))))
    ok ← rebuild_scanned namespace name versions
    rest ← rebuild_providers namespace_prefix namespace ps
    return (ok && rest)

  unfoldable pub rebuild_listed : Bytes → Bytes → Option (List Bytes) → M Bool
  rebuild_listed namespace_prefix namespace none = return false
  rebuild_listed namespace_prefix namespace (some providers) =
      rebuild_providers namespace_prefix namespace providers

  -- the loop over the namespaces
  unfoldable pub rebuild_namespaces : List Bytes → M Bool
  rebuild_namespaces [] = return true
  rebuild_namespaces (p ∷ ps) = do
    found_providers ← of_files (λ f. list_prefixes link_escapes f p)
    ok ← rebuild_listed p (name_in (codes "providers/") p) found_providers
    rest ← rebuild_namespaces ps
    return (ok && rest)

  -- `rebuildAllProviderChecksums`: an error, if one of the versions fails
  unfoldable pub rebuild_all_provider_checksums : M (Unit {0})
  rebuild_all_provider_checksums = do
    found_namespaces ← of_files (λ f. list_prefixes link_escapes f (codes "providers/"))
    namespaces ← or_stop io found_namespaces
    ok ← rebuild_namespaces namespaces
    if ok then return tt else stop io
