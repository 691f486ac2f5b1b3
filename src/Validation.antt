-- ===== src/Validation.antt =====
-- registry-server/validation.go: names, versions and host names of a request, and the paths that
-- the download handler serves.
pub mod Names
pub mod Hosts
pub mod Routes
pub mod Tests
use terraform_registry.Base.{
  ℕ, Bool, true, false, not, ◌&&◌, ◌||◌, Option, none, some, List, [], ◌∷◌, ◌++◌, leb, ◌==◌,
  if◌then◌else◌,
}
use terraform_registry.Text.{Bytes, codes, text_eq, contains, split, trim, is_digit}
use terraform_registry.Regex.{
  Regex, done, one, star, upto, exactly, maybe, open_group, close_group, literal, Captures,
  submatches, match_string,
}
use terraform_registry.Semver.{valid_version}

-- `[A-Za-z0-9]`
unfoldable pub is_alnum : ℕ → Bool
unfolding is_digit
is_alnum c = leb b'A' c && leb c b'Z' || leb b'a' c && leb c b'z' || is_digit c

-- `[A-Za-z0-9_-]`
unfoldable pub is_name_char : ℕ → Bool
unfolding is_alnum
is_name_char c = is_alnum c || c == b'_' || c == b'-'

-- `[A-Za-z0-9.-]`
unfoldable pub is_host_char : ℕ → Bool
unfolding is_alnum
is_host_char c = is_alnum c || c == b'.' || c == b'-'

-- `[0-9A-Za-z.+-]`
unfoldable pub is_version_char : ℕ → Bool
unfolding is_alnum
is_version_char c = is_alnum c || c == b'.' || c == b'+' || c == b'-'

-- `[a-f0-9]`
unfoldable pub is_hex : ℕ → Bool
unfolding is_digit
is_hex c = leb b'a' c && leb c b'f' || is_digit c

-- `[A-Za-z0-9][A-Za-z0-9_-]{0,63}`
abbrev pub name_then : Regex → Regex
name_then r = one is_alnum (upto 63 is_name_char r)

-- `artifactNameRE`
abbrev pub artifact_name_re : Regex
artifact_name_re = name_then done

-- `hostnameRE`
abbrev pub hostname_re : Regex
hostname_re = one is_alnum (maybe (upto 251 is_host_char (one is_alnum done)) done)

-- `([A-Za-z0-9][A-Za-z0-9_-]{0,63})` and `([0-9A-Za-z.+-]+)`
abbrev pub name_group : Regex → Regex
name_group r = open_group (name_then (close_group r))

abbrev pub version_group : Regex → Regex
version_group r = open_group (one is_version_char (star is_version_char (close_group r)))

-- `_` and 64 hexadecimal digits, or nothing, before `r`
abbrev pub digest_then : Regex → Regex
digest_then r = maybe (literal (codes "_") (exactly 64 is_hex r)) r

-- `providerFileRE`
abbrev pub provider_file_re : Regex
provider_file_re = literal (codes "terraform-provider-") (
    name_group (
      literal (codes "_") (
        version_group (
          literal (codes "_") (
            name_group
              (literal (codes "_") (name_group (digest_then (literal (codes ".zip") done)))))))))

-- `checksumFileRE`
abbrev pub checksum_file_re : Regex
checksum_file_re = literal (codes "terraform-provider-") (
    name_group (
      literal (codes "_")
        (version_group (literal (codes "_SHA256SUMS") (maybe (literal (codes ".sig") done) done)))))

-- `moduleFileRE`
abbrev pub module_file_re : Regex
module_file_re = literal (codes "module") (digest_then (literal (codes ".tar.gz") done))

-- `validArtifactName`
unfoldable pub valid_artifact_name : Bytes → Bool
valid_artifact_name v = match_string artifact_name_re v

-- `validHostname`
unfoldable pub valid_hostname : Bytes → Bool
valid_hostname v = match_string hostname_re v && not (contains v (codes ".."))

-- the checksum file of a version, or its signature
unfoldable pub checksum_file_allowed : Bytes → Bytes → Option Captures → Bool
checksum_file_allowed name version (some (n ∷ v ∷ [])) = text_eq n name && text_eq v version
checksum_file_allowed name version _ = false

-- the two patterns of a provider's files, with the captures compared to the directories
unfoldable pub provider_file_allowed : Bytes → Bytes → Bytes → Option Captures → Bool
provider_file_allowed name version file (some (n ∷ v ∷ o ∷ a ∷ [])) =
    text_eq n name && text_eq v version && valid_artifact_name o && valid_artifact_name a
provider_file_allowed name version file _ =
    checksum_file_allowed name version (submatches checksum_file_re file)

-- the test of the five parts of a provider's path behind `providers`
unfoldable pub provider_path_allowed : Bytes → Bytes → Bytes → Bytes → Bool
provider_path_allowed namespace name version file =
    if not (valid_artifact_name namespace)
      || not (valid_artifact_name name)
      || not (valid_version version)
    then false
    else provider_file_allowed name version file (submatches provider_file_re file)

-- the parts of a path
unfoldable pub parts_allowed : List Bytes → Bool
parts_allowed (p ∷ namespace ∷ name ∷ version ∷ file ∷ []) =
    if text_eq p (codes "providers")
    then provider_path_allowed namespace name version file
    else false
parts_allowed (p ∷ namespace ∷ name ∷ provider ∷ version ∷ file ∷ []) =
    if text_eq p (codes "modules") && match_string module_file_re file
    then valid_artifact_name namespace
      && valid_artifact_name name
      && valid_artifact_name provider
      && valid_version version
    else false
parts_allowed _ = false

-- `isPublicArtifactPath`
unfoldable pub is_public_artifact_path : Bytes → Bool
unfolding parts_allowed
is_public_artifact_path path = parts_allowed (split b'/' (trim b'/' path))

-- the keys of `mux.Vars` that are names
unfoldable pub is_name_key : Bytes → Bool
is_name_key key =
    text_eq key (codes "namespace")
    || text_eq key (codes "name")
    || text_eq key (codes "type")
    || text_eq key (codes "provider")
    || text_eq key (codes "os")
    || text_eq key (codes "arch")

-- the `switch` of `routeValidationMiddleware`
unfoldable pub valid_route_var : Bytes → Bytes → Bool
valid_route_var key value =
    if is_name_key key
    then valid_artifact_name value
    else if text_eq key (codes "version")
    then valid_version value
    else if text_eq key (codes "hostname")
    then valid_hostname value
    else true

-- `routeValidationMiddleware`: the key in the answer 400, or `none` if the request goes on. Go
-- ranges over the map in any order, and `vars` is its content in the order of this request.
unfoldable pub route_validation : List (Bytes × Bytes) → Option Bytes
route_validation [] = none
route_validation ((key, value) ∷ vars) =
    if valid_route_var key value then route_validation vars else some key
