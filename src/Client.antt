-- ===== src/Client.antt =====
-- cmd/tfreg/main.go: the commands push, pull, delete and list. What a command asks of the server is a
-- value; the printed texts are left out.
pub mod Pulled
pub mod Tests
use terraform_registry.Base.{
  ℕ, Bool, true, false, not, ◌||◌, Option, none, some, List, [], ◌∷◌, ◌++◌, if◌then◌else◌, ◌==◌,
  any, map, is_nil, length,
}
use terraform_registry.Text.{Bytes, codes, text_eq, join}
use terraform_registry.Paths.{dot, path_base}
use terraform_registry.Protocol.Reader.{path_of}
use terraform_registry.Flags.{FlagSet, Exit, help, Parsed, exits, parsed, parse}
use terraform_registry.Disk.{Files, invalid_key, unavailable, corrupt, M, stop}
use terraform_registry.Storage.Writes.{Stream}
use terraform_registry.Storage.Listing.{join_name}
use terraform_registry.Download.{Response, download_file, download_file_verified}

pub data Kind : Type 0 where
  providers modules : Kind

-- What a command comes to: the end of the program with a status, or a request with the API key.
pub data Command : Type 0 where
  exit : ℕ → Command
  upload : (url path key : Bytes) → Command
  remove : (url key : Bytes) → Command
  list : Kind → (url key : Bytes) → Command

unfoldable pub exit_status : Exit → ℕ
exit_status help = 0
exit_status _ = 2

unfoldable pub value_of : List (Bytes × Bytes) → Bytes → Bytes
value_of [] name = []
value_of ((n, v) ∷ fs) name = let rest = value_of fs name in if text_eq n name then v else rest

-- A required option is empty.
unfoldable pub is_incomplete : FlagSet → List Bytes → Bool
is_incomplete fs required = any (λ name. is_nil (value_of fs.flags name)) required

abbrev pub flag_set : List (Bytes × Bytes) → FlagSet
flag_set flags = record { flags = flags; bool_flags = [] }

abbrev pub parsed_as : Parsed → (FlagSet → Command) → Command
parsed_as (exits e) next = exit (exit_status e)
parsed_as (parsed fs) next = next fs

abbrev pub values : FlagSet → List Bytes → List Bytes
values fs names = map (value_of fs.flags) names

-- the options of a server, with their defaults from the environment
abbrev pub server_flags : Bytes → Bytes → List (Bytes × Bytes)
server_flags registry key = (codes "registry", registry) ∷ (codes "api-key", key) ∷ []

abbrev pub named : List Bytes → List (Bytes × Bytes)
named names = map (λ n. (n, [])) names

abbrev pub platform_flags : List (Bytes × Bytes)
platform_flags = (codes "os", codes "linux") ∷ (codes "arch", codes "amd64") ∷ []

abbrev pub provider_names : List Bytes
provider_names = codes "namespace" ∷ codes "name" ∷ codes "version" ∷ []

abbrev pub module_names : List Bytes
module_names = codes "namespace" ∷ codes "name" ∷ codes "provider" ∷ codes "version" ∷ []

-- the URL below the management API
unfoldable pub api_url : FlagSet → Bytes → List Bytes → Bytes
api_url fs kind names =
    path_of
      (value_of fs.flags (codes "registry") ∷ codes "api" ∷ codes "v1" ∷ kind ∷ values fs names)

abbrev pub api_key_of : FlagSet → Bytes
api_key_of fs = value_of fs.flags (codes "api-key")

unfoldable pub push_request : Bytes → List Bytes → List Bytes → FlagSet → Command
push_request kind required segments fs =
    if is_incomplete fs (required ++ codes "file" ∷ [])
    then exit 1
    else upload (api_url fs kind segments) (value_of fs.flags (codes "file")) (api_key_of fs)

unfoldable pub delete_request : Bytes → List Bytes → FlagSet → Command
delete_request kind names fs =
    if is_incomplete fs names then exit 1 else remove (api_url fs kind names) (api_key_of fs)

module _ (registry key : Bytes) where
  -- `pushProvider`
  unfoldable pub push_provider : List Bytes → Command
  push_provider args =
      parsed_as
        (parse
          (flag_set (
            server_flags registry key
            ++ named (provider_names ++ codes "file" ∷ [])
            ++ platform_flags))
          none args)
        (push_request (codes "providers") provider_names
          (provider_names ++ codes "os" ∷ codes "arch" ∷ []))

  -- `pushModule`
  unfoldable pub push_module : List Bytes → Command
  push_module args =
      parsed_as
        (parse (flag_set (server_flags registry key ++ named (module_names ++ codes "file" ∷ [])))
          none args)
        (push_request (codes "modules") module_names module_names)

  -- `deleteProvider`
  unfoldable pub delete_provider : List Bytes → Command
  delete_provider args =
      parsed_as (parse (flag_set (server_flags registry key ++ named provider_names)) none args)
        (delete_request (codes "providers") provider_names)

  -- `deleteModule`
  unfoldable pub delete_module : List Bytes → Command
  delete_module args =
      parsed_as (parse (flag_set (server_flags registry key ++ named module_names)) none args)
        (delete_request (codes "modules") module_names)

  -- the `switch` of `handlePush`
  unfoldable pub handle_push : List Bytes → Command
  handle_push [] = exit 1
  handle_push (kind ∷ args) =
      if text_eq kind (codes "provider")
      then push_provider args
      else if text_eq kind (codes "module")
      then push_module args
      else exit 1

  -- the `switch` of `handleDelete`
  unfoldable pub handle_delete : List Bytes → Command
  handle_delete [] = exit 1
  handle_delete (kind ∷ args) =
      if text_eq kind (codes "provider")
      then delete_provider args
      else if text_eq kind (codes "module")
      then delete_module args
      else exit 1

-- the loop of `handleList` over the arguments: the registry, the key and what is left of them
unfoldable pub list_options : Bytes → Bytes → List Bytes → Bytes × (Bytes × List Bytes)
list_options registry key [] = (registry, (key, []))
list_options registry key (a ∷ []) = (registry, (key, a ∷ []))
list_options registry key (a ∷ b ∷ rest) =
    let of_registry = list_options b key rest in
    let of_key = list_options registry b rest in
    let (r, (k, left)) = list_options registry key (b ∷ rest) in
    if text_eq a (codes "--registry")
    then of_registry
    else if text_eq a (codes "--api-key")
    then of_key
    else (r, (k, a ∷ left))

unfoldable pub list_request : Bytes × (Bytes × List Bytes) → Command
list_request (registry, (key, [])) = exit 1
list_request (registry, (key, kind ∷ rest)) =
    if text_eq kind (codes "providers")
    then list providers (registry ++ codes "/api/v1/providers") key
    else if text_eq kind (codes "modules")
    then list modules (registry ++ codes "/api/v1/modules") key
    else exit 1

-- `handleList`, up to its request
unfoldable pub handle_list : Bytes → Bytes → List Bytes → Command
handle_list registry key [] = exit 1
handle_list registry key (a ∷ args) = list_request (list_options registry key (a ∷ args))

-- the newest version that a list shows
unfoldable pub latest_shown : List Bytes → Bytes
latest_shown [] = codes "-"
latest_shown (v ∷ []) = v
latest_shown (v ∷ w ∷ vs) = latest_shown (w ∷ vs)

-- what the server answers about a provider's archive
pub record PullMeta : Type 0 where
  pub filename : Bytes
  pub download_url : Bytes
  pub shasum : Bytes

-- The answers of the server to `Get`; the JSON decoder; the header `X-Terraform-Get` of an answer.
module _ (suffix : Bytes → Files → Bytes) (hash : Bytes → Bytes) (get : Bytes → Option Response)
    (decode : Stream → Option PullMeta) (location : Response → Bytes) where
  unfoldable pub fetch_archive : Bytes → PullMeta → M (Unit {0})
  fetch_archive output meta =
      let filename = path_base meta.filename in
      if text_eq filename dot || is_nil filename
      then stop invalid_key
      else if not (length meta.shasum == 64)
      then stop invalid_key
      else download_file_verified suffix hash (get meta.download_url) (join_name output filename)
          meta.shasum

  unfoldable pub fetch_described : Bytes → Option PullMeta → M (Unit {0})
  fetch_described output none = stop corrupt
  fetch_described output (some meta) = fetch_archive output meta

  unfoldable pub fetch_answered : Bytes → Option Response → M (Unit {0})
  fetch_answered output none = stop unavailable
  fetch_answered output (some r) =
      if r.status == 200 then fetch_described output (decode r.body) else stop unavailable

  unfoldable pub download_info_url : FlagSet → Bytes
  download_info_url fs = path_of (
      value_of fs.flags (codes "registry")
        ∷ codes "v1"
        ∷ codes "providers"
        ∷ values fs provider_names
      ++ (codes "download" ∷ values fs (codes "os" ∷ codes "arch" ∷ [])))

  -- `pullProvider` behind its options
  unfoldable pub pull_provider : FlagSet → M (Unit {0})
  pull_provider fs =
      if is_incomplete fs provider_names
      then stop invalid_key
      else fetch_answered (value_of fs.flags (codes "output")) (get (download_info_url fs))

  abbrev pub required_names : List Bytes
  required_names = codes "namespace" ∷ codes "name" ∷ codes "provider" ∷ []

  -- the parts of the URL and of the name, with the version if there is one
  unfoldable pub with_version : FlagSet → List Bytes
  with_version fs =
      let version = value_of fs.flags (codes "version") in
      values fs required_names ++ (if is_nil version then [] else version ∷ [])

  unfoldable pub fetch_module : Bytes → Option Response → M (Unit {0})
  fetch_module dest none = stop unavailable
  fetch_module dest (some r) =
      if not (r.status == 204)
      then stop unavailable
      else if is_nil (location r)
      then stop unavailable
      else download_file suffix hash (get (location r)) dest

  -- `pullModule` behind its options
  unfoldable pub pull_module : FlagSet → M (Unit {0})
  pull_module fs =
      if is_incomplete fs required_names
      then stop invalid_key
      else fetch_module
          (join_name (value_of fs.flags (codes "output"))
            (join b'-' (with_version fs) ++ codes ".tar.gz"))
          (get (
            path_of (
              value_of fs.flags (codes "registry") ∷ codes "v1" ∷ codes "modules" ∷ with_version fs
              ++ (codes "download" ∷ []))))
