-- ===== src/Client/Tests.antt =====
-- Commands of the client.
use terraform_registry.Base.{◌≡◌, refl, Option, none, some, [], ◌∷◌}
use terraform_registry.Text.{Bytes, codes}
use terraform_registry.Flags.{FlagSet}
use terraform_registry.Disk.{World}
use terraform_registry.Storage.Writes.{Stream}
use terraform_registry.Storage.DiskTests.{suffix}
use terraform_registry.Download.{Response}
use terraform_registry.Client.Pulled.{Pulled}
use terraform_registry.Client.{
  PullMeta, download_info_url, exit, upload, remove, list, providers, handle_push, handle_delete,
  handle_list,
}

push_url :
    handle_push (codes "http://r") (codes "k") (
      codes "provider"
      ∷ codes "--namespace"
      ∷ codes "n"
      ∷ codes "--name"
      ∷ codes "p"
      ∷ codes "--version"
      ∷ codes "1.0.0"
      ∷ codes "--file"
      ∷ codes "f.zip"
      ∷ [])
    ≡ upload (codes "http://r/api/v1/providers/n/p/1.0.0/linux/amd64") (codes "f.zip") (codes "k")
unfolding handle_push terraform_registry.Text.text_eq terraform_registry.Client.push_provider
    terraform_registry.Flags.parse terraform_registry.Text.has_prefix
    terraform_registry.Flags.option_step terraform_registry.Text.trim_prefix
    terraform_registry.Flags.set_first terraform_registry.Flags.finish
    terraform_registry.Client.push_request terraform_registry.Client.is_incomplete
    terraform_registry.Client.value_of terraform_registry.Client.api_url
    terraform_registry.Text.join
push_url = refl

delete_needs_names :
    handle_delete (codes "http://r") [] (codes "module" ∷ codes "--name" ∷ codes "m" ∷ []) ≡ exit 1
unfolding handle_delete terraform_registry.Text.text_eq terraform_registry.Client.delete_module
    terraform_registry.Flags.parse terraform_registry.Text.has_prefix
    terraform_registry.Flags.option_step terraform_registry.Text.trim_prefix
    terraform_registry.Flags.finish terraform_registry.Client.delete_request
    terraform_registry.Client.is_incomplete terraform_registry.Client.value_of
    terraform_registry.Flags.set_first
delete_needs_names = refl

list_url :
    handle_list
      (codes "http://r")
      []
      (codes "--registry" ∷ codes "http://s" ∷ codes "providers" ∷ [])
    ≡ list providers (codes "http://s/api/v1/providers") []
unfolding handle_list terraform_registry.Client.list_request terraform_registry.Client.list_options
    terraform_registry.Text.text_eq
list_url = refl

abbrev flags : FlagSet
flags = record {
  flags =
      (codes "registry", codes "http://r")
      ∷ (codes "namespace", codes "n")
      ∷ (codes "name", codes "p")
      ∷ (codes "version", codes "1.0.0")
      ∷ (codes "os", codes "linux")
      ∷ (codes "arch", codes "arm")
      ∷ (codes "output", codes "out")
      ∷ [];
  bool_flags = [];
}

abbrev checksum : Bytes
checksum = codes "0123456789abcdef0123456789abcdef0123456789abcdef0123456789abcdef"

abbrev constant_hash : Bytes → Bytes
constant_hash b = checksum

abbrev always : Bytes → Option Response
always url = some (record { status = 200; body = record { bytes = 1 ∷ 2 ∷ []; failure = none } })

abbrev described : Stream → Option PullMeta
described s =
    some (record { filename = codes "../p.zip"; download_url = codes "u"; shasum = checksum })

abbrev nowhere : Response → Bytes
nowhere r = []

abbrev world : World
world = record { files = []; now = 1; faults = [] }

info_url :
    download_info_url suffix constant_hash always described nowhere flags
    ≡ codes "http://r/v1/providers/n/p/1.0.0/download/linux/arm"
unfolding download_info_url terraform_registry.Text.join terraform_registry.Client.value_of
    terraform_registry.Text.text_eq
info_url = refl
