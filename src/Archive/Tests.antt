-- ===== src/Archive/Tests.antt =====
-- The theorems on archives at concrete inputs.
use terraform_registry.Base.Int.{pos}
use terraform_registry.Base.{true, false, none, some, ◌≡◌, refl, List, [], ◌∷◌, ◌++◌}
use terraform_registry.Text.{
  trim_right, codes, text_eq, has_prefix, cut_prefix, trim_suffix, trim_right, contains, cut,
  cut_text, split, join, is_digit, digits_value, parse_uint,
}
use terraform_registry.Semver.{
  numeric_identifier, is_identifier_char, has_leading_zero, valid_identifier, valid_identifiers,
  core_number, parse_core, parse_version_and_pre, parse_semantic_version, valid_version,
}
use terraform_registry.Paths.{is_skipped, pop, clean_segments, path_clean, last_part, path_base}
use terraform_registry.Paths.Inside.{StaysInside}
use terraform_registry.Archive.Names.{
  archive_path_safe, expanded_archive_limit, binary_version_matches, provider_binary_name_matches,
}
use terraform_registry.Archive.Provider.{
  ZipEntry, read_entry, check_entry, check_entries, has_binary, validate_provider_archive,
}
use terraform_registry.Archive.Accepted.{
  IsProviderArchive, archive_path_safe-StaysInside, validate_provider_archive_sound,
}
use terraform_registry.Archive.Module.{
  TarStream, directory, regular, check_headers, check_header, check_type, check_regular,
  validate_module_archive,
}
use terraform_registry.Archive.Modules.{IsModuleArchive, validate_module_archive_sound}

safe_name : archive_path_safe (codes "bin/./terraform") ≡ true
unfolding archive_path_safe contains text_eq path_clean clean_segments split join
safe_name = refl

archive_path_safe-StaysInside_example :
    (has_prefix (codes "bin/./terraform") (codes "/") ≡ false)
    × StaysInside 0 (split b'/' (codes "bin/./terraform"))
archive_path_safe-StaysInside_example =
    archive_path_safe-StaysInside (codes "bin/./terraform") safe_name

abbrev entries : List ZipEntry
entries =
    record {
      name = codes "doc/";
      is_symlink = false;
      is_regular = false;
      is_dir = true;
      size = 0;
      opens = true;
      copied = some 0;
      closes = true;
    }
    ∷ record {
      name = codes "terraform-provider-aws_v1.2.3";
      is_symlink = false;
      is_regular = true;
      is_dir = false;
      size = 7;
      opens = true;
      copied = some 7;
      closes = true;
    }
    ∷ []

archive_accepted : validate_provider_archive (some entries) (codes "aws") (pos 100) ≡ none
unfolding validate_provider_archive check_entries check_entry archive_path_safe contains text_eq
    path_clean clean_segments split join expanded_archive_limit read_entry
    provider_binary_name_matches trim_suffix path_base trim_right cut_prefix cut_text
    binary_version_matches has_binary is_skipped last_part pop core_number has_leading_zero
    is_identifier_char numeric_identifier parse_core parse_semantic_version parse_version_and_pre
    valid_identifier valid_identifiers valid_version cut digits_value has_prefix is_digit parse_uint
archive_accepted = refl

validate_provider_archive_sound_example :
    (es : List ZipEntry) × (some entries ≡ some es)
    × IsProviderArchive es
        (codes "terraform-provider-" ++ codes "aws")
        (expanded_archive_limit (pos 100))
validate_provider_archive_sound_example =
    validate_provider_archive_sound (some entries) (codes "aws") (pos 100) archive_accepted

abbrev tar : TarStream
tar = record {
  headers =
      record { name = codes "vpc/"; typeflag = directory; size = pos 0; copied = some 0 }
      ∷ record { name = codes "vpc/main.tf"; typeflag = regular; size = pos 12; copied = some 12 }
      ∷ [];
  fails = false;
  trailer_reads = true;
  closes = true;
}

module_accepted : validate_module_archive (some tar) (pos 100) ≡ none
unfolding validate_module_archive check_headers check_header archive_path_safe contains text_eq
    path_clean clean_segments split join check_type check_regular expanded_archive_limit
    terraform_registry.Text.has_suffix path_base trim_right
module_accepted = refl

validate_module_archive_sound_example :
    (s : TarStream) × (some tar ≡ some s) × IsModuleArchive s (expanded_archive_limit (pos 100))
validate_module_archive_sound_example =
    validate_module_archive_sound (some tar) (pos 100) module_accepted
