-- ===== src/Download/Tests.antt =====
-- A verified download into a few files.
use terraform_registry.Base.{none, some, [], ◌∷◌}
use terraform_registry.Text.{Bytes, codes}
use terraform_registry.Disk.{file, World}
use terraform_registry.Disk.Laws.{content}
use terraform_registry.Disk.Triples.{Ensures}
use terraform_registry.Storage.Published.{Kept}
use terraform_registry.Storage.DiskTests.{suffix, suffix-Fresh}
use terraform_registry.Download.{Response, download_file_verified}
use terraform_registry.Download.Verified.{Downloaded, download_file_verified-Downloaded}

abbrev dest : Bytes
dest = codes "a.zip"

abbrev checksum : Bytes
checksum = codes "0123456789abcdef0123456789abcdef0123456789abcdef0123456789abcdef"

abbrev constant_hash : Bytes → Bytes
constant_hash b = checksum

abbrev answer : Response
answer = record { status = 200; body = record { bytes = 1 ∷ 2 ∷ []; failure = none } }

-- The last call fails.
abbrev world : World
world = record {
  files = (dest, file (9 ∷ []) 0) ∷ [];
  now = 1;
  faults = none ∷ none ∷ none ∷ none ∷ none ∷ some 0 ∷ [];
}

download_file_verified-Downloaded_example :
    Ensures
      (λ u. Downloaded constant_hash dest checksum (some answer))
      (Kept dest (content dest world.files))
      (download_file_verified suffix constant_hash (some answer) dest checksum world)
download_file_verified-Downloaded_example =
    download_file_verified-Downloaded suffix constant_hash (some answer) dest checksum world
      suffix-Fresh
