-- ===== src/Download.antt =====
-- cmd/tfreg/main.go: the downloads of the client. The answer of the HTTP client is a parameter, and
-- so is SHA-256 in hexadecimal digits. `EqualFold` with such digits ignores the case of letters.
pub mod Verified
pub mod Tests
use terraform_registry.Base.{
  ℕ, Bool, true, false, not, ◌&&◌, ◌||◌, Option, none, some, List, [], ◌∷◌, ◌++◌, if◌then◌else◌,
  ◌==◌, length, is_nil,
}
use terraform_registry.Text.{Bytes, codes, text_eq}
use terraform_registry.Auth.Hash.{to_lower}
use terraform_registry.Disk.{
  Files, Error, io, unavailable, corrupt, invalid_key, M, ◌>>=◌, ◌>>◌, return, stop, on_error,
  on_open_file, cut_base, mkdir_above, create_temp, write, rename,
}
use terraform_registry.Storage.Writes.{Stream, discard, fail_with}

pub record Response : Type 0 where
  pub status : ℕ
  pub body : Stream

unfoldable pub equal_fold : Bytes → Bytes → Bool
equal_fold a b = text_eq (to_lower a) (to_lower b)

abbrev pub download_pattern : Bytes → Bytes
download_pattern dest = (cut_base dest).0 ++ codes ".tfreg-download-"

module _ (suffix : Bytes → Files → Bytes) (hash : Bytes → Bytes) where
  -- An empty checksum is not compared.
  unfoldable pub mismatch : Bytes → Bytes → Option Error
  mismatch expected bytes =
      if is_nil expected || equal_fold (hash bytes) expected then none else some corrupt

  -- the steps from `io.Copy` to `os.Rename`
  unfoldable pub receive_file : Bytes → Bytes → Bytes → Stream → M (Unit {0})
  receive_file tmp dest expected body = do
    write tmp body.bytes
    fail_with body.failure
    fail_with (mismatch expected body.bytes)
    on_open_file
    on_open_file
    rename tmp dest

  -- the steps behind the answer
  unfoldable pub save : Bytes → Bytes → Stream → M (Unit {0})
  save dest expected body = do
    mkdir_above dest
    tmp ← create_temp suffix (download_pattern dest)
    on_error (receive_file tmp dest expected body) (discard tmp)

  -- `downloadFileWithChecksum`
  unfoldable pub download_file_with_checksum : Option Response → Bytes → Bytes → M (Unit {0})
  download_file_with_checksum none dest expected = stop unavailable
  download_file_with_checksum (some r) dest expected =
      if r.status == 200 then save dest expected r.body else stop unavailable

  -- `downloadFile`
  unfoldable pub download_file : Option Response → Bytes → M (Unit {0})
  download_file r dest = download_file_with_checksum r dest []

  -- `downloadFileVerified`
  unfoldable pub download_file_verified : Option Response → Bytes → Bytes → M (Unit {0})
  download_file_verified r dest expected =
      if length expected == 64
      then download_file_with_checksum r dest expected
      else stop invalid_key
