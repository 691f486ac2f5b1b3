-- ===== src/Secrets.antt =====
-- registry-server/auth.go and signing.go: the files of the API keys and of the signing key, which are
-- written beside themselves and renamed. What `os.CreateTemp` puts in the place of the star, and what
-- stands behind it, is the suffix of the name.
pub mod Kept
pub mod Keys
pub mod Opened
pub mod Signer
pub mod Restarted
pub mod Tests
use terraform_registry.Base.{◌++◌}
use terraform_registry.Text.{Bytes, codes}
use terraform_registry.Disk.{
  Files, M, ◌>>=◌, ◌>>◌, try, on_error, finally, on_open_file, cut_base, mkdir_above, create_temp,
  write, remove, rename,
}

-- the steps behind the temporary file: `Chmod`, `Write`, `Sync`, `Close` and `Rename`
unfoldable pub fill_private : Bytes → Bytes → Bytes → M (Unit {0})
fill_private tmp path content = do
  on_error on_open_file (try on_open_file)
  on_error (write tmp content) (try on_open_file)
  on_error on_open_file (try on_open_file)
  on_open_file
  rename tmp path

module _ (suffix : Bytes → Files → Bytes) where
  unfoldable pub write_private : Bytes → Bytes → Bytes → M (Unit {0})
  write_private mark path content = do
    mkdir_above path
    tmp ← create_temp suffix ((cut_base path).0 ++ mark)
    finally (fill_private tmp path content) (try (remove tmp))

  -- `writeKeysConfigAtomic`, of the encoded keys
  unfoldable pub write_keys_config_atomic : Bytes → Bytes → M (Unit {0})
  write_keys_config_atomic path content = write_private (codes ".keys-") path content
