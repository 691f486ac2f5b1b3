-- ===== src/Storage/Writes.antt =====
-- registry-server/storage.go: `Put`, `PutStreamValidated` and `PutStreamImmutable`. One request
-- changes the storage at a time, so the locks by key are left out.
use terraform_registry.Base.{
  ℕ, ◌+◌, Bool, true, false, Option, none, some, [], ◌++◌, if◌then◌else◌, ltb, take, length,
}
use terraform_registry.Text.{Bytes, codes}
use terraform_registry.Disk.{
  Node, Files, Error, not_exist, invalid_key, too_large, Result, done, fails, M, ◌>>=◌, ◌>>◌,
  return, stop, on_error, try, attempt, finally, cut_base, mkdir_above, open_trunc, write,
  on_open_file, remove, rename, stat, create_temp,
}
use terraform_registry.Storage.Resolve.{resolve}

-- `filepath.Join(filepath.Dir(path), mark+filepath.Base(path)+more)`
unfoldable pub beside : Bytes → Bytes → Bytes → Bytes
beside mark more p = let (d, b) = cut_base p in d ++ (mark ++ (b ++ more))

abbrev pub temp_path : Bytes → Bytes
temp_path p = beside (codes ".tmp-") [] p

unfoldable pub discard : Bytes → M (Unit {0})
discard tmp = try on_open_file >> try (remove tmp)

unfoldable pub replace : Bytes → Bytes → Bytes → M (Unit {0})
unfolding discard
replace tmp p content = do
  on_error (write tmp content) (discard tmp)
  on_error on_open_file (discard tmp)
  on_error on_open_file (try (remove tmp))
  on_error (rename tmp p) (try (remove tmp))

-- `putUnlocked` behind the key
unfoldable pub put_at : Bytes → Bytes → M (Unit {0})
unfolding replace
put_at p content = do mkdir_above p; open_trunc (temp_path p); replace (temp_path p) p content

-- An upload: the bytes that its reader delivers, and how it then fails in place of ending.
pub record Stream : Type 0 where
  pub bytes : Bytes
  pub failure : Option Error

unfoldable pub fail_with : Option Error → M (Unit {0})
fail_with none = return tt
fail_with (some e) = stop e

-- `io.Copy` of a reader behind `io.LimitedReader`: a failure of the reader shows only before the limit.
unfoldable pub copy_limited : Bytes → Stream → ℕ → M Bytes
copy_limited tmp s limit = do
  write tmp (take limit s.bytes)
  fail_with (if ltb (length s.bytes) limit then s.failure else none)
  return (take limit s.bytes)

-- the steps from `Chmod` to `Sync`
unfoldable pub receive : Bytes → Stream → ℕ → M Bytes
receive tmp s max_size = do
  on_open_file
  bytes ← copy_limited tmp s (max_size + 1)
  fail_with (if ltb max_size (length bytes) then some too_large else none)
  on_open_file
  return bytes

-- the steps from the validation on: `Seek`, the validation, `Close` and `Rename`
unfoldable pub publish : (Bytes → Option Error) → Bytes → Bytes → Bytes → M (Unit {0})
publish validate tmp p bytes = do
  on_open_file
  fail_with (validate bytes)
  on_open_file
  rename tmp p

unfoldable pub at_path : Option Bytes → M Bytes
at_path none = stop invalid_key
at_path (some p) = return p

-- the steps of `PutStreamImmutable` behind the test of the destination
unfoldable pub publish_new : Bytes → Bytes → M (Unit {0})
publish_new tmp p = do mkdir_above p; on_open_file; rename tmp p

-- the test of the destination: whether it was there before
unfoldable pub publish_once : Bytes → Bytes → Result Node → M Bool
publish_once tmp p (done n) = return true
publish_once tmp p (fails not_exist) = publish_new tmp p >> return false
publish_once tmp p (fails e) = stop e

module _ (suffix : Bytes → Files → Bytes) where
  -- the steps of `PutStreamValidated` behind the key, with a validation: the size
  unfoldable pub stream_to : Stream → ℕ → (Bytes → Option Error) → Bytes → M ℕ
  stream_to s max_size validate p = do
    mkdir_above p
    tmp ← create_temp suffix (beside (codes ".tmp-") (codes "-") p)
    on_error
        (do bytes ← receive tmp s max_size; publish validate tmp p bytes; return (length bytes))
        (discard tmp)

module _ (link_escapes : Bytes → Bool) where
  unfoldable pub located : Bytes → M Bytes
  located key = at_path (resolve link_escapes key)

  -- the steps of `PutStreamImmutable` behind the temporary file
  unfoldable pub store_once :
      Stream → ℕ → (Bytes → Option Error) → (Bytes → Bytes) → Bytes → M (Bytes × Bytes × Bool)
  store_once s max_size validate key_of tmp = do
    bytes ← receive tmp s max_size
    on_open_file
    fail_with (validate bytes)
    p ← located (key_of bytes)
    target ← attempt (stat p)
    existed ← publish_once tmp p target
    return (bytes, key_of bytes, existed)

module _ (link_escapes : Bytes → Bool) (suffix : Bytes → Files → Bytes) where
  -- `Put`
  unfoldable pub put : Bytes → Bytes → M (Unit {0})
  put key content = do p ← located link_escapes key; put_at p content

  -- `PutStreamValidated`
  unfoldable pub put_stream_validated : Bytes → Stream → ℕ → (Bytes → Option Error) → M ℕ
  put_stream_validated key s max_size validate = do
    p ← located link_escapes key
    stream_to suffix s max_size validate p

  -- `PutStreamImmutable`: the bytes, the key and whether the object was there before
  unfoldable pub put_stream_immutable :
      Stream → ℕ → (Bytes → Option Error) → (Bytes → Bytes) → M (Bytes × Bytes × Bool)
  put_stream_immutable s max_size validate key_of = do
    tmp ← create_temp suffix (codes ".tmp-upload-")
    finally (store_once link_escapes s max_size validate key_of tmp) (discard tmp)
