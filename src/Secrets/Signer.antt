-- ===== src/Secrets/Signer.antt =====
-- registry-server/signing.go: the signing key while the server starts. OpenPGP is a parameter.
use terraform_registry.Base.{Option}
use terraform_registry.Text.{Bytes, codes}
use terraform_registry.Disk.{
  Files, not_exist, io, corrupt, Result, done, fails, M, ◌>>=◌, ◌>>◌, return, stop, attempt,
}
use terraform_registry.Signing.{or_stop}
use terraform_registry.Secrets.{write_private}
use terraform_registry.Secrets.Keys.{read_file}

-- What the server calls of OpenPGP: a private key read from its armor, if there is exactly one in it,
-- a new key, the two armors of a key, and its identifier in upper case.
pub record OpenPgp (Entity : Type 0) : Type 0 where
  pub read_private : Bytes → Option Entity
  pub new_entity : Option Entity
  pub private_armor : Entity → Option Bytes
  pub public_armor : Entity → Option Bytes
  pub key_id : Entity → Bytes
  pub detach_sign : Entity → Bytes → Option Bytes

-- `RegistrySigner`
pub record RegistrySigner (Entity : Type 0) : Type 0 where
  pub entity : Entity
  pub key_id : Bytes
  pub public_armor : Bytes

module _ {Entity : Type 0} (pgp : OpenPgp Entity) where
  -- `Sign`
  unfoldable pub sign : RegistrySigner Entity → Bytes → Option Bytes
  sign s content = pgp.detach_sign s.entity content

  -- the steps behind the key
  unfoldable pub signer_of : Entity → M (RegistrySigner Entity)
  signer_of e = do
    public ← or_stop io (pgp.public_armor e)
    return (record { entity = e; key_id = pgp.key_id e; public_armor = public })

  module _ (suffix : Bytes → Files → Bytes) (path : Bytes) where
    -- the key of the file, or a new one that is written to it
    unfoldable pub signing_entity : Result Bytes → M Entity
    signing_entity (done armor) = or_stop corrupt (pgp.read_private armor)
    signing_entity (fails not_exist) = do
      e ← or_stop io pgp.new_entity
      private ← or_stop io (pgp.private_armor e)
      write_private suffix (codes ".signing-key-") path private
      return e
    signing_entity (fails e) = stop e

    -- `NewRegistrySigner`
    unfoldable pub new_registry_signer : M (RegistrySigner Entity)
    new_registry_signer = do r ← attempt (read_file path); e ← signing_entity r; signer_of e
