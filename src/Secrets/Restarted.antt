-- ===== src/Secrets/Restarted.antt =====
-- registry-server/signing.go: a registry that starts again signs by the same key.
use terraform_registry.Base.{◌≡◌, ◌≢◌, ◌⊎◌, refl, ◌∙◌, arith, ℕ, false, Option, none, some, []}
use terraform_registry.Text.{Bytes, codes, has_prefix}
use terraform_registry.Paths.{dot}
use terraform_registry.Disk.{
  Node, file, directory, Files, Error, not_exist, io, corrupt, Result, done, fails, World, M, ◌>>=◌,
  ◌>>◌, attempt, return, node_at, lookup, cut_base,
}
use terraform_registry.Disk.Laws.{content, node_at-other}
use terraform_registry.Disk.Triples.{
  Ensures, Triple, Triple-bind, Triple-return, Triple-weaken, Triple-look,
}
use terraform_registry.Storage.Published.{Kept}
use terraform_registry.Signing.{or_stop}
use terraform_registry.Secrets.{write_private}
use terraform_registry.Secrets.Kept.{write_private-Has}
use terraform_registry.Secrets.Keys.{read_result, read_file}
use terraform_registry.Secrets.Signer.{
  OpenPgp, RegistrySigner, signer_of, signing_entity, new_registry_signer,
}

read_content :
    (path b : Bytes) (f : Files)
    → path ≢ dot
    → content path f ≡ some b
    → read_result (node_at path f) ≡ done b
read_content path b f n e = go (lookup path f) refl (node_at-other path f n)
  where
    go :
        (o : Option Node)
        → lookup path f ≡ o
        → node_at path f ≡ lookup path f
        → read_result (node_at path f) ≡ done b
    go none g h = ground arith
    go (some directory) g h = ground arith
    go (some (file d t)) g h = ground arith

content_read :
    (path b : Bytes) (f : Files)
    → path ≢ dot
    → read_result (node_at path f) ≡ done b
    → content path f ≡ some b
content_read path b f n e = go (lookup path f) refl (node_at-other path f n)
  where
    go :
        (o : Option Node)
        → lookup path f ≡ o
        → node_at path f ≡ lookup path f
        → content path f ≡ some b
    go none g h = ground arith
    go (some directory) g h = ground arith
    go (some (file d t)) g h = ground arith

module _ {Entity : Type 0} (pgp : OpenPgp Entity) (suffix : Bytes → Files → Bytes)
    (path : Bytes) where
  -- The file holds the key.
  record Holds (e : Entity) (f : Files) : Type 0 where
    armor : Bytes
    stored : content path f ≡ some armor
    decoded : pgp.read_private armor ≡ some e

  -- Another start over files with the same key file, where no call fails, gives the signer.
  abbrev pub Restarts : RegistrySigner Entity → Files → Type 0
  Restarts s f =
      (g : Files) (t : ℕ)
      → content path g ≡ content path f
      → new_registry_signer pgp suffix path (record { files = g; now = t; faults = [] })
        ≡ (done s, record { files = g; now = t; faults = [] })

  module _ (path_ne : path ≢ dot) where
    Holds-Restarts :
        (e : Entity) (p : Bytes) (f : Files)
        → Holds e f
        → pgp.public_armor e ≡ some p
        → Restarts (record { entity = e; key_id = pgp.key_id e; public_armor = p }) f
    unfolding new_registry_signer signing_entity signer_of read_file terraform_registry.Disk.call
        terraform_registry.Disk.serve
    Holds-Restarts e p f h k g t same =
        rw (read_content path h.armor g path_ne (same ∙ h.stored), h.decoded, k) refl

    kept : (c : Option Bytes) (f : Files) → content path f ≡ c → Kept path c f
    kept none f h = tt
    kept (some b) f h = h

    signer_of-Restarts :
        (c : Option Bytes) (e : Entity)
        → Triple
            (λ f. Holds e f × Kept path c f)
            (signer_of pgp e)
            (λ s f. Restarts s f × Kept path c f)
            (Kept path c)
    unfolding signer_of
    signer_of-Restarts c e = go (pgp.public_armor e) refl
      where
        go :
            (o : Option Bytes)
            → pgp.public_armor e ≡ o
            → Triple
                (λ f. Holds e f × Kept path c f)
                (or_stop io o >>= λ p.
                  return (record { entity = e; key_id = pgp.key_id e; public_armor = p }))
                (λ s f. Restarts s f × Kept path c f)
                (Kept path c)
        go none k = record { at = λ w h. h.1 }
        go (some p) k = record { at = λ w h. (Holds-Restarts e p w.files h.0 k, h.1) }

    module _ (marked : has_prefix (cut_base path).1 (codes ".signing-key-") ≡ false)
        (armored : (e : Entity) (b : Bytes)
          → pgp.private_armor e ≡ some b
          → pgp.read_private b ≡ some e) where
      created :
          (o : Option Entity)
          → Triple
              (λ f. content path f ≡ none)
              (or_stop io o >>= λ e. or_stop io (pgp.private_armor e) >>= λ private.
                write_private suffix (codes ".signing-key-") path private >> return e)
              (λ e f. Holds e f × Unit {0})
              (λ f. Unit {0})
      created none = record { at = λ w h. tt }
      created (some e) = stored (pgp.private_armor e) refl
        where
          stored :
              (o : Option Bytes)
              → pgp.private_armor e ≡ o
              → Triple
                  (λ f. content path f ≡ none)
                  (or_stop io o >>= λ private.
                    write_private suffix (codes ".signing-key-") path private >> return e)
                  (λ e f. Holds e f × Unit {0})
                  (λ f. Unit {0})
          stored none k = record { at = λ w h. tt }
          stored (some b) k =
              Triple-bind (write_private suffix (codes ".signing-key-") path b) _
                (Triple-weaken _
                  (write_private-Has path (codes ".signing-key-") b none suffix marked
                    (omega arith))
                  (λ f h. h) (λ u f h. h) (λ f h. tt))
                λ u.
                  Triple-return e
                    (λ f h. (record { armor = b; stored = h; decoded = armored e b k }, tt))

      -- What the file was, and what was read of it.
      abbrev Seen : Option Bytes → Result Bytes → Files → Type 0
      Seen c r f = (content path f ≡ c) × ((r ≡ fails io) ⊎ (r ≡ read_result (node_at path f)))

      missing : (b : Bytes) (f : Files) → Seen (some b) (fails not_exist) f → ⊥
      missing b f h = ground (arith, h, read_content path b f path_ne h.0)

      armor-Holds :
          (c : Option Bytes) (b : Bytes) (o : Option Entity)
          → pgp.read_private b ≡ o
          → Triple
              (Seen c (done b))
              (or_stop corrupt o)
              (λ e f. Holds e f × Kept path c f)
              (Kept path c)
      armor-Holds c b none k = record { at = λ w h. kept c w.files h.0 }
      armor-Holds c b (some e) k = record {
        at = λ w h. (
          record {
            armor = b;
            stored = content_read path b w.files path_ne (ground (arith, h.1));
            decoded = k;
          },
          kept c w.files h.0,
        );
      }

      entity-Holds :
          (c : Option Bytes) (r : Result Bytes)
          → Triple
              (Seen c r)
              (signing_entity pgp suffix path r)
              (λ e f. Holds e f × Kept path c f)
              (Kept path c)
      unfolding signing_entity
      entity-Holds c (done b) = armor-Holds c b (pgp.read_private b) refl
      entity-Holds none (fails not_exist) =
          Triple-weaken _ (created pgp.new_entity) (λ f h. h.0) (λ e f h. h) (λ f h. h)
      entity-Holds (some b) (fails not_exist) = record { at = λ w h. absurd (missing b w.files h) }
      entity-Holds c (fails e) = record { at = λ w h. kept c w.files h.0 }

      seen :
          (c : Option Bytes)
          → Triple (λ f. content path f ≡ c) (attempt (read_file path)) (Seen c) (Kept path c)
      unfolding read_file
      seen c =
          Triple-weaken _
            (Triple-look (λ f. read_result (node_at path f)) (λ f. content path f ≡ c)) (λ f h. h)
            (λ r f h. h) (kept c)

      -- The start of the signer, whichever calls fail, keeps a key file that is there. Where it succeeds,
      -- another start over files with the same key file, where no call fails, gives the same signer. A
      -- key is read back from its armor, the path of the file is not the root, and its name does not
      -- begin as the temporary ones.
      pub new_registry_signer-Restarts :
          (w : World)
          → Ensures
              (λ s f. Restarts s f × Kept path (content path w.files) f)
              (Kept path (content path w.files))
              (new_registry_signer pgp suffix path w)
      unfolding new_registry_signer
      new_registry_signer-Restarts w =
          let c : Option Bytes = content path w.files in
          (Triple-bind (attempt (read_file path)) _ (seen c) λ r.
              Triple-bind (signing_entity pgp suffix path r) _ (entity-Holds c r)
                λ e. signer_of-Restarts c e).at
            w refl
