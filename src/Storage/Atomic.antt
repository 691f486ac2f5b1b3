-- ===== src/Storage/Atomic.antt =====
-- registry-server/storage.go: the changes of an index as one change of the set of its versions.
use terraform_registry.Base.{
  List, ◌≡◌, ◌≢◌, ◌↔◌, ◌⊎◌, inl, inr, refl, sym, subst, some, Bool, true, false, Bool-cases, Holds,
}
use terraform_registry.Text.{Bytes}
use terraform_registry.Protocol.Reader.{index_has_version}
use terraform_registry.Disk.{Files, World}
use terraform_registry.Storage.Index.{
  Backend, IndexCodec, Index, load_index, put_versions, add_version_to_index,
  remove_version_from_index,
}
use terraform_registry.Storage.Changed.{
  Reads, added, adding, removing, add_version_to_index-Reads, remove_version_from_index-Reads,
}
use terraform_registry.Storage.OnDisk.{on_disk}

module _ {W Meta : Type 0} (b : Backend W) (c : IndexCodec Meta) where
  load_index-same :
      (w w' : W) (key : Bytes)
      → b.get w' key ≡ b.get w key
      → load_index b c w' key ≡ load_index b c w key
  unfolding load_index
  load_index-same w w' key e = rw (e, load_index) refl

  -- A change that fails leaves the index as it was.
  add_version_to_index-failed :
      (w : W) (key version : Bytes) (i : Index Meta)
      → load_index b c w key ≡ some i
      → (add_version_to_index b c w key version).1 ≡ false
      → load_index b c (add_version_to_index b c w key version).0 key ≡ load_index b c w key
  unfolding add_version_to_index put_versions
  add_version_to_index-failed w key version i l h =
      elim (Bool-cases (index_has_version i.versions version)) [
        | inl e ↦
            subst (λ (o : W × Bool). load_index b c o.0 key ≡ load_index b c w key)
              (sym (added b c w key version i l e)) refl
        | inr e ↦
            let run = adding b c w key version i l e in
            subst (λ (o : W × Bool). o.1 ≡ false → load_index b c o.0 key ≡ load_index b c w key)
              (sym run) (λ g. load_index-same w _ key (b.put_failed w key _ g)) h
      ]

  remove_version_from_index-failed :
      (w : W) (key version : Bytes) (i : Index Meta)
      → load_index b c w key ≡ some i
      → (remove_version_from_index b c w key version).1 ≡ false
      → load_index b c (remove_version_from_index b c w key version).0 key ≡ load_index b c w key
  unfolding remove_version_from_index put_versions
  remove_version_from_index-failed w key version i l h =
      subst (λ (o : W × Bool). o.1 ≡ false → load_index b c o.0 key ≡ load_index b c w key)
        (sym (removing b c w key version i l))
        (λ g. load_index-same w _ key (b.put_failed w key _ g)) h

  -- A change ends with the index of `P` and success, or with the index as it was and failure.
  abbrev pub Atomic : Bytes → W → (List Bytes → Type 0) → W × Bool → Type 0
  Atomic key w P o =
      ((o.1 ≡ true) × Reads b c key P o.0)
      ⊎ ((o.1 ≡ false) × (load_index b c o.0 key ≡ load_index b c w key))

  atomic :
      (key : Bytes) (w : W) (P : List Bytes → Type 0) (o : W × Bool)
      → (o.1 ≡ true → Reads b c key P o.0)
      → (o.1 ≡ false → load_index b c o.0 key ≡ load_index b c w key)
      → Atomic key w P o
  atomic key w P o t f = elim (Bool-cases o.1) [ inl e ↦ inl (e, t e) | inr e ↦ inr (e, f e) ]

  pub add_version_to_index-Atomic :
      (w : W) (key version x : Bytes) (i : Index Meta)
      → load_index b c w key ≡ some i
      → Atomic key w
          (λ vs. Holds x vs ↔ ((x ≡ version) ⊎ Holds x i.versions))
          (add_version_to_index b c w key version)
  add_version_to_index-Atomic w key version x i l =
      atomic key w _ (add_version_to_index b c w key version)
        (add_version_to_index-Reads b c w key version x i l)
        (add_version_to_index-failed w key version i l)

  pub remove_version_from_index-Atomic :
      (w : W) (key version x : Bytes) (i : Index Meta)
      → load_index b c w key ≡ some i
      → Atomic key w
          (λ vs. Holds x vs ↔ ((x ≢ version) × Holds x i.versions))
          (remove_version_from_index b c w key version)
  remove_version_from_index-Atomic w key version x i l =
      atomic key w _ (remove_version_from_index b c w key version)
        (remove_version_from_index-Reads b c w key version x i l)
        (remove_version_from_index-failed w key version i l)

-- Over the files, whichever calls of `Put` fail: adding a version to an index that can be read ends
-- with success, and the index then lists that version and those it listed before, or with a
-- failure, and the index reads as before.
pub add_version_on_disk :
    {Meta : Type 0} (c : IndexCodec Meta) (link_escapes : Bytes → Bool)
    (suffix : Bytes → Files → Bytes) (w : World) (key version x : Bytes) (i : Index Meta)
    → load_index (on_disk link_escapes suffix) c w key ≡ some i
    → Atomic
        (on_disk link_escapes suffix)
        c
        key
        w
        (λ vs. Holds x vs ↔ ((x ≡ version) ⊎ Holds x i.versions))
        (add_version_to_index (on_disk link_escapes suffix) c w key version)
add_version_on_disk c link_escapes suffix =
    add_version_to_index-Atomic (on_disk link_escapes suffix) c

-- Over the files, whichever calls of `Put` fail: removing a version from an index that can be read
-- ends with success, and the index then lists the versions it listed before except that one, or
-- with a failure, and the index reads as before.
pub remove_version_on_disk :
    {Meta : Type 0} (c : IndexCodec Meta) (link_escapes : Bytes → Bool)
    (suffix : Bytes → Files → Bytes) (w : World) (key version x : Bytes) (i : Index Meta)
    → load_index (on_disk link_escapes suffix) c w key ≡ some i
    → Atomic
        (on_disk link_escapes suffix)
        c
        key
        w
        (λ vs. Holds x vs ↔ ((x ≢ version) × Holds x i.versions))
        (remove_version_from_index (on_disk link_escapes suffix) c w key version)
remove_version_on_disk c link_escapes suffix =
    remove_version_from_index-Atomic (on_disk link_escapes suffix) c
