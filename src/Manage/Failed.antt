-- ===== src/Manage/Failed.antt =====
-- registry-server/api.go: the upload of a module answers, and any answer but 200 goes with the
-- version index as it was.
use terraform_registry.Base.{
  ℕ, ◌≡◌, ◌≢◌, inl, inr, refl, sym, ◌∙◌, subst, arith, Bool, true, false, Bool-cases, Option, none,
  some, Option-cases, if◌then◌else◌, ltb, length,
}
use terraform_registry.Text.{Bytes, codes}
use terraform_registry.Paths.{dot}
use terraform_registry.Protocol.Reader.{Read, found, index_has_version}
use terraform_registry.Disk.{
  Node, file, directory, Files, Error, Result, done, fails, World, M, ◌>>=◌, attempt, lookup,
  node_at,
}
use terraform_registry.Disk.Laws.{content, node_at-other}
use terraform_registry.Disk.Triples.{
  Ensures, Triple, Triple-bind, Triple-return, Triple-attempt_keeps,
}
use terraform_registry.Upload.{validate_upload}
use terraform_registry.Storage.Resolve.{resolve}
use terraform_registry.Storage.Writes.{Stream, put, put_stream_immutable}
use terraform_registry.Storage.Published.{Fresh, Kept}
use terraform_registry.Storage.Reused.{IsTold}
use terraform_registry.Storage.Immutable.{Stored, put_stream_immutable_keeps}
use terraform_registry.Storage.OnDisk.{get, on_disk, read_at, read_node, read_content}
use terraform_registry.Storage.Index.{
  Backend, IndexCodec, load_index, add_version_to_index, put_versions,
}
use terraform_registry.Storage.Changed.{adding}
use terraform_registry.Manage.{
  VersionKeys, ArtifactCodec, artifact_meta_key, store_status, module_key, filename_of, read_key,
  add_module_version, changed, drop_new, behind_metadata, behind_artifact, store_module,
  upload_module, peek,
}
use terraform_registry.Manage.Steady.{Elsewhere, put-Same, drop_new-Same, behind_index-Safe}

-- A version that is not added leaves what the key reads as.
add_failed :
    {W Meta : Type 0} (b : Backend W) (c : IndexCodec Meta) (w : W) (key version : Bytes)
    → (add_version_to_index b c w key version).1 ≡ false
    → b.get (add_version_to_index b c w key version).0 key ≡ b.get w key
unfolding add_version_to_index put_versions
add_failed {W = W} b c w key version h = elim (Option-cases (load_index b c w key)) [
  | inl e ↦ rw (e, add_version_to_index) refl
  | inr (i, e) ↦ elim (Bool-cases (index_has_version i.versions version)) [
    | inl g ↦ rw (e, g, add_version_to_index) refl
    | inr g ↦
        subst (λ (o : W × Bool). o.1 ≡ false → b.get o.0 key ≡ b.get w key)
          (sym (adding b c w key version i e g)) (λ x. b.put_failed w key _ x) h
  ]
]

content_read :
    (p b : Bytes) (f : Files) → p ≢ dot → read_node (node_at p f) ≡ found b → content p f ≡ some b
content_read p b f h e = go (lookup p f) refl (node_at-other p f h)
  where
    go : (n : Option Node) → lookup p f ≡ n → node_at p f ≡ lookup p f → content p f ≡ some b
    go none g k = ground arith
    go (some directory) g k = ground arith
    go (some (file c t)) g k = ground arith

-- The steps behind the write of an artifact start with the bytes of another path as they were.
pub behind_stored :
    (link_escapes : Bytes → Bool) (suffix : Bytes → Files → Bytes) (s : Stream) (max : ℕ)
    (validate : Bytes → Option Error) (key_of : Bytes → Bytes) (q b : Bytes)
    → Fresh suffix
    → (next : Result (Bytes × Bytes × Bool) → M ℕ) {Q : ℕ → Files → Type 0}
    → ((e : Error) → Triple (λ f. content q f ≡ some b) (next (fails e)) Q (λ f. ⊥))
    → ((bytes : Bytes) (existed : Bool)
        → Triple
            (λ f. content q f ≡ some b)
            (next (done (bytes, key_of s.bytes, existed)))
            Q
            (λ f. ⊥))
    → Triple
        (λ f. content q f ≡ some b)
        (attempt (put_stream_immutable link_escapes suffix s max validate key_of) >>= next)
        Q
        (λ f. ⊥)
behind_stored link_escapes suffix s max validate key_of q b fresh next {Q} g h = record {
  at = λ w k.
      go w (put_stream_immutable link_escapes suffix s max validate key_of w) k
        (put_stream_immutable_keeps link_escapes suffix s max validate key_of q w fresh);
}
  where
    go :
        (w : World) (o : Result (Bytes × Bytes × Bool) × World)
        → content q w.files ≡ some b
        → Ensures
            (λ r f.
              Stored link_escapes s max validate key_of r f
              × Kept q (content q w.files) f
              × IsTold link_escapes (key_of s.bytes) w.files r)
            (Kept q (content q w.files))
            o
        → Ensures Q (λ f. ⊥) (next o.0 o.1)
    go w (fails e, v) k l = (g e).at v (subst (λ c. Kept q c v.files) k l)
    go w (done (bytes, key, existed), v) k l =
        subst (λ key. Ensures Q (λ f. ⊥) (next (done (bytes, key, existed)) v)) (sym l.0.1)
          ((h bytes existed).at v (subst (λ c. Kept q c v.files) k l.1))

module _ (link_escapes : Bytes → Bool) (suffix : Bytes → Files → Bytes) (q : Bytes) (b : Bytes)
    (hash : Bytes → Bytes) (validate : Bytes → Option Error) (a : ArtifactCodec) {Meta : Type 0}
    (codec : IndexCodec Meta) (k : VersionKeys) (at_q : resolve link_escapes k.index ≡ some q)
    (q_ne : q ≢ dot) where
  abbrev pub Listed : Files → Type 0
  Listed f = content q f ≡ some b

  add-Listed :
      (w : World) (o : World × Bool)
      → Listed w.files
      → (o.1 ≡ false → get link_escapes o.0 k.index ≡ get link_escapes w k.index)
      → Ensures
          (λ ok f. if ok then Unit {0} else Listed f)
          (λ f. ⊥)
          (changed link_escapes suffix hash validate a codec o)
  unfolding get
  add-Listed w (v, true) h g = tt
  add-Listed w (v, false) h g = content_read q b v.files q_ne (
      subst (λ r. read_at r v.files ≡ read_at r w.files) at_q (g refl)
      ∙ read_content q b w.files q_ne h)

  pub add_module_version-Listed :
      Triple Listed
        (add_module_version link_escapes suffix hash validate a codec k)
        (λ ok f. if ok then Unit {0} else Listed f)
        (λ f. ⊥)
  unfolding on_disk
  add_module_version-Listed = record {
    at = λ w h.
        add-Listed w (add_version_to_index (on_disk link_escapes suffix) codec w k.index k.version)
          h (add_failed (on_disk link_escapes suffix) codec w k.index k.version);
  }

  -- Any answer but 200 goes with the index as it was.
  abbrev pub Safe : ℕ → Files → Type 0
  Safe status f = status ≢ 200 → Listed f

  module _ (meta_elsewhere : Elsewhere link_escapes q (artifact_meta_key k)) where
    behind_metadata-Safe :
        (bytes key : Bytes) (existed : Bool) (previous : Read) (r : Result (Unit {0}))
        → Elsewhere link_escapes q key
        → Triple Listed
            (behind_metadata link_escapes suffix hash validate a codec k bytes key existed previous
              r)
            Safe
            (λ f. ⊥)
    unfolding behind_metadata
    behind_metadata-Safe bytes key existed previous (fails e) h =
        Triple-bind (drop_new link_escapes suffix hash validate a codec key existed) _
          (drop_new-Same link_escapes suffix q (some b) hash validate a codec k key existed h)
          λ u. Triple-return 500 (λ f x y. x)
    behind_metadata-Safe bytes key existed previous (done u) h =
        Triple-bind (add_module_version link_escapes suffix hash validate a codec k) _
          add_module_version-Listed
          λ ok.
            behind_index-Safe link_escapes suffix q (some b) hash validate a codec k bytes key
              existed previous ok meta_elsewhere h

    behind_artifact-Safe :
        (bytes key : Bytes) (existed : Bool)
        → Elsewhere link_escapes q key
        → Triple Listed
            (behind_artifact link_escapes suffix hash validate a codec k
              (done (bytes, key, existed)))
            Safe
            (λ f. ⊥)
    unfolding behind_artifact
    behind_artifact-Safe bytes key existed h =
        Triple-bind (read_key link_escapes suffix hash validate a codec (artifact_meta_key k)) _
          (record { at = λ w x. x })
          λ previous.
            Triple-bind
              (attempt (
                put link_escapes suffix (artifact_meta_key k) (
                  a.encode (filename_of link_escapes suffix hash validate a codec bytes)
                    (hash bytes))))
              _
              (Triple-attempt_keeps _
                (put-Same link_escapes suffix q (some b) (artifact_meta_key k) _ meta_elsewhere))
              λ r. behind_metadata-Safe bytes key existed previous r h

    module _ (s : Stream) (max : ℕ) (fresh : Fresh suffix)
        (key_elsewhere : Elsewhere link_escapes q
          (module_key link_escapes suffix hash validate a codec k s.bytes)) where
      store_module-Safe :
          Triple Listed
            (store_module link_escapes suffix hash validate a codec k max s)
            Safe
            (λ f. ⊥)
      unfolding store_module behind_artifact
      store_module-Safe =
          behind_stored link_escapes suffix s max validate
            (module_key link_escapes suffix hash validate a codec k) q b fresh
            (behind_artifact link_escapes suffix hash validate a codec k)
            (λ e. Triple-return (store_status e) (λ f h x. h))
            (λ bytes existed. behind_artifact-Safe bytes _ existed key_elsewhere)

-- The upload of a module, whichever calls fail, answers with a status. Where the index has the path
-- `q`, which is not the root, with the bytes `b`, and the keys of the artifact and of its metadata
-- lead elsewhere, any answer but 200 leaves these bytes at `q`.
pub upload_module_fails_safely :
    (link_escapes : Bytes → Bool) (suffix : Bytes → Files → Bytes) (q b : Bytes)
    (hash : Bytes → Bytes) (validate : Bytes → Option Error) (a : ArtifactCodec) {Meta : Type 0}
    (codec : IndexCodec Meta) (k : VersionKeys) (s : Stream) (max : ℕ) (w : World)
    → Fresh suffix
    → resolve link_escapes k.index ≡ some q
    → q ≢ dot
    → Elsewhere link_escapes q (artifact_meta_key k)
    → Elsewhere link_escapes q (module_key link_escapes suffix hash validate a codec k s.bytes)
    → content q w.files ≡ some b
    → Ensures
        (λ status f. status ≢ 200 → content q f ≡ some b)
        (λ f. ⊥)
        (upload_module link_escapes suffix hash validate a codec k max (inr s) w)
unfolding upload_module
upload_module_fails_safely link_escapes suffix q b hash validate a codec k s max w fresh at_q q_ne g
      h l =
    elim (Bool-cases (ltb (length s.bytes) 2)) [
      | inl e ↦ rw (e, upload_module) (λ x. l)
      | inr e ↦
          elim (Option-cases (
            validate_upload (peek link_escapes suffix hash validate a codec s.bytes)
              (codes "tar.gz"))) [
                | inr (x, v) ↦ rw (e, v, upload_module) (λ x. l)
                | inl v ↦
                    rw (e, v, upload_module)
                      ((store_module-Safe link_escapes suffix q b hash validate a codec k at_q q_ne
                          g s max fresh h).at
                        w l)
              ]
    ]
