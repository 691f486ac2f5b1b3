-- ===== src/Manage/Steady.antt =====
-- registry-server/api.go: what an upload of a module that fails leaves of the version index.
use terraform_registry.Base.{
  ℕ, ◌≡◌, ◌≢◌, refl, Bool, true, false, Option, none, some, [], ◌++◌, if◌then◌else◌, ◌||◌, is_nil,
}
use terraform_registry.Text.{Bytes, codes, text_eq}
use terraform_registry.Paths.{dot}
use terraform_registry.Protocol.Reader.{Read, found, missing, failed}
use terraform_registry.Disk.{Files, Error, ◌>>=◌, ◌>>◌, return, try, lookup, invalid_key, parents}
use terraform_registry.Disk.Laws.{content}
use terraform_registry.Disk.Triples.{
  Triple, Triple-bind, Triple-return, Triple-stop, Triple-try, Triple-weaken,
}
use terraform_registry.Storage.Resolve.{resolve}
use terraform_registry.Storage.Writes.{at_path, located, put_at, put, temp_path}
use terraform_registry.Storage.Written.{put_at-Triple}
use terraform_registry.Storage.Deleted.{delete_at-Triple}
use terraform_registry.Storage.Removal.{delete, remove_if_there, prune, backwards}
use terraform_registry.Storage.Index.{IndexCodec}
use terraform_registry.Manage.{
  VersionKeys, ArtifactCodec, artifact_meta_key, filename_of, drop_new, restore, drop_file,
  drop_old, behind_index,
}

-- The path of a key, and that of its temporary file, are not the path `q`, and it is not the root.
abbrev pub Elsewhere : (Bytes → Bool) → Bytes → Bytes → Type 0
Elsewhere link_escapes q key =
    (p : Bytes) → resolve link_escapes key ≡ some p → (p ≢ q) × (temp_path p ≢ q) × (p ≢ dot)

module _ (link_escapes : Bytes → Bool) (suffix : Bytes → Files → Bytes) (q : Bytes)
    (c : Option Bytes) where
  abbrev pub Same : Files → Type 0
  Same f = content q f ≡ c

  put_path :
      (b : Bytes) (r : Option Bytes)
      → ((p : Bytes) → r ≡ some p → (p ≢ q) × (temp_path p ≢ q) × (p ≢ dot))
      → Triple Same (at_path r >>= λ p. put_at p b) (λ u. Same) Same
  unfolding at_path
  put_path b none h = Triple-stop invalid_key (λ f k. k)
  put_path b (some p) h =
      let (g, t, d) = h p refl in
      record {
        at = λ w k.
            (Triple-weaken (put_at p b) (put_at-Triple p b q (lookup p w.files) c g t) (λ f k. k)
                (λ u f k. k.0) (λ f k. k.1)).at
              w (refl, k);
      }

  pub put-Same :
      (key b : Bytes)
      → Elsewhere link_escapes q key
      → Triple Same (put link_escapes suffix key b) (λ u. Same) Same
  unfolding put located
  put-Same key b h = put_path b (resolve link_escapes key) h

  delete_path :
      (r : Option Bytes)
      → ((p : Bytes) → r ≡ some p → (p ≢ q) × (temp_path p ≢ q) × (p ≢ dot))
      → Triple Same
          (at_path r >>= λ p. remove_if_there p >> prune (backwards [] (parents p)))
          (λ u. Same)
          Same
  unfolding at_path
  delete_path none h = Triple-stop invalid_key (λ f k. k)
  delete_path (some p) h =
      let (g, t, d) = h p refl in
      Triple-weaken _ (delete_at-Triple p q c d g) (λ f k. k) (λ u f k. k.1) (λ f k. k)

  delete-Same :
      (key : Bytes)
      → Elsewhere link_escapes q key
      → Triple Same (delete link_escapes key) (λ u. Same) Same
  unfolding delete located
  delete-Same key h = delete_path (resolve link_escapes key) h

  module _ (hash : Bytes → Bytes) (validate : Bytes → Option Error) (a : ArtifactCodec)
      {Meta : Type 0} (codec : IndexCodec Meta) (k : VersionKeys) where
    pub drop_new-Same :
        (key : Bytes) (existed : Bool)
        → Elsewhere link_escapes q key
        → {F : Files → Type 0}
        → Triple Same (drop_new link_escapes suffix hash validate a codec key existed) (λ u. Same) F
    unfolding drop_new
    drop_new-Same key true h = Triple-return tt (λ f k. k)
    drop_new-Same key false h = Triple-try (delete link_escapes key) (delete-Same key h)

    pub restore-Same :
        (key : Bytes) (previous : Read)
        → Elsewhere link_escapes q key
        → {F : Files → Type 0}
        → Triple Same (restore link_escapes suffix hash validate a codec key previous) (λ u. Same) F
    unfolding restore
    restore-Same key (found text) h =
        Triple-try (put link_escapes suffix key text) (put-Same key text h)
    restore-Same key missing h = Triple-try (delete link_escapes key) (delete-Same key h)
    restore-Same key failed h = Triple-try (delete link_escapes key) (delete-Same key h)

    drop_file-runs :
        (name : Bytes) (old : Option Bytes)
        → Triple
            (λ f. Unit {0})
            (drop_file link_escapes suffix hash validate a codec k name old)
            (λ u f. Unit {0})
            (λ f. ⊥)
    unfolding drop_file
    drop_file-runs name none = Triple-return tt (λ f h. tt)
    drop_file-runs name (some old) = tried_or_not (is_nil old || text_eq old name)
      where
        tried_or_not :
            (b : Bool)
            → Triple
                (λ f. Unit {0})
                (if b
                  then return tt
                  else try (delete link_escapes (k.prefix ++ (codes "/" ++ old))))
                (λ u f. Unit {0})
                (λ f. ⊥)
        tried_or_not true = Triple-return tt (λ f h. tt)
        tried_or_not false = record { at = λ w h. tt }

    pub drop_old-runs :
        (name : Bytes) (previous : Read)
        → Triple
            (λ f. Unit {0})
            (drop_old link_escapes suffix hash validate a codec k name previous)
            (λ u f. Unit {0})
            (λ f. ⊥)
    unfolding drop_old
    drop_old-runs name (found text) = drop_file-runs name (a.decode text)
    drop_old-runs name missing = Triple-return tt (λ f h. tt)
    drop_old-runs name failed = Triple-return tt (λ f h. tt)

    -- Any answer but 200 goes with the file as it was.
    abbrev pub Safe : ℕ → Files → Type 0
    Safe status f = status ≢ 200 → Same f

    pub behind_index-Safe :
        (bytes key : Bytes) (existed : Bool) (previous : Read) (ok : Bool)
        → Elsewhere link_escapes q (artifact_meta_key k)
        → Elsewhere link_escapes q key
        → Triple
            (λ f. if ok then Unit {0} else Same f)
            (behind_index link_escapes suffix hash validate a codec k bytes key existed previous ok)
            Safe
            (λ f. ⊥)
    unfolding behind_index
    behind_index-Safe bytes key existed previous false g h =
        Triple-bind
          (restore link_escapes suffix hash validate a codec (artifact_meta_key k) previous) _
          (restore-Same (artifact_meta_key k) previous g)
          λ u.
            Triple-bind (drop_new link_escapes suffix hash validate a codec key existed) _
              (drop_new-Same key existed h) λ u. Triple-return 500 (λ f x y. x)
    behind_index-Safe bytes key existed previous true g h =
        Triple-bind
          (drop_old link_escapes suffix hash validate a codec k
            (filename_of link_escapes suffix hash validate a codec bytes) previous)
          _ (drop_old-runs _ previous) λ u. Triple-return 200 (λ f x y. absurd (y refl))
