-- ===== src/Manage/Withdrawn.antt =====
-- registry-server/api.go: the upload of a provider answers, and any answer but 200 goes with the
-- version index as it was.
use terraform_registry.Base.{
  ℕ, ◌≡◌, ◌≢◌, inl, inr, refl, Bool, true, false, Bool-cases, Option, none, some, Option-cases,
  List, [], ◌∷◌, if◌then◌else◌, ltb, length,
}
use terraform_registry.Text.{Bytes, codes}
use terraform_registry.Paths.{dot}
use terraform_registry.Protocol.Reader.{Read, PlatformMeta}
use terraform_registry.Disk.{
  Files, Error, io, not_exist, unavailable, Result, done, fails, World, ◌>>◌, return,
}
use terraform_registry.Disk.Laws.{content}
use terraform_registry.Disk.Triples.{
  Ensures, Triple, Triple-bind, Triple-return, Triple-stop, Triple-attempt_keeps,
}
use terraform_registry.Upload.{validate_upload}
use terraform_registry.Storage.Resolve.{resolve}
use terraform_registry.Storage.Writes.{Stream, put}
use terraform_registry.Storage.Published.{Fresh}
use terraform_registry.Storage.Index.{IndexCodec}
use terraform_registry.Signing.{
  ChecksumEntry, checksums_key, signature_key, entries_of_version, of_files, or_stop, checksums_of,
  rebuild_provider_checksums,
}
use terraform_registry.Manage.{store_status, peek, restore}
use terraform_registry.Manage.Steady.{
  Elsewhere, put-Same, drop_new-Same, restore-Same, drop_old-runs,
}
use terraform_registry.Manage.Failed.{add_module_version-Listed, behind_stored}
use terraform_registry.Manage.Provider.{
  ProviderRoute, PlatformCodec, provider_keys, platform_meta_key, archive_name, platform_artifacts,
  archive_key, previous, restore_publication, behind_listing, behind_checksums, behind_platform,
  behind_archive, store_provider, upload_provider,
}

module _ (link_escapes : Bytes → Bool) (suffix : Bytes → Files → Bytes)
    (sort_slice : (ChecksumEntry → ChecksumEntry → Bool) → List ChecksumEntry → List ChecksumEntry)
    (signer : Option (Bytes → Option Bytes)) (q : Bytes) (c : Option Bytes) where
  abbrev Same : Files → Type 0
  Same f = content q f ≡ c

  or_stop-Same :
      {A : Type 0} (e : Error) (o : Option A) → Triple Same (or_stop e o) (λ a. Same) Same
  or_stop-Same e none = Triple-stop e (λ f h. h)
  or_stop-Same e (some a) = record { at = λ w h. h }

  checksums_of-Same :
      (decode : Bytes → Option PlatformMeta) (entries : List ChecksumEntry)
      → Triple Same
          (checksums_of link_escapes suffix decode sort_slice signer entries)
          (λ a. Same)
          Same
  unfolding checksums_of
  checksums_of-Same decode [] = Triple-stop not_exist (λ f h. h)
  checksums_of-Same decode (e ∷ es) = record { at = λ w h. h }

  -- The checksums of a version change no other file than their two.
  rebuild-Same :
      (decode : Bytes → Option PlatformMeta) (namespace name version : Bytes)
      → Elsewhere link_escapes q (checksums_key namespace name version)
      → Elsewhere link_escapes q (signature_key namespace name version)
      → Triple Same
          (rebuild_provider_checksums link_escapes suffix decode sort_slice signer namespace name
            version)
          (λ u. Same)
          Same
  unfolding rebuild_provider_checksums
  rebuild-Same decode namespace name version g h =
      Triple-bind (or_stop unavailable signer) _ (or_stop-Same unavailable signer) λ sign.
        Triple-bind
          (of_files (
            entries_of_version link_escapes suffix decode sort_slice signer namespace name version))
          _ (record { at = λ w h. h })
          λ o. Triple-bind (or_stop io o) _ (or_stop-Same io o) λ entries.
            Triple-bind (checksums_of link_escapes suffix decode sort_slice signer entries) _
              (checksums_of-Same decode entries)
              λ sums. Triple-bind (or_stop io (sign sums)) _ (or_stop-Same io (sign sums)) λ s.
                Triple-bind (put link_escapes suffix (checksums_key namespace name version) sums) _
                  (put-Same link_escapes suffix q c (checksums_key namespace name version) sums g)
                  λ u. put-Same link_escapes suffix q c (signature_key namespace name version) s h

module _ (link_escapes : Bytes → Bool) (suffix : Bytes → Files → Bytes) (hash : Bytes → Bytes)
    (validate : Bytes → Option Error) {Meta : Type 0} (codec : IndexCodec Meta) (p : PlatformCodec)
    (sort_slice : (ChecksumEntry → ChecksumEntry → Bool) → List ChecksumEntry → List ChecksumEntry)
    (signer : Option (Bytes → Option Bytes)) (u : ProviderRoute) (q b : Bytes)
    (at_q : resolve link_escapes (provider_keys u).index ≡ some q) (q_ne : q ≢ dot)
    (meta_elsewhere : Elsewhere link_escapes q (platform_meta_key u))
    (sums_elsewhere : Elsewhere link_escapes q (checksums_key u.namespace u.name u.version))
    (signature_elsewhere : Elsewhere link_escapes q
      (signature_key u.namespace u.name u.version)) where
  abbrev Indexed : Files → Type 0
  Indexed f = content q f ≡ some b

  -- Any answer but 200 goes with the index as it was.
  abbrev Unless : ℕ → Files → Type 0
  Unless status f = status ≢ 200 → Indexed f

  withdrawn :
      (key : Bytes) (existed : Bool) (meta sums signature : Read)
      → Elsewhere link_escapes q key
      → Triple Indexed
          (restore_publication link_escapes suffix hash validate codec p sort_slice signer u key
              existed meta sums signature
            >> return 500)
          Unless
          (λ f. ⊥)
  unfolding restore_publication
  withdrawn key existed meta sums signature h =
      Triple-bind _ _
        (Triple-bind _ _ (restored (platform_meta_key u) meta meta_elsewhere) λ x.
          Triple-bind _ _
            (restored (checksums_key u.namespace u.name u.version) sums sums_elsewhere)
            λ x.
              Triple-bind _ _
                (restored (signature_key u.namespace u.name u.version) signature
                  signature_elsewhere)
                λ x.
                  drop_new-Same link_escapes suffix q (some b) hash validate
                    (platform_artifacts p u) codec (provider_keys u) key existed h)
        λ x. Triple-return 500 (λ f k y. k)
    where
      restored :
          (key : Bytes) (r : Read)
          → Elsewhere link_escapes q key
          → Triple Indexed
              (restore link_escapes suffix hash validate (platform_artifacts p u) codec key r)
              (λ x. Indexed)
              (λ f. ⊥)
      restored key r g =
          restore-Same link_escapes suffix q (some b) hash validate (platform_artifacts p u) codec
            (provider_keys u) key r g

  listing-Unless :
      (bytes key : Bytes) (existed : Bool) (meta sums signature : Read) (ok : Bool)
      → Elsewhere link_escapes q key
      → Triple
          (λ f. if ok then Unit {0} else Indexed f)
          (behind_listing link_escapes suffix hash validate codec p sort_slice signer u bytes key
            existed meta sums signature ok)
          Unless
          (λ f. ⊥)
  unfolding behind_listing
  listing-Unless bytes key existed meta sums signature false h =
      withdrawn key existed meta sums signature h
  listing-Unless bytes key existed meta sums signature true h =
      Triple-bind _ _
        (drop_old-runs link_escapes suffix q (some b) hash validate (platform_artifacts p u) codec
          (provider_keys u) (archive_name u (hash bytes)) meta)
        λ x. Triple-return 200 (λ f k y. absurd (y refl))

  checksums-Unless :
      (bytes key : Bytes) (existed : Bool) (meta sums signature : Read) (r : Result (Unit {0}))
      → Elsewhere link_escapes q key
      → Triple Indexed
          (behind_checksums link_escapes suffix hash validate codec p sort_slice signer u bytes key
            existed meta sums signature r)
          Unless
          (λ f. ⊥)
  unfolding behind_checksums
  checksums-Unless bytes key existed meta sums signature (fails e) h =
      withdrawn key existed meta sums signature h
  checksums-Unless bytes key existed meta sums signature (done x) h =
      Triple-bind _ _
        (add_module_version-Listed link_escapes suffix q b hash validate (platform_artifacts p u)
          codec (provider_keys u) at_q q_ne)
        λ ok. listing-Unless bytes key existed meta sums signature ok h

  previous-Indexed :
      (key : Bytes)
      → Triple Indexed
          (previous link_escapes suffix hash validate codec p sort_slice signer u key)
          (λ r. Indexed)
          (λ f. ⊥)
  previous-Indexed key = record { at = λ w k. k }

  platform-Unless :
      (bytes key : Bytes) (existed : Bool) (meta : Read) (r : Result (Unit {0}))
      → Elsewhere link_escapes q key
      → Triple Indexed
          (behind_platform link_escapes suffix hash validate codec p sort_slice signer u bytes key
            existed meta r)
          Unless
          (λ f. ⊥)
  unfolding behind_platform
  platform-Unless bytes key existed meta (fails e) h =
      Triple-bind _ _
        (drop_new-Same link_escapes suffix q (some b) hash validate (platform_artifacts p u) codec
          (provider_keys u) key existed h)
        λ x. Triple-return 500 (λ f k y. k)
  platform-Unless bytes key existed meta (done x) h =
      Triple-bind _ _ (previous-Indexed (checksums_key u.namespace u.name u.version)) λ sums.
        Triple-bind _ _ (previous-Indexed (signature_key u.namespace u.name u.version)) λ signature.
          Triple-bind _ _
            (Triple-attempt_keeps _ (
              rebuild-Same link_escapes suffix sort_slice signer q (some b) p.decode u.namespace
                u.name u.version sums_elsewhere signature_elsewhere))
            λ r. checksums-Unless bytes key existed meta sums signature r h

  archive-Unless :
      (bytes : Bytes) (existed : Bool) (key : Bytes)
      → Elsewhere link_escapes q key
      → Triple Indexed
          (behind_archive link_escapes suffix hash validate codec p sort_slice signer u
            (done (bytes, key, existed)))
          Unless
          (λ f. ⊥)
  unfolding behind_archive
  archive-Unless bytes existed key h =
      Triple-bind _ _ (previous-Indexed (platform_meta_key u)) λ meta.
        Triple-bind _ _
          (Triple-attempt_keeps _ (
            put-Same link_escapes suffix q (some b) (platform_meta_key u)
              ((platform_artifacts p u).encode (archive_name u (hash bytes)) (hash bytes))
              meta_elsewhere))
          λ r. platform-Unless bytes key existed meta r h

  module _ (s : Stream) (max : ℕ) (fresh : Fresh suffix)
      (key_elsewhere : Elsewhere link_escapes q
        (archive_key link_escapes suffix hash validate codec p sort_slice signer u s.bytes)) where
    store_provider-Unless :
        Triple Indexed
          (store_provider link_escapes suffix hash validate codec p sort_slice signer u max s)
          Unless
          (λ f. ⊥)
    unfolding store_provider behind_archive
    store_provider-Unless =
        behind_stored link_escapes suffix s max validate
          (archive_key link_escapes suffix hash validate codec p sort_slice signer u) q b fresh
          (behind_archive link_escapes suffix hash validate codec p sort_slice signer u)
          (λ e. Triple-return (store_status e) (λ f h x. h))
          (λ bytes existed. archive-Unless bytes existed _ key_elsewhere)

    -- The upload of a provider, whichever calls fail, answers with a status. Where the version index has
    -- the path `q`, which is not the root, with the bytes `b`, and the keys of the archive, of its
    -- metadata, of the checksums and of their signature lead elsewhere, any answer but 200 leaves these
    -- bytes at `q`.
    pub upload_provider_fails_safely :
        (w : World)
        → content q w.files ≡ some b
        → Ensures
            (λ status f. status ≢ 200 → content q f ≡ some b)
            (λ f. ⊥)
            (upload_provider link_escapes suffix hash validate codec p sort_slice signer u max
              (inr s)
              w)
    unfolding upload_provider
    upload_provider_fails_safely w l = elim (Bool-cases (ltb (length s.bytes) 4)) [
      | inl e ↦ rw (e, upload_provider) (λ x. l)
      | inr e ↦
          elim (Option-cases (
            validate_upload
              (peek link_escapes suffix hash validate (platform_artifacts p u) codec s.bytes)
              (codes "zip"))) [
                | inr (x, v) ↦ rw (e, v, upload_provider) (λ x. l)
                | inl v ↦ rw (e, v, upload_provider) (store_provider-Unless.at w l)
              ]
    ]
