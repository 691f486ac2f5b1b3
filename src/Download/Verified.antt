-- ===== src/Download/Verified.antt =====
-- cmd/tfreg/main.go: what a verified download leaves at its destination.
use terraform_registry.Base.{
  ℕ, ◌+◌, ◌≡◌, ◌≢◌, inl, inr, ap, arith, true, Bool-cases, Option, none, some, [], ◌∷◌, length,
  length-append, ◌==◌,
}
use terraform_registry.Text.{Bytes, codes}
use terraform_registry.Paths.{dot}
use terraform_registry.Disk.{
  Files, file, World, mkdir_above, create_temp, write, rename, on_open_file, cut_base, insert,
  erase,
}
use terraform_registry.Disk.Laws.{content}
use terraform_registry.Disk.Triples.{
  Ensures, Triple, Triple-bind, Triple-fact, Triple-on_error, Triple-weaken,
}
use terraform_registry.Storage.Writes.{Stream, discard, fail_with}
use terraform_registry.Storage.Steps.{write-Triple, rename-Triple, discard-Triple}
use terraform_registry.Storage.Streams.{flushed, checked}
use terraform_registry.Storage.Published.{
  Kept, Kept-now, Kept-insert, Kept-erase, Apart, Fresh, mkdir_above-Kept, create_temp-Triple,
}
use terraform_registry.Download.{
  Response, equal_fold, download_pattern, mismatch, receive_file, save, download_file_with_checksum,
  download_file_verified,
}

module _ (suffix : Bytes → Files → Bytes) (hash : Bytes → Bytes) (fresh : Fresh suffix)
    (dest expected : Bytes) (body : Stream) where
  -- The body came to its end, and its checksum is the one that was asked for.
  abbrev pub Received : Files → Type 0
  Received f =
      (content dest f ≡ some body.bytes)
      × (body.failure ≡ none)
      × (mismatch suffix hash expected body.bytes ≡ none)

  module _ (c : Option Bytes) where
    receive_file-Received :
        (m : Bytes)
        → m ≢ dot
        → Apart m dest c
        → Triple
            (Kept dest c)
            (receive_file suffix hash m dest expected body)
            (λ u. Received)
            (Kept dest c)
    unfolding receive_file
    receive_file-Received m d a =
        let P : Files → Type 0 = Kept dest c in
        let ins : (b : Bytes) (t : ℕ) (f : Files) → P f → P (insert m (file b t) f) =
          λ b t f. Kept-insert m dest c (file b t) f a in
        let del : (f : Files) → P f → P (erase m f) = λ f. Kept-erase m dest c f a in
        let b : Bytes = body.bytes in
        Triple-bind (write m b) _ (write-Triple m P ins del b) λ u.
          Triple-bind (fail_with body.failure) _ (checked m P ins del body.failure b) λ u.
            Triple-fact _ _ λ e.
              Triple-bind (fail_with (mismatch suffix hash expected b)) _
                (checked m P ins del (mismatch suffix hash expected b) b)
                λ u. Triple-fact _ _ λ v. Triple-bind on_open_file _ (flushed m P ins del b) λ u.
                  Triple-bind on_open_file _ (flushed m P ins del b) λ u.
                    Triple-weaken (rename m dest)
                      (rename-Triple m dest P (λ f. Unit {0}) d (λ b t f h. tt) b) (λ f h. h)
                      (λ u f h. (h.1, e, v)) (λ f h. h)

    save-Received :
        Triple (Kept dest c) (save suffix hash dest expected body) (λ u. Received) (Kept dest c)
    unfolding save
    save-Received =
        let pattern : Bytes = download_pattern dest in
        let P : Files → Type 0 = Kept dest c in
        let l : length pattern ≡ length (cut_base dest).0 + 16 =
          length-append (cut_base dest).0 (codes ".tfreg-download-") in
        Triple-bind (mkdir_above dest) _ (mkdir_above-Kept dest c dest) λ u.
          Triple-bind (create_temp suffix pattern) _
            (create_temp-Triple dest c suffix pattern P fresh (λ f h. h)
              λ m t f a l h. Kept-insert m dest c (file [] t) f a h)
            λ m. Triple-fact _ _ λ k.
              Triple-on_error (receive_file suffix hash m dest expected body) (discard m)
                (receive_file-Received m (λ e. omega (arith, l, k.1, ap length e)) k.0)
                (discard-Triple m P (λ b t f. Kept-insert m dest c (file b t) f k.0)
                  (λ f. Kept-erase m dest c f k.0))

-- The answer was 200, and its whole body, of the checksum, is at the destination.
abbrev pub Downloaded : (Bytes → Bytes) → Bytes → Bytes → Option Response → Files → Type 0
Downloaded hash dest expected none f = ⊥
Downloaded hash dest expected (some r) f =
    (r.status ≡ 200)
    × (content dest f ≡ some r.body.bytes)
    × (r.body.failure ≡ none)
    × (equal_fold (hash r.body.bytes) expected ≡ true)

matched :
    (suffix : Bytes → Files → Bytes) (hash : Bytes → Bytes) (expected b : Bytes)
    → length expected ≡ 64
    → mismatch suffix hash expected b ≡ none
    → equal_fold (hash b) expected ≡ true
unfolding mismatch
matched suffix hash [] b h e = ground (arith, h)
matched suffix hash (x ∷ xs) b h e = ground (arith, e)

downloaded :
    (suffix : Bytes → Files → Bytes) (hash : Bytes → Bytes) (dest expected : Bytes) (r : Response)
    (w : World)
    → Fresh suffix
    → length expected ≡ 64
    → r.status ≡ 200
    → Ensures
        (λ u. Downloaded hash dest expected (some r))
        (Kept dest (content dest w.files))
        (save suffix hash dest expected r.body w)
downloaded suffix hash dest expected r w fresh l s =
    (Triple-weaken (save suffix hash dest expected r.body)
        (save-Received suffix hash fresh dest expected r.body (content dest w.files)) (λ f h. h)
        (λ u f h. (s, h.0, h.1, matched suffix hash expected r.body.bytes l h.2)) (λ f h. h)).at
      w (Kept-now dest w.files)

-- A verified download, whichever of its calls fail: it succeeds only with an answer of status 200,
-- whose whole body is then at the destination and has the expected checksum up to the case of
-- letters; when it fails, a file that was at the destination has its bytes.
pub download_file_verified-Downloaded :
    (suffix : Bytes → Files → Bytes) (hash : Bytes → Bytes) (r : Option Response)
    (dest expected : Bytes) (w : World)
    → Fresh suffix
    → Ensures
        (λ u. Downloaded hash dest expected r)
        (Kept dest (content dest w.files))
        (download_file_verified suffix hash r dest expected w)
unfolding download_file_verified download_file_with_checksum
download_file_verified-Downloaded suffix hash none dest expected w fresh =
    elim (Bool-cases (length expected == 64)) [
      | inl e ↦ rw (e, download_file_verified) (Kept-now dest w.files)
      | inr e ↦ rw (e, download_file_verified) (Kept-now dest w.files)
    ]
download_file_verified-Downloaded suffix hash (some r) dest expected w fresh =
    elim (Bool-cases (length expected == 64)) [
      | inr e ↦ rw (e, download_file_verified) (Kept-now dest w.files)
      | inl e ↦ elim (Bool-cases (r.status == 200)) [
        | inr g ↦
            rw (e, g, download_file_verified, download_file_with_checksum) (Kept-now dest w.files)
        | inl g ↦
            rw (e, g, download_file_verified, download_file_with_checksum)
              (downloaded suffix hash dest expected r w fresh (ground arith) (ground arith))
      ]
    ]
