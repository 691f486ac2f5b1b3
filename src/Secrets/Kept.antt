-- ===== src/Secrets/Kept.antt =====
-- registry-server/auth.go and signing.go: what the write of a private file leaves behind, whichever
-- of its calls fail.
use terraform_registry.Base.{
  ℕ, ◌≤◌, append_assoc, ◌≡◌, ◌≢◌, refl, sym, ap, ◌∙◌, arith, true, false, Option, some, [], ◌∷◌,
  ◌++◌, length, length-append, take,
}
use terraform_registry.Text.{Bytes, has_prefix}
use terraform_registry.Paths.{dot}
use terraform_registry.Disk.{
  Files, file, cut_base, insert, erase, parents, mkdir_above, create_temp, write, remove, rename,
  on_open_file, on_error, try,
}
use terraform_registry.Disk.Laws.{
  content, content_of, cut_base-append, content-make_dirs, lookup-insert_ne, lookup-erase_ne,
}
use terraform_registry.Disk.Triples.{
  Triple, Triple-bind, Triple-call, Triple-call_keeps, Triple-on_error, Triple-try, Triple-finally,
  Triple-fact, Triple-weaken,
}
use terraform_registry.Storage.Steps.{
  write-Triple, rename-Triple, remove-Triple, on_open_file-Triple,
}
use terraform_registry.Storage.Streams.{flushed}
use terraform_registry.Secrets.{fill_private, write_private}

append-has_prefix : (m s : Bytes) → has_prefix (m ++ s) m ≡ true
unfolding has_prefix
append-has_prefix [] s = refl
append-has_prefix (c ∷ m) s = ground (arith, append-has_prefix m s)

append-cancel : (d a b : Bytes) → d ++ a ≡ d ++ b → a ≡ b
append-cancel [] a b e = e
append-cancel (c ∷ d) a b e = append-cancel d a b (ground (arith, e))

-- A temporary file of the mark is not the file itself.
apart :
    (path mark s : Bytes)
    → has_prefix (cut_base path).1 mark ≡ false
    → (cut_base path).0 ++ mark ++ s ≢ path
apart path mark s h e =
    let same : mark ++ s ≡ (cut_base path).1 =
      append-cancel (cut_base path).0 (mark ++ s) (cut_base path).1
        (sym (append_assoc (cut_base path).0 mark s) ∙ e ∙ sym (cut_base-append path)) in
    ground (arith, append-has_prefix mark s, same)

module _ (path : Bytes) (c : Option Bytes) where
  abbrev Has : Files → Type 0
  Has f = content path f ≡ c

  Has-insert :
      (m : Bytes) (b : Bytes) (t : ℕ) (f : Files) → m ≢ path → Has f → Has (insert m (file b t) f)
  Has-insert m b t f n h = ap content_of (lookup-insert_ne m path (file b t) f n) ∙ h

  Has-erase : (m : Bytes) (f : Files) → m ≢ path → Has f → Has (erase m f)
  Has-erase m f n h = ap content_of (lookup-erase_ne m path f n) ∙ h

  above : Triple Has (mkdir_above path) (λ u. Has) Has
  unfolding mkdir_above
  above =
      Triple-call_keeps _ _ Has (λ w h. content-make_dirs path (parents path) w.files ∙ h)
        (λ n w h. content-make_dirs path (take n (parents path)) w.files ∙ h)

  gone : (m : Bytes) → m ≢ path → Triple Has (try (remove m)) (λ u. Has) Has
  gone m n = remove-Triple m Has (λ b t f. Has-insert m b t f n) (λ f. Has-erase m f n)

  module _ (mark : Bytes) (marked : has_prefix (cut_base path).1 mark ≡ false)
      (long : 2 ≤ length mark) where
    create-Has :
        (suffix : Bytes → Files → Bytes)
        → Triple Has
            (create_temp suffix ((cut_base path).0 ++ mark))
            (λ m f. Has f × ((m ≢ path) × (m ≢ dot)))
            Has
    unfolding create_temp
    create-Has suffix =
        let pattern : Bytes = (cut_base path).0 ++ mark in
        Triple-call _ _
          (λ w h.
            let s : Bytes = suffix pattern w.files in
            let n : pattern ++ s ≢ path = apart path mark s marked in
            (
              Has-insert (pattern ++ s) [] w.now w.files n h,
              (
                n,
                λ e. omega (
                  arith,
                  long,
                  ap length e,
                  length-append pattern s,
                  length-append (cut_base path).0 mark,
                ),
              ),
            ))
          (λ n w h. h)

    fill-Has :
        (m b : Bytes)
        → m ≢ path
        → m ≢ dot
        → Triple Has (fill_private m path b) (λ u f. content path f ≡ some b) Has
    unfolding fill_private
    fill-Has m b n d =
        let ins : (b : Bytes) (t : ℕ) (f : Files) → Has f → Has (insert m (file b t) f) =
          λ b t f. Has-insert m b t f n in
        let del : (f : Files) → Has f → Has (erase m f) = λ f. Has-erase m f n in
        let close : Triple Has (try on_open_file) (λ u. Has) Has =
          Triple-try on_open_file (on_open_file-Triple Has) in
        Triple-bind (on_error on_open_file (try on_open_file)) _
          (Triple-on_error on_open_file (try on_open_file) (on_open_file-Triple Has) close)
          λ u.
            Triple-bind (on_error (write m b) (try on_open_file)) _
              (Triple-on_error (write m b) (try on_open_file) (write-Triple m Has ins del b) close)
              λ u.
                Triple-bind (on_error on_open_file (try on_open_file)) _
                  (Triple-on_error on_open_file (try on_open_file) (flushed m Has ins del b) close)
                  λ u. Triple-bind on_open_file _ (flushed m Has ins del b) λ u.
                    Triple-weaken (rename m path)
                      (rename-Triple m path Has (λ f. Unit {0}) d (λ b t f h. tt) b) (λ f h. h)
                      (λ u f h. h.1) (λ f h. h)

-- The write of a private file, whichever of its calls fail: a success leaves its bytes, a failure what
-- the file was before.
pub write_private-Has :
    (path mark b : Bytes) (c : Option Bytes) (suffix : Bytes → Files → Bytes)
    → has_prefix (cut_base path).1 mark ≡ false
    → 2 ≤ length mark
    → Triple
        (λ f. content path f ≡ c)
        (write_private suffix mark path b)
        (λ u f. content path f ≡ some b)
        (λ f. content path f ≡ c)
unfolding write_private
write_private-Has path mark b c suffix h l = Triple-bind (mkdir_above path) _ (above path c) λ u.
    Triple-bind (create_temp suffix ((cut_base path).0 ++ mark)) _
      (create-Has path c mark h l suffix)
      λ m. Triple-fact _ _ λ k.
        Triple-finally (fill_private m path b) (try (remove m))
          (fill-Has path c mark h l m b k.0 k.1) (λ u. gone path (some b) m k.0) (gone path c m k.0)
