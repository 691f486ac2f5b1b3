-- ===== src/Storage/Steps.antt =====
-- What the steps of the writes in registry-server/storage.go leave alone: the steps on the temporary
-- file `tmp` keep what `ins` and `del` say of it, and the rename moves its bytes to the destination.
use terraform_registry.Base.{
  ℕ, Option, none, some, ◌≡◌, ◌≢◌, refl, ap, ◌∙◌, arith, take, Bool, true, false, [],
}
use terraform_registry.Text.{Bytes}
use terraform_registry.Paths.{dot}
use terraform_registry.Disk.{
  Node, file, directory, Files, Error, World, on_error, try, insert, erase, node_at, on_open_file,
  write, remove, rename, rename_node, remove_node, truncate_node, open_trunc,
}
use terraform_registry.Disk.Laws.{content, node_at-other, content_of, lookup-insert_self}
use terraform_registry.Disk.Triples.{
  Ensures, Triple, Triple-call, Triple-call_keeps, Triple-return, Triple-stop, Triple-try,
  Triple-on_error, Triple-first, Triple-bind,
}
use terraform_registry.Storage.Writes.{discard, replace, fail_with}

pub on_open_file-Triple : (P : Files → Type 0) → Triple P on_open_file (λ u. P) P
unfolding on_open_file
on_open_file-Triple P = Triple-call _ _ (λ w h. h) (λ n w h. h)

pub fail_with-Triple : (P : Files → Type 0) (e : Option Error) → Triple P (fail_with e) (λ u. P) P
unfolding fail_with
fail_with-Triple P none = Triple-return tt (λ f h. h)
fail_with-Triple P (some e) = Triple-stop e (λ f h. h)

content_file :
    (p : Bytes) (b : Bytes) (t : ℕ) (f : Files) → content p (insert p (file b t) f) ≡ some b
content_file p b t f = rw (lookup-insert_self p (file b t) f) refl

module _ (tmp : Bytes) (P : Files → Type 0)
    (ins : (b : Bytes) (t : ℕ) (f : Files) → P f → P (insert tmp (file b t) f))
    (del : (f : Files) → P f → P (erase tmp f)) where
  pub write-Triple : (b : Bytes) → Triple P (write tmp b) (λ u f. P f × (content tmp f ≡ some b)) P
  unfolding write
  write-Triple b =
      Triple-call _ _ (λ w h. (ins b w.now w.files h, content_file tmp b w.now w.files))
        (λ n w h. ins (take n b) w.now w.files h)

  removed : (f : Files) (n : Option Node) (b : Bool) → P f → P (remove_node tmp b n f).1
  unfolding remove_node
  removed f none b h = h
  removed f (some (file c t)) b h = del f h
  removed f (some directory) true h = h
  removed f (some directory) false h = del f h

  opened : (f : Files) (n : Option Node) (t : ℕ) → P f → P (truncate_node tmp t n f).1
  unfolding truncate_node
  opened f none t h = ins [] t f h
  opened f (some (file c u)) t h = ins [] t f h
  opened f (some directory) t h = h

  pub open_trunc-Triple : Triple P (open_trunc tmp) (λ u. P) P
  unfolding open_trunc
  open_trunc-Triple =
      Triple-call_keeps _ _ P (λ w h. opened w.files (node_at tmp w.files) w.now h) (λ n w h. h)

  pub remove-Triple : Triple P (try (remove tmp)) (λ u. P) P
  unfolding remove
  remove-Triple =
      Triple-try (remove tmp)
        (Triple-call_keeps _ _ P (λ w h. removed w.files (node_at tmp w.files) _ h) (λ n w h. h))

  pub discard-Triple : Triple P (discard tmp) (λ u. P) P
  unfolding discard
  discard-Triple =
      Triple-bind (try on_open_file) (λ u. try (remove tmp))
        (Triple-try on_open_file (on_open_file-Triple P)) (λ u. remove-Triple)

module _ (tmp p : Bytes) (P R : Files → Type 0) (tmp_ne : tmp ≢ dot)
    (arrive : (b : Bytes) (t : ℕ) (f : Files) → P f → R (insert p (file b t) (erase tmp f)))
    (b : Bytes) where
  arrived :
      (f : Files) (n m : Option Node) (w : World)
      → P f
      → content_of n ≡ some b
      → Ensures
          (λ u f. R f × (content p f ≡ some b))
          P
          ((rename_node tmp p n m f).0, record w { files = (rename_node tmp p n m f).1 })
  unfolding rename_node
  arrived f none m w h e = ground arith
  arrived f (some directory) m w h e = ground arith
  arrived f (some (file c t)) none w h e = (arrive c t f h, content_file p c t (erase tmp f) ∙ e)
  arrived f (some (file c t)) (some (file d u)) w h e =
      (arrive c t f h, content_file p c t (erase tmp f) ∙ e)
  arrived f (some (file c t)) (some directory) w h e = h

  pub rename-Triple :
      Triple
        (λ f. P f × (content tmp f ≡ some b))
        (rename tmp p)
        (λ u f. R f × (content p f ≡ some b))
        P
  unfolding rename
  rename-Triple =
      Triple-call _ _
        (λ w h.
          arrived w.files (node_at tmp w.files) (node_at p w.files) w h.0
            (ap content_of (node_at-other tmp w.files tmp_ne) ∙ h.1))
        (λ n w h. h.0)

  module _ (ins : (b : Bytes) (t : ℕ) (f : Files) → P f → P (insert tmp (file b t) f))
      (del : (f : Files) → P f → P (erase tmp f)) where
    -- the files once the temporary file has the bytes
    abbrev Filled : Files → Type 0
    Filled f = P f × (content tmp f ≡ some b)

    flushed : Triple Filled on_open_file (λ u. Filled) P
    flushed = Triple-first on_open_file (on_open_file-Triple Filled)

    pub replace-Triple : Triple P (replace tmp p b) (λ u f. R f × (content p f ≡ some b)) P
    unfolding replace
    replace-Triple =
        let d = discard-Triple tmp P ins del in
        let r = remove-Triple tmp P ins del in
        Triple-bind (on_error (write tmp b) (discard tmp)) _
          (Triple-on_error _ _ (write-Triple tmp P ins del b) d)
          λ u.
            Triple-bind (on_error on_open_file (discard tmp)) _ (Triple-on_error _ _ flushed d) λ u.
              Triple-bind (on_error on_open_file (try (remove tmp))) _
                (Triple-on_error _ _ flushed r)
                λ u. Triple-on_error (rename tmp p) (try (remove tmp)) rename-Triple r
