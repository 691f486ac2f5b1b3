-- ===== src/Storage/Immutable.antt =====
-- registry-server/storage.go: what `PutStreamImmutable` leaves behind, whichever of its calls fail.
use terraform_registry.Base.{
  ℕ, ◌≡◌, ◌≢◌, refl, ap, ◌∙◌, subst, arith, Option, none, some, if◌then◌else◌, [], length, Bool,
  true, false,
}
use terraform_registry.Text.{Bytes, codes}
use terraform_registry.Text.Laws.{text_eq_iff}
use terraform_registry.Paths.{dot}
use terraform_registry.Disk.{
  Node, file, Files, Error, not_exist, io, invalid_key, too_large, invalid_archive, corrupt,
  unavailable, Result, done, fails, World, ◌>>◌, insert, erase, node_at, stat, create_temp, attempt,
  finally, on_open_file, mkdir_above, return,
}
use terraform_registry.Disk.Laws.{content, content_of, lookup-insert_ne, lookup-erase_ne}
use terraform_registry.Disk.Triples.{
  Ensures, Triple, Triple-bind, Triple-fact, Triple-return, Triple-stop, Triple-weaken,
  Triple-first, Triple-finally, Triple-and,
}
use terraform_registry.Storage.Resolve.{resolve}
use terraform_registry.Storage.Writes.{
  Stream, receive, discard, located, fail_with, store_once, publish_new, publish_once,
  put_stream_immutable,
}
use terraform_registry.Storage.Reused.{Known, stat-Known, located-Triple, IsTold, IsTold-Triple}
use terraform_registry.Storage.Steps.{discard-Triple, on_open_file-Triple, rename-Triple}
use terraform_registry.Storage.Streams.{Received, receive-Triple, fail_with-fact}
use terraform_registry.Storage.Published.{
  Kept, Kept-now, Kept-insert, Kept-erase, Apart, Fresh, mkdir_above-Kept, create_temp-Triple,
  Published,
}

missing-content : (p : Bytes) (f : Files) → node_at p f ≡ none → content p f ≡ none
unfolding node_at
missing-content p f e = ground (arith, text_eq_iff p dot)

missing-Apart :
    (p q : Bytes) (c : Option Bytes) (f : Files) → node_at p f ≡ none → Kept q c f → Apart p q c
missing-Apart p q none f e k = tt
missing-Apart p q (some b) f e k =
    λ g. ground (arith, missing-content p f e, ap (λ x. content x f) g)

missing-ne : (p m b : Bytes) (f : Files) → node_at p f ≡ none → content m f ≡ some b → m ≢ p
missing-ne p m b f e k = λ g. ground (arith, missing-content p f e, ap (λ x. content x f) g)

module _ (q : Bytes) (c : Option Bytes) (m : Bytes) (b : Bytes) (m_ne : m ≢ dot) where
  abbrev Uploaded : Files → Type 0
  Uploaded f = Kept q c f × (content m f ≡ some b)

  -- the destination behind the publication
  abbrev Placed : Bytes → Bool → Files → Type 0
  Placed p existed f = Kept q c f × (if existed then Unit {0} else (content p f ≡ some b) × (m ≢ p))

  publish_new-Triple :
      (p : Bytes)
      → Apart p q c
      → Apart m q c
      → Triple Uploaded (publish_new m p) (λ u f. Kept q c f × (content p f ≡ some b)) (Kept q c)
  unfolding publish_new
  publish_new-Triple p a d =
      Triple-bind (mkdir_above p) _
        (Triple-weaken (mkdir_above p)
          (Triple-and (mkdir_above p) (mkdir_above-Kept q c p) (mkdir_above-Kept m (some b) p))
          (λ f h. h) (λ a f h. h) (λ f h. h.0))
        λ u.
          Triple-bind on_open_file _ (Triple-first on_open_file (on_open_file-Triple Uploaded)) λ u.
            rename-Triple m p (Kept q c) (Kept q c) m_ne
              (λ b t f h. Kept-insert p q c (file b t) (erase m f) a (Kept-erase m q c f d h)) b

  publish_once-Triple :
      (p : Bytes) (r : Result Node)
      → Apart m q c
      → Triple (λ f. Uploaded f × Known p r f) (publish_once m p r) (Placed p) (Kept q c)
  unfolding publish_once
  publish_once-Triple p (done n) d = Triple-return true (λ f h. (h.0.0, tt))
  publish_once-Triple p (fails not_exist) d =
      Triple-weaken (publish_new m p >> return false)
        (Triple-fact (publish_new m p >> return false) (Apart p q c × (m ≢ p)) λ k.
          Triple-bind (publish_new m p) _ (publish_new-Triple p k.0 d)
            λ u. Triple-return false (λ f h. (h.0, (h.1, k.1))))
        (λ f h. (h.0, (missing-Apart p q c f h.1 h.0.0, missing-ne p m b f h.1 h.0.1))) (λ a f h. h)
        (λ f h. h)
  publish_once-Triple p (fails io) d = Triple-stop io (λ f h. h.0.0)
  publish_once-Triple p (fails invalid_key) d = Triple-stop invalid_key (λ f h. h.0.0)
  publish_once-Triple p (fails too_large) d = Triple-stop too_large (λ f h. h.0.0)
  publish_once-Triple p (fails invalid_archive) d = Triple-stop invalid_archive (λ f h. h.0.0)
  publish_once-Triple p (fails corrupt) d = Triple-stop corrupt (λ f h. h.0.0)
  publish_once-Triple p (fails unavailable) d = Triple-stop unavailable (λ f h. h.0.0)

-- the bytes at a resolved key
abbrev pub content_at : Option Bytes → Files → Option Bytes
content_at none f = none
content_at (some p) f = content p f

content_at-insert :
    (r : Option Bytes) (m : Bytes) (n : Node) (f : Files)
    → some m ≢ r
    → content_at r (insert m n f) ≡ content_at r f
content_at-insert none m n f h = refl
content_at-insert (some p) m n f h = ap content_of (lookup-insert_ne m p n f (λ e. h (ap some e)))

content_at-erase :
    (r : Option Bytes) (m : Bytes) (f : Files)
    → some m ≢ r
    → content_at r (erase m f) ≡ content_at r f
content_at-erase none m f h = refl
content_at-erase (some p) m f h = ap content_of (lookup-erase_ne m p f (λ e. h (ap some e)))

module _ (link_escapes : Bytes → Bool) (s : Stream) (max : ℕ) (validate : Bytes → Option Error)
    (key_of : Bytes → Bytes) where
  -- What a success returns: an object that was not there before has the bytes of the upload now.
  abbrev pub Stored : Bytes × Bytes × Bool → Files → Type 0
  Stored (b, key, existed) f =
      (b ≡ s.bytes)
      × (key ≡ key_of s.bytes)
      × Published s max validate
      × (if existed then Unit {0} else content_at (resolve link_escapes key) f ≡ some b)

  module _ (q : Bytes) (c : Option Bytes) (m : Bytes) (m_ne : m ≢ dot) (d : Apart m q c) where
    -- what is known before the temporary file goes
    abbrev Ready : Bytes × Bytes × Bool → Files → Type 0
    Ready (b, key, existed) f =
        ((b ≡ s.bytes) × (key ≡ key_of s.bytes) × Published s max validate)
        × Kept q c f
        × (if existed
            then Unit {0}
            else (content_at (resolve link_escapes key) f ≡ some b)
              × (some m ≢ resolve link_escapes key))

    ready :
        (b p : Bytes) (existed : Bool) (f : Files)
        → Received s max b
        → validate b ≡ none
        → resolve link_escapes (key_of b) ≡ some p
        → Placed q c m b m_ne p existed f
        → Ready (b, key_of b, existed) f
    ready b p true f r v e h =
        ((r.0, ap key_of r.0, (r.1, r.2, subst (λ b. validate b ≡ none) r.0 v)), h.0, tt)
    ready b p false f r v e h = (
      (r.0, ap key_of r.0, (r.1, r.2, subst (λ b. validate b ≡ none) r.0 v)),
      h.0,
      (ap (λ x. content_at x f) e ∙ h.1.0, λ g. h.1.1 (ground (arith, g ∙ e))),
    )

    store_once-Triple :
        Triple (Kept q c) (store_once link_escapes s max validate key_of m) Ready (Kept q c)
    unfolding store_once
    store_once-Triple =
        Triple-bind (receive m s max) _
          (receive-Triple m (Kept q c) (λ b t f. Kept-insert m q c (file b t) f d)
            (λ f. Kept-erase m q c f d) s max)
          λ b. Triple-fact _ _ λ r.
            Triple-bind on_open_file _
              (Triple-first on_open_file (on_open_file-Triple (Uploaded q c m b m_ne)))
              λ u.
                Triple-bind (fail_with (validate b)) _
                  (Triple-first (fail_with (validate b))
                    (fail_with-fact (Uploaded q c m b m_ne) (validate b)))
                  λ u. Triple-fact _ _ λ v.
                    Triple-bind (located link_escapes (key_of b)) _
                      (Triple-first _
                        (located-Triple link_escapes (key_of b) (Uploaded q c m b m_ne)))
                      λ p. Triple-fact _ _ λ e.
                        Triple-bind (attempt (stat p)) _
                          (Triple-first _ (stat-Known p (Uploaded q c m b m_ne)))
                          λ k.
                            Triple-bind (publish_once m p k) _
                              (publish_once-Triple q c m b m_ne p k d)
                              λ existed.
                                Triple-return (b, key_of b, existed)
                                  (λ f h. ready b p existed f r v e h)

    Ready-insert :
        (a : Bytes × Bytes × Bool) (x : Bytes) (t : ℕ) (f : Files)
        → Ready a f
        → Ready a (insert m (file x t) f)
    Ready-insert (b, key, true) x t f (h, k, g) = (h, Kept-insert m q c (file x t) f d k, tt)
    Ready-insert (b, key, false) x t f (h, k, g) = (
      h,
      Kept-insert m q c (file x t) f d k,
      (content_at-insert (resolve link_escapes key) m (file x t) f g.1 ∙ g.0, g.1),
    )

    Ready-erase : (a : Bytes × Bytes × Bool) (f : Files) → Ready a f → Ready a (erase m f)
    Ready-erase (b, key, true) f (h, k, g) = (h, Kept-erase m q c f d k, tt)
    Ready-erase (b, key, false) f (h, k, g) = (
      h,
      Kept-erase m q c f d k,
      (content_at-erase (resolve link_escapes key) m f g.1 ∙ g.0, g.1),
    )

    Ready-Stored : (a : Bytes × Bytes × Bool) (f : Files) → Ready a f → Stored a f × Kept q c f
    Ready-Stored (b, key, true) f (h, k, g) = ((h.0, h.1, h.2, tt), k)
    Ready-Stored (b, key, false) f (h, k, g) = ((h.0, h.1, h.2, g.0), k)

    pub Stored-Triple :
        Triple
          (Kept q c)
          (finally (store_once link_escapes s max validate key_of m) (discard m))
          (λ a f. Stored a f × Kept q c f)
          (Kept q c)
    Stored-Triple =
        Triple-finally (store_once link_escapes s max validate key_of m) (discard m)
          store_once-Triple
          (λ a.
            Triple-weaken (discard m) (discard-Triple m (Ready a) (Ready-insert a) (Ready-erase a))
              (λ f h. h) (λ u f h. Ready-Stored a f h) (λ f h. Ready-Stored a f h))
          (discard-Triple m (Kept q c) (λ b t f. Kept-insert m q c (file b t) f d)
            (λ f. Kept-erase m q c f d))

keeps-Triple :
    (link_escapes : Bytes → Bool) (suffix : Bytes → Files → Bytes) (s : Stream) (max : ℕ)
    (validate : Bytes → Option Error) (key_of : Bytes → Bytes) (q : Bytes) (c : Option Bytes)
    → Fresh suffix
    → Triple
        (Kept q c)
        (put_stream_immutable link_escapes suffix s max validate key_of)
        (λ r f. Stored link_escapes s max validate key_of r f × Kept q c f)
        (Kept q c)
unfolding put_stream_immutable
keeps-Triple link_escapes suffix s max validate key_of q c fresh =
    Triple-bind (create_temp suffix (codes ".tmp-upload-")) _
      (create_temp-Triple q c suffix (codes ".tmp-upload-") (Kept q c) fresh (λ f h. h)
        (λ m t f a l h. Kept-insert m q c (file [] t) f a h))
      (λ m. Triple-fact _ _ λ k.
        Stored-Triple link_escapes s max validate key_of q c m
          (λ e. omega (arith, k.1, ap length e)) k.0)

-- `PutStreamImmutable`, whichever of its calls fail: every file that was there has its bytes. A
-- success returns the bytes of the upload, which came to its end within the limit and passed the
-- validation, and their key. If it says that the object was not there before, it has these bytes now;
-- if it says that it was, then it was, unless its key names a temporary file of an upload.
pub put_stream_immutable_keeps :
    (link_escapes : Bytes → Bool) (suffix : Bytes → Files → Bytes) (s : Stream) (max : ℕ)
    (validate : Bytes → Option Error) (key_of : Bytes → Bytes) (q : Bytes) (w : World)
    → Fresh suffix
    → Ensures
        (λ r f.
          Stored link_escapes s max validate key_of r f
          × Kept q (content q w.files) f
          × IsTold link_escapes (key_of s.bytes) w.files r)
        (Kept q (content q w.files))
        (put_stream_immutable link_escapes suffix s max validate key_of w)
put_stream_immutable_keeps link_escapes suffix s max validate key_of q w fresh =
    (Triple-weaken (put_stream_immutable link_escapes suffix s max validate key_of)
        (Triple-and (put_stream_immutable link_escapes suffix s max validate key_of)
          (keeps-Triple link_escapes suffix s max validate key_of q (content q w.files) fresh)
          (IsTold-Triple link_escapes suffix s max validate key_of w.files))
        (λ f h. h) (λ r f h. (h.0.0, h.0.1, h.1)) (λ f h. h.0)).at
      w (Kept-now q w.files, refl)
