-- ===== src/Storage/Published.antt =====
-- registry-server/storage.go: what `PutStreamValidated` and `PutStreamImmutable` leave behind,
-- whichever of their calls fail. `fresh` is what `os.CreateTemp` promises: the file is new.
use terraform_registry.Base.{
  ℕ, ◌+◌, ◌≤◌, ◌≡◌, ◌≢◌, refl, sym, ap, ◌∙◌, subst, arith, Option, none, some, List, [], ◌++◌,
  length, length-append, Bool, take,
}
use terraform_registry.Text.{Bytes, codes}
use terraform_registry.Paths.{dot}
use terraform_registry.Disk.{
  Node, file, Files, Error, World, ◌>>=◌, lookup, insert, erase, mkdir_above, create_temp, on_error,
  parents, make_dirs, return,
}
use terraform_registry.Disk.Laws.{
  content, content_of, lookup-make_dirs, content-make_dirs, lookup-insert_ne, lookup-erase_ne,
  parents-ne, All-take,
}
use terraform_registry.Disk.Triples.{
  Ensures, Triple, Triple-call, Triple-call_keeps, Triple-bind, Triple-fact, Triple-on_error,
  Triple-return,
}
use terraform_registry.Storage.Resolve.{resolve}
use terraform_registry.Storage.Writes.{
  beside, Stream, receive, publish, discard, at_path, located, stream_to, put_stream_validated,
}
use terraform_registry.Storage.Steps.{discard-Triple}
use terraform_registry.Storage.Streams.{receive-Triple, publish-Triple}
use terraform_registry.Storage.Written.{beside-length}

-- A file that was there has its bytes.
abbrev pub Kept : Bytes → Option Bytes → Files → Type 0
Kept q none f = Unit {0}
Kept q (some b) f = content q f ≡ some b

abbrev pub Apart : Bytes → Bytes → Option Bytes → Type 0
Apart m q none = Unit {0}
Apart m q (some b) = m ≢ q

pub Kept-now : (q : Bytes) (f : Files) → Kept q (content q f) f
Kept-now q f = go (content q f) refl
  where
    go : (c : Option Bytes) → content q f ≡ c → Kept q c f
    go none e = tt
    go (some b) e = e

pub Kept-insert :
    (m q : Bytes) (c : Option Bytes) (n : Node) (f : Files)
    → Apart m q c
    → Kept q c f
    → Kept q c (insert m n f)
Kept-insert m q none n f h k = tt
Kept-insert m q (some b) n f h k = ap content_of (lookup-insert_ne m q n f h) ∙ k

pub Kept-erase :
    (m q : Bytes) (c : Option Bytes) (f : Files) → Apart m q c → Kept q c f → Kept q c (erase m f)
Kept-erase m q none f h k = tt
Kept-erase m q (some b) f h k = ap content_of (lookup-erase_ne m q f h) ∙ k

Kept-make_dirs :
    (q : Bytes) (c : Option Bytes) (ds : List Bytes) (f : Files)
    → Kept q c f
    → Kept q c (make_dirs ds f).1
Kept-make_dirs q none ds f k = tt
Kept-make_dirs q (some b) ds f k = content-make_dirs q ds f ∙ k

-- A new file stands apart from those that are there.
new-Apart :
    (m q : Bytes) (c : Option Bytes) (f : Files) → lookup m f ≡ none → Kept q c f → Apart m q c
new-Apart m q none f e k = tt
new-Apart m q (some b) f e k = λ g. ground (arith, ap (λ x. content x f) g, ap content_of e)

ne-Apart : (p q : Bytes) (c : Option Bytes) → p ≢ q → Apart p q c
ne-Apart p q none h = tt
ne-Apart p q (some b) h = h

abbrev pub Fresh : (Bytes → Files → Bytes) → Type 0
Fresh suffix = (pattern : Bytes) (f : Files) → lookup (pattern ++ suffix pattern f) f ≡ none

module _ (q : Bytes) (c : Option Bytes) where
  pub mkdir_above-Kept : (p : Bytes) → Triple (Kept q c) (mkdir_above p) (λ u. Kept q c) (Kept q c)
  unfolding mkdir_above
  mkdir_above-Kept p =
      Triple-call_keeps _ _ (Kept q c) (λ w h. Kept-make_dirs q c (parents p) w.files h)
        (λ n w h. Kept-make_dirs q c (take n (parents p)) w.files h)

  -- The new file has a long name, and it stands apart from the files that are there.
  pub create_temp-Triple :
      (suffix : Bytes → Files → Bytes) (pattern : Bytes) (P : Files → Type 0)
      → Fresh suffix
      → ((f : Files) → P f → Kept q c f)
      → ((m : Bytes) (t : ℕ) (f : Files)
          → Apart m q c
          → length pattern ≤ length m
          → P f
          → P (insert m (file [] t) f))
      → Triple P
          (create_temp suffix pattern)
          (λ m f. P f × (Apart m q c × (length pattern ≤ length m)))
          P
  unfolding create_temp
  create_temp-Triple suffix pattern P fresh has ins =
      Triple-call _ _
        (λ w h.
          let m : Bytes = pattern ++ suffix pattern w.files in
          let a : Apart m q c = new-Apart m q c w.files (fresh pattern w.files) (has w.files h) in
          let l : length pattern ≤ length m =
            omega (arith, length-append pattern (suffix pattern w.files)) in
          (ins m w.now w.files a l h, (a, l)))
        (λ n w h. h)

-- The upload came to its end within the limit, and the validation takes it.
abbrev pub Published : Stream → ℕ → (Bytes → Option Error) → Type 0
Published s max validate = (s.failure ≡ none) × (length s.bytes ≤ max) × (validate s.bytes ≡ none)

module _ (p q : Bytes) (old : Option Node) (c : Option Bytes) where
  -- the node of the destination and the bytes of another file
  abbrev Before : Files → Type 0
  Before f = (lookup p f ≡ old) × Kept q c f

  Before-mkdir : Triple Before (mkdir_above p) (λ u. Before) Before
  unfolding mkdir_above
  Before-mkdir =
      Triple-call_keeps _ _ Before
        (λ w h. (
          lookup-make_dirs p (parents p) w.files (parents-ne p) ∙ h.0,
          Kept-make_dirs q c (parents p) w.files h.1,
        ))
        (λ n w h. (
          lookup-make_dirs p (take n (parents p)) w.files (All-take _ n (parents p) (parents-ne p))
              ∙ h.0,
          Kept-make_dirs q c (take n (parents p)) w.files h.1,
        ))

  Before-insert :
      (m : Bytes) (b : Bytes) (t : ℕ) (f : Files)
      → m ≢ p
      → Apart m q c
      → Before f
      → Before (insert m (file b t) f)
  Before-insert m b t f g a h =
      (lookup-insert_ne m p (file b t) f g ∙ h.0, Kept-insert m q c (file b t) f a h.1)

  Before-erase : (m : Bytes) (f : Files) → m ≢ p → Apart m q c → Before f → Before (erase m f)
  Before-erase m f g a h = (lookup-erase_ne m p f g ∙ h.0, Kept-erase m q c f a h.1)

  module _ (s : Stream) (max : ℕ) (validate : Bytes → Option Error) (apart : p ≢ q) where
    -- the run behind the temporary file
    received_at :
        (m : Bytes)
        → m ≢ p
        → m ≢ dot
        → Apart m q c
        → Triple Before
            (on_error
              (receive m s max >>= λ b. publish validate m p b >>= λ u. return (length b))
              (discard m))
            (λ n f.
              (Kept q c f × (content p f ≡ some s.bytes))
              × ((n ≡ length s.bytes) × Published s max validate))
            Before
    received_at m g d a =
        let ins : (b : Bytes) (t : ℕ) (f : Files) → Before f → Before (insert m (file b t) f) =
          λ b t f. Before-insert m b t f g a in
        let del : (f : Files) → Before f → Before (erase m f) = λ f. Before-erase m f g a in
        Triple-on_error _ (discard m)
          (Triple-bind (receive m s max) _ (receive-Triple m Before ins del s max) λ b.
            Triple-fact _ _ λ r.
              Triple-bind (publish validate m p b) _
                (publish-Triple m Before ins del p (Kept q c) d
                  (λ b t f h.
                    Kept-insert p q c (file b t) (erase m f) (ne-Apart p q c apart)
                      (Kept-erase m q c f a h.1))
                  validate b)
                λ u. Triple-fact _ _ λ v. Triple-return (length b) (λ f k. (
                  (k.0, k.1 ∙ ap some r.0),
                  (ap length r.0, (r.1, r.2, subst (λ b. validate b ≡ none) r.0 v)),
                )))
          (discard-Triple m Before ins del)

  pub stream_to-Triple :
      (suffix : Bytes → Files → Bytes) (s : Stream) (max : ℕ) (validate : Bytes → Option Error)
      → Fresh suffix
      → p ≢ q
      → Triple Before
          (stream_to suffix s max validate p)
          (λ n f.
            (Kept q c f × (content p f ≡ some s.bytes))
            × ((n ≡ length s.bytes) × Published s max validate))
          Before
  unfolding stream_to
  stream_to-Triple suffix s max validate fresh apart =
      let pattern : Bytes = beside (codes ".tmp-") (codes "-") p in
      let long : length pattern ≡ 5 + (length p + 1) =
        beside-length (codes ".tmp-") (codes "-") p in
      Triple-bind (mkdir_above p) _ Before-mkdir λ u.
        Triple-bind (create_temp suffix pattern) _
          (create_temp-Triple q c suffix pattern Before fresh (λ f h. h.1)
            λ m t f a l h. Before-insert m [] t f (λ e. omega (arith, long, l, ap length e)) a h)
          λ m. Triple-fact _ _ λ k.
            received_at s max validate apart m (λ e. omega (arith, long, k.1, ap length e))
              (λ e. omega (arith, long, k.1, ap length e)) k.0

-- `PutStreamValidated` at a key of the path `p`, whichever of its calls fail. On success the file has
-- the bytes of the upload, which came to its end within the limit and passed the validation, and
-- the size is returned; on failure what was at the path is there as before. In both cases every
-- other file that was there has its bytes.
pub put_stream_validated_atomic :
    (link_escapes : Bytes → Bool) (suffix : Bytes → Files → Bytes) (key p q : Bytes) (s : Stream)
    (max : ℕ) (validate : Bytes → Option Error) (w : World)
    → Fresh suffix
    → resolve link_escapes key ≡ some p
    → p ≢ q
    → Ensures
        (λ n f.
          (Kept q (content q w.files) f × (content p f ≡ some s.bytes))
          × ((n ≡ length s.bytes) × Published s max validate))
        (λ f. (lookup p f ≡ lookup p w.files) × Kept q (content q w.files) f)
        (put_stream_validated link_escapes suffix key s max validate w)
unfolding put_stream_validated located at_path
put_stream_validated_atomic link_escapes suffix key p q s max validate w fresh e apart =
    subst
      (λ m.
        Ensures
          (λ n f.
            (Kept q (content q w.files) f × (content p f ≡ some s.bytes))
            × ((n ≡ length s.bytes) × Published s max validate))
          (λ f. (lookup p f ≡ lookup p w.files) × Kept q (content q w.files) f)
          ((at_path m >>= λ p. stream_to suffix s max validate p) w))
      (sym e)
      ((stream_to-Triple p q (lookup p w.files) (content q w.files) suffix s max validate fresh
          apart).at
        w (refl, Kept-now q w.files))
