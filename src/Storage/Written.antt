-- ===== src/Storage/Written.antt =====
-- What registry-server/storage.go's `Put` leaves behind, whichever of its calls fail.
use terraform_registry.Base.{
  ℕ, ◌+◌, ◌≡◌, ◌≢◌, refl, sym, ap, ◌∙◌, subst, arith, Option, some, List, [], ◌++◌, length,
  length-append, Bool, take, All,
}
use terraform_registry.Text.{Bytes, codes}
use terraform_registry.Paths.{dot}
use terraform_registry.Disk.{
  Node, file, Files, World, ◌>>=◌, cut_base, lookup, insert, erase, mkdir_above, open_trunc,
  parents, make_dirs,
}
use terraform_registry.Disk.Laws.{
  content, content_of, cut_base-append, lookup-make_dirs, content-make_dirs, lookup-insert_ne,
  lookup-erase_ne, parents-ne, All-take,
}
use terraform_registry.Disk.Triples.{Ensures, Triple, Triple-call_keeps, Triple-bind}
use terraform_registry.Storage.Resolve.{resolve}
use terraform_registry.Storage.Writes.{beside, temp_path, put_at, at_path, located, put}
use terraform_registry.Storage.Steps.{open_trunc-Triple, replace-Triple}

pub beside-length :
    (mark more p : Bytes) → length (beside mark more p) ≡ length mark + (length p + length more)
unfolding beside
beside-length mark more p = ground (
  arith,
  length-append (cut_base p).0 (mark ++ ((cut_base p).1 ++ more)),
  length-append mark ((cut_base p).1 ++ more),
  length-append (cut_base p).1 more,
  length-append (cut_base p).0 (cut_base p).1,
  ap length (cut_base-append p),
)

module _ (p : Bytes) where
  pub temp-ne : temp_path p ≢ p
  temp-ne e = omega (arith, beside-length (codes ".tmp-") [] p, ap length e)

  pub temp-ne_dot : temp_path p ≢ dot
  temp-ne_dot e = omega (arith, beside-length (codes ".tmp-") [] p, ap length e)

-- One path has a node as before, and another one its bytes.
abbrev pub Holds : Bytes → Option Node → Bytes → Option Bytes → Files → Type 0
Holds p old q c f = (lookup p f ≡ old) × (content q f ≡ c)

pub mkdir_above-Triple :
    (p : Bytes) (old : Option Node) (q : Bytes) (c : Option Bytes)
    → Triple (Holds p old q c) (mkdir_above p) (λ u. Holds p old q c) (Holds p old q c)
unfolding mkdir_above
mkdir_above-Triple p old q c =
    Triple-call_keeps _ _ (Holds p old q c) (λ w h. made (parents p) w.files (parents-ne p) h)
      (λ n w h. made (take n (parents p)) w.files (All-take _ n (parents p) (parents-ne p)) h)
  where
    made :
        (ds : List Bytes) (f : Files)
        → All (λ d. d ≢ p) ds
        → Holds p old q c f
        → Holds p old q c (make_dirs ds f).1
    made ds f h (a, b) = (lookup-make_dirs p ds f h ∙ a, content-make_dirs q ds f ∙ b)

-- A change of the file `m` keeps what holds of two other paths.
pub insert-Holds :
    (m p q : Bytes) (old : Option Node) (c : Option Bytes) (b : Bytes) (t : ℕ) (f : Files)
    → m ≢ p
    → m ≢ q
    → Holds p old q c f
    → Holds p old q c (insert m (file b t) f)
insert-Holds m p q old c b t f g h (a, e) = (
  lookup-insert_ne m p (file b t) f g ∙ a,
  ap content_of (lookup-insert_ne m q (file b t) f h) ∙ e,
)

pub erase-Holds :
    (m p q : Bytes) (old : Option Node) (c : Option Bytes) (f : Files)
    → m ≢ p
    → m ≢ q
    → Holds p old q c f
    → Holds p old q c (erase m f)
erase-Holds m p q old c f g h (a, e) =
    (lookup-erase_ne m p f g ∙ a, ap content_of (lookup-erase_ne m q f h) ∙ e)

-- The rename of `m` to `p` keeps the bytes of another path.
pub arrive-Holds :
    (m p q : Bytes) (old : Option Node) (c : Option Bytes) (b : Bytes) (t : ℕ) (f : Files)
    → p ≢ q
    → m ≢ q
    → Holds p old q c f
    → content q (insert p (file b t) (erase m f)) ≡ c
arrive-Holds m p q old c b t f g h (a, e) =
    ap content_of (lookup-insert_ne p q (file b t) (erase m f) g ∙ lookup-erase_ne m q f h) ∙ e

pub put_at-Triple :
    (p b q : Bytes) (old : Option Node) (c : Option Bytes)
    → p ≢ q
    → temp_path p ≢ q
    → Triple
        (Holds p old q c)
        (put_at p b)
        (λ u f. (content q f ≡ c) × (content p f ≡ some b))
        (Holds p old q c)
unfolding put_at
put_at-Triple p b q old c g h =
    let m : Bytes = temp_path p in
    let P : Files → Type 0 = Holds p old q c in
    let ins : (b : Bytes) (t : ℕ) (f : Files) → P f → P (insert m (file b t) f) =
      λ b t f. insert-Holds m p q old c b t f (temp-ne p) h in
    let del : (f : Files) → P f → P (erase m f) = λ f. erase-Holds m p q old c f (temp-ne p) h in
    Triple-bind (mkdir_above p) _ (mkdir_above-Triple p old q c) λ u.
      Triple-bind (open_trunc m) _ (open_trunc-Triple m P ins del) λ u.
        replace-Triple m p P (λ f. content q f ≡ c) (temp-ne_dot p)
          (λ b t f. arrive-Holds m p q old c b t f g h) b ins del

-- `Put` at a key of the path `p`, whichever of its calls fail: on success the file has the new bytes,
-- on failure what was at the path is there as before, and in both cases every other file but the
-- temporary one has its bytes.
pub put_atomic :
    (link_escapes : Bytes → Bool) (suffix : Bytes → Files → Bytes) (key p b q : Bytes) (w : World)
    → resolve link_escapes key ≡ some p
    → p ≢ q
    → temp_path p ≢ q
    → Ensures
        (λ u f. (content q f ≡ content q w.files) × (content p f ≡ some b))
        (λ f. (lookup p f ≡ lookup p w.files) × (content q f ≡ content q w.files))
        (put link_escapes suffix key b w)
unfolding put located at_path
put_atomic link_escapes suffix key p b q w e g h =
    subst
      (λ m.
        Ensures (λ u f. (content q f ≡ content q w.files) × (content p f ≡ some b))
          (λ f. (lookup p f ≡ lookup p w.files) × (content q f ≡ content q w.files))
          ((at_path m >>= λ p. put_at p b) w))
      (sym e) ((put_at-Triple p b q (lookup p w.files) (content q w.files) g h).at w (refl, refl))
