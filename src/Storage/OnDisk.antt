-- ===== src/Storage/OnDisk.antt =====
-- registry-server/storage.go: `Get` and `Put` over the files give what the changes of the indexes
-- use of the storage.
use terraform_registry.Base.{
  ◌≡◌, ◌≢◌, inl, inr, refl, sym, ap, subst, arith, Option, none, some, [], ◌∷◌, length, Bool, true,
  false, Bool-cases,
}
use terraform_registry.Text.{Bytes, codes, text_eq}
use terraform_registry.Text.Laws.{text_eq_iff}
use terraform_registry.Paths.{dot}
use terraform_registry.Protocol.Reader.{Read, found, missing, failed}
use terraform_registry.Disk.{
  Node, file, directory, Files, Result, done, fails, World, M, ◌>>=◌, lookup, node_at, on_open_file,
  write, rename, rename_node, mkdir_above, open_trunc, remove, on_error, try,
}
use terraform_registry.Disk.Laws.{content, content_of, node_at-other}
use terraform_registry.Disk.Triples.{
  Ensures, Triple, Triple-call, Triple-bind, Triple-on_error, Triple-weaken,
}
use terraform_registry.Storage.Resolve.{resolve}
use terraform_registry.Storage.Writes.{temp_path, discard, replace, put_at, at_path, located, put}
use terraform_registry.Storage.Written.{put_at-Triple, beside-length}
use terraform_registry.Storage.Index.{Backend}

-- the answer of `os.ReadFile`
abbrev pub read_node : Option Node → Read
read_node none = missing
read_node (some (file b t)) = found b
read_node (some directory) = failed

abbrev pub read_at : Option Bytes → Files → Read
read_at none f = failed
read_at (some p) f = read_node (node_at p f)

-- `Get`, where no call fails
unfoldable pub get : (Bytes → Bool) → World → Bytes → Read
get link_escapes w key = read_at (resolve link_escapes key) w.files

abbrev pub succeeded : Result (Unit {0}) × World → World × Bool
succeeded (done u, w) = (w, true)
succeeded (fails e, w) = (w, false)

-- Any files.
abbrev Any : Files → Type 0
Any f = Unit {0}

Any-run : {A : Type 0} (m : M A) → Triple Any m (λ a. Any) Any
Any-run m = record { at = λ w h. ended_well (m w) }
  where
    ended_well : {A : Type 0} (o : Result A × World) → Ensures (λ a. Any) Any o
    ended_well (done a, w) = tt
    ended_well (fails e, w) = tt

refused :
    (p : Bytes) (n : Option Node) (w : World)
    → Ensures
        (λ u f. ⊥)
        Any
        (
          (rename_node p dot n (some directory) w.files).0,
          record w { files = (rename_node p dot n (some directory) w.files).1 },
        )
unfolding rename_node
refused p none w = tt
refused p (some (file b t)) w = tt
refused p (some directory) w = tt

rename_root : (p : Bytes) → Triple Any (rename p dot) (λ u f. ⊥) Any
unfolding rename node_at text_eq
rename_root p = Triple-call _ _ (λ w h. refused p (node_at p w.files) w) (λ n w h. tt)

-- Nothing is written at the root, which is a directory.
put_root : (b : Bytes) → Triple Any (put_at dot b) (λ u f. ⊥) Any
unfolding put_at replace
put_root b = Triple-bind (mkdir_above dot) _ (Any-run _) λ u.
    Triple-bind (open_trunc (temp_path dot)) _ (Any-run _) λ u.
      Triple-bind (on_error (write (temp_path dot) b) (discard (temp_path dot))) _ (Any-run _) λ u.
        Triple-bind (on_error on_open_file (discard (temp_path dot))) _ (Any-run _) λ u.
          Triple-bind (on_error on_open_file (try (remove (temp_path dot)))) _ (Any-run _) λ u.
            Triple-on_error (rename (temp_path dot) dot) (try (remove (temp_path dot)))
              (rename_root (temp_path dot)) (Any-run _)

node_at-lookup : (p : Bytes) (f g : Files) → lookup p f ≡ lookup p g → node_at p f ≡ node_at p g
unfolding node_at
node_at-lookup p f g e = ground arith

pub read_content :
    (p b : Bytes) (f : Files) → p ≢ dot → content p f ≡ some b → read_node (node_at p f) ≡ found b
read_content p b f h e = go (lookup p f) (node_at-other p f h) e
  where
    go :
        (n : Option Node)
        → node_at p f ≡ n
        → content_of n ≡ some b
        → read_node (node_at p f) ≡ found b
    go none g k = ground arith
    go (some directory) g k = ground arith
    go (some (file c t)) g k = ground arith

-- What a reader finds at a path behind a write: the new bytes, or what it found before.
abbrev pub Seen : Option Bytes → Bytes → World → Result (Unit {0}) × World → Type 0
Seen r b w o = Ensures (λ u f. read_at r f ≡ found b) (λ f. read_at r f ≡ read_at r w.files) o

read_root : (f g : Files) → read_at (some dot) f ≡ read_at (some dot) g
unfolding node_at text_eq
read_root f g = refl

module _ (b : Bytes) (w : World) where
  seen_root : Seen (some dot) b w (put_at dot b w)
  seen_root = go (put_at dot b w) ((put_root b).at w tt)
    where
      go : (o : Result (Unit {0}) × World) → Ensures (λ u f. ⊥) Any o → Seen (some dot) b w o
      go (done u, v) h = ground (arith, h)
      go (fails e, v) h = read_root v.files w.files

  seen_other : (p : Bytes) → p ≢ dot → Seen (some p) b w (put_at p b w)
  seen_other p h =
      (Triple-weaken (put_at p b)
          (put_at-Triple p b (0 ∷ temp_path p) (lookup p w.files)
            (content (0 ∷ temp_path p) w.files)
            (λ e. omega (arith, ap length e, beside-length (codes ".tmp-") [] p))
            (λ e. omega (arith, ap length e)))
          (λ f k. k) (λ u f k. read_content p b f h k.1)
          (λ f k. ap read_node (node_at-lookup p f w.files k.0))).at
        w (refl, refl)

  pub seen : (r : Option Bytes) → Seen r b w ((at_path r >>= λ p. put_at p b) w)
  unfolding at_path
  seen none = refl
  seen (some p) = elim (Bool-cases (text_eq p dot)) [
    | inl e ↦
        subst (λ p. Seen (some p) b w (put_at p b w)) (sym ((text_eq_iff p dot).0 e)) seen_root
    | inr e ↦ seen_other p (λ k. ground (arith, (text_eq_iff p dot).1 k))
  ]

pub seen_ok :
    (r : Option Bytes) (b : Bytes) (w : World) (o : Result (Unit {0}) × World)
    → Seen r b w o
    → (succeeded o).1 ≡ true
    → read_at r (succeeded o).0.files ≡ found b
seen_ok r b w (done u, v) h e = h
seen_ok r b w (fails x, v) h e = ground arith

pub seen_failed :
    (r : Option Bytes) (b : Bytes) (w : World) (o : Result (Unit {0}) × World)
    → Seen r b w o
    → (succeeded o).1 ≡ false
    → read_at r (succeeded o).0.files ≡ read_at r w.files
seen_failed r b w (done u, v) h e = ground arith
seen_failed r b w (fails x, v) h e = h

module _ (link_escapes : Bytes → Bool) (suffix : Bytes → Files → Bytes) where
  -- `Get` and `Put` over the files as the storage of the indexes
  unfoldable pub on_disk : Backend World
  unfolding get put located
  on_disk = record {
    get = get link_escapes;
    put = λ w key d. succeeded (put link_escapes suffix key d w);
    put_ok = λ w key d e.
        seen_ok (resolve link_escapes key) d w _ (seen d w (resolve link_escapes key)) e;
    put_failed = λ w key d e.
        seen_failed (resolve link_escapes key) d w _ (seen d w (resolve link_escapes key)) e;
  }
