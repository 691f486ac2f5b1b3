-- ===== src/Storage/Deleted.antt =====
-- registry-server/storage.go: what `Delete` leaves behind.
use terraform_registry.Base.{
  ◌≡◌, ◌≢◌, ◌⊎◌, refl, sym, ap, ◌∙◌, subst, arith, Option, none, some, List, [], ◌∷◌, Bool, true,
  false,
}
use terraform_registry.Text.{Bytes}
use terraform_registry.Text.Laws.{text_eq_iff}
use terraform_registry.Paths.{dot}
use terraform_registry.Disk.{
  Node, file, directory, Files, Result, done, fails, io, World, M, ◌>>=◌, ◌>>◌, lookup, erase,
  node_at, remove, remove_node, try, attempt, read_dir, entries_of, has_children, parents,
}
use terraform_registry.Disk.Laws.{content, content_of, lookup-erase, lookup-erase_ne, node_at-other}
use terraform_registry.Disk.Triples.{
  Ensures, Triple, Triple-call, Triple-bind, Triple-return, Triple-try, Triple-weaken, Triple-look,
  Looked, Triple-and,
}
use terraform_registry.Storage.Resolve.{resolve}
use terraform_registry.Storage.Writes.{at_path, located}
use terraform_registry.Storage.Removal.{remove_if_there, delete, prune, prune_behind, backwards}
use terraform_registry.Storage.Removed.{remove_if_there-keeps, remove_if_there-gone}

module _ (p q : Bytes) (c : Option Bytes) where
  -- The path is free, and another one has its bytes.
  abbrev Freed : Files → Type 0
  Freed f = (lookup p f ≡ none) × (content q f ≡ c)

  -- A directory has no bytes, so that none are lost with it.
  directory_erased :
      (d : Bytes) (f : Files) → node_at d f ≡ some directory → d ≢ dot → Freed f → Freed (erase d f)
  directory_erased d f e h (a, k) = (
    ground (arith, lookup-erase d p f),
    ground (arith, lookup-erase d q f, text_eq_iff d q, node_at-other d f h),
  )

  directory_removed :
      (d : Bytes) (b : Bool) (w : World) (n : Option Node)
      → node_at d w.files ≡ n
      → n ≡ some directory
      → (b ≡ false → d ≢ dot)
      → Freed w.files
      → Ensures
          (λ u. Freed)
          Freed
          ((remove_node d b n w.files).0, record w { files = (remove_node d b n w.files).1 })
  unfolding remove_node
  directory_removed d b w none e g h k = ground arith
  directory_removed d b w (some (file x t)) e g h k = ground arith
  directory_removed d true w (some directory) e g h k = k
  directory_removed d false w (some directory) e g h k = directory_erased d w.files e (h refl) k

  remove_directory :
      (d : Bytes)
      → Triple (λ f. Freed f × (node_at d f ≡ some directory)) (remove d) (λ u. Freed) Freed
  unfolding remove
  remove_directory d =
      Triple-call _ _
        (λ w h.
          directory_removed d _ w (node_at d w.files) refl h.1
            (λ e k. ground (arith, e, (text_eq_iff d dot).1 k)) h.0)
        (λ n w h. h.0)

  answered :
      (b c : Bool) (n : Option Node)
      → (done b ≡ fails io) ⊎ (done b ≡ entries_of n c)
      → n ≡ some directory
  answered b c none h = ground (arith, h)
  answered b c (some (file x t)) h = ground (arith, h)
  answered b c (some directory) h = refl

  prune_behind-Triple :
      (d : Bytes) (rest : M (Unit {0})) (r : Result Bool)
      → Triple Freed rest (λ u. Freed) Freed
      → Triple
          (Looked (λ f. entries_of (node_at d f) (has_children d f)) Freed r)
          (prune_behind d rest r)
          (λ u. Freed)
          Freed
  unfolding prune_behind
  prune_behind-Triple d rest (fails e) t = Triple-return tt (λ f h. h.0)
  prune_behind-Triple d rest (done true) t = Triple-return tt (λ f h. h.0)
  prune_behind-Triple d rest (done false) t =
      Triple-bind (try (remove d)) _
        (Triple-weaken (try (remove d)) (Triple-try (remove d) (remove_directory d))
          (λ f h. (h.0, answered false (has_children d f) (node_at d f) h.1)) (λ a f h. h)
          (λ f h. h))
        (λ u. t)

  prune-Triple : (ds : List Bytes) → Triple Freed (prune ds) (λ u. Freed) Freed
  unfolding prune read_dir
  prune-Triple [] = Triple-return tt (λ f h. h)
  prune-Triple (d ∷ ds) =
      Triple-bind (attempt (read_dir d)) (prune_behind d (prune ds))
        (Triple-look (λ f. entries_of (node_at d f) (has_children d f)) Freed)
        (λ r. prune_behind-Triple d (prune ds) r (prune-Triple ds))

other_files :
    (p q : Bytes) (c : Option Bytes) (f : Files)
    → p ≢ q
    → content q f ≡ c
    → content q (erase p f) ≡ c
other_files p q c f h e = ap content_of (lookup-erase_ne p q f h) ∙ e

-- the run behind the path
pub delete_at-Triple :
    (p q : Bytes) (c : Option Bytes)
    → p ≢ dot
    → p ≢ q
    → Triple
        (λ f. content q f ≡ c)
        (remove_if_there p >> prune (backwards [] (parents p)))
        (λ u f. (lookup p f ≡ none) × (content q f ≡ c))
        (λ f. content q f ≡ c)
delete_at-Triple p q c p_ne apart =
    Triple-bind (remove_if_there p) _
      (Triple-weaken (remove_if_there p)
        (Triple-and (remove_if_there p) (remove_if_there-gone p p_ne)
          (remove_if_there-keeps p (λ f. content q f ≡ c) (λ f. other_files p q c f apart)))
        (λ f h. (tt, h)) (λ u f h. h) (λ f h. h.1))
      (λ u.
        Triple-weaken (prune (backwards [] (parents p)))
          (prune-Triple p q c (backwards [] (parents p))) (λ f h. h) (λ u f h. h) (λ f h. h.1))

-- `Delete` at a key of the path `p`, which is not the root, whichever of its calls fail: every other
-- file has its bytes, and on success nothing is at the path.
pub delete_frees :
    (link_escapes : Bytes → Bool) (key p q : Bytes) (w : World)
    → resolve link_escapes key ≡ some p
    → p ≢ dot
    → p ≢ q
    → Ensures
        (λ u f. (lookup p f ≡ none) × (content q f ≡ content q w.files))
        (λ f. content q f ≡ content q w.files)
        (delete link_escapes key w)
unfolding delete located at_path
delete_frees link_escapes key p q w e p_ne apart =
    let c : Option Bytes = content q w.files in
    let R : Option Bytes → Type 0 = λ r.
      Ensures (λ u f. (lookup p f ≡ none) × (content q f ≡ c)) (λ f. content q f ≡ c)
        ((at_path r >>= λ p. remove_if_there p >> prune (backwards [] (parents p))) w) in
    subst R (sym e) ((delete_at-Triple p q c p_ne apart).at w refl)
