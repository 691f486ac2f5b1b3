-- ===== src/Storage/Collected.antt =====
-- registry-server/storage.go: what `GarbageCollect` removes.
use terraform_registry.Base.{
  ℕ, ◌+◌, ◌≡◌, ◌≢◌, refl, ap, ◌∙◌, arith, Option, none, [], ◌∷◌, Bool, true, false, if◌then◌else◌,
  All,
}
use terraform_registry.Text.{Bytes, has_prefix, text_eq}
use terraform_registry.Paths.{dot}
use terraform_registry.Disk.{
  Node, file, directory, Files, World, ◌>>=◌, return, lookup, erase, on_open_file, cut_base,
}
use terraform_registry.Disk.Laws.{lookup-erase, lookup-erase_ne}
use terraform_registry.Disk.Triples.{
  Ensures, Triple, Triple-bind, Triple-return, Triple-weaken, Triple-and,
}
use terraform_registry.Storage.Steps.{on_open_file-Triple}
use terraform_registry.Storage.Removal.{
  is_garbage, clear, visit, walk_entries, garbage_collect, remove_if_there,
}
use terraform_registry.Storage.Removed.{remove_if_there-keeps, remove_if_there-gone}

unfoldable pub count_garbage : ℕ → Files → ℕ
count_garbage now [] = 0
count_garbage now (e ∷ es) = let n = count_garbage now es in if is_garbage now e then 1 + n else n

module _ (now : ℕ) (P : Files → Type 0) where
  abbrev Closed : Bytes × Node → Type 0
  Closed e = is_garbage now e ≡ true → (f : Files) → P f → P (erase e.0 f)

  visited :
      (e : Bytes × Node) (b : Bool)
      → (b ≡ true → (f : Files) → P f → P (erase e.0 f))
      → Triple P (clear e.0 b) (λ n. P) P
  visited e true c =
      Triple-bind (remove_if_there e.0) _ (remove_if_there-keeps e.0 P (c refl))
        λ u. Triple-return 1 (λ f h. h)
  visited e false c = Triple-return 0 (λ f h. h)

  visit-keeps : (e : Bytes × Node) → Closed e → Triple P (visit now e) (λ n. P) P
  unfolding visit
  visit-keeps e c =
      Triple-bind on_open_file _ (on_open_file-Triple P) λ u. visited e (is_garbage now e) c

  walk-keeps : (es : Files) → All Closed es → Triple P (walk_entries now es) (λ n. P) P
  unfolding walk_entries
  walk-keeps [] h = Triple-return 0 (λ f h. h)
  walk-keeps (e ∷ es) (c, h) = Triple-bind (visit now e) _ (visit-keeps e c) λ n.
      Triple-bind (walk_entries now es) _ (walk-keeps es h) λ m. Triple-return (n + m) (λ f h. h)

abbrev Any : Files → Type 0
Any f = Unit {0}

root_is_kept : (now : ℕ) (n : Node) → is_garbage now (dot, n) ≡ false
unfolding is_garbage has_prefix cut_base text_eq
root_is_kept now (file b t) = refl
root_is_kept now directory = refl

abbrev one_if : Bool → ℕ
one_if true = 1
one_if false = 0

visited_clears :
    (e : Bytes × Node) (b : Bool)
    → (b ≡ true → e.0 ≢ dot)
    → Triple Any (clear e.0 b) (λ n f. (b ≡ true → lookup e.0 f ≡ none) × (n ≡ one_if b)) Any
visited_clears e true c =
    Triple-bind (remove_if_there e.0) _ (remove_if_there-gone e.0 (c refl))
      λ u. Triple-return 1 (λ f h. (λ g. h, refl))
visited_clears e false c = Triple-return 0 (λ f h. (λ g. ground arith, refl))

none-erase : (p q : Bytes) (f : Files) → lookup q f ≡ none → lookup q (erase p f) ≡ none
none-erase p q f h = ground (arith, lookup-erase p q f)

-- The path goes if it is garbage.
abbrev pub Cleared : ℕ → Files → Bytes × Node → Type 0
Cleared now f e = is_garbage now e ≡ true → lookup e.0 f ≡ none

visit-clears :
    (now : ℕ) (e : Bytes × Node)
    → Triple Any (visit now e) (λ n f. Cleared now f e × (n ≡ one_if (is_garbage now e))) Any
unfolding visit
visit-clears now e = Triple-bind on_open_file _ (on_open_file-Triple Any) λ u.
    visited_clears e (is_garbage now e)
      (λ g k. ground (arith, ap (λ p. is_garbage now (p, e.1)) k, root_is_kept now e.1))

still :
    (now : ℕ) (e : Bytes × Node) (F : Type 0) (es : Files)
    → All (Closed now (λ f. Cleared now f e × F)) es
still now e F [] = tt
still now e F (x ∷ es) = (λ g f h. (λ k. none-erase x.0 e.0 f (h.0 k), h.1), still now e F es)

counted : (b : Bool) (n m c : ℕ) → n ≡ one_if b → m ≡ c → n + m ≡ (if b then 1 + c else c)
counted true n m c h k = omega (arith, h, k)
counted false n m c h k = omega (arith, h, k)

abbrev pub Clean : ℕ → Files → ℕ → Files → Type 0
Clean now es n f = All (Cleared now f) es × (n ≡ count_garbage now es)

walk-clears : (now : ℕ) (es : Files) → Triple Any (walk_entries now es) (Clean now es) Any
unfolding walk_entries count_garbage
walk-clears now [] = Triple-return 0 (λ f h. (tt, refl))
walk-clears now (e ∷ es) = Triple-bind (visit now e) _ (visit-clears now e) λ n.
    Triple-weaken (walk_entries now es >>= λ m. return (n + m))
      (Triple-bind (walk_entries now es) _
        (Triple-and (walk_entries now es)
          (walk-keeps now (λ f. Cleared now f e × (n ≡ one_if (is_garbage now e))) es
            (still now e (n ≡ one_if (is_garbage now e)) es))
          (walk-clears now es))
        (λ m. Triple-return (n + m) (λ f h.
          ((h.0.0, h.1.0), counted (is_garbage now e) n m (count_garbage now es) h.0.1 h.1.1))))
      (λ f h. (h, tt)) (λ m f h. h) (λ f h. tt)

-- A path that no garbage has.
abbrev pub Spared : Bytes → ℕ → Files → Type 0
Spared q now fs = All (λ e. is_garbage now e ≡ true → e.0 ≢ q) fs

Spared-Closed :
    (q : Bytes) (old : Option Node) (now : ℕ) (es : Files)
    → Spared q now es
    → All (Closed now (λ f. lookup q f ≡ old)) es
Spared-Closed q old now [] h = tt
Spared-Closed q old now (e ∷ es) (h, k) =
    (λ g f r. lookup-erase_ne e.0 q f (h g) ∙ r, Spared-Closed q old now es k)

-- `GarbageCollect`, whichever of its calls fail, leaves what is at a path that is not a temporary
-- file changed more than an hour ago. On success all such temporary files are gone, and their
-- number is returned.
pub garbage_collect_exact :
    (q : Bytes) (w : World)
    → Spared q w.now w.files
    → Ensures
        (λ n f. (lookup q f ≡ lookup q w.files) × Clean w.now w.files n f)
        (λ f. lookup q f ≡ lookup q w.files)
        (garbage_collect w)
unfolding garbage_collect
garbage_collect_exact q w h =
    (Triple-weaken (walk_entries w.now w.files)
        (Triple-and (walk_entries w.now w.files)
          (walk-keeps w.now (λ f. lookup q f ≡ lookup q w.files) w.files
            (Spared-Closed q (lookup q w.files) w.now w.files h))
          (walk-clears w.now w.files))
        (λ f k. k) (λ n f k. k) (λ f k. k.0)).at
      w (refl, tt)
