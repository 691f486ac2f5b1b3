-- ===== src/Storage/DiskTests.antt =====
-- The writes and the removals of the storage on a few files.
use terraform_registry.Base.{
  All, ◌<◌, ◌≤◌, ◌≡◌, ◌≢◌, refl, ap, arith, Option, none, some, [], ◌∷◌, ◌++◌, length,
  length-append, Bool, true, false,
}
use terraform_registry.Text.{Bytes, codes, text_eq}
use terraform_registry.Text.Laws.{differs}
use terraform_registry.Paths.{dot}
use terraform_registry.Disk.{
  ◌>>=◌, Node, file, directory, Files, Error, invalid_archive, World, Result, done, fails, lookup,
}
use terraform_registry.Disk.Laws.{content}
use terraform_registry.Disk.Triples.{Ensures}
use terraform_registry.Storage.Resolve.{resolve}
use terraform_registry.Storage.Writes.{Stream, put, put_stream_validated, put_stream_immutable}
use terraform_registry.Storage.Written.{beside-length, put_atomic}
use terraform_registry.Storage.Published.{Fresh, Kept, Published, put_stream_validated_atomic}
use terraform_registry.Storage.Reused.{IsTold}
use terraform_registry.Storage.Immutable.{Stored, put_stream_immutable_keeps}
use terraform_registry.Storage.Removal.{stage_at, is_garbage, garbage_collect, delete}
use terraform_registry.Storage.Collected.{Clean, Spared, garbage_collect_exact}
use terraform_registry.Disk.Trees.{Outside, cut_prefix_short}
use terraform_registry.Storage.Staged.{FreshTree, Stages, rollback_restores}
use terraform_registry.Storage.Deleted.{delete_frees}

-- A suffix that is longer than every path.
abbrev pub long : Files → Bytes
long [] = 48 ∷ []
long ((p, n) ∷ fs) = p ++ long fs

abbrev pub suffix : Bytes → Files → Bytes
suffix pattern f = long f

long-positive : (f : Files) → 1 ≤ length (long f)
long-positive [] = omega arith
long-positive ((p, n) ∷ fs) = omega (arith, length-append p (long fs), long-positive fs)

lookup-long : (q : Bytes) (f : Files) → length (long f) ≤ length q → lookup q f ≡ none
unfolding lookup
lookup-long q [] h = refl
lookup-long q ((p, n) ∷ fs) h =
    rw
      (differs p q
        (λ e. omega (arith, h, ap length e, length-append p (long fs), long-positive fs)))
      (lookup-long q fs (omega (arith, h, length-append p (long fs))))

pub suffix-Fresh : Fresh suffix
suffix-Fresh pattern f =
    lookup-long (pattern ++ long f) f (omega (arith, length-append pattern (long f)))

abbrev module_zip : Bytes
module_zip = codes "m/a"

abbrev old_zip : Bytes
old_zip = codes "m/b"

abbrev stale : Bytes
stale = codes "m/.tmp-a"

-- A world at the time 4000, whose first call goes well and whose second call fails.
abbrev world : World
world = record {
  files = (codes "m", directory) ∷ (old_zip, file (1 ∷ 2 ∷ []) 10) ∷ (stale, file [] 20) ∷ [];
  now = 4000;
  faults = none ∷ some 1 ∷ [];
}

-- the same without a fault
abbrev calm_world : World
calm_world = record world { faults = [] }

abbrev pub confined : Bytes → Bool
confined p = false

resolved : resolve confined module_zip ≡ some module_zip
unfolding resolve text_eq terraform_registry.Text.has_prefix terraform_registry.Text.contains
    terraform_registry.Paths.path_clean terraform_registry.Paths.clean_segments
    terraform_registry.Text.split terraform_registry.Text.join
resolved = refl

apart : module_zip ≢ old_zip
apart e = ground (arith, e)

put_atomic_example :
    Ensures
      (λ u f.
        (content old_zip f ≡ content old_zip world.files) × (content module_zip f ≡ some (7 ∷ [])))
      (λ f.
        (lookup module_zip f ≡ lookup module_zip world.files)
        × (content old_zip f ≡ content old_zip world.files))
      (put confined suffix module_zip (7 ∷ []) world)
put_atomic_example =
    put_atomic confined suffix module_zip module_zip (7 ∷ []) old_zip world resolved apart
      (λ e. omega (arith, ap length e, beside-length (codes ".tmp-") [] module_zip))

abbrev upload : Stream
upload = record { bytes = 7 ∷ 8 ∷ []; failure = none }

abbrev accept : Bytes → Option Error
accept b = none

put_stream_validated_atomic_example :
    Ensures
      (λ n f.
        (Kept old_zip (some (1 ∷ 2 ∷ [])) f × (content module_zip f ≡ some upload.bytes))
        × ((n ≡ length upload.bytes) × Published upload 10 accept))
      (λ f.
        (lookup module_zip f ≡ lookup module_zip world.files) × Kept old_zip (some (1 ∷ 2 ∷ [])) f)
      (put_stream_validated confined suffix module_zip upload 10 accept world)
unfolding lookup text_eq
put_stream_validated_atomic_example =
    put_stream_validated_atomic confined suffix module_zip module_zip old_zip upload 10 accept world
      suffix-Fresh resolved apart

abbrev key_of : Bytes → Bytes
key_of b = module_zip

put_stream_immutable_keeps_example :
    Ensures
      (λ r f.
        Stored confined upload 10 accept key_of r f
        × Kept old_zip (some (1 ∷ 2 ∷ [])) f
        × IsTold confined module_zip calm_world.files r)
      (Kept old_zip (some (1 ∷ 2 ∷ [])))
      (put_stream_immutable confined suffix upload 10 accept key_of calm_world)
unfolding lookup text_eq
put_stream_immutable_keeps_example =
    put_stream_immutable_keeps confined suffix upload 10 accept key_of old_zip calm_world
      suffix-Fresh

old_is_kept : is_garbage 4000 (old_zip, file (1 ∷ 2 ∷ []) 10) ≡ false
unfolding is_garbage terraform_registry.Text.has_prefix terraform_registry.Disk.cut_base text_eq
old_is_kept = refl

spared : Spared old_zip 4000 world.files
unfolding is_garbage
spared = (
  λ g e. ground (arith, g),
  (λ g e. ground (arith, g, old_is_kept), (λ g e. ground (arith, e), tt)),
)

garbage_collect_exact_example :
    Ensures
      (λ n f. (lookup old_zip f ≡ lookup old_zip world.files) × Clean 4000 world.files n f)
      (λ f. lookup old_zip f ≡ lookup old_zip world.files)
      (garbage_collect world)
garbage_collect_exact_example = garbage_collect_exact old_zip world spared

-- The file of the test is garbage.
stale-is_garbage : is_garbage 4000 (stale, file [] 20) ≡ true
unfolding is_garbage terraform_registry.Text.has_prefix terraform_registry.Disk.cut_base text_eq
stale-is_garbage = refl

delete_frees_example :
    Ensures
      (λ u f. (lookup module_zip f ≡ none) × (content old_zip f ≡ content old_zip world.files))
      (λ f. content old_zip f ≡ content old_zip world.files)
      (delete confined module_zip world)
delete_frees_example =
    delete_frees confined module_zip module_zip old_zip world resolved (λ e. ground (arith, e))
      apart

long-Outside :
    (m : Bytes) (fs : Files)
    → length (long fs) ≤ length m
    → All (λ (e : Bytes × Node). Outside m e.0) fs
long-Outside m [] h = tt
long-Outside m ((p, n) ∷ fs) h =
    let l : length p < length m = omega (arith, h, length-append p (long fs), long-positive fs) in
    (
      (
        differs p m (λ e. omega (arith, l, ap length e)),
        cut_prefix_short p (m ++ codes "/") (omega (arith, l, length-append m (codes "/"))),
      ),
      long-Outside m fs (omega (arith, h, length-append p (long fs))),
    )

suffix-FreshTree : FreshTree suffix
suffix-FreshTree pattern f =
    long-Outside (pattern ++ long f) f (omega (arith, length-append pattern (long f)))

rollback_restores_example :
    Stages (codes "m") calm_world.files [] (stage_at confined suffix (codes "m") calm_world)
unfolding lookup text_eq
rollback_restores_example =
    rollback_restores confined suffix (codes "m") calm_world suffix-FreshTree
      (λ e. ground (arith, e)) refl
