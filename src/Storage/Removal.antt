-- ===== src/Storage/Removal.antt =====
-- registry-server/storage.go: `StageDeleteTree`, `Delete`, `HealthCheck` and `GarbageCollect`. A walk
-- visits the paths in the order of the list of files, as they were when it began.
use terraform_registry.Base.{ℕ, ◌+◌, Bool, true, false, ◌&&◌, List, [], ◌∷◌, ltb}
use terraform_registry.Text.{Bytes, codes, has_prefix, trim_suffix}
use terraform_registry.Disk.{
  Node, file, directory, Files, not_exist, Result, done, fails, M, ◌>>=◌, ◌>>◌, return, stop,
  on_error, try, attempt, finally, cut_base, parents, on_open_file, remove, rename, stat,
  create_temp, read_dir, remove_all,
}
use terraform_registry.Storage.Writes.{beside, located}

-- `err != nil && !os.IsNotExist(err)`
abbrev pub unless_missing : Result (Unit {0}) → M (Unit {0})
unless_missing (done u) = return tt
unless_missing (fails not_exist) = return tt
unless_missing (fails e) = stop e

unfoldable pub remove_if_there : Bytes → M (Unit {0})
remove_if_there p = attempt (remove p) >>= unless_missing

unfoldable pub prune_behind : Bytes → M (Unit {0}) → Result Bool → M (Unit {0})
prune_behind d rest (fails e) = return tt
prune_behind d rest (done true) = return tt
prune_behind d rest (done false) = try (remove d) >> rest

-- the loop over the directories above a path, from the nearest on
unfoldable pub prune : List Bytes → M (Unit {0})
prune [] = return tt
prune (d ∷ ds) = let rest = prune ds in attempt (read_dir d) >>= prune_behind d rest

unfoldable pub backwards : List Bytes → List Bytes → List Bytes
backwards done_with [] = done_with
backwards done_with (d ∷ ds) = backwards (d ∷ done_with) ds

-- A temporary file that was changed more than an hour ago, in seconds.
unfoldable pub is_garbage : ℕ → Bytes × Node → Bool
is_garbage now (p, directory) = false
is_garbage now (p, file b t) = has_prefix (cut_base p).1 (codes ".tmp-") && ltb (t + 3600) now

abbrev pub clear : Bytes → Bool → M ℕ
clear p true = remove_if_there p >> return 1
clear p false = return 0

-- the function that the walk calls, behind its own call for the path: how many files it removed
unfoldable pub visit : ℕ → Bytes × Node → M ℕ
visit now e = do on_open_file; clear e.0 (is_garbage now e)

unfoldable pub walk_entries : ℕ → Files → M ℕ
walk_entries now [] = return 0
walk_entries now (e ∷ es) = do n ← visit now e; m ← walk_entries now es; return (n + m)

-- `GarbageCollect`; the count of a walk that fails is left out, as its only caller does.
unfoldable pub garbage_collect : M ℕ
garbage_collect w = walk_entries w.now w.files w

-- `HealthCheck`
unfoldable pub health_check : (Bytes → Files → Bytes) → M (Unit {0})
health_check suffix = do
  name ← create_temp suffix (codes ".health-")
  finally (on_open_file >> remove name) (try (remove name))

module _ (link_escapes : Bytes → Bool) where
  -- `Delete`, of a key that is not the root
  unfoldable pub delete : Bytes → M (Unit {0})
  delete key = do p ← located link_escapes key; remove_if_there p; prune (backwards [] (parents p))

  module _ (suffix : Bytes → Files → Bytes) where
    -- the steps behind the path: the place where the tree is now
    unfoldable pub stage_at : Bytes → M Bytes
    stage_at p = do
      n ← stat p
      trash ← create_temp suffix (beside (codes ".trash-") (codes "-") p)
      on_error on_open_file (try (remove trash))
      remove trash
      rename p trash
      return trash

    -- `StageDeleteTree`: the path and its place in the trash
    unfoldable pub stage_delete_tree : Bytes → M (Bytes × Bytes)
    stage_delete_tree key = do
      p ← located link_escapes (trim_suffix key (codes "/"))
      trash ← stage_at p
      return (p, trash)

-- the two functions that `StageDeleteTree` returns
unfoldable pub rollback : Bytes × Bytes → M (Unit {0})
rollback (p, trash) = rename trash p

unfoldable pub commit : Bytes × Bytes → M (Unit {0})
commit (p, trash) = remove_all trash
