-- ===== src/Disk.antt =====
-- The calls of the packages `os` and `io` that registry-server/storage.go makes, over a file system
-- in memory. A path is the clean text below the storage root, which is `.` and always a directory.
-- Every call can fail: a list of faults tells how the next calls go. A path below a file is as one
-- that does not exist.
pub mod Laws
pub mod Triples
pub mod Trees
use terraform_registry.Base.{
  ℕ, suc, Bool, true, false, not, ◌&&◌, ◌||◌, Option, none, some, List, [], ◌∷◌, ◌++◌,
  if◌then◌else◌, any, take, drop,
}
use terraform_registry.Text.{Bytes, codes, text_eq, has_prefix, cut_prefix}
use terraform_registry.Paths.{dot}

-- A file has its bytes and the time of its last change.
pub data Node : Type 0 where
  file : Bytes → ℕ → Node
  directory : Node

abbrev pub Files : Type 0
Files = List (Bytes × Node)

-- The errors that the storage tells apart.
pub data Error : Type 0 where
  not_exist io invalid_key too_large invalid_archive corrupt unavailable : Error

pub data Result (A : Type 0) : Type 0 where
  done : A → Result A
  fails : Error → Result A

-- `none` lets the next call go well; `some n` makes it fail, and what a call does in steps is done
-- for `n` steps. Beyond the end of the list the calls go well.
pub record World : Type 0 where
  pub files : Files
  pub now : ℕ
  pub faults : List (Option ℕ)

abbrev pub M : Type 0 → Type 0
M A = World → Result A × World

abbrev pub continue : {A B : Type 0} → Result A × World → (A → M B) → Result B × World
continue (done a, w) next = next a w
continue (fails e, w) next = (fails e, w)

infixl 5 ◌>>=◌ ◌>>◌
abbrev pub ◌>>=◌ : {A B : Type 0} → M A → (A → M B) → M B
◌>>=◌ first next w = continue (first w) next

abbrev pub ◌>>◌ : {B : Type 0} → M (Unit {0}) → M B → M B
first >> next = first >>= λ _. next

abbrev pub return : {A : Type 0} → A → M A
return a w = (done a, w)

abbrev pub stop : {A : Type 0} → Error → M A
stop e w = (fails e, w)

abbrev pub clean_up : {A : Type 0} → Result A × World → M (Unit {0}) → Result A × World
clean_up (done a, w) undo = (done a, w)
clean_up (fails e, w) undo = (fails e, (undo w).1)

-- `if err != nil { undo; return err }`, where the result of `undo` is dropped
abbrev pub on_error : {A : Type 0} → M A → M (Unit {0}) → M A
on_error m undo w = clean_up (m w) undo

-- The result of a run is dropped, `_ = m`.
abbrev pub try : {A : Type 0} → M A → M (Unit {0})
try m w = (done tt, (m w).1)

abbrev pub reified : {A : Type 0} → Result A × World → Result (Result A) × World
reified (r, w) = (done r, w)

-- `a, err := m`, where the code goes on in either case
abbrev pub attempt : {A : Type 0} → M A → M (Result A)
attempt m w = reified (m w)

abbrev pub ended : {A : Type 0} → Result A × World → M (Unit {0}) → Result A × World
ended (r, w) last = (r, (last w).1)

-- a deferred function that drops its errors
abbrev pub finally : {A : Type 0} → M A → M (Unit {0}) → M A
finally m last w = ended (m w) last

-- one call of the operating system, on what is left of the faults
unfoldable pub serve :
    {A : Type 0} (good : World → Result A × Files) (bad : ℕ → World → Files)
    (faults : List (Option ℕ))
    → M A
serve good bad [] w = let (r, f) = good w in (r, record w { files = f })
serve good bad (none ∷ rest) w = let (r, f) = good w in (r, record w { files = f; faults = rest })
serve good bad (some n ∷ rest) w = (fails io, record w { files = bad n w; faults = rest })

unfoldable pub call : {A : Type 0} → (World → Result A × Files) → (ℕ → World → Files) → M A
unfolding serve
call good bad w = serve good bad w.faults w

unfoldable pub lookup : Bytes → Files → Option Node
lookup p [] = none
lookup p ((q, n) ∷ fs) = if text_eq q p then some n else lookup p fs

unfoldable pub insert : Bytes → Node → Files → Files
insert p n [] = (p, n) ∷ []
insert p n ((q, m) ∷ fs) =
    let rest = insert p n fs in if text_eq q p then (p, n) ∷ fs else (q, m) ∷ rest

unfoldable pub erase : Bytes → Files → Files
erase p [] = []
erase p ((q, m) ∷ fs) = let rest = erase p fs in if text_eq q p then rest else (q, m) ∷ rest

unfoldable pub node_at : Bytes → Files → Option Node
node_at p fs = if text_eq p dot then some directory else lookup p fs

-- the part of a path up to its last slash, and the part behind it
unfoldable pub cut_base : Bytes → Bytes × Bytes
cut_base [] = ([], [])
cut_base (c ∷ s) =
    let (d, b) = cut_base s in
    elim d [
      | [] ↦ if text_eq (c ∷ []) (codes "/") then (c ∷ [], b) else ([], c ∷ b)
      | x ∷ d' ↦ (c ∷ x ∷ d', b)
    ]

unfoldable pub extend : ℕ → List Bytes → List Bytes
extend c [] = []
extend c (p ∷ ps) = (c ∷ p) ∷ extend c ps

-- the directories above a path, from the root on
unfoldable pub parents : Bytes → List Bytes
parents [] = []
parents (c ∷ s) =
    let rest = parents s in
    let below = extend c rest in if text_eq (c ∷ []) (codes "/") then [] ∷ below else below

unfoldable pub make_dirs : List Bytes → Files → Result (Unit {0}) × Files
make_dirs [] fs = (done tt, fs)
make_dirs (d ∷ ds) fs = elim (node_at d fs) [
  | none ↦ make_dirs ds (insert d directory fs)
  | some directory ↦ make_dirs ds fs
  | some (file b t) ↦ (fails io, fs)
]

-- `os.MkdirAll` of the directory of a path
unfoldable pub mkdir_above : Bytes → M (Unit {0})
mkdir_above p =
    call (λ w. make_dirs (parents p) w.files) (λ n w. (make_dirs (take n (parents p)) w.files).1)

-- `os.OpenFile` with the flags `O_CREATE|O_WRONLY|O_TRUNC`
unfoldable pub truncate_node : Bytes → ℕ → Option Node → Files → Result (Unit {0}) × Files
truncate_node p t none fs = (done tt, insert p (file [] t) fs)
truncate_node p t (some (file b u)) fs = (done tt, insert p (file [] t) fs)
truncate_node p t (some directory) fs = (fails io, fs)

unfoldable pub open_trunc : Bytes → M (Unit {0})
unfolding truncate_node
open_trunc p = call (λ w. truncate_node p w.now (node_at p w.files) w.files) (λ n w. w.files)

-- a write of all bytes to an open file
unfoldable pub write : Bytes → Bytes → M (Unit {0})
write p b =
    call (λ w. (done tt, insert p (file b w.now) w.files))
      (λ n w. insert p (file (take n b) w.now) w.files)

-- a call on an open file that changes no path: `Sync`, `Close`, `Chmod`, `Seek`
unfoldable pub on_open_file : M (Unit {0})
on_open_file = call (λ w. (done tt, w.files)) (λ n w. w.files)

-- Some path lies below the directory.
unfoldable pub has_children : Bytes → Files → Bool
has_children p fs = any (λ (e : Bytes × Node). has_prefix e.0 (p ++ codes "/")) fs

-- `os.Remove` of what is there: an empty directory goes too
unfoldable pub remove_node : Bytes → Bool → Option Node → Files → Result (Unit {0}) × Files
remove_node p in_use none fs = (fails not_exist, fs)
remove_node p in_use (some (file b t)) fs = (done tt, erase p fs)
remove_node p in_use (some directory) fs = if in_use then (fails io, fs) else (done tt, erase p fs)

unfoldable pub remove : Bytes → M (Unit {0})
unfolding remove_node
remove p =
    call (λ w. remove_node p (text_eq p dot || has_children p w.files) (node_at p w.files) w.files)
      (λ n w. w.files)

-- a path that moves with the directory `p` to `q`
unfoldable pub rekey : Bytes → Bytes → Bytes → Bytes
rekey p q k =
    if text_eq k p
    then q
    else elim (cut_prefix k (p ++ codes "/")) [ none ↦ k | some rest ↦ q ++ codes "/" ++ rest ]

unfoldable pub move_tree : Bytes → Bytes → Files → Files
move_tree p q [] = []
move_tree p q ((k, n) ∷ fs) = (rekey p q k, n) ∷ move_tree p q fs

-- `os.Rename`: a file replaces a file; a directory takes a path where nothing is.
unfoldable pub rename_node :
    Bytes → Bytes → Option Node → Option Node → Files → Result (Unit {0}) × Files
rename_node p q none target fs = (fails not_exist, fs)
rename_node p q (some (file b t)) (some directory) fs = (fails io, fs)
rename_node p q (some (file b t)) none fs = (done tt, insert q (file b t) (erase p fs))
rename_node p q (some (file b t)) (some (file c u)) fs = (done tt, insert q (file b t) (erase p fs))
rename_node p q (some directory) (some n) fs = (fails io, fs)
rename_node p q (some directory) none fs = (done tt, move_tree p q fs)

unfoldable pub rename : Bytes → Bytes → M (Unit {0})
unfolding rename_node
rename p q =
    call (λ w. rename_node p q (node_at p w.files) (node_at q w.files) w.files) (λ n w. w.files)

-- `os.Stat`
abbrev pub stat_node : Option Node → Result Node
stat_node none = fails not_exist
stat_node (some n) = done n

unfoldable pub stat : Bytes → M Node
stat p = call (λ w. (stat_node (node_at p w.files), w.files)) (λ n w. w.files)

-- `os.CreateTemp(dir, pattern)` for a pattern that ends in a star: the name is the pattern with a
-- suffix that the operating system picks, and the file is new.
unfoldable pub create_temp : (Bytes → Files → Bytes) → Bytes → M Bytes
create_temp suffix pattern =
    call
      (λ w.
        let tmp = pattern ++ suffix pattern w.files in
        (done tmp, insert tmp (file [] w.now) w.files))
      (λ n w. w.files)

-- `os.ReadDir`: whether there are entries
abbrev pub entries_of : Option Node → Bool → Result Bool
entries_of none some_below = fails not_exist
entries_of (some (file b t)) some_below = fails io
entries_of (some directory) some_below = done some_below

unfoldable pub read_dir : Bytes → M Bool
read_dir p =
    call (λ w. (entries_of (node_at p w.files) (has_children p w.files), w.files)) (λ n w. w.files)

unfoldable pub erase_tree : Bytes → Files → Files
erase_tree p [] = []
erase_tree p ((k, n) ∷ fs) =
    let rest = erase_tree p fs in
    if text_eq k p || has_prefix k (p ++ codes "/") then rest else (k, n) ∷ rest

-- `os.RemoveAll`; where it fails, what lies among the first `n` paths is gone
unfoldable pub remove_all : Bytes → M (Unit {0})
remove_all p =
    call (λ w. (done tt, erase_tree p w.files))
      (λ n w. erase_tree p (take n w.files) ++ drop n w.files)
