-- ===== src/Storage/Listing.antt =====
-- registry-server/storage.go: `List` and `Exists` over the files, and what the handlers read of them.
-- `os.ReadDir` sorts by name; `filepath.Walk` does so in every directory, which is the order of the
-- paths where a slash comes before every other byte.
use terraform_registry.Base.{
  Bool, true, false, Option, none, some, List, [], ◌∷◌, ◌++◌, if◌then◌else◌, is_nil, map, ◌==◌, lt,
  eq, gt,
}
use terraform_registry.Text.{Bytes, codes, text_eq, cut_prefix, contains, compare_text}
use terraform_registry.Paths.{dot, path_clean}
use terraform_registry.Disk.{Node, file, directory, Files, node_at}
use terraform_registry.Storage.Resolve.{resolve}
use terraform_registry.Storage.OnDisk.{read_at}
use terraform_registry.Protocol.Reader.{Reader, PlatformMeta, VersionMetadata}

-- the part of a path below the directory `p`
unfoldable pub below : Bytes → Bytes → Option Bytes
below p k = if text_eq p dot then some k else cut_prefix k (p ++ codes "/")

-- the names in a directory
unfoldable pub children : Bytes → Files → Files
children p [] = []
children p ((k, n) ∷ fs) =
    let rest = children p fs in
    elim (below p k) [
      | none ↦ rest
      | some name ↦ if contains name (codes "/") then rest else (name, n) ∷ rest
    ]

-- a path as it is sorted by the walk
unfoldable pub walk_key : Bytes → Bytes
walk_key p = map (λ c. if c == b'/' then 0 else c) p

unfoldable pub is_before : Bytes → Bytes → Bool
is_before p q = elim (compare_text (walk_key p) (walk_key q)) [
  | lt ↦ true
  | eq ↦ false
  | gt ↦ false
]

unfoldable pub insert_sorted : Bytes × Node → Files → Files
insert_sorted e [] = e ∷ []
insert_sorted e (x ∷ xs) =
    let rest = insert_sorted e xs in if is_before x.0 e.0 then x ∷ rest else e ∷ x ∷ rest

unfoldable pub sort_paths : Files → Files
sort_paths [] = []
sort_paths (e ∷ es) = insert_sorted e (sort_paths es)

-- `filepath.ToSlash(filepath.Join(prefix, name))`
unfoldable pub join_name : Bytes → Bytes → Bytes
join_name prefix name =
    if is_nil prefix then path_clean name else path_clean (prefix ++ codes "/" ++ name)

-- the loop over the entries of a directory: the objects, and the directories
unfoldable pub list_entries : Bytes → Files → List Bytes × List Bytes
list_entries prefix [] = ([], [])
list_entries prefix ((name, n) ∷ es) =
    let (objects, prefixes) = list_entries prefix es in
    elim n [
      | directory ↦ (objects, (join_name prefix name ++ codes "/") ∷ prefixes)
      | file b t ↦ (join_name prefix name ∷ objects, prefixes)
    ]

-- the files that the walk of `p` meets
unfoldable pub walk_files : Bytes → Files → List Bytes
walk_files p [] = []
walk_files p ((k, directory) ∷ fs) = walk_files p fs
walk_files p ((k, file b t) ∷ fs) =
    let rest = walk_files p fs in
    if text_eq k p then k ∷ rest else elim (below p k) [ none ↦ rest | some r ↦ k ∷ rest ]

unfoldable pub read_entries : Bytes → Bytes → Option Node → Files → Option (List Bytes × List Bytes)
read_entries prefix p none f = some ([], [])
read_entries prefix p (some (file b t)) f = none
read_entries prefix p (some directory) f = some (list_entries prefix (sort_paths (children p f)))

module _ (link_escapes : Bytes → Bool) where
  -- `List` with the delimiter `/`: the objects and the prefixes
  unfoldable pub list_directory : Files → Bytes → Option (List Bytes × List Bytes)
  list_directory f prefix = elim (resolve link_escapes prefix) [
    | none ↦ none
    | some p ↦ read_entries prefix p (node_at p f) f
  ]

  -- `List` without a delimiter: the objects
  unfoldable pub list_files : Files → Bytes → Option (List Bytes)
  list_files f prefix = elim (resolve link_escapes prefix) [
    | none ↦ none
    | some p ↦ some (walk_files p (sort_paths f))
  ]

  -- the prefixes that `List` finds with the delimiter `/`
  unfoldable pub list_prefixes : Files → Bytes → Option (List Bytes)
  list_prefixes f prefix = elim (list_directory f prefix) [
    | none ↦ none
    | some (objects, prefixes) ↦ some prefixes
  ]

  -- `Exists`
  unfoldable pub exists : Files → Bytes → Bool
  exists f key = elim (resolve link_escapes key) [
    | none ↦ false
    | some p ↦ elim (node_at p f) [ none ↦ false | some n ↦ true ]
  ]

  -- the reads of the handlers over the files
  unfoldable pub disk_reader :
      Bytes
      → (Bytes → Option (List Bytes))
      → (Bytes → Option VersionMetadata)
      → (Bytes → Option PlatformMeta)
      → (Bytes → Option Bytes)
      → Files
      → Reader
  disk_reader base_url index metadata platform artifact f = record {
    get = λ key. read_at (resolve link_escapes key) f;
    exists = exists f;
    walk = list_files f;
    base_url = base_url;
    decode_index = index;
    decode_metadata = metadata;
    decode_platform = platform;
    decode_artifact = artifact;
  }
