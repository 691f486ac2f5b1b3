-- ===== src/Storage/Staged.antt =====
-- registry-server/storage.go: the rollback of `StageDeleteTree` puts back the tree.
use terraform_registry.Base.{
  ◌+◌, ◌<◌, ◌≡◌, ◌≢◌, refl, sym, ap, ◌∙◌, subst, arith, Bool, true, false, Option, none, some, List,
  [], ◌∷◌, ◌++◌, ℕ, length, length-append, All,
}
use terraform_registry.Text.{Bytes, codes}
use terraform_registry.Disk.{
  Node, file, directory, Files, io, Result, done, fails, M, World, ◌>>=◌, ◌>>◌, return, call, serve,
  insert, move_tree, erase, node_at, stat, create_temp, on_open_file, on_error, try, remove,
  remove_node, rename, rename_node, lookup,
}
use terraform_registry.Paths.{dot}
use terraform_registry.Disk.Laws.{
  node_at-other, content, content_of, lookup-insert_self, lookup-erase_ne,
}
use terraform_registry.Storage.Writes.{beside}
use terraform_registry.Storage.Written.{beside-length}
use terraform_registry.Storage.Steps.{on_open_file-Triple}
use terraform_registry.Storage.Removal.{stage_at, rollback}
use terraform_registry.Disk.Triples.{
  Ensures, Triple, Triple-call_keeps, Triple-return, Triple-bind, Triple-call, Triple-weaken,
  Triple-on_error, Triple-fact, Triple-try,
}
use terraform_registry.Disk.Trees.{
  Outside, move_tree_back, lookup-move_tree, lookup-move_tree_gone, lookup-Outside, erase-insert,
}

ran :
    {A B : Type 0} (m : M A) (k : A → M B) (w v : World) (a : A)
    → m w ≡ (done a, v)
    → (m >>= k) w ≡ k a v
ran m k w v a h = rw h refl

-- A new name: nothing is at it or below it.
abbrev pub FreshTree : (Bytes → Files → Bytes) → Type 0
FreshTree suffix =
    (pattern : Bytes) (f : Files)
    → All (λ (e : Bytes × Node). Outside (pattern ++ suffix pattern f) e.0) f

-- Every file that was there has its bytes.
abbrev pub Safe : Files → Files → Type 0
Safe f g = (q b : Bytes) → content q f ≡ some b → content q g ≡ some b

Safe-same : (f g : Files) → g ≡ f → Safe f g
Safe-same f g e q b h = ap (content q) e ∙ h

module _ (p : Bytes) (f : Files) where
  -- Nothing is at or below what the trash is called.
  abbrev IsFree : Bytes → Type 0
  IsFree trash = All (λ (e : Bytes × Node). Outside trash e.0) f

  -- The tree is in the trash, and was free of what the trash is called.
  abbrev InTrash : Bytes → Files → Type 0
  InTrash trash g = (g ≡ move_tree p trash f) × IsFree trash

  renamed :
      (trash : Bytes) (w : World) (n target : Option Node)
      → n ≡ some directory
      → IsFree trash
      → w.files ≡ f
      → Ensures
          (λ u. InTrash trash)
          (Safe f)
          (
            (rename_node p trash n target w.files).0,
            record w { files = (rename_node p trash n target w.files).1 },
          )
  unfolding rename_node
  renamed trash w none target e o h = ground arith
  renamed trash w (some (file b t)) target e o h = ground arith
  renamed trash w (some directory) none e o h = (ap (move_tree p trash) h, o)
  renamed trash w (some directory) (some n) e o h = Safe-same f w.files h

  -- The temporary file is what is new.
  abbrev Marked : Bytes → Files → Type 0
  Marked trash g = (erase trash g ≡ f) × IsFree trash

  Marked-Safe : (trash : Bytes) (g : Files) → Marked trash g → Safe f g
  Marked-Safe trash g (e, o) q b h =
      ap content_of (sym (lookup-erase_ne trash q g other)) ∙ ap (content q) e ∙ h
    where
      other : trash ≢ q
      other k = ground (arith, ap (λ x. content x f) k, ap content_of (lookup-Outside trash f o), h)

  unmarked :
      (trash : Bytes) (w : World) (n : Option Node) (b : Bool)
      → Marked trash w.files
      → Ensures
          (λ u g. (g ≡ f) × IsFree trash)
          (Safe f)
          (
            (remove_node trash b n w.files).0,
            record w { files = (remove_node trash b n w.files).1 },
          )
  unfolding remove_node
  unmarked trash w none b h = Marked-Safe trash w.files h
  unmarked trash w (some (file c t)) b h = h
  unmarked trash w (some directory) true h = Marked-Safe trash w.files h
  unmarked trash w (some directory) false h = h

  -- How a rollback ends: with the files from before, unless its call fails; then all stays as it is.
  abbrev pub Restores : List (Option ℕ) → Files → Result (Unit {0}) × World → Type 0
  Restores [] staged r = (r.0 ≡ done tt) × (r.1.files ≡ f)
  Restores (none ∷ rest) staged r = (r.0 ≡ done tt) × (r.1.files ≡ f)
  Restores (some n ∷ rest) staged r = (r.0 ≡ fails io) × (r.1.files ≡ staged)

  restored :
      (trash : Bytes) (v : World)
      → InTrash trash v.files
      → rename_node trash p (node_at trash v.files) (node_at p v.files) v.files
        ≡ (done tt, move_tree trash p v.files)
      → (faults : List (Option ℕ))
      → Restores faults v.files (
          serve
            (λ w. rename_node trash p (node_at trash w.files) (node_at p w.files) w.files)
            (λ n w. w.files)
            faults
            v)
  unfolding serve
  restored trash v h e [] = (ap (λ (r : Result (Unit {0}) × Files). r.0) e, back)
    where
      back : (rename_node trash p (node_at trash v.files) (node_at p v.files) v.files).1 ≡ f
      back =
          ap (λ (r : Result (Unit {0}) × Files). r.1) e
          ∙ ap (move_tree trash p) h.0
          ∙ move_tree_back p trash f h.1
  restored trash v h e (none ∷ rest) = (
    ap (λ (r : Result (Unit {0}) × Files). r.0) e,
    ap (λ (r : Result (Unit {0}) × Files). r.1) e
        ∙ ap (move_tree trash p) h.0
        ∙ move_tree_back p trash f h.1,
  )
  restored trash v h e (some n ∷ rest) = (refl, refl)

  -- What the stage comes to, and the rollback behind it.
  abbrev pub Stages : List (Option ℕ) → Result Bytes × World → Type 0
  Stages faults (done trash, v) =
      (lookup p v.files ≡ none)
      × (lookup trash v.files ≡ some directory)
      × Restores v.faults v.files (rollback (p, trash) v)
  Stages faults (fails e, v) = (faults ≢ []) × Safe f v.files

module _ (link_escapes : Bytes → Bool) (suffix : Bytes → Files → Bytes) (p : Bytes) (f : Files)
    (fresh : FreshTree suffix) (p_ne : p ≢ dot) (is_directory : lookup p f ≡ some directory) where
  -- a name in the trash
  abbrev IsTrash : Bytes → Type 0
  IsTrash trash = (trash ≢ dot) × (length p < length trash)

  created :
      Triple
        (λ g. g ≡ f)
        (create_temp suffix (beside (codes ".trash-") (codes "-") p))
        (λ trash g. Marked p f trash g × IsTrash trash)
        (Safe f)
  unfolding create_temp
  created =
      Triple-call _ _
        (λ w h.
          let pattern : Bytes = beside (codes ".trash-") (codes "-") p in
          let m : Bytes = pattern ++ suffix pattern w.files in
          let long : length pattern ≡ 7 + (length p + 1) =
            beside-length (codes ".trash-") (codes "-") p in
          let o : All (λ (e : Bytes × Node). Outside m e.0) w.files = fresh pattern w.files in
          (
            (
              erase-insert m (file [] w.now) w.files o ∙ h,
              subst (All (λ (e : Bytes × Node). Outside m e.0)) h o,
            ),
            (
              λ e. omega (arith, long, ap length e, length-append pattern (suffix pattern w.files)),
              omega (arith, long, length-append pattern (suffix pattern w.files)),
            ),
          ))
        (λ n w h. Safe-same f w.files h)

  closed :
      (trash : Bytes)
      → Triple
          (Marked p f trash)
          (on_error on_open_file (try (remove trash)))
          (λ u. Marked p f trash)
          (Safe f)
  unfolding remove
  closed trash =
      Triple-on_error on_open_file (try (remove trash)) (on_open_file-Triple (Marked p f trash)) (
        Triple-try (remove trash) (
          Triple-weaken (remove trash)
            (Triple-call _ _ (λ w h. unmarked p f trash w (node_at trash w.files) _ h)
              (λ n w h. Marked-Safe p f trash w.files h))
            (λ g h. h) (λ u g h. Safe-same f g h.0) (λ g h. h)))

  moved :
      (trash : Bytes)
      → Triple (λ g. (g ≡ f) × IsFree p f trash) (rename p trash) (λ u. InTrash p f trash) (Safe f)
  unfolding rename
  moved trash =
      Triple-call _ _
        (λ w h.
          renamed p f trash w (node_at p w.files) (node_at trash w.files)
            (node_at-other p w.files p_ne ∙ ap (lookup p) h.0 ∙ is_directory) h.1 h.0)
        (λ n w h. Safe-same f w.files h.0)

  staged :
      Triple
        (λ g. g ≡ f)
        (stage_at link_escapes suffix p)
        (λ trash g. InTrash p f trash g × IsTrash trash)
        (Safe f)
  unfolding stage_at stat create_temp remove rename
  staged =
      Triple-bind (stat p) _
        (Triple-weaken (stat p) (Triple-call_keeps _ _ (λ g. g ≡ f) (λ w h. h) (λ n w h. h))
          (λ g h. h) (λ n g h. h) (Safe-same f))
        λ n.
          Triple-bind (create_temp suffix (beside (codes ".trash-") (codes "-") p)) _ created
            λ trash. Triple-fact _ _ λ d.
              Triple-bind (on_error on_open_file (try (remove trash))) _ (closed trash) λ u.
                Triple-bind (remove trash) _
                  (Triple-call _ _ (λ w h. unmarked p f trash w (node_at trash w.files) _ h)
                    (λ n w h. Marked-Safe p f trash w.files h))
                  λ u.
                    Triple-bind (rename p trash) _ (moved trash)
                      λ u. Triple-return trash (λ g h. (h, d))

  -- the steps of the stage, from each on
  abbrev into_trash : Bytes → M Bytes
  into_trash trash = rename p trash >> return trash

  abbrev free_trash : Bytes → M Bytes
  free_trash trash = remove trash >> into_trash trash

  abbrev empty_trash : Bytes → M Bytes
  empty_trash trash = on_error on_open_file (try (remove trash)) >> free_trash trash

  abbrev begin_stage : M Bytes
  begin_stage = create_temp suffix (beside (codes ".trash-") (codes "-") p) >>= empty_trash

  -- Without a fault the tree gets into the trash.
  calm :
      (now : ℕ)
      → (trash : Bytes) × ((stage_at link_escapes suffix p
            (record { files = f; now = now; faults = [] })).0
          ≡ done trash)
  unfolding stage_at stat create_temp remove rename on_open_file call serve remove_node rename_node
  calm now =
      let pattern : Bytes = beside (codes ".trash-") (codes "-") p in
      let m : Bytes = pattern ++ suffix pattern f in
      let long : length pattern ≡ 7 + (length p + 1) =
        beside-length (codes ".trash-") (codes "-") p in
      let other : m ≢ dot =
        λ e. omega (arith, long, ap length e, length-append pattern (suffix pattern f)) in
      let at_p : node_at p f ≡ some directory = node_at-other p f p_ne ∙ is_directory in
      let at_m : node_at m (insert m (file [] now) f) ≡ some (file [] now) =
        node_at-other m (insert m (file [] now) f) other ∙ lookup-insert_self m (file [] now) f in
      let free : node_at m f ≡ none =
        node_at-other m f other ∙ lookup-Outside m f (fresh pattern f) in
      let w : World = record { files = f; now = now; faults = [] } in
      let marked : World = record w { files = insert m (file [] now) f } in
      let gone : erase m (insert m (file [] now) f) ≡ f =
        erase-insert m (file [] now) f (fresh pattern f) in
      (
        m,
        ap (λ (r : Result Bytes × World). r.0)
            (ran (stat p) (λ n. begin_stage) w w directory (rw at_p refl)
              ∙ ran (create_temp suffix pattern) empty_trash w marked m refl
              ∙ ran (on_error on_open_file (try (remove m))) (λ u. free_trash m) marked marked tt
                  refl
              ∙ ran (remove m) (λ u. into_trash m) marked w tt
                  (rw (at_m) (ap (λ g. (done tt, record w { files = g })) gone))
              ∙ ran (rename p m) (λ u. return m) w (record w { files = move_tree p m f }) tt
                  (rw (at_p, free) refl)),
      )

  staged-Stages :
      (faults : List (Option ℕ)) (o : Result Bytes × World)
      → (faults ≡ [] → (trash : Bytes) × (o.0 ≡ done trash))
      → Ensures (λ trash g. InTrash p f trash g × IsTrash trash) (Safe f) o
      → Stages p f faults o
  unfolding rollback rename call rename_node
  staged-Stages faults (fails e, v) h k = (λ z. not_done (h z).1, k)
    where
      not_done : {trash : Bytes} → fails e ≡ done trash → ⊥
      not_done g = ground (arith, g)
  staged-Stages faults (done trash, v) h ((i, o), (d, l)) =
      let gone : lookup p v.files ≡ none = ap (lookup p) i ∙ lookup-move_tree_gone p trash f l in
      let there : lookup trash v.files ≡ some directory =
        ap (lookup trash) i ∙ lookup-move_tree p trash f o ∙ is_directory in
      (
        gone,
        there,
        restored p f trash v (i, o)
            (renamed_back (node_at trash v.files) (node_at p v.files)
              (node_at-other trash v.files d ∙ there) (node_at-other p v.files p_ne ∙ gone))
            v.faults,
      )
    where
      renamed_back :
          (n target : Option Node)
          → n ≡ some directory
          → target ≡ none
          → rename_node trash p n target v.files ≡ (done tt, move_tree trash p v.files)
      renamed_back n target e g = rw (e, g) refl

-- The deletion of a directory is staged, whichever calls fail, with a trash that has a new name each
-- time. If the stage fails, a fault was to blame, and every file has its bytes. If it succeeds, the
-- directory is at its place in the trash and nothing is at its path; a rollback then succeeds and
-- leaves the files exactly as before the stage, unless its one call fails, which changes nothing.
pub rollback_restores :
    (link_escapes : Bytes → Bool) (suffix : Bytes → Files → Bytes) (p : Bytes) (w : World)
    → FreshTree suffix
    → p ≢ dot
    → lookup p w.files ≡ some directory
    → Stages p w.files w.faults (stage_at link_escapes suffix p w)
rollback_restores link_escapes suffix p w fresh p_ne d =
    staged-Stages link_escapes suffix p w.files fresh p_ne d w.faults
      (stage_at link_escapes suffix p w)
      (λ z.
        let (trash, e) = calm link_escapes suffix p w.files fresh p_ne d w.now in
        (
          trash,
          ap (λ faults. (stage_at link_escapes suffix p (record w { faults = faults })).0) z ∙ e,
        ))
      ((staged link_escapes suffix p w.files fresh p_ne d).at w refl)
