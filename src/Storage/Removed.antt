-- ===== src/Storage/Removed.antt =====
-- registry-server/storage.go: what `Delete` and `GarbageCollect` leave behind.
use terraform_registry.Base.{
  ℕ, ◌≡◌, ◌≢◌, refl, sym, subst, Option, none, some, List, [], ◌∷◌, Bool, true, false, ◌||◌,
}
use terraform_registry.Text.{Bytes, text_eq}
use terraform_registry.Paths.{dot}
use terraform_registry.Disk.{
  Node, file, directory, Files, not_exist, io, invalid_key, too_large, invalid_archive, corrupt,
  unavailable, Result, done, fails, World, lookup, erase, node_at, remove, remove_node, attempt,
  call, serve, reified, has_children,
}
use terraform_registry.Disk.Laws.{lookup-erase_self, node_at-other}
use terraform_registry.Disk.Triples.{
  Ensures, Triple, Triple-call_keeps, Triple-bind, Triple-return, Triple-stop, Triple-attempt_keeps,
}
use terraform_registry.Storage.Removal.{unless_missing, remove_if_there}

unless_missing-Triple :
    (P : Files → Type 0) (r : Result (Unit {0})) → Triple P (unless_missing r) (λ u. P) P
unless_missing-Triple P (done u) = Triple-return tt (λ f h. h)
unless_missing-Triple P (fails not_exist) = Triple-return tt (λ f h. h)
unless_missing-Triple P (fails io) = Triple-stop io (λ f h. h)
unless_missing-Triple P (fails invalid_key) = Triple-stop invalid_key (λ f h. h)
unless_missing-Triple P (fails too_large) = Triple-stop too_large (λ f h. h)
unless_missing-Triple P (fails invalid_archive) = Triple-stop invalid_archive (λ f h. h)
unless_missing-Triple P (fails corrupt) = Triple-stop corrupt (λ f h. h)
unless_missing-Triple P (fails unavailable) = Triple-stop unavailable (λ f h. h)

-- What a removal can only shrink.
module _ (p : Bytes) (P : Files → Type 0) (del : (f : Files) → P f → P (erase p f)) where
  removed : (f : Files) (n : Option Node) (b : Bool) → P f → P (remove_node p b n f).1
  unfolding remove_node
  removed f none b h = h
  removed f (some (file c t)) b h = del f h
  removed f (some directory) true h = h
  removed f (some directory) false h = del f h

  remove-keeps : Triple P (remove p) (λ u. P) P
  unfolding remove
  remove-keeps =
      Triple-call_keeps _ _ P (λ w h. removed w.files (node_at p w.files) _ h) (λ n w h. h)

  pub remove_if_there-keeps : Triple P (remove_if_there p) (λ u. P) P
  unfolding remove_if_there
  remove_if_there-keeps =
      Triple-bind (attempt (remove p)) unless_missing (Triple-attempt_keeps (remove p) remove-keeps)
        (unless_missing-Triple P)

-- What is known of a path behind the attempt to remove it.
abbrev Gone : Bytes → Result (Unit {0}) → Files → Type 0
Gone p (done u) f = lookup p f ≡ none
Gone p (fails not_exist) f = lookup p f ≡ none
Gone p (fails e) f = Unit {0}

module _ (p : Bytes) (p_ne : p ≢ dot) where
  removed-Gone :
      (n : Option Node) (b : Bool) (f : Files)
      → lookup p f ≡ n
      → Gone p (remove_node p b n f).0 (remove_node p b n f).1
  unfolding remove_node
  removed-Gone none b f e = e
  removed-Gone (some (file c t)) b f e = lookup-erase_self p f
  removed-Gone (some directory) true f e = tt
  removed-Gone (some directory) false f e = lookup-erase_self p f

  -- the answer of the call, and the files behind it
  answer : World → Result (Unit {0}) × Files
  answer w = remove_node p (text_eq p dot || has_children p w.files) (node_at p w.files) w.files

  answer-Gone : (w : World) → Gone p (answer w).0 (answer w).1
  unfolding answer
  answer-Gone w =
      subst
        (λ n.
          Gone p (remove_node p (text_eq p dot || has_children p w.files) n w.files).0
            (remove_node p (text_eq p dot || has_children p w.files) n w.files).1)
        (sym (node_at-other p w.files p_ne)) (removed-Gone (lookup p w.files) _ w.files refl)

  remove_served :
      (fs : List (Option ℕ)) (w : World)
      → Ensures (λ r f. Gone p r f) (λ f. Unit {0}) (reified (serve answer (λ n w. w.files) fs w))
  unfolding serve
  remove_served [] w = answer-Gone w
  remove_served (none ∷ fs) w = answer-Gone w
  remove_served (some n ∷ fs) w = tt

  Gone-unless :
      (r : Result (Unit {0}))
      → Triple (Gone p r) (unless_missing r) (λ u f. lookup p f ≡ none) (λ f. Unit {0})
  Gone-unless (done u) = Triple-return tt (λ f h. h)
  Gone-unless (fails not_exist) = Triple-return tt (λ f h. h)
  Gone-unless (fails io) = Triple-stop io (λ f h. tt)
  Gone-unless (fails invalid_key) = Triple-stop invalid_key (λ f h. tt)
  Gone-unless (fails too_large) = Triple-stop too_large (λ f h. tt)
  Gone-unless (fails invalid_archive) = Triple-stop invalid_archive (λ f h. tt)
  Gone-unless (fails corrupt) = Triple-stop corrupt (λ f h. tt)
  Gone-unless (fails unavailable) = Triple-stop unavailable (λ f h. tt)

  pub remove_if_there-gone :
      Triple (λ f. Unit {0}) (remove_if_there p) (λ u f. lookup p f ≡ none) (λ f. Unit {0})
  unfolding remove_if_there remove call answer
  remove_if_there-gone =
      Triple-bind (attempt (remove p)) unless_missing
        (record { at = λ w h. remove_served w.faults w }) Gone-unless
