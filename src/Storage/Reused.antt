-- ===== src/Storage/Reused.antt =====
-- registry-server/storage.go: what `PutStreamImmutable` says of whether its object was there before.
use terraform_registry.Base.{
  ℕ, ◌≡◌, ◌≢◌, ◌⊎◌, inl, inr, refl, sym, ap, ◌∙◌, arith, Option, none, some, if◌then◌else◌, List,
  [], ◌∷◌, ◌++◌, Bool, true, false, Bool-cases,
}
use terraform_registry.Text.{Bytes, codes, text_eq}
use terraform_registry.Text.Laws.{text_eq_iff}
use terraform_registry.Disk.{
  Node, file, Files, Error, not_exist, io, invalid_key, too_large, invalid_archive, corrupt,
  unavailable, Result, done, fails, M, World, ◌>>◌, insert, erase, node_at, stat_node, stat, call,
  serve, reified, create_temp, attempt, finally, on_open_file, return,
}
use terraform_registry.Disk.Laws.{content, lookup-insert_ne, lookup-erase_ne}
use terraform_registry.Disk.Triples.{
  Ensures, Triple, Triple-bind, Triple-call, Triple-fact, Triple-return, Triple-stop, Triple-weaken,
  Triple-finally,
}
use terraform_registry.Storage.Resolve.{resolve}
use terraform_registry.Storage.Writes.{
  Stream, receive, discard, at_path, located, fail_with, store_once, publish_new, publish_once,
  put_stream_immutable,
}
use terraform_registry.Storage.Steps.{on_open_file-Triple}
use terraform_registry.Storage.Streams.{receive-Triple, fail_with-fact}

-- What is known of the destination behind the test.
abbrev pub Known : Bytes → Result Node → Files → Type 0
Known p (done n) f = node_at p f ≡ some n
Known p (fails not_exist) f = node_at p f ≡ none
Known p (fails e) f = Unit {0}

stat_node-Known :
    (p : Bytes) (n : Option Node) (f : Files) → node_at p f ≡ n → Known p (stat_node n) f
stat_node-Known p none f e = e
stat_node-Known p (some n) f e = e

module _ (p : Bytes) (P : Files → Type 0) where
  stat_served :
      (fs : List (Option ℕ)) (w : World)
      → P w.files
      → Ensures
          (λ r f. P f × Known p r f)
          P
          (reified (serve (λ w. (stat_node (node_at p w.files), w.files)) (λ n w. w.files) fs w))
  unfolding serve
  stat_served [] w h = (h, stat_node-Known p (node_at p w.files) w.files refl)
  stat_served (none ∷ fs) w h = (h, stat_node-Known p (node_at p w.files) w.files refl)
  stat_served (some n ∷ fs) w h = (h, tt)

  pub stat-Known : Triple P (attempt (stat p)) (λ r f. P f × Known p r f) P
  unfolding stat call serve
  stat-Known = record { at = λ w h. stat_served w.faults w h }

pub located-Triple :
    (link_escapes : Bytes → Bool) (key : Bytes) (P : Files → Type 0)
    → Triple P (located link_escapes key) (λ p f. P f × (resolve link_escapes key ≡ some p)) P
unfolding located at_path
located-Triple link_escapes key P = go (resolve link_escapes key) refl
  where
    go :
        (r : Option Bytes)
        → resolve link_escapes key ≡ r
        → Triple P (at_path r) (λ p f. P f × (resolve link_escapes key ≡ some p)) P
    go none e = Triple-stop invalid_key (λ f h. h)
    go (some p) e = Triple-return p (λ f h. (h, e))

abbrev Nothing : Files → Type 0
Nothing f = Unit {0}

module _ {A : Type 0} where
  -- A run that promises nothing.
  Triple-any : (P : Files → Type 0) (m : M A) → Triple P m (λ a. Nothing) Nothing
  Triple-any P m = record { at = λ w h. ends (m w) }
    where
      ends : (o : Result A × World) → Ensures (λ a. Nothing) Nothing o
      ends (done a, w) = tt
      ends (fails e, w) = tt

-- Something was at the path of the key, or the key names a temporary file of an upload.
abbrev pub WasThere : Option Bytes → Files → Type 0
WasThere r before =
    (p : Bytes) × (r ≡ some p)
    × ((node_at p before ≢ none) ⊎ ((x : Bytes) × (p ≡ codes ".tmp-upload-" ++ x)))

-- Where the answer says that the object was there, it was.
abbrev pub IsTold : (Bytes → Bool) → Bytes → Files → Bytes × Bytes × Bool → Type 0
IsTold link_escapes key before (b, k, existed) =
    if existed then WasThere (resolve link_escapes key) before else Unit {0}

node_at-lookup :
    (p : Bytes) (f g : Files)
    → terraform_registry.Disk.lookup p f ≡ terraform_registry.Disk.lookup p g
    → node_at p f ≡ node_at p g
unfolding node_at
node_at-lookup p f g h = ground (arith, h)

module _ (before : Files) (m : Bytes) where
  -- All is as before but the temporary file.
  abbrev AsBefore : Files → Type 0
  AsBefore f = (p : Bytes) → m ≢ p → node_at p f ≡ node_at p before

  AsBefore-insert : (n : Node) (f : Files) → AsBefore f → AsBefore (insert m n f)
  AsBefore-insert n f h p k = node_at-lookup p (insert m n f) f (lookup-insert_ne m p n f k) ∙ h p k

  AsBefore-erase : (f : Files) → AsBefore f → AsBefore (erase m f)
  AsBefore-erase f h p k = node_at-lookup p (erase m f) f (lookup-erase_ne m p f k) ∙ h p k

  module _ (named : (x : Bytes) × (m ≡ codes ".tmp-upload-" ++ x)) where
    was_there :
        (p : Bytes) (n : Node) (f : Files) (r : Option Bytes)
        → AsBefore f
        → node_at p f ≡ some n
        → r ≡ some p
        → WasThere r before
    was_there p n f r h k e = elim (Bool-cases (text_eq m p)) [
      | inl t ↦ (p, e, inr (named.0, sym ((text_eq_iff m p).0 t) ∙ named.1))
      | inr t ↦
          (p, e, inl λ g. ground (arith, h p (λ s. ground (arith, t, (text_eq_iff m p).1 s)), k, g))
    ]

    abbrev Told : Option Bytes → Bool → Type 0
    Told r existed = if existed then WasThere r before else Unit {0}

    publish_once-Told :
        (p b : Bytes) (k : Result Node) (r : Option Bytes)
        → r ≡ some p
        → Triple
            (λ f. (AsBefore f × (content m f ≡ some b)) × Known p k f)
            (publish_once m p k)
            (λ existed f. Told r existed)
            Nothing
    unfolding publish_once
    publish_once-Told p b (done n) r e = Triple-return true (λ f h. was_there p n f r h.0.0 h.1 e)
    publish_once-Told p b (fails not_exist) r e =
        Triple-bind (publish_new m p) _ (Triple-any _ (publish_new m p))
          λ u. Triple-return false (λ f h. tt)
    publish_once-Told p b (fails io) r e = Triple-stop io (λ f h. tt)
    publish_once-Told p b (fails invalid_key) r e = Triple-stop invalid_key (λ f h. tt)
    publish_once-Told p b (fails too_large) r e = Triple-stop too_large (λ f h. tt)
    publish_once-Told p b (fails invalid_archive) r e = Triple-stop invalid_archive (λ f h. tt)
    publish_once-Told p b (fails corrupt) r e = Triple-stop corrupt (λ f h. tt)
    publish_once-Told p b (fails unavailable) r e = Triple-stop unavailable (λ f h. tt)

    module _ (link_escapes : Bytes → Bool) (s : Stream) (max : ℕ) (validate : Bytes → Option Error)
        (key_of : Bytes → Bytes) where
      store_once-Told :
          Triple AsBefore
            (store_once link_escapes s max validate key_of m)
            (λ a f. IsTold link_escapes (key_of s.bytes) before a)
            Nothing
      unfolding store_once
      store_once-Told =
          Triple-bind (receive m s max) _
            (Triple-weaken _
              (receive-Triple m AsBefore (λ b t f. AsBefore-insert (file b t) f) AsBefore-erase s
                max)
              (λ f h. h) (λ b f h. h) (λ f h. tt))
            λ b. Triple-fact _ _ λ r.
              Triple-bind on_open_file _
                (Triple-weaken _ (on_open_file-Triple (λ f. AsBefore f × (content m f ≡ some b)))
                  (λ f h. h) (λ u f h. h) (λ f h. tt))
                λ u.
                  Triple-bind (fail_with (validate b)) _
                    (Triple-weaken _
                      (fail_with-fact (λ f. AsBefore f × (content m f ≡ some b)) (validate b))
                      (λ f h. h) (λ u f h. h.0) (λ f h. tt))
                    λ u.
                      Triple-bind (located link_escapes (key_of b)) _
                        (Triple-weaken _
                          (located-Triple link_escapes (key_of b)
                            (λ f. AsBefore f × (content m f ≡ some b)))
                          (λ f h. h) (λ p f h. h) (λ f h. tt))
                        λ p. Triple-fact _ _ λ e.
                          Triple-bind (attempt (stat p)) _
                            (Triple-weaken _
                              (stat-Known p (λ f. AsBefore f × (content m f ≡ some b))) (λ f h. h)
                              (λ k f h. h) (λ f h. tt))
                            λ k.
                              Triple-bind (publish_once m p k) _
                                (publish_once-Told p b k (resolve link_escapes (key_of s.bytes))
                                  (ap (λ b. resolve link_escapes (key_of b)) (sym r.0) ∙ e))
                                λ existed. Triple-return (b, key_of b, existed) (λ f h. h)

pub IsTold-Triple :
    (link_escapes : Bytes → Bool) (suffix : Bytes → Files → Bytes) (s : Stream) (max : ℕ)
    (validate : Bytes → Option Error) (key_of : Bytes → Bytes) (before : Files)
    → Triple
        (λ f. f ≡ before)
        (put_stream_immutable link_escapes suffix s max validate key_of)
        (λ r f. IsTold link_escapes (key_of s.bytes) before r)
        Nothing
unfolding put_stream_immutable create_temp
IsTold-Triple link_escapes suffix s max validate key_of before =
    Triple-bind {Q = λ m f. AsBefore before m f × ((x : Bytes) × (m ≡ codes ".tmp-upload-" ++ x))}
      (create_temp suffix (codes ".tmp-upload-")) _
      (Triple-call _ _
        (λ w h. (
          AsBefore-insert before (codes ".tmp-upload-" ++ suffix (codes ".tmp-upload-") w.files)
              (file [] w.now) w.files (λ p k. ap (node_at p) h),
          (suffix (codes ".tmp-upload-") w.files, refl),
        ))
        (λ n w h. tt))
      λ m. Triple-fact _ _ λ named.
        Triple-finally (store_once link_escapes s max validate key_of m) (discard m)
          (store_once-Told before m named link_escapes s max validate key_of)
          (λ a. record { at = λ w h. told (discard m w) h }) (Triple-any _ (discard m))
  where
    told : {F : Type 0} (o : Result (Unit {0}) × World) → F → Ensures (λ u f. F) (λ f. F) o
    told (done u, w) h = h
    told (fails e, w) h = h
