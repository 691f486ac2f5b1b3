-- ===== src/Disk/Triples.antt =====
-- Rules for runs over the files: what holds of the files before a run, behind a success and behind a
-- failure.
use terraform_registry.Base.{ℕ, List, [], ◌∷◌, Option, none, some, ◌≡◌, ◌⊎◌, inl, inr, refl}
use terraform_registry.Disk.{
  Files, Error, io, Result, done, fails, World, M, ◌>>=◌, continue, return, stop, clean_up,
  on_error, try, attempt, reified, finally, ended, serve, call,
}

abbrev pub Ensures :
    {A : Type 0} → (A → Files → Type 0) → (Files → Type 0) → Result A × World → Type 0
Ensures Q E (done a, w) = Q a w.files
Ensures Q E (fails e, w) = E w.files

-- From files of `P` the run comes to files of `Q`, or fails with files of `E`.
pub record Triple {A : Type 0} (P : Files → Type 0) (m : M A) (Q : A → Files → Type 0)
    (E : Files → Type 0) : Type 0 where
  pub at : (w : World) → P w.files → Ensures Q E (m w)

module _ {A : Type 0} (P : Files → Type 0) (Q : A → Files → Type 0) (E : Files → Type 0)
    (good : World → Result A × Files) (bad : ℕ → World → Files)
    (g : (w : World) → P w.files → Ensures Q E ((good w).0, record w { files = (good w).1 }))
    (b : (n : ℕ) (w : World) → P w.files → E (bad n w)) where
  moved :
      (r : Result A) (w : World) (rest : List (Option ℕ))
      → Ensures Q E (r, w)
      → Ensures Q E (r, record w { faults = rest })
  moved (done a) w rest h = h
  moved (fails x) w rest h = h

  served : (fs : List (Option ℕ)) (w : World) → P w.files → Ensures Q E (serve good bad fs w)
  unfolding serve
  served [] w h = g w h
  served (none ∷ rest) w h = moved (good w).0 (record w { files = (good w).1 }) rest (g w h)
  served (some n ∷ rest) w h = b n w h

module _ {A : Type 0} where
  tried : (R : Files → Type 0) (o : Result A × World) → Ensures (λ a. R) R o → R o.1.files
  tried R (done a, w) h = h
  tried R (fails e, w) h = h

  pub Triple-try :
      (m : M A) {P R F : Files → Type 0} → Triple P m (λ a. R) R → Triple P (try m) (λ u. R) F
  Triple-try m {R = R} t = record { at = λ w h. tried R (m w) (t.at w h) }

  pub Triple-call_keeps :
      (good : World → Result A × Files) (bad : ℕ → World → Files) (R : Files → Type 0)
      → ((w : World) → R w.files → R (good w).1)
      → ((n : ℕ) (w : World) → R w.files → R (bad n w))
      → Triple R (call good bad) (λ a. R) R
  unfolding call
  Triple-call_keeps good bad R g b = record {
    at = λ w h.
        served R (λ a. R) R good bad (λ w h. settled (good w).0 w (good w).1 (g w h)) b w.faults w
          h;
  }
    where
      settled :
          (r : Result A) (w : World) (f : Files)
          → R f
          → Ensures (λ a. R) R (r, record w { files = f })
      settled (done a) w f h = h
      settled (fails e) w f h = h

module _ {A : Type 0} where
  pub Triple-attempt_keeps :
      (m : M A) {P F : Files → Type 0} → Triple P m (λ a. P) P → Triple P (attempt m) (λ r. P) F
  Triple-attempt_keeps m {P} {F} t = record { at = λ w h. known (m w) (t.at w h) }
    where
      known : (o : Result A × World) → Ensures (λ a. P) P o → Ensures (λ r. P) F (reified o)
      known (done a, w) h = h
      known (fails e, w) h = h

module _ {A : Type 0} {P : Files → Type 0} {Q : A → Files → Type 0} {E : Files → Type 0} where
  pub Triple-call :
      (good : World → Result A × Files) (bad : ℕ → World → Files)
      → ((w : World) → P w.files → Ensures Q E ((good w).0, record w { files = (good w).1 }))
      → ((n : ℕ) (w : World) → P w.files → E (bad n w))
      → Triple P (call good bad) Q E
  unfolding call
  Triple-call good bad g b = record { at = λ w h. served P Q E good bad g b w.faults w h }

  pub Triple-return : (a : A) → ((f : Files) → P f → Q a f) → Triple P (return a) Q E
  Triple-return a h = record { at = λ w p. h w.files p }

  pub Triple-stop : (e : Error) → ((f : Files) → P f → E f) → Triple P (stop {A = A} e) Q E
  Triple-stop e h = record { at = λ w p. h w.files p }

  pub Triple-on_error :
      (m : M A) (undo : M (Unit {0})) {D : Files → Type 0}
      → Triple P m Q D
      → Triple D undo (λ u. E) E
      → Triple P (on_error m undo) Q E
  Triple-on_error m undo {D} t u = record { at = λ w h. cleaned (m w) (t.at w h) }
    where
      undone : (o : Result (Unit {0}) × World) → Ensures (λ u. E) E o → E o.1.files
      undone (done a, w) h = h
      undone (fails e, w) h = h

      cleaned : (o : Result A × World) → Ensures Q D o → Ensures Q E (clean_up o undo)
      cleaned (done a, w) h = h
      cleaned (fails e, w) h = undone (undo w) (u.at w h)

  pub Triple-weaken :
      (m : M A) {P' : Files → Type 0} {Q' : A → Files → Type 0} {E' : Files → Type 0}
      → Triple P' m Q' E'
      → ((f : Files) → P f → P' f)
      → ((a : A) (f : Files) → Q' a f → Q a f)
      → ((f : Files) → E' f → E f)
      → Triple P m Q E
  Triple-weaken m {P'} {Q'} {E'} t p q e = record {
    at = λ w h. weaker (m w) (t.at w (p w.files h));
  }
    where
      weaker : (o : Result A × World) → Ensures Q' E' o → Ensures Q E o
      weaker (done a, w) h = q a w.files h
      weaker (fails x, w) h = e w.files h

module _ {A B : Type 0} {P : Files → Type 0} {Q : A → Files → Type 0} {R : B → Files → Type 0}
    {E : Files → Type 0} where
  pub Triple-bind :
      (m : M A) (next : A → M B)
      → Triple P m Q E
      → ((a : A) → Triple (Q a) (next a) R E)
      → Triple P (m >>= next) R E
  Triple-bind m next t u = record { at = λ w h. continued (m w) (t.at w h) }
    where
      continued : (o : Result A × World) → Ensures Q E o → Ensures R E (continue o next)
      continued (done a, w) h = (u a).at w h
      continued (fails e, w) h = h

module _ {A : Type 0} {P : Files → Type 0} {Q : A → Files → Type 0} {E : Files → Type 0} where
  pub Triple-first : (m : M A) {D : Files → Type 0} → Triple P m Q (λ f. E f × D f) → Triple P m Q E
  Triple-first m t = Triple-weaken m t (λ f h. h) (λ a f h. h) (λ f h. h.0)

  -- A fact that does not depend on the files goes in front of the run.
  pub Triple-fact : (m : M A) (F : Type 0) → (F → Triple P m Q E) → Triple (λ f. P f × F) m Q E
  Triple-fact m F t = record { at = λ w h. (t h.1).at w h.0 }

  pub Triple-finally :
      (m : M A) (last : M (Unit {0})) {Q' : A → Files → Type 0} {E' : Files → Type 0}
      → Triple P m Q' E'
      → ((a : A) → Triple (Q' a) last (λ u. Q a) (Q a))
      → Triple E' last (λ u. E) E
      → Triple P (finally m last) Q E
  Triple-finally m last {Q'} {E'} t q e = record { at = λ w h. closed (m w) (t.at w h) }
    where
      after :
          (R : Files → Type 0) (o : Result (Unit {0}) × World) → Ensures (λ u. R) R o → R o.1.files
      after R (done a, w) h = h
      after R (fails x, w) h = h

      closed : (o : Result A × World) → Ensures Q' E' o → Ensures Q E (ended o last)
      closed (done a, w) h = after (Q a) (last w) ((q a).at w h)
      closed (fails x, w) h = after E (last w) (e.at w h)

  pub Triple-attempt :
      (m : M A) (F : Files → Type 0)
      → Triple P m Q E
      → Triple P (attempt m) (λ r f. elim r [ done a ↦ Q a f | fails e ↦ E f ]) F
  Triple-attempt m F t = record { at = λ w h. known (m w) (t.at w h) }
    where
      known :
          (o : Result A × World)
          → Ensures Q E o
          → Ensures (λ r f. elim r [ done a ↦ Q a f | fails e ↦ E f ]) F (reified o)
      known (done a, w) h = h
      known (fails e, w) h = h

module _ {A : Type 0} {P P' : Files → Type 0} {Q Q' : A → Files → Type 0}
    {E E' : Files → Type 0} where
  pub Triple-and :
      (m : M A)
      → Triple P m Q E
      → Triple P' m Q' E'
      → Triple (λ f. P f × P' f) m (λ a f. Q a f × Q' a f) (λ f. E f × E' f)
  Triple-and m t u = record { at = λ w h. both (m w) (t.at w h.0) (u.at w h.1) }
    where
      both :
          (o : Result A × World)
          → Ensures Q E o
          → Ensures Q' E' o
          → Ensures (λ a f. Q a f × Q' a f) (λ f. E f × E' f) o
      both (done a, w) h k = (h, k)
      both (fails e, w) h k = (h, k)

module _ {A : Type 0} (g : Files → Result A) (P : Files → Type 0) where
  -- what a call that only looks at the files answers
  abbrev pub Looked : Result A → Files → Type 0
  Looked r f = P f × ((r ≡ fails io) ⊎ (r ≡ g f))

  looked :
      (fs : List (Option ℕ)) (w : World)
      → P w.files
      → Ensures Looked P (reified (serve (λ w. (g w.files, w.files)) (λ n w. w.files) fs w))
  unfolding serve
  looked [] w h = (h, inr refl)
  looked (none ∷ fs) w h = (h, inr refl)
  looked (some n ∷ fs) w h = (h, inl refl)

  pub Triple-look : Triple P (attempt (call (λ w. (g w.files, w.files)) (λ n w. w.files))) Looked P
  unfolding call
  Triple-look = record { at = λ w h. looked w.faults w h }
