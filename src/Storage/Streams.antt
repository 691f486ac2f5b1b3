-- ===== src/Storage/Streams.antt =====
-- registry-server/storage.go: what the steps that the two streamed writes share come to.
use terraform_registry.Base.{
  ℕ, suc, zero, ◌+◌, ◌≤◌, ◌<◌, ◌≡◌, ◌≢◌, refl, sym, ap, subst, arith, Option, none, some, [], ◌∷◌,
  length, take, ltb, if◌then◌else◌,
}
use terraform_registry.Text.{Bytes}
use terraform_registry.Paths.{dot}
use terraform_registry.Disk.{
  file, Files, Error, too_large, insert, erase, on_open_file, write, rename,
}
use terraform_registry.Disk.Laws.{content}
use terraform_registry.Disk.Triples.{
  Triple, Triple-return, Triple-stop, Triple-weaken, Triple-first, Triple-bind, Triple-fact,
}
use terraform_registry.Storage.Writes.{Stream, copy_limited, fail_with, receive, publish}
use terraform_registry.Storage.Steps.{on_open_file-Triple, write-Triple, rename-Triple}

-- The upload came to its end, and it is not too large.
abbrev pub Received : Stream → ℕ → Bytes → Type 0
Received s max bytes = (bytes ≡ s.bytes) × (s.failure ≡ none) × (length s.bytes ≤ max)

pub fail_with-fact :
    (P : Files → Type 0) (e : Option Error) → Triple P (fail_with e) (λ u f. P f × (e ≡ none)) P
unfolding fail_with
fail_with-fact P none = Triple-return tt (λ f h. (h, refl))
fail_with-fact P (some e) = Triple-stop e (λ f h. h)

take-short : (n : ℕ) (xs : Bytes) → length (take n xs) < n → take n xs ≡ xs
take-short zero xs h = ground arith
take-short (suc n) [] h = refl
take-short (suc n) (x ∷ xs) h = ap (λ ys. x ∷ ys) (take-short n xs (omega (arith, h)))

Received-fact :
    (s : Stream) (max : ℕ)
    → (if ltb (length s.bytes) (max + 1) then s.failure else none) ≡ none
    → (if ltb max (length (take (max + 1) s.bytes)) then some too_large else none) ≡ none
    → Received s max (take (max + 1) s.bytes)
Received-fact s max e h = ground (arith, take-short (max + 1) s.bytes)

module _ (tmp : Bytes) (P : Files → Type 0)
    (ins : (b : Bytes) (t : ℕ) (f : Files) → P f → P (insert tmp (file b t) f))
    (del : (f : Files) → P f → P (erase tmp f)) where
  abbrev pub Filled : Bytes → Files → Type 0
  Filled b f = P f × (content tmp f ≡ some b)

  pub flushed : (b : Bytes) → Triple (Filled b) on_open_file (λ u. Filled b) P
  flushed b = Triple-first on_open_file (on_open_file-Triple (Filled b))

  pub checked :
      (e : Option Error) (b : Bytes)
      → Triple (Filled b) (fail_with e) (λ u f. Filled b f × (e ≡ none)) P
  checked e b = Triple-first (fail_with e) (fail_with-fact (Filled b) e)

  pub copy_limited-Triple :
      (s : Stream) (limit : ℕ)
      → Triple P
          (copy_limited tmp s limit)
          (λ b f.
            (Filled b f × (b ≡ take limit s.bytes))
            × ((if ltb (length s.bytes) limit then s.failure else none) ≡ none))
          P
  unfolding copy_limited
  copy_limited-Triple s limit =
      Triple-bind (write tmp (take limit s.bytes)) _
        (write-Triple tmp P ins del (take limit s.bytes))
        λ u.
          Triple-bind (fail_with (if ltb (length s.bytes) limit then s.failure else none)) _
            (checked _ _) λ u. Triple-return (take limit s.bytes) (λ f h. ((h.0, refl), h.1))

  pub receive-Triple :
      (s : Stream) (max : ℕ) → Triple P (receive tmp s max) (λ b f. Filled b f × Received s max b) P
  unfolding receive
  receive-Triple s max = Triple-bind on_open_file _ (on_open_file-Triple P) λ u.
      Triple-bind (copy_limited tmp s (max + 1)) _ (copy_limited-Triple s (max + 1)) λ b.
        Triple-fact _ _ λ e. Triple-fact _ _ λ g.
          Triple-bind (fail_with (if ltb max (length b) then some too_large else none)) _
            (checked _ b)
            λ u. Triple-fact _ _ λ h. Triple-bind on_open_file _ (flushed b) λ u.
              Triple-return b (λ f k. (
                k,
                subst (Received s max) (sym g) (
                    Received-fact s max e (
                      subst (λ c. (if ltb max (length c) then some too_large else none) ≡ none) g
                        h)),
              ))

  module _ (p : Bytes) (R : Files → Type 0) (tmp_ne : tmp ≢ dot)
      (arrive : (b : Bytes) (t : ℕ) (f : Files) → P f → R (insert p (file b t) (erase tmp f))) where
    pub publish-Triple :
        (validate : Bytes → Option Error) (b : Bytes)
        → Triple
            (Filled b)
            (publish validate tmp p b)
            (λ u f. (R f × (content p f ≡ some b)) × (validate b ≡ none))
            P
    unfolding publish
    publish-Triple validate b = Triple-bind on_open_file _ (flushed b) λ u.
        Triple-bind (fail_with (validate b)) _ (checked (validate b) b) λ u. Triple-fact _ _ λ e.
          Triple-bind on_open_file _ (flushed b) λ u.
            Triple-weaken (rename tmp p) (rename-Triple tmp p P R tmp_ne arrive b) (λ f h. h)
              (λ a f h. (h, e)) (λ f h. h)
