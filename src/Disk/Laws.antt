-- ===== src/Disk/Laws.antt =====
-- What the changes of the files do to a lookup.
use terraform_registry.Base.{
  ℕ, zero, suc, ◌<◌, Bool-cases, Option-cases, Option, none, some, ◌≡◌, ◌≢◌, inl, inr, refl, ap,
  arith, List, [], ◌∷◌, ◌++◌, if◌then◌else◌, length, All, All-map, take,
}
use terraform_registry.Text.{Bytes, codes, text_eq}
use terraform_registry.Text.Laws.{text_eq_iff, differs}
use terraform_registry.Paths.{dot}
use terraform_registry.Disk.{
  Node, file, directory, Files, lookup, insert, erase, node_at, cut_base, parents, extend,
  make_dirs,
}

pub lookup-insert :
    (p q : Bytes) (n : Node) (fs : Files)
    → lookup q (insert p n fs) ≡ (if text_eq p q then some n else lookup q fs)
unfolding lookup insert
lookup-insert p q n [] = refl
lookup-insert p q n ((k, m) ∷ fs) =
    ground (arith, text_eq_iff k p, text_eq_iff p q, text_eq_iff k q, lookup-insert p q n fs)

pub lookup-erase :
    (p q : Bytes) (fs : Files) → lookup q (erase p fs) ≡ (if text_eq p q then none else lookup q fs)
unfolding lookup erase
lookup-erase p q [] = ground arith
lookup-erase p q ((k, m) ∷ fs) =
    ground (arith, text_eq_iff k p, text_eq_iff p q, text_eq_iff k q, lookup-erase p q fs)

pub lookup-insert_ne :
    (p q : Bytes) (n : Node) (fs : Files) → p ≢ q → lookup q (insert p n fs) ≡ lookup q fs
lookup-insert_ne p q n fs h = ground (arith, lookup-insert p q n fs, differs p q h)

pub lookup-insert_self : (p : Bytes) (n : Node) (fs : Files) → lookup p (insert p n fs) ≡ some n
lookup-insert_self p n fs = ground (arith, lookup-insert p p n fs, text_eq_iff p p)

pub lookup-erase_ne : (p q : Bytes) (fs : Files) → p ≢ q → lookup q (erase p fs) ≡ lookup q fs
lookup-erase_ne p q fs h = ground (arith, lookup-erase p q fs, differs p q h)

pub lookup-erase_self : (p : Bytes) (fs : Files) → lookup p (erase p fs) ≡ none
lookup-erase_self p fs = ground (arith, lookup-erase p p fs, text_eq_iff p p)

-- the bytes of a file
abbrev pub content_of : Option Node → Option Bytes
content_of none = none
content_of (some directory) = none
content_of (some (file b t)) = some b

abbrev pub content : Bytes → Files → Option Bytes
content q fs = content_of (lookup q fs)

pub cut_base-append : (p : Bytes) → (cut_base p).0 ++ (cut_base p).1 ≡ p
unfolding cut_base
cut_base-append [] = refl
cut_base-append (c ∷ s) = ground (arith, cut_base-append s)

-- New directories change no lookup but of those that are made.
pub lookup-make_dirs :
    (q : Bytes) (ds : List Bytes) (fs : Files)
    → All (λ d. d ≢ q) ds
    → lookup q (make_dirs ds fs).1 ≡ lookup q fs
unfolding make_dirs
lookup-make_dirs q [] fs h = refl
lookup-make_dirs q (d ∷ ds) fs (h, k) = ground (
  arith,
  lookup-make_dirs q ds fs k,
  lookup-make_dirs q ds (insert d directory fs) k,
  lookup-insert_ne d q directory fs h,
)

node_at-none : (d : Bytes) (fs : Files) → node_at d fs ≡ none → lookup d fs ≡ none
unfolding node_at
node_at-none d fs h = ground arith

pub node_at-other : (p : Bytes) (fs : Files) → p ≢ dot → node_at p fs ≡ lookup p fs
unfolding node_at
node_at-other p fs h = ground (arith, differs p dot h)

pub content-make_dirs :
    (q : Bytes) (ds : List Bytes) (fs : Files) → content q (make_dirs ds fs).1 ≡ content q fs
unfolding make_dirs
content-make_dirs q [] fs = refl
content-make_dirs q (d ∷ ds) fs = elim (Option-cases (node_at d fs)) [
  | inl e ↦ ground (
    arith,
    content-make_dirs q ds (insert d directory fs),
    lookup-insert d q directory fs,
    text_eq_iff d q,
    node_at-none d fs e,
  )
  | inr (n, e) ↦ ground (arith, content-make_dirs q ds fs)
]

extend-length :
    (c n : ℕ) (ds : List Bytes)
    → All (λ d. length d < n) ds
    → All (λ d. length d < suc n) (extend c ds)
unfolding extend
extend-length c n [] h = tt
extend-length c n (d ∷ ds) (h, k) = (omega arith, extend-length c n ds k)

-- A directory above a path is shorter than the path.
pub parents-length : (p : Bytes) → All (λ d. length d < length p) (parents p)
unfolding parents
parents-length [] = tt
parents-length (c ∷ s) = elim (Bool-cases (text_eq (c ∷ []) (codes "/"))) [
  | inl e ↦ rw (e, parents) (omega arith, extend-length c (length s) (parents s) (parents-length s))
  | inr e ↦ rw (e, parents) (extend-length c (length s) (parents s) (parents-length s))
]

pub parents-ne : (p : Bytes) → All (λ d. d ≢ p) (parents p)
parents-ne p =
    All-map _ _ (parents p) (λ d h. λ e. omega (arith, h, ap length e)) (parents-length p)

pub All-take {κ} : (P : Bytes → Type κ) (n : ℕ) (ds : List Bytes) → All P ds → All P (take n ds)
All-take P zero ds h = tt
All-take P (suc n) [] h = tt
All-take P (suc n) (d ∷ ds) (h, k) = (h, All-take P n ds k)
