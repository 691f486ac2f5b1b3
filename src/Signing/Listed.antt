-- ===== src/Signing/Listed.antt =====
-- registry-server/signing.go: what a list of checksums of a version is, apart from the code that makes it.
use mathlib.Core.List.{Perm}
use terraform_registry.Base.{
  ◌≡◌, ◌≢◌, refl, sym, subst, arith, Bool, true, false, Bool-cases, inl, inr, Option, none, some,
  List, [], ◌∷◌, ◌++◌, append_assoc, lt,
}
use terraform_registry.Text.{Bytes, codes, compare_text}
use terraform_registry.Protocol.Reader.{PlatformMeta, get_provider_platforms}
use terraform_registry.Disk.{Files}
use terraform_registry.Signing.{
  ChecksumEntry, has_less_name, checksum_lines, entries_of_version, version_prefix, reader, present,
}

-- The entries of the platforms whose artifact is there, in the order of the platforms.
pub data Published (exists : Bytes → Bool) (prefix : Bytes)
    : List PlatformMeta → List ChecksumEntry → Type 0 where
  nothing : Published exists prefix [] []
  taken :
      (p : PlatformMeta) (ps : List PlatformMeta) (es : List ChecksumEntry)
      → exists (prefix ++ p.filename) ≡ true
      → Published exists prefix ps es
      → Published exists prefix
          (p ∷ ps)
          (record { filename = p.filename; checksum = p.shasum } ∷ es)
  left_out :
      (p : PlatformMeta) (ps : List PlatformMeta) (es : List ChecksumEntry)
      → exists (prefix ++ p.filename) ≡ false
      → Published exists prefix ps es
      → Published exists prefix (p ∷ ps) es

-- A text of a line for each entry: the checksum, two spaces, the name and the end of the line.
pub data IsSums : List ChecksumEntry → Bytes → Type 0 where
  no_line : IsSums [] []
  line :
      (e : ChecksumEntry) (es : List ChecksumEntry) (rest : Bytes)
      → IsSums es rest
      → IsSums (e ∷ es) (e.checksum ++ codes "  " ++ e.filename ++ (b'\n' ∷ rest))

-- No entry has a name that comes before the name in front of it.
abbrev pub IsByName : List ChecksumEntry → Type 0
IsByName [] = Unit
IsByName (x ∷ []) = Unit
IsByName (x ∷ y ∷ es) = (compare_text y.filename x.filename ≢ lt) × IsByName (y ∷ es)

-- No element is less than the one in front of it, as `sort.SliceIsSorted` tests.
abbrev pub InOrder : (ChecksumEntry → ChecksumEntry → Bool) → List ChecksumEntry → Type 0
InOrder less [] = Unit
InOrder less (x ∷ []) = Unit
InOrder less (x ∷ y ∷ es) = (less y x ≡ false) × InOrder less (y ∷ es)

-- What `sort.Slice` does with the order of the names: it leaves the same entries, in order.
abbrev pub Sorts :
    ((ChecksumEntry → ChecksumEntry → Bool) → List ChecksumEntry → List ChecksumEntry) → Type 0
Sorts sort_slice =
    (es : List ChecksumEntry)
    → Perm (sort_slice has_less_name es) es × InOrder has_less_name (sort_slice has_less_name es)

pub InOrder-IsByName : (es : List ChecksumEntry) → InOrder has_less_name es → IsByName es
unfolding has_less_name
InOrder-IsByName [] h = tt
InOrder-IsByName (x ∷ []) h = tt
InOrder-IsByName (x ∷ y ∷ es) (h, k) = (λ e. ground (arith, h, e), InOrder-IsByName (y ∷ es) k)

pub checksum_lines-IsSums : (es : List ChecksumEntry) → IsSums es (checksum_lines es)
unfolding checksum_lines
checksum_lines-IsSums [] = no_line
checksum_lines-IsSums (e ∷ es) =
    subst (IsSums (e ∷ es))
      (sym (append_assoc (e.checksum ++ codes "  " ++ e.filename) (b'\n' ∷ []) (checksum_lines es)))
      (line e es (checksum_lines es) (checksum_lines-IsSums es))

present-Published :
    (exists : Bytes → Bool) (prefix : Bytes) (ps : List PlatformMeta)
    → Published exists prefix ps (present exists prefix ps)
unfolding present
present-Published exists prefix [] = nothing
present-Published exists prefix (p ∷ ps) = elim (Bool-cases (exists (prefix ++ p.filename))) [
  | inl e ↦ rw (e, present) (taken p ps _ e (present-Published exists prefix ps))
  | inr e ↦ rw (e, present) (left_out p ps _ e (present-Published exists prefix ps))
]

module _ (link_escapes : Bytes → Bool) (suffix : Bytes → Files → Bytes)
    (decode : Bytes → Option PlatformMeta)
    (sort_slice : (ChecksumEntry → ChecksumEntry → Bool) → List ChecksumEntry → List ChecksumEntry)
    (signer : Option (Bytes → Option Bytes)) (namespace name version : Bytes) where
  -- What the files had: the platforms that were read, and those whose artifact was there.
  abbrev pub PublishedIn : Files → List ChecksumEntry → Type 0
  PublishedIn f es =
      (ps : List PlatformMeta) × (get_provider_platforms
          (reader link_escapes suffix decode sort_slice signer f) namespace name version
        ≡ some ps)
      × Published (reader link_escapes suffix decode sort_slice signer f).exists
          (version_prefix namespace name version) ps es

  pub entries-PublishedIn :
      (f : Files) (es : List ChecksumEntry)
      → entries_of_version link_escapes suffix decode sort_slice signer namespace name version f
        ≡ some es
      → PublishedIn f es
  unfolding entries_of_version
  entries-PublishedIn f es h =
      go
        (get_provider_platforms (reader link_escapes suffix decode sort_slice signer f) namespace
          name version)
        refl h
    where
      go :
          (o : Option (List PlatformMeta))
          → get_provider_platforms
              (reader link_escapes suffix decode sort_slice signer f)
              namespace
              name
              version
            ≡ o
          → elim o [
            | none ↦ none
            | some platforms ↦ some (
                present
                  (reader link_escapes suffix decode sort_slice signer f).exists
                  (version_prefix namespace name version)
                  platforms)
          ]
            ≡ some es
          → PublishedIn f es
      go none e k = absurd (ground (arith, k))
      go (some ps) e k =
          (ps, e, subst (Published _ _ ps) (ground (arith, k)) (present-Published _ _ ps))
