-- ===== src/Archive/Modules.antt =====
-- What an accepted module archive is.
use terraform_registry.Base.Int.{ℤ, pos, negsuc, out_of_range, int_is}
use terraform_registry.Base.{
  ℕ, ◌+◌, ◌-◌, ◌≤◌, Bool, true, false, Bool-cases, Option-cases, ◌||◌, Option, none, some, ◌≡◌, ◌⊎◌,
  inl, inr, refl, ap, ◌∙◌, arith, List, [], ◌∷◌, All, any,
}
use terraform_registry.Text.{codes, has_suffix}
use terraform_registry.Paths.{path_base}
use terraform_registry.Archive.Names.{archive_path_safe, expanded_archive_limit}
use terraform_registry.Archive.Provider.{ArchiveError}
use terraform_registry.Archive.Module.{
  Typeflag, directory, regular, other, TarHeader, TarStream, TarProgress, TarOutcome, accepted,
  rejected, check_regular, check_type, check_header, check_headers, finish_module,
  validate_module_archive,
}

-- the bytes of a header's file
abbrev pub content : TarHeader → ℕ
content h = elim h.typeflag [
  | regular ↦ elim h.copied [ none ↦ 0 | some n ↦ n ]
  | directory ↦ 0
  | other ↦ 0
]

abbrev pub total_content : List TarHeader → ℕ
total_content [] = 0
total_content (h ∷ hs) = content h + total_content hs

-- a file of a Terraform configuration
abbrev pub is_config : TarHeader → Bool
is_config h = elim h.typeflag [
  | regular ↦
      has_suffix (path_base h.name) (codes ".tf")
      || has_suffix (path_base h.name) (codes ".tf.json")
  | directory ↦ false
  | other ↦ false
]

-- a header of an accepted archive
pub record IsPlainHeader (h : TarHeader) : Type 0 where
  pub safe : archive_path_safe h.name ≡ true
  pub kind : (h.typeflag ≡ directory) ⊎ (h.typeflag ≡ regular) × (int_is (content h) h.size ≡ true)

record Step (p : TarProgress) (h : TarHeader) (p' : TarProgress) : Type 0 where
  plain : IsPlainHeader h
  takes : p'.remaining + content h ≡ p.remaining
  finds : p'.found ≡ (is_config h || p.found)

out_of_range-fits :
    (n limit : ℕ) (z : ℤ) → int_is n z ≡ true → out_of_range z limit ≡ false → n ≤ limit
out_of_range-fits n limit (pos m) h k = ground arith
out_of_range-fits n limit (negsuc m) h k = absurd (ground arith)

check_regular-Step :
    (p : TarProgress) (h : TarHeader) (p' : TarProgress)
    → archive_path_safe h.name ≡ true
    → h.typeflag ≡ regular
    → check_regular p h ≡ accepted p'
    → Step p h p'
unfolding check_regular
check_regular-Step p h p' s t e = elim (Bool-cases (out_of_range h.size p.remaining)) [
  | inl f ↦ absurd (ground arith)
  | inr f ↦ elim (Option-cases h.copied) [
    | inl g ↦ absurd (ground arith)
    | inr (n, g) ↦ elim (Bool-cases (int_is n h.size)) [
      | inr k ↦ absurd (ground arith)
      | inl k ↦
          let fits = out_of_range-fits n p.remaining h.size k f in
          let is_content : content h ≡ n = rw (t, g) refl in
          let left : p'.remaining ≡ p.remaining - n = ground arith in
          record {
            plain = record { safe = s; kind = inr (t, rw is_content k) };
            takes = omega (arith, fits, is_content, left);
            finds = ground arith;
          }
    ]
  ]
]

check_header-Step :
    (p : TarProgress) (h : TarHeader) (p' : TarProgress)
    → check_header p h ≡ accepted p'
    → Step p h p'
unfolding check_header check_type
check_header-Step p h p' e = elim (Bool-cases (archive_path_safe h.name)) [
  | inr f ↦ absurd (ground arith)
  | inl f ↦ by_type h.typeflag refl f
]
  where
    by_type : (t : Typeflag) → h.typeflag ≡ t → archive_path_safe h.name ≡ true → Step p h p'
    by_type other g f = absurd (ground arith)
    by_type regular g f = check_regular-Step p h p' f g (ground arith)
    by_type directory g f = record {
      plain = record { safe = f; kind = inl g };
      takes = ground arith;
      finds = ground arith;
    }

TarOutcome-cases :
    (o : TarOutcome)
    → ((x : ArchiveError) × (o ≡ rejected x)) ⊎ ((p : TarProgress) × (o ≡ accepted p))
TarOutcome-cases (rejected x) = inl (x, refl)
TarOutcome-cases (accepted p) = inr (p, refl)

record Run (p : TarProgress) (hs : List TarHeader) (p' : TarProgress) : Type 0 where
  plain : All IsPlainHeader hs
  takes : p'.remaining + total_content hs ≡ p.remaining
  finds : p'.found ≡ (any is_config hs || p.found)

swap : (a b c : Bool) → (a || (b || c)) ≡ ((b || a) || c)
swap a b c = ground arith

check_headers-Run :
    (p : TarProgress) (hs : List TarHeader) (p' : TarProgress)
    → check_headers p hs ≡ accepted p'
    → Run p hs p'
unfolding check_headers
check_headers-Run p [] p' e = record { plain = tt; takes = ground arith; finds = ground arith }
check_headers-Run p (h ∷ hs) p' e = elim (TarOutcome-cases (check_header p h)) [
  | inl (x, f) ↦ absurd (ground arith)
  | inr (q, f) ↦
      let one = check_header-Step p h q f in
      let rest = check_headers-Run q hs p' (rw (f, check_headers) at e) in
      record {
        plain = (one.plain, rest.plain);
        takes = omega (arith, one.takes, rest.takes);
        finds =
            rest.finds
            ∙ ap (λ b. any is_config hs || b) one.finds
            ∙ swap (any is_config hs) (is_config h) p.found;
      }
]

-- What `validateModuleArchive` has established of an accepted archive.
pub record IsModuleArchive (s : TarStream) (limit : ℕ) : Type 0 where
  pub plain : All IsPlainHeader s.headers
  pub bounded : total_content s.headers ≤ limit
  pub config : any is_config s.headers ≡ true
  pub ends : (s.fails ≡ false) × (s.trailer_reads ≡ true) × (s.closes ≡ true)

-- An accepted module archive is a compressed tar file that reads to its end without an error, whose
-- entries are regular files and directories with safe names, whose files have the sizes that they
-- declare, whose total size is within the limit for the upload, and which holds a Terraform
-- configuration file.
pub validate_module_archive_sound :
    (tar : Option TarStream) (upload : ℤ)
    → validate_module_archive tar upload ≡ none
    → (s : TarStream) × (tar ≡ some s) × IsModuleArchive s (expanded_archive_limit upload)
unfolding validate_module_archive finish_module
validate_module_archive_sound none upload h = absurd (ground arith)
validate_module_archive_sound (some s) upload h =
    let start : TarProgress = record { remaining = expanded_archive_limit upload; found = false } in
    elim (TarOutcome-cases (check_headers start s.headers)) [
      | inl (x, f) ↦ absurd (ground arith)
      | inr (p, f) ↦
          let run = check_headers-Run start s.headers p f in
          let ends : (s.fails ≡ false) × (s.trailer_reads ≡ true) × (s.closes ≡ true) =
            (ground arith, ground arith, ground arith) in
          let found : p.found ≡ true = ground arith in
          (
            s,
            refl,
            record {
              plain = run.plain;
              bounded = omega (arith, run.takes);
              config = ground (arith, run.finds);
              ends = ends;
            },
          )
    ]
