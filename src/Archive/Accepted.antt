-- ===== src/Archive/Accepted.antt =====
-- What an accepted provider archive is.
use terraform_registry.Base.Int.{ℤ, pos, negsuc}
use terraform_registry.Base.{
  ℕ, ◌+◌, ◌-◌, ◌^◌, ◌≤◌, ◌<◌, Bool, true, false, Bool-cases, Option-cases, not, ◌&&◌, ◌||◌, Option,
  none, some, ◌≡◌, ◌⊎◌, inl, inr, refl, sym, ap, ◌∙◌, subst, arith, List, [], ◌∷◌, ◌++◌,
  if◌then◌else◌, ltb, ltb-false, All, any, ==_iff,
}
use terraform_registry.Text.{Bytes, codes, text_eq, has_prefix, split}
use terraform_registry.Text.Laws.{text_eq_iff}
use terraform_registry.Paths.{dot, path_base, path_clean, is_skipped}
use terraform_registry.Paths.Inside.{StaysInside, path_clean-StaysInside}
use terraform_registry.Archive.Names.{
  archive_path_safe, max_expanded, expanded_archive_limit, provider_binary_name_matches,
}
use terraform_registry.Archive.Provider.{
  ZipEntry, ArchiveError, Progress, Outcome, accepted, rejected, remaining, read_entry, check_entry,
  check_entries, validate_provider_archive,
}

dot-StaysInside : StaysInside 0 (split b'/' dot)
unfolding split is_skipped text_eq
dot-StaysInside = tt

dot_slash-StaysInside : StaysInside 0 (split b'/' (codes "./"))
unfolding split is_skipped text_eq
dot_slash-StaysInside = tt

-- A name that `archivePathSafe` accepts is not rooted, and no prefix of it leads above the place
-- where the archive is unpacked.
pub archive_path_safe-StaysInside :
    (name : Bytes)
    → archive_path_safe name ≡ true
    → (has_prefix name (codes "/") ≡ false) × StaysInside 0 (split b'/' name)
unfolding archive_path_safe
archive_path_safe-StaysInside name h =
    let not_rooted : has_prefix name (codes "/") ≡ false = ground arith in
    (
      not_rooted,
      elim (Bool-cases (text_eq (path_clean name) dot)) [
        | inl e ↦ elim (Bool-cases (text_eq name dot)) [
          | inl f ↦
              subst (λ s. StaysInside 0 (split b'/' s)) (sym ((text_eq_iff name dot).0 f))
                dot-StaysInside
          | inr f ↦
              let g : text_eq name (codes "./") ≡ true = ground arith in
              subst (λ s. StaysInside 0 (split b'/' s)) (sym ((text_eq_iff name (codes "./")).0 g))
                dot_slash-StaysInside
        ]
        | inr e ↦ path_clean-StaysInside name not_rooted (ground arith) (ground arith)
      ],
    )

-- The limit is at most 20 GiB.
pub expanded_archive_limit_bound : (upload : ℤ) → expanded_archive_limit upload ≤ max_expanded
unfolding expanded_archive_limit
expanded_archive_limit_bound (negsuc n) = omega arith
expanded_archive_limit_bound (pos n) = ground arith

-- an entry of an accepted ZIP
pub record IsPlainEntry (e : ZipEntry) : Type 0 where
  pub safe : archive_path_safe e.name ≡ true
  pub no_link : e.is_symlink ≡ false
  pub kind : (e.is_regular || e.is_dir) ≡ true
  pub whole : (e.is_dir ≡ true) ⊎ (e.copied ≡ some e.size)

-- the sizes of the files
abbrev pub total_size : List ZipEntry → ℕ
total_size [] = 0
total_size (e ∷ es) = (if e.is_dir then 0 else e.size) + total_size es

abbrev pub is_binary : Bytes → ZipEntry → Bool
is_binary prefix e = not e.is_dir && provider_binary_name_matches (path_base e.name) prefix

read_entry-whole : (e : ZipEntry) → read_entry e ≡ none → e.copied ≡ some e.size
unfolding read_entry
read_entry-whole e h = elim (Option-cases e.copied) [
  | inl f ↦ absurd (ground arith)
  | inr (n, f) ↦ ground (arith, ==_iff n e.size)
]

-- With no more expanded than the limit the difference is not negative, and does not wrap.
remaining_exact :
    (limit expanded : ℕ)
    → expanded ≤ limit
    → limit < 2 ^ 63
    → remaining limit expanded ≡ limit - expanded
remaining_exact limit expanded h k = omega arith

-- One accepted entry: what it is, and what it adds.
record Step (prefix : Bytes) (limit : ℕ) (p : Progress) (e : ZipEntry) (p' : Progress)
    : Type 0 where
  plain : IsPlainEntry e
  adds : p'.expanded ≡ p.expanded + (if e.is_dir then 0 else e.size)
  bounded : p'.expanded ≤ limit
  finds : p'.found ≡ (is_binary prefix e || p.found)

check_entry-Step :
    (prefix : Bytes) (limit : ℕ) (p : Progress) (e : ZipEntry) (p' : Progress)
    → p.expanded ≤ limit
    → limit < 2 ^ 63
    → check_entry prefix limit p e ≡ accepted p'
    → Step prefix limit p e p'
unfolding check_entry
check_entry-Step prefix limit p e p' b s h = elim (Bool-cases (archive_path_safe e.name)) [
  | inr c ↦ absurd (ground arith)
  | inl c ↦ elim (Bool-cases (e.is_symlink || not e.is_regular && not e.is_dir)) [
    | inl d ↦ absurd (ground arith)
    | inr d ↦ elim (Bool-cases e.is_dir) [
      | inl f ↦ record {
        plain = record { safe = c; no_link = ground arith; kind = ground arith; whole = inl f };
        adds = ground arith;
        bounded = ground arith;
        finds = ground arith;
      }
      | inr f ↦ elim (Bool-cases (ltb (remaining limit p.expanded) e.size)) [
        | inl g ↦ absurd (ground arith)
        | inr g ↦ elim (Option-cases (read_entry e)) [
          | inr (x, r) ↦ absurd (ground arith)
          | inl r ↦
              let fits : e.size ≤ limit - p.expanded =
                subst (λ n. e.size ≤ n) (remaining_exact limit p.expanded b s) (ltb-false _ _ g) in
              record {
                plain = record {
                  safe = c;
                  no_link = ground arith;
                  kind = ground arith;
                  whole = inr (read_entry-whole e r);
                };
                adds = ground arith;
                bounded = ground arith;
                finds = ground arith;
              }
        ]
      ]
    ]
  ]
]

or_swap : (a b c : Bool) → (a || (b || c)) ≡ ((b || a) || c)
or_swap a b c = ground arith

or_false : (a : Bool) → a ≡ (a || false)
or_false a = ground arith

Outcome-cases :
    (o : Outcome) → ((x : ArchiveError) × (o ≡ rejected x)) ⊎ ((p : Progress) × (o ≡ accepted p))
Outcome-cases (rejected x) = inl (x, refl)
Outcome-cases (accepted p) = inr (p, refl)

record Run (prefix : Bytes) (limit : ℕ) (p : Progress) (es : List ZipEntry) (p' : Progress)
    : Type 0 where
  plain : All IsPlainEntry es
  adds : p'.expanded ≡ p.expanded + total_size es
  bounded : p'.expanded ≤ limit
  finds : p'.found ≡ (any (is_binary prefix) es || p.found)

check_entries-Run :
    (prefix : Bytes) (limit : ℕ) (p : Progress) (es : List ZipEntry) (p' : Progress)
    → p.expanded ≤ limit
    → limit < 2 ^ 63
    → check_entries prefix limit p es ≡ accepted p'
    → Run prefix limit p es p'
unfolding check_entries
check_entries-Run prefix limit p [] p' b s h = record {
  plain = tt;
  adds = ground arith;
  bounded = ground arith;
  finds = ground arith;
}
check_entries-Run prefix limit p (e ∷ es) p' b s h =
    elim (Outcome-cases (check_entry prefix limit p e)) [
      | inl (x, f) ↦ absurd (ground arith)
      | inr (q, f) ↦
          let one = check_entry-Step prefix limit p e q b s f in
          let rest =
            check_entries-Run prefix limit q es p' one.bounded s (rw (f, check_entries) at h) in
          record {
            plain = (one.plain, rest.plain);
            adds = omega (arith, one.adds, rest.adds);
            bounded = rest.bounded;
            finds =
                rest.finds
                ∙ ap (λ b. any (is_binary prefix) es || b) one.finds
                ∙ or_swap (any (is_binary prefix) es) (is_binary prefix e) p.found;
          }
    ]

-- What `validateProviderArchive` has established of an accepted archive.
pub record IsProviderArchive (entries : List ZipEntry) (prefix : Bytes) (limit : ℕ) : Type 0 where
  pub plain : All IsPlainEntry entries
  pub bounded : total_size entries ≤ limit
  pub binary : any (is_binary prefix) entries ≡ true

-- An accepted provider archive is a ZIP whose entries are regular files and directories with safe
-- names, whose files have the sizes that they declare, whose total size is within the limit for the
-- upload (at most 20 GiB), and which holds a binary of the provider.
pub validate_provider_archive_sound :
    (zip : Option (List ZipEntry)) (name : Bytes) (upload : ℤ)
    → validate_provider_archive zip name upload ≡ none
    → (entries : List ZipEntry) × (zip ≡ some entries)
      × IsProviderArchive entries
          (codes "terraform-provider-" ++ name)
          (expanded_archive_limit upload)
unfolding validate_provider_archive
validate_provider_archive_sound none name upload h = absurd (ground arith)
validate_provider_archive_sound (some entries) name upload h =
    let prefix = codes "terraform-provider-" ++ name in
    let limit = expanded_archive_limit upload in
    let start : Progress = record { expanded = 0; found = false } in
    let small : limit < 2 ^ 63 = omega (arith, expanded_archive_limit_bound upload) in
    elim (Outcome-cases (check_entries prefix limit start entries)) [
      | inl (x, f) ↦ absurd (ground arith)
      | inr (p, f) ↦
          let run = check_entries-Run prefix limit start entries p (omega arith) small f in
          (
            entries,
            refl,
            record {
              plain = run.plain;
              bounded = omega (arith, run.adds, run.bounded);
              binary = or_false (any (is_binary prefix) entries) ∙ sym run.finds ∙ ground arith;
            },
          )
    ]
