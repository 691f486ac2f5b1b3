-- ===== src/Signing/Tests.antt =====
-- The checksums of a provider version over a few files.
use mathlib.Core.List.{Perm}
use mathlib.Core.List.Perm
use terraform_registry.Text.Compare.{text-IsWeakOrder}
use terraform_registry.Base.{
  ◌≡◌, refl, ap, arith, Bool, true, false, Bool-cases, inl, inr, if◌then◌else◌, Option, some, List,
  [], ◌∷◌, length,
}
use terraform_registry.Text.{Bytes, codes, text_eq}
use terraform_registry.Protocol.Reader.{PlatformMeta}
use terraform_registry.Disk.{file, directory, World}
use terraform_registry.Disk.Triples.{Ensures}
use terraform_registry.Storage.Resolve.{resolve}
use terraform_registry.Storage.DiskTests.{confined, suffix}
use terraform_registry.Storage.Written.{beside-length}
use terraform_registry.Signing.{
  ChecksumEntry, has_less_name, checksums_key, signature_key, entries_of_version,
  rebuild_provider_checksums,
}
use terraform_registry.Signing.Listed.{InOrder, Sorts, PublishedIn}
use terraform_registry.Signing.Signed.{Any, Signed, rebuild_provider_checksums_signs}

abbrev sums : Bytes
sums = codes "providers/n/p/1.0.0/terraform-provider-p_1.0.0_SHA256SUMS"

abbrev signature : Bytes
signature = codes "providers/n/p/1.0.0/terraform-provider-p_1.0.0_SHA256SUMS.sig"

abbrev decode : Bytes → Option PlatformMeta
decode text =
    some (record { os = codes "linux"; arch = codes "arm"; filename = text; shasum = codes "0a" })

abbrev put_in :
    (ChecksumEntry → ChecksumEntry → Bool) → ChecksumEntry → List ChecksumEntry → List ChecksumEntry
put_in less x [] = x ∷ []
put_in less x (y ∷ ys) = let rest = put_in less x ys in if less y x then y ∷ rest else x ∷ y ∷ ys

-- an insertion sort
abbrev sorted : (ChecksumEntry → ChecksumEntry → Bool) → List ChecksumEntry → List ChecksumEntry
sorted less [] = []
sorted less (x ∷ es) = put_in less x (sorted less es)

put_in-perm :
    (less : ChecksumEntry → ChecksumEntry → Bool) (x : ChecksumEntry) (es : List ChecksumEntry)
    → Perm (put_in less x es) (x ∷ es)
put_in-perm less x [] = Perm.refl (x ∷ [])
put_in-perm less x (y ∷ ys) = elim (Bool-cases (less y x)) [
  | inl e ↦ rw (e) (Perm.trans (Perm.cons y (put_in-perm less x ys)) (Perm.swap x y ys))
  | inr e ↦ rw (e) (Perm.refl (x ∷ y ∷ ys))
]

sorted-perm :
    (less : ChecksumEntry → ChecksumEntry → Bool) (es : List ChecksumEntry)
    → Perm (sorted less es) es
sorted-perm less [] = Perm.refl []
sorted-perm less (x ∷ es) =
    Perm.trans (put_in-perm less x (sorted less es)) (Perm.cons x (sorted-perm less es))

less_asym : (x y : ChecksumEntry) → has_less_name y x ≡ true → has_less_name x y ≡ false
unfolding has_less_name
less_asym x y h = ground (arith, h, text-IsWeakOrder.flips y.filename x.filename)

put_in-InOrder :
    (x : ChecksumEntry) (es : List ChecksumEntry)
    → InOrder has_less_name es
    → InOrder has_less_name (put_in has_less_name x es)
put_in-InOrder x [] h = tt
put_in-InOrder x (y ∷ []) h = elim (Bool-cases (has_less_name y x)) [
  | inl e ↦ rw (e) (less_asym x y e, tt)
  | inr e ↦ rw (e) (e, tt)
]
put_in-InOrder x (y ∷ z ∷ es) (h, k) = elim (Bool-cases (has_less_name y x)) [
  | inl e ↦
      let rest = put_in-InOrder x (z ∷ es) k in
      elim (Bool-cases (has_less_name z x)) [
        | inl f ↦ rw (e, f) (h, rw f at rest)
        | inr f ↦ rw (e, f) (less_asym x y e, (f, k))
      ]
  | inr e ↦ rw (e) (e, (h, k))
]

sorted-InOrder : (es : List ChecksumEntry) → InOrder has_less_name (sorted has_less_name es)
sorted-InOrder [] = tt
sorted-InOrder (x ∷ es) = put_in-InOrder x (sorted has_less_name es) (sorted-InOrder es)

sorted-Sorts : Sorts sorted
sorted-Sorts es = (sorted-perm has_less_name es, sorted-InOrder es)

abbrev key_of_registry : Option (Bytes → Option Bytes)
key_of_registry = some (λ b. some (1 ∷ b))

abbrev world : World
world = record {
  files =
      (codes "providers", directory)
      ∷ (codes "providers/n", directory)
      ∷ (codes "providers/n/p", directory)
      ∷ (codes "providers/n/p/1.0.0", directory)
      ∷ (codes "providers/n/p/1.0.0/a.zip", file (7 ∷ []) 0)
      ∷ (codes "providers/n/p/1.0.0/linux_arm.json", file (codes "a.zip") 0)
      ∷ [];
  now = 5;
  faults = [];
}

sums_path : resolve confined (checksums_key (codes "n") (codes "p") (codes "1.0.0")) ≡ some sums
unfolding resolve terraform_registry.Text.join text_eq terraform_registry.Text.has_prefix
    terraform_registry.Text.contains terraform_registry.Protocol.Providers.provider_checksums_names
    terraform_registry.Paths.path_clean terraform_registry.Paths.clean_segments
    terraform_registry.Text.split
sums_path = refl

signature_path :
    resolve confined (signature_key (codes "n") (codes "p") (codes "1.0.0")) ≡ some signature
unfolding resolve terraform_registry.Text.join text_eq terraform_registry.Text.has_prefix
    terraform_registry.Text.contains terraform_registry.Protocol.Providers.provider_checksums_names
    terraform_registry.Paths.path_clean terraform_registry.Paths.clean_segments
    terraform_registry.Text.split
signature_path = refl

one_entry :
    entries_of_version confined suffix decode sorted key_of_registry
      (codes "n")
      (codes "p")
      (codes "1.0.0")
      world.files
    ≡ some (record { filename = codes "a.zip"; checksum = codes "0a" } ∷ [])
unfolding entries_of_version terraform_registry.Protocol.Reader.get_provider_platforms
    terraform_registry.Storage.Listing.disk_reader terraform_registry.Storage.Listing.list_files
    resolve terraform_registry.Text.join text_eq terraform_registry.Text.has_prefix
    terraform_registry.Text.contains terraform_registry.Paths.path_clean
    terraform_registry.Paths.clean_segments terraform_registry.Text.split
    terraform_registry.Signing.present terraform_registry.Protocol.Reader.collect
    terraform_registry.Storage.Listing.walk_files terraform_registry.Storage.Listing.sort_paths
    terraform_registry.Storage.Listing.insert_sorted terraform_registry.Disk.lookup
    terraform_registry.Disk.node_at terraform_registry.Paths.is_skipped terraform_registry.Paths.pop
    terraform_registry.Storage.Listing.below terraform_registry.Storage.Listing.exists
    terraform_registry.Storage.Listing.is_before terraform_registry.Storage.Listing.walk_key
    terraform_registry.Text.compare_list terraform_registry.Text.compare_text
    terraform_registry.Text.cut_prefix terraform_registry.Text.has_suffix
one_entry = refl

rebuild_provider_checksums_signs_example :
    Ensures
      (λ u f.
        (es : List ChecksumEntry) × PublishedIn confined suffix decode sorted key_of_registry
          (codes "n")
          (codes "p")
          (codes "1.0.0")
          world.files
          es
        × Signed sorted key_of_registry sums signature (some es) f)
      Any
      (rebuild_provider_checksums confined suffix decode sorted key_of_registry
        (codes "n")
        (codes "p")
        (codes "1.0.0")
        world)
rebuild_provider_checksums_signs_example =
    rebuild_provider_checksums_signs confined suffix decode sorted key_of_registry (codes "n")
      (codes "p") (codes "1.0.0") sums signature sums_path signature_path (λ e. ground (arith, e))
      (λ e. omega (arith, ap length e, beside-length (codes ".tmp-") [] signature)) sorted-Sorts
      world
