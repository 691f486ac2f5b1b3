-- ===== src/Signing/Signed.antt =====
-- registry-server/signing.go: what the rebuild of the checksums of a version leaves in the files.
use mathlib.Core.List.{Perm}
use terraform_registry.Base.{
  ◌≡◌, ◌≢◌, refl, sym, ap, ◌∙◌, subst, arith, Bool, Option, none, some, List, [], ◌∷◌, length,
}
use terraform_registry.Text.{Bytes, codes}
use terraform_registry.Protocol.Reader.{PlatformMeta}
use terraform_registry.Disk.{
  Files, io, not_exist, unavailable, Result, done, fails, World, ◌>>=◌, ◌>>◌, lookup,
}
use terraform_registry.Disk.Laws.{content}
use terraform_registry.Disk.Triples.{Ensures, Triple, Triple-bind, Triple-stop, Triple-weaken}
use terraform_registry.Storage.Resolve.{resolve}
use terraform_registry.Storage.Writes.{put, temp_path}
use terraform_registry.Storage.Written.{put_atomic, beside-length}
use terraform_registry.Signing.Listed.{
  IsSums, IsByName, Sorts, InOrder-IsByName, checksum_lines-IsSums, PublishedIn,
  entries-PublishedIn,
}
use terraform_registry.Signing.{
  ChecksumEntry, has_less_name, checksum_lines, checksums_key, signature_key, entries_of_version,
  of_files, or_stop, checksums_of, rebuild_provider_checksums,
}

abbrev pub Any : Files → Type 0
Any f = Unit {0}

-- A `Put` that goes well has stored its bytes, and keeps the bytes of another path.
put-Triple :
    (link_escapes : Bytes → Bool) (suffix : Bytes → Files → Bytes) (key p b q : Bytes)
    (c : Option Bytes)
    → resolve link_escapes key ≡ some p
    → p ≢ q
    → temp_path p ≢ q
    → Triple
        (λ f. content q f ≡ c)
        (put link_escapes suffix key b)
        (λ u f. (content q f ≡ c) × (content p f ≡ some b))
        Any
put-Triple link_escapes suffix key p b q c e g t = record {
  at = λ w h.
      stored w (put link_escapes suffix key b w) h
        (put_atomic link_escapes suffix key p b q w e g t);
}
  where
    stored :
        (w : World) (o : Result (Unit {0}) × World)
        → content q w.files ≡ c
        → Ensures
            (λ u f. (content q f ≡ content q w.files) × (content p f ≡ some b))
            (λ f. (lookup p f ≡ lookup p w.files) × (content q f ≡ content q w.files))
            o
        → Ensures (λ u f. (content q f ≡ c) × (content p f ≡ some b)) Any o
    stored w (done u, v) h (k, l) = (k ∙ h, l)
    stored w (fails x, v) h k = tt

module _ (p q : Bytes) where
  -- The files have the sums and their signature.
  abbrev pub Stored : Bytes → Bytes → Files → Type 0
  Stored sums signature f = (content p f ≡ some sums) × (content q f ≡ some signature)

module _
    (sort_slice : (ChecksumEntry → ChecksumEntry → Bool) → List ChecksumEntry → List ChecksumEntry)
    (signer : Option (Bytes → Option Bytes)) (p q : Bytes) where
  -- The files have the lines of the entries, at least one, in the order of the names, and their
  -- signature by the key.
  pub record Signed (entries : Option (List ChecksumEntry)) (f : Files) : Type 0 where
    pub sums : Bytes
    pub signature : Bytes
    pub found : List ChecksumEntry
    pub in_order : List ChecksumEntry
    pub sign : Bytes → Option Bytes
    pub has_key : signer ≡ some sign
    pub of_entries : entries ≡ some found
    pub not_empty : found ≢ []
    pub same_entries : Perm in_order found
    pub by_name : IsByName in_order
    pub lines : IsSums in_order sums
    pub of_sums : sign sums ≡ some signature
    pub stored : Stored p q sums signature f

module _ (link_escapes : Bytes → Bool) (suffix : Bytes → Files → Bytes)
    (decode : Bytes → Option PlatformMeta)
    (sort_slice : (ChecksumEntry → ChecksumEntry → Bool) → List ChecksumEntry → List ChecksumEntry)
    (signer : Option (Bytes → Option Bytes)) (namespace name version p q : Bytes)
    (at_p : resolve link_escapes (checksums_key namespace name version) ≡ some p)
    (at_q : resolve link_escapes (signature_key namespace name version) ≡ some q) (apart : q ≢ p)
    (temp_apart : temp_path q ≢ p) (sorts : Sorts sort_slice) where
  puts-Stored :
      (sums signature : Bytes)
      → Triple Any
          (put link_escapes suffix (checksums_key namespace name version) sums
            >> put link_escapes suffix (signature_key namespace name version) signature)
          (λ u. Stored p q sums signature)
          Any
  puts-Stored sums signature =
      Triple-bind {Q = λ u f. content p f ≡ some sums}
        (put link_escapes suffix (checksums_key namespace name version) sums) _
        (record {
          at = λ w h.
              (Triple-weaken _
                  (put-Triple link_escapes suffix (checksums_key namespace name version) p sums
                    (0 ∷ temp_path p) (content (0 ∷ temp_path p) w.files) at_p
                    (λ e. omega (arith, ap length e, beside-length (codes ".tmp-") [] p))
                    (λ e. omega (arith, ap length e)))
                  (λ f k. k) (λ u f k. k.1) (λ f k. k)).at
                w refl;
        })
        λ u.
          put-Triple link_escapes suffix (signature_key namespace name version) q signature p
            (some sums) at_q apart temp_apart

  module _ (before : Option (List ChecksumEntry)) where
    sign-Signed :
        (sums : Bytes) (listed : List ChecksumEntry) (sign : Bytes → Option Bytes)
        (s : Option Bytes)
        → signer ≡ some sign
        → before ≡ some listed
        → listed ≢ []
        → sums ≡ checksum_lines (sort_slice has_less_name listed)
        → sign sums ≡ s
        → Triple Any
            (or_stop io s >>= λ signature.
              put link_escapes suffix (checksums_key namespace name version) sums
              >> put link_escapes suffix (signature_key namespace name version) signature)
            (λ u. Signed sort_slice signer p q before)
            Any
    sign-Signed sums listed sign none a b n c d = Triple-stop io (λ f k. k)
    sign-Signed sums listed sign (some t) a b n c d =
        Triple-weaken _ (puts-Stored sums t) (λ f k. k)
          (λ u f k. record {
            sums = sums;
            signature = t;
            found = listed;
            in_order = sort_slice has_less_name listed;
            sign = sign;
            has_key = a;
            of_entries = b;
            not_empty = n;
            same_entries = (sorts listed).0;
            by_name = InOrder-IsByName (sort_slice has_less_name listed) (sorts listed).1;
            lines =
                subst (IsSums (sort_slice has_less_name listed)) (sym c)
                  (checksum_lines-IsSums (sort_slice has_less_name listed));
            of_sums = d;
            stored = k;
          })
          (λ f k. k)

    entries-Signed :
        (listed : List ChecksumEntry) (sign : Bytes → Option Bytes)
        → signer ≡ some sign
        → before ≡ some listed
        → Triple Any
            (checksums_of link_escapes suffix decode sort_slice signer listed >>= λ checksums.
              or_stop io (sign checksums) >>= λ signature.
              put link_escapes suffix (checksums_key namespace name version) checksums
              >> put link_escapes suffix (signature_key namespace name version) signature)
            (λ u. Signed sort_slice signer p q before)
            Any
    unfolding checksums_of
    entries-Signed [] sign a b = Triple-stop not_exist (λ f k. k)
    entries-Signed (e ∷ es) sign a b =
        sign-Signed (checksum_lines (sort_slice has_less_name (e ∷ es))) (e ∷ es) sign _ a b
          (λ k. ground (arith, k)) refl refl

    found-Signed :
        (o : Option (List ChecksumEntry)) (sign : Bytes → Option Bytes)
        → signer ≡ some sign
        → before ≡ o
        → Triple Any
            (or_stop io o >>= λ listed.
              checksums_of link_escapes suffix decode sort_slice signer listed >>= λ checksums.
              or_stop io (sign checksums) >>= λ signature.
              put link_escapes suffix (checksums_key namespace name version) checksums
              >> put link_escapes suffix (signature_key namespace name version) signature)
            (λ u. Signed sort_slice signer p q before)
            Any
    found-Signed none sign a b = Triple-stop io (λ f k. k)
    found-Signed (some listed) sign a b = entries-Signed listed sign a b

  rebuild-Signed :
      (w : World)
      → Ensures
          (λ u. Signed sort_slice signer p q (
            entries_of_version link_escapes suffix decode sort_slice signer namespace name version
              w.files))
          Any
          (rebuild_provider_checksums link_escapes suffix decode sort_slice signer namespace name
            version w)
  unfolding rebuild_provider_checksums
  rebuild-Signed w = signed signer refl
    where
      signed :
          (o : Option (Bytes → Option Bytes))
          → signer ≡ o
          → Ensures
              (λ u. Signed sort_slice signer p q (
                entries_of_version link_escapes suffix decode sort_slice signer namespace name
                  version w.files))
              Any
              ((or_stop unavailable o >>= λ sign.
                  of_files (
                    entries_of_version link_escapes suffix decode sort_slice signer namespace name
                      version)
                  >>= λ o. or_stop io o >>= λ listed.
                      checksums_of link_escapes suffix decode sort_slice signer listed
                      >>= λ checksums. or_stop io (sign checksums) >>= λ signature.
                          put link_escapes suffix (checksums_key namespace name version) checksums
                          >> put link_escapes suffix
                              (signature_key namespace name version)
                              signature)
                w)
      signed none e = tt
      signed (some sign) e =
          (found-Signed _
              (entries_of_version link_escapes suffix decode sort_slice signer namespace name
                version w.files)
              sign e refl).at
            w tt

  -- Where the keys of the checksums and of the signature have paths that are apart, and `sort.Slice`
  -- sorts, a rebuild of the checksums of a version that succeeds leaves there a line for each platform
  -- of the version whose artifact was there, at least one, with its checksum and its name, in the order
  -- of the names, and what the registry's key signs these lines with.
  pub rebuild_provider_checksums_signs :
      (w : World)
      → Ensures
          (λ u f.
            (es : List ChecksumEntry) × PublishedIn link_escapes suffix decode sort_slice signer
              namespace name version w.files es
            × Signed sort_slice signer p q (some es) f)
          Any
          (rebuild_provider_checksums link_escapes suffix decode sort_slice signer namespace name
            version w)
  rebuild_provider_checksums_signs w =
      described
        (rebuild_provider_checksums link_escapes suffix decode sort_slice signer namespace name
          version w)
        (rebuild-Signed w)
    where
      described :
          (o : Result (Unit {0}) × World)
          → Ensures
              (λ u. Signed sort_slice signer p q (
                entries_of_version link_escapes suffix decode sort_slice signer namespace name
                  version w.files))
              Any
              o
          → Ensures
              (λ u f.
                (es : List ChecksumEntry) × PublishedIn link_escapes suffix decode sort_slice signer
                  namespace name version w.files es
                × Signed sort_slice signer p q (some es) f)
              Any
              o
      described (fails e, v) h = tt
      described (done u, v) h = (
        h.found,
        entries-PublishedIn link_escapes suffix decode sort_slice signer namespace name version
            w.files h.found h.of_entries,
        subst (λ o. Signed sort_slice signer p q o v.files) h.of_entries h,
      )
