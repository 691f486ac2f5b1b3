-- ===== src/Storage/Tests.antt =====
-- The theorems on the storage at concrete inputs, with the contents of files held in memory and a
-- small encoding in the place of JSON.
use terraform_registry.Base.{
  zero, suc, Bool, true, false, none, some, ◌≡◌, ◌≢◌, ◌⊎◌, ◌↔◌, refl, arith, List, [], ◌∷◌,
  if◌then◌else◌, Holds, is_nil, not,
}
use terraform_registry.Text.{Bytes, codes, text_eq, has_prefix, contains, split, join}
use terraform_registry.Text.Laws.{text_eq_iff}
use terraform_registry.Semver.{sort_semantic_versions, insert_version}
use terraform_registry.Paths.{clean_segments, path_clean}
use terraform_registry.Paths.Inside.{StaysInside}
use terraform_registry.Protocol.Reader.{Read, found, index_has_version}
use terraform_registry.Storage.Resolve.{resolve, resolve-StaysInside}
use terraform_registry.Storage.Index.{
  Backend, Index, IndexCodec, load_index, put_versions, add_version_to_index,
  remove_version_from_index,
}
use terraform_registry.Disk.{World, Files}
use terraform_registry.Storage.OnDisk.{on_disk}
use terraform_registry.Storage.Atomic.{Atomic, add_version_on_disk, remove_version_on_disk}
use terraform_registry.Storage.Deprecate.{Metadata, MetadataCodec, deprecate_version}
use terraform_registry.Storage.Changed.{DeprecateOutcome, deprecate_version_lem}

resolve_runs :
    resolve (λ p. false) (codes "modules/./vpc/../index.json") ≡ some (codes "modules/index.json")
unfolding resolve text_eq has_prefix contains path_clean clean_segments split join
resolve_runs = refl

resolve-StaysInside_example : StaysInside 0 (split b'/' (codes "modules/./vpc/../index.json"))
resolve-StaysInside_example =
    resolve-StaysInside (λ p. false) (codes "modules/./vpc/../index.json")
      (codes "modules/index.json") resolve_runs

-- a storage in memory whose writes succeed
abbrev Memory : Type 0
Memory = Bytes → Read

text_eq_self : (s : Bytes) → text_eq s s ≡ true
text_eq_self s = (text_eq_iff s s).1 refl

memory : Backend Memory
memory = record {
  get = λ w k. w k;
  put = λ w k d. (λ j. if text_eq j k then found d else w j, true);
  put_ok = λ w k d h. rw (text_eq_self k) refl;
  put_failed = λ w k d h. absurd (ground arith);
}

-- A list of texts as one: 1 opens a text, each of its bytes is raised by 2, and 0 ends the list.
unfoldable encode_text : Bytes → Bytes → Bytes
encode_text [] s = s
encode_text (c ∷ v) s = suc (suc c) ∷ encode_text v s

pub encode_texts : List Bytes → Bytes
encode_texts [] = 0 ∷ []
encode_texts (v ∷ vs) = 1 ∷ encode_text v (encode_texts vs)

pub decode_texts : Bytes → Bytes × List Bytes
decode_texts [] = ([], [])
decode_texts (zero ∷ s) = ([], [])
decode_texts (suc zero ∷ s) = let (v, vs) = decode_texts s in ([], v ∷ vs)
decode_texts (suc (suc c) ∷ s) = let (v, vs) = decode_texts s in (c ∷ v, vs)

decode_texts-encode_text :
    (v s : Bytes) (vs : List Bytes)
    → decode_texts s ≡ ([], vs)
    → decode_texts (encode_text v s) ≡ (v, vs)
unfolding decode_texts encode_text
decode_texts-encode_text [] s vs h = h
decode_texts-encode_text (c ∷ v) s vs h = rw (decode_texts-encode_text v s vs h) refl

pub decode_texts-encode_texts : (vs : List Bytes) → decode_texts (encode_texts vs) ≡ ([], vs)
unfolding decode_texts encode_texts
decode_texts-encode_texts [] = refl
decode_texts-encode_texts (v ∷ vs) =
    rw (decode_texts-encode_text v (encode_texts vs) vs (decode_texts-encode_texts vs)) refl

pub index_codec : IndexCodec (Unit {0})
index_codec = record {
  no_metadata = tt;
  encode = λ i. encode_texts i.versions;
  decode = λ s. some (record { versions = (decode_texts s).1; metadata = tt });
  decode-encode = λ i. rw (decode_texts-encode_texts i.versions) refl;
}

abbrev metadata_of : List Bytes → Metadata (Unit {0})
metadata_of (v ∷ m ∷ flag ∷ []) = record {
  version = v;
  deprecated = not (is_nil flag);
  deprecation = m;
  rest = tt;
}
metadata_of _ = record { version = []; deprecated = false; deprecation = []; rest = tt }

abbrev texts_of : Metadata (Unit {0}) → List Bytes
texts_of m = m.version ∷ m.deprecation ∷ (if m.deprecated then codes "y" else []) ∷ []

metadata_of-texts_of : (m : Metadata (Unit {0})) → metadata_of (texts_of m) ≡ m
metadata_of-texts_of m = ground arith

metadata_codec : MetadataCodec (Unit {0})
metadata_codec = record {
  fresh = record { version = []; deprecated = false; deprecation = []; rest = tt };
  encode = λ m. encode_texts (texts_of m);
  decode_into = λ s. metadata_of (decode_texts s).1;
  decode-encode = λ m. rw (decode_texts-encode_texts (texts_of m)) (metadata_of-texts_of m);
}

abbrev key : Bytes
key = codes "modules/acme/vpc/aws/index.json"

abbrev old_index : Index (Unit {0})
old_index = record { versions = codes "1.0.0" ∷ []; metadata = tt }

abbrev state : Memory
state = λ k. found (encode_texts (codes "1.0.0" ∷ []))

old_index_loads : load_index memory index_codec state key ≡ some old_index
unfolding load_index memory index_codec sort_semantic_versions insert_version decode_texts
    encode_texts encode_text
old_index_loads = refl

adds : (add_version_to_index memory index_codec state key (codes "1.1.0")).1 ≡ true
unfolding add_version_to_index load_index memory index_codec index_has_version
    sort_semantic_versions decode_texts encode_texts encode_text text_eq put_versions
adds = refl

removes : (remove_version_from_index memory index_codec state key (codes "1.0.0")).1 ≡ true
unfolding remove_version_from_index load_index memory index_codec put_versions
removes = refl

deprecate_version_lem_example :
    DeprecateOutcome memory index_codec metadata_codec state key
      (codes "metadata.json")
      (codes "1.0.0")
      (codes "old")
      (deprecate_version memory index_codec metadata_codec state key
        (codes "metadata.json")
        (codes "1.0.0")
        (codes "old"))
deprecate_version_lem_example =
    deprecate_version_lem memory index_codec metadata_codec state key (codes "metadata.json")
      (codes "1.0.0") (codes "old")

abbrev confined : Bytes → Bool
confined p = false

abbrev no_suffix : Bytes → Files → Bytes
no_suffix pattern f = []

-- An empty storage whose third call fails.
abbrev empty : World
empty = record { files = []; now = 0; faults = none ∷ none ∷ some 1 ∷ [] }

abbrev no_index : Index (Unit {0})
no_index = record { versions = []; metadata = tt }

no_index_loads : load_index (on_disk confined no_suffix) index_codec empty key ≡ some no_index
unfolding load_index on_disk resolve text_eq has_prefix contains path_clean clean_segments split
    join terraform_registry.Disk.node_at terraform_registry.Disk.lookup
no_index_loads = refl

add_version_on_disk_example :
    Atomic
      (on_disk confined no_suffix)
      index_codec
      key
      empty
      (λ vs.
        Holds (codes "1.0.0") vs ↔ ((codes "1.0.0" ≡ codes "1.0.0") ⊎ Holds (codes "1.0.0") []))
      (add_version_to_index (on_disk confined no_suffix) index_codec empty key (codes "1.0.0"))
add_version_on_disk_example =
    add_version_on_disk index_codec confined no_suffix empty key (codes "1.0.0") (codes "1.0.0")
      no_index no_index_loads

remove_version_on_disk_example :
    Atomic
      (on_disk confined no_suffix)
      index_codec
      key
      empty
      (λ vs.
        Holds (codes "1.0.0") vs ↔ ((codes "1.0.0" ≢ codes "1.0.0") × Holds (codes "1.0.0") []))
      (remove_version_from_index (on_disk confined no_suffix) index_codec empty key (codes "1.0.0"))
remove_version_on_disk_example =
    remove_version_on_disk index_codec confined no_suffix empty key (codes "1.0.0") (codes "1.0.0")
      no_index no_index_loads
