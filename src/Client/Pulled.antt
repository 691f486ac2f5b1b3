-- ===== src/Client/Pulled.antt =====
-- cmd/tfreg/main.go: what `tfreg pull provider` leaves in the output directory.
use terraform_registry.Base.{
  ◌≡◌, ◌≢◌, refl, inl, inr, arith, subst, Bool-cases, ◌||◌, not, Option, none, some, ◌==◌, is_nil,
  length,
}
use terraform_registry.Text.{Bytes, codes, text_eq}
use terraform_registry.Text.Laws.{text_eq_iff}
use terraform_registry.Paths.{dot, path_base}
use terraform_registry.Flags.{FlagSet}
use terraform_registry.Disk.{
  Files, Error, Result, done, fails, World, stop, invalid_key, unavailable, corrupt,
}
use terraform_registry.Disk.Laws.{content}
use terraform_registry.Disk.Triples.{Ensures}
use terraform_registry.Storage.Writes.{Stream}
use terraform_registry.Storage.Published.{Kept, Kept-now, Fresh}
use terraform_registry.Storage.Listing.{join_name}
use terraform_registry.Download.{Response}
use terraform_registry.Download.Verified.{Downloaded, download_file_verified-Downloaded}
use terraform_registry.Client.{
  PullMeta, value_of, fetch_archive, fetch_described, fetch_answered, download_info_url,
}

module _ (suffix : Bytes → Files → Bytes) (hash : Bytes → Bytes) (get : Bytes → Option Response)
    (decode : Stream → Option PullMeta) (location : Response → Bytes) where
  -- The archive that the answer describes is in the output directory, and its name is a proper one.
  abbrev pub Fetched : Bytes → PullMeta → Files → Type 0
  Fetched output meta f =
      (path_base meta.filename ≢ dot)
      × Downloaded hash (join_name output (path_base meta.filename)) meta.shasum
          (get meta.download_url) f

  -- What the server described was fetched.
  pub record Pulled (fs : FlagSet) (f : Files) : Type 0 where
    pub answer : Response
    pub meta : PullMeta
    pub answered : get (download_info_url suffix hash get decode location fs) ≡ some answer
    pub well : answer.status ≡ 200
    pub described : decode answer.body ≡ some meta
    pub fetched : Fetched (value_of fs.flags (codes "output")) meta f

  module _ (fs : FlagSet) (w : World) where
    abbrev url : Bytes
    url = download_info_url suffix hash get decode location fs

    abbrev dest : PullMeta → Bytes
    dest meta = join_name (value_of fs.flags (codes "output")) (path_base meta.filename)

    -- A file that was at the destination has its bytes.
    abbrev pub Untouched : Files → Type 0
    Untouched f =
        (r : Response) (meta : PullMeta)
        → get url ≡ some r
        → decode r.body ≡ some meta
        → Kept (dest meta) (content (dest meta) w.files) f

    refused : (e : Error) → Ensures (λ u. Pulled fs) Untouched (stop {A = Unit {0}} e w)
    refused e r meta g h = Kept-now (dest meta) w.files

    module _ (r : Response) (meta : PullMeta) (answered : get url ≡ some r) (well : r.status ≡ 200)
        (described : decode r.body ≡ some meta) where
      same :
          (r' : Response) (meta' : PullMeta)
          → get url ≡ some r'
          → decode r'.body ≡ some meta'
          → meta ≡ meta'
      same r' meta' g h =
          let e : r ≡ r' = ground (arith, answered, g) in
          let k : decode r'.body ≡ some meta = subst (λ r. decode r.body ≡ some meta) e described in
          ground (arith, k, h)

      archive-Pulled :
          path_base meta.filename ≢ dot
          → (o : Result (Unit {0}) × World)
          → Ensures
              (λ u. Downloaded hash (dest meta) meta.shasum (get meta.download_url))
              (Kept (dest meta) (content (dest meta) w.files))
              o
          → Ensures (λ u. Pulled fs) Untouched o
      archive-Pulled n (done u, v) h = record {
        answer = r;
        meta = meta;
        answered = answered;
        well = well;
        described = described;
        fetched = (n, h);
      }
      archive-Pulled n (fails e, v) h = λ r' meta' g k.
          subst (λ m. Kept (dest m) (content (dest m) w.files) v.files) (same r' meta' g k) h

      archive :
          Fresh suffix
          → Ensures
              (λ u. Pulled fs)
              Untouched
              (fetch_archive suffix hash get decode location
                (value_of fs.flags (codes "output"))
                meta
                w)
      unfolding fetch_archive
      archive fresh =
          elim (Bool-cases
            (text_eq (path_base meta.filename) dot || is_nil (path_base meta.filename))) [
              | inl e ↦ rw (e) (refused invalid_key)
              | inr e ↦ elim (Bool-cases (not (length meta.shasum == 64))) [
                | inl g ↦ rw (e, g) (refused invalid_key)
                | inr g ↦
                    rw (e, g)
                      (archive-Pulled
                        (λ k. ground (arith, e, (text_eq_iff (path_base meta.filename) dot).1 k)) _
                        (download_file_verified-Downloaded suffix hash (get meta.download_url)
                          (dest meta) meta.shasum w fresh))
              ]
            ]

    described :
        Fresh suffix
        → (r : Response) → get url ≡ some r
        → r.status ≡ 200
        → (o : Option PullMeta) → decode r.body ≡ o
        → Ensures
            (λ u. Pulled fs)
            Untouched
            (fetch_described suffix hash get decode location
              (value_of fs.flags (codes "output"))
              o
              w)
    unfolding fetch_described
    described fresh r a b none c = refused corrupt
    described fresh r a b (some meta) c = archive r meta a b c fresh

    answered :
        Fresh suffix
        → (o : Option Response) → get url ≡ o
        → Ensures
            (λ u. Pulled fs)
            Untouched
            (fetch_answered suffix hash get decode location
              (value_of fs.flags (codes "output"))
              o
              w)
    unfolding fetch_answered
    answered fresh none a = refused unavailable
    answered fresh (some r) a = elim (Bool-cases (r.status == 200)) [
      | inl e ↦ rw (e) (described fresh r a (ground arith) (decode r.body) refl)
      | inr e ↦ rw (e) (refused unavailable)
    ]
