-- ===== src/Secrets/Opened.antt =====
-- registry-server/auth.go: a registry without a keys file opens to its default key.
use terraform_registry.Base.{
  ℕ, ◌≡◌, ◌≢◌, ◌⊎◌, inl, inr, refl, sym, ◌∙◌, ap, subst, arith, true, false, Option, none, some,
  List, [], ◌∷◌, if◌then◌else◌, is_nil,
}
use terraform_registry.Text.{Bytes, codes, has_prefix}
use terraform_registry.Text.Laws.{text_eq_iff}
use terraform_registry.Paths.{dot}
use terraform_registry.Auth.Hash.{normalize_hash, is_sha256_hex}
use terraform_registry.Auth.Keys.{
  ApiKey, admin, KeyStore, KeysFile, ReloadError, unreadable, find_key, check_keys, reload,
  reload_keys, install_keys, migrate_key,
}
use terraform_registry.Disk.{
  Node, file, directory, Files, not_exist, io, Result, done, fails, World, ◌>>=◌, attempt, node_at,
  lookup, stat, stat_node, cut_base,
}
use terraform_registry.Disk.Laws.{content, content_of, node_at-other}
use terraform_registry.Disk.Triples.{
  Ensures, Triple, Triple-bind, Triple-return, Triple-weaken, Triple-look,
}
use terraform_registry.Secrets.{write_keys_config_atomic}
use terraform_registry.Secrets.Kept.{write_private-Has}
use terraform_registry.Secrets.Keys.{
  KeysCodec, read_result, read_file, time_of, empty_store, stop_on, migration, write_back,
  reload_config, reload_text, reload_file, default_key, create_default_file, create_if_missing,
  new_key_store,
}

module _ (suffix : Bytes → Files → Bytes) (hash_key : Bytes → Bytes) (c : KeysCodec)
    (path key : Bytes) where
  -- The default key.
  abbrev pub dk : ApiKey
  dk = default_key suffix hash_key c path key

  abbrev text : Bytes
  text = c.encode (dk ∷ [])

  -- The file is not there, or it is whole.
  abbrev pub Whole : Files → Type 0
  Whole f = (content path f ≡ none) ⊎ (content path f ≡ some text)

  -- The store has an enabled administrator under the hash of the key, and not the key itself; the
  -- file is whole or missing.
  abbrev pub OpensTo : KeyStore → Files → Type 0
  OpensTo ks f =
      ((k : ApiKey) × (find_key (hash_key key) ks.keys_list ≡ some k)
        × (k.hash ≡ hash_key key)
        × (k.key ≡ [])
        × (k.permission ≡ admin)
        × (k.enabled ≡ true))
      × Whole f

  -- The file is missing.
  abbrev pub Missing : Files → Type 0
  Missing f = lookup path f ≡ none

  module _ (path_ne : path ≢ dot) (normal : normalize_hash (hash_key key) ≡ hash_key key)
      (hex : is_sha256_hex (hash_key key) ≡ true) where
    reload-default :
        (t : Option ℕ)
        → reload hash_key
            (record { stat = none; config = some (dk ∷ []); writable = true; stat_after = t })
            empty_store
          ≡ (
            record {
              keys = (hash_key key, dk) ∷ [];
              keys_list = dk ∷ [];
              last_mod = elim t [ none ↦ 0 | some t ↦ t ];
            },
            none,
          )
    unfolding reload reload_keys check_keys install_keys migrate_key default_key
        terraform_registry.Auth.Keys.is_known terraform_registry.Auth.Keys.seen_hash
        terraform_registry.Auth.Keys.add_key is_sha256_hex normalize_hash
    reload-default t = rw (normal, hex) refl

    migration-default : migration suffix hash_key c path (dk ∷ []) ≡ none
    unfolding migration check_keys migrate_key default_key terraform_registry.Auth.Keys.is_known
        terraform_registry.Auth.Keys.seen_hash terraform_registry.Auth.Keys.add_key is_sha256_hex
        normalize_hash
    migration-default = rw (normal, hex) refl

    found-default : find_key (hash_key key) (dk ∷ []) ≡ some dk
    unfolding find_key default_key
    found-default = ground (arith, text_eq_iff (hash_key key) (hash_key key))

    -- A reload came to the default key.
    abbrev Opened : KeyStore × Option ReloadError → Type 0
    Opened r = (r.1 ≡ none) × (find_key (hash_key key) r.0.keys_list ≡ some dk)

    stop_on-OpensTo :
        (r : KeyStore × Option ReloadError)
        → Triple (λ f. Opened r × Whole f) (stop_on r) OpensTo Whole
    unfolding default_key
    stop_on-OpensTo (ks, none) = record { at = λ w h. ((dk, h.0.1, refl, refl, refl, refl), h.1) }
    stop_on-OpensTo (ks, some e) = record { at = λ w h. ground (arith, h.0.0) }

    abbrev loaded : Option ℕ → KeyStore × Option ReloadError
    loaded t =
        reload hash_key
          (record { stat = none; config = some (dk ∷ []); writable = true; stat_after = t })
          empty_store

    reload-Opened : (t : Option ℕ) → Opened (loaded t)
    reload-Opened t = rw (reload-default t) (refl, found-default)

    stat-Whole : Triple Whole (attempt (stat path)) (λ r. Whole) Whole
    unfolding stat
    stat-Whole =
        Triple-weaken _ (Triple-look (λ f. stat_node (node_at path f)) Whole) (λ f h. h)
          (λ r f h. h.0) (λ f h. h)

    config-OpensTo :
        Triple Whole
          (reload_config suffix hash_key c path empty_store (some (dk ∷ [])) >>= stop_on)
          OpensTo
          Whole
    unfolding reload_config write_back stat
    config-OpensTo = rw (migration-default) (
        Triple-bind _ stop_on
          (Triple-bind (attempt (stat path)) _ stat-Whole
            λ n. Triple-return (loaded (time_of n)) (λ f h. (reload-Opened (time_of n), h)))
          stop_on-OpensTo)

    text-OpensTo :
        (o : Option (List ApiKey))
        → o ≡ some (dk ∷ [])
        → Triple Whole
            (reload_config suffix hash_key c path empty_store o >>= stop_on)
            OpensTo
            Whole
    text-OpensTo o e =
        subst
          (λ o.
            Triple Whole (reload_config suffix hash_key c path empty_store o >>= stop_on) OpensTo
              Whole)
          (sym e) config-OpensTo

    -- the store behind an answer of the read
    read-OpensTo :
        (r : Result Bytes)
        → Triple
            (λ f. Whole f × ((r ≡ fails io) ⊎ (r ≡ read_result (node_at path f))))
            (reload_text suffix hash_key c path empty_store r >>= stop_on)
            OpensTo
            Whole
    unfolding reload_text
    read-OpensTo (fails e) = record { at = λ w h. h.0 }
    read-OpensTo (done b) = record {
      at = λ w h.
          (text-OpensTo (c.decode b)
              (ap c.decode (read b w.files h) ∙ c.decode-encode (dk ∷ []))).at
            w h.0;
    }
      where
        read :
            (b : Bytes) (f : Files)
            → Whole f × ((done b ≡ fails io) ⊎ (done b ≡ read_result (node_at path f)))
            → b ≡ text
        read b f h = go (lookup path f) refl (node_at-other path f path_ne) h
          where
            go :
                (n : Option Node)
                → lookup path f ≡ n
                → node_at path f ≡ lookup path f
                → Whole f × ((done b ≡ fails io) ⊎ (done b ≡ read_result (node_at path f)))
                → b ≡ text
            go none e g h = ground arith
            go (some directory) e g h = ground arith
            go (some (file d t)) e g h = ground arith

    reload-OpensTo :
        Triple Whole (reload_file suffix hash_key c path empty_store >>= stop_on) OpensTo Whole
    unfolding reload_file read_file
    reload-OpensTo = record {
      at = λ w h.
          ((Triple-bind (attempt (read_file path)) _ (Triple-look _ Whole) read-OpensTo)).at w h;
    }

    none-Whole : (f : Files) → Missing f → Whole f
    none-Whole f h = inl (ap content_of h)

    there-Missing :
        Triple Missing
          (attempt (stat path))
          (λ r f. Missing f × ((r ≡ fails io) ⊎ (r ≡ stat_node (node_at path f))))
          Whole
    unfolding stat
    there-Missing =
        Triple-weaken _ (Triple-look (λ f. stat_node (node_at path f)) Missing) (λ f h. h)
          (λ r f h. h) none-Whole

    module _ (marked : has_prefix (cut_base path).1 (codes ".keys-") ≡ false)
        (variable random : Bytes)
        (chosen : (if is_nil variable then random else variable) ≡ key) where
      create-Whole :
          (r : Result Node)
          → Triple
              (λ f. Missing f × ((r ≡ fails io) ⊎ (r ≡ stat_node (node_at path f))))
              (create_if_missing suffix hash_key c path variable random r)
              (λ u. Whole)
              Whole
      unfolding create_if_missing create_default_file terraform_registry.Secrets.write_private
          write_keys_config_atomic
      create-Whole (done n) = record { at = λ w h. none-Whole w.files h.0 }
      create-Whole (fails not_exist) = rw (chosen) (
          Triple-weaken (create_default_file suffix hash_key c path key)
            (write_private-Has path (codes ".keys-") text none suffix marked (omega arith))
            (λ f h. ap content_of h.0) (λ u f h. inr h) (λ f h. inl h))
      create-Whole (fails e) = record { at = λ w h. none-Whole w.files h.0 }

      -- A registry without a keys file, whichever calls fail: where it starts, its store has the key of the
      -- environment, or else the random one, as an enabled key of an administrator. In any case the file
      -- is whole, or it is still missing. The hash of the key is of 64 hexadecimal digits in lower case,
      -- the path of the file is not the root, and its name does not begin as the temporary ones.
      pub new_key_store-OpensTo :
          (w : World)
          → Missing w.files
          → Ensures OpensTo Whole (new_key_store suffix hash_key c path variable random w)
      unfolding new_key_store
      new_key_store-OpensTo w h =
          (Triple-bind (attempt (stat path)) _ there-Missing λ r.
              Triple-bind (create_if_missing suffix hash_key c path variable random r) _
                (create-Whole r) λ u. reload-OpensTo).at
            w h
