-- ===== src/Auth/Reload.antt =====
-- Every reload leaves a key store that the lookup can rely on.
use terraform_registry.Base.{
  ◌<◌, true, false, Bool-cases, Option-cases, not, ◌&&◌, Option, none, some, ◌≡◌, ◌≢◌, ◌⊎◌, inl,
  inr, refl, sym, ◌∙◌, subst, arith, List, [], ◌∷◌, All, All-map, any, map, ltb, ◌==◌,
}
use terraform_registry.Text.{Bytes}
use terraform_registry.Text.Laws.{text_eq_iff}
use terraform_registry.Auth.Hash.{is_sha256_hex}
use terraform_registry.Auth.Keys.{
  ApiKey, KeyStore, KeysFile, ReloadError, Result, ok, err, is_known, seen_hash, Checked, add_key,
  migrate_key, check_keys, install_keys, reload_keys, reload, maybe_reload,
}

-- A key as it is kept: no plaintext, a well-formed hash, a known permission.
pub record IsKept (k : ApiKey) : Type 0 where
  pub no_plaintext : k.key ≡ []
  pub hash : is_sha256_hex k.hash ≡ true
  pub permission : is_known k.permission ≡ true

-- No two keys have one hash.
abbrev pub IsDistinct : List ApiKey → Type 0
IsDistinct [] = Unit
IsDistinct (k ∷ ks) = All (λ j. j.hash ≢ k.hash) ks × IsDistinct ks

-- What holds of the store whenever a reload has succeeded once.
pub record IsValidStore (ks : KeyStore) : Type 0 where
  pub kept : All IsKept ks.keys_list
  pub distinct : IsDistinct ks.keys_list
  pub some_enabled : any (λ (k : ApiKey). k.enabled) ks.keys_list ≡ true
  pub by_hash : ks.keys ≡ map (λ (k : ApiKey). (k.hash, k)) ks.keys_list

record IsChecked (seen : List Bytes) (c : Checked) : Type 0 where
  kept : All IsKept c.keys
  distinct : IsDistinct c.keys
  unseen : All (λ (k : ApiKey). seen_hash k.hash seen ≡ false) c.keys
  enabled : 0 < c.enabled → any (λ (k : ApiKey). k.enabled) c.keys ≡ true

Result-cases {ℓ} :
    {A : Type ℓ} (r : Result A) → ((e : ReloadError) × (r ≡ err e)) ⊎ ((a : A) × (r ≡ ok a))
Result-cases (ok a) = inr (a, refl)
Result-cases (err e) = inl (e, refl)

module _ (hash_key : Bytes → Bytes) where
  added_enabled :
      (k : ApiKey) (c : Checked)
      → (0 < c.enabled → any (λ (j : ApiKey). j.enabled) c.keys ≡ true)
      → 0 < (add_key k (migrate_key hash_key k) c).enabled
      → any (λ (j : ApiKey). j.enabled) (add_key k (migrate_key hash_key k) c).keys ≡ true
  unfolding add_key migrate_key
  added_enabled k c f p = elim (Bool-cases k.enabled) [
    | inl e ↦ rw e
    | inr e ↦ rw e (f (rw e at p))
  ]

  unseen-tail :
      (h : Bytes) (seen : List Bytes) (ks : List ApiKey)
      → All (λ (k : ApiKey). seen_hash k.hash (h ∷ seen) ≡ false) ks
      → All (λ (k : ApiKey). seen_hash k.hash seen ≡ false) ks
  unfolding seen_hash
  unseen-tail h seen ks = All-map _ _ ks λ k e. ground arith

  unseen-head :
      (h : Bytes) (seen : List Bytes) (ks : List ApiKey)
      → All (λ (k : ApiKey). seen_hash k.hash (h ∷ seen) ≡ false) ks
      → All (λ (k : ApiKey). k.hash ≢ h) ks
  unfolding seen_hash
  unseen-head h seen ks = All-map _ _ ks λ k e. ground (arith, text_eq_iff k.hash h)

  IsChecked-nil :
      (seen : List Bytes) (c : Checked)
      → c ≡ record { keys = []; enabled = 0; migrated = false }
      → IsChecked seen c
  IsChecked-nil seen c e =
      rw e (record { kept = tt; distinct = tt; unseen = tt; enabled = λ h. absurd (omega arith) })

  IsChecked-add :
      (seen : List Bytes) (k : ApiKey) (c : Checked)
      → is_sha256_hex (migrate_key hash_key k).hash ≡ true
      → is_known k.permission ≡ true
      → seen_hash (migrate_key hash_key k).hash seen ≡ false
      → IsChecked ((migrate_key hash_key k).hash ∷ seen) c
      → IsChecked seen (add_key k (migrate_key hash_key k) c)
  unfolding add_key
  IsChecked-add seen k c e f g r =
      let h = (migrate_key hash_key k).hash in
      record {
        kept = (
          record {
            no_plaintext = unfold migrate_key in refl;
            hash = e;
            permission = unfold migrate_key in f;
          },
          r.kept,
        );
        distinct = (unseen-head h seen c.keys r.unseen, r.distinct);
        unseen = (g, unseen-tail h seen c.keys r.unseen);
        enabled = λ p. added_enabled k c r.enabled p;
      }

  check_keys-IsChecked :
      (seen : List Bytes) (ks : List ApiKey) (c : Checked)
      → check_keys hash_key seen ks ≡ ok c
      → IsChecked seen c
  unfolding check_keys
  check_keys-IsChecked seen [] c h = IsChecked-nil seen c (ground arith)
  check_keys-IsChecked seen (k ∷ ks) c h =
      let k' = migrate_key hash_key k in
      elim (Bool-cases (is_sha256_hex k'.hash)) [
        | inr e ↦ absurd (ground arith)
        | inl e ↦ elim (Bool-cases (is_known k.permission)) [
          | inr f ↦ absurd (ground arith)
          | inl f ↦ elim (Bool-cases (seen_hash k'.hash seen)) [
            | inl g ↦ absurd (ground arith)
            | inr g ↦ elim (Result-cases (check_keys hash_key (k'.hash ∷ seen) ks)) [
              | inl (x, r) ↦ absurd (ground arith)
              | inr (d, r) ↦
                  subst (IsChecked seen) (ground arith)
                    (IsChecked-add seen k d e f g (check_keys-IsChecked (k'.hash ∷ seen) ks d r))
            ]
          ]
        ]
      ]

install_keys-IsValidStore :
    (file : KeysFile) (ks : KeyStore) (c : Checked)
    → IsChecked [] c
    → ((install_keys file ks c).1 ≡ none)
        × IsValidStore (install_keys file ks c).0
        × ((install_keys file ks c).0.keys_list ≡ c.keys)
      ⊎ ((install_keys file ks c).1 ≢ none) × ((install_keys file ks c).0 ≡ ks)
unfolding install_keys
install_keys-IsValidStore file ks c h = elim (Bool-cases (c.enabled == 0)) [
  | inl e ↦ rw e (inr (ground arith, refl))
  | inr e ↦ elim (Bool-cases (c.migrated && not file.writable)) [
    | inl f ↦ rw (e, f) (inr (ground arith, refl))
    | inr f ↦
        rw (e, f)
          (inl (
            refl,
            record {
              kept = h.kept;
              distinct = h.distinct;
              some_enabled = h.enabled (ground arith);
              by_hash = refl;
            },
            refl,
          ))
  ]
]

module _ (hash_key : Bytes → Bytes) where
  check_keys-map :
      (seen : List Bytes) (ks : List ApiKey) (c : Checked)
      → check_keys hash_key seen ks ≡ ok c
      → c.keys ≡ map (migrate_key hash_key) ks
  unfolding check_keys add_key
  check_keys-map seen [] c h = ground arith
  check_keys-map seen (k ∷ ks) c h =
      let k' = migrate_key hash_key k in
      elim (Result-cases (check_keys hash_key (k'.hash ∷ seen) ks)) [
        | inl (x, r) ↦ absurd (ground arith)
        | inr (d, r) ↦ ground (arith, check_keys-map (k'.hash ∷ seen) ks d r)
      ]

  -- How a reload ends: with every key of the file in its kept form and a valid store, or with an
  -- error and the store as it was.
  abbrev pub ReloadOutcome : KeysFile → KeyStore → KeyStore × Option ReloadError → Type 0
  ReloadOutcome file ks (ks', e) =
      ((e ≡ none)
        × IsValidStore ks'
        × ((config : List ApiKey) × (file.config ≡ some config)
            × (ks'.keys_list ≡ map (migrate_key hash_key) config)))
      ⊎ ((e ≢ none) × (ks' ≡ ks))

  reload_keys-outcome :
      (file : KeysFile) (ks : KeyStore) (config : List ApiKey)
      → file.config ≡ some config
      → ReloadOutcome file ks (reload_keys hash_key file ks config)
  unfolding reload_keys
  reload_keys-outcome file ks [] p = inr (ground arith, refl)
  reload_keys-outcome file ks (k ∷ config) p =
      elim (Result-cases (check_keys hash_key [] (k ∷ config))) [
        | inl (x, r) ↦ rw (r, reload_keys) (inr (ground arith, refl))
        | inr (c, r) ↦
            rw (r, reload_keys)
              (elim (install_keys-IsValidStore file ks c
                (check_keys-IsChecked hash_key [] (k ∷ config) c r)) [
                  | inl (e, v, l) ↦
                      inl (e, v, (k ∷ config, p, l ∙ check_keys-map [] (k ∷ config) c r))
                  | inr u ↦ inr u
                ])
      ]

  reload-some :
      (file : KeysFile) (ks : KeyStore) (config : List ApiKey)
      → file.config ≡ some config
      → reload hash_key file ks ≡ reload_keys hash_key file ks config
  unfolding reload
  reload-some file ks config e = ground arith

  -- A reload either succeeds, and then the store holds every key of the file without its plaintext,
  -- with a known permission and a well-formed hash, no hash twice and at least one key enabled; or
  -- it fails and leaves the store as it was.
  pub reload_atomic :
      (file : KeysFile) (ks : KeyStore) → ReloadOutcome file ks (reload hash_key file ks)
  unfolding reload
  reload_atomic file ks = elim (Option-cases file.config) [
    | inl e ↦ rw (e, reload) (inr (ground arith, refl))
    | inr (config, e) ↦
        subst (ReloadOutcome file ks) (sym (reload-some file ks config e))
          (reload_keys-outcome file ks config e)
  ]

  -- Looking up keys never makes a valid store invalid, whatever has become of the keys file.
  pub maybe_reload-IsValidStore :
      (file : KeysFile) (ks : KeyStore)
      → IsValidStore ks
      → IsValidStore (maybe_reload hash_key file ks)
  unfolding maybe_reload
  maybe_reload-IsValidStore file ks v = elim (Option-cases file.stat) [
    | inl e ↦ rw (e, maybe_reload) v
    | inr (t, e) ↦
        rw (e, maybe_reload)
          (elim (Bool-cases (ltb ks.last_mod t)) [
            | inr f ↦ rw f v
            | inl f ↦
                rw f
                  (elim (reload_atomic file ks) [ inl (n, w, m) ↦ w | inr (n, same) ↦ rw same v ])
          ])
  ]
