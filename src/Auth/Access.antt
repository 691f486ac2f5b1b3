-- ===== src/Auth/Access.antt =====
-- Who passes `authMiddleware`.
use terraform_registry.Base.{
  ℕ, true, false, Bool-cases, Option-cases, ◌&&◌, ◌||◌, some, ◌≡◌, ◌≢◌, ◌⊎◌, ◌↔◌, inl, inr, refl,
  sym, ap, ◌∙◌, subst, arith, List, [], ◌∷◌, All, Holds,
}
use terraform_registry.Text.{Bytes, codes, text_eq, has_prefix}
use terraform_registry.Text.Laws.{text_eq_iff, differs}
use terraform_registry.Auth.Keys.{
  Permission, read, write, admin, unknown, ApiKey, KeyStore, KeysFile, maybe_reload, find_key,
  grants, has_permission,
}
use terraform_registry.Auth.Reload.{IsDistinct, IsValidStore, maybe_reload-IsValidStore}
use terraform_registry.Auth.Gate.{
  Request, api_prefix, is_read_method, is_public, required_permission, extract_api_key, pass, Guard,
  check_key, auth_middleware,
}

-- An enabled key of the list with this hash.
pub record IsLive (hash : Bytes) (ks : List ApiKey) (k : ApiKey) : Type 0 where
  pub held : Holds k ks
  pub enabled : k.enabled ≡ true
  pub hash_eq : k.hash ≡ hash

find_key-IsLive :
    (hash : Bytes) (ks : List ApiKey) (k : ApiKey) → find_key hash ks ≡ some k → IsLive hash ks k
unfolding find_key
find_key-IsLive hash [] k h = absurd (ground arith)
find_key-IsLive hash (j ∷ ks) k h = elim (Bool-cases (j.enabled && text_eq j.hash hash)) [
  | inl e ↦
      let p : j ≡ k = ground arith in
      subst (IsLive hash (j ∷ ks)) p (record {
        held = inl refl;
        enabled = ground arith;
        hash_eq = (text_eq_iff j.hash hash).0 (ground arith);
      })
  | inr e ↦
      let l = find_key-IsLive hash ks k (rw e at h) in
      record { held = inr l.held; enabled = l.enabled; hash_eq = l.hash_eq }
]

distinct-Holds :
    (h : Bytes) (k : ApiKey) (ks : List ApiKey)
    → All (λ (j : ApiKey). j.hash ≢ h) ks
    → Holds k ks
    → k.hash ≢ h
distinct-Holds h k (j ∷ ks) (a, b) (inl e) = rw e a
distinct-Holds h k (j ∷ ks) (a, b) (inr m) = distinct-Holds h k ks b m
distinct-Holds h k [] a m = absurd m

-- With distinct hashes the lookup finds every live key.
find_key_complete :
    (hash : Bytes) (ks : List ApiKey) (k : ApiKey)
    → IsDistinct ks
    → IsLive hash ks k
    → find_key hash ks ≡ some k
unfolding find_key
find_key_complete hash [] k d l = absurd l.held
find_key_complete hash (j ∷ ks) k (a, d) l = elim l.held [
  | inl e ↦
      let en : j.enabled ≡ true = ap (λ (x : ApiKey). x.enabled) (sym e) ∙ l.enabled in
      let hs : text_eq j.hash hash ≡ true =
        (text_eq_iff j.hash hash).1 (ap (λ (x : ApiKey). x.hash) (sym e) ∙ l.hash_eq) in
      ground arith
  | inr m ↦
      let apart : text_eq j.hash hash ≡ false =
        differs j.hash hash (λ e. distinct-Holds j.hash k ks a m (l.hash_eq ∙ sym e)) in
      let rest =
        find_key_complete hash ks k d
          (record { held = m; enabled = l.enabled; hash_eq = l.hash_eq }) in
      ground arith
]

-- What `Validate` finds of a request's key, after the reload that it may make.
module _ (hash_key : Bytes → Bytes) (file : KeysFile) where
  abbrev reloaded : Guard → KeyStore
  reloaded g = maybe_reload hash_key file g.store

  has_permission_iff :
      (ks : KeyStore) (c : ℕ) (key : Bytes) (required : Permission)
      → IsValidStore ks
      → ((has_permission hash_key file ks (c ∷ key) required).1 ≡ true) ↔ (
          (k : ApiKey) × IsLive (hash_key (c ∷ key)) (maybe_reload hash_key file ks).keys_list k
          × (grants required k.permission ≡ true))
  unfolding has_permission
  has_permission_iff ks c key required v =
      let ks' = maybe_reload hash_key file ks in
      let hash = hash_key (c ∷ key) in
      let w : IsValidStore ks' = maybe_reload-IsValidStore hash_key file ks v in
      (
        λ h. elim (Option-cases (find_key hash ks'.keys_list)) [
          | inl e ↦ absurd (ground arith)
          | inr (k, e) ↦ (k, find_key-IsLive hash ks'.keys_list k e, rw e at h)
        ],
        λ (k, l, p). rw (find_key_complete hash ks'.keys_list k w.distinct l) p,
      )

-- A key that opens the request: enabled, of the hash of the request's key, with the permission that
-- the request asks for.
pub record Opens (hash_key : Bytes → Bytes) (file : KeysFile) (ks : KeyStore) (r : Request)
    (k : ApiKey) : Type 0 where
  pub live : IsLive (hash_key (extract_api_key r)) (maybe_reload hash_key file ks).keys_list k
  pub granted : grants (required_permission r) k.permission ≡ true

check_key_iff :
    (hash_key : Bytes → Bytes) (file later : KeysFile) (g : Guard) (r : Request) (key : Bytes)
    → IsValidStore g.store
    → extract_api_key r ≡ key
    → ((check_key hash_key file later g r key).1 ≡ pass)
      ↔ ((key ≢ []) × ((k : ApiKey) × Opens hash_key file g.store r k))
unfolding check_key
check_key_iff hash_key file later g r [] v p = (λ h. absurd (ground arith), λ h. absurd (h.0 refl))
check_key_iff hash_key file later g r (c ∷ key) v p =
    let found_in = (maybe_reload hash_key file g.store).keys_list in
    let i = has_permission_iff hash_key file g.store c key (required_permission r) v in
    (
      λ h.
          let (k, l, q) = i.0 (ground arith) in
          (
            ground arith,
            (
              k,
              record { live = subst (λ x. IsLive (hash_key x) found_in k) (sym p) l; granted = q },
            ),
          ),
      λ (n, found).
          let (k, o) = found in
          let allowed = i.1 (k, subst (λ x. IsLive (hash_key x) found_in k) p o.live, o.granted) in
          ground arith,
    )

-- With a valid key store a request passes exactly if it is public, or if it carries a key and the
-- store, after the reload that the lookup makes, has an enabled key of its hash with a permission
-- that grants the one asked for.
pub auth_middleware_iff :
    (hash_key : Bytes → Bytes) (file later : KeysFile) (g : Guard) (r : Request)
    → IsValidStore g.store
    → ((auth_middleware hash_key file later g r).1 ≡ pass) ↔ (
        (is_public r ≡ true)
        ⊎ ((extract_api_key r ≢ []) × ((k : ApiKey) × Opens hash_key file g.store r k)))
unfolding auth_middleware
auth_middleware_iff hash_key file later g r v =
    let i = check_key_iff hash_key file later g r (extract_api_key r) v refl in
    elim (Bool-cases (is_public r)) [
      | inl e ↦ (λ h. inl e, λ h. rw e refl)
      | inr e ↦ (
        λ h. inr (i.0 (rw e at h)),
        λ h. elim h [ inl f ↦ absurd (ground arith) | inr q ↦ rw e (i.1 q) ],
      )
    ]

method_tests :
    (m : Bytes)
    → (m ≡ codes "DELETE") ⊎ ((m ≡ codes "POST") ⊎ ((m ≡ codes "PUT") ⊎ (m ≡ codes "PATCH")))
    → (is_read_method m ≡ false)
      × ((text_eq m (codes "DELETE") ≡ true)
          ⊎ (text_eq m (codes "DELETE") ≡ false)
            × ((text_eq m (codes "POST") || text_eq m (codes "PUT") || text_eq m (codes "PATCH"))
                ≡ true))
unfolding is_read_method text_eq
method_tests m (inl e) = rw e (refl, inl refl)
method_tests m (inr (inl e)) = rw e (refl, inr (refl, refl))
method_tests m (inr (inr (inl e))) = rw e (refl, inr (refl, refl))
method_tests m (inr (inr (inr e))) = rw e (refl, inr (refl, refl))

grants-admin : (p : Permission) → grants admin p ≡ true → p ≡ admin
unfolding grants
grants-admin admin h = refl
grants-admin read h = absurd (ground arith)
grants-admin _ h = absurd (ground arith)

grants-write : (p : Permission) → grants write p ≡ true → (p ≡ admin) ⊎ (p ≡ write)
unfolding grants
grants-write admin h = inl refl
grants-write write h = inr refl
grants-write read h = absurd (ground arith)
grants-write (unknown x) h = absurd (ground arith)

-- the permission that a mutation asks for
required_by_mutation :
    (r : Request) (p : Permission)
    → (text_eq r.method (codes "DELETE") ≡ true)
      ⊎ (text_eq r.method (codes "DELETE") ≡ false)
        × ((text_eq r.method (codes "POST")
              || text_eq r.method (codes "PUT")
              || text_eq r.method (codes "PATCH"))
            ≡ true)
    → grants (required_permission r) p ≡ true
    → (p ≡ admin) ⊎ (p ≡ write) × (r.method ≢ codes "DELETE")
unfolding required_permission
required_by_mutation r p (inl d) h = ground (arith, grants-admin p)
required_by_mutation r p (inr (d, w)) h =
    ground (arith, grants-admin p, grants-write p, text_eq_iff r.method (codes "DELETE"))

-- With a valid key store a request of the management API that deletes, posts, puts or patches passes
-- only if it carries the key of an enabled entry of the store with the admin permission, or, unless
-- it deletes, with the write permission.
pub mutation_needs_key :
    (hash_key : Bytes → Bytes) (file later : KeysFile) (g : Guard) (r : Request)
    → IsValidStore g.store
    → has_prefix r.path api_prefix ≡ true
    → (r.method ≡ codes "DELETE")
      ⊎ ((r.method ≡ codes "POST") ⊎ ((r.method ≡ codes "PUT") ⊎ (r.method ≡ codes "PATCH")))
    → (auth_middleware hash_key file later g r).1 ≡ pass
    → (k : ApiKey) × IsLive
        (hash_key (extract_api_key r))
        (maybe_reload hash_key file g.store).keys_list
        k
      × ((k.permission ≡ admin) ⊎ (k.permission ≡ write) × (r.method ≢ codes "DELETE"))
mutation_needs_key hash_key file later g r v p m h =
    let (not_read, which) = method_tests r.method m in
    elim ((auth_middleware_iff hash_key file later g r v).0 h) [
      | inl e ↦ absurd (unfold is_public in ground arith)
      | inr (n, (k, o)) ↦ (k, o.live, required_by_mutation r k.permission which o.granted)
    ]
