-- ===== src/Auth/Gate.antt =====
-- registry-server/auth.go: `authMiddleware` and the tests of a request.
use terraform_registry.Base.{
  ℕ, ◌+◌, ◌%◌, ◌^◌, Bool, false, not, ◌&&◌, ◌||◌, Option, none, some, [], ◌∷◌, if◌then◌else◌,
  is_nil,
}
use terraform_registry.Text.{Bytes, codes, text_eq, has_prefix, trim_prefix, trim_suffix, contains}
use terraform_registry.Auth.Keys.{
  Permission, read, write, admin, KeyStore, KeysFile, validate, has_permission,
}

-- What the middleware reads of a request.
pub record Request : Type 0 where
  pub method : Bytes
  pub path : Bytes
  pub x_api_key : Bytes
  pub authorization : Bytes

abbrev pub api_prefix : Bytes
api_prefix = codes "/api/v1/"

unfoldable pub is_read_method : Bytes → Bool
is_read_method m = text_eq m (codes "GET") || text_eq m (codes "HEAD")

-- `privateSecurityRead`
unfoldable pub private_security_read : Request → Bool
private_security_read r =
    let path = trim_suffix r.path (codes "/") in
    if not (is_read_method r.method)
    then false
    else if text_eq path (codes "/api/v1/security/scans")
        || text_eq path (codes "/api/v1/security/health")
    then false
    else has_prefix path (codes "/api/v1/security/scans/")

-- `requiredPermission`
unfoldable pub required_permission : Request → Permission
required_permission r =
    if text_eq r.path (codes "/api/v1/gc") || contains r.path (codes "/waivers")
    then admin
    else if text_eq r.method (codes "DELETE")
    then admin
    else if text_eq r.method (codes "POST")
        || text_eq r.method (codes "PUT")
        || text_eq r.method (codes "PATCH")
    then write
    else read

-- `extractAPIKey`
unfoldable pub extract_api_key : Request → Bytes
extract_api_key r =
    if not (is_nil r.x_api_key)
    then r.x_api_key
    else if has_prefix r.authorization (codes "Bearer ")
    then trim_prefix r.authorization (codes "Bearer ")
    else []

-- the requests that need no key
unfoldable pub is_public : Request → Bool
is_public r =
    not (has_prefix r.path api_prefix) || is_read_method r.method && not (private_security_read r)

pub data Answer : Type 0 where
  pass unauthorized : Answer
  forbidden : Permission → Answer

-- The key store, and the counter `metrics.AuthFailures` if there are metrics.
pub record Guard : Type 0 where
  pub store : KeyStore
  pub auth_failures : Option ℕ

unfoldable pub count_failure : Option ℕ → Option ℕ
count_failure none = none
count_failure (some n) = some ((n + 1) % 2 ^ 64)

module _ (hash_key : Bytes → Bytes) where
  -- the part of `authMiddleware` behind the public requests, for the key of the request; the second
  -- `Validate` of a refused request sees the keys file `later`
  unfoldable pub check_key : KeysFile → KeysFile → Guard → Request → Bytes → Guard × Answer
  check_key file later g r [] =
      (record g { auth_failures = count_failure g.auth_failures }, unauthorized)
  check_key file later g r (c ∷ key) =
      let required = required_permission r in
      let (ks, allowed) = has_permission hash_key file g.store (c ∷ key) required in
      if allowed then (record g { store = ks }, pass) else (
        record {
          store = (validate hash_key later ks (c ∷ key)).0;
          auth_failures = count_failure g.auth_failures;
        },
        forbidden required,
      )

  -- `authMiddleware`
  unfoldable pub auth_middleware : KeysFile → KeysFile → Guard → Request → Guard × Answer
  unfolding check_key
  auth_middleware file later g r =
      if is_public r then (g, pass) else check_key file later g r (extract_api_key r)
