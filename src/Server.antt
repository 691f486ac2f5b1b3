-- ===== src/Server.antt =====
-- registry-server/main.go and middleware.go: the chain of the middleware that guards a handler, and
-- the audit log. A handler is the list of the statuses that it writes. Every lookup of a key reads the
-- keys file as it is then. The time, the address and the detail of an entry are left out.
pub mod Audited
pub mod Tests
use terraform_registry.Base.{
  ℕ, Bool, true, false, not, Option, none, some, List, [], ◌∷◌, ◌++◌, if◌then◌else◌,
}
use terraform_registry.Text.{Bytes, codes, has_prefix}
use terraform_registry.Validation.{route_validation}
use terraform_registry.Auth.Keys.{ApiKey, KeyStore, KeysFile, validate}
use terraform_registry.Auth.Gate.{
  Request, Guard, Answer, pass, unauthorized, forbidden, api_prefix, extract_api_key,
  auth_middleware,
}
use terraform_registry.Limiter.{RateLimiter, Origin, Verdict, let_in, refused, middleware}

-- what `Log` writes
pub record AuditEntry : Type 0 where
  pub key : Bytes
  pub method : Bytes
  pub path : Bytes
  pub status : ℕ

-- What became of a request: the statuses that were written, and whether the handler ran.
pub record Outcome : Type 0 where
  pub statuses : List ℕ
  pub ran : Bool

-- `responseWriter`: the status behind the calls of `WriteHeader`
unfoldable pub written_status : ℕ → List ℕ → ℕ
written_status status [] = status
written_status status (code ∷ codes) = written_status code codes

abbrev pub answered : ℕ → Outcome
answered status = record { statuses = status ∷ []; ran = false }

-- `routeValidationMiddleware` in front of a handler
unfoldable pub validated : Option Bytes → List ℕ → Outcome
validated none handler = record { statuses = handler; ran = true }
validated (some key) handler = answered 400

unfoldable pub guarded : Guard × Answer → List (Bytes × Bytes) → List ℕ → Guard × Outcome
guarded (g, pass) vars handler = (g, validated (route_validation vars) handler)
guarded (g, unauthorized) vars handler = (g, answered 401)
guarded (g, forbidden p) vars handler = (g, answered 403)

unfoldable pub name_of_caller : Option ApiKey → Bytes
name_of_caller none = codes "anonymous"
name_of_caller (some k) = k.name

module _ (hash_key : Bytes → Bytes) where
  -- `authMiddleware` and what is behind it
  unfoldable pub protect :
      KeysFile → KeysFile → Request → List (Bytes × Bytes) → List ℕ → Guard → Guard × Outcome
  protect file later r vars handler g =
      guarded (auth_middleware hash_key file later g r) vars handler

  -- the name that is logged
  unfoldable pub find_caller : KeysFile → Guard → Bytes → Guard × Bytes
  find_caller file g [] = (g, codes "anonymous")
  find_caller file g (c ∷ key) =
      let (ks, found) = validate hash_key file g.store (c ∷ key) in
      (record g { store = ks }, name_of_caller found)

  -- `auditMiddleware`
  unfoldable pub audit_middleware :
      (Guard → Guard × Outcome)
      → KeysFile
      → Guard
      → List AuditEntry
      → Request
      → Guard × (Outcome × List AuditEntry)
  audit_middleware next file g log r =
      let (g', out) = next g in
      let (caller, name) = find_caller file g (extract_api_key r) in
      let (behind, seen) = next caller in
      if not (has_prefix r.path api_prefix) then (g', (out, log)) else (
        behind,
        (
          seen,
          log
              ++ record {
                key = name;
                method = r.method;
                path = r.path;
                status = written_status 200 seen.statuses;
              }
                ∷ [],
        ),
      )

  -- the chain from the rate limiter on
  unfoldable pub serve :
      Origin
      → ℕ
      → KeysFile
      → KeysFile
      → KeysFile
      → Request
      → List (Bytes × Bytes)
      → List ℕ
      → RateLimiter
      → Guard
      → List AuditEntry
      → RateLimiter × (Guard × (Outcome × List AuditEntry))
  serve origin now first file later r vars handler rl g log =
      let (verdict, rl') = middleware origin now rl in
      let inside = audit_middleware (protect file later r vars handler) first g log r in
      elim verdict [
        | refused status seconds ↦ (rl', (g, (answered status, log)))
        | let_in ↦ (rl', inside)
      ]
