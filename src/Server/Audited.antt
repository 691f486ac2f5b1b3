-- ===== src/Server/Audited.antt =====
-- registry-server/main.go: a change by the management API has a live key, and it is in the audit log.
use terraform_registry.Base.{
  ℕ, ◌≡◌, ◌≢◌, ◌⊎◌, refl, arith, true, Option, none, some, List, [], ◌∷◌, ◌++◌,
}
use terraform_registry.Text.{Bytes, codes, has_prefix}
use terraform_registry.Validation.{route_validation}
use terraform_registry.Auth.Keys.{ApiKey, admin, write, KeysFile, maybe_reload, validate}
use terraform_registry.Auth.Reload.{IsValidStore, maybe_reload-IsValidStore}
use terraform_registry.Auth.Gate.{
  Request, Guard, Answer, pass, unauthorized, forbidden, api_prefix, extract_api_key,
  auth_middleware,
}
use terraform_registry.Auth.Access.{IsLive, mutation_needs_key}
use terraform_registry.Limiter.{RateLimiter, Origin, Verdict, let_in, refused, middleware}
use terraform_registry.Server.{
  AuditEntry, Outcome, written_status, answered, validated, guarded, protect, find_caller,
  audit_middleware, serve,
}

validated_ran :
    (o : Option Bytes) (handler : List ℕ)
    → (validated o handler).ran ≡ true
    → (o ≡ none) × ((validated o handler).statuses ≡ handler)
unfolding validated
validated_ran none handler h = (refl, refl)
validated_ran (some key) handler h = ground (arith, h)

guarded_ran :
    (o : Guard × Answer) (vars : List (Bytes × Bytes)) (handler : List ℕ)
    → (guarded o vars handler).1.ran ≡ true
    → (o.1 ≡ pass)
      × ((route_validation vars ≡ none) × ((guarded o vars handler).1.statuses ≡ handler))
unfolding guarded
guarded_ran (g, pass) vars handler h = (refl, validated_ran (route_validation vars) handler h)
guarded_ran (g, unauthorized) vars handler h = ground (arith, h)
guarded_ran (g, forbidden p) vars handler h = ground (arith, h)

module _ (hash_key : Bytes → Bytes) where
  find_caller-IsValidStore :
      (file : KeysFile) (g : Guard) (key : Bytes)
      → IsValidStore g.store
      → IsValidStore (find_caller hash_key file g key).0.store
  unfolding find_caller validate
  find_caller-IsValidStore file g [] v = v
  find_caller-IsValidStore file g (c ∷ key) v = maybe_reload-IsValidStore hash_key file g.store v

  -- The caller of a request, behind the lookup of the audit log.
  abbrev caller_of : KeysFile → Guard → Request → Guard
  caller_of first g r = (find_caller hash_key first g (extract_api_key r)).0

  -- A key that is live when the request is guarded, with the permission that a change needs.
  abbrev pub MayChange : KeysFile → KeysFile → Guard → Request → Type 0
  MayChange first file g r =
      (k : ApiKey) × IsLive (hash_key (extract_api_key r))
        (maybe_reload hash_key file
          (find_caller hash_key first g (extract_api_key r)).0.store).keys_list
        k
      × ((k.permission ≡ admin) ⊎ (k.permission ≡ write) × (r.method ≢ codes "DELETE"))

  -- the entry of a request whose handler wrote the statuses
  abbrev pub entry_of : KeysFile → Guard → Request → List ℕ → AuditEntry
  entry_of first g r statuses = record {
    key = (find_caller hash_key first g (extract_api_key r)).1;
    method = r.method;
    path = r.path;
    status = written_status 200 statuses;
  }

  module _ (origin : Origin) (now : ℕ) (first file later : KeysFile) (r : Request)
      (vars : List (Bytes × Bytes)) (handler : List ℕ) (rl : RateLimiter) (g : Guard)
      (log : List AuditEntry) where
    -- The handler ran: what let the request in, and what was logged.
    abbrev Ran : Verdict → Outcome × List AuditEntry → Type 0
    Ran v o =
        (v ≡ let_in)
        × ((route_validation vars ≡ none)
            × (MayChange first file g r × (o.1 ≡ log ++ entry_of first g r handler ∷ [])))

    audited :
        IsValidStore g.store
        → has_prefix r.path api_prefix ≡ true
        → (r.method ≡ codes "DELETE")
          ⊎ ((r.method ≡ codes "POST") ⊎ ((r.method ≡ codes "PUT") ⊎ (r.method ≡ codes "PATCH")))
        → (audit_middleware hash_key
            (protect hash_key file later r vars handler)
            first
            g
            log
            r).1.0.ran
          ≡ true
        → Ran let_in
            (audit_middleware hash_key (protect hash_key file later r vars handler) first g log r).1
    unfolding audit_middleware protect
    audited v p m h =
        let c : Guard = caller_of first g r in
        let ran : (guarded (auth_middleware hash_key file later c r) vars handler).1.ran ≡ true =
          rw p at h in
        let (a, (b, s)) = guarded_ran (auth_middleware hash_key file later c r) vars handler ran in
        (
          refl,
          (
            b,
            (
              mutation_needs_key hash_key file later c r
                  (find_caller-IsValidStore first g (extract_api_key r) v) p m a,
              rw (p, s) refl,
            ),
          ),
        )

    verdict_ran :
        (o : Verdict × RateLimiter)
        → middleware origin now rl ≡ o
        → IsValidStore g.store
        → has_prefix r.path api_prefix ≡ true
        → (r.method ≡ codes "DELETE")
          ⊎ ((r.method ≡ codes "POST") ⊎ ((r.method ≡ codes "PUT") ⊎ (r.method ≡ codes "PATCH")))
        → (serve hash_key origin now first file later r vars handler rl g log).1.1.0.ran ≡ true
        → Ran
            (middleware origin now rl).0
            (serve hash_key origin now first file later r vars handler rl g log).1.1
    unfolding serve
    verdict_ran (let_in, rl') e v p m h = rw (e, serve) (audited v p m (rw (e, serve) at h))
    verdict_ran (refused status seconds, rl') e v p m h =
        let never : (answered status).ran ≡ true = rw (e, serve) at h in ground (arith, never)

    -- With a valid key store the handler of a request of the management API that deletes, posts, puts or
    -- patches runs only if the rate limiter lets the request in, its route variables are valid and it
    -- carries the key of an enabled entry with the admin permission, or, unless it deletes, with the
    -- write permission. The audit log then has one entry more: the name that the lookup of the log found,
    -- the method, the path and the last status that the handler wrote, or else 200.
    pub change_is_audited :
        IsValidStore g.store
        → has_prefix r.path api_prefix ≡ true
        → (r.method ≡ codes "DELETE")
          ⊎ ((r.method ≡ codes "POST") ⊎ ((r.method ≡ codes "PUT") ⊎ (r.method ≡ codes "PATCH")))
        → (serve hash_key origin now first file later r vars handler rl g log).1.1.0.ran ≡ true
        → Ran
            (middleware origin now rl).0
            (serve hash_key origin now first file later r vars handler rl g log).1.1
    unfolding serve
    change_is_audited v p m h = verdict_ran (middleware origin now rl) refl v p m h
