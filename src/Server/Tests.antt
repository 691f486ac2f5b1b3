-- ===== src/Server/Tests.antt =====
-- An upload that a guarded server lets in.
use terraform_registry.Base.{ℕ, ◌≡◌, inl, inr, refl, true, false, none, some, List, [], ◌∷◌, ◌++◌}
use terraform_registry.Text.{Bytes, codes, has_prefix}
use terraform_registry.Validation.{route_validation}
use terraform_registry.Auth.Keys.{KeysFile}
use terraform_registry.Auth.Gate.{Request, Guard, api_prefix}
use terraform_registry.Auth.Tests.{hash_key, keys_file, guard, upload, store-IsValidStore}
use terraform_registry.Limiter.{RateLimiter, Origin, Visitor, let_in, middleware}
use terraform_registry.Server.{AuditEntry, serve}
use terraform_registry.Server.Audited.{MayChange, entry_of, change_is_audited}

abbrev limiter : RateLimiter
limiter = record { visitors = λ ip. none; rate = 100; window = 60; trust_proxy = false }

abbrev origin : Origin
origin = record {
  remote_addr = codes "h:1";
  host = some (codes "h");
  forwarded_for = [];
  real_ip = [];
}

abbrev created : List ℕ
created = 201 ∷ []

upload_in_api : has_prefix upload.path api_prefix ≡ true
unfolding terraform_registry.Text.has_prefix
upload_in_api = refl

upload_ran :
    (serve hash_key origin 5 keys_file keys_file keys_file upload [] created limiter guard
      []).1.1.0.ran
    ≡ true
unfolding terraform_registry.Auth.Gate.auth_middleware terraform_registry.Auth.Gate.is_public
    terraform_registry.Auth.Gate.is_read_method terraform_registry.Auth.Gate.extract_api_key
    terraform_registry.Auth.Gate.check_key terraform_registry.Auth.Gate.count_failure
    terraform_registry.Auth.Gate.private_security_read
    terraform_registry.Auth.Gate.required_permission terraform_registry.Auth.Keys.has_permission
    terraform_registry.Auth.Keys.reload terraform_registry.Auth.Keys.reload_keys
    terraform_registry.Auth.Keys.check_keys terraform_registry.Auth.Keys.migrate_key
    terraform_registry.Auth.Keys.is_known terraform_registry.Auth.Keys.seen_hash
    terraform_registry.Auth.Keys.install_keys terraform_registry.Auth.Keys.add_key
    terraform_registry.Auth.Keys.find_key terraform_registry.Auth.Keys.grants
    terraform_registry.Auth.Keys.key_grants terraform_registry.Auth.Keys.maybe_reload
    terraform_registry.Auth.Keys.validate terraform_registry.Auth.Hash.is_sha256_hex
    terraform_registry.Auth.Hash.normalize_hash terraform_registry.Auth.Hash.drop_spaces
    terraform_registry.Auth.Hash.is_ascii_space terraform_registry.Auth.Hash.is_wide_space
    terraform_registry.Auth.Hash.space_width terraform_registry.Auth.Hash.space_width_back
    terraform_registry.Auth.Hash.to_lower terraform_registry.Auth.Hash.trim_space
    terraform_registry.Text.has_prefix terraform_registry.Text.text_eq
    terraform_registry.Text.trim_prefix terraform_registry.Text.contains
    terraform_registry.Text.cut_prefix terraform_registry.Text.is_digit
    terraform_registry.Text.trim_suffix terraform_registry.Server.serve
    terraform_registry.Server.audit_middleware terraform_registry.Server.protect
    terraform_registry.Server.guarded terraform_registry.Server.validated
    terraform_registry.Server.find_caller terraform_registry.Server.name_of_caller
    terraform_registry.Server.written_status terraform_registry.Limiter.middleware
    terraform_registry.Limiter.allow terraform_registry.Limiter.take_token
    terraform_registry.Limiter.client_ip terraform_registry.Limiter.refilled
    terraform_registry.Validation.is_hex terraform_registry.Validation.route_validation
upload_ran = refl

change_is_audited_example :
    ((middleware origin 5 limiter).0 ≡ let_in)
    × ((route_validation [] ≡ none)
        × (MayChange hash_key keys_file keys_file guard upload
            × ((serve hash_key origin 5 keys_file keys_file keys_file upload [] created limiter
                  guard []).1.1.1
                ≡ [] ++ entry_of hash_key keys_file guard upload created ∷ [])))
change_is_audited_example =
    change_is_audited hash_key origin 5 keys_file keys_file keys_file upload [] created limiter
      guard [] store-IsValidStore upload_in_api (inr (inl refl)) upload_ran
