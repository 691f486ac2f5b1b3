-- ===== src/Manage/Upkeep.antt =====
-- registry-server/api.go and main.go: the handlers of the garbage collection and of the health check.
use terraform_registry.Base.{ℕ}
use terraform_registry.Text.{Bytes}
use terraform_registry.Disk.{Files, Result, done, fails, M, ◌>>=◌, return, attempt}
use terraform_registry.Storage.Removal.{garbage_collect, health_check}

abbrev status_of : {A : Type 0} → ℕ → Result A → ℕ
status_of bad (done a) = 200
status_of bad (fails e) = bad

-- `gcHandler`: the status
unfoldable pub gc : M ℕ
gc = attempt garbage_collect >>= λ r. return (status_of 500 r)

-- `healthHandler`: the status
unfoldable pub health : (Bytes → Files → Bytes) → M ℕ
health suffix = attempt (health_check suffix) >>= λ r. return (status_of 503 r)
