-- ===== src/Limiter.antt =====
-- registry-server/middleware.go: the rate limiter. Times are whole numbers of nanoseconds of a clock
-- that does not run back. The source counts tokens in floating point; here a bucket holds the exact
-- number of tokens times the window, so that a token is worth `window`. With a rate of zero the
-- source starts a bucket below zero, which refuses like an empty one.
pub mod Bucket
pub mod Tests
use terraform_registry.Base.{
  ℕ, zero, suc, ◌+◌, ◌-◌, ◌*◌, ◌/◌, Bool, true, false, not, Option, none, some, List, [], ◌∷◌,
  if◌then◌else◌, ltb, is_nil,
}
use terraform_registry.Text.{Bytes, codes, text_eq, split}

-- `visitor`
pub record Visitor : Type 0 where
  pub tokens : ℕ
  pub last_seen : ℕ

-- `RateLimiter`; the map is a function.
pub record RateLimiter : Type 0 where
  pub visitors : Bytes → Option Visitor
  pub rate : ℕ
  pub window : ℕ
  pub trust_proxy : Bool

-- a visitor that the cleanup keeps
unfoldable pub fresh_only : ℕ → ℕ → Option Visitor → Option Visitor
fresh_only now window none = none
fresh_only now window (some v) = if ltb (window * 2) (now - v.last_seen) then none else some v

-- `cleanup`
unfoldable pub cleanup : ℕ → RateLimiter → RateLimiter
cleanup now rl = record rl { visitors = λ ip. fresh_only now rl.window (rl.visitors ip) }

abbrev pub at_most : ℕ → ℕ → ℕ
at_most limit n = if ltb limit n then limit else n

-- the bucket behind the refill
unfoldable pub refilled : ℕ → ℕ → ℕ → Visitor → ℕ
refilled rate window now v = at_most (rate * window) (v.tokens + (now - v.last_seen) * rate)

-- a request of a client with this visitor, or with none: whether it is let in, and the visitor then
unfoldable pub take_token : ℕ → ℕ → ℕ → Option Visitor → Bool × Visitor
take_token rate window now none = (true, record { tokens = (rate - 1) * window; last_seen = now })
take_token rate window now (some v) =
    let n = refilled rate window now v in
    if ltb n window
    then (false, record { tokens = n; last_seen = now })
    else (true, record { tokens = n - window; last_seen = now })

-- `allow`
unfoldable pub allow : Bytes → ℕ → RateLimiter → Bool × RateLimiter
allow ip now rl =
    let (ok, v) = take_token rl.rate rl.window now (rl.visitors ip) in
    (ok, record rl { visitors = λ k. if text_eq k ip then some v else rl.visitors k })

-- What the limiter reads of a request; `host` is the host of the remote address where it splits.
pub record Origin : Type 0 where
  pub remote_addr : Bytes
  pub host : Option Bytes
  pub forwarded_for : Bytes
  pub real_ip : Bytes

abbrev pub first_of : List Bytes → Bytes
first_of [] = []
first_of (s ∷ ss) = s

unfoldable pub client_ip : Bool → Origin → Bytes
client_ip trust o =
    let direct : Bytes = elim o.host [ none ↦ o.remote_addr | some h ↦ h ] in
    let forwarded =
      if is_nil o.forwarded_for then direct else first_of (split b',' o.forwarded_for) in
    if trust then (if is_nil o.real_ip then forwarded else o.real_ip) else direct

-- `Retry-After`, in seconds
unfoldable pub retry_after : ℕ → ℕ
retry_after window = let s = window / 1000000000 in if ltb s 1 then 1 else s

-- `Middleware`: let in, or refused with the status 429 and the seconds to wait
pub data Verdict : Type 0 where
  let_in : Verdict
  refused : ℕ → ℕ → Verdict

unfoldable pub middleware : Origin → ℕ → RateLimiter → Verdict × RateLimiter
middleware o now rl =
    let (ok, rl') = allow (client_ip rl.trust_proxy o) now rl in
    (if ok then let_in else refused 429 (retry_after rl.window), rl')
