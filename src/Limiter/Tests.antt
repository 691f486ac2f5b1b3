-- ===== src/Limiter/Tests.antt =====
-- The rate limiter on a few requests.
use terraform_registry.Base.{
  ◌+◌, ◌-◌, ◌*◌, ◌≤◌, ◌≡◌, refl, arith, true, false, none, some, List, [], ◌∷◌,
}
use terraform_registry.Text.{Bytes, codes, text_eq}
use terraform_registry.Limiter.{Visitor, RateLimiter, take_token, refilled, cleanup, allow}
use terraform_registry.Limiter.Bucket.{
  Event, request, sweep, count_let_in, allowance, limiter_bounds, allow-Idle,
}

abbrev alice : Bytes
alice = codes "10.0.0.1"

abbrev bob : Bytes
bob = codes "10.0.0.2"

-- two requests in 10 units of time
abbrev empty : RateLimiter
empty = record { visitors = λ ip. none; rate = 2; window = 10; trust_proxy = false }

abbrev events : List Event
events =
    request alice 1
    ∷ request alice 2
    ∷ request bob 2
    ∷ request alice 3
    ∷ sweep 30
    ∷ request alice 31
    ∷ []

three_let_in : count_let_in alice events empty ≡ 3
unfolding count_let_in text_eq allow take_token refilled cleanup
    terraform_registry.Limiter.fresh_only
three_let_in = refl

limiter_bounds_example :
    count_let_in alice events empty * 10 ≤ allowance alice 0 empty + (31 - 0) * 2
limiter_bounds_example = limiter_bounds alice events empty 0 31 (omega arith) tt (
  omega arith,
  (omega arith, (omega arith, (omega arith, (omega arith, (omega arith, omega arith))))),
)

-- A client that was away for long, and then spends a full bucket at once.
abbrev away : RateLimiter
away = record {
  visitors = λ ip. some (record { tokens = 0; last_seen = 0 });
  rate = 2;
  window = 10;
  trust_proxy = false;
}

full_bucket :
    count_let_in alice (request alice 900 ∷ request alice 900 ∷ request alice 900 ∷ []) away ≡ 2
unfolding count_let_in text_eq allow take_token refilled
full_bucket = refl

allow-Idle_example : (allow alice 5 empty).0 ≡ true
allow-Idle_example = allow-Idle alice 5 empty (omega arith) tt
