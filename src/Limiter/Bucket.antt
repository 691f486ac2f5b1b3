-- ===== src/Limiter/Bucket.antt =====
-- registry-server/middleware.go: how many requests of one client the rate limiter lets in.
use terraform_registry.Base.{
  ℕ, ◌+◌, ◌-◌, ◌*◌, ◌≤◌, ◌≡◌, refl, sym, ap, ◌∙◌, subst, arith, Bool, true, false, Bool-cases, inl,
  inr, Option, none, some, List, [], ◌∷◌, if◌then◌else◌, ltb, ◌&&◌,
}
use native.Mathlib.Nat.{add-mul, mul_comm}
use terraform_registry.Text.{Bytes, text_eq}
use terraform_registry.Text.Laws.{text_eq_iff}
use terraform_registry.Limiter.{
  Visitor, RateLimiter, take_token, refilled, fresh_only, cleanup, allow,
}

-- What happens to the limiter: a request of a client, or the cleanup, at a time.
pub data Event : Type 0 where
  request : Bytes → ℕ → Event
  sweep : ℕ → Event

abbrev pub time_of : Event → ℕ
time_of (request k t) = t
time_of (sweep t) = t

-- The times do not run back, and end before the last one.
abbrev pub InOrder : ℕ → List Event → ℕ → Type 0
InOrder start [] last = start ≤ last
InOrder start (e ∷ es) last = (start ≤ time_of e) × InOrder (time_of e) es last

-- how many requests of one client are let in
unfoldable pub count_let_in : Bytes → List Event → RateLimiter → ℕ
count_let_in ip [] rl = 0
count_let_in ip (sweep t ∷ es) rl = count_let_in ip es (cleanup t rl)
count_let_in ip (request k t ∷ es) rl =
    let (ok, rl') = allow k t rl in
    let rest = count_let_in ip es rl' in if text_eq ip k && ok then 1 + rest else rest

InOrder-last : (start : ℕ) (es : List Event) (last : ℕ) → InOrder start es last → start ≤ last
InOrder-last start [] last h = h
InOrder-last start (e ∷ es) last (h, k) = omega (arith, h, InOrder-last (time_of e) es last k)

abbrev lesser : ℕ → ℕ → ℕ
lesser m n = if ltb m n then m else n

lesser-left : (m n : ℕ) → lesser m n ≤ m
lesser-left m n = ground arith

lesser-right : (m n : ℕ) → lesser m n ≤ n
lesser-right m n = ground arith

le-lesser : (m n x : ℕ) → x ≤ m → x ≤ n → x ≤ lesser m n
le-lesser m n x h k = ground arith

module _ (rate window : ℕ) where
  -- The time between two events and the time behind them pay as the whole time does.
  elapsed_pays :
      (start now last : ℕ)
      → start ≤ now
      → now ≤ last
      → (last - start) * rate ≡ (last - now) * rate + (now - start) * rate
  elapsed_pays start now last h k =
      let e : last - start ≡ (last - now) + (now - start) = omega (arith, h, k) in
      subst (λ n. n * rate ≡ (last - now) * rate + (now - start) * rate) (sym e)
        (add-mul (last - now) (now - start) rate)

  -- what a client can spend at a time: never more than a full bucket, which lasts for `rate` requests
  abbrev credit : ℕ → Option Visitor → ℕ
  credit now none = rate * window
  credit now (some v) = lesser (rate * window) (v.tokens + (now - v.last_seen) * rate)

  -- The visitor was not seen after the time.
  abbrev Past : ℕ → Option Visitor → Type 0
  Past now none = Unit {0}
  Past now (some v) = v.last_seen ≤ now

  credit-later :
      (v : Option Visitor) (start now last : ℕ)
      → start ≤ now
      → now ≤ last
      → Past start v
      → credit now v + (last - now) * rate ≤ credit start v + (last - start) * rate
  credit-later none start now last h k p = omega (arith, elapsed_pays start now last h k)
  credit-later (some v) start now last h k p =
      ground (arith, elapsed_pays v.last_seen start now p h, elapsed_pays start now last h k)

  -- A window without a request fills a bucket.
  enough : (d n : ℕ) → window ≤ d → rate * window ≤ n + d * rate
  enough d n g =
      let e : d ≡ window + (d - window) = omega (arith, g) in
      subst (λ x. rate * window ≤ n + x * rate) (sym e)
        (omega (arith, add-mul window (d - window) rate, mul_comm rate window))

  one_more : 1 ≤ rate → (1 + (rate - 1)) * window ≡ rate * window
  one_more h = let e : 1 + (rate - 1) ≡ rate = omega (arith, h) in ap (λ n. n * window) e

  later_Past : (v : Option Visitor) (start now : ℕ) → start ≤ now → Past start v → Past now v
  later_Past none start now h p = tt
  later_Past (some v) start now h p = omega (arith, p, h)

  fresh_only-credit :
      (v : Option Visitor) (now : ℕ) → credit now (fresh_only now window v) ≤ credit now v
  unfolding fresh_only
  fresh_only-credit none now = ground arith
  fresh_only-credit (some v) now = elim (Bool-cases (ltb (window * 2) (now - v.last_seen))) [
    | inl e ↦
        rw (e, fresh_only)
          (le-lesser (rate * window) _ _ (omega arith)
            (enough (now - v.last_seen) v.tokens (ground arith)))
    | inr e ↦ rw (e, fresh_only) (omega arith)
  ]

  fresh_only-Past : (v : Option Visitor) (now : ℕ) → Past now v → Past now (fresh_only now window v)
  unfolding fresh_only
  fresh_only-Past none now p = tt
  fresh_only-Past (some v) now p = elim (Bool-cases (ltb (window * 2) (now - v.last_seen))) [
    | inl e ↦ rw (e, fresh_only) tt
    | inr e ↦ rw (e, fresh_only) p
  ]

  abbrev cost : Bool → ℕ
  cost true = window
  cost false = 0

  take_token-credit :
      (v : Option Visitor) (now : ℕ)
      → 1 ≤ rate
      → cost (take_token rate window now v).0 + (take_token rate window now v).1.tokens
        ≤ credit now v
  unfolding take_token refilled
  take_token-credit none now r = omega (arith, add-mul 1 (rate - 1) window, one_more r)
  take_token-credit (some v) now r = ground arith

  take_token-seen :
      (v : Option Visitor) (now : ℕ) → (take_token rate window now v).1.last_seen ≡ now
  unfolding take_token
  take_token-seen none now = refl
  take_token-seen (some v) now = ground arith

-- the credit of a client with the limiter at a time: at most `rate * window`
abbrev pub allowance : Bytes → ℕ → RateLimiter → ℕ
allowance ip now rl = credit rl.rate rl.window now (rl.visitors ip)

module _ (rate window : ℕ) where
  -- The client of a request pays for it.
  own_request :
      (v : Option Visitor) (t start last n : ℕ)
      → 1 ≤ rate
      → start ≤ t
      → t ≤ last
      → Past rate window start v
      → n * window ≤ credit rate window t (some (take_token rate window t v).1) + (last - t) * rate
      → (if (take_token rate window t v).0 then 1 + n else n) * window
        ≤ credit rate window start v + (last - start) * rate
  own_request v t start last n r h l p e =
      let later = credit-later rate window v start t last h l p in
      let pays = take_token-credit rate window v t r in
      let seen = take_token-seen rate window v t in
      let spent : (t - (take_token rate window t v).1.last_seen) * rate ≡ 0 =
        subst (λ s. (t - s) * rate ≡ 0) (sym seen) (none_left t) in
      counted (take_token rate window t v).0 n (take_token rate window t v).1.tokens _ _
        ((last - t) * rate) pays
        (omega (
          arith,
          e,
          spent,
          lesser-right (rate * window) (
              (take_token rate window t v).1.tokens
              + (t - (take_token rate window t v).1.last_seen) * rate),
        ))
        later
    where
      none_left : (t : ℕ) → (t - t) * rate ≡ 0
      none_left t = let z : t - t ≡ 0 = omega arith in ap (λ d. d * rate) z ∙ omega arith

      counted :
          (b : Bool) (n tokens c d x : ℕ)
          → cost rate window b + tokens ≤ c
          → n * window ≤ tokens + x
          → c + x ≤ d
          → (if b then 1 + n else n) * window ≤ d
      counted true n tokens c d x h k l = omega (arith, h, k, l, add-mul 1 n window)
      counted false n tokens c d x h k l = omega (arith, h, k, l)

-- A request keeps what its client has had and can spend within what it could spend.
request-pays :
    (ip k : Bytes) (t start last : ℕ) (rl : RateLimiter) (n : ℕ)
    → 1 ≤ rl.rate
    → start ≤ t
    → t ≤ last
    → Past rl.rate rl.window start (rl.visitors ip)
    → n * rl.window ≤ allowance ip t (allow k t rl).1 + (last - t) * rl.rate
    → (if text_eq ip k && (allow k t rl).0 then 1 + n else n) * rl.window
      ≤ allowance ip start rl + (last - start) * rl.rate
unfolding allow
request-pays ip k t start last rl n r h l p e = go (text_eq ip k) refl e
  where
    go :
        (c : Bool)
        → text_eq ip k ≡ c
        → n * rl.window
          ≤ credit rl.rate rl.window t (
              if c then some (take_token rl.rate rl.window t (rl.visitors k)).1 else rl.visitors ip)
            + (last - t) * rl.rate
        → (if c && (take_token rl.rate rl.window t (rl.visitors k)).0 then 1 + n else n) * rl.window
          ≤ credit rl.rate rl.window start (rl.visitors ip) + (last - start) * rl.rate
    go false b g =
        omega (arith, g, credit-later rl.rate rl.window (rl.visitors ip) start t last h l p)
    go true b g =
        let same : rl.visitors ip ≡ rl.visitors k = ap rl.visitors ((text_eq_iff ip k).0 b) in
        subst
          (λ v.
            (if (take_token rl.rate rl.window t (rl.visitors k)).0 then 1 + n else n) * rl.window
            ≤ credit rl.rate rl.window start v + (last - start) * rl.rate)
          (sym same)
          (own_request rl.rate rl.window (rl.visitors k) t start last n r h l
            (subst (Past rl.rate rl.window start) same p) g)

allow-Past :
    (ip k : Bytes) (t start : ℕ) (rl : RateLimiter)
    → start ≤ t
    → Past rl.rate rl.window start (rl.visitors ip)
    → Past rl.rate rl.window t ((allow k t rl).1.visitors ip)
unfolding allow
allow-Past ip k t start rl h p = go (text_eq ip k)
  where
    go :
        (c : Bool)
        → Past rl.rate rl.window t
            (if c then some (take_token rl.rate rl.window t (rl.visitors k)).1 else rl.visitors ip)
    go false = later_Past rl.rate rl.window (rl.visitors ip) start t h p
    go true = let e = take_token-seen rl.rate rl.window (rl.visitors k) t in omega (arith, e)

-- With a rate of at least one, and events whose times do not run back, the limiter lets in at most
-- so many requests of a client that they cost, each the length of the window, no more than what the
-- client can spend at the start, which is at most a full bucket however long it was away, and the rate
-- for the time from then on, whatever requests of other clients and cleanups lie between.
pub limiter_bounds :
    (ip : Bytes) (es : List Event) (rl : RateLimiter) (start last : ℕ)
    → 1 ≤ rl.rate
    → Past rl.rate rl.window start (rl.visitors ip)
    → InOrder start es last
    → count_let_in ip es rl * rl.window ≤ allowance ip start rl + (last - start) * rl.rate
unfolding count_let_in allow cleanup
limiter_bounds ip [] rl start last r p h = ground arith
limiter_bounds ip (sweep t ∷ es) rl start last r p (h, k) =
    let v : Option Visitor = rl.visitors ip in
    let seen = later_Past rl.rate rl.window v start t h p in
    let rest =
      limiter_bounds ip es (cleanup t rl) t last r (fresh_only-Past rl.rate rl.window v t seen) k in
    omega (
      arith,
      rest,
      fresh_only-credit rl.rate rl.window v t,
      credit-later rl.rate rl.window v start t last h (InOrder-last t es last k) p,
    )
limiter_bounds ip (request c t ∷ es) rl start last r p (h, k) =
    request-pays ip c t start last rl (count_let_in ip es (allow c t rl).1) r h
      (InOrder-last t es last k) p
      (limiter_bounds ip es (allow c t rl).1 t last r (allow-Past ip c t start rl h p) k)

-- No request for the length of the window.
abbrev pub Idle : ℕ → ℕ → Option Visitor → Type 0
Idle window now none = Unit {0}
Idle window now (some v) = window ≤ now - v.last_seen

Idle-let_in :
    (rate window now : ℕ) (v : Option Visitor)
    → 1 ≤ rate
    → Idle window now v
    → (take_token rate window now v).0 ≡ true
unfolding take_token refilled
Idle-let_in rate window now none r h = refl
Idle-let_in rate window now (some v) r h = ground (
  arith,
  enough rate window (now - v.last_seen) v.tokens h,
  add-mul 1 (rate - 1) window,
  one_more rate window r,
)

-- With a rate of at least one, a client that is new, or that has sent no request for the length of
-- the window, is let in.
pub allow-Idle :
    (ip : Bytes) (now : ℕ) (rl : RateLimiter)
    → 1 ≤ rl.rate
    → Idle rl.window now (rl.visitors ip)
    → (allow ip now rl).0 ≡ true
unfolding allow
allow-Idle ip now rl r h = Idle-let_in rl.rate rl.window now (rl.visitors ip) r h
