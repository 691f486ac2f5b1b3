-- ===== src/Metrics/Counted.antt =====
-- registry-server/metrics.go: every request that was counted is running, or counted by its outcome.
use terraform_registry.Base.{
  ℕ, ◌+◌, ◌%◌, ◌^◌, ◌≤◌, ◌<◌, ◌≡◌, refl, ap, arith, true, false, List, [], ◌∷◌,
}
use terraform_registry.Metrics.{
  RegistryMetrics, ResponseWriter, Answer, write_header, write, respond_all, begin_request,
  end_request,
}

-- The status that the client sees: that of the first header, and 200 where bytes or the end of the
-- handler come before a header.
abbrev pub status_sent : List Answer → ℕ
status_sent [] = 200
status_sent (write_header code ∷ rest) = code
status_sent (write b ∷ rest) = 200

respond_all-wrote :
    (answers : List Answer) (code : ℕ)
    → respond_all answers (record { status = code; wrote_header = true })
      ≡ record { status = code; wrote_header = true }
unfolding respond_all terraform_registry.Metrics.respond
respond_all-wrote [] code = refl
respond_all-wrote (write_header c ∷ rest) code = respond_all-wrote rest code
respond_all-wrote (write b ∷ rest) code = respond_all-wrote rest code

status-sent :
    (answers : List Answer)
    → (respond_all answers (record { status = 200; wrote_header = false })).status
      ≡ status_sent answers
unfolding respond_all terraform_registry.Metrics.respond
status-sent [] = refl
status-sent (write_header code ∷ rest) =
    ap (λ (r : ResponseWriter). r.status) (respond_all-wrote rest code)
status-sent (write b ∷ rest) = ap (λ (r : ResponseWriter). r.status) (respond_all-wrote rest 200)

-- The states that requests come to which begin and end in any order: how many are running, how many
-- have been answered with a status below 400, and how many with another.
pub data Running : ℕ → ℕ → ℕ → RegistryMetrics → Type 0 where
  at_rest :
      (served failed : ℕ) (m : RegistryMetrics)
      → m.requests_ok ≡ served % 2 ^ 64
      → m.requests_err ≡ failed % 2 ^ 64
      → m.requests_total ≡ (served + failed) % 2 ^ 64
      → Running 0 served failed m
  begun :
      (n served failed : ℕ) (m : RegistryMetrics)
      → Running n served failed m
      → Running (1 + n) served failed (begin_request m)
  ended_well :
      (n served failed : ℕ) (m : RegistryMetrics) (answers : List Answer)
      → status_sent answers < 400
      → Running (1 + n) served failed m
      → Running n (1 + served) failed (end_request answers m)
  ended_badly :
      (n served failed : ℕ) (m : RegistryMetrics) (answers : List Answer)
      → 400 ≤ status_sent answers
      → Running (1 + n) served failed m
      → Running n served (1 + failed) (end_request answers m)

-- Up to the wrap of the counters, the requests counted as good are those answered with a status below
-- 400, the requests counted as errors are those answered with another, and the requests counted in all
-- are these and the running ones.
pub requests_balance :
    (n served failed : ℕ) (m : RegistryMetrics)
    → Running n served failed m
    → (m.requests_ok ≡ served % 2 ^ 64)
      × (m.requests_err ≡ failed % 2 ^ 64)
      × (m.requests_total ≡ (served + failed + n) % 2 ^ 64)
unfolding begin_request end_request
requests_balance _ _ _ _ (at_rest s f m a b c) = (a, b, omega (arith, c))
requests_balance _ _ _ _ (begun k s f m' r) =
    let (a, b, c) = requests_balance k s f m' r in (a, b, omega (arith, c))
requests_balance _ _ _ _ (ended_well k s f m' answers l r) =
    let (a, b, c) = requests_balance (1 + k) s f m' r in ground (arith, status-sent answers)
requests_balance _ _ _ _ (ended_badly k s f m' answers l r) =
    let (a, b, c) = requests_balance (1 + k) s f m' r in ground (arith, status-sent answers)
