-- ===== src/Metrics/Tests.antt =====
-- The counters and the search on a few inputs.
use terraform_registry.Base.{◌+◌, ◌%◌, ◌^◌, ◌≡◌, refl, arith, true, [], ◌∷◌}
use terraform_registry.Text
use terraform_registry.Text.{Bytes, codes}
use terraform_registry.Metrics.{
  RegistryMetrics, FindingCounts, write, write_header, begin_request, end_request, contains,
  prometheus_format, wants_text,
}
use terraform_registry.Metrics.Counted.{
  Running, at_rest, begun, ended_well, ended_badly, requests_balance,
}

abbrev fresh : RegistryMetrics
fresh = record {
  requests_total = 0;
  requests_ok = 0;
  requests_err = 0;
  provider_uploads = 0;
  provider_downloads = 0;
  module_uploads = 0;
  module_downloads = 0;
  auth_failures = 0;
  rate_limit_hits = 0;
  scan_queued_total = 0;
  scan_completed_total = 0;
  scan_error_total = 0;
  scan_queue_depth = 0;
  scan_running = 0;
  scan_findings = record { critical = 0; high = 0; medium = 0; low = 0 };
  start_time = 0;
}

-- Three requests begin, and two of them end: with a header of status 400, and without a header.
abbrev busy : RegistryMetrics
busy = end_request (write (codes "ok") ∷ []) (
    end_request (write_header 400 ∷ write_header 200 ∷ [])
      (begin_request (begin_request (begin_request fresh))))

busy-Running : Running 1 1 1 busy
busy-Running = ended_well 1 0 1 _ (write (codes "ok") ∷ []) (omega arith) (
    ended_badly 2 0 0 _ (write_header 400 ∷ write_header 200 ∷ []) (omega arith)
      (begun 2 0 0 _ (begun 1 0 0 _ (begun 0 0 0 fresh (at_rest 0 0 fresh refl refl refl)))))

requests_balance_example :
    (busy.requests_ok ≡ 1 % 2 ^ 64)
    × (busy.requests_err ≡ 1 % 2 ^ 64)
    × (busy.requests_total ≡ (1 + 1 + 1) % 2 ^ 64)
requests_balance_example = requests_balance 1 1 1 busy busy-Running

text_is_wanted : wants_text (codes "application/openmetrics-text") ≡ true
unfolding wants_text contains Text.text_eq terraform_registry.Metrics.contains_substr
    terraform_registry.Metrics.contains_substr_from
text_is_wanted = refl
