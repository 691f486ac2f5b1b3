-- ===== src/Metrics.antt =====
-- registry-server/metrics.go: the counters, the middleware that counts requests, and the text that
-- Prometheus reads. Counters are words of 64 bits; the printing of a number is a parameter.
pub mod Counted
pub mod Search
pub mod Tests
use terraform_registry.Base.{
  ℕ, zero, suc, ◌+◌, ◌-◌, ◌%◌, ◌^◌, Bool, true, false, ◌&&◌, ◌||◌, List, [], ◌∷◌, ◌++◌,
  if◌then◌else◌, ltb, leb, length, take, is_nil, not,
}
use terraform_registry.Text.{Bytes, codes, text_eq}

-- `FindingCounts`
pub record FindingCounts : Type 0 where
  pub critical : ℕ
  pub high : ℕ
  pub medium : ℕ
  pub low : ℕ

-- `RegistryMetrics`, the start in seconds
pub record RegistryMetrics : Type 0 where
  pub requests_total : ℕ
  pub requests_ok : ℕ
  pub requests_err : ℕ
  pub provider_uploads : ℕ
  pub provider_downloads : ℕ
  pub module_uploads : ℕ
  pub module_downloads : ℕ
  pub auth_failures : ℕ
  pub rate_limit_hits : ℕ
  pub scan_queued_total : ℕ
  pub scan_completed_total : ℕ
  pub scan_error_total : ℕ
  pub scan_queue_depth : ℕ
  pub scan_running : ℕ
  pub scan_findings : FindingCounts
  pub start_time : ℕ

-- `atomic.Int64.Add(1)`
abbrev pub add_one : ℕ → ℕ
add_one n = (n + 1) % 2 ^ 64

-- `metricsResponseWriter`
pub record ResponseWriter : Type 0 where
  pub status : ℕ
  pub wrote_header : Bool

-- What a handler does with its response.
pub data Answer : Type 0 where
  write_header : ℕ → Answer
  write : Bytes → Answer

unfoldable pub respond : Answer → ResponseWriter → ResponseWriter
respond (write_header code) rw =
    if rw.wrote_header then rw else record { status = code; wrote_header = true }
respond (write b) rw = if rw.wrote_header then rw else record rw { wrote_header = true }

unfoldable pub respond_all : List Answer → ResponseWriter → ResponseWriter
respond_all [] rw = rw
respond_all (a ∷ as') rw = respond_all as' (respond a rw)

-- `metricsMiddleware` up to the handler, and behind it
unfoldable pub begin_request : RegistryMetrics → RegistryMetrics
begin_request m = record m { requests_total = add_one m.requests_total }

unfoldable pub end_request : List Answer → RegistryMetrics → RegistryMetrics
end_request answers m =
    let rw = respond_all answers (record { status = 200; wrote_header = false }) in
    if ltb rw.status 400
    then record m { requests_ok = add_one m.requests_ok }
    else record m { requests_err = add_one m.requests_err }

-- `containsSubstr`: the loop over the places, which are one more than `n`
unfoldable pub contains_substr_from : ℕ → Bytes → Bytes → Bool
contains_substr_from zero s sub = text_eq (take (length sub) s) sub
contains_substr_from (suc n) [] sub = text_eq [] sub
contains_substr_from (suc n) (c ∷ s) sub =
    let rest = contains_substr_from n s sub in
    if text_eq (take (length sub) (c ∷ s)) sub then true else rest

unfoldable pub contains_substr : Bytes → Bytes → Bool
contains_substr s sub =
    if ltb (length s) (length sub)
    then false
    else contains_substr_from (length s - length sub) s sub

-- `contains`
unfoldable pub contains : Bytes → Bytes → Bool
contains s substr =
    leb (length substr) (length s)
    && (text_eq s substr || not (is_nil s) && contains_substr s substr)

-- the two lines above the values of a metric: its help and its type
abbrev pub metric_head : Bytes → Bytes → Bytes → Bytes
metric_head name help kind =
    codes "# HELP terraform_registry_"
    ++ (name
        ++ (codes " "
            ++ (help
                ++ (codes "\n# TYPE terraform_registry_"
                    ++ (name ++ (codes " " ++ (kind ++ codes "\n")))))))

abbrev pub metric_line : Bytes → Bytes → Bytes
metric_line name value =
    codes "terraform_registry_" ++ (name ++ (codes " " ++ (value ++ codes "\n")))

abbrev pub metric : Bytes → Bytes → Bytes → Bytes → Bytes
metric name help kind value = metric_head name help kind ++ metric_line name value

abbrev pub finding_line : Bytes → Bytes → Bytes
finding_line severity value =
    metric_line (codes "scan_findings_total{severity=\"" ++ (severity ++ codes "\"}")) value

unfoldable pub wants_text : Bytes → Bool
wants_text accept = contains accept (codes "text/plain") || contains accept (codes "openmetrics")

-- What is served: the text, or in JSON the counters and the seconds since the start.
pub data Served : Type 0 where
  text : Bytes → Served
  snapshot : RegistryMetrics → ℕ → Served

module _ (decimal : ℕ → Bytes) where
  -- `PrometheusFormat`, at a time
  unfoldable pub prometheus_format : ℕ → RegistryMetrics → Bytes
  prometheus_format now m =
      let counter : Bytes → Bytes → ℕ → Bytes =
        λ name help n. metric name help (codes "counter") (decimal n) in
      let gauge : Bytes → Bytes → ℕ → Bytes =
        λ name help n. metric name help (codes "gauge") (decimal n) in
      counter (codes "requests_total") (codes "Total HTTP requests") m.requests_total
      ++ (counter (codes "requests_ok") (codes "Successful HTTP requests") m.requests_ok
          ++ (counter (codes "requests_err") (codes "Error HTTP requests") m.requests_err
              ++ (counter (codes "provider_uploads") (codes "Total provider uploads")
                    m.provider_uploads
                  ++ (counter (codes "provider_downloads") (codes "Total provider downloads")
                        m.provider_downloads
                      ++ (counter (codes "module_uploads") (codes "Total module uploads")
                            m.module_uploads
                          ++ (counter (codes "module_downloads") (codes "Total module downloads")
                                m.module_downloads
                              ++ (counter (codes "auth_failures")
                                    (codes "Total authentication failures") m.auth_failures
                                  ++ (counter (codes "rate_limit_hits")
                                        (codes "Total rate limit hits") m.rate_limit_hits
                                      ++ (gauge (codes "uptime_seconds") (codes "Uptime in seconds")
                                            (now - m.start_time)
                                          ++ (gauge (codes "scan_queue_depth")
                                                (codes "Security scan jobs waiting")
                                                m.scan_queue_depth
                                              ++ (counter (codes "scan_queued_total")
                                                    (codes "Security scan jobs queued")
                                                    m.scan_queued_total
                                                  ++ (gauge (codes "scan_running")
                                                        (codes "Security scans currently running")
                                                        m.scan_running
                                                      ++ (counter (codes "scan_completed_total")
                                                            (codes "Completed security scans")
                                                            m.scan_completed_total
                                                          ++ (counter (codes "scan_errors_total")
                                                            (codes "Failed security scans")
                                                            m.scan_error_total
                                                            ++ (metric_head
                                                            (codes "scan_findings_total")
                                                            (codes
                                                            "Security findings observed by severity")
                                                            (codes "counter")
                                                            ++ (finding_line (codes "critical")
                                                            (decimal m.scan_findings.critical)
                                                            ++ (finding_line (codes "high")
                                                            (decimal m.scan_findings.high)
                                                            ++ (finding_line (codes "medium")
                                                            (decimal m.scan_findings.medium)
                                                            ++ finding_line (codes "low") (
                                                            decimal
                                                            m.scan_findings.low)))))))))))))))))))

  -- `prometheusHandler`: the text, or else the snapshot in JSON
  unfoldable pub prometheus_handler : ℕ → RegistryMetrics → Bytes → Served
  prometheus_handler now m accept =
      if wants_text accept then text (prometheus_format now m) else snapshot m (now - m.start_time)
