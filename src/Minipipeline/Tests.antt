-- ===== src/Minipipeline/Tests.antt =====
-- Tests of the measurement pipeline at concrete inputs.
use ooni_probe_engine.Prelude.{
  true, arith, ℕ, String, false, not, ◌&&◌, ◌||◌, ◌≡◌, refl, ap, ◌∙◌, none, [], ◌∷◌, str_eq,
}
use ooni_probe_engine.Prelude.Int.{pos}
use ooni_probe_engine.Prelude.Keys.{int_eq, string_key, int_key}
use ooni_probe_engine.Prelude.Outcome.{Outcome, panicked, returned, Returns, Returns-value}
use ooni_probe_engine.Enginenetx.Samples.{floats}
use ooni_probe_engine.Minipipeline.WellFormed.Answers
use ooni_probe_engine.Minipipeline.WellFormed.Answers.Measured
use ooni_probe_engine.Minipipeline.Loops.{Ends, no_nil}
use ooni_probe_engine.Minipipeline.Set.{contains}
use ooni_probe_engine.Minipipeline.Samples.{environment, asn_table, measurement, container}
use ooni_probe_engine.Minipipeline.DnsDiff
use ooni_probe_engine.Minipipeline.HttpDiff
use ooni_probe_engine.Minipipeline.Control.{
  Ingested, ingest_failed, ingested, ingest_web_measurement,
}
use ooni_probe_engine.Minipipeline.Observation.{WebObservationsContainer}
use ooni_probe_engine.Minipipeline.WellFormed.{IsWellFormed}
use ooni_probe_engine.Minipipeline.WellFormed.Measurement
use ooni_probe_engine.Minipipeline.Analysis.{WebAnalysis}
use ooni_probe_engine.Minipipeline.Analysis.Endpoints
use ooni_probe_engine.Minipipeline.Analysis.Failures
use ooni_probe_engine.Minipipeline.Analysis.Dns
use ooni_probe_engine.Minipipeline.Analysis.Membership
use ooni_probe_engine.Minipipeline.Analysis.DnsFailures
use ooni_probe_engine.Minipipeline.Analysis.DnsValidity
use ooni_probe_engine.Minipipeline.Analysis.First
use ooni_probe_engine.Minipipeline.Analysis.DnsSuccesses
use ooni_probe_engine.Minipipeline.Verdicts.Lookups
use ooni_probe_engine.Minipipeline.Analysis.RoundTrips
use ooni_probe_engine.Minipipeline.Final
use ooni_probe_engine.Minipipeline.Totality
use ooni_probe_engine.Minipipeline.Classic
use ooni_probe_engine.Minipipeline.Classic.Kept

container-IsWellFormed : IsWellFormed container
unfolding IsWellFormed
container-IsWellFormed = (
  ((refl, refl, refl, refl), tt),
  (((refl, refl, refl, refl), refl, refl, refl), tt),
  ((refl, refl, refl, refl), tt),
)

empty_analysis : WebAnalysis ℕ
unfolding floats
empty_analysis = Final.new_web_analysis floats environment container

contains-dns_diff_find_common_ip_address_intersection_example :
    contains {K = String}
      (DnsDiff.dns_diff_find_common_ip_address_intersection
        ("8.8.8.8" ∷ "1.1.1.1" ∷ [])
        ("1.1.1.1" ∷ []))
      "1.1.1.1"
    ≡ (not (str_eq "1.1.1.1" "")
        && (contains {K = String} ("8.8.8.8" ∷ "1.1.1.1" ∷ []) "1.1.1.1"
            && contains {K = String} ("1.1.1.1" ∷ []) "1.1.1.1"))
contains-dns_diff_find_common_ip_address_intersection_example =
    DnsDiff.contains-dns_diff_find_common_ip_address_intersection ("8.8.8.8" ∷ "1.1.1.1" ∷ [])
      ("1.1.1.1" ∷ []) "1.1.1.1"

contains-dns_diff_find_common_asns_intersection_example :
    contains
      (DnsDiff.dns_diff_find_common_asns_intersection asn_table ("8.8.8.8" ∷ []) ("8.8.4.4" ∷ []))
      (pos 15169)
    ≡ (not (int_eq (pos 15169) (pos 0))
        && (DnsDiff.has_asn asn_table ("8.8.8.8" ∷ []) (pos 15169)
            && DnsDiff.has_asn asn_table ("8.8.4.4" ∷ []) (pos 15169)))
contains-dns_diff_find_common_asns_intersection_example =
    DnsDiff.contains-dns_diff_find_common_asns_intersection asn_table ("8.8.8.8" ∷ [])
      ("8.8.4.4" ∷ []) (pos 15169)

contains-compute_http_diff_uncommon_headers_intersection_example :
    contains
      (HttpDiff.compute_http_diff_uncommon_headers_intersection
        (λ s. s)
        ("x-probe" ∷ "date" ∷ [])
        ("date" ∷ "x-probe" ∷ []))
      "x-probe"
    ≡ (not (contains HttpDiff.http_diff_common_headers "x-probe")
        && (HttpDiff.has_header (λ s. s) ("x-probe" ∷ "date" ∷ []) "x-probe"
            && HttpDiff.has_header (λ s. s) ("date" ∷ "x-probe" ∷ []) "x-probe"))
contains-compute_http_diff_uncommon_headers_intersection_example =
    HttpDiff.contains-compute_http_diff_uncommon_headers_intersection (λ s. s)
      ("x-probe" ∷ "date" ∷ []) ("date" ∷ "x-probe" ∷ []) "x-probe"

contains-compute_http_diff_title_different_long_words_example :
    contains
      (HttpDiff.compute_http_diff_title_different_long_words
        (λ s. s)
        (λ s. 7)
        (λ s. s ∷ [])
        "Blocked"
        "Example")
      "Example"
    ≡ ((HttpDiff.has_long_word (λ s. s) (λ s. 7) (λ s. s ∷ []) ("Blocked" ∷ []) "Example"
          || HttpDiff.has_long_word (λ s. s) (λ s. 7) (λ s. s ∷ []) ("Example" ∷ []) "Example")
        && not (
            HttpDiff.has_long_word (λ s. s) (λ s. 7) (λ s. s ∷ []) ("Blocked" ∷ []) "Example"
            && HttpDiff.has_long_word (λ s. s) (λ s. 7) (λ s. s ∷ []) ("Example" ∷ []) "Example"))
contains-compute_http_diff_title_different_long_words_example =
    HttpDiff.contains-compute_http_diff_title_different_long_words (λ s. s) (λ s. 7) (λ s. s ∷ [])
      "Blocked" "Example" "Example"

ingest_web_measurement-IsResult_example :
    Ends
      (Measurement.is_nil_free environment measurement.test_keys)
      (Measurement.IsResult (Measurement.expected_error environment measurement.test_keys))
      (ingest_web_measurement environment measurement)
ingest_web_measurement-IsResult_example =
    Measurement.ingest_web_measurement-IsResult environment measurement

tcp_compute_metrics-Classified_example :
    Returns
      (λ (new : WebAnalysis ℕ).
        (new ≡ record empty_analysis { tcp_connect = new.tcp_connect })
        × Membership.Classified
            (Membership.tcp_facts environment)
            container.known_tcp_endpoints
            (pos 3)
            empty_analysis.tcp_connect
            new.tcp_connect)
      (Endpoints.tcp_compute_metrics environment container empty_analysis)
tcp_compute_metrics-Classified_example =
    Membership.tcp_compute_metrics-Classified environment container empty_analysis (pos 3)
      container-IsWellFormed

tls_compute_metrics-Classified_example :
    Returns
      (λ (new : WebAnalysis ℕ).
        (new ≡ record empty_analysis { tls_handshake = new.tls_handshake })
        × Membership.Classified Membership.tls_facts container.known_tcp_endpoints
            (pos 3)
            empty_analysis.tls_handshake
            new.tls_handshake)
      (Endpoints.tls_compute_metrics container empty_analysis)
tls_compute_metrics-Classified_example =
    Membership.tls_compute_metrics-Classified container empty_analysis (pos 3)
      container-IsWellFormed

contains-http_compute_failure_metrics_example :
    Returns
      (RoundTrips.RoundTripsDecided container empty_analysis (pos 3))
      (Endpoints.http_compute_failure_metrics container empty_analysis)
contains-http_compute_failure_metrics_example =
    RoundTrips.contains-http_compute_failure_metrics container empty_analysis (pos 3)
      container-IsWellFormed

contains-dns_compute_failure_metrics_example :
    Returns
      (DnsFailures.FailuresDecided container empty_analysis (pos 2))
      (Failures.dns_compute_failure_metrics container empty_analysis)
contains-dns_compute_failure_metrics_example =
    DnsFailures.contains-dns_compute_failure_metrics container empty_analysis (pos 2)
      container-IsWellFormed

contains-dns_compute_success_metrics_example :
    Returns
      (DnsValidity.SuccessesDecided environment container empty_analysis (pos 1))
      (Dns.dns_compute_success_metrics environment container empty_analysis)
contains-dns_compute_success_metrics_example =
    DnsValidity.contains-dns_compute_success_metrics environment container empty_analysis (pos 1)
      container-IsWellFormed

classic_filter-Kept_example :
    Returns (Kept.Filtered container "8.8.8.8" (pos 3)) (Classic.classic_filter container)
classic_filter-Kept_example =
    Kept.classic_filter-Kept container "8.8.8.8" (pos 3) container-IsWellFormed

ingested_of :
    (r : Ingested)
    → Measurement.error_of r ≡ none
    → (c : WebObservationsContainer) × (r ≡ ingested c)
unfolding Measurement.error_of
ingested_of (ingest_failed e) h = cc
ingested_of (ingested c) h = (c, refl)

measurement-ingested :
    (c : WebObservationsContainer) × (ingest_web_measurement environment measurement
      ≡ returned (ingested c))
unfolding Measurement.IsResult Measurement.expected_error Measurement.control_error environment
    Measurement.is_nil_free no_nil
measurement-ingested =
    let value = Returns-value _ ingest_web_measurement-IsResult_example in
    let c = ingested_of (value.0) value.2.0 in (c.0, value.1 ∙ ap returned c.1)

any_lookup-ingest_web_measurement_example :
    Answers.any_lookup measurement-ingested.0.dns_lookup_successes (pos 1) "8.8.8.8"
    ≡ Answers.any_resolves (Measured.queries_of measurement.test_keys) (pos 1) "8.8.8.8"
any_lookup-ingest_web_measurement_example =
    Measured.any_lookup-ingest_web_measurement environment (pos 1) "8.8.8.8" measurement
      (measurement-ingested.0) measurement-ingested.1

analyze_ingested-is_returned_example :
    Totality.is_returned (
      Final.analyze_web_observations_without_linear_analysis floats environment
        (measurement-ingested.0))
    ≡ not (Totality.asserts measurement-ingested.0.known_tcp_endpoints)
analyze_ingested-is_returned_example =
    Totality.analyze_ingested-is_returned floats environment measurement (measurement-ingested.0)
      measurement-ingested.1

container_asserts : Totality.asserts container.known_tcp_endpoints ≡ false
unfolding Totality.asserts
container_asserts = refl

value_of :
    (m : Outcome (WebAnalysis floats.Float))
    → Totality.is_returned m ≡ true
    → (out : WebAnalysis floats.Float) × (m ≡ returned out)
value_of (returned out) h = (out, refl)
value_of panicked h = cc

container-analyzed :
    (out : WebAnalysis floats.Float) × (Final.analyze_web_observations_without_linear_analysis
        floats environment container
      ≡ returned out)
container-analyzed = value_of _ (
    ground (
      arith,
      Totality.analysis-is_returned floats environment container container-IsWellFormed,
      container_asserts,
    ))

analysis-valid_or_invalid_example :
    (contains container-analyzed.0.dns_lookup_success_with_valid_address (pos 1) ≡ (
      DnsValidity.any_validated container.known_tcp_endpoints (pos 1)
      || First.first_passes
          (DnsSuccesses.is_valid_lookup environment)
          container.dns_lookup_successes
          (pos 1)))
    × (contains container-analyzed.0.dns_lookup_success_with_invalid_addresses (pos 1) ≡ (
        First.first_passes
          (DnsSuccesses.is_invalid_lookup environment)
          container.dns_lookup_successes
          (pos 1)
        && not (DnsValidity.any_validated container.known_tcp_endpoints (pos 1))))
    × ((contains container-analyzed.0.dns_lookup_success_with_valid_address (pos 1)
          && contains container-analyzed.0.dns_lookup_success_with_invalid_addresses (pos 1))
        ≡ false)
analysis-valid_or_invalid_example =
    Lookups.analysis-valid_or_invalid floats environment container (container-analyzed.0) (pos 1)
      container-IsWellFormed container-analyzed.1
