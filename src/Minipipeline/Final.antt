-- ===== src/Minipipeline/Final.antt =====
-- pkg/minipipeline/analysis.go: the final response and the analysis as a whole.
use ooni_probe_engine.Prelude.{
  String, Bool, true, false, not, Option, none, some, List, [], ◌∷◌, str_eq, is_set, if◌then◌else◌,
}
use ooni_probe_engine.Prelude.Int.{ℤ, pos, ltb_ℤ}
use ooni_probe_engine.Prelude.Golang.{Float64}
use ooni_probe_engine.Prelude.Outcome.{Outcome, returned, panicked, ◌>>=◌}
use ooni_probe_engine.Optional.{unwrap_or}
use ooni_probe_engine.Minipipeline.HttpDiff.{
  compute_http_diff_body_proportion_factor, compute_http_diff_status_code_match,
  compute_http_diff_uncommon_headers_intersection, compute_http_diff_title_different_long_words,
}
use ooni_probe_engine.Minipipeline.Environment.{Environment}
use ooni_probe_engine.Minipipeline.Observation.{WebObservation, WebObservationsContainer}
use ooni_probe_engine.Minipipeline.Analysis.{FailureSets, WebAnalysis, is_true, is_success}
use ooni_probe_engine.Minipipeline.Analysis.Dns.{
  dns_compute_success_metrics, dns_compute_success_metrics_classic,
}
use ooni_probe_engine.Minipipeline.Analysis.Failures.{dns_compute_failure_metrics}
use ooni_probe_engine.Minipipeline.Analysis.Endpoints.{
  tcp_compute_metrics, tls_compute_metrics, http_compute_failure_metrics,
}

-- value > 0
abbrev pub is_positive : ℤ → Bool
is_positive value = ltb_ℤ (pos 0) value

abbrev pub int_or_zero : Option ℤ → ℤ
int_or_zero value = unwrap_or value (pos 0)

abbrev no_failures : FailureSets
no_failures = record {
  expected_failure = [];
  unexpected_failure = [];
  unexpected_failure_during_web_fetch = [];
  unexpected_failure_during_connectivity_check = [];
  unexplained_failure = [];
  unexplained_failure_during_web_fetch = [];
  unexplained_failure_during_connectivity_check = [];
}

module _ (F : Float64) (env : Environment) where
  unfoldable pub http_diff_body_proportion_factor :
      WebObservation → WebAnalysis F.Float → WebAnalysis F.Float
  http_diff_body_proportion_factor obs wa =
      let measurement = int_or_zero obs.http_response_body_length in
      let control = int_or_zero obs.control_http_response_body_length in
      if not (unwrap_or obs.http_response_is_final false)
      then wa
      else if not (is_positive measurement)
      then wa
      else if unwrap_or obs.http_response_body_is_truncated true
      then wa
      else if not (is_positive control)
      then wa
      else record wa {
        http_final_response_diff_body_proportion_factor =
            some (compute_http_diff_body_proportion_factor F measurement control);
      }

  unfoldable pub http_diff_status_code_match :
      WebObservation → WebAnalysis F.Float → WebAnalysis F.Float
  http_diff_status_code_match obs wa =
      let measurement = int_or_zero obs.http_response_status_code in
      let control = int_or_zero obs.control_http_response_status_code in
      if not (unwrap_or obs.http_response_is_final false)
      then wa
      else if not (is_positive measurement)
      then wa
      else if not (is_positive control)
      then wa
      else record wa {
        http_final_response_diff_status_code_match =
            compute_http_diff_status_code_match measurement control;
      }

  unfoldable pub http_diff_uncommon_headers_intersection :
      WebObservation → WebAnalysis F.Float → WebAnalysis F.Float
  http_diff_uncommon_headers_intersection obs wa =
      if not (unwrap_or obs.http_response_is_final false)
      then wa
      else if not (is_positive (int_or_zero obs.control_http_response_status_code))
      then wa
      else record wa {
        http_final_response_diff_uncommon_headers_intersection = some (
            compute_http_diff_uncommon_headers_intersection env.to_lower
              (unwrap_or obs.http_response_headers_keys [])
              (unwrap_or obs.control_http_response_headers_keys []));
      }

  unfoldable pub http_diff_title_different_long_words :
      WebObservation → WebAnalysis F.Float → WebAnalysis F.Float
  http_diff_title_different_long_words obs wa =
      if not (unwrap_or obs.http_response_is_final false)
      then wa
      else if not (is_positive (int_or_zero obs.control_http_response_status_code))
      then wa
      else record wa {
        http_final_response_diff_title_different_long_words = some (
            compute_http_diff_title_different_long_words env.to_lower env.byte_length
              env.split_words (unwrap_or obs.http_response_title "")
              (unwrap_or obs.control_http_response_title ""));
      }

  -- The four comparisons, in their order.
  unfoldable pub http_diff : WebObservation → WebAnalysis F.Float → WebAnalysis F.Float
  http_diff obs wa = http_diff_title_different_long_words obs (
      http_diff_uncommon_headers_intersection obs
        (http_diff_status_code_match obs (http_diff_body_proportion_factor obs wa)))

  -- With the failure of the handshake, if there was one; the code asserts that it did not fail.
  unfoldable pub with_control :
      WebObservation → Option String → WebAnalysis F.Float → Outcome (WebAnalysis F.Float)
  unfolding http_diff
  with_control obs none wa = returned (
      http_diff obs
        (record wa { http_final_response_success_tcp_with_control = obs.endpoint_transaction_id }))
  with_control obs (some failure) wa =
      if str_eq failure ""
      then returned (
          http_diff obs (record wa {
            http_final_response_success_tls_with_control = obs.endpoint_transaction_id;
          }))
      else panicked

  unfoldable pub http_handle_final_response :
      WebObservation → WebAnalysis F.Float → Outcome (WebAnalysis F.Float)
  unfolding with_control
  http_handle_final_response obs wa =
      if not (is_set obs.control_http_failure)
      then (if is_success obs.tls_handshake_failure
          then returned (record wa {
            http_final_response_success_tls_without_control = obs.endpoint_transaction_id;
          })
          else returned (record wa {
            http_final_response_success_tcp_without_control = obs.endpoint_transaction_id;
          }))
      else with_control obs obs.tls_handshake_failure wa

  -- The loop of httpComputeFinalResponseMetrics, which stops at the first final response.
  unfoldable pub final_loop :
      List (ℤ × WebObservation) → WebAnalysis F.Float → Outcome (WebAnalysis F.Float)
  unfolding http_handle_final_response
  final_loop [] wa = returned wa
  final_loop ((key, obs) ∷ entries) wa =
      let rest = final_loop entries wa in
      if is_true obs.http_response_is_final then http_handle_final_response obs wa else rest

  unfoldable pub http_compute_final_response_metrics :
      WebObservationsContainer → WebAnalysis F.Float → Outcome (WebAnalysis F.Float)
  unfolding final_loop
  http_compute_final_response_metrics c wa = final_loop c.known_tcp_endpoints wa

  unfoldable pub new_web_analysis : WebObservationsContainer → WebAnalysis F.Float
  new_web_analysis c = record {
    control_expectations = c.control_expectations;
    dns_lookup_success = [];
    dns_lookup_success_with_invalid_addresses = [];
    dns_lookup_success_with_valid_address = [];
    dns_lookup_success_with_bogon_addresses = [];
    dns_lookup_success_with_invalid_addresses_classic = [];
    dns_lookup_success_with_valid_address_classic = [];
    dns_lookup_unexpected_failure = [];
    dns_lookup_unexplained_failure = [];
    dns_experiment_failure = none;
    dns_lookup_expected_failure = [];
    dns_lookup_expected_success = [];
    tcp_connect = no_failures;
    tls_handshake = no_failures;
    http_round_trip_unexpected_failure = [];
    http_round_trip_unexplained_failure = [];
    http_final_response_success_tls_without_control = none;
    http_final_response_success_tls_with_control = none;
    http_final_response_success_tcp_without_control = none;
    http_final_response_success_tcp_with_control = none;
    http_final_response_diff_body_proportion_factor = none;
    http_final_response_diff_status_code_match = none;
    http_final_response_diff_title_different_long_words = none;
    http_final_response_diff_uncommon_headers_intersection = none;
    linear = [];
  }

  unfoldable pub analyze_web_observations_without_linear_analysis :
      WebObservationsContainer → Outcome (WebAnalysis F.Float)
  unfolding new_web_analysis http_compute_final_response_metrics
  analyze_web_observations_without_linear_analysis c = do
    success ← dns_compute_success_metrics env c (new_web_analysis c)
    classic ← dns_compute_success_metrics_classic env c success
    failure ← dns_compute_failure_metrics c classic
    tcp ← tcp_compute_metrics env c failure
    tls ← tls_compute_metrics c tcp
    http ← http_compute_failure_metrics c tls
    http_compute_final_response_metrics c http
