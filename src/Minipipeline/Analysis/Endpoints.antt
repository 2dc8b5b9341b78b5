-- ===== src/Minipipeline/Analysis/Endpoints.antt =====
-- pkg/minipipeline/analysis.go: tcpComputeMetrics, tlsComputeMetrics and httpComputeFailureMetrics. The
-- first two have the same body but for the test of a misconfigured IPv6, which the second lacks.
use ooni_probe_engine.Prelude.{
  String, Bool, true, false, not, ◌&&◌, Option, none, some, str_eq, if◌then◌else◌,
}
use ooni_probe_engine.Prelude.Int.{ℤ}
use ooni_probe_engine.Prelude.Keys.{string_key, int_key}
use ooni_probe_engine.Prelude.Outcome.{Outcome, returned, ◌>>=◌}
use ooni_probe_engine.Optional.{unwrap}
use ooni_probe_engine.Minipipeline.Set.{add_one}
use ooni_probe_engine.Minipipeline.Environment.{Environment}
use ooni_probe_engine.Minipipeline.Loops.{each_or_panic}
use ooni_probe_engine.Minipipeline.Observation.{WebObservation, WebObservationsContainer}
use ooni_probe_engine.Minipipeline.Utils.{tcp_connect_failure_seems_misconfigured_ipv6}
use ooni_probe_engine.Minipipeline.Analysis.{FailureSets, WebAnalysis, at_depth_zero}

unfoldable pub add_unexplained : Option Bool → ℤ → FailureSets → FailureSets
add_unexplained fetch_body txid sets =
    let all : FailureSets = record sets {
      unexplained_failure = add_one txid sets.unexplained_failure;
    } in
    elim fetch_body as (λ o. FailureSets) [
      | none ↦ all
      | some true ↦ record all {
        unexplained_failure_during_web_fetch =
            add_one txid sets.unexplained_failure_during_web_fetch;
      }
      | some false ↦ record all {
        unexplained_failure_during_connectivity_check =
            add_one txid sets.unexplained_failure_during_connectivity_check;
      }
    ]

unfoldable pub add_unexpected : Option Bool → ℤ → FailureSets → FailureSets
add_unexpected fetch_body txid sets =
    let all : FailureSets = record sets {
      unexpected_failure = add_one txid sets.unexpected_failure;
    } in
    elim fetch_body as (λ o. FailureSets) [
      | none ↦ all
      | some true ↦ record all {
        unexpected_failure_during_web_fetch = add_one txid sets.unexpected_failure_during_web_fetch;
      }
      | some false ↦ record all {
        unexpected_failure_during_connectivity_check =
            add_one txid sets.unexpected_failure_during_connectivity_check;
      }
    ]

unfoldable pub add_expected : ℤ → FailureSets → FailureSets
add_expected txid sets = record sets { expected_failure = add_one txid sets.expected_failure }

-- set.Add(obs.EndpointTransactionID.Unwrap())
unfoldable pub with_txid : Option ℤ → (ℤ → FailureSets) → Outcome FailureSets
with_txid endpoint_txid f = do txid ← unwrap endpoint_txid; returned (f txid)

-- With the failure of the probe, beyond depth zero.
unfoldable pub redirected :
    Option ℤ → Option Bool → Bool → String → FailureSets → Outcome FailureSets
unfolding add_unexplained with_txid
redirected endpoint_txid fetch_body misconfigured failure sets =
    if misconfigured
    then returned sets
    else if not (str_eq failure "")
    then with_txid endpoint_txid (λ txid. add_unexplained fetch_body txid sets)
    else returned sets

-- With the failures of the probe and of the control, at depth zero.
unfoldable pub with_control :
    Option ℤ → Option Bool → Bool → String → Option String → FailureSets → Outcome FailureSets
unfolding add_unexpected add_expected with_txid
with_control endpoint_txid fetch_body misconfigured failure none sets = returned sets
with_control endpoint_txid fetch_body misconfigured failure (some control) sets =
    if not (str_eq failure "") && not (str_eq control "")
    then with_txid endpoint_txid (λ txid. add_expected txid sets)
    else if not (str_eq control "")
    then returned sets
    else if not (str_eq failure "")
    then (if misconfigured
        then returned sets
        else with_txid endpoint_txid (λ txid. add_unexpected fetch_body txid sets))
    else returned sets

unfoldable pub measured :
    Option ℤ
    → Option Bool
    → Bool
    → Bool
    → Option String
    → Option String
    → FailureSets
    → Outcome FailureSets
unfolding redirected with_control
measured endpoint_txid fetch_body depth_zero misconfigured none control sets = returned sets
measured endpoint_txid fetch_body depth_zero misconfigured (some failure) control sets =
    if depth_zero
    then with_control endpoint_txid fetch_body misconfigured failure control sets
    else redirected endpoint_txid fetch_body misconfigured failure sets

unfoldable pub tcp_body : Environment → ℤ × WebObservation → FailureSets → Outcome FailureSets
unfolding measured
tcp_body env (key, obs) sets =
    measured obs.endpoint_transaction_id obs.tag_fetch_body (at_depth_zero obs.tag_depth)
      (tcp_connect_failure_seems_misconfigured_ipv6 env obs) obs.tcp_connect_failure
      obs.control_tcp_connect_failure sets

unfoldable pub tls_body : ℤ × WebObservation → FailureSets → Outcome FailureSets
unfolding measured
tls_body (key, obs) sets =
    measured obs.endpoint_transaction_id obs.tag_fetch_body (at_depth_zero obs.tag_depth) false
      obs.tls_handshake_failure obs.control_tls_handshake_failure sets

module _ {Float : Type 0} where
  unfoldable pub tcp_compute_metrics :
      Environment → WebObservationsContainer → WebAnalysis Float → Outcome (WebAnalysis Float)
  unfolding tcp_body
  tcp_compute_metrics env c wa = do
    sets ← each_or_panic (tcp_body env) c.known_tcp_endpoints wa.tcp_connect
    returned (record wa { tcp_connect = sets })

  unfoldable pub tls_compute_metrics :
      WebObservationsContainer → WebAnalysis Float → Outcome (WebAnalysis Float)
  unfolding tls_body
  tls_compute_metrics c wa = do
    sets ← each_or_panic tls_body c.known_tcp_endpoints wa.tls_handshake
    returned (record wa { tls_handshake = sets })

  -- With the failures of the probe and of the control.
  unfoldable pub http_measured :
      Option ℤ → Option String → Option String → WebAnalysis Float → Outcome (WebAnalysis Float)
  http_measured endpoint_txid none control wa = returned wa
  http_measured endpoint_txid (some failure) none wa =
      if not (str_eq failure "")
      then (do
        txid ← unwrap endpoint_txid
        returned (record wa {
          http_round_trip_unexplained_failure = add_one txid wa.http_round_trip_unexplained_failure;
        }))
      else returned wa
  http_measured endpoint_txid (some failure) (some control) wa =
      if not (str_eq failure "") && not (str_eq control "")
      then returned wa
      else if not (str_eq control "")
      then returned wa
      else if not (str_eq failure "")
      then (do
        txid ← unwrap endpoint_txid
        returned (record wa {
          http_round_trip_unexpected_failure = add_one txid wa.http_round_trip_unexpected_failure;
        }))
      else returned wa

  unfoldable pub http_body : ℤ × WebObservation → WebAnalysis Float → Outcome (WebAnalysis Float)
  unfolding http_measured
  http_body (key, obs) wa =
      http_measured obs.endpoint_transaction_id obs.http_failure obs.control_http_failure wa

  unfoldable pub http_compute_failure_metrics :
      WebObservationsContainer → WebAnalysis Float → Outcome (WebAnalysis Float)
  unfolding http_body
  http_compute_failure_metrics c wa = each_or_panic http_body c.known_tcp_endpoints wa
