-- ===== src/Minipipeline/WellFormed/Measurement.antt =====
-- pkg/minipipeline/observation.go: IngestWebMeasurement as a whole.
use ooni_probe_engine.Prelude.{
  String, Bool, true, false, ◌&&◌, not, ◌≡◌, refl, Option, none, some, is_set, if◌then◌else◌,
}
use ooni_probe_engine.Prelude.Outcome.{Returns, returns, Returns-bind}
use ooni_probe_engine.Minipipeline.Archival.{
  ThRequest, ThResponse, WebMeasurement, WebMeasurementTestKeys,
}
use ooni_probe_engine.Minipipeline.Environment.{Environment}
use ooni_probe_engine.Minipipeline.Observation.{WebObservationsContainer}
use ooni_probe_engine.Minipipeline.Loops.{Ends, Ends-bind, no_nil}
use ooni_probe_engine.Minipipeline.Control
use ooni_probe_engine.Minipipeline.Control.{
  IngestError, no_test_keys, invalid_url, Ingested, ingest_failed, ingested, ingest_web_measurement,
}
use ooni_probe_engine.Minipipeline.WellFormed.{IsWellFormed, ingest_dns_lookup_events-IsWellFormed}
use ooni_probe_engine.Minipipeline.WellFormed.Endpoints.{
  ingest_tcp_connect_events-IsWellFormed, ingest_tls_handshake_events-IsWellFormed,
  ingest_http_round_trip_events-IsWellFormed,
}
use ooni_probe_engine.Minipipeline.WellFormed.Control.{
  control_xref_dns_queries-IsWellFormed, endpoints-IsWellFormed, match_dns_lookup_result-IsEndpoint,
  xref_tcpip_failure-IsEndpoint, xref_tls_failure-IsEndpoint, expectation-IsWellFormed,
}

-- The container of a result, if there is one, is well formed.
unfoldable pub IsIngested : Ingested → Type 0
IsIngested (ingest_failed e) = Unit
IsIngested (ingested c) = IsWellFormed c

unfoldable pub error_of : Ingested → Option IngestError
error_of (ingest_failed e) = some e
error_of (ingested c) = none

unfoldable pub IsResult : Option IngestError → Ingested → Type 0
unfolding IsIngested error_of
IsResult e result = (error_of result ≡ e) × IsIngested result

twice : (b : Bool) → b ≡ (b && b)
twice true = refl
twice false = refl

and_true : (b : Bool) → b ≡ (b && true)
and_true true = refl
and_true false = refl

module _ (env : Environment) where
  -- The error of the control's messages: that both are there and the URL of the request is not valid.
  unfoldable pub control_error : Option ThRequest → Option ThResponse → Option IngestError
  control_error (some req) (some resp) =
      if not (is_set (env.hostname req.http_request)) then some invalid_url else none
  control_error req resp = none

  -- The error of a measurement: that it has no test keys, or the one of the control's messages.
  unfoldable pub expected_error : Option WebMeasurementTestKeys → Option IngestError
  unfolding control_error
  expected_error none = some no_test_keys
  expected_error (some tk) = control_error tk.x_control_request tk.control

  control_messages_for-IsResult :
      (o : Option String) (resp : ThResponse) (c : WebObservationsContainer)
      → IsWellFormed c
      → Returns
          (IsResult (if not (is_set o) then some invalid_url else none))
          (Control.control_messages_for env o resp c)
  unfolding IsResult IsIngested error_of Control.control_messages_for
      Control.control_match_dns_lookup_results Control.control_xref_tcpip_failures
      Control.control_xref_tls_failures
  control_messages_for-IsResult none resp c h = returns _ (refl, tt)
  control_messages_for-IsResult (some input_domain) resp c h =
      let Good = IsResult none in
      Returns-bind IsWellFormed Good _ (control_xref_dns_queries-IsWellFormed resp input_domain c h)
        λ queries p.
          Returns-bind IsWellFormed Good _
            (endpoints-IsWellFormed resp _ queries
              (match_dns_lookup_result-IsEndpoint resp input_domain) p)
            λ results q.
              Returns-bind IsWellFormed Good _
                (endpoints-IsWellFormed resp _ results (xref_tcpip_failure-IsEndpoint resp) q)
                λ tcpip r.
                  Returns-bind IsWellFormed Good _
                    (endpoints-IsWellFormed resp _ tcpip (xref_tls_failure-IsEndpoint resp) r)
                    λ tls t. returns _ (refl, expectation-IsWellFormed resp tls t)

  maybe_control-IsResult :
      (req : Option ThRequest) (resp : Option ThResponse) (c : WebObservationsContainer)
      → IsWellFormed c
      → Returns (IsResult (control_error req resp)) (Control.maybe_control env req resp c)
  unfolding IsResult IsIngested error_of control_error Control.maybe_control
      Control.ingest_control_messages
  maybe_control-IsResult none resp c h = returns _ (refl, h)
  maybe_control-IsResult (some req) none c h = returns _ (refl, h)
  maybe_control-IsResult (some req) (some resp) c h =
      control_messages_for-IsResult (env.hostname req.http_request) resp c h

  -- No slice of events holds a nil pointer.
  unfoldable pub is_nil_free : Option WebMeasurementTestKeys → Bool
  is_nil_free none = true
  is_nil_free (some tk) =
      no_nil tk.queries
      && (no_nil tk.tcp_connect && (no_nil tk.tls_handshakes && no_nil tk.requests))

  ingest_events-IsWellFormed :
      (tk : WebMeasurementTestKeys)
      → Ends (is_nil_free (some tk)) IsWellFormed (Control.ingest_events env tk)
  unfolding Control.ingest_events IsWellFormed is_nil_free
  ingest_events-IsWellFormed tk =
      let Good = IsWellFormed in
      rw (twice (no_nil tk.queries)) (
        Ends-bind _ _ Good Good _ _
          (ingest_dns_lookup_events-IsWellFormed env tk.queries _ (tt, tt, tt))
          λ lookups p.
            Ends-bind _ _ Good Good _ _
              (ingest_tcp_connect_events-IsWellFormed env tk.tcp_connect lookups p)
              λ connects q.
                Ends-bind _ _ Good Good _ _
                  (ingest_tls_handshake_events-IsWellFormed tk.tls_handshakes connects q)
                  λ handshakes r.
                    ingest_http_round_trip_events-IsWellFormed env tk.requests handshakes r)

  ingest_web_measurement_test_keys :
      (o : Option WebMeasurementTestKeys)
      → Ends (is_nil_free o) (IsResult (expected_error o)) (Control.with_test_keys env o)
  unfolding Control.with_test_keys expected_error IsResult IsIngested error_of is_nil_free
  ingest_web_measurement_test_keys none = returns _ (refl, tt)
  ingest_web_measurement_test_keys (some tk) = rw (and_true (is_nil_free (some tk))) (
      Ends-bind (is_nil_free (some tk)) true IsWellFormed _ _ _ (ingest_events-IsWellFormed tk)
        λ c h. maybe_control-IsResult tk.x_control_request tk.control c h)

  -- Ingesting a measurement panics exactly when one of its four slices of events holds a nil pointer.
  -- Otherwise it fails exactly when the measurement has no test keys, or has both messages of the
  -- control and the URL of the control's request does not parse, and else gives a container where every
  -- observation of a lookup has its transaction, its domain and the failure of the lookup, every
  -- successful lookup also a set of addresses and one address, and every endpoint the transaction under
  -- which it is stored, its address and the failure of its last operation.
  pub ingest_web_measurement-IsResult :
      (meas : WebMeasurement)
      → Ends
          (is_nil_free meas.test_keys)
          (IsResult (expected_error meas.test_keys))
          (ingest_web_measurement env meas)
  unfolding ingest_web_measurement
  ingest_web_measurement-IsResult meas = ingest_web_measurement_test_keys meas.test_keys
