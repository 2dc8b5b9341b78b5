-- ===== src/Minipipeline/Control.antt =====
-- pkg/minipipeline/observation.go: ingesting the test helper's messages and a whole measurement.
use ooni_probe_engine.Prelude.{
  String, not, ◌&&◌, ◌||◌, Option, none, some, map, str_eq, is_set, if◌then◌else◌,
}
use ooni_probe_engine.Prelude.Int.{ℤ}
use ooni_probe_engine.Prelude.Dict.{lookup}
use ooni_probe_engine.Prelude.Keys.{string_key}
use ooni_probe_engine.Prelude.Outcome.{Outcome, returned, ◌>>=◌}
use ooni_probe_engine.Optional.{unwrap, unwrap_or}
use ooni_probe_engine.Minipipeline.Set.{contains, new_set}
use ooni_probe_engine.Minipipeline.Archival.{
  ThRequest, ThResponse, ThTlsHandshakeResult, ThTcpConnectResult, WebMeasurement,
  WebMeasurementTestKeys,
}
use ooni_probe_engine.Minipipeline.Environment.{Environment}
use ooni_probe_engine.Minipipeline.Loops.{update_list, update_table}
use ooni_probe_engine.Minipipeline.Observation.{
  WebObservation, WebObservationsContainer, new_web_observations_container, ip_address_origin_th,
}
use ooni_probe_engine.Minipipeline.Utils.{string_pointer_to_string, extract_http_header_keys}
use ooni_probe_engine.Minipipeline.Ingest.{
  ingest_dns_lookup_events, ingest_tcp_connect_events, ingest_tls_handshake_events,
  ingest_http_round_trip_events,
}

module _ (resp : ThResponse) where
  -- What is registered about the control's lookup of the input domain.
  unfoldable pub with_control_dns : String → WebObservation → WebObservation
  with_control_dns input_domain obs =
      let failed : WebObservation = record obs {
        control_dns_domain = some input_domain;
        control_dns_lookup_failure = some (string_pointer_to_string resp.dns.failure);
      } in
      if is_set resp.dns.failure
      then failed
      else record failed { control_dns_resolved_addrs = some (new_set resp.dns.addrs) }

  -- The body of controlXrefDNSQueries.
  unfoldable pub xref_dns_query : String → WebObservation → Outcome WebObservation
  unfolding with_control_dns
  xref_dns_query input_domain obs = do
    domain ← unwrap obs.dns_domain
    returned (if str_eq domain input_domain then with_control_dns input_domain obs else obs)

  unfoldable pub control_xref_dns_queries :
      String → WebObservationsContainer → Outcome WebObservationsContainer
  unfolding xref_dns_query
  control_xref_dns_queries input_domain c = do
    failures ← update_list (xref_dns_query input_domain) c.dns_lookup_failures
    successes ← update_list (xref_dns_query input_domain) c.dns_lookup_successes
    returned (record c { dns_lookup_failures = failures; dns_lookup_successes = successes })

  unfoldable pub from_th : String → WebObservation → WebObservation
  from_th input_domain obs = record obs {
    ip_address_origin = some ip_address_origin_th;
    control_dns_domain = some input_domain;
    control_dns_lookup_failure = some (string_pointer_to_string resp.dns.failure);
    control_dns_resolved_addrs = some (new_set resp.dns.addrs);
  }

  -- The body of controlMatchDNSLookupResults; thAddrMap holds the addresses that the control resolved.
  unfoldable pub match_dns_lookup_result : String → WebObservation → Outcome WebObservation
  unfolding from_th with_control_dns
  match_dns_lookup_result input_domain obs =
      let domain = unwrap_or obs.dns_domain "" in
      do
        addr ← unwrap obs.ip_address
        returned (
            if str_eq domain "" && contains resp.dns.addrs addr
            then from_th input_domain obs
            else if str_eq domain "" || not (str_eq domain input_domain)
            then obs
            else with_control_dns input_domain obs)

  unfoldable pub control_match_dns_lookup_results :
      String → WebObservationsContainer → Outcome WebObservationsContainer
  unfolding match_dns_lookup_result
  control_match_dns_lookup_results input_domain c = do
    endpoints ← update_table (match_dns_lookup_result input_domain) c.known_tcp_endpoints
    returned (record c { known_tcp_endpoints = endpoints })

  abbrev pub with_control_tcp : Option ThTcpConnectResult → WebObservation → WebObservation
  with_control_tcp none obs = obs
  with_control_tcp (some tcp) obs = record obs {
    control_tcp_connect_failure = some (string_pointer_to_string tcp.failure);
  }

  unfoldable pub xref_tcpip_failure : WebObservation → Outcome WebObservation
  xref_tcpip_failure obs = do
    endpoint_address ← unwrap obs.endpoint_address
    returned (with_control_tcp (lookup endpoint_address resp.tcp_connect) obs)

  unfoldable pub control_xref_tcpip_failures :
      WebObservationsContainer → Outcome WebObservationsContainer
  unfolding xref_tcpip_failure
  control_xref_tcpip_failures c = do
    endpoints ← update_table xref_tcpip_failure c.known_tcp_endpoints
    returned (record c { known_tcp_endpoints = endpoints })

  -- The server name that the probe used, and the control's record of the endpoint.
  abbrev pub with_control_tls :
      Option String → Option ThTlsHandshakeResult → WebObservation → WebObservation
  with_control_tls (some server_name) (some tls) obs =
      if str_eq tls.server_name server_name
      then record obs {
        control_tls_handshake_failure = some (string_pointer_to_string tls.failure);
      }
      else obs
  with_control_tls server_name tls obs = obs

  unfoldable pub xref_tls_failure : WebObservation → Outcome WebObservation
  xref_tls_failure obs = do
    endpoint_address ← unwrap obs.endpoint_address
    returned (with_control_tls obs.tls_server_name (lookup endpoint_address resp.tls_handshake) obs)

  unfoldable pub control_xref_tls_failures :
      WebObservationsContainer → Outcome WebObservationsContainer
  unfolding xref_tls_failure
  control_xref_tls_failures c = do
    endpoints ← update_table xref_tls_failure c.known_tcp_endpoints
    returned (record c { known_tcp_endpoints = endpoints })

  unfoldable pub with_control_http : WebObservation → WebObservation
  with_control_http obs =
      let failed : WebObservation = record obs {
        control_http_failure = some (string_pointer_to_string resp.http_request.failure);
      } in
      if is_set resp.http_request.failure then failed else record failed {
        control_http_response_status_code = some resp.http_request.status_code;
        control_http_response_body_length = some resp.http_request.body_length;
        control_http_response_headers_keys = extract_http_header_keys resp.http_request.headers;
        control_http_response_title = some resp.http_request.title;
      }

  unfoldable pub control_set_http_final_response_expectation :
      WebObservationsContainer → WebObservationsContainer
  unfolding with_control_http
  control_set_http_final_response_expectation c = record c {
    dns_lookup_failures = map with_control_http c.dns_lookup_failures;
    dns_lookup_successes = map with_control_http c.dns_lookup_successes;
    known_tcp_endpoints =
        map (λ (e : ℤ × WebObservation). (e.0, with_control_http e.1)) c.known_tcp_endpoints;
    control_expectations = some (record {
      dns_addresses = new_set resp.dns.addrs;
      final_response_failure = some (string_pointer_to_string resp.http_request.failure);
    });
  }

pub data IngestError : Type 0 where
  no_test_keys invalid_url : IngestError

pub data Ingested : Type 0 where
  ingest_failed : IngestError → Ingested
  ingested : WebObservationsContainer → Ingested

module _ (env : Environment) where
  unfoldable pub control_messages_for :
      Option String → ThResponse → WebObservationsContainer → Outcome Ingested
  control_messages_for none resp c = returned (ingest_failed invalid_url)
  control_messages_for (some input_domain) resp c = do
    queries ← control_xref_dns_queries resp input_domain c
    results ← control_match_dns_lookup_results resp input_domain queries
    tcpip ← control_xref_tcpip_failures resp results
    tls ← control_xref_tls_failures resp tcpip
    returned (ingested (control_set_http_final_response_expectation resp tls))

  unfoldable pub ingest_control_messages :
      ThRequest → ThResponse → WebObservationsContainer → Outcome Ingested
  unfolding control_messages_for
  ingest_control_messages req resp c = control_messages_for (env.hostname req.http_request) resp c

  -- With both messages; without one of them the control is not used.
  unfoldable pub maybe_control :
      Option ThRequest → Option ThResponse → WebObservationsContainer → Outcome Ingested
  maybe_control (some req) (some resp) c = ingest_control_messages req resp c
  maybe_control req resp c = returned (ingested c)

  unfoldable pub ingest_events : WebMeasurementTestKeys → Outcome WebObservationsContainer
  ingest_events tk = do
    lookups ← ingest_dns_lookup_events env tk.queries new_web_observations_container
    connects ← ingest_tcp_connect_events env tk.tcp_connect lookups
    handshakes ← ingest_tls_handshake_events tk.tls_handshakes connects
    ingest_http_round_trip_events env tk.requests handshakes

  unfoldable pub with_test_keys : Option WebMeasurementTestKeys → Outcome Ingested
  with_test_keys none = returned (ingest_failed no_test_keys)
  with_test_keys (some tk) = do
    container ← ingest_events tk
    maybe_control tk.x_control_request tk.control container

  unfoldable pub ingest_web_measurement : WebMeasurement → Outcome Ingested
  unfolding with_test_keys maybe_control ingest_events
  ingest_web_measurement meas = with_test_keys meas.test_keys
