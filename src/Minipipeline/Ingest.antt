-- ===== src/Minipipeline/Ingest.antt =====
-- pkg/minipipeline/observation.go: ingesting the events of a measurement.
use ooni_probe_engine.Prelude.{
  ℕ, zero, suc, String, Option, none, some, List, [], ◌∷◌, ◌++◌, length, is_set, if◌then◌else◌,
}
use ooni_probe_engine.Prelude.Int.{ℤ, pos}
use ooni_probe_engine.Prelude.Dict.{lookup, insert}
use ooni_probe_engine.Prelude.Keys.{string_key, int_key}
use ooni_probe_engine.Prelude.Outcome.{Outcome, ◌>>=◌}
use ooni_probe_engine.Prelude.Table.{find, store}
use ooni_probe_engine.Enginenetx.Tactic.{join_host_port}
use ooni_probe_engine.Minipipeline.Set.{Set, new_set, keys}
use ooni_probe_engine.Minipipeline.Archival.{
  ArchivalDnsLookupResult, ArchivalTcpConnectResult, ArchivalTlsOrQuicHandshakeResult,
  ArchivalHttpRequestResult,
}
use ooni_probe_engine.Minipipeline.Environment.{Environment}
use ooni_probe_engine.Minipipeline.Loops.{each, each_event}
use ooni_probe_engine.Minipipeline.Observation.{
  WebObservation, empty_observation, WebObservationsContainer, dns_lookup, tcp_connect,
  tls_handshake, http_round_trip, ip_address_origin_dns,
}
use ooni_probe_engine.Minipipeline.Utils.{
  string_pointer_to_string, geoipx_lookup_asn, extract_http_header_keys, extract_http_location,
  determine_whether_http_response_is_final, resolved_addresses, extract_tag_depth,
  extract_tag_fetch_body,
}

-- The observation at a position.
unfoldable pub get_elem? : List WebObservation → ℕ → Option WebObservation
get_elem? [] i = none
get_elem? (obs ∷ observations) zero = some obs
get_elem? (obs ∷ observations) (suc i) = get_elem? observations i

unfoldable pub pointed : List WebObservation → Option ℕ → Option WebObservation
unfolding get_elem?
pointed observations none = none
pointed observations (some i) = get_elem? observations i

unfoldable pub handshaked : ArchivalTlsOrQuicHandshakeResult → WebObservation → WebObservation
handshaked ev obs =
    let failure = some (string_pointer_to_string ev.failure) in
    record obs {
      observation_type = tls_handshake;
      failure = failure;
      tls_handshake_failure = failure;
      tls_server_name = some ev.server_name;
    }

-- Changes the observation of a transaction that was looked up, where there is one.
unfoldable pub change_found :
    ℤ
    → (WebObservation → WebObservation)
    → Option WebObservation
    → WebObservationsContainer
    → WebObservationsContainer
change_found txid body none c = c
change_found txid body (some obs) c = record c {
  known_tcp_endpoints = store txid (body obs) c.known_tcp_endpoints;
}

unfoldable pub change :
    ℤ → (WebObservation → WebObservation) → WebObservationsContainer → WebObservationsContainer
unfolding change_found
change txid body c = change_found txid body (find txid c.known_tcp_endpoints) c

unfoldable pub ingest_tls_handshake_events :
    List (Option ArchivalTlsOrQuicHandshakeResult)
    → WebObservationsContainer
    → Outcome WebObservationsContainer
unfolding handshaked change
ingest_tls_handshake_events evs c =
    each_event (λ (ev : ArchivalTlsOrQuicHandshakeResult). change ev.transaction_id (handshaked ev))
      evs c

module _ (env : Environment) where
  unfoldable pub failed_lookup : ArchivalDnsLookupResult → String → WebObservation
  failed_lookup ev failure = record empty_observation {
    observation_type = dns_lookup;
    failure = some failure;
    transaction_id = ev.transaction_id;
    dns_transaction_id = some ev.transaction_id;
    dns_domain = some ev.hostname;
    dns_lookup_failure = some failure;
    dns_query_type = some ev.query_type;
    dns_engine = some ev.engine;
    tag_depth = extract_tag_depth env ev.tags;
  }

  -- Of an event with the given failure.
  unfoldable pub add_failed_lookup :
      ArchivalDnsLookupResult → Option String → WebObservationsContainer → WebObservationsContainer
  unfolding failed_lookup
  add_failed_lookup ev none c = c
  add_failed_lookup ev (some failure) c = record c {
    dns_lookup_failures = c.dns_lookup_failures ++ (failed_lookup ev failure ∷ []);
  }

  unfoldable pub ingest_dns_lookup_failure :
      ArchivalDnsLookupResult → WebObservationsContainer → WebObservationsContainer
  unfolding add_failed_lookup
  ingest_dns_lookup_failure ev c = add_failed_lookup ev ev.failure c

  unfoldable pub successful_lookup : ArchivalDnsLookupResult → Set String → String → WebObservation
  successful_lookup ev addrs ip_addr = record empty_observation {
    failure = some "";
    observation_type = dns_lookup;
    transaction_id = ev.transaction_id;
    dns_transaction_id = some ev.transaction_id;
    dns_domain = some ev.hostname;
    dns_lookup_failure = some "";
    dns_query_type = some ev.query_type;
    dns_engine = some ev.engine;
    dns_resolved_addrs = some addrs;
    ip_address_origin = some ip_address_origin_dns;
    ip_address = some ip_addr;
    ip_address_asn = geoipx_lookup_asn env ip_addr;
    ip_address_bogon = some (env.is_bogon ip_addr);
    tag_depth = extract_tag_depth env ev.tags;
  }

  -- The body of the loop over the addresses.
  unfoldable pub ingest_address :
      ArchivalDnsLookupResult
      → Set String
      → String
      → WebObservationsContainer
      → WebObservationsContainer
  unfolding successful_lookup
  ingest_address ev addrs ip_addr c = record c {
    dns_lookup_successes = c.dns_lookup_successes ++ (successful_lookup ev addrs ip_addr ∷ []);
    known_ip_addresses =
        if is_set (lookup ip_addr c.known_ip_addresses)
        then c.known_ip_addresses
        else insert ip_addr (length c.dns_lookup_successes) c.known_ip_addresses;
  }

  unfoldable pub add_successful_lookups :
      ArchivalDnsLookupResult → Option String → WebObservationsContainer → WebObservationsContainer
  unfolding ingest_address
  add_successful_lookups ev (some failure) c = c
  add_successful_lookups ev none c =
      let addrs = new_set (resolved_addresses ev.answers) in
      each (ingest_address ev addrs) (keys addrs) c

  unfoldable pub ingest_dns_lookup_success :
      ArchivalDnsLookupResult → WebObservationsContainer → WebObservationsContainer
  unfolding add_successful_lookups
  ingest_dns_lookup_success ev c = add_successful_lookups ev ev.failure c

  unfoldable pub ingest_dns_lookup_events :
      List (Option ArchivalDnsLookupResult)
      → WebObservationsContainer
      → Outcome WebObservationsContainer
  unfolding ingest_dns_lookup_failure ingest_dns_lookup_success
  ingest_dns_lookup_events evs c = do
    failures ← each_event ingest_dns_lookup_failure evs c
    each_event ingest_dns_lookup_success evs failures

  -- The record that is not found: all that is known is the address.
  abbrev unknown_address : String → WebObservation
  unknown_address ip = record empty_observation {
    ip_address = some ip;
    ip_address_asn = geoipx_lookup_asn env ip;
    ip_address_bogon = some (env.is_bogon ip);
  }

  unfoldable pub create_or_fetch : String → Option WebObservation → WebObservation
  create_or_fetch ip none = unknown_address ip
  create_or_fetch ip (some obs) = obs

  unfoldable pub connected : ArchivalTcpConnectResult → WebObservation → WebObservation
  connected ev obs =
      let port_string = env.itoa ev.port in
      let failure = some (string_pointer_to_string ev.failure) in
      record empty_observation {
        observation_type = tcp_connect;
        failure = failure;
        transaction_id = ev.transaction_id;
        dns_transaction_id = obs.dns_transaction_id;
        dns_domain = obs.dns_domain;
        dns_lookup_failure = obs.dns_lookup_failure;
        dns_resolved_addrs = obs.dns_resolved_addrs;
        ip_address_origin = obs.ip_address_origin;
        ip_address = obs.ip_address;
        ip_address_asn = obs.ip_address_asn;
        ip_address_bogon = obs.ip_address_bogon;
        endpoint_transaction_id = some ev.transaction_id;
        endpoint_proto = some "tcp";
        endpoint_port = some port_string;
        endpoint_address = some (join_host_port ev.ip port_string);
        tcp_connect_failure = failure;
        tag_depth = extract_tag_depth env ev.tags;
        tag_fetch_body = extract_tag_fetch_body ev.tags;
      }

  unfoldable pub ingest_tcp_connect_event :
      ArchivalTcpConnectResult → WebObservationsContainer → WebObservationsContainer
  unfolding create_or_fetch connected pointed
  ingest_tcp_connect_event ev c =
      let known = pointed c.dns_lookup_successes (lookup ev.ip c.known_ip_addresses) in
      let obs = connected ev (create_or_fetch ev.ip known) in
      record c { known_tcp_endpoints = store ev.transaction_id obs c.known_tcp_endpoints }

  unfoldable pub ingest_tcp_connect_events :
      List (Option ArchivalTcpConnectResult)
      → WebObservationsContainer
      → Outcome WebObservationsContainer
  unfolding ingest_tcp_connect_event
  ingest_tcp_connect_events evs c = each_event ingest_tcp_connect_event evs c

  abbrev with_response : ArchivalHttpRequestResult → WebObservation → WebObservation
  with_response ev obs = record obs {
    http_response_status_code = some ev.response.code;
    http_response_body_length = some (pos (env.byte_length ev.response.body));
    http_response_body_is_truncated = some ev.response.body_is_truncated;
    http_response_headers_keys = extract_http_header_keys ev.response.headers;
    http_response_title = some (env.web_get_title ev.response.body);
    http_response_location = extract_http_location env ev.response.headers;
    http_response_is_final = determine_whether_http_response_is_final ev.response.code;
  }

  unfoldable pub round_tripped : ArchivalHttpRequestResult → WebObservation → WebObservation
  round_tripped ev obs =
      let failure = some (string_pointer_to_string ev.failure) in
      let updated : WebObservation = record obs {
        observation_type = http_round_trip;
        failure = failure;
        http_request_url = some ev.request_url;
        http_failure = failure;
      } in
      if is_set ev.failure then updated else with_response ev updated

  unfoldable pub ingest_http_round_trip_events :
      List (Option ArchivalHttpRequestResult)
      → WebObservationsContainer
      → Outcome WebObservationsContainer
  unfolding round_tripped change
  ingest_http_round_trip_events evs c =
      each_event (λ (ev : ArchivalHttpRequestResult). change ev.transaction_id (round_tripped ev))
        evs c
