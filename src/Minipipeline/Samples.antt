-- ===== src/Minipipeline/Samples.antt =====
-- A concrete environment, a measurement and a container, for the tests.
use Prim.Native.String.{String as Text}
use ooni_probe_engine.Prelude.{
  ℕ, suc, String, true, false, Option, none, some, [], ◌∷◌, str_eq, if◌then◌else◌,
}
use ooni_probe_engine.Prelude.Int.{pos}
use ooni_probe_engine.Prelude.Golang.{SliceStable}
use ooni_probe_engine.Prelude.Sorting.{insertion_sort, insertion_sort-perm}
use ooni_probe_engine.Enginenetx.Tactic.{has_colon}
use ooni_probe_engine.Minipipeline.Archival.{
  ArchivalDnsLookupResult, ArchivalTcpConnectResult, WebMeasurement, WebMeasurementTestKeys,
  ThResponse,
}
use ooni_probe_engine.Minipipeline.Environment.{Environment}
use ooni_probe_engine.Minipipeline.Observation.{
  WebObservation, empty_observation, WebObservationsContainer, tcp_connect, ip_address_origin_dns,
}

unfoldable pub text_length : String → ℕ
text_length Text.[] = 0
text_length (Text.◌∷◌ c s) = suc (text_length s)

unfoldable pub asn_table : String → Option ℕ
asn_table ip =
    if str_eq ip "8.8.8.8"
    then some 15169
    else if str_eq ip "8.8.4.4"
    then some 15169
    else if str_eq ip "1.1.1.1"
    then some 13335
    else none

unfoldable pub environment : Environment
unfolding asn_table text_length
environment = record {
  lookup_asn = asn_table;
  is_bogon = λ ip. str_eq ip "10.0.0.1";
  is_ipv6 = λ ip. some (has_colon ip);
  itoa = λ n. "443";
  parse_int =
      λ s. if str_eq s "0" then some (pos 0) else if str_eq s "1" then some (pos 1) else none;
  hostname = λ url. if str_eq url "https://example.com/" then some "example.com" else none;
  to_lower = λ s. s;
  split_words = λ s. s ∷ [];
  byte_length = text_length;
  web_get_title = λ s. s;
}

unfoldable pub linear_sorter : SliceStable WebObservation
linear_sorter = record {
  sort = λ less l. insertion_sort less l;
  sort_perm = λ less l. insertion_sort-perm less l;
}

abbrev pub queries : ArchivalDnsLookupResult
queries = record {
  answers = record { answer_type = "A"; ipv4 = "8.8.8.8"; ipv6 = "" } ∷ [];
  engine = "getaddrinfo";
  failure = none;
  hostname = "example.com";
  query_type = "A";
  tags = "depth=0" ∷ [];
  transaction_id = pos 1;
}

abbrev pub connect : ArchivalTcpConnectResult
connect = record {
  ip = "8.8.8.8";
  port = pos 443;
  failure = none;
  tags = "depth=0" ∷ "fetch_body=true" ∷ [];
  transaction_id = pos 3;
}

abbrev pub control : ThResponse
control = record {
  tcp_connect = ("8.8.8.8:443", record { failure = none }) ∷ [];
  tls_handshake = [];
  http_request = record {
    body_length = pos 100;
    failure = none;
    title = "Example";
    headers = [];
    status_code = pos 200;
  };
  dns = record { failure = none; addrs = "8.8.4.4" ∷ [] };
}

abbrev pub test_keys : WebMeasurementTestKeys
test_keys = record {
  control = some control;
  queries = some queries ∷ [];
  requests =
      some (record {
        failure = none;
        request_url = "https://example.com/";
        response = record {
          body = "Example";
          body_is_truncated = false;
          code = pos 200;
          headers = [];
        };
        transaction_id = pos 3;
      })
      ∷ [];
  tcp_connect = some connect ∷ [];
  tls_handshakes =
      some (record { failure = none; server_name = "example.com"; transaction_id = pos 3 }) ∷ [];
  x_control_request = some (record { http_request = "https://example.com/" });
}

abbrev pub measurement : WebMeasurement
measurement = record { input = "https://example.com/"; test_keys = some test_keys }

-- A container with a failed lookup, a successful one and a failed connect.
abbrev pub failed_lookup : WebObservation
failed_lookup = record empty_observation {
  tag_depth = some (pos 0);
  failure = some "dns_nxdomain_error";
  transaction_id = pos 2;
  dns_transaction_id = some (pos 2);
  dns_domain = some "example.com";
  dns_lookup_failure = some "dns_nxdomain_error";
  dns_query_type = some "A";
  dns_engine = some "udp";
  control_dns_lookup_failure = some "";
}

abbrev pub successful_lookup : WebObservation
successful_lookup = record empty_observation {
  tag_depth = some (pos 0);
  failure = some "";
  transaction_id = pos 1;
  dns_transaction_id = some (pos 1);
  dns_domain = some "example.com";
  dns_lookup_failure = some "";
  dns_engine = some "getaddrinfo";
  dns_resolved_addrs = some ("8.8.8.8" ∷ []);
  ip_address_origin = some ip_address_origin_dns;
  ip_address = some "8.8.8.8";
  control_dns_resolved_addrs = some ("8.8.4.4" ∷ []);
}

abbrev pub failed_connect : WebObservation
failed_connect = record empty_observation {
  tag_depth = some (pos 0);
  observation_type = tcp_connect;
  failure = some "connection_refused";
  transaction_id = pos 3;
  tag_fetch_body = some true;
  ip_address_origin = some ip_address_origin_dns;
  ip_address = some "8.8.8.8";
  endpoint_transaction_id = some (pos 3);
  endpoint_address = some "8.8.8.8:443";
  tcp_connect_failure = some "connection_refused";
  control_tcp_connect_failure = some "";
}

abbrev pub container : WebObservationsContainer
container = record {
  dns_lookup_failures = failed_lookup ∷ [];
  dns_lookup_successes = successful_lookup ∷ [];
  known_tcp_endpoints = (pos 3, failed_connect) ∷ [];
  control_expectations = none;
  known_ip_addresses = ("8.8.8.8", 0) ∷ [];
}
