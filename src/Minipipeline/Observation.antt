-- ===== src/Minipipeline/Observation.antt =====
-- pkg/minipipeline/observation.go: the observations and their container. The zero values are Go's.
use ooni_probe_engine.Prelude.{ℕ, String, Bool, Option, none, List, []}
use ooni_probe_engine.Prelude.Int.{ℤ, pos}
use ooni_probe_engine.Prelude.Dict.{Dict}
use ooni_probe_engine.Prelude.Table.{Table}
use ooni_probe_engine.Minipipeline.Set.{Set}

-- In the order of their values.
pub data WebObservationType : Type 0 where
  dns_lookup tcp_connect tls_handshake http_round_trip : WebObservationType

-- A `map[string]bool` of this record is the set of its keys: the code stores true only.
pub record WebObservation : Type 0 where
  pub tag_depth : Option ℤ
  pub observation_type : WebObservationType
  pub failure : Option String
  pub transaction_id : ℤ
  pub tag_fetch_body : Option Bool
  pub dns_transaction_id : Option ℤ
  pub dns_domain : Option String
  pub dns_lookup_failure : Option String
  pub dns_query_type : Option String
  pub dns_engine : Option String
  pub dns_resolved_addrs : Option (Set String)
  pub ip_address_origin : Option String
  pub ip_address : Option String
  pub ip_address_asn : Option ℤ
  pub ip_address_bogon : Option Bool
  pub endpoint_transaction_id : Option ℤ
  pub endpoint_proto : Option String
  pub endpoint_port : Option String
  pub endpoint_address : Option String
  pub tcp_connect_failure : Option String
  pub tls_handshake_failure : Option String
  pub tls_server_name : Option String
  pub http_request_url : Option String
  pub http_failure : Option String
  pub http_response_status_code : Option ℤ
  pub http_response_body_length : Option ℤ
  pub http_response_body_is_truncated : Option Bool
  pub http_response_headers_keys : Option (Set String)
  pub http_response_location : Option String
  pub http_response_title : Option String
  pub http_response_is_final : Option Bool
  pub control_dns_domain : Option String
  pub control_dns_lookup_failure : Option String
  pub control_dns_resolved_addrs : Option (Set String)
  pub control_tcp_connect_failure : Option String
  pub control_tls_handshake_failure : Option String
  pub control_http_failure : Option String
  pub control_http_response_status_code : Option ℤ
  pub control_http_response_body_length : Option ℤ
  pub control_http_response_headers_keys : Option (Set String)
  pub control_http_response_title : Option String

abbrev pub empty_observation : WebObservation
empty_observation = record {
  tag_depth = none;
  observation_type = dns_lookup;
  failure = none;
  transaction_id = pos 0;
  tag_fetch_body = none;
  dns_transaction_id = none;
  dns_domain = none;
  dns_lookup_failure = none;
  dns_query_type = none;
  dns_engine = none;
  dns_resolved_addrs = none;
  ip_address_origin = none;
  ip_address = none;
  ip_address_asn = none;
  ip_address_bogon = none;
  endpoint_transaction_id = none;
  endpoint_proto = none;
  endpoint_port = none;
  endpoint_address = none;
  tcp_connect_failure = none;
  tls_handshake_failure = none;
  tls_server_name = none;
  http_request_url = none;
  http_failure = none;
  http_response_status_code = none;
  http_response_body_length = none;
  http_response_body_is_truncated = none;
  http_response_headers_keys = none;
  http_response_location = none;
  http_response_title = none;
  http_response_is_final = none;
  control_dns_domain = none;
  control_dns_lookup_failure = none;
  control_dns_resolved_addrs = none;
  control_tcp_connect_failure = none;
  control_tls_handshake_failure = none;
  control_http_failure = none;
  control_http_response_status_code = none;
  control_http_response_body_length = none;
  control_http_response_headers_keys = none;
  control_http_response_title = none;
}

abbrev pub ip_address_origin_dns : String
ip_address_origin_dns = "dns"

abbrev pub ip_address_origin_th : String
ip_address_origin_th = "th"

pub record WebObservationsControlExpectations : Type 0 where
  pub dns_addresses : Set String
  pub final_response_failure : Option String

-- The observations that knownIPAddresses points to are those of dns_lookup_successes, given by their
-- positions.
pub record WebObservationsContainer : Type 0 where
  pub dns_lookup_failures : List WebObservation
  pub dns_lookup_successes : List WebObservation
  pub known_tcp_endpoints : Table ℤ WebObservation
  pub control_expectations : Option WebObservationsControlExpectations
  pub known_ip_addresses : Dict ℕ

abbrev pub new_web_observations_container : WebObservationsContainer
new_web_observations_container = record {
  dns_lookup_failures = [];
  dns_lookup_successes = [];
  known_tcp_endpoints = [];
  control_expectations = none;
  known_ip_addresses = [];
}
