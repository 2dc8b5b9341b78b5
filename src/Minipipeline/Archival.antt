-- ===== src/Minipipeline/Archival.antt =====
-- The data that pkg/minipipeline reads: the events of pkg/model/archival.go, the test helper's messages
-- of pkg/model/th.go and the measurement of pkg/minipipeline/measurement.go, with the fields that it
-- uses. A pointer that may be nil is an Option, also in the slices of events.
use ooni_probe_engine.Prelude.{String, Bool, Option, List}
use ooni_probe_engine.Prelude.Int.{ℤ}
use ooni_probe_engine.Prelude.Dict.{Dict}

pub record ArchivalDnsAnswer : Type 0 where
  pub answer_type : String
  pub ipv4 : String
  pub ipv6 : String

pub record ArchivalDnsLookupResult : Type 0 where
  pub answers : List ArchivalDnsAnswer
  pub engine : String
  pub failure : Option String
  pub hostname : String
  pub query_type : String
  pub tags : List String
  pub transaction_id : ℤ

pub record ArchivalTcpConnectResult : Type 0 where
  pub ip : String
  pub port : ℤ
  pub failure : Option String  -- Status.Failure
  pub tags : List String
  pub transaction_id : ℤ

pub record ArchivalTlsOrQuicHandshakeResult : Type 0 where
  pub failure : Option String
  pub server_name : String
  pub transaction_id : ℤ

pub record ArchivalHttpResponse : Type 0 where
  pub body : String
  pub body_is_truncated : Bool
  pub code : ℤ
  pub headers : Dict String

pub record ArchivalHttpRequestResult : Type 0 where
  pub failure : Option String
  pub request_url : String  -- Request.URL
  pub response : ArchivalHttpResponse
  pub transaction_id : ℤ

pub record ThRequest : Type 0 where
  pub http_request : String

pub record ThTcpConnectResult : Type 0 where
  pub failure : Option String

pub record ThTlsHandshakeResult : Type 0 where
  pub server_name : String
  pub failure : Option String

pub record ThHttpRequestResult : Type 0 where
  pub body_length : ℤ
  pub failure : Option String
  pub title : String
  pub headers : Dict String
  pub status_code : ℤ

pub record ThDnsResult : Type 0 where
  pub failure : Option String
  pub addrs : List String

pub record ThResponse : Type 0 where
  pub tcp_connect : Dict ThTcpConnectResult
  pub tls_handshake : Dict ThTlsHandshakeResult
  pub http_request : ThHttpRequestResult
  pub dns : ThDnsResult

pub record WebMeasurementTestKeys : Type 0 where
  pub control : Option ThResponse
  pub queries : List (Option ArchivalDnsLookupResult)
  pub requests : List (Option ArchivalHttpRequestResult)
  pub tcp_connect : List (Option ArchivalTcpConnectResult)
  pub tls_handshakes : List (Option ArchivalTlsOrQuicHandshakeResult)
  pub x_control_request : Option ThRequest

pub record WebMeasurement : Type 0 where
  pub input : String
  pub test_keys : Option WebMeasurementTestKeys
