-- ===== src/Minipipeline/WellFormed/Control.antt =====
-- pkg/minipipeline/observation.go: ingesting the control's messages.
use ooni_probe_engine.Prelude.{
  String, Bool, true, false, ◌&&◌, ◌≡◌, Option, none, some, List, [], ◌∷◌, map, All, str_eq, is_set,
  if◌then◌else◌,
}
use ooni_probe_engine.Prelude.Int.{ℤ}
use ooni_probe_engine.Prelude.Dict.{lookup}
use ooni_probe_engine.Prelude.Keys.{string_key}
use ooni_probe_engine.Prelude.Outcome.{Outcome, returned, ◌>>=◌, Returns, returns, Returns-bind}
use ooni_probe_engine.Optional.{unwrap, unwrap_or}
use ooni_probe_engine.Minipipeline.Set.{contains}
use ooni_probe_engine.Minipipeline.Archival.{ThResponse, ThTcpConnectResult, ThTlsHandshakeResult}
use ooni_probe_engine.Minipipeline.Loops.{update_table, update_list-Returns, update_table-Returns}
use ooni_probe_engine.Minipipeline.Observation.{WebObservation, WebObservationsContainer}
use ooni_probe_engine.Minipipeline.Control
use ooni_probe_engine.Minipipeline.Control.{
  IngestError, no_test_keys, invalid_url, Ingested, ingest_failed, ingested,
}
use ooni_probe_engine.Minipipeline.WellFormed.{
  IsSuccess, IsEndpoint, IsWellFormed, IsDnsObservation, last_failure,
}

unwrap-Returns :
    {A : Type 0} (o : Option A) → is_set o ≡ true → Returns (λ (a : A). Unit {0}) (unwrap o)
unwrap-Returns none h = cc
unwrap-Returns (some a) h = returns a tt

-- Either of two values satisfies a predicate.
if-keeps : {A : Type 0} (P : A → Type 0) (b : Bool) (x y : A) → P x → P y → P (if b then x else y)
if-keeps P true x y p q = p
if-keeps P false x y p q = q

-- A body that unwraps a field and then gives a value that satisfies the predicate.
pub unwrap-then :
    {A B : Type 0} (P : B → Type 0) (o : Option A) (f : A → B)
    → is_set o ≡ true
    → ((a : A) → P (f a))
    → Returns P (unwrap o >>= λ a. returned (f a))
unwrap-then P none f h k = cc
unwrap-then P (some a) f h k = returns (f a) (k a)

map-All :
    {A B : Type 0} (P : A → Type 0) (Q : B → Type 0) (f : A → B) (l : List A)
    → ((x : A) → P x → Q (f x))
    → All P l
    → All Q (map f l)
map-All P Q f [] keeps h = tt
map-All P Q f (x ∷ l) keeps h = (keeps x h.0, map-All P Q f l keeps h.1)

module _ (resp : ThResponse) where
  xref_dns_query-IsDnsObservation :
      (input_domain : String) (obs : WebObservation)
      → IsDnsObservation obs
      → Returns IsDnsObservation (Control.xref_dns_query resp input_domain obs)
  unfolding Control.xref_dns_query Control.with_control_dns IsDnsObservation last_failure
  xref_dns_query-IsDnsObservation input_domain obs h =
      unwrap-then IsDnsObservation obs.dns_domain _ h.1 λ domain.
        if-keeps IsDnsObservation (str_eq domain input_domain) _ obs
          (if-keeps IsDnsObservation (is_set resp.dns.failure) _ _ h h) h

  xref_dns_query-IsSuccess :
      (input_domain : String) (obs : WebObservation)
      → IsSuccess obs
      → Returns IsSuccess (Control.xref_dns_query resp input_domain obs)
  unfolding Control.xref_dns_query Control.with_control_dns IsSuccess IsDnsObservation last_failure
  xref_dns_query-IsSuccess input_domain obs h =
      unwrap-then IsSuccess obs.dns_domain _ h.0.1 λ domain.
        if-keeps IsSuccess (str_eq domain input_domain) _ obs
          (if-keeps IsSuccess (is_set resp.dns.failure) _ _ h h) h

  pub control_xref_dns_queries-IsWellFormed :
      (input_domain : String) (c : WebObservationsContainer)
      → IsWellFormed c
      → Returns IsWellFormed (Control.control_xref_dns_queries resp input_domain c)
  unfolding Control.control_xref_dns_queries IsWellFormed
  control_xref_dns_queries-IsWellFormed input_domain c h =
      Returns-bind (All IsDnsObservation) IsWellFormed _
        (update_list-Returns IsDnsObservation _ (xref_dns_query-IsDnsObservation input_domain) _
          h.0)
        λ failures p.
          Returns-bind (All IsSuccess) IsWellFormed _
            (update_list-Returns IsSuccess _ (xref_dns_query-IsSuccess input_domain) _ h.1)
            λ successes q. returns _ (p, q, h.2)

  -- The loops over the endpoints.
  pub endpoints-IsWellFormed :
      (body : WebObservation → Outcome WebObservation) (c : WebObservationsContainer)
      → ((txid : ℤ) (obs : WebObservation)
          → IsEndpoint (txid, obs)
          → Returns (λ y. IsEndpoint (txid, y)) (body obs))
      → IsWellFormed c
      → Returns IsWellFormed (
          update_table body c.known_tcp_endpoints >>= λ endpoints.
          returned (record c { known_tcp_endpoints = endpoints }))
  unfolding IsWellFormed
  endpoints-IsWellFormed body c keeps h =
      Returns-bind (All IsEndpoint) IsWellFormed _
        (update_table-Returns IsEndpoint body keeps _ h.2) λ endpoints p. returns _ (h.0, h.1, p)

  pub match_dns_lookup_result-IsEndpoint :
      (input_domain : String) (txid : ℤ) (obs : WebObservation)
      → IsEndpoint (txid, obs)
      → Returns (λ y. IsEndpoint (txid, y)) (Control.match_dns_lookup_result resp input_domain obs)
  unfolding Control.match_dns_lookup_result Control.with_control_dns Control.from_th IsEndpoint
      last_failure
  match_dns_lookup_result-IsEndpoint input_domain txid obs h =
      let P : WebObservation → Type 0 = λ y. IsEndpoint (txid, y) in
      unwrap-then P obs.ip_address _ h.1 λ addr.
        if-keeps P (str_eq (unwrap_or obs.dns_domain "") "" && contains resp.dns.addrs addr) _ _ h
          (if-keeps P _ _ _ h (if-keeps P (is_set resp.dns.failure) _ _ h h))

  with_control_tcp-IsEndpoint :
      (o : Option ThTcpConnectResult) (txid : ℤ) (obs : WebObservation)
      → IsEndpoint (txid, obs)
      → IsEndpoint (txid, Control.with_control_tcp resp o obs)
  unfolding IsEndpoint last_failure
  with_control_tcp-IsEndpoint none txid obs h = h
  with_control_tcp-IsEndpoint (some tcp) txid obs h = h

  pub xref_tcpip_failure-IsEndpoint :
      (txid : ℤ) (obs : WebObservation)
      → IsEndpoint (txid, obs)
      → Returns (λ y. IsEndpoint (txid, y)) (Control.xref_tcpip_failure resp obs)
  unfolding Control.xref_tcpip_failure IsEndpoint
  xref_tcpip_failure-IsEndpoint txid obs h =
      unwrap-then (λ y. IsEndpoint (txid, y)) obs.endpoint_address _ h.2
        λ address. with_control_tcp-IsEndpoint (lookup address resp.tcp_connect) txid obs h

  with_control_tls-IsEndpoint :
      (name : Option String) (o : Option ThTlsHandshakeResult) (txid : ℤ) (obs : WebObservation)
      → IsEndpoint (txid, obs)
      → IsEndpoint (txid, Control.with_control_tls resp name o obs)
  unfolding IsEndpoint last_failure
  with_control_tls-IsEndpoint none o txid obs h = h
  with_control_tls-IsEndpoint (some server_name) none txid obs h = h
  with_control_tls-IsEndpoint (some server_name) (some tls) txid obs h =
      if-keeps (λ y. IsEndpoint (txid, y)) (str_eq tls.server_name server_name) _ _ h h

  pub xref_tls_failure-IsEndpoint :
      (txid : ℤ) (obs : WebObservation)
      → IsEndpoint (txid, obs)
      → Returns (λ y. IsEndpoint (txid, y)) (Control.xref_tls_failure resp obs)
  unfolding Control.xref_tls_failure IsEndpoint
  xref_tls_failure-IsEndpoint txid obs h =
      unwrap-then (λ y. IsEndpoint (txid, y)) obs.endpoint_address _ h.2
        λ address.
          with_control_tls-IsEndpoint obs.tls_server_name (lookup address resp.tls_handshake) txid
            obs h

  with_control_http-IsDnsObservation :
      (obs : WebObservation)
      → IsDnsObservation obs
      → IsDnsObservation (Control.with_control_http resp obs)
  unfolding Control.with_control_http IsDnsObservation last_failure
  with_control_http-IsDnsObservation obs h =
      if-keeps IsDnsObservation (is_set resp.http_request.failure) _ _ h h

  with_control_http-IsSuccess :
      (obs : WebObservation) → IsSuccess obs → IsSuccess (Control.with_control_http resp obs)
  unfolding Control.with_control_http IsSuccess IsDnsObservation last_failure
  with_control_http-IsSuccess obs h = if-keeps IsSuccess (is_set resp.http_request.failure) _ _ h h

  with_control_http-IsEndpoint :
      (e : ℤ × WebObservation) → IsEndpoint e → IsEndpoint (e.0, Control.with_control_http resp e.1)
  unfolding Control.with_control_http IsEndpoint last_failure
  with_control_http-IsEndpoint e h =
      if-keeps (λ y. IsEndpoint (e.0, y)) (is_set resp.http_request.failure) _ _ h h

  pub expectation-IsWellFormed :
      (c : WebObservationsContainer)
      → IsWellFormed c
      → IsWellFormed (Control.control_set_http_final_response_expectation resp c)
  unfolding Control.control_set_http_final_response_expectation IsWellFormed
  expectation-IsWellFormed c h = (
    map-All IsDnsObservation IsDnsObservation _ _ with_control_http-IsDnsObservation h.0,
    map-All IsSuccess IsSuccess _ _ with_control_http-IsSuccess h.1,
    map-All IsEndpoint IsEndpoint _ _ with_control_http-IsEndpoint h.2,
  )
