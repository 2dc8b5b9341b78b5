-- ===== src/Minipipeline/WellFormed/Endpoints.antt =====
-- pkg/minipipeline/observation.go: the loops over the TCP, TLS and HTTP events keep the observations
-- well formed.
use ooni_probe_engine.Prelude.{
  ℕ, zero, suc, String, true, ◌≡◌, refl, inl, inr, Option, none, some, List, [], ◌∷◌, All, is_set,
  Bool-cases,
}
use ooni_probe_engine.Prelude.Int.{ℤ}
use ooni_probe_engine.Prelude.Dict.{lookup}
use ooni_probe_engine.Prelude.Keys.{int_key}
use ooni_probe_engine.Prelude.Table.{find, All-store, All-find}
use ooni_probe_engine.Minipipeline.Archival.{
  ArchivalTcpConnectResult, ArchivalTlsOrQuicHandshakeResult, ArchivalHttpRequestResult,
}
use ooni_probe_engine.Minipipeline.Environment.{Environment}
use ooni_probe_engine.Minipipeline.Loops.{each_event-Ends, Ends, no_nil}
use ooni_probe_engine.Minipipeline.Observation.{WebObservation, WebObservationsContainer}
use ooni_probe_engine.Minipipeline.Ingest
use ooni_probe_engine.Minipipeline.WellFormed.{IsSuccess, IsEndpoint, IsWellFormed, last_failure}

abbrev HasAddress : Option WebObservation → Type 0
HasAddress none = Unit
HasAddress (some obs) = is_set obs.ip_address ≡ true

get_elem-HasAddress :
    (observations : List WebObservation) (i : ℕ)
    → All IsSuccess observations
    → HasAddress (Ingest.get_elem? observations i)
unfolding Ingest.get_elem? IsSuccess
get_elem-HasAddress [] i h = tt
get_elem-HasAddress (obs ∷ observations) zero h = h.0.3
get_elem-HasAddress (obs ∷ observations) (suc i) h = get_elem-HasAddress observations i h.1

pointed-HasAddress :
    (observations : List WebObservation) (o : Option ℕ)
    → All IsSuccess observations
    → HasAddress (Ingest.pointed observations o)
unfolding Ingest.pointed
pointed-HasAddress observations none h = tt
pointed-HasAddress observations (some i) h = get_elem-HasAddress observations i h

-- A change of an entry that keeps it well formed.
change_found-IsWellFormed :
    (txid : ℤ) (body : WebObservation → WebObservation) (o : Option WebObservation)
    (c : WebObservationsContainer)
    → ((obs : WebObservation) → IsEndpoint (txid, obs) → IsEndpoint (txid, body obs))
    → find txid c.known_tcp_endpoints ≡ o
    → IsWellFormed c
    → IsWellFormed (Ingest.change_found txid body o c)
unfolding Ingest.change_found IsWellFormed
change_found-IsWellFormed txid body none c keeps e h = h
change_found-IsWellFormed txid body (some obs) c keeps e h = (
  h.0,
  h.1,
  All-store IsEndpoint txid (body obs) c.known_tcp_endpoints
      (keeps obs (All-find IsEndpoint txid obs c.known_tcp_endpoints h.2 e)) h.2,
)

pub ingest_tls_handshake_events-IsWellFormed :
    (evs : List (Option ArchivalTlsOrQuicHandshakeResult)) (c : WebObservationsContainer)
    → IsWellFormed c
    → Ends (no_nil evs) IsWellFormed (Ingest.ingest_tls_handshake_events evs c)
unfolding Ingest.ingest_tls_handshake_events Ingest.change Ingest.handshaked IsEndpoint last_failure
ingest_tls_handshake_events-IsWellFormed evs c h =
    each_event-Ends IsWellFormed
      (λ (ev : ArchivalTlsOrQuicHandshakeResult).
        Ingest.change ev.transaction_id (Ingest.handshaked ev))
      (λ ev s.
        change_found-IsWellFormed ev.transaction_id (Ingest.handshaked ev) _ s
          (λ obs p. (p.0, p.1, p.2, refl)) refl)
      evs c h

module _ (env : Environment) where
  create_or_fetch-HasAddress :
      (ip : String) (o : Option WebObservation)
      → HasAddress o
      → is_set (Ingest.create_or_fetch env ip o).ip_address ≡ true
  unfolding Ingest.create_or_fetch
  create_or_fetch-HasAddress ip none h = refl
  create_or_fetch-HasAddress ip (some obs) h = h

  ingest_tcp_connect_event-IsWellFormed :
      (ev : ArchivalTcpConnectResult) (c : WebObservationsContainer)
      → IsWellFormed c
      → IsWellFormed (Ingest.ingest_tcp_connect_event env ev c)
  unfolding Ingest.ingest_tcp_connect_event Ingest.connected IsWellFormed IsEndpoint last_failure
  ingest_tcp_connect_event-IsWellFormed ev c h =
      let known = lookup ev.ip c.known_ip_addresses in
      let address =
        create_or_fetch-HasAddress ev.ip _ (pointed-HasAddress c.dns_lookup_successes known h.1) in
      (
        h.0,
        h.1,
        All-store IsEndpoint ev.transaction_id _ c.known_tcp_endpoints (refl, address, refl, refl)
            h.2,
      )

  pub ingest_tcp_connect_events-IsWellFormed :
      (evs : List (Option ArchivalTcpConnectResult)) (c : WebObservationsContainer)
      → IsWellFormed c
      → Ends (no_nil evs) IsWellFormed (Ingest.ingest_tcp_connect_events env evs c)
  unfolding Ingest.ingest_tcp_connect_events
  ingest_tcp_connect_events-IsWellFormed evs c h =
      each_event-Ends IsWellFormed (Ingest.ingest_tcp_connect_event env)
        ingest_tcp_connect_event-IsWellFormed evs c h

  round_tripped-IsEndpoint :
      (ev : ArchivalHttpRequestResult) (txid : ℤ) (obs : WebObservation)
      → IsEndpoint (txid, obs)
      → IsEndpoint (txid, Ingest.round_tripped env ev obs)
  unfolding Ingest.round_tripped IsEndpoint last_failure
  round_tripped-IsEndpoint ev txid obs p = elim (Bool-cases (is_set ev.failure)) [
    | inl failed ↦ rw failed (p.0, p.1, p.2, refl)
    | inr good ↦ rw good (p.0, p.1, p.2, refl)
  ]

  pub ingest_http_round_trip_events-IsWellFormed :
      (evs : List (Option ArchivalHttpRequestResult)) (c : WebObservationsContainer)
      → IsWellFormed c
      → Ends (no_nil evs) IsWellFormed (Ingest.ingest_http_round_trip_events env evs c)
  unfolding Ingest.ingest_http_round_trip_events Ingest.change
  ingest_http_round_trip_events-IsWellFormed evs c h =
      each_event-Ends IsWellFormed
        (λ (ev : ArchivalHttpRequestResult).
          Ingest.change ev.transaction_id (Ingest.round_tripped env ev))
        (λ ev s.
          change_found-IsWellFormed ev.transaction_id (Ingest.round_tripped env ev) _ s
            (round_tripped-IsEndpoint ev ev.transaction_id) refl)
        evs c h
