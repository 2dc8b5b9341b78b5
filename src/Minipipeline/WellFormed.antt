-- ===== src/Minipipeline/WellFormed.antt =====
-- What pkg/minipipeline/observation.go relies on in the observations: the fields that its loops and those
-- of analysis.go unwrap, the identifiers, and the single failure of an observation.
pub mod Endpoints
pub mod Control
pub mod Measurement
pub mod Answers
use ooni_probe_engine.Prelude.{
  ℕ, zero, suc, String, Bool, true, false, ◌&&◌, ◌≡◌, refl, sym, subst, inl, inr, Option, none,
  some, List, [], ◌∷◌, ◌++◌, map, All, All-append, All-imp, is_set, if◌then◌else◌, Bool-cases,
}
use ooni_probe_engine.Prelude.Int.{ℤ}
use ooni_probe_engine.Prelude.Dict.{lookup}
use ooni_probe_engine.Prelude.Keys.{string_key, int_key}
use ooni_probe_engine.Prelude.Outcome.{
  Outcome, returned, Returns, returns, Returns-bind, Returns-imp,
}
use ooni_probe_engine.Prelude.Table.{find, store, All-store, All-find}
use ooni_probe_engine.Minipipeline.Set.{new_set, keys}
use ooni_probe_engine.Minipipeline.Archival.{
  ArchivalDnsLookupResult, ArchivalTcpConnectResult, ArchivalTlsOrQuicHandshakeResult,
  ArchivalHttpRequestResult,
}
use ooni_probe_engine.Minipipeline.Environment.{Environment}
use ooni_probe_engine.Minipipeline.Loops.{each, each-inv, each_event-Ends, Ends, Ends-bind, no_nil}
use ooni_probe_engine.Minipipeline.Observation.{
  WebObservation, WebObservationType, dns_lookup, tcp_connect, tls_handshake, http_round_trip,
  WebObservationsContainer, new_web_observations_container,
}
use ooni_probe_engine.Minipipeline.Utils.{resolved_addresses}
use ooni_probe_engine.Minipipeline.Ingest

-- The failure of the last operation.
unfoldable pub last_failure : WebObservation → Option String
last_failure obs = elim obs.observation_type [
  | dns_lookup ↦ obs.dns_lookup_failure
  | tcp_connect ↦ obs.tcp_connect_failure
  | tls_handshake ↦ obs.tls_handshake_failure
  | http_round_trip ↦ obs.http_failure
]

unfoldable pub IsDnsObservation : WebObservation → Type 0
unfolding last_failure
IsDnsObservation obs =
    (obs.dns_transaction_id ≡ some obs.transaction_id)
    × (is_set obs.dns_domain ≡ true)
    × (is_set obs.dns_lookup_failure ≡ true)
    × (obs.failure ≡ last_failure obs)

unfoldable pub IsSuccess : WebObservation → Type 0
unfolding IsDnsObservation
IsSuccess obs =
    IsDnsObservation obs
    × (obs.dns_lookup_failure ≡ some "")
    × (is_set obs.dns_resolved_addrs ≡ true)
    × (is_set obs.ip_address ≡ true)

-- An entry of KnownTCPEndpoints.
unfoldable pub IsEndpoint : ℤ × WebObservation → Type 0
unfolding last_failure
IsEndpoint entry =
    (entry.1.endpoint_transaction_id ≡ some entry.0)
    × (is_set entry.1.ip_address ≡ true)
    × (is_set entry.1.endpoint_address ≡ true)
    × (entry.1.failure ≡ last_failure entry.1)

unfoldable pub IsWellFormed : WebObservationsContainer → Type 0
unfolding IsSuccess IsEndpoint
IsWellFormed c =
    All IsDnsObservation c.dns_lookup_failures
    × All IsSuccess c.dns_lookup_successes
    × All IsEndpoint c.known_tcp_endpoints

module _ (env : Environment) where
  add_failed_lookup-IsWellFormed :
      (ev : ArchivalDnsLookupResult) (o : Option String) (c : WebObservationsContainer)
      → IsWellFormed c
      → IsWellFormed (Ingest.add_failed_lookup env ev o c)
  unfolding IsWellFormed IsDnsObservation last_failure Ingest.add_failed_lookup Ingest.failed_lookup
  add_failed_lookup-IsWellFormed ev none c h = h
  add_failed_lookup-IsWellFormed ev (some failure) c h = (
    All-append IsDnsObservation c.dns_lookup_failures _ h.0 ((refl, refl, refl, refl), tt),
    h.1,
    h.2,
  )

  ingest_address-IsWellFormed :
      (ev : ArchivalDnsLookupResult) (addrs : List String) (ip_addr : String)
      (c : WebObservationsContainer)
      → IsWellFormed c
      → IsWellFormed (Ingest.ingest_address env ev addrs ip_addr c)
  unfolding IsWellFormed IsSuccess IsDnsObservation last_failure Ingest.ingest_address
      Ingest.successful_lookup
  ingest_address-IsWellFormed ev addrs ip_addr c h = (
    h.0,
    All-append IsSuccess c.dns_lookup_successes _ h.1
        (((refl, refl, refl, refl), refl, refl, refl), tt),
    h.2,
  )

  add_successful_lookups-IsWellFormed :
      (ev : ArchivalDnsLookupResult) (o : Option String) (c : WebObservationsContainer)
      → IsWellFormed c
      → IsWellFormed (Ingest.add_successful_lookups env ev o c)
  unfolding Ingest.add_successful_lookups
  add_successful_lookups-IsWellFormed ev (some failure) c h = h
  add_successful_lookups-IsWellFormed ev none c h =
      let addrs = new_set (resolved_addresses ev.answers) in
      each-inv IsWellFormed (Ingest.ingest_address env ev addrs)
        (ingest_address-IsWellFormed ev addrs) (keys addrs) c h

  pub ingest_dns_lookup_events-IsWellFormed :
      (evs : List (Option ArchivalDnsLookupResult)) (c : WebObservationsContainer)
      → IsWellFormed c
      → Ends (no_nil evs && no_nil evs) IsWellFormed (Ingest.ingest_dns_lookup_events env evs c)
  unfolding Ingest.ingest_dns_lookup_events Ingest.ingest_dns_lookup_failure
      Ingest.ingest_dns_lookup_success
  ingest_dns_lookup_events-IsWellFormed evs c h =
      Ends-bind (no_nil evs) (no_nil evs) IsWellFormed IsWellFormed _ _
        (each_event-Ends IsWellFormed (Ingest.ingest_dns_lookup_failure env)
          (λ ev s. add_failed_lookup-IsWellFormed ev ev.failure s) evs c h)
        λ failures p.
          each_event-Ends IsWellFormed (Ingest.ingest_dns_lookup_success env)
            (λ ev s. add_successful_lookups-IsWellFormed ev ev.failure s) evs failures p
