-- ===== src/Minipipeline/Classic.antt =====
-- pkg/minipipeline/classic.go: ClassicFilter.
pub mod Kept
use ooni_probe_engine.Prelude.{
  ℕ, zero, suc, ◌+◌, String, Bool, true, false, not, ◌&&◌, Option, none, some, List, [], ◌∷◌, keep,
  str_eq, is_set, if◌then◌else◌,
}
use ooni_probe_engine.Prelude.Int.{ℤ}
use ooni_probe_engine.Prelude.Dict.{Dict, lookup, insert}
use ooni_probe_engine.Prelude.Keys.{int_key}
use ooni_probe_engine.Prelude.Table.{Table, store}
use ooni_probe_engine.Prelude.Outcome.{Outcome, returned, ◌>>=◌}
use ooni_probe_engine.Optional.{unwrap, unwrap_or}
use ooni_probe_engine.Minipipeline.Loops.{each_or_panic}
use ooni_probe_engine.Minipipeline.Observation.{
  WebObservation, WebObservationsContainer, ip_address_origin_dns, ip_address_origin_th,
}
use ooni_probe_engine.Minipipeline.Utils.{engine_is_getaddrinfo}

abbrev pub uses_getaddrinfo : WebObservation → Bool
uses_getaddrinfo entry = engine_is_getaddrinfo entry.dns_engine

-- output.knownIPAddresses, where the next observation of output.DNSLookupSuccesses has the position.
unfoldable pub classic_addresses : List WebObservation → ℕ → Dict ℕ → Outcome (Dict ℕ)
classic_addresses [] position known = returned known
classic_addresses (entry ∷ entries) position known = do
  ip_addr ← unwrap entry.ip_address
  classic_addresses entries (suc position) (insert ip_addr position known)

-- Whether an endpoint stays, given its address.
unfoldable pub keeps_endpoint : Dict ℕ → String → WebObservation → Bool
keeps_endpoint known ip_addr entry =
    let origin = unwrap_or entry.ip_address_origin "" in
    if str_eq origin ip_address_origin_th
    then false
    else if str_eq origin ip_address_origin_dns && not (is_set (lookup ip_addr known))
    then false
    else unwrap_or entry.tag_fetch_body false

unfoldable pub classic_endpoint :
    Dict ℕ → ℤ × WebObservation → Table ℤ WebObservation → Outcome (Table ℤ WebObservation)
unfolding keeps_endpoint
classic_endpoint known (key, entry) output = do
  ip_addr ← unwrap entry.ip_address
  txid ← unwrap entry.endpoint_transaction_id
  returned (if keeps_endpoint known ip_addr entry then store txid entry output else output)

unfoldable pub classic_filter : WebObservationsContainer → Outcome WebObservationsContainer
unfolding classic_addresses classic_endpoint
classic_filter input =
    let successes = keep uses_getaddrinfo input.dns_lookup_successes in
    do
      known ← classic_addresses successes 0 []
      endpoints ← each_or_panic (classic_endpoint known) input.known_tcp_endpoints []
      returned (record {
        dns_lookup_failures = keep uses_getaddrinfo input.dns_lookup_failures;
        dns_lookup_successes = successes;
        known_tcp_endpoints = endpoints;
        control_expectations = input.control_expectations;
        known_ip_addresses = known;
      })
