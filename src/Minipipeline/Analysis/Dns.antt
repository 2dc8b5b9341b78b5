-- ===== src/Minipipeline/Analysis/Dns.antt =====
-- pkg/minipipeline/analysis.go: dnsComputeSuccessMetrics and dnsComputeSuccessMetricsClassic.
use ooni_probe_engine.Prelude.{
  String, Bool, ◌&&◌, ◌||◌, Option, none, some, length, ltb, if◌then◌else◌,
}
use ooni_probe_engine.Prelude.Int.{ℤ, pos, ltb_ℤ}
use ooni_probe_engine.Prelude.Keys.{string_key, int_key}
use ooni_probe_engine.Prelude.Outcome.{Outcome, returned, ◌>>=◌}
use ooni_probe_engine.Optional.{unwrap, unwrap_or}
use ooni_probe_engine.Minipipeline.Set.{Set, add_one, remove}
use ooni_probe_engine.Minipipeline.DnsDiff.{
  dns_diff_find_common_ip_address_intersection, dns_diff_find_common_asns_intersection,
}
use ooni_probe_engine.Minipipeline.Environment.{Environment}
use ooni_probe_engine.Minipipeline.Loops.{each}
use ooni_probe_engine.Minipipeline.Observation.{WebObservation, WebObservationsContainer}
use ooni_probe_engine.Minipipeline.Analysis.{
  WebAnalysis, at_depth_zero, is_true, is_success, for_first,
}

module _ (env : Environment) where
  -- Whether a lookup and the control have an address, or else a network, in common.
  unfoldable pub has_common : Set String → Set String → Bool
  has_common measurement control =
      ltb 0 (length (dns_diff_find_common_ip_address_intersection measurement control))
      || ltb 0 (length (dns_diff_find_common_asns_intersection env.lookup_asn measurement control))

-- The DNS transaction whose addresses a successful handshake shows to be valid.
unfoldable pub validated : WebObservation → Option ℤ
validated obs =
    let txid = unwrap_or obs.dns_transaction_id (pos 0) in
    if is_success obs.tls_handshake_failure && ltb_ℤ (pos 0) txid then some txid else none

module _ {Float : Type 0} where
  unfoldable pub undo : Option ℤ → WebAnalysis Float → WebAnalysis Float
  undo none wa = wa
  undo (some txid) wa = record wa {
    dns_lookup_success_with_invalid_addresses =
        remove txid wa.dns_lookup_success_with_invalid_addresses;
    dns_lookup_success_with_valid_address = add_one txid wa.dns_lookup_success_with_valid_address;
  }

  unfoldable pub add_success : Option Bool → ℤ → WebAnalysis Float → WebAnalysis Float
  add_success bogon txid wa =
      let tracked : WebAnalysis Float = record wa {
        dns_lookup_success = add_one txid wa.dns_lookup_success;
      } in
      if is_true bogon
      then record tracked {
        dns_lookup_success_with_bogon_addresses =
            add_one txid wa.dns_lookup_success_with_bogon_addresses;
      }
      else tracked

module _ {Float : Type 0} (env : Environment) where
  -- The end of the body of dnsComputeSuccessMetrics, of an observation with the control's addresses.
  unfoldable pub dns_success_with_control :
      Option (Set String)
      → Option (Set String)
      → ℤ
      → WebAnalysis Float
      → Outcome (WebAnalysis Float)
  unfolding has_common
  dns_success_with_control resolved none txid wa = returned wa
  dns_success_with_control resolved (some control) txid wa = do
    measurement ← unwrap resolved
    returned (
        if has_common env measurement control
        then record wa {
          dns_lookup_success_with_valid_address =
              add_one txid wa.dns_lookup_success_with_valid_address;
        }
        else record wa {
          dns_lookup_success_with_invalid_addresses =
              add_one txid wa.dns_lookup_success_with_invalid_addresses;
        })

  unfoldable pub dns_success_body :
      WebObservation → ℤ → WebAnalysis Float → Outcome (WebAnalysis Float)
  unfolding dns_success_with_control add_success
  dns_success_body obs txid wa =
      if at_depth_zero obs.tag_depth
      then dns_success_with_control obs.dns_resolved_addrs obs.control_dns_resolved_addrs txid
          (add_success obs.ip_address_bogon txid wa)
      else returned wa

  unfoldable pub dns_compute_success_metrics :
      WebObservationsContainer → WebAnalysis Float → Outcome (WebAnalysis Float)
  unfolding dns_success_body validated undo for_first
  dns_compute_success_metrics c wa = do
    filled ← for_first dns_success_body c.dns_lookup_successes wa
    returned (each (λ (e : ℤ × WebObservation). undo (validated e.1)) c.known_tcp_endpoints filled)

  -- The same as dns_success_with_control, for the sets of the classic analysis.
  unfoldable pub dns_classic_with_control :
      Option (Set String)
      → Option (Set String)
      → ℤ
      → WebAnalysis Float
      → Outcome (WebAnalysis Float)
  unfolding has_common
  dns_classic_with_control resolved none txid wa = returned wa
  dns_classic_with_control resolved (some control) txid wa = do
    measurement ← unwrap resolved
    returned (
        if has_common env measurement control
        then record wa {
          dns_lookup_success_with_valid_address_classic =
              add_one txid wa.dns_lookup_success_with_valid_address_classic;
        }
        else record wa {
          dns_lookup_success_with_invalid_addresses_classic =
              add_one txid wa.dns_lookup_success_with_invalid_addresses_classic;
        })

  unfoldable pub dns_classic_body :
      WebObservation → ℤ → WebAnalysis Float → Outcome (WebAnalysis Float)
  unfolding dns_classic_with_control
  dns_classic_body obs txid wa =
      if at_depth_zero obs.tag_depth
      then dns_classic_with_control obs.dns_resolved_addrs obs.control_dns_resolved_addrs txid wa
      else returned wa

  unfoldable pub dns_compute_success_metrics_classic :
      WebObservationsContainer → WebAnalysis Float → Outcome (WebAnalysis Float)
  unfolding dns_classic_body for_first
  dns_compute_success_metrics_classic c wa = for_first dns_classic_body c.dns_lookup_successes wa
