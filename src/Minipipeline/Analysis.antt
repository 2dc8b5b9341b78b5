-- ===== src/Minipipeline/Analysis.antt =====
-- pkg/minipipeline/analysis.go: the analysis, its record and its loops.
pub mod Dns
pub mod Failures
pub mod Endpoints
pub mod Adding
pub mod Facts
pub mod Membership
pub mod First
pub mod Shared
pub mod DnsFailures
pub mod DnsSuccesses
pub mod DnsValidity
pub mod RoundTrips
use ooni_probe_engine.Prelude.{
  ℕ, String, Bool, true, false, not, ◌&&◌, ◌||◌, Option, none, some, List, [], ◌∷◌, length, str_eq,
  ltb, leb, is_set, if◌then◌else◌,
}
use ooni_probe_engine.Prelude.Int.{ℤ, pos, ltb_ℤ}
use ooni_probe_engine.Prelude.Keys.{int_eq, string_key, int_key}
use ooni_probe_engine.Prelude.Outcome.{Outcome, returned, panicked, ◌>>=◌}
use ooni_probe_engine.Optional.{unwrap, unwrap_or}
use ooni_probe_engine.Minipipeline.Set.{Set, contains, add_one, remove}
use ooni_probe_engine.Minipipeline.DnsDiff.{
  dns_diff_find_common_ip_address_intersection, dns_diff_find_common_asns_intersection,
}
use ooni_probe_engine.Minipipeline.Environment.{Environment}
use ooni_probe_engine.Minipipeline.Loops.{each, each_or_panic}
use ooni_probe_engine.Minipipeline.Observation.{
  WebObservation, WebObservationsContainer, WebObservationsControlExpectations,
}
use ooni_probe_engine.Minipipeline.Utils.{
  dns_engine_is_dns_over_https, dns_lookup_failure_is_dns_no_answer_for_aaaa,
  tcp_connect_failure_seems_misconfigured_ipv6, failure_dns_no_answer,
}

-- The sets of WebAnalysis about one operation on endpoints: those whose names begin with TCPConnect,
-- and those whose names begin with TLSHandshake.
pub record FailureSets : Type 0 where
  pub expected_failure : Set ℤ
  pub unexpected_failure : Set ℤ
  pub unexpected_failure_during_web_fetch : Set ℤ
  pub unexpected_failure_during_connectivity_check : Set ℤ
  pub unexplained_failure : Set ℤ
  pub unexplained_failure_during_web_fetch : Set ℤ
  pub unexplained_failure_during_connectivity_check : Set ℤ

pub record WebAnalysis (Float : Type 0) : Type 0 where
  pub control_expectations : Option WebObservationsControlExpectations
  pub dns_lookup_success : Set ℤ
  pub dns_lookup_success_with_invalid_addresses : Set ℤ
  pub dns_lookup_success_with_valid_address : Set ℤ
  pub dns_lookup_success_with_bogon_addresses : Set ℤ
  pub dns_lookup_success_with_invalid_addresses_classic : Set ℤ
  pub dns_lookup_success_with_valid_address_classic : Set ℤ
  pub dns_lookup_unexpected_failure : Set ℤ
  pub dns_lookup_unexplained_failure : Set ℤ
  pub dns_experiment_failure : Option String
  pub dns_lookup_expected_failure : Set ℤ
  pub dns_lookup_expected_success : Set ℤ
  pub tcp_connect : FailureSets
  pub tls_handshake : FailureSets
  pub http_round_trip_unexpected_failure : Set ℤ
  pub http_round_trip_unexplained_failure : Set ℤ
  pub http_final_response_success_tls_without_control : Option ℤ
  pub http_final_response_success_tls_with_control : Option ℤ
  pub http_final_response_success_tcp_without_control : Option ℤ
  pub http_final_response_success_tcp_with_control : Option ℤ
  pub http_final_response_diff_body_proportion_factor : Option Float
  pub http_final_response_diff_status_code_match : Option Bool
  pub http_final_response_diff_title_different_long_words : Option (Set String)
  pub http_final_response_diff_uncommon_headers_intersection : Option (Set String)
  pub linear : List WebObservation

-- !obs.TagDepth.IsNone() && obs.TagDepth.Unwrap() == 0
abbrev pub at_depth_zero : Option ℤ → Bool
at_depth_zero none = false
at_depth_zero (some depth) = int_eq depth (pos 0)

abbrev pub is_true : Option Bool → Bool
is_true none = false
is_true (some b) = b

-- !value.IsNone() && value.Unwrap() == ""
abbrev pub is_success : Option String → Bool
is_success none = false
is_success (some failure) = str_eq failure ""

-- !value.IsNone() && value.Unwrap() != ""
abbrev pub is_failure : Option String → Bool
is_failure none = false
is_failure (some failure) = not (str_eq failure "")

module _ {A : Type 0} where
  -- The loops that consider only the first observation of each DNS transaction, with the set `already`.
  unfoldable pub first_time :
      (WebObservation → ℤ → A → Outcome A)
      → WebObservation
      → ℤ
      → Bool
      → Set ℤ × A
      → Outcome (Set ℤ × A)
  first_time body obs txid true (already, wa) = returned (already, wa)
  first_time body obs txid false (already, wa) = do
    next ← body obs txid wa
    returned (add_one txid already, next)

  unfoldable pub first_step :
      (WebObservation → ℤ → A → Outcome A) → WebObservation → Set ℤ × A → Outcome (Set ℤ × A)
  unfolding first_time
  first_step body obs (already, wa) = do
    txid ← unwrap obs.dns_transaction_id
    first_time body obs txid (contains already txid) (already, wa)

  unfoldable pub for_first :
      (WebObservation → ℤ → A → Outcome A) → List WebObservation → A → Outcome A
  unfolding first_step
  for_first body observations wa = do
    result ← each_or_panic (first_step body) observations ([], wa)
    returned (result.1)
