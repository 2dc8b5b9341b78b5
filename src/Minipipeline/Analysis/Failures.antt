-- ===== src/Minipipeline/Analysis/Failures.antt =====
-- pkg/minipipeline/analysis.go: dnsComputeFailureMetrics.
use ooni_probe_engine.Prelude.{
  String, Bool, false, not, ◌&&◌, Option, none, some, length, str_eq, leb, is_set, if◌then◌else◌,
}
use ooni_probe_engine.Prelude.Int.{ℤ}
use ooni_probe_engine.Prelude.Keys.{string_key, int_key}
use ooni_probe_engine.Prelude.Outcome.{Outcome, returned, ◌>>=◌}
use ooni_probe_engine.Optional.{unwrap}
use ooni_probe_engine.Minipipeline.Set.{Set, add_one}
use ooni_probe_engine.Minipipeline.Observation.{WebObservation, WebObservationsContainer}
use ooni_probe_engine.Minipipeline.Utils.{
  dns_engine_is_dns_over_https, dns_lookup_failure_is_dns_no_answer_for_aaaa, failure_dns_no_answer,
}
use ooni_probe_engine.Minipipeline.Analysis.{WebAnalysis, at_depth_zero, for_first}

-- !addrs.IsNone() && addrs.Unwrap().Len() <= 0
abbrev pub resolved_nothing : Option (Set String) → Bool
resolved_nothing none = false
resolved_nothing (some addrs) = leb (length addrs) 0

module _ {Float : Type 0} where
  abbrev add_unexplained : ℤ → WebAnalysis Float → WebAnalysis Float
  add_unexplained txid wa = record wa {
    dns_lookup_unexplained_failure = add_one txid wa.dns_lookup_unexplained_failure;
  }

  abbrev add_expected : ℤ → WebAnalysis Float → WebAnalysis Float
  add_expected txid wa = record wa {
    dns_lookup_expected_failure = add_one txid wa.dns_lookup_expected_failure;
  }

  abbrev add_unexpected : ℤ → WebAnalysis Float → WebAnalysis Float
  add_unexpected txid wa = record wa {
    dns_lookup_unexpected_failure = add_one txid wa.dns_lookup_unexpected_failure;
  }

  abbrev add_expected_success : ℤ → WebAnalysis Float → WebAnalysis Float
  add_expected_success txid wa = record wa {
    dns_lookup_expected_success = add_one txid wa.dns_lookup_expected_success;
  }

  -- The first failure at depth zero.
  abbrev honor_experiment_failure : String → WebAnalysis Float → WebAnalysis Float
  honor_experiment_failure failure wa = record wa {
    dns_experiment_failure =
        if not (str_eq failure "") && not (is_set wa.dns_experiment_failure)
        then some failure
        else wa.dns_experiment_failure;
  }

  -- With the failures of the probe and of the control, and the addresses of the control.
  unfoldable pub dns_failure_with_control :
      String → Option String → Option (Set String) → ℤ → WebAnalysis Float → WebAnalysis Float
  dns_failure_with_control failure none addrs txid wa = wa
  dns_failure_with_control failure (some control) addrs txid wa =
      if not (str_eq failure "") && not (str_eq control "")
      then add_expected txid wa
      else if not (str_eq control "")
      then wa
      else if not (str_eq failure "")
      then (if str_eq failure failure_dns_no_answer && resolved_nothing addrs
          then add_expected txid wa
          else add_unexpected txid wa)
      else add_expected_success txid wa

  -- obs.DNSLookupFailure.Unwrap() is evaluated on every path from here.
  unfoldable pub dns_failure_measured :
      WebObservation → ℤ → String → WebAnalysis Float → WebAnalysis Float
  unfolding dns_failure_with_control
  dns_failure_measured obs txid failure wa =
      if at_depth_zero obs.tag_depth
      then dns_failure_with_control failure obs.control_dns_lookup_failure
          obs.control_dns_resolved_addrs txid (honor_experiment_failure failure wa)
      else if not (str_eq failure "")
      then add_unexplained txid wa
      else wa

  unfoldable pub dns_failure_body :
      WebObservation → ℤ → WebAnalysis Float → Outcome (WebAnalysis Float)
  unfolding dns_failure_measured
  dns_failure_body obs txid wa =
      if dns_engine_is_dns_over_https obs
      then returned wa
      else if dns_lookup_failure_is_dns_no_answer_for_aaaa obs
      then returned wa
      else (do
        failure ← unwrap obs.dns_lookup_failure
        returned (dns_failure_measured obs txid failure wa))

  unfoldable pub dns_compute_failure_metrics :
      WebObservationsContainer → WebAnalysis Float → Outcome (WebAnalysis Float)
  unfolding dns_failure_body for_first
  dns_compute_failure_metrics c wa = for_first dns_failure_body c.dns_lookup_failures wa
