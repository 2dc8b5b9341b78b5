-- ===== src/Minipipeline/Analysis/DnsFailures.antt =====
-- pkg/minipipeline/analysis.go: which failed lookups dnsComputeFailureMetrics puts in which set.
use ooni_probe_engine.Prelude.{
  String, Bool, true, false, not, ◌&&◌, ◌||◌, ◌≡◌, refl, inl, inr, Option, none, some, str_eq,
  is_set, if◌then◌else◌, Bool-cases,
}
use ooni_probe_engine.Prelude.Int.{ℤ}
use ooni_probe_engine.Prelude.Keys.{int_key}
use ooni_probe_engine.Prelude.Outcome.{returned, ◌>>=◌, Returns, returns}
use ooni_probe_engine.Optional.{unwrap, unwrap_or}
use ooni_probe_engine.Minipipeline.Set.{Set, contains}
use ooni_probe_engine.Minipipeline.Observation.{WebObservation, WebObservationsContainer}
use ooni_probe_engine.Minipipeline.Utils.{
  dns_engine_is_dns_over_https, dns_lookup_failure_is_dns_no_answer_for_aaaa, failure_dns_no_answer,
}
use ooni_probe_engine.Minipipeline.WellFormed.{IsDnsObservation, IsWellFormed}
use ooni_probe_engine.Minipipeline.Analysis.{WebAnalysis, at_depth_zero, is_success, is_failure}
use ooni_probe_engine.Minipipeline.Analysis.Adding.{add_if}
use ooni_probe_engine.Minipipeline.Analysis.Failures
use ooni_probe_engine.Minipipeline.Analysis.First.{
  first_passes, for_first-eq-each_first, contains-each_first,
}

-- The probe found no answer and the control resolved no address.
abbrev pub agrees_on_no_answer : Option String → Option (Set String) → Bool
agrees_on_no_answer failure addrs =
    str_eq (unwrap_or failure "") failure_dns_no_answer && Failures.resolved_nothing addrs

-- The lookup counts: not over HTTPS, and not for AAAA without an answer.
abbrev pub counts : WebObservation → Bool
counts obs =
    not (dns_engine_is_dns_over_https obs) && not (dns_lookup_failure_is_dns_no_answer_for_aaaa obs)

abbrev pub is_unexplained_lookup : WebObservation → Bool
is_unexplained_lookup obs =
    counts obs && not (at_depth_zero obs.tag_depth) && is_failure obs.dns_lookup_failure

abbrev fails_as_expected : Option String → Option String → Option (Set String) → Bool
fails_as_expected failure control addrs =
    is_failure failure
    && (is_failure control || is_success control && agrees_on_no_answer failure addrs)

abbrev pub is_expected_failure : WebObservation → Bool
is_expected_failure obs =
    counts obs
    && at_depth_zero obs.tag_depth
    && fails_as_expected obs.dns_lookup_failure obs.control_dns_lookup_failure
        obs.control_dns_resolved_addrs

abbrev fails_unexpectedly : Option String → Option String → Option (Set String) → Bool
fails_unexpectedly failure control addrs =
    is_failure failure && is_success control && not (agrees_on_no_answer failure addrs)

abbrev pub is_unexpected_failure : WebObservation → Bool
is_unexpected_failure obs =
    counts obs
    && at_depth_zero obs.tag_depth
    && fails_unexpectedly obs.dns_lookup_failure obs.control_dns_lookup_failure
        obs.control_dns_resolved_addrs

abbrev pub is_expected_success : WebObservation → Bool
is_expected_success obs =
    counts obs
    && at_depth_zero obs.tag_depth
    && (is_success obs.dns_lookup_failure && is_success obs.control_dns_lookup_failure)

module _ {Float : Type 0} where
  -- What becomes of the four sets, by the test of each of them.
  Adds : Bool → Bool → Bool → Bool → ℤ → WebAnalysis Float → WebAnalysis Float → Type 0
  Adds unexplained expected unexpected success txid wa new =
      (new.dns_lookup_unexplained_failure
        ≡ add_if unexplained txid wa.dns_lookup_unexplained_failure)
      × (new.dns_lookup_expected_failure ≡ add_if expected txid wa.dns_lookup_expected_failure)
      × (new.dns_lookup_unexpected_failure
          ≡ add_if unexpected txid wa.dns_lookup_unexpected_failure)
      × (new.dns_lookup_expected_success ≡ add_if success txid wa.dns_lookup_expected_success)

  with_control-Adds :
      (failure : String) (control : Option String) (addrs : Option (Set String)) (txid : ℤ)
      (wa : WebAnalysis Float)
      → Adds false
          (fails_as_expected (some failure) control addrs)
          (fails_unexpectedly (some failure) control addrs)
          (is_success (some failure) && is_success control)
          txid
          wa
          (Failures.dns_failure_with_control failure control addrs txid wa)
  unfolding Adds Failures.dns_failure_with_control
  with_control-Adds failure none addrs txid wa = elim (Bool-cases (str_eq failure "")) [
    | inl good ↦ rw good (refl, refl, refl, refl)
    | inr bad ↦ rw bad (refl, refl, refl, refl)
  ]
  with_control-Adds failure (some control) addrs txid wa =
      let fine = Bool-cases (str_eq control "") in
      let agrees = Bool-cases (agrees_on_no_answer (some failure) addrs) in
      elim (Bool-cases (str_eq failure "")) [
        | inl good ↦ elim fine [
          | inl e ↦ rw (good, e) (refl, refl, refl, refl)
          | inr e ↦ rw (good, e) (refl, refl, refl, refl)
        ]
        | inr bad ↦ elim fine [
          | inr e ↦ rw (bad, e) (refl, refl, refl, refl)
          | inl e ↦ elim agrees [
            | inl a ↦ rw (bad, e, a) (refl, refl, refl, refl)
            | inr a ↦ rw (bad, e, a) (refl, refl, refl, refl)
          ]
        ]
      ]

  -- The body of the loop, with the failure of the lookup.
  measured_or : WebObservation → ℤ → Option String → WebAnalysis Float → WebAnalysis Float
  measured_or obs txid none wa = wa
  measured_or obs txid (some failure) wa = Failures.dns_failure_measured obs txid failure wa

  measured_or-Adds :
      (obs : WebObservation) (txid : ℤ) (o : Option String) (wa : WebAnalysis Float)
      → Adds
          (not (at_depth_zero obs.tag_depth) && is_failure o)
          (at_depth_zero obs.tag_depth
            && fails_as_expected o obs.control_dns_lookup_failure obs.control_dns_resolved_addrs)
          (at_depth_zero obs.tag_depth
            && fails_unexpectedly o obs.control_dns_lookup_failure obs.control_dns_resolved_addrs)
          (at_depth_zero obs.tag_depth
            && (is_success o && is_success obs.control_dns_lookup_failure))
          txid
          wa
          (measured_or obs txid o wa)
  unfolding Adds measured_or Failures.dns_failure_measured
  measured_or-Adds obs txid none wa = elim (Bool-cases (at_depth_zero obs.tag_depth)) [
    | inl zero ↦ rw zero (refl, refl, refl, refl)
    | inr later ↦ rw later (refl, refl, refl, refl)
  ]
  measured_or-Adds obs txid (some failure) wa = elim (Bool-cases (at_depth_zero obs.tag_depth)) [
    | inl zero ↦ rw zero (
        with_control-Adds failure obs.control_dns_lookup_failure obs.control_dns_resolved_addrs txid
          _)
    | inr later ↦ elim (Bool-cases (str_eq failure "")) [
      | inl good ↦ rw (later, good) (refl, refl, refl, refl)
      | inr bad ↦ rw (later, bad) (refl, refl, refl, refl)
    ]
  ]

  change : WebObservation → ℤ → WebAnalysis Float → WebAnalysis Float
  change obs txid wa =
      if dns_engine_is_dns_over_https obs
      then wa
      else if dns_lookup_failure_is_dns_no_answer_for_aaaa obs
      then wa
      else measured_or obs txid obs.dns_lookup_failure wa

  change-Adds :
      (obs : WebObservation) (txid : ℤ) (wa : WebAnalysis Float)
      → Adds
          (is_unexplained_lookup obs)
          (is_expected_failure obs)
          (is_unexpected_failure obs)
          (is_expected_success obs)
          txid
          wa
          (change obs txid wa)
  unfolding Adds change
  change-Adds obs txid wa = elim (Bool-cases (dns_engine_is_dns_over_https obs)) [
    | inl doh ↦ rw doh (refl, refl, refl, refl)
    | inr other ↦ elim (Bool-cases (dns_lookup_failure_is_dns_no_answer_for_aaaa obs)) [
      | inl skip ↦ rw (other, skip) (refl, refl, refl, refl)
      | inr lookup ↦ rw (other, lookup) (measured_or-Adds obs txid obs.dns_lookup_failure wa)
    ]
  ]

  unwrap-measured :
      (obs : WebObservation) (txid : ℤ) (o : Option String) (wa : WebAnalysis Float)
      → is_set o ≡ true
      → (unwrap o >>= λ failure. returned (Failures.dns_failure_measured obs txid failure wa))
        ≡ returned (measured_or obs txid o wa)
  unfolding measured_or
  unwrap-measured obs txid none wa h = cc
  unwrap-measured obs txid (some failure) wa h = refl

  body-eq-change :
      (obs : WebObservation) (txid : ℤ) (wa : WebAnalysis Float)
      → IsDnsObservation obs
      → Failures.dns_failure_body obs txid wa ≡ returned (change obs txid wa)
  unfolding Failures.dns_failure_body change IsDnsObservation
  body-eq-change obs txid wa h = elim (Bool-cases (dns_engine_is_dns_over_https obs)) [
    | inl doh ↦ rw doh refl
    | inr other ↦ elim (Bool-cases (dns_lookup_failure_is_dns_no_answer_for_aaaa obs)) [
      | inl skip ↦ rw (other, skip) refl
      | inr lookup ↦ rw (other, lookup) (unwrap-measured obs txid obs.dns_lookup_failure wa h.2)
    ]
  ]

  -- Of each set, that it has the transaction when it had it before or the first failed lookup of the
  -- transaction passes the test of the set.
  unfoldable pub FailuresDecided :
      WebObservationsContainer → WebAnalysis Float → ℤ → WebAnalysis Float → Type 0
  FailuresDecided c wa asked new =
      (contains new.dns_lookup_unexplained_failure asked ≡ (
        first_passes is_unexplained_lookup c.dns_lookup_failures asked
        || contains wa.dns_lookup_unexplained_failure asked))
      × (contains new.dns_lookup_expected_failure asked ≡ (
          first_passes is_expected_failure c.dns_lookup_failures asked
          || contains wa.dns_lookup_expected_failure asked))
      × (contains new.dns_lookup_unexpected_failure asked ≡ (
          first_passes is_unexpected_failure c.dns_lookup_failures asked
          || contains wa.dns_lookup_unexpected_failure asked))
      × (contains new.dns_lookup_expected_success asked ≡ (
          first_passes is_expected_success c.dns_lookup_failures asked
          || contains wa.dns_lookup_expected_success asked))

  -- On a well-formed container, dnsComputeFailureMetrics returns, and the first failed lookup of a
  -- transaction decides the sets to which the transaction is added. A lookup over HTTPS, or for AAAA
  -- without an answer, counts for none of them. Beyond depth zero a failure is unexplained. At depth
  -- zero it is expected when the control failed too, or when the probe had no answer and the control
  -- no address; it is unexpected when the control succeeded otherwise; and a lookup with an empty
  -- failure, where the control has one too, is an expected success.
  pub contains-dns_compute_failure_metrics :
      (c : WebObservationsContainer) (wa : WebAnalysis Float) (asked : ℤ)
      → IsWellFormed c
      → Returns (FailuresDecided c wa asked) (Failures.dns_compute_failure_metrics c wa)
  unfolding Failures.dns_compute_failure_metrics IsWellFormed IsDnsObservation Adds FailuresDecided
  contains-dns_compute_failure_metrics c wa asked h =
      let l = c.dns_lookup_failures in
      rw
        (for_first-eq-each_first IsDnsObservation Failures.dns_failure_body change body-eq-change
          (λ obs p. p.0) l wa h.0)
        (returns _ (
          contains-each_first (λ s. s.dns_lookup_unexplained_failure) is_unexplained_lookup change
              (λ obs txid s. (change-Adds obs txid s).0) l wa asked,
          contains-each_first (λ s. s.dns_lookup_expected_failure) is_expected_failure change
              (λ obs txid s. (change-Adds obs txid s).1) l wa asked,
          contains-each_first (λ s. s.dns_lookup_unexpected_failure) is_unexpected_failure change
              (λ obs txid s. (change-Adds obs txid s).2) l wa asked,
          contains-each_first (λ s. s.dns_lookup_expected_success) is_expected_success change
              (λ obs txid s. (change-Adds obs txid s).3) l wa asked,
        ))
