-- ===== src/Minipipeline/Analysis/RoundTrips.antt =====
-- pkg/minipipeline/analysis.go: which transactions httpComputeFailureMetrics puts in which set.
use ooni_probe_engine.Prelude.{
  String, Bool, not, ◌&&◌, ◌||◌, ◌≡◌, refl, ap, ◌∙◌, inl, inr, Option, none, some, str_eq, is_set,
  Bool-cases,
}
use ooni_probe_engine.Prelude.Int.{ℤ}
use ooni_probe_engine.Prelude.Keys.{int_key}
use ooni_probe_engine.Prelude.Outcome.{returned, Returns, returns}
use ooni_probe_engine.Minipipeline.Set.{contains}
use ooni_probe_engine.Minipipeline.Loops.{each_or_panic-eq-each}
use ooni_probe_engine.Minipipeline.Observation.{WebObservation, WebObservationsContainer}
use ooni_probe_engine.Minipipeline.WellFormed.{IsEndpoint, IsWellFormed}
use ooni_probe_engine.Minipipeline.Analysis.{WebAnalysis, is_success, is_failure}
use ooni_probe_engine.Minipipeline.Analysis.Adding.{add_if, in_any, contains-each}
use ooni_probe_engine.Minipipeline.Analysis.Endpoints

-- The probe failed and there is no control.
abbrev pub is_unexplained_round_trip : WebObservation → Bool
is_unexplained_round_trip obs = is_failure obs.http_failure && not (is_set obs.control_http_failure)

-- The probe failed and the control succeeded.
abbrev pub is_unexpected_round_trip : WebObservation → Bool
is_unexpected_round_trip obs = is_failure obs.http_failure && is_success obs.control_http_failure

module _ {Float : Type 0} where
  effect : Option String → Option String → ℤ → WebAnalysis Float → WebAnalysis Float
  effect failure control txid wa = record wa {
    http_round_trip_unexplained_failure =
        add_if (is_failure failure && not (is_set control)) txid
          wa.http_round_trip_unexplained_failure;
    http_round_trip_unexpected_failure =
        add_if (is_failure failure && is_success control) txid
          wa.http_round_trip_unexpected_failure;
  }

  http_measured-effect :
      (failure control : Option String) (txid : ℤ) (wa : WebAnalysis Float)
      → Endpoints.http_measured (some txid) failure control wa
        ≡ returned (effect failure control txid wa)
  unfolding Endpoints.http_measured effect
  http_measured-effect none control txid wa = refl
  http_measured-effect (some failure) none txid wa = elim (Bool-cases (str_eq failure "")) [
    | inl good ↦ rw good refl
    | inr bad ↦ rw bad refl
  ]
  http_measured-effect (some failure) (some control) txid wa =
      let fine = Bool-cases (str_eq control "") in
      elim (Bool-cases (str_eq failure "")) [
        | inl good ↦ elim fine [ inl e ↦ rw (good, e) refl | inr e ↦ rw (good, e) refl ]
        | inr bad ↦ elim fine [ inl e ↦ rw (bad, e) refl | inr e ↦ rw (bad, e) refl ]
      ]

  effect_of : ℤ × WebObservation → WebAnalysis Float → WebAnalysis Float
  effect_of e wa = effect e.1.http_failure e.1.control_http_failure (e.0) wa

  http_body-effect :
      (e : ℤ × WebObservation) (wa : WebAnalysis Float)
      → IsEndpoint e
      → Endpoints.http_body e wa ≡ returned (effect_of e wa)
  unfolding Endpoints.http_body effect_of IsEndpoint
  http_body-effect e wa h =
      ap (λ o. Endpoints.http_measured o e.1.http_failure e.1.control_http_failure wa) h.0
      ∙ http_measured-effect e.1.http_failure e.1.control_http_failure (e.0) wa

  -- Of both sets, when they have the transaction.
  unfoldable pub RoundTripsDecided :
      WebObservationsContainer → WebAnalysis Float → ℤ → WebAnalysis Float → Type 0
  RoundTripsDecided c wa asked new =
      (contains new.http_round_trip_unexplained_failure asked ≡ (
        in_any is_unexplained_round_trip c.known_tcp_endpoints asked
        || contains wa.http_round_trip_unexplained_failure asked))
      × (contains new.http_round_trip_unexpected_failure asked ≡ (
          in_any is_unexpected_round_trip c.known_tcp_endpoints asked
          || contains wa.http_round_trip_unexpected_failure asked))

  -- On a well-formed container, httpComputeFailureMetrics returns, at any depth adds the transactions
  -- whose round trip failed to the unexplained ones where there is no control and to the unexpected
  -- ones where the control succeeded, and adds no other.
  pub contains-http_compute_failure_metrics :
      (c : WebObservationsContainer) (wa : WebAnalysis Float) (asked : ℤ)
      → IsWellFormed c
      → Returns (RoundTripsDecided c wa asked) (Endpoints.http_compute_failure_metrics c wa)
  unfolding Endpoints.http_compute_failure_metrics IsWellFormed effect effect_of RoundTripsDecided
  contains-http_compute_failure_metrics c wa asked h =
      let l = c.known_tcp_endpoints in
      rw (each_or_panic-eq-each IsEndpoint Endpoints.http_body effect_of http_body-effect l wa h.2)
        (returns _ (
          contains-each (λ s. s.http_round_trip_unexplained_failure) is_unexplained_round_trip
              effect_of (λ e s. refl) l wa asked,
          contains-each (λ s. s.http_round_trip_unexpected_failure) is_unexpected_round_trip
              effect_of (λ e s. refl) l wa asked,
        ))
