-- ===== src/Minipipeline/Totality.antt =====
-- pkg/minipipeline/analysis.go: when the analysis of a measurement returns.
use ooni_probe_engine.Prelude.{
  String, Bool, true, false, not, ◌&&◌, ◌≡◌, refl, sym, subst, inl, inr, Option, none, some, List,
  [], ◌∷◌, str_eq, is_set, if◌then◌else◌, Bool-cases,
}
use ooni_probe_engine.Prelude.Int.{ℤ, pos}
use ooni_probe_engine.Prelude.Keys.{int_key}
use ooni_probe_engine.Prelude.Golang.{Float64}
use ooni_probe_engine.Prelude.Outcome.{
  Outcome, returned, panicked, ◌>>=◌, Returns, returns, Returns-bind,
}
use ooni_probe_engine.Optional.{unwrap}
use ooni_probe_engine.Minipipeline.Set.{Set, contains}
use ooni_probe_engine.Minipipeline.Environment.{Environment}
use ooni_probe_engine.Minipipeline.Archival.{WebMeasurement}
use ooni_probe_engine.Minipipeline.Loops.{each_or_panic-Returns, Ends-at}
use ooni_probe_engine.Minipipeline.Observation.{WebObservation, WebObservationsContainer}
use ooni_probe_engine.Minipipeline.Control.{ingested, ingest_web_measurement}
use ooni_probe_engine.Minipipeline.WellFormed.{IsSuccess, IsDnsObservation, IsWellFormed}
use ooni_probe_engine.Minipipeline.WellFormed.Measurement.{
  IsResult, IsIngested, expected_error, ingest_web_measurement-IsResult,
}
use ooni_probe_engine.Minipipeline.Analysis.{
  WebAnalysis, at_depth_zero, is_true, is_success, is_failure, first_time, first_step, for_first,
}
use ooni_probe_engine.Minipipeline.Analysis.Dns
use ooni_probe_engine.Minipipeline.Analysis.Membership.{
  tcp_compute_metrics-Classified, tls_compute_metrics-Classified,
}
use ooni_probe_engine.Minipipeline.Analysis.DnsFailures.{contains-dns_compute_failure_metrics}
use ooni_probe_engine.Minipipeline.Analysis.DnsValidity.{contains-dns_compute_success_metrics}
use ooni_probe_engine.Minipipeline.Analysis.RoundTrips.{contains-http_compute_failure_metrics}
use ooni_probe_engine.Minipipeline.Final

abbrev pub is_returned : {A : Type 0} → Outcome A → Bool
is_returned (returned a) = true
is_returned panicked = false

is_returned-bind :
    {A B : Type 0} (P : A → Type 0) (b : Bool) {m : Outcome A} (f : A → Outcome B)
    → Returns P m
    → ((a : A) → is_returned (f a) ≡ b)
    → is_returned (m >>= f) ≡ b
is_returned-bind P b f (returns a p) k = k a

-- The first final response has a control and follows a failed handshake.
unfoldable pub asserts : List (ℤ × WebObservation) → Bool
asserts [] = false
asserts ((key, obs) ∷ entries) =
    if is_true obs.http_response_is_final
    then is_set obs.control_http_failure && is_failure obs.tls_handshake_failure
    else asserts entries

module _ (F : Float64) (env : Environment) where
  with_control-is_returned :
      (obs : WebObservation) (o : Option String) (wa : WebAnalysis F.Float)
      → is_returned (Final.with_control F env obs o wa) ≡ not (is_failure o)
  unfolding Final.with_control
  with_control-is_returned obs none wa = refl
  with_control-is_returned obs (some failure) wa = elim (Bool-cases (str_eq failure "")) [
    | inl good ↦ rw good refl
    | inr bad ↦ rw bad refl
  ]

  handle-is_returned :
      (obs : WebObservation) (wa : WebAnalysis F.Float)
      → is_returned (Final.http_handle_final_response F env obs wa)
        ≡ not (is_set obs.control_http_failure && is_failure obs.tls_handshake_failure)
  unfolding Final.http_handle_final_response
  handle-is_returned obs wa = elim (Bool-cases (is_set obs.control_http_failure)) [
    | inl controlled ↦ rw controlled (with_control-is_returned obs obs.tls_handshake_failure wa)
    | inr alone ↦ elim (Bool-cases (is_success obs.tls_handshake_failure)) [
      | inl tls ↦ rw (alone, tls) refl
      | inr tcp ↦ rw (alone, tcp) refl
    ]
  ]

  final_loop-is_returned :
      (entries : List (ℤ × WebObservation)) (wa : WebAnalysis F.Float)
      → is_returned (Final.final_loop F env entries wa) ≡ not (asserts entries)
  unfolding Final.final_loop asserts
  final_loop-is_returned [] wa = refl
  final_loop-is_returned ((key, obs) ∷ entries) wa =
      elim (Bool-cases (is_true obs.http_response_is_final)) [
        | inl final ↦ rw final (handle-is_returned obs wa)
        | inr other ↦ rw other (final_loop-is_returned entries wa)
      ]

  Fine : {A : Type 0} → A → Type 0
  Fine a = Unit

  classic_with_control-Returns :
      (resolved control : Option (Set String)) (txid : ℤ) (wa : WebAnalysis F.Float)
      → is_set resolved ≡ true
      → Returns Fine (Dns.dns_classic_with_control env resolved control txid wa)
  unfolding Dns.dns_classic_with_control Fine
  classic_with_control-Returns none control txid wa h = cc
  classic_with_control-Returns (some addrs) none txid wa h = returns _ tt
  classic_with_control-Returns (some addrs) (some control) txid wa h = returns _ tt

  classic_body-Returns :
      (obs : WebObservation) (txid : ℤ) (wa : WebAnalysis F.Float)
      → IsSuccess obs
      → Returns Fine (Dns.dns_classic_body env obs txid wa)
  unfolding Dns.dns_classic_body IsSuccess Fine
  classic_body-Returns obs txid wa h = elim (Bool-cases (at_depth_zero obs.tag_depth)) [
    | inl zero ↦ rw zero (
        classic_with_control-Returns obs.dns_resolved_addrs obs.control_dns_resolved_addrs txid wa
          h.2)
    | inr later ↦ rw later (returns _ tt)
  ]

  first_time-Returns :
      (obs : WebObservation) (txid : ℤ) (b : Bool) (state : Set ℤ × WebAnalysis F.Float)
      → IsSuccess obs
      → Returns Fine (first_time (Dns.dns_classic_body env) obs txid b state)
  unfolding first_time Fine
  first_time-Returns obs txid true (already, wa) h = returns _ tt
  first_time-Returns obs txid false (already, wa) h =
      Returns-bind Fine Fine _ (classic_body-Returns obs txid wa h) λ next u. returns _ tt

  first_step-Returns :
      (obs : WebObservation) (state : Set ℤ × WebAnalysis F.Float)
      → IsSuccess obs
      → Returns Fine (first_step (Dns.dns_classic_body env) obs state)
  unfolding first_step IsSuccess IsDnsObservation
  first_step-Returns obs (already, wa) h =
      subst
        (λ o. Returns Fine (
          unwrap o >>= λ txid.
          first_time (Dns.dns_classic_body env) obs txid (contains already txid) (already, wa)))
        (sym h.0.0)
        (first_time-Returns obs obs.transaction_id (contains already obs.transaction_id)
          (already, wa) h)

  classic-Returns :
      (c : WebObservationsContainer) (wa : WebAnalysis F.Float)
      → IsWellFormed c
      → Returns Fine (Dns.dns_compute_success_metrics_classic env c wa)
  unfolding Dns.dns_compute_success_metrics_classic for_first IsWellFormed Fine
  classic-Returns c wa h =
      Returns-bind Fine Fine _
        (each_or_panic-Returns IsSuccess Fine (first_step (Dns.dns_classic_body env))
          (λ obs state p q. first_step-Returns obs state p) c.dns_lookup_successes ([], wa) h.1 tt)
        λ result u. returns _ tt

  pub analysis-is_returned :
      (c : WebObservationsContainer)
      → IsWellFormed c
      → is_returned (Final.analyze_web_observations_without_linear_analysis F env c)
        ≡ not (asserts c.known_tcp_endpoints)
  unfolding Final.analyze_web_observations_without_linear_analysis
      Final.http_compute_final_response_metrics
  analysis-is_returned c h =
      is_returned-bind _ _ _
        (contains-dns_compute_success_metrics env c (Final.new_web_analysis F env c) (pos 0) h)
        λ success. is_returned-bind Fine _ _ (classic-Returns c success h) λ classic.
          is_returned-bind _ _ _ (contains-dns_compute_failure_metrics c classic (pos 0) h)
            λ failure.
              is_returned-bind _ _ _ (tcp_compute_metrics-Classified env c failure (pos 0) h) λ tcp.
                is_returned-bind _ _ _ (tls_compute_metrics-Classified c tcp (pos 0) h) λ tls.
                  is_returned-bind _ _ _ (contains-http_compute_failure_metrics c tls (pos 0) h)
                    λ http. final_loop-is_returned c.known_tcp_endpoints http

  -- The analysis of a measurement that was ingested panics only in the assertion on the final response:
  -- it returns unless the first endpoint with a final response has a failed TLS handshake and the
  -- control's messages were ingested.
  pub analyze_ingested-is_returned :
      (meas : WebMeasurement) (c : WebObservationsContainer)
      → ingest_web_measurement env meas ≡ returned (ingested c)
      → is_returned (Final.analyze_web_observations_without_linear_analysis F env c)
        ≡ not (asserts c.known_tcp_endpoints)
  unfolding IsResult IsIngested
  analyze_ingested-is_returned meas c e =
      analysis-is_returned c
        (Ends-at _ (IsResult (expected_error env meas.test_keys)) (ingested c)
          (ingest_web_measurement-IsResult env meas) e).1
