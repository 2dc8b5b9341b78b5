-- ===== src/Minipipeline/Verdicts.antt =====
-- pkg/minipipeline/analysis.go: the steps of the analysis after dnsComputeSuccessMetrics keep the valid
-- and the invalid lookups, and what the whole analysis says of them.
pub mod Lookups
use ooni_probe_engine.Prelude.{
  String, Bool, true, false, not, ◌&&◌, ◌||◌, ◌≡◌, refl, sym, subst, ap, ◌∙◌, inl, inr, Option,
  none, some, List, [], ◌∷◌, All, str_eq, is_set, if◌then◌else◌, Bool-cases, arith,
}
use ooni_probe_engine.Prelude.Int.{ℤ, pos}
use ooni_probe_engine.Prelude.Keys.{int_eq, int_key}
use ooni_probe_engine.Prelude.Golang.{Float64}
use ooni_probe_engine.Prelude.Outcome.{
  Outcome, returned, panicked, ◌>>=◌, Returns, returns, Returns-at, returned_inj,
}
use ooni_probe_engine.Optional.{unwrap, unwrap_or}
use ooni_probe_engine.Minipipeline.Set.{Set, contains, add_one}
use ooni_probe_engine.Minipipeline.Environment.{Environment}
use ooni_probe_engine.Minipipeline.Observation.{WebObservation, WebObservationsContainer}
use ooni_probe_engine.Minipipeline.Loops.{each_or_panic, each_or_panic-Returns}
use ooni_probe_engine.Minipipeline.WellFormed.{IsWellFormed}
use ooni_probe_engine.Minipipeline.Analysis.{
  WebAnalysis, at_depth_zero, is_true, is_success, first_time, first_step, for_first,
}
use ooni_probe_engine.Minipipeline.Analysis.Dns
use ooni_probe_engine.Minipipeline.Analysis.Failures
use ooni_probe_engine.Minipipeline.Analysis.Endpoints
use ooni_probe_engine.Minipipeline.Analysis.First.{first_passes}
use ooni_probe_engine.Minipipeline.Analysis.DnsSuccesses.{is_valid_lookup, is_invalid_lookup}
use ooni_probe_engine.Minipipeline.Analysis.DnsValidity.{
  any_validated, SuccessesDecided, contains-dns_compute_success_metrics,
}
use ooni_probe_engine.Minipipeline.Final
use ooni_probe_engine.Minipipeline.Partial.{
  Partial, fails, gives, Partial-bind, Partial-after, Partial-if, Partial-at, if-both,
  each_or_panic-Partial, for_first-Partial,
}

module _ (F : Float64) (valid invalid : Set ℤ) where
  -- The valid and the invalid lookups are the given ones.
  unfoldable pub Keeps : WebAnalysis F.Float → Type 0
  Keeps wa =
      (wa.dns_lookup_success_with_valid_address ≡ valid)
      × (wa.dns_lookup_success_with_invalid_addresses ≡ invalid)

  classic_with_control-Keeps :
      (env : Environment) (resolved control : Option (Set String)) (txid : ℤ)
      (wa : WebAnalysis F.Float)
      → Keeps wa
      → Partial Keeps (Dns.dns_classic_with_control env resolved control txid wa)
  unfolding Keeps Dns.dns_classic_with_control
  classic_with_control-Keeps env resolved none txid wa h = gives wa h
  classic_with_control-Keeps env resolved (some control) txid wa h =
      Partial-after Keeps (unwrap resolved) _
        λ measurement. gives _ (if-both Keeps (Dns.has_common env measurement control) _ _ h h)

  classic-Keeps :
      (env : Environment) (c : WebObservationsContainer) (wa : WebAnalysis F.Float)
      → Keeps wa
      → Partial Keeps (Dns.dns_compute_success_metrics_classic env c wa)
  unfolding Keeps Dns.dns_compute_success_metrics_classic Dns.dns_classic_body
  classic-Keeps env c wa h =
      for_first-Partial Keeps (Dns.dns_classic_body env)
        (λ obs txid s q.
          Partial-if Keeps (at_depth_zero obs.tag_depth) _ _
            (classic_with_control-Keeps env obs.dns_resolved_addrs obs.control_dns_resolved_addrs
              txid s q)
            (gives s q))
        c.dns_lookup_successes wa h

  with_control-Keeps :
      (failure : String) (control : Option String) (addrs : Option (Set String)) (txid : ℤ)
      (wa : WebAnalysis F.Float)
      → Keeps wa
      → Keeps (Failures.dns_failure_with_control failure control addrs txid wa)
  unfolding Keeps Failures.dns_failure_with_control
  with_control-Keeps failure none addrs txid wa h = h
  with_control-Keeps failure (some control) addrs txid wa h =
      if-both Keeps (not (str_eq failure "") && not (str_eq control "")) _ _ h (
        if-both Keeps (not (str_eq control "")) _ _ h
          (if-both Keeps (not (str_eq failure "")) _ _ (if-both Keeps _ _ _ h h) h))

  failures-Keeps :
      (c : WebObservationsContainer) (wa : WebAnalysis F.Float)
      → Keeps wa
      → Partial Keeps (Failures.dns_compute_failure_metrics c wa)
  unfolding Keeps Failures.dns_compute_failure_metrics Failures.dns_failure_body
      Failures.dns_failure_measured
  failures-Keeps c wa h =
      for_first-Partial Keeps Failures.dns_failure_body
        (λ obs txid s q. Partial-if Keeps _ _ _ (gives s q) (
          Partial-if Keeps _ _ _ (gives s q) (
            Partial-after Keeps (unwrap obs.dns_lookup_failure) _ λ failure. gives _ (
              if-both Keeps (at_depth_zero obs.tag_depth) _ _
                (with_control-Keeps failure obs.control_dns_lookup_failure
                  obs.control_dns_resolved_addrs txid _ q)
                (if-both Keeps (not (str_eq failure "")) _ _ q q)))))
        c.dns_lookup_failures wa h

  http_measured-Keeps :
      (txid : Option ℤ) (failure control : Option String) (wa : WebAnalysis F.Float)
      → Keeps wa
      → Partial Keeps (Endpoints.http_measured txid failure control wa)
  unfolding Keeps Endpoints.http_measured
  http_measured-Keeps txid none control wa h = gives wa h
  http_measured-Keeps txid (some failure) none wa h =
      Partial-if Keeps (not (str_eq failure "")) _ _
        (Partial-after Keeps (unwrap txid) _ λ id. gives _ h) (gives wa h)
  http_measured-Keeps txid (some failure) (some control) wa h =
      Partial-if Keeps _ _ _ (gives wa h) (
        Partial-if Keeps _ _ _ (gives wa h) (
          Partial-if Keeps (not (str_eq failure "")) _ _
            (Partial-after Keeps (unwrap txid) _ λ id. gives _ h) (gives wa h)))

  same-Keeps :
      (wa new : WebAnalysis F.Float)
      → new.dns_lookup_success_with_valid_address ≡ wa.dns_lookup_success_with_valid_address
      → new.dns_lookup_success_with_invalid_addresses ≡ wa.dns_lookup_success_with_invalid_addresses
      → Keeps wa
      → Keeps new
  unfolding Keeps
  same-Keeps wa new e f h = (e ∙ h.0, f ∙ h.1)

  body_proportion_factor-Keeps :
      (env : Environment) (obs : WebObservation) (wa : WebAnalysis F.Float)
      → Keeps wa
      → Keeps (Final.http_diff_body_proportion_factor F env obs wa)
  unfolding Final.http_diff_body_proportion_factor
  body_proportion_factor-Keeps env obs wa h =
      if-both Keeps (not (unwrap_or obs.http_response_is_final false)) _ _ h (
        if-both Keeps (not (Final.is_positive (Final.int_or_zero obs.http_response_body_length))) _
          _ h
          (if-both Keeps (unwrap_or obs.http_response_body_is_truncated true) _ _ h (
            if-both Keeps
              (not (Final.is_positive (Final.int_or_zero obs.control_http_response_body_length))) _
              _ h (same-Keeps wa _ refl refl h))))

  status_code_match-Keeps :
      (env : Environment) (obs : WebObservation) (wa : WebAnalysis F.Float)
      → Keeps wa
      → Keeps (Final.http_diff_status_code_match F env obs wa)
  unfolding Final.http_diff_status_code_match
  status_code_match-Keeps env obs wa h =
      if-both Keeps (not (unwrap_or obs.http_response_is_final false)) _ _ h (
        if-both Keeps (not (Final.is_positive (Final.int_or_zero obs.http_response_status_code))) _
          _ h
          (if-both Keeps
            (not (Final.is_positive (Final.int_or_zero obs.control_http_response_status_code))) _ _
            h (same-Keeps wa _ refl refl h)))

  uncommon_headers_intersection-Keeps :
      (env : Environment) (obs : WebObservation) (wa : WebAnalysis F.Float)
      → Keeps wa
      → Keeps (Final.http_diff_uncommon_headers_intersection F env obs wa)
  unfolding Final.http_diff_uncommon_headers_intersection
  uncommon_headers_intersection-Keeps env obs wa h =
      if-both Keeps (not (unwrap_or obs.http_response_is_final false)) _ _ h (
        if-both Keeps
          (not (Final.is_positive (Final.int_or_zero obs.control_http_response_status_code))) _ _ h
          (same-Keeps wa _ refl refl h))

  title_different_long_words-Keeps :
      (env : Environment) (obs : WebObservation) (wa : WebAnalysis F.Float)
      → Keeps wa
      → Keeps (Final.http_diff_title_different_long_words F env obs wa)
  unfolding Final.http_diff_title_different_long_words
  title_different_long_words-Keeps env obs wa h =
      if-both Keeps (not (unwrap_or obs.http_response_is_final false)) _ _ h (
        if-both Keeps
          (not (Final.is_positive (Final.int_or_zero obs.control_http_response_status_code))) _ _ h
          (same-Keeps wa _ refl refl h))

  http_diff-Keeps :
      (env : Environment) (obs : WebObservation) (wa : WebAnalysis F.Float)
      → Keeps wa
      → Keeps (Final.http_diff F env obs wa)
  unfolding Final.http_diff
  http_diff-Keeps env obs wa h = title_different_long_words-Keeps env obs _ (
      uncommon_headers_intersection-Keeps env obs _
        (status_code_match-Keeps env obs _ (body_proportion_factor-Keeps env obs wa h)))

  final_control-Keeps :
      (env : Environment) (obs : WebObservation) (o : Option String) (wa : WebAnalysis F.Float)
      → Keeps wa
      → Partial Keeps (Final.with_control F env obs o wa)
  unfolding Keeps Final.with_control
  final_control-Keeps env obs none wa h = gives _ (http_diff-Keeps env obs _ h)
  final_control-Keeps env obs (some failure) wa h =
      Partial-if Keeps (str_eq failure "") _ _ (gives _ (http_diff-Keeps env obs _ h)) fails

  handle-Keeps :
      (env : Environment) (obs : WebObservation) (wa : WebAnalysis F.Float)
      → Keeps wa
      → Partial Keeps (Final.http_handle_final_response F env obs wa)
  unfolding Keeps Final.http_handle_final_response
  handle-Keeps env obs wa h =
      Partial-if Keeps (not (is_set obs.control_http_failure)) _ _
        (Partial-if Keeps (is_success obs.tls_handshake_failure) _ _ (gives _ h) (gives _ h))
        (final_control-Keeps env obs obs.tls_handshake_failure wa h)

  final_loop-Keeps :
      (env : Environment) (entries : List (ℤ × WebObservation)) (wa : WebAnalysis F.Float)
      → Keeps wa
      → Partial Keeps (Final.final_loop F env entries wa)
  unfolding Final.final_loop
  final_loop-Keeps env [] wa h = gives wa h
  final_loop-Keeps env ((key, obs) ∷ entries) wa h =
      Partial-if Keeps (is_true obs.http_response_is_final) _ _ (handle-Keeps env obs wa h)
        (final_loop-Keeps env entries wa h)

  -- The steps after the first one.
  pub later-Keeps :
      (env : Environment) (c : WebObservationsContainer) (wa : WebAnalysis F.Float)
      → Keeps wa
      → Partial Keeps (
          Dns.dns_compute_success_metrics_classic env c wa >>= λ classic.
          Failures.dns_compute_failure_metrics c classic >>= λ failure.
          Endpoints.tcp_compute_metrics env c failure >>= λ tcp.
          Endpoints.tls_compute_metrics c tcp >>= λ tls.
          Endpoints.http_compute_failure_metrics c tls >>= λ http.
          Final.http_compute_final_response_metrics F env c http)
  unfolding Keeps Endpoints.tcp_compute_metrics Endpoints.tls_compute_metrics
      Endpoints.http_compute_failure_metrics Endpoints.http_body
      Final.http_compute_final_response_metrics
  later-Keeps env c wa h = Partial-bind Keeps Keeps _ (classic-Keeps env c wa h) λ classic p.
      Partial-bind Keeps Keeps _ (failures-Keeps c classic p) λ failure q.
        Partial-bind Keeps Keeps _
          (Partial-after Keeps
            (each_or_panic (Endpoints.tcp_body env) c.known_tcp_endpoints failure.tcp_connect) _
            λ sets. gives _ q)
          λ tcp r.
            Partial-bind Keeps Keeps _
              (Partial-after Keeps
                (each_or_panic Endpoints.tls_body c.known_tcp_endpoints tcp.tls_handshake) _
                λ sets. gives _ r)
              λ tls t.
                Partial-bind Keeps Keeps _
                  (each_or_panic-Partial Keeps Endpoints.http_body
                    (λ e s u.
                      http_measured-Keeps e.1.endpoint_transaction_id e.1.http_failure
                        e.1.control_http_failure s u)
                    c.known_tcp_endpoints tls t)
                  λ http u. final_loop-Keeps env c.known_tcp_endpoints http u
