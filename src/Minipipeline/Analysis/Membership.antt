-- ===== src/Minipipeline/Analysis/Membership.antt =====
-- pkg/minipipeline/analysis.go: which transactions the loops over the endpoints put in which set.
use ooni_probe_engine.Prelude.{false, ◌&&◌, ◌||◌, ◌≡◌, refl, ap, ◌∙◌, List}
use ooni_probe_engine.Prelude.Int.{ℤ}
use ooni_probe_engine.Prelude.Keys.{string_key, int_key}
use ooni_probe_engine.Prelude.Outcome.{returned, Returns, returns}
use ooni_probe_engine.Minipipeline.Set.{contains}
use ooni_probe_engine.Minipipeline.Environment.{Environment}
use ooni_probe_engine.Minipipeline.Loops.{each, each_or_panic-eq-each}
use ooni_probe_engine.Minipipeline.Observation.{WebObservation, WebObservationsContainer}
use ooni_probe_engine.Minipipeline.Utils.{tcp_connect_failure_seems_misconfigured_ipv6}
use ooni_probe_engine.Minipipeline.WellFormed.{IsEndpoint, IsWellFormed}
use ooni_probe_engine.Minipipeline.Analysis.{FailureSets, WebAnalysis, at_depth_zero, is_true}
use ooni_probe_engine.Minipipeline.Analysis.Endpoints
use ooni_probe_engine.Minipipeline.Analysis.Adding.{in_any, contains-each}
use ooni_probe_engine.Minipipeline.Analysis.Facts.{
  Facts, is_expected, is_unexpected, is_unexplained, is_false, effect, facts, measured-effect,
}

-- After a loop, each of the seven sets has a transaction if it had it before, or if some endpoint of
-- that transaction passes the test of the set.
unfoldable pub Classified :
    (WebObservation → Facts) → List (ℤ × WebObservation) → ℤ → FailureSets → FailureSets → Type 0
Classified facts_of entries asked old new =
    (contains new.expected_failure asked ≡ (
      in_any (λ obs. is_expected (facts_of obs)) entries asked
      || contains old.expected_failure asked))
    × (contains new.unexpected_failure asked ≡ (
        in_any (λ obs. is_unexpected (facts_of obs)) entries asked
        || contains old.unexpected_failure asked))
    × (contains new.unexpected_failure_during_web_fetch asked ≡ (
        in_any (λ obs. is_unexpected (facts_of obs) && is_true (facts_of obs).fetch_body) entries
          asked
        || contains old.unexpected_failure_during_web_fetch asked))
    × (contains new.unexpected_failure_during_connectivity_check asked ≡ (
        in_any (λ obs. is_unexpected (facts_of obs) && is_false (facts_of obs).fetch_body) entries
          asked
        || contains old.unexpected_failure_during_connectivity_check asked))
    × (contains new.unexplained_failure asked ≡ (
        in_any (λ obs. is_unexplained (facts_of obs)) entries asked
        || contains old.unexplained_failure asked))
    × (contains new.unexplained_failure_during_web_fetch asked ≡ (
        in_any (λ obs. is_unexplained (facts_of obs) && is_true (facts_of obs).fetch_body) entries
          asked
        || contains old.unexplained_failure_during_web_fetch asked))
    × (contains new.unexplained_failure_during_connectivity_check asked ≡ (
        in_any (λ obs. is_unexplained (facts_of obs) && is_false (facts_of obs).fetch_body) entries
          asked
        || contains old.unexplained_failure_during_connectivity_check asked))

module _ (facts_of : WebObservation → Facts) where
  abbrev effect_of : ℤ × WebObservation → FailureSets → FailureSets
  effect_of e sets = effect (facts_of e.1) (e.0) sets

  each-effect-Classified :
      (entries : List (ℤ × WebObservation)) (asked : ℤ) (sets : FailureSets)
      → Classified facts_of entries asked sets (each effect_of entries sets)
  unfolding Classified effect
  each-effect-Classified entries asked sets = (
    contains-each (λ s. s.expected_failure) _ effect_of (λ e s. refl) entries sets asked,
    contains-each (λ s. s.unexpected_failure) _ effect_of (λ e s. refl) entries sets asked,
    contains-each (λ s. s.unexpected_failure_during_web_fetch) _ effect_of (λ e s. refl) entries
        sets asked,
    contains-each (λ s. s.unexpected_failure_during_connectivity_check) _ effect_of (λ e s. refl)
        entries sets asked,
    contains-each (λ s. s.unexplained_failure) _ effect_of (λ e s. refl) entries sets asked,
    contains-each (λ s. s.unexplained_failure_during_web_fetch) _ effect_of (λ e s. refl) entries
        sets asked,
    contains-each (λ s. s.unexplained_failure_during_connectivity_check) _ effect_of (λ e s. refl)
        entries sets asked,
  )

abbrev pub tcp_facts : Environment → WebObservation → Facts
tcp_facts env obs = record {
  failure = obs.tcp_connect_failure;
  control = obs.control_tcp_connect_failure;
  depth_zero = at_depth_zero obs.tag_depth;
  misconfigured = tcp_connect_failure_seems_misconfigured_ipv6 env obs;
  fetch_body = obs.tag_fetch_body;
}

abbrev pub tls_facts : WebObservation → Facts
tls_facts obs = record {
  failure = obs.tls_handshake_failure;
  control = obs.control_tls_handshake_failure;
  depth_zero = at_depth_zero obs.tag_depth;
  misconfigured = false;
  fetch_body = obs.tag_fetch_body;
}

tcp_body-effect :
    (env : Environment) (e : ℤ × WebObservation) (sets : FailureSets)
    → IsEndpoint e
    → Endpoints.tcp_body env e sets ≡ returned (effect_of (tcp_facts env) e sets)
unfolding Endpoints.tcp_body IsEndpoint facts
tcp_body-effect env e sets h =
    ap
      (λ o.
        Endpoints.measured o e.1.tag_fetch_body (at_depth_zero e.1.tag_depth)
          (tcp_connect_failure_seems_misconfigured_ipv6 env e.1) e.1.tcp_connect_failure
          e.1.control_tcp_connect_failure sets)
      h.0
    ∙ measured-effect (e.0) e.1.tag_fetch_body (at_depth_zero e.1.tag_depth)
        (tcp_connect_failure_seems_misconfigured_ipv6 env e.1) e.1.tcp_connect_failure
        e.1.control_tcp_connect_failure sets

tls_body-effect :
    (e : ℤ × WebObservation) (sets : FailureSets)
    → IsEndpoint e
    → Endpoints.tls_body e sets ≡ returned (effect_of tls_facts e sets)
unfolding Endpoints.tls_body IsEndpoint facts
tls_body-effect e sets h =
    ap
      (λ o.
        Endpoints.measured o e.1.tag_fetch_body (at_depth_zero e.1.tag_depth) false
          e.1.tls_handshake_failure e.1.control_tls_handshake_failure sets)
      h.0
    ∙ measured-effect (e.0) e.1.tag_fetch_body (at_depth_zero e.1.tag_depth) false
        e.1.tls_handshake_failure e.1.control_tls_handshake_failure sets

module _ {Float : Type 0} where
  -- On a well-formed container, tcpComputeMetrics returns and changes only its seven sets. A transaction
  -- is added to the expected failures when, at depth zero, the probe and the control failed to connect;
  -- to the unexpected ones when, at depth zero, the probe failed, the control did not and the failure
  -- is not one of a misconfigured IPv6; to the unexplained ones when the probe failed so beyond depth
  -- zero; and to the sets of web fetches and of connectivity checks by its tag.
  pub tcp_compute_metrics-Classified :
      (env : Environment) (c : WebObservationsContainer) (wa : WebAnalysis Float) (asked : ℤ)
      → IsWellFormed c
      → Returns
          (λ new.
            (new ≡ record wa { tcp_connect = new.tcp_connect })
            × Classified (tcp_facts env) c.known_tcp_endpoints asked wa.tcp_connect new.tcp_connect)
          (Endpoints.tcp_compute_metrics env c wa)
  unfolding Endpoints.tcp_compute_metrics IsWellFormed
  tcp_compute_metrics-Classified env c wa asked h =
      rw
        (each_or_panic-eq-each IsEndpoint (Endpoints.tcp_body env) (effect_of (tcp_facts env))
          (tcp_body-effect env) c.known_tcp_endpoints wa.tcp_connect h.2)
        (returns _
          (refl, each-effect-Classified (tcp_facts env) c.known_tcp_endpoints asked wa.tcp_connect))

  -- The same of tlsComputeMetrics and the handshakes, where no failure is left out for IPv6.
  pub tls_compute_metrics-Classified :
      (c : WebObservationsContainer) (wa : WebAnalysis Float) (asked : ℤ)
      → IsWellFormed c
      → Returns
          (λ new.
            (new ≡ record wa { tls_handshake = new.tls_handshake })
            × Classified tls_facts c.known_tcp_endpoints asked wa.tls_handshake new.tls_handshake)
          (Endpoints.tls_compute_metrics c wa)
  unfolding Endpoints.tls_compute_metrics IsWellFormed
  tls_compute_metrics-Classified c wa asked h =
      rw
        (each_or_panic-eq-each IsEndpoint Endpoints.tls_body (effect_of tls_facts) tls_body-effect
          c.known_tcp_endpoints wa.tls_handshake h.2)
        (returns _
          (refl, each-effect-Classified tls_facts c.known_tcp_endpoints asked wa.tls_handshake))
