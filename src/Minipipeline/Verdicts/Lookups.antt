-- ===== src/Minipipeline/Verdicts/Lookups.antt =====
-- pkg/minipipeline/analysis.go: what an analysis says of the successful lookups.
use ooni_probe_engine.Prelude.{
  false, not, ◌&&◌, ◌||◌, ◌≡◌, refl, ap, Option, none, some, List, [], ◌∷◌, Bool-cases, arith,
  String,
}
use ooni_probe_engine.Prelude.Int.{ℤ}
use ooni_probe_engine.Prelude.Keys.{int_eq, int_key}
use ooni_probe_engine.Prelude.Golang.{Float64}
use ooni_probe_engine.Prelude.Outcome.{returned, Returns-value}
use ooni_probe_engine.Minipipeline.Set.{Set, contains}
use ooni_probe_engine.Minipipeline.Environment.{Environment}
use ooni_probe_engine.Minipipeline.Observation.{WebObservation, WebObservationsContainer}
use ooni_probe_engine.Minipipeline.WellFormed.{IsWellFormed}
use ooni_probe_engine.Minipipeline.Analysis.{WebAnalysis, at_depth_zero}
use ooni_probe_engine.Minipipeline.Analysis.Shared.{shares}
use ooni_probe_engine.Minipipeline.Analysis.First.{first_passes}
use ooni_probe_engine.Minipipeline.Analysis.DnsSuccesses.{
  is_valid_lookup, is_invalid_lookup, compares,
}
use ooni_probe_engine.Minipipeline.Analysis.DnsValidity.{
  any_validated, SuccessesDecided, contains-dns_compute_success_metrics,
}
use ooni_probe_engine.Minipipeline.Partial.{Partial-at}
use ooni_probe_engine.Minipipeline.Final
use ooni_probe_engine.Minipipeline.Verdicts.{Keeps, later-Keeps}

compares-either :
    (env : Environment) (resolved control : Option (Set String))
    → (compares env resolved control (λ b. b) && compares env resolved control not) ≡ false
compares-either env none control = refl
compares-either env (some addrs) none = refl
compares-either env (some addrs) (some control) =
    ground (arith, Bool-cases (shares env addrs control))

first_passes-either :
    (env : Environment) (l : List WebObservation) (asked : ℤ)
    → (first_passes (is_valid_lookup env) l asked && first_passes (is_invalid_lookup env) l asked)
      ≡ false
unfolding first_passes
first_passes-either env [] asked = refl
first_passes-either env (obs ∷ l) asked = ground (
  arith,
  first_passes-either env l asked,
  compares-either env obs.dns_resolved_addrs obs.control_dns_resolved_addrs,
  Bool-cases (int_eq obs.transaction_id asked),
  Bool-cases (at_depth_zero obs.tag_depth),
)

-- An analysis of a well-formed container that returns has a lookup among the valid ones exactly when a
-- handshake validated it or its first observation at depth zero has something in common with the
-- control, among the invalid ones exactly when that observation has nothing in common and no handshake
-- validated it, and never among both.
pub analysis-valid_or_invalid :
    (F : Float64) (env : Environment) (c : WebObservationsContainer) (out : WebAnalysis F.Float)
    (asked : ℤ)
    → IsWellFormed c
    → Final.analyze_web_observations_without_linear_analysis F env c ≡ returned out
    → (contains out.dns_lookup_success_with_valid_address asked ≡ (
        any_validated c.known_tcp_endpoints asked
        || first_passes (is_valid_lookup env) c.dns_lookup_successes asked))
      × (contains out.dns_lookup_success_with_invalid_addresses asked ≡ (
          first_passes (is_invalid_lookup env) c.dns_lookup_successes asked
          && not (any_validated c.known_tcp_endpoints asked)))
      × ((contains out.dns_lookup_success_with_valid_address asked
            && contains out.dns_lookup_success_with_invalid_addresses asked)
          ≡ false)
unfolding Final.analyze_web_observations_without_linear_analysis Final.new_web_analysis
    SuccessesDecided Keeps contains
analysis-valid_or_invalid F env c out asked h e =
    let start = Final.new_web_analysis F env c in
    let first =
      Returns-value (SuccessesDecided env c start asked)
        (contains-dns_compute_success_metrics env c start asked h) in
    let success = first.0 in
    let rest =
      later-Keeps F success.dns_lookup_success_with_valid_address
        success.dns_lookup_success_with_invalid_addresses env c success (refl, refl) in
    let kept = Partial-at _ out rest (rw first.1 at e) in
    let valid = ap (λ sx. contains sx asked) kept.0 in
    let invalid = ap (λ sx. contains sx asked) kept.1 in
    (
      ground (arith, valid, first.2.2),
      ground (arith, invalid, first.2.3),
      ground (
        arith,
        valid,
        invalid,
        first.2.2,
        first.2.3,
        first_passes-either env c.dns_lookup_successes asked,
      ),
    )
