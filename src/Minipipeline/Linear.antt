-- ===== src/Minipipeline/Linear.antt =====
-- pkg/minipipeline/analysis.go: the linear analysis.
use ooni_probe_engine.Prelude.{ℕ, Bool, true, false, List, ◌++◌, map, ltb, if◌then◌else◌}
use ooni_probe_engine.Prelude.Int.{ℤ, negsuc, ltb_ℤ}
use ooni_probe_engine.Prelude.Keys.{str_less}
use ooni_probe_engine.Prelude.Golang.{Float64, SliceStable}
use ooni_probe_engine.Prelude.Outcome.{Outcome, returned, ◌>>=◌}
use ooni_probe_engine.Optional.{unwrap_or}
use ooni_probe_engine.Minipipeline.Environment.{Environment}
use ooni_probe_engine.Minipipeline.Observation.{
  WebObservation, WebObservationType, dns_lookup, tcp_connect, tls_handshake, http_round_trip,
  WebObservationsContainer,
}
use ooni_probe_engine.Minipipeline.Analysis.{WebAnalysis}
use ooni_probe_engine.Minipipeline.Final.{analyze_web_observations_without_linear_analysis}

-- The value of the constant.
abbrev rank : WebObservationType → ℕ
rank dns_lookup = 0
rank tcp_connect = 1
rank tls_handshake = 2
rank http_round_trip = 3

-- The order of NewLinearWebAnalysis.
unfoldable pub comes_first : WebObservation → WebObservation → Bool
comes_first left right =
    let left_depth = unwrap_or left.tag_depth (negsuc 0) in
    let right_depth = unwrap_or right.tag_depth (negsuc 0) in
    let left_failure = unwrap_or left.failure "unknown_failure" in
    let right_failure = unwrap_or right.failure "unknown_failure" in
    if ltb_ℤ right_depth left_depth
    then true
    else if ltb_ℤ left_depth right_depth
    then false
    else if ltb (rank right.observation_type) (rank left.observation_type)
    then true
    else if ltb (rank left.observation_type) (rank right.observation_type)
    then false
    else if str_less left_failure right_failure
    then true
    else if str_less right_failure left_failure
    then false
    else ltb_ℤ right.transaction_id left.transaction_id

unfoldable pub all_observations : WebObservationsContainer → List WebObservation
all_observations c =
    c.dns_lookup_failures
    ++ (c.dns_lookup_successes ++ map (λ (e : ℤ × WebObservation). e.1) c.known_tcp_endpoints)

unfoldable pub new_linear_web_analysis :
    SliceStable WebObservation → WebObservationsContainer → List WebObservation
unfolding comes_first all_observations
new_linear_web_analysis S c = S.sort comes_first (all_observations c)

unfoldable pub analyze_web_observations_with_linear_analysis :
    (F : Float64)
    → SliceStable WebObservation
    → Environment
    → WebObservationsContainer
    → Outcome (WebAnalysis F.Float)
unfolding new_linear_web_analysis
analyze_web_observations_with_linear_analysis F S env c = do
  analysis ← analyze_web_observations_without_linear_analysis F env c
  returned (record analysis { linear = new_linear_web_analysis S c })
