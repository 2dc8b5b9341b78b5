-- ===== src/Minipipeline/Analysis/Facts.antt =====
-- pkg/minipipeline/analysis.go: what the body of tcpComputeMetrics and tlsComputeMetrics does to the sets,
-- as a function of what is known of an operation.
use ooni_probe_engine.Prelude.{
  String, Bool, true, false, not, ◌&&◌, ◌≡◌, refl, ap, inl, inr, Option, none, some, str_eq,
  Bool-cases,
}
use ooni_probe_engine.Prelude.Int.{ℤ}
use ooni_probe_engine.Prelude.Keys.{string_key, int_key}
use ooni_probe_engine.Prelude.Outcome.{returned}
use ooni_probe_engine.Minipipeline.Set.{add_one}
use ooni_probe_engine.Minipipeline.Analysis.{FailureSets, is_true, is_success, is_failure}
use ooni_probe_engine.Minipipeline.Analysis.Endpoints
use ooni_probe_engine.Minipipeline.Analysis.Adding.{add_if}

-- What is known of an operation on an endpoint.
pub record Facts : Type 0 where
  pub failure : Option String
  pub control : Option String
  pub depth_zero : Bool
  pub misconfigured : Bool
  pub fetch_body : Option Bool

abbrev pub is_false : Option Bool → Bool
is_false none = false
is_false (some b) = not b

-- The probe and the control failed.
abbrev pub is_expected : Facts → Bool
is_expected f = f.depth_zero && is_failure f.failure && is_failure f.control

-- The probe failed and the control succeeded.
abbrev pub is_unexpected : Facts → Bool
is_unexpected f =
    f.depth_zero && is_failure f.failure && is_success f.control && not f.misconfigured

-- The probe failed beyond depth zero, where there is no control.
abbrev pub is_unexplained : Facts → Bool
is_unexplained f = not f.depth_zero && is_failure f.failure && not f.misconfigured

unfoldable pub effect : Facts → ℤ → FailureSets → FailureSets
effect f txid sets = record {
  expected_failure = add_if (is_expected f) txid sets.expected_failure;
  unexpected_failure = add_if (is_unexpected f) txid sets.unexpected_failure;
  unexpected_failure_during_web_fetch =
      add_if (is_unexpected f && is_true f.fetch_body) txid
        sets.unexpected_failure_during_web_fetch;
  unexpected_failure_during_connectivity_check =
      add_if (is_unexpected f && is_false f.fetch_body) txid
        sets.unexpected_failure_during_connectivity_check;
  unexplained_failure = add_if (is_unexplained f) txid sets.unexplained_failure;
  unexplained_failure_during_web_fetch =
      add_if (is_unexplained f && is_true f.fetch_body) txid
        sets.unexplained_failure_during_web_fetch;
  unexplained_failure_during_connectivity_check =
      add_if (is_unexplained f && is_false f.fetch_body) txid
        sets.unexplained_failure_during_connectivity_check;
}

module _ (txid : ℤ) (fetch : Option Bool) where
  unfoldable pub facts : Bool → Bool → Option String → Option String → Facts
  facts depth_zero mis failure control = record {
    failure = failure;
    control = control;
    depth_zero = depth_zero;
    misconfigured = mis;
    fetch_body = fetch;
  }

  add_unexplained-effect :
      (o : Option Bool) (sets : FailureSets)
      → Endpoints.add_unexplained o txid sets ≡ record sets {
        unexplained_failure = add_one txid sets.unexplained_failure;
        unexplained_failure_during_web_fetch =
            add_if (is_true o) txid sets.unexplained_failure_during_web_fetch;
        unexplained_failure_during_connectivity_check =
            add_if (is_false o) txid sets.unexplained_failure_during_connectivity_check;
      }
  unfolding Endpoints.add_unexplained
  add_unexplained-effect none sets = refl
  add_unexplained-effect (some true) sets = refl
  add_unexplained-effect (some false) sets = refl

  add_unexpected-effect :
      (o : Option Bool) (sets : FailureSets)
      → Endpoints.add_unexpected o txid sets ≡ record sets {
        unexpected_failure = add_one txid sets.unexpected_failure;
        unexpected_failure_during_web_fetch =
            add_if (is_true o) txid sets.unexpected_failure_during_web_fetch;
        unexpected_failure_during_connectivity_check =
            add_if (is_false o) txid sets.unexpected_failure_during_connectivity_check;
      }
  unfolding Endpoints.add_unexpected
  add_unexpected-effect none sets = refl
  add_unexpected-effect (some true) sets = refl
  add_unexpected-effect (some false) sets = refl

  redirected-effect :
      (mis : Bool) (failure : String) (control : Option String) (sets : FailureSets)
      → Endpoints.redirected (some txid) fetch mis failure sets
        ≡ returned (effect (facts false mis (some failure) control) txid sets)
  unfolding Endpoints.redirected Endpoints.with_txid effect facts
  redirected-effect true failure control sets = elim (Bool-cases (str_eq failure "")) [
    | inl good ↦ rw good refl
    | inr bad ↦ rw bad refl
  ]
  redirected-effect false failure control sets = elim (Bool-cases (str_eq failure "")) [
    | inl good ↦ rw good refl
    | inr bad ↦ rw bad (ap returned (add_unexplained-effect fetch sets))
  ]

  with_control-effect :
      (mis : Bool) (failure : String) (control : Option String) (sets : FailureSets)
      → Endpoints.with_control (some txid) fetch mis failure control sets
        ≡ returned (effect (facts true mis (some failure) control) txid sets)
  unfolding Endpoints.with_control Endpoints.with_txid Endpoints.add_expected effect facts
  with_control-effect mis failure none sets = elim (Bool-cases (str_eq failure "")) [
    | inl good ↦ rw good refl
    | inr bad ↦ rw bad refl
  ]
  with_control-effect mis failure (some control) sets =
      let fine = Bool-cases (str_eq control "") in
      elim (Bool-cases (str_eq failure "")) [
        | inl good ↦ elim fine [ inl e ↦ rw (good, e) refl | inr e ↦ rw (good, e) refl ]
        | inr bad ↦ elim fine [
          | inr e ↦ rw (bad, e) refl
          | inl e ↦ elim (Bool-cases mis) [
            | inl m ↦ rw (bad, e, m) refl
            | inr m ↦ rw (bad, e, m) (ap returned (add_unexpected-effect fetch sets))
          ]
        ]
      ]

  pub measured-effect :
      (depth_zero mis : Bool) (failure control : Option String) (sets : FailureSets)
      → Endpoints.measured (some txid) fetch depth_zero mis failure control sets
        ≡ returned (effect (facts depth_zero mis failure control) txid sets)
  unfolding Endpoints.measured effect facts
  measured-effect true mis none control sets = refl
  measured-effect false mis none control sets = refl
  measured-effect true mis (some failure) control sets =
      with_control-effect mis failure control sets
  measured-effect false mis (some failure) control sets = redirected-effect mis failure control sets
