-- ===== src/Minipipeline/Analysis/First.antt =====
-- pkg/minipipeline/analysis.go: the loops that consider the first observation of each DNS transaction.
use ooni_probe_engine.Prelude.{
  Bool, true, false, not, ◌&&◌, ◌||◌, ◌≡◌, refl, ap, subst, ◌∙◌, inl, inr, some, List, [], ◌∷◌, All,
  if◌then◌else◌, Bool-cases, arith,
}
use ooni_probe_engine.Prelude.Int.{ℤ}
use ooni_probe_engine.Prelude.Keys.{int_eq, int_eq_iff, string_key, int_key}
use ooni_probe_engine.Prelude.Outcome.{Outcome, returned, ◌>>=◌}
use ooni_probe_engine.Optional.{unwrap}
use ooni_probe_engine.Minipipeline.Set.{Set, contains, add_one, contains-add_one}
use ooni_probe_engine.Minipipeline.Loops.{each, each_or_panic-eq-each}
use ooni_probe_engine.Minipipeline.Observation.{WebObservation}
use ooni_probe_engine.Minipipeline.Analysis.{first_time, first_step, for_first}
use ooni_probe_engine.Minipipeline.Analysis.Adding.{add_if, contains-add_if}

-- The first observation of the transaction passes the test.
unfoldable pub first_passes : (WebObservation → Bool) → List WebObservation → ℤ → Bool
first_passes test [] asked = false
first_passes test (obs ∷ observations) asked =
    if int_eq obs.transaction_id asked then test obs else first_passes test observations asked

module _ {A : Type 0} where
  known_or : (ℤ → A → A) → ℤ → Bool → Set ℤ × A → Set ℤ × A
  known_or change txid true (already, s) = (already, s)
  known_or change txid false (already, s) = (add_one txid already, change txid s)

  pure_step : (WebObservation → ℤ → A → A) → WebObservation → Set ℤ × A → Set ℤ × A
  pure_step change obs (already, s) =
      known_or (change obs) obs.transaction_id (contains already obs.transaction_id) (already, s)

  unfoldable pub each_first : (WebObservation → ℤ → A → A) → List WebObservation → A → A
  unfolding pure_step known_or
  each_first change observations s = (each (pure_step change) observations ([], s)).1

  module _ {κ} (P : WebObservation → Type κ) (body : WebObservation → ℤ → A → Outcome A)
      (change : WebObservation → ℤ → A → A)
      (eq : (obs : WebObservation) (txid : ℤ) (s : A)
        → P obs
        → body obs txid s ≡ returned (change obs txid s))
      (known : (obs : WebObservation)
        → P obs
        → obs.dns_transaction_id ≡ some obs.transaction_id) where
    first_time-eq :
        (obs : WebObservation) (b : Bool) (state : Set ℤ × A)
        → P obs
        → first_time body obs obs.transaction_id b state
          ≡ returned (known_or (change obs) obs.transaction_id b state)
    unfolding first_time known_or
    first_time-eq obs true (already, s) h = refl
    first_time-eq obs false (already, s) h = rw (eq obs obs.transaction_id s h) refl

    first_step-eq :
        (obs : WebObservation) (state : Set ℤ × A)
        → P obs
        → first_step body obs state ≡ returned (pure_step change obs state)
    unfolding first_step pure_step
    first_step-eq obs (already, s) h =
        ap (λ o. unwrap o >>= λ txid. first_time body obs txid (contains already txid) (already, s))
          (known obs h)
        ∙ first_time-eq obs (contains already obs.transaction_id) (already, s) h

    pub for_first-eq-each_first :
        (observations : List WebObservation) (s : A)
        → All P observations
        → for_first body observations s ≡ returned (each_first change observations s)
    unfolding for_first each_first
    for_first-eq-each_first observations s h =
        rw
          (each_or_panic-eq-each P (first_step body) (pure_step change) first_step-eq observations
            ([], s) h)
          refl

  module _ (get : A → Set ℤ) (test : WebObservation → Bool) (change : WebObservation → ℤ → A → A)
      (adds : (obs : WebObservation) (txid : ℤ) (s : A)
        → get (change obs txid s) ≡ add_if (test obs) txid (get s)) where
    -- The statement of the next lemma about the observations that are left, from a state.
    StepsFrom : List WebObservation → ℤ → Set ℤ × A → Type 0
    StepsFrom observations asked (already, s) =
        contains (get (each (pure_step change) observations (already, s)).1) asked ≡ (
          not (contains already asked) && first_passes test observations asked
          || contains (get s) asked)

    one_step :
        (obs : WebObservation) (observations : List WebObservation) (asked : ℤ) (b : Bool)
        (already : Set ℤ) (s : A)
        → contains already obs.transaction_id ≡ b
        → StepsFrom observations asked (known_or (change obs) obs.transaction_id b (already, s))
        → contains
            (get
              (each
                (pure_step change)
                observations
                (known_or (change obs) obs.transaction_id b (already, s))).1)
            asked
          ≡ (not (contains already asked) && first_passes test (obs ∷ observations) asked
              || contains (get s) asked)
    unfolding StepsFrom known_or first_passes
    one_step obs observations asked true already s old rest =
        elim (Bool-cases (int_eq obs.transaction_id asked)) [
          | inl same ↦
              let here : contains already asked ≡ true =
                subst (λ t. contains already t ≡ true)
                  ((int_eq_iff obs.transaction_id asked).0 same) old in
              ground (arith, rest, here, same)
          | inr other ↦ ground (arith, rest, other)
        ]
    one_step obs observations asked false already s new rest =
        elim (Bool-cases (int_eq obs.transaction_id asked)) [
          | inl same ↦
              let here : contains already asked ≡ false =
                subst (λ t. contains already t ≡ false)
                  ((int_eq_iff obs.transaction_id asked).0 same) new in
              ground (
                arith,
                rest,
                here,
                same,
                contains-add_one obs.transaction_id asked already,
                ap (λ sx. contains sx asked) (adds obs obs.transaction_id s),
                contains-add_if (test obs) obs.transaction_id asked (get s),
              )
          | inr other ↦ ground (
            arith,
            rest,
            other,
            contains-add_one obs.transaction_id asked already,
            ap (λ sx. contains sx asked) (adds obs obs.transaction_id s),
            contains-add_if (test obs) obs.transaction_id asked (get s),
          )
        ]

    contains-steps :
        (observations : List WebObservation) (asked : ℤ) (state : Set ℤ × A)
        → StepsFrom observations asked state
    unfolding StepsFrom each pure_step first_passes
    contains-steps [] asked (already, s) = ground arith
    contains-steps (obs ∷ observations) asked (already, s) =
        one_step obs observations asked (contains already obs.transaction_id) already s refl
          (contains-steps observations asked _)

    pub contains-each_first :
        (observations : List WebObservation) (s : A) (asked : ℤ)
        → contains (get (each_first change observations s)) asked
          ≡ (first_passes test observations asked || contains (get s) asked)
    unfolding each_first contains StepsFrom
    contains-each_first observations s asked = contains-steps observations asked ([], s)
