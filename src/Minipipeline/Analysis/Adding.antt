-- ===== src/Minipipeline/Analysis/Adding.antt =====
-- pkg/minipipeline/analysis.go: loops that add transactions to sets.
use ooni_probe_engine.Prelude.{
  Bool, true, false, ◌&&◌, ◌||◌, ◌≡◌, refl, ap, List, [], ◌∷◌, if◌then◌else◌, arith,
}
use ooni_probe_engine.Prelude.Int.{ℤ}
use ooni_probe_engine.Prelude.Keys.{int_eq, string_key, int_key}
use ooni_probe_engine.Minipipeline.Set.{Set, contains, add_one, contains-add_one}
use ooni_probe_engine.Minipipeline.Loops.{each}
use ooni_probe_engine.Minipipeline.Observation.{WebObservation}

abbrev pub add_if : Bool → ℤ → Set ℤ → Set ℤ
add_if test txid sx = if test then add_one txid sx else sx

-- Some entry of the endpoints has the transaction and passes the test.
unfoldable pub in_any : (WebObservation → Bool) → List (ℤ × WebObservation) → ℤ → Bool
in_any test [] asked = false
in_any test ((txid, obs) ∷ entries) asked =
    test obs && int_eq txid asked || in_any test entries asked

pub contains-add_if :
    (test : Bool) (txid asked : ℤ) (sx : Set ℤ)
    → contains (add_if test txid sx) asked ≡ (test && int_eq txid asked || contains sx asked)
contains-add_if true txid asked sx = contains-add_one txid asked sx
contains-add_if false txid asked sx = refl

module _ {S : Type 0} (get : S → Set ℤ) (test : WebObservation → Bool)
    (change : ℤ × WebObservation → S → S) where
  pub contains-each :
      ((e : ℤ × WebObservation) (s : S) → get (change e s) ≡ add_if (test e.1) (e.0) (get s))
      → (entries : List (ℤ × WebObservation)) (s : S) (asked : ℤ)
      → contains (get (each change entries s)) asked
        ≡ (in_any test entries asked || contains (get s) asked)
  unfolding each in_any
  contains-each adds [] s asked = refl
  contains-each adds ((txid, obs) ∷ entries) s asked = ground (
    arith,
    contains-each adds entries (change (txid, obs) s) asked,
    ap (λ sx. contains sx asked) (adds (txid, obs) s),
    contains-add_if (test obs) txid asked (get s),
  )
