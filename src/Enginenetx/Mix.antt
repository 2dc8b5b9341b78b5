-- ===== src/Enginenetx/Mix.antt =====
-- pkg/enginenetx/mixpolicy.go. A channel is the list of what is still to be read from it, and a
-- policy's answer is the list of what it emits, whatever the items are.
pub mod RoundRobin
pub mod Order
mod Tests
use ooni_probe_engine.Prelude.{
  ℕ, zero, suc, ◌+◌, Bool, true, false, ◌&&◌, Option, none, some, List, [], ◌++◌, ◌∷◌, ltb, length,
  max, if◌then◌else◌,
}

module _ {ℓ} {A : Type ℓ} where
  -- mixPolicyEitherOr: `count` is the number of items that the primary policy gave.
  unfoldable pub either_or : List A → List A → List A
  either_or primary fallback =
      let count = length primary in primary ++ (if ltb 0 count then [] else fallback)

  -- The loop of maybeTakeN: what it emits, and the channel unless that is drained.
  unfoldable pub take_n : ℕ → List A → List A × Option (List A)
  take_n zero ch = ([], some ch)
  take_n (suc n) [] = ([], none)
  take_n (suc n) (tactic ∷ ch) = let (output, input) = take_n n ch in (tactic ∷ output, input)

  unfoldable pub maybe_take_n : ℕ → Option (List A) → List A × Option (List A)
  maybe_take_n factor none = ([], none)
  maybe_take_n factor (some ch) = take_n (max 1 factor) ch

  -- The loop of mixPolicyInterleave. `none` means that the fuel ran out.
  unfoldable pub interleave_loop : ℕ → ℕ → Option (List A) → Option (List A) → Option (List A)
  interleave_loop zero factor primary fallback = none
  interleave_loop (suc fuel) factor none none = some []
  interleave_loop (suc fuel) factor primary fallback =
      let (from_primary, primary') = maybe_take_n factor primary in
      let (from_fallback, fallback') = maybe_take_n factor fallback in
      let rest = interleave_loop fuel factor primary' fallback' in
      elim rest [ none ↦ none | some output ↦ some (from_primary ++ (from_fallback ++ output)) ]

  unfoldable pub interleave : ℕ → List A → List A → Option (List A)
  interleave factor primary fallback =
      interleave_loop (length primary + length fallback + 3) factor (some primary) (some fallback)
