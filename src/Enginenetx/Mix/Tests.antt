-- ===== src/Enginenetx/Mix/Tests.antt =====
-- Concrete mixes, and the theorems on them.
use ooni_probe_engine.Enginenetx.Mix.{interleave_loop, maybe_take_n, take_n}
use ooni_probe_engine.Enginenetx.Mix.{interleave_loop, maybe_take_n, take_n}
use ooni_probe_engine.Prelude.{ℕ, ◌+◌, ◌≡◌, refl, some, List, [], ◌∷◌, length, max}
use ooni_probe_engine.Enginenetx.Mix.{interleave}
use ooni_probe_engine.Enginenetx.Mix.RoundRobin.{round_robin, interleave-eq-round_robin}
use ooni_probe_engine.Enginenetx.Mix.Order.{Merge, interleave-Merge}

abbrev primary : List ℕ
primary = 1 ∷ 2 ∷ 3 ∷ 4 ∷ 5 ∷ []

abbrev fallback : List ℕ
fallback = 10 ∷ 20 ∷ 30 ∷ []

interleave_two : interleave 2 primary fallback ≡ some (1 ∷ 2 ∷ 10 ∷ 20 ∷ 3 ∷ 4 ∷ 30 ∷ 5 ∷ [])
unfolding interleave interleave_loop maybe_take_n take_n
interleave_two = refl

interleave_zero : interleave 0 primary fallback ≡ some (1 ∷ 10 ∷ 2 ∷ 20 ∷ 3 ∷ 30 ∷ 4 ∷ 5 ∷ [])
unfolding interleave interleave_loop maybe_take_n take_n
interleave_zero = refl

interleave-eq-round_robin_example :
    interleave 2 primary fallback
    ≡ some (round_robin (length primary + length fallback) (max 1 2) primary fallback)
interleave-eq-round_robin_example = interleave-eq-round_robin 2 primary fallback

interleave-Merge_example :
    (output : List ℕ) × (interleave 2 primary fallback ≡ some output)
    × Merge primary fallback output
interleave-Merge_example = interleave-Merge 2 primary fallback
