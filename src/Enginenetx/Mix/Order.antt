-- ===== src/Enginenetx/Mix/Order.antt =====
-- The items and the order of what mixpolicy.go emits.
use ooni_probe_engine.Prelude.{
  ℕ, zero, suc, ◌+◌, ◌-◌, ◌≤◌, ◌≡◌, arith, some, List, [], ◌++◌, ◌∷◌, length, take, drop, max,
}
use ooni_probe_engine.Enginenetx.Mix.{interleave}
use ooni_probe_engine.Enginenetx.Mix.RoundRobin.{round_robin, interleave-eq-round_robin}

module _ {ℓ} {A : Type ℓ} where
  -- `Merge xs ys zs`: zs is made of the items of xs and of ys, those of each in their order.
  pub data Merge : List A → List A → List A → Type ℓ where
    nothing : Merge [] [] []
    left : {xs ys zs : List A} (x : A) → Merge xs ys zs → Merge (x ∷ xs) ys (x ∷ zs)
    right : {xs ys zs : List A} (y : A) → Merge xs ys zs → Merge xs (y ∷ ys) (y ∷ zs)

  Merge-take_left :
      (n : ℕ) (xs : List A) {ys zs : List A}
      → Merge (drop n xs) ys zs
      → Merge xs ys (take n xs ++ zs)
  Merge-take_left zero xs m = m
  Merge-take_left (suc n) [] m = m
  Merge-take_left (suc n) (x ∷ xs) m = left x (Merge-take_left n xs m)

  Merge-take_right :
      (n : ℕ) {xs : List A} (ys : List A) {zs : List A}
      → Merge xs (drop n ys) zs
      → Merge xs ys (take n ys ++ zs)
  Merge-take_right zero ys m = m
  Merge-take_right (suc n) [] m = m
  Merge-take_right (suc n) (y ∷ ys) m = right y (Merge-take_right n ys m)

  length-drop-le : (n : ℕ) (xs : List A) → length (drop n xs) ≤ length xs - n
  length-drop-le zero xs = omega arith
  length-drop-le (suc n) [] = omega arith
  length-drop-le (suc n) (x ∷ xs) = omega (arith, length-drop-le n xs)

  Merge-round_robin :
      (rounds n : ℕ) (p f : List A)
      → 1 ≤ n
      → length p + length f ≤ rounds
      → Merge p f (round_robin rounds n p f)
  unfolding round_robin
  Merge-round_robin zero n [] [] pos h = nothing
  Merge-round_robin zero n [] (y ∷ f) pos h = absurd (omega arith)
  Merge-round_robin zero n (x ∷ p) f pos h = absurd (omega arith)
  Merge-round_robin (suc rounds) n p f pos h = Merge-take_left n p (
      Merge-take_right n f (
        Merge-round_robin rounds n (drop n p) (drop n f) pos
          (omega (arith, length-drop-le n p, length-drop-le n f))))

  -- Interleaving ends with a list that holds exactly the tactics of both policies, those of each in
  -- the order in which it emitted them.
  pub interleave-Merge :
      (factor : ℕ) (primary fallback : List A)
      → (output : List A) × (interleave factor primary fallback ≡ some output)
        × Merge primary fallback output
  interleave-Merge factor primary fallback =
      let rounds = length primary + length fallback in
      (
        round_robin rounds (max 1 factor) primary fallback,
        interleave-eq-round_robin factor primary fallback,
        Merge-round_robin rounds (max 1 factor) primary fallback (omega arith) (omega arith),
      )
