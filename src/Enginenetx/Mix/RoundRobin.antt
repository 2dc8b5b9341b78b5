-- ===== src/Enginenetx/Mix/RoundRobin.antt =====
-- The interleaving of two policies against rounds of `take` and `drop`.
use ooni_probe_engine.Prelude.{
  ℕ, zero, suc, ◌+◌, ◌-◌, ◌≤◌, ◌<◌, ◌≡◌, refl, sym, ap, arith, Option, none, some, List, [], ◌++◌,
  ◌∷◌, length, take, drop, max,
}
use ooni_probe_engine.Enginenetx.Mix.{take_n, maybe_take_n, interleave_loop, interleave}

abbrev fewer : ℕ → ℕ
fewer zero = zero
fewer (suc n) = n

at_least_one : (factor : ℕ) → max 1 factor ≡ suc (max 1 factor - 1)
at_least_one factor = omega arith

module _ {ℓ} {A : Type ℓ} where
  -- In each round, `n` items of the one list and then `n` of the other, or as many as there are.
  unfoldable pub round_robin : ℕ → ℕ → List A → List A → List A
  round_robin zero n primary fallback = []
  round_robin (suc rounds) n primary fallback =
      take n primary ++ (take n fallback ++ round_robin rounds n (drop n primary) (drop n fallback))

  abbrev pub content : Option (List A) → List A
  content none = []
  content (some ch) = ch

  abbrev pub reads_left : Option (List A) → ℕ
  reads_left none = 0
  reads_left (some ch) = suc (length ch)

  take_n-take : (n : ℕ) (ch : List A) → (take_n n ch).0 ≡ take n ch
  unfolding take_n
  take_n-take zero ch = refl
  take_n-take (suc n) [] = refl
  take_n-take (suc n) (x ∷ ch) = cc (take_n-take n ch)

  take_n-drop : (n : ℕ) (ch : List A) → content (take_n n ch).1 ≡ drop n ch
  unfolding take_n
  take_n-drop zero ch = refl
  take_n-drop (suc n) [] = refl
  take_n-drop (suc n) (x ∷ ch) = take_n-drop n ch

  reads_left-take_n : (n : ℕ) (ch : List A) → reads_left (take_n (suc n) ch).1 ≤ length ch
  unfolding take_n
  reads_left-take_n n [] = omega arith
  reads_left-take_n zero (x ∷ ch) = omega arith
  reads_left-take_n (suc n) (x ∷ ch) = omega (arith, reads_left-take_n n ch)

  take-nil : (n : ℕ) → ◌≡◌ {A = List A} (take n []) []
  take-nil zero = refl
  take-nil (suc n) = refl

  drop-nil : (n : ℕ) → ◌≡◌ {A = List A} (drop n []) []
  drop-nil zero = refl
  drop-nil (suc n) = refl

  length-drop_pos : (n : ℕ) (xs : List A) → length (drop n xs) ≤ length xs - n
  length-drop_pos zero xs = omega arith
  length-drop_pos (suc n) [] = omega arith
  length-drop_pos (suc n) (x ∷ xs) = omega (arith, length-drop_pos n xs)

  -- More rounds than are needed add nothing.
  round_robin_step :
      (rounds n : ℕ) (p f : List A)
      → length p + length f ≤ rounds
      → round_robin rounds n p f
        ≡ take n p ++ (take n f ++ round_robin (fewer rounds) n (drop n p) (drop n f))
  unfolding round_robin
  round_robin_step zero n [] [] h = rw take-nil
  round_robin_step zero n [] (y ∷ f) h = absurd (omega arith)
  round_robin_step zero n (x ∷ p) f h = absurd (omega arith)
  round_robin_step (suc rounds) n p f h = refl

  fewer_enough :
      (rounds n : ℕ) (p f : List A)
      → 0 < n
      → length p + length f ≤ rounds
      → length (drop n p) + length (drop n f) ≤ fewer rounds
  fewer_enough zero n p f pos h = omega (arith, length-drop_pos n p, length-drop_pos n f)
  fewer_enough (suc rounds) n p f pos h = omega (arith, length-drop_pos n p, length-drop_pos n f)

  -- One call of maybeTakeN, on a channel or on none.
  record Taken (factor : ℕ) (ch : Option (List A)) : Type ℓ where
    sent : (maybe_take_n factor ch).0 ≡ take (max 1 factor) (content ch)
    left : content (maybe_take_n factor ch).1 ≡ drop (max 1 factor) (content ch)

  maybe_take_n_lem : (factor : ℕ) (ch : Option (List A)) → Taken factor ch
  unfolding maybe_take_n
  maybe_take_n_lem factor none = record {
    sent = sym (take-nil (max 1 factor));
    left = sym (drop-nil (max 1 factor));
  }
  maybe_take_n_lem factor (some ch) = record {
    sent = take_n-take (max 1 factor) ch;
    left = take_n-drop (max 1 factor) ch;
  }

  reads_left-maybe_take_n :
      (factor : ℕ) (ch : List A) → reads_left (maybe_take_n factor (some ch)).1 ≤ length ch
  unfolding maybe_take_n
  reads_left-maybe_take_n factor ch =
      rw (at_least_one factor) (reads_left-take_n (max 1 factor - 1) ch)

  -- One round of the loop, from what the rounds after it do.
  one_round :
      (rounds factor : ℕ) (p f : Option (List A)) (rest : Option (List A))
      → length (content p) + length (content f) ≤ rounds
      → rest
        ≡ some (
            round_robin
              (fewer rounds)
              (max 1 factor)
              (content (maybe_take_n factor p).1)
              (content (maybe_take_n factor f).1))
      → elim rest [
        | none ↦ none
        | some output ↦ some ((maybe_take_n factor p).0 ++ ((maybe_take_n factor f).0 ++ output))
      ]
        ≡ some (round_robin rounds (max 1 factor) (content p) (content f))
  one_round rounds factor p f rest enough e =
      rw (e, round_robin_step rounds (max 1 factor) (content p) (content f) enough)
        (cc (
          (maybe_take_n_lem factor p).sent,
          (maybe_take_n_lem factor p).left,
          (maybe_take_n_lem factor f).sent,
          (maybe_take_n_lem factor f).left,
        ))

  next_enough :
      (rounds factor : ℕ) (p f : Option (List A))
      → length (content p) + length (content f) ≤ rounds
      → length (content (maybe_take_n factor p).1) + length (content (maybe_take_n factor f).1)
        ≤ fewer rounds
  next_enough rounds factor p f h =
      rw ((maybe_take_n_lem factor p).left, (maybe_take_n_lem factor f).left)
        (fewer_enough rounds (max 1 factor) (content p) (content f) (omega arith) h)

  round_robin-nil : (rounds n : ℕ) → ◌≡◌ {A = List A} (round_robin rounds n [] []) []
  unfolding round_robin
  round_robin-nil zero n = refl
  round_robin-nil (suc rounds) n = rw (take-nil, drop-nil) (round_robin-nil rounds n)

  loop_lem :
      (fuel rounds factor : ℕ) (p f : Option (List A))
      → reads_left p + reads_left f < fuel
      → length (content p) + length (content f) ≤ rounds
      → interleave_loop fuel factor p f
        ≡ some (round_robin rounds (max 1 factor) (content p) (content f))
  unfolding interleave_loop maybe_take_n
  loop_lem zero rounds factor p f enough h = elim enough [ ]
  loop_lem (suc fuel) rounds factor none none enough h =
      ap some (sym (round_robin-nil rounds (max 1 factor)))
  loop_lem (suc fuel) rounds factor none (some f) enough h =
      one_round rounds factor none (some f) _ h (
        loop_lem fuel (fewer rounds) factor none (maybe_take_n factor (some f)).1
          (omega (arith, reads_left-maybe_take_n factor f))
          (next_enough rounds factor none (some f) h))
  loop_lem (suc fuel) rounds factor (some p) none enough h =
      one_round rounds factor (some p) none _ h (
        loop_lem fuel (fewer rounds) factor (maybe_take_n factor (some p)).1 none
          (omega (arith, reads_left-maybe_take_n factor p))
          (next_enough rounds factor (some p) none h))
  loop_lem (suc fuel) rounds factor (some p) (some f) enough h =
      one_round rounds factor (some p) (some f) _ h (
        loop_lem fuel (fewer rounds) factor (maybe_take_n factor (some p)).1
          (maybe_take_n factor (some f)).1
          (omega (arith, reads_left-maybe_take_n factor p, reads_left-maybe_take_n factor f))
          (next_enough rounds factor (some p) (some f) h))

  -- Interleaving ends, and emits in rounds: `factor` items of the primary policy (one where the
  -- factor is zero), then as many of the fallback, or what is left of them, until both are drained.
  pub interleave-eq-round_robin :
      (factor : ℕ) (primary fallback : List A)
      → interleave factor primary fallback
        ≡ some (round_robin (length primary + length fallback) (max 1 factor) primary fallback)
  unfolding interleave
  interleave-eq-round_robin factor primary fallback =
      loop_lem (length primary + length fallback + 3) (length primary + length fallback) factor
        (some primary) (some fallback) (omega arith) (omega arith)
