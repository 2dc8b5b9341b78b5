-- ===== src/Enginenetx/HappyEyeballs/Schedule.antt =====
-- The delays against the schedule that the comment of happyeyeballs.go describes.
use ooni_probe_engine.Prelude.{
  ℕ, zero, suc, ◌+◌, ◌*◌, ◌≤◌, ◌<◌, ◌≡◌, refl, arith, ltb, if◌then◌else◌,
}
use ooni_probe_engine.Prelude.Int.{pos, wrap64, wrap64_small}
use ooni_probe_engine.Enginenetx.HappyEyeballs.{base_delay, happy_eyeballs_delay}

-- The last index at which the delay fits a `time.Duration`.
abbrev pub delay_limit : ℕ
delay_limit = 1152921507

-- Zero, the base delay, then twice the delay before until 8 seconds, then 8 seconds more each time.
unfoldable pub doubling_schedule : ℕ → ℕ
doubling_schedule zero = 0
doubling_schedule (suc zero) = base_delay
doubling_schedule (suc (suc n)) =
    let d = doubling_schedule (suc n) in
    if ltb d (8 * base_delay) then 2 * d else d + 8 * base_delay

linear_part : (n : ℕ) → doubling_schedule (suc (suc (suc (suc n)))) ≡ 8 * base_delay * (n + 1)
unfolding doubling_schedule
linear_part zero = refl
linear_part (suc n) = ground (arith, linear_part n)

linear_delay :
    (n : ℕ)
    → n + 5 ≤ delay_limit
    → happy_eyeballs_delay (pos (suc (suc (suc (suc (suc n)))))) ≡ pos (8 * base_delay * (n + 2))
unfolding happy_eyeballs_delay
linear_delay n h = ground (arith, wrap64_small (base_delay * 8 * (n + 2)))

-- Up to the last index at which the delay fits a `time.Duration`, the delay is the schedule's.
pub happy_eyeballs_delay-eq-schedule :
    (idx : ℕ) → idx ≤ delay_limit → happy_eyeballs_delay (pos idx) ≡ pos (doubling_schedule idx)
unfolding happy_eyeballs_delay doubling_schedule wrap64
happy_eyeballs_delay-eq-schedule zero h = refl
happy_eyeballs_delay-eq-schedule (suc zero) h = refl
happy_eyeballs_delay-eq-schedule (suc (suc zero)) h = refl
happy_eyeballs_delay-eq-schedule (suc (suc (suc zero))) h = refl
happy_eyeballs_delay-eq-schedule (suc (suc (suc (suc zero)))) h = refl
happy_eyeballs_delay-eq-schedule (suc (suc (suc (suc (suc n))))) h =
    ground (arith, linear_part (suc n), linear_delay n)

schedule_step :
    (n : ℕ)
    → (doubling_schedule n < doubling_schedule (suc n))
      × (doubling_schedule (suc n) ≤ doubling_schedule n + 8 * base_delay)
unfolding doubling_schedule
schedule_step zero = omega arith
schedule_step (suc zero) = omega arith
schedule_step (suc (suc zero)) = omega arith
schedule_step (suc (suc (suc zero))) = omega arith
schedule_step (suc (suc (suc (suc n)))) = omega (arith, linear_part n, linear_part (suc n))

-- Below that index successive attempts start in order, at different times at most 8 seconds apart.
pub delay_spacing :
    (idx : ℕ)
    → idx < delay_limit
    → (d e : ℕ) × (happy_eyeballs_delay (pos idx) ≡ pos d)
      × (happy_eyeballs_delay (pos (suc idx)) ≡ pos e)
      × (d < e)
      × (e ≤ d + 8 * base_delay)
delay_spacing idx h =
    let (up, near) = schedule_step idx in
    (
      doubling_schedule idx,
      doubling_schedule (suc idx),
      happy_eyeballs_delay-eq-schedule idx (omega arith),
      happy_eyeballs_delay-eq-schedule (suc idx) h,
      up,
      near,
    )
