-- ===== src/Enginenetx/HappyEyeballs/Tests.antt =====
-- The delays of happyeyeballs.go at some indices.
use ooni_probe_engine.Prelude.{ℕ, ◌+◌, ◌*◌, ◌≤◌, ◌<◌, ◌≡◌, refl, arith}
use ooni_probe_engine.Prelude.Int.{pos, negsuc, wrap64}
use ooni_probe_engine.Enginenetx.HappyEyeballs.{base_delay, happy_eyeballs_delay}
use ooni_probe_engine.Enginenetx.HappyEyeballs.Schedule.{
  doubling_schedule, happy_eyeballs_delay-eq-schedule, delay_spacing,
}

no_delay_below_zero : happy_eyeballs_delay (negsuc 3) ≡ pos 0
unfolding happy_eyeballs_delay
no_delay_below_zero = refl

delay_six : happy_eyeballs_delay (pos 6) ≡ pos 24000000000
unfolding happy_eyeballs_delay wrap64
delay_six = refl

happy_eyeballs_delay-eq-schedule_example : happy_eyeballs_delay (pos 6) ≡ pos (doubling_schedule 6)
happy_eyeballs_delay-eq-schedule_example = happy_eyeballs_delay-eq-schedule 6 (omega arith)

delay_spacing_example :
    (d e : ℕ) × (happy_eyeballs_delay (pos 4) ≡ pos d)
    × (happy_eyeballs_delay (pos 5) ≡ pos e)
    × (d < e)
    × (e ≤ d + 8 * base_delay)
delay_spacing_example = delay_spacing 4 (omega arith)
