-- ===== src/Enginenetx/HappyEyeballs.antt =====
-- pkg/enginenetx/happyeyeballs.go: the delay before each dialing attempt. A `time.Duration` is an
-- int64 number of nanoseconds.
pub mod Schedule
mod Tests
use ooni_probe_engine.Prelude.{ℕ, ◌-◌, ◌*◌, ◌^◌, leb, ◌==◌, if◌then◌else◌}
use ooni_probe_engine.Prelude.Int.{ℤ, pos, negsuc, wrap64}

-- time.Second
abbrev pub base_delay : ℕ
base_delay = 1000000000

unfoldable pub happy_eyeballs_delay : ℤ → ℤ
happy_eyeballs_delay (negsuc n) = pos 0
happy_eyeballs_delay (pos idx) =
    if leb idx 0
    then pos 0
    else if idx == 1
    then pos base_delay
    else if leb idx 4
    then wrap64 (base_delay * 2 ^ (idx - 1))
    else wrap64 (base_delay * 2 ^ 3 * (idx - 3))
