-- ===== src/Prelude/Golang.antt =====
-- What the code takes from Go's standard library and leaves open here: floats, stable sorting,
-- differences of times.
use mathlib.Core.List.{Permᴰ}
use ooni_probe_engine.Prelude.Int.{ℤ, pos, negsuc, ltb_ℤ, ◌-ℤ◌, max_int64}
use ooni_probe_engine.Prelude.Tests.{if◌then◌else◌}
use mathlib.Core.Bool.{Bool, true, false}
use mathlib.Core.List.{List}
use mathlib.Core.Path.{◌≡◌}

-- float64: quotients of two integers, and the strict order, under which no two values each exceed
-- the other.
pub record Float64 : Type 1 where
  pub Float : Type 0
  pub zero_float : Float
  pub divide : ℤ → ℤ → Float
  pub gtb : Float → Float → Bool
  pub gtb_asym : (x y : Float) → gtb x y ≡ true → gtb y x ≡ false

-- sort.SliceStable: a rearrangement of the slice.
pub record SliceStable (A : Type 0) : Type 0 where
  pub sort : (A → A → Bool) → List A → List A
  pub sort_perm : (less : A → A → Bool) (l : List A) → Permᴰ (sort less l) l

-- t.Sub(u), which saturates.
unfoldable pub sub_time : ℤ → ℤ → ℤ
sub_time t u =
    let d = t -ℤ u in
    if ltb_ℤ (pos max_int64) d
    then pos max_int64
    else if ltb_ℤ d (negsuc max_int64)
    then negsuc max_int64
    else d
