-- ===== src/Prelude/Int.antt =====
-- Signed 64-bit integers (int64, time.Duration) over the native numbers: the integers, their order,
-- and the wrap-around of the machine type.
use Prim.Native.Nat.{ℕ, zero, suc, ◌+◌, ◌-◌, ◌%◌, ◌^◌, ◌≤◌, ◌<◌}
use mathlib.Core.Path.{◌≡◌}
use mathlib.Core.Bool.{Bool}
use native.Mathlib.Omega.{arith}
use ooni_probe_engine.Prelude.Tests.{ltb, leb, if◌then◌else◌}

-- `negsuc n` is -(n + 1).
pub data ℤ : Type 0 where
  pos : ℕ → ℤ
  negsuc : ℕ → ℤ

abbrev pub pos_part : ℤ → ℕ
pos_part (pos n) = n
pos_part (negsuc n) = 0

abbrev pub neg_part : ℤ → ℕ
neg_part (pos n) = 0
neg_part (negsuc n) = suc n

abbrev pub sub_ℕ : ℕ → ℕ → ℤ
sub_ℕ a b = if leb b a then pos (a - b) else negsuc (b - a - 1)

infixl 65 ◌+ℤ◌ ◌-ℤ◌
unfoldable pub ◌+ℤ◌ : ℤ → ℤ → ℤ
a +ℤ b = sub_ℕ (pos_part a + pos_part b) (neg_part a + neg_part b)

unfoldable pub ◌-ℤ◌ : ℤ → ℤ → ℤ
a -ℤ b = sub_ℕ (pos_part a + neg_part b) (neg_part a + pos_part b)

abbrev pub ltb_ℤ : ℤ → ℤ → Bool
ltb_ℤ a b = ltb (pos_part a + neg_part b) (pos_part b + neg_part a)

infix 50 ◌<ℤ◌ ◌≤ℤ◌
abbrev pub ◌<ℤ◌ : ℤ → ℤ → Type 0
a <ℤ b = pos_part a + neg_part b < pos_part b + neg_part a

abbrev pub ◌≤ℤ◌ : ℤ → ℤ → Type 0
a ≤ℤ b = pos_part a + neg_part b ≤ pos_part b + neg_part a

abbrev pub int64_mod : ℕ
int64_mod = 2 ^ 64

abbrev pub max_int64 : ℕ
max_int64 = 2 ^ 63 - 1

-- The int64 whose bit pattern is the number's last 64 bits.
unfoldable pub wrap64 : ℕ → ℤ
wrap64 n = let m = n % int64_mod in if leb m max_int64 then pos m else negsuc (int64_mod - 1 - m)

-- x++ on an int64.
unfoldable pub inc64 : ℤ → ℤ
unfolding wrap64
inc64 (pos n) = wrap64 (n + 1)
inc64 (negsuc zero) = pos 0
inc64 (negsuc (suc n)) = negsuc n

pub wrap64_small : (n : ℕ) → n ≤ max_int64 → wrap64 n ≡ pos n
unfolding wrap64
wrap64_small n h = ground arith

pub inc64_pos : (n : ℕ) → n < max_int64 → inc64 (pos n) ≡ pos (n + 1)
unfolding inc64
inc64_pos n h = wrap64_small (n + 1) (omega arith)

-- The bit pattern of an int64, as a number below 2 ^ 64.
unfoldable pub residue : ℤ → ℕ
residue (pos n) = n % int64_mod
residue (negsuc n) = int64_mod - 1 - n % int64_mod

pub residue-inc64 : (x : ℤ) → residue (inc64 x) ≡ (residue x + 1) % int64_mod
unfolding residue inc64
residue-inc64 (pos n) = ground arith
residue-inc64 (negsuc zero) = omega arith
residue-inc64 (negsuc (suc n)) = omega arith
