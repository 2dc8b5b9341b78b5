-- ===== src/Prelude/Keys.antt =====
-- Keys of Go maps: their equality and the order `<` of the language.
use Prim.Native.Nat.{Ordering}
use Prim.Native.String.{String, compare}
use mathlib.Core.Path.{◌≡◌, ap}
use mathlib.Core.Logic.{◌↔◌}
use mathlib.Core.Bool.{Bool, true, false}
use native.Mathlib.Omega.{arith}
use text.Mathlib.Text.{◌==◌ as str_eq}
use text.Mathlib.TextEquality.{eq_iff}
use ooni_probe_engine.Prelude.Tests.{◌==◌}
use ooni_probe_engine.Prelude.Int.{ℤ, pos, negsuc, ltb_ℤ}

pub record Key {ℓ} (K : Type ℓ) : Type ℓ where
  pub same : K → K → Bool
  pub same_iff : (a b : K) → (same a b ≡ true) ↔ (a ≡ b)
  pub less : K → K → Bool

abbrev pub str_less : String → String → Bool
str_less s t = elim (compare s t) [ Ordering.lt ↦ true | _ ↦ false ]

abbrev pub int_eq : ℤ → ℤ → Bool
int_eq (pos a) (pos b) = a == b
int_eq (negsuc a) (negsuc b) = a == b
int_eq a b = false

pub int_eq_iff : (a b : ℤ) → (int_eq a b ≡ true) ↔ (a ≡ b)
int_eq_iff (pos a) (pos b) = (λ h. ap pos (ground arith), λ e. ground arith)
int_eq_iff (pos a) (negsuc b) = (λ h. cc, λ e. cc)
int_eq_iff (negsuc a) (pos b) = (λ h. cc, λ e. cc)
int_eq_iff (negsuc a) (negsuc b) = (λ h. ap negsuc (ground arith), λ e. ground arith)

instance abbrev pub string_key : Key String
string_key = record { same = str_eq; same_iff = eq_iff; less = str_less }

instance abbrev pub int_key : Key ℤ
int_key = record { same = int_eq; same_iff = int_eq_iff; less = ltb_ℤ }
