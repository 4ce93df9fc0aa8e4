-- ===== src/Prelude/Int.antt =====
-- The integers of the C interfaces: return codes, status values, vendor and product ids.
use Prim.Native.Nat.{ℕ}
use mathlib.Core.Path.{◌≡◌}
use mathlib.Core.Logic.{◌↔◌}
use mathlib.Core.Bool.{Bool, true, false}
use native.Mathlib.Omega.{arith}
use co_usb.Prelude.Tests.{◌==◌}

-- `negsuc n` is -(n + 1).
pub data ℤ : Type 0 where
  pos : ℕ → ℤ
  negsuc : ℕ → ℤ

infix 50 ◌==ℤ◌
abbrev pub ◌==ℤ◌ : ℤ → ℤ → Bool
pos a ==ℤ pos b = a == b
negsuc a ==ℤ negsuc b = a == b
pos a ==ℤ negsuc b = false
negsuc a ==ℤ pos b = false

pub ==ℤ_iff : (a b : ℤ) → ((a ==ℤ b) ≡ true) ↔ (a ≡ b)
==ℤ_iff (pos a) (pos b) = ground arith
==ℤ_iff (pos a) (negsuc b) = ground arith
==ℤ_iff (negsuc a) (pos b) = ground arith
==ℤ_iff (negsuc a) (negsuc b) = ground arith

abbrev pub is_negative : ℤ → Bool
is_negative (pos n) = false
is_negative (negsuc n) = true
