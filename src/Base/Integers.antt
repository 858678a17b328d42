-- ===== src/Base/Integers.antt =====
-- Signed numbers of the source.
use Prim.Native.Nat.{ℕ, ◌≤◌}
use mathlib.Core.Path.{◌≡◌}
use mathlib.Core.Bool.{Bool, true, false, ◌||◌}
use native.Mathlib.Omega.{arith}
use photobridge.Base.Tests.{list_eq, ltb, nat_beq, nat_eq, option_eq, string_eq}

-- `negsuc n` is -(n + 1).
pub data ℤ : Type 0 where
  pos negsuc : ℕ → ℤ

abbrev pub int_beq : ℤ → ℤ → Bool
int_beq (pos a) (pos b) = nat_beq a b
int_beq (negsuc a) (negsuc b) = nat_beq a b
int_beq _ _ = false

abbrev pub int_less : ℤ → ℤ → Bool
int_less (pos a) (pos b) = ltb a b
int_less (pos a) (negsuc b) = false
int_less (negsuc a) (pos b) = true
int_less (negsuc a) (negsuc b) = ltb b a

-- value < low || value > high
abbrev pub is_outside : ℕ → ℕ → ℤ → Bool
is_outside low high v = int_less v (pos low) || int_less (pos high) v

-- A number of the source between two natural numbers.
abbrev pub IsBetween : ℕ → ℕ → ℤ → Type 0
IsBetween low high (pos n) = (low ≤ n) × (n ≤ high)
IsBetween low high (negsuc n) = ⊥

pub is_outside-IsBetween :
    (low high : ℕ) (v : ℤ) → is_outside low high v ≡ false → IsBetween low high v
is_outside-IsBetween low high (pos n) h = (ground arith, ground arith)
is_outside-IsBetween low high (negsuc n) h = cc

pub IsBetween-inside : (low high : ℕ) (v : ℤ) → IsBetween low high v → is_outside low high v ≡ false
IsBetween-inside low high (pos n) (h, k) = ground arith
IsBetween-inside low high (negsuc n) h = absurd h
