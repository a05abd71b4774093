-- ===== src/Base/Int.antt =====
-- Signed integers over the native numbers, for Go's int64: `negsuc n` is -(n + 1).
use Prim.Native.Nat.{ℕ}
use mathlib.Core.Path.{◌≡◌}
use mathlib.Core.Bool.{Bool, true, false}
use native.Mathlib.Omega.{arith}
use s3pgstore.Base.Tests.{ltb, ◌==◌}

pub data ℤ : Type 0 where
  pos : ℕ → ℤ
  negsuc : ℕ → ℤ

unfoldable pub int_ltb : ℤ → ℤ → Bool
int_ltb (pos a) (pos b) = ltb a b
int_ltb (pos a) (negsuc b) = false
int_ltb (negsuc a) (pos b) = true
int_ltb (negsuc a) (negsuc b) = ltb b a

unfoldable pub int_eq : ℤ → ℤ → Bool
int_eq (pos a) (pos b) = a == b
int_eq (pos a) (negsuc b) = false
int_eq (negsuc a) (pos b) = false
int_eq (negsuc a) (negsuc b) = a == b

pub int_lt_asymm : (a b : ℤ) → int_ltb a b ≡ true → int_ltb b a ≡ false
unfolding int_ltb
int_lt_asymm a b h = ground arith

pub int_lt_trans : (a b c : ℤ) → int_ltb a b ≡ true → int_ltb b c ≡ true → int_ltb a c ≡ true
unfolding int_ltb
int_lt_trans a b c p q = ground arith

pub int_lt_connex : (a b : ℤ) → int_ltb a b ≡ false → int_ltb b a ≡ false → a ≡ b
unfolding int_ltb
int_lt_connex a b p q = ground arith
