-- ===== src/Base/Int.antt =====
-- Go's `int` as an integer; `negsuc n` is -(n + 1).
use Prim.Native.Nat.{ℕ, zero, suc}
use mathlib.Core.Path.{◌≡◌, refl}
use mathlib.Core.Bool.{Bool, true, false}
use native.Mathlib.Omega.{arith}
use dr.Base.Tests.{ltb}

pub data ℤ : Type 0 where
  pos : ℕ → ℤ
  negsuc : ℕ → ℤ

abbrev pub neg : ℕ → ℤ
neg zero = pos 0
neg (suc n) = negsuc n

abbrev pub ltℤ : ℤ → ℤ → Bool
ltℤ (pos a) (pos b) = ltb a b
ltℤ (pos a) (negsuc b) = false
ltℤ (negsuc a) (pos b) = true
ltℤ (negsuc a) (negsuc b) = ltb b a

pub ltℤ_irrefl : (a : ℤ) → ltℤ a a ≡ false
ltℤ_irrefl (pos a) = ground arith
ltℤ_irrefl (negsuc a) = ground arith

pub ltℤ_asymm : (a b : ℤ) → ltℤ a b ≡ true → ltℤ b a ≡ false
ltℤ_asymm (pos a) (pos b) h = ground arith
ltℤ_asymm (pos a) (negsuc b) h = ground arith
ltℤ_asymm (negsuc a) (pos b) h = refl
ltℤ_asymm (negsuc a) (negsuc b) h = ground arith

-- `b` is not below `a`, and `c` not below `b`.
pub geℤ_trans : (a b c : ℤ) → ltℤ b a ≡ false → ltℤ c b ≡ false → ltℤ c a ≡ false
geℤ_trans (pos a) (pos b) (pos c) h k = ground arith
geℤ_trans (negsuc a) (negsuc b) (negsuc c) h k = ground arith
geℤ_trans (negsuc a) (negsuc b) (pos c) h k = refl
geℤ_trans (negsuc a) (pos b) (pos c) h k = refl
geℤ_trans a b c h k = ground arith
