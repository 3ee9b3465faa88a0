-- ===== src/Common/Bits.antt =====
-- The binary "or" against zero, from the definition that the native operation stands for.
use Prim.Native.Nat.{ℕ, zero, suc, ◌/◌, ◌≤◌, max, bit_or, digits, bit_or-bitwise}
use mathlib.Core.Path.{◌≡◌, refl, ◌∙◌}
use native.Mathlib.Omega.{arith}

pub zero-bit_or : (b : ℕ) → bit_or 0 b ≡ b
zero-bit_or b = bit_or-bitwise 0 b

digits-zero : (n a : ℕ) → a ≤ n → digits (λ b. b) max n a 0 ≡ a
digits-zero zero zero h = refl
digits-zero zero (suc a) h = elim h [ ]
digits-zero (suc n) zero h = refl
digits-zero (suc n) (suc a) h = omega (arith, digits-zero n (suc a / 2) (omega arith))

pub bit_or-zero : (a : ℕ) → bit_or a 0 ≡ a
bit_or-zero a = bit_or-bitwise a 0 ∙ digits-zero a a (omega arith)

le-digits : (n a b : ℕ) → b ≤ digits (λ b. b) max n a b
le-digits zero a b = omega arith
le-digits (suc n) zero b = omega arith
le-digits (suc n) (suc a) b = omega (arith, le-digits n (suc a / 2) (b / 2))

pub le-bit_or_right : (a b : ℕ) → b ≤ bit_or a b
le-bit_or_right a b = omega (arith, bit_or-bitwise a b, le-digits a a b)
