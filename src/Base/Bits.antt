-- ===== src/Base/Bits.antt =====
-- Exclusive or with 1, from the digits that the native operation stands for.
use Prim.Native.Nat.{ℕ, zero, suc, ◌+◌, ◌-◌, ◌*◌, ◌/◌, ◌%◌, ◌≤◌, bit_xor, bit_xor-bitwise, differ}
use Prim.Native.Nat.{digits}
use mathlib.Core.Path.{◌≡◌, refl}
use native.Mathlib.Omega.{arith}

abbrev xor_digits : ℕ → ℕ → ℕ → ℕ
xor_digits n a b = digits (λ b. b) differ n a b

differ-zero : (d : ℕ) → d ≤ 1 → differ d 0 ≡ d
differ-zero zero h = refl
differ-zero (suc zero) h = refl
differ-zero (suc (suc d)) h = absurd (omega arith)

differ-one : (d : ℕ) → d ≤ 1 → differ d 1 ≡ 1 - d
differ-one zero h = refl
differ-one (suc zero) h = refl
differ-one (suc (suc d)) h = absurd (omega arith)

xor_digits-zero : (n a : ℕ) → a ≤ n → xor_digits n a 0 ≡ a
xor_digits-zero zero zero h = refl
xor_digits-zero zero (suc a) h = absurd (omega arith)
xor_digits-zero (suc n) zero h = refl
xor_digits-zero (suc n) (suc a) h =
    omega
      (arith, xor_digits-zero n (suc a / 2) (omega arith), differ-zero (suc a % 2) (omega arith))

-- `x ^ 1` is the other number of the pair that `x` stands in.
pub bit_xor-one : (x : ℕ) → bit_xor x 1 ≡ 2 * (x / 2) + (1 - x % 2)
bit_xor-one zero = refl
bit_xor-one (suc a) = omega (
  arith,
  bit_xor-bitwise (suc a) 1,
  xor_digits-zero a (suc a / 2) (omega arith),
  differ-one (suc a % 2) (omega arith),
)
