-- ===== src/Prelude/Bits.antt =====
-- Bounds on the bitwise operations: what fits a width stays within it.
pub mod Digits
use Prim.Native.Nat.{
  ℕ, zero, suc, ◌/◌, ◌%◌, ◌^◌, ◌≤◌, ◌<◌, min, max, bit_and, bit_or, bit_xor, digits, differ,
}
use Prim.Native.Nat.{bit_and-bitwise, bit_or-bitwise, bit_xor-bitwise}
use native.Mathlib.Nat.{pow-suc}
use native.Mathlib.Omega.{arith}

-- Digit by digit, from a bound on the result of the digits and on the tail.
digits-lt :
    (z : ℕ → ℕ) (f : ℕ → ℕ → ℕ)
    → ((b : ℕ) → z b ≤ b)
    → ((x y : ℕ) → x < 2 → y < 2 → f x y < 2)
    → (n k a b : ℕ) → a < 2 ^ k
    → b < 2 ^ k
    → digits z f n a b < 2 ^ k
digits-lt z f hz hf zero k a b ha hb = omega (arith, hz b)
digits-lt z f hz hf (suc n) k zero b ha hb = omega (arith, hz b)
digits-lt z f hz hf (suc n) zero (suc a) b ha hb = absurd (omega arith)
digits-lt z f hz hf (suc n) (suc k) (suc a) b ha hb = omega (
  arith,
  pow-suc 2 k,
  digits-lt z f hz hf n k (suc a / 2) (b / 2) (omega (arith, pow-suc 2 k))
      (omega (arith, pow-suc 2 k)),
  hf (suc a % 2) (b % 2) (omega arith) (omega arith),
)

differ-lt-two : (x y : ℕ) → x < 2 → y < 2 → differ x y < 2
differ-lt-two zero y hx hy = hy
differ-lt-two (suc zero) zero hx hy = omega arith
differ-lt-two (suc zero) (suc y) hx hy = omega arith
differ-lt-two (suc (suc x)) y hx hy = absurd (omega arith)

pub bit_and-lt-pow : (k a b : ℕ) → a < 2 ^ k → b < 2 ^ k → bit_and a b < 2 ^ k
bit_and-lt-pow k a b ha hb = omega (
  arith,
  bit_and-bitwise a b,
  digits-lt (λ _. 0) min (λ _. omega arith) (λ x y p q. omega arith) a k a b ha hb,
)

pub bit_or-lt-pow : (k a b : ℕ) → a < 2 ^ k → b < 2 ^ k → bit_or a b < 2 ^ k
bit_or-lt-pow k a b ha hb = omega (
  arith,
  bit_or-bitwise a b,
  digits-lt (λ b. b) max (λ _. omega arith) (λ x y p q. omega arith) a k a b ha hb,
)

pub bit_xor-lt-pow : (k a b : ℕ) → a < 2 ^ k → b < 2 ^ k → bit_xor a b < 2 ^ k
bit_xor-lt-pow k a b ha hb = omega (
  arith,
  bit_xor-bitwise a b,
  digits-lt (λ b. b) differ (λ _. omega arith) differ-lt-two a k a b ha hb,
)
