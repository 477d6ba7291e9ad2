-- ===== src/Prelude/Bits/Digits.antt =====
-- The binary digits of the results of the bitwise operations.
use Prim.Native.Nat.{
  ℕ, zero, suc, ◌+◌, ◌-◌, ◌*◌, ◌/◌, ◌%◌, ◌^◌, ◌≤◌, ◌<◌, min, max, bit_and, bit_or, bit_xor, digits,
  differ,
}
use Prim.Native.Nat.{bit_and-bitwise, bit_or-bitwise, bit_xor-bitwise}
use mathlib.Core.Path.{◌≡◌, refl, ap, ◌∙◌}
use mathlib.Core.Bool.{Bool, true, false, not, ◌&&◌, ◌||◌}
use native.Mathlib.Nat.{pow-suc}
use native.Mathlib.Omega.{arith}
use cyphera_kernel.Prelude.Tests.{◌==◌, if◌then◌else◌}

digits-fuel :
    (z : ℕ → ℕ) (f : ℕ → ℕ → ℕ) (n m a b : ℕ) → a ≤ n → a ≤ m → digits z f n a b ≡ digits z f m a b
digits-fuel z f zero zero a b h k = refl
digits-fuel z f zero (suc m) zero b h k = refl
digits-fuel z f zero (suc m) (suc a) b h k = absurd (omega arith)
digits-fuel z f (suc n) zero zero b h k = refl
digits-fuel z f (suc n) zero (suc a) b h k = absurd (omega arith)
digits-fuel z f (suc n) (suc m) zero b h k = refl
digits-fuel z f (suc n) (suc m) (suc a) b h k =
    ap (λ r. r * 2 + f (suc a % 2) (b % 2))
      (digits-fuel z f n m (suc a / 2) (b / 2) (omega arith) (omega arith))

-- the lowest digit, and the rest
digits-step :
    (z : ℕ → ℕ) (f : ℕ → ℕ → ℕ)
    → ((b : ℕ) → z b ≡ z (b / 2) * 2 + f 0 (b % 2))
    → (a b : ℕ) → digits z f a a b ≡ digits z f (a / 2) (a / 2) (b / 2) * 2 + f (a % 2) (b % 2)
digits-step z f hz zero b = hz b
digits-step z f hz (suc a) b =
    ap (λ r. r * 2 + f (suc a % 2) (b % 2))
      (digits-fuel z f a (suc a / 2) (suc a / 2) (b / 2) (omega arith) (omega arith))

pub bit_and-step : (a b : ℕ) → bit_and a b ≡ bit_and (a / 2) (b / 2) * 2 + min (a % 2) (b % 2)
bit_and-step a b = omega (
  arith,
  bit_and-bitwise a b,
  bit_and-bitwise (a / 2) (b / 2),
  digits-step (λ _. 0) min (λ b. omega arith) a b,
)

bit_or-step : (a b : ℕ) → bit_or a b ≡ bit_or (a / 2) (b / 2) * 2 + max (a % 2) (b % 2)
bit_or-step a b = omega (
  arith,
  bit_or-bitwise a b,
  bit_or-bitwise (a / 2) (b / 2),
  digits-step (λ b. b) max (λ b. omega arith) a b,
)

differ-zero : (x : ℕ) → x < 2 → differ 0 x ≡ x
differ-zero x h = refl

bit_xor-step : (a b : ℕ) → bit_xor a b ≡ bit_xor (a / 2) (b / 2) * 2 + differ (a % 2) (b % 2)
bit_xor-step a b = omega (
  arith,
  bit_xor-bitwise a b,
  bit_xor-bitwise (a / 2) (b / 2),
  digits-step (λ b. b) differ (λ b. omega arith) a b,
)

-- digit `i` of a number
pub has_bit : ℕ → ℕ → Bool
has_bit zero n = n % 2 == 1
has_bit (suc i) n = has_bit i (n / 2)

pub has_bit-bit_and : (i a b : ℕ) → has_bit i (bit_and a b) ≡ (has_bit i a && has_bit i b)
unfolding has_bit
has_bit-bit_and zero a b = ground (arith, bit_and-step a b)
has_bit-bit_and (suc i) a b =
    let e : bit_and a b / 2 ≡ bit_and (a / 2) (b / 2) = omega (arith, bit_and-step a b) in
    ap (has_bit i) e ∙ has_bit-bit_and i (a / 2) (b / 2)

pub has_bit-bit_or : (i a b : ℕ) → has_bit i (bit_or a b) ≡ (has_bit i a || has_bit i b)
unfolding has_bit
has_bit-bit_or zero a b = ground (arith, bit_or-step a b)
has_bit-bit_or (suc i) a b =
    let e : bit_or a b / 2 ≡ bit_or (a / 2) (b / 2) = omega (arith, bit_or-step a b) in
    ap (has_bit i) e ∙ has_bit-bit_or i (a / 2) (b / 2)

differ-digits :
    (x y : ℕ)
    → x < 2
    → y < 2
    → (differ x y < 2)
      × ((differ x y == 1) ≡ not (x == 1) && (y == 1) || ((x == 1) && not (y == 1)))
differ-digits zero y hx hy = ground arith
differ-digits (suc zero) zero hx hy = ground arith
differ-digits (suc zero) (suc zero) hx hy = ground arith
differ-digits (suc zero) (suc (suc y)) hx hy = absurd (omega arith)
differ-digits (suc (suc x)) y hx hy = absurd (omega arith)

pub has_bit-bit_xor :
    (i a b : ℕ)
    → has_bit i (bit_xor a b)
      ≡ ((not (has_bit i a) && has_bit i b) || (has_bit i a && not (has_bit i b)))
unfolding has_bit
has_bit-bit_xor zero a b =
    ground (arith, bit_xor-step a b, differ-digits (a % 2) (b % 2) (omega arith) (omega arith))
has_bit-bit_xor (suc i) a b =
    let (small, _) = differ-digits (a % 2) (b % 2) (omega arith) (omega arith) in
    let e : bit_xor a b / 2 ≡ bit_xor (a / 2) (b / 2) = omega (arith, bit_xor-step a b, small) in
    ap (has_bit i) e ∙ has_bit-bit_xor i (a / 2) (b / 2)

pub has_bit-zero : (i : ℕ) → has_bit i 0 ≡ false
unfolding has_bit
has_bit-zero zero = refl
has_bit-zero (suc i) = has_bit-zero i

pub pow_pos : (n : ℕ) → 0 < 2 ^ n
pow_pos zero = omega arith
pow_pos (suc n) = omega (arith, pow-suc 2 n, pow_pos n)

-- a number of `n` digits 1
pub has_bit-ones : (i n : ℕ) → i < n → has_bit i (2 ^ n - 1) ≡ true
unfolding has_bit
has_bit-ones i zero h = absurd (omega arith)
has_bit-ones zero (suc n) h = ground (arith, pow-suc 2 n, pow_pos n)
has_bit-ones (suc i) (suc n) h =
    let e : (2 ^ suc n - 1) / 2 ≡ 2 ^ n - 1 = omega (arith, pow-suc 2 n, pow_pos n) in
    ap (has_bit i) e ∙ has_bit-ones i n (omega arith)

digits-none : (m a : ℕ) → digits (λ _. 0) min m a 0 ≡ 0
digits-none zero a = refl
digits-none (suc m) zero = refl
digits-none (suc m) (suc a) = omega (arith, digits-none m (suc a / 2))

pub bit_and-none : (n : ℕ) → bit_and n 0 ≡ 0
bit_and-none n = omega (arith, bit_and-bitwise n 0, digits-none n n)

-- `n & (1 << i)`
pub bit_and-pow : (i n : ℕ) → bit_and n (2 ^ i) ≡ (if has_bit i n then 2 ^ i else 0)
unfolding has_bit
bit_and-pow zero n = ground (arith, bit_and-step n 1, bit_and-none (n / 2))
bit_and-pow (suc i) n =
    ground (arith, bit_and-step n (2 ^ suc i), bit_and-pow i (n / 2), pow-suc 2 i)
