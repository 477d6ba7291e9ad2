-- ===== src/Mm/FrameAlloc/Regions/Align.antt =====
-- frame/src/mm/frame_alloc.rs: rounding by a mask is rounding by division.
use native.Mathlib.Nat.{pow-suc}
use cyphera_kernel.Prelude.{
  ℕ, zero, suc, ◌+◌, ◌-◌, ◌*◌, ◌/◌, ◌%◌, ◌^◌, ◌<◌, bit_and, ◌≡◌, refl, subst, arith,
}
use cyphera_kernel.Prelude.Bits.Digits.{bit_and-step, bit_and-none, pow_pos}
use cyphera_kernel.Mm.FrameAlloc.Regions.{align_down, align_up}

bit_and-ones : (n a : ℕ) → a < 2 ^ n → bit_and a (2 ^ n - 1) ≡ a
bit_and-ones zero a h = omega (arith, bit_and-none a)
bit_and-ones (suc n) a h =
    let half : (2 ^ suc n - 1) / 2 ≡ 2 ^ n - 1 = omega (arith, pow-suc 2 n, pow_pos n) in
    let odd : (2 ^ suc n - 1) % 2 ≡ 1 = omega (arith, pow-suc 2 n, pow_pos n) in
    let step : bit_and a (2 ^ suc n - 1) ≡ bit_and (a / 2) (2 ^ n - 1) * 2 + a % 2 =
      rw (← half) (omega (arith, bit_and-step a (2 ^ suc n - 1), odd)) in
    omega (arith, step, bit_and-ones n (a / 2) (omega (arith, pow-suc 2 n)))

halve : ℕ → ℕ → ℕ
halve zero a = a
halve (suc k) a = halve k (a / 2)

double : ℕ → ℕ → ℕ
double zero a = a
double (suc k) a = 2 * double k a

-- A mask whose `k` lowest digits are 0 clears those of the number.
bit_and-double : (k a mask : ℕ) → bit_and a (double k mask) ≡ double k (bit_and (halve k a) mask)
unfolding halve double
bit_and-double zero a mask = refl
bit_and-double (suc k) a mask =
    let half : 2 * double k mask / 2 ≡ double k mask = omega arith in
    let step : bit_and a (2 * double k mask) ≡ bit_and (a / 2) (double k mask) * 2 =
      subst (λ m. bit_and a (2 * double k mask) ≡ bit_and (a / 2) m * 2) half
        (omega (arith, bit_and-step a (2 * double k mask))) in
    omega (arith, step, bit_and-double k (a / 2) mask)

pub align_down_lem : (addr : ℕ) → addr < 2 ^ 64 → align_down addr ≡ addr / 4096 * 4096
unfolding align_down halve double
align_down_lem addr h =
    omega
      (arith, bit_and-double 12 addr (2 ^ 52 - 1), bit_and-ones 52 (halve 12 addr) (omega arith))

pub align_up_lem : (addr : ℕ) → addr + 4095 < 2 ^ 64 → align_up addr ≡ (addr + 4095) / 4096 * 4096
unfolding align_up align_down
align_up_lem addr h =
    let sum : addr + 4096 - 1 ≡ addr + 4095 = omega arith in rw sum (align_down_lem (addr + 4095) h)
