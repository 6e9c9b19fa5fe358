-- ===== src/Base/Bits.antt =====
-- `usize` masks: `x & !(2 ^ k - 1)` rounds down to a multiple of `2 ^ k`.
use Prim.Native.Nat.{
  ℕ, zero, suc, ◌+◌, ◌-◌, ◌*◌, ◌/◌, ◌%◌, ◌^◌, ◌≤◌, ◌<◌, min, bit_and, digits, bit_and-bitwise,
}
use mathlib.Core.Path.{◌≡◌, ◌∙◌}
use native.Mathlib.Omega.{arith}
use native.Mathlib.Nat.{pow-suc, mod-eq-sub-div-mul, div-div-eq-div-mul, div-mul-le_self, mul_comm}
use generator_rs.Base.Tests.{word_mod}

-- `!x`
abbrev pub bit_not : ℕ → ℕ
bit_not x = word_mod - 1 - x

pub pow_pos : (k : ℕ) → 0 < 2 ^ k
pow_pos zero = omega arith
pow_pos (suc k) = omega (arith, pow-suc 2 k, pow_pos k)

pub pow-le-pow : (k t : ℕ) → k ≤ t → 2 ^ k ≤ 2 ^ t
pow-le-pow zero t h = pow_pos t
pow-le-pow (suc k) zero h = elim h [ ]
pow-le-pow (suc k) (suc t) h = omega (arith, pow-suc 2 k, pow-suc 2 t, pow-le-pow k t (omega arith))

mod-double : (x p : ℕ) → 0 < p → x % (p * 2) ≡ (x / 2) % p * 2 + x % 2
mod-double x p h = ground (
  arith,
  mod-eq-sub-div-mul x (p * 2),
  mod-eq-sub-div-mul (x / 2) p,
  div-div x p,
  div-mul-le_self x (p * 2),
  div-mul-le_self (x / 2) p,
)
  where
    div-div : (x p : ℕ) → x / (p * 2) ≡ x / 2 / p
    div-div x p = rw (div-div-eq-div-mul x 2 p, mul_comm p 2)

mask_half : (t k : ℕ) → k ≤ t → (2 ^ suc t - 2 ^ suc k) / 2 ≡ 2 ^ t - 2 ^ k
mask_half t k h = omega (arith, pow-suc 2 t, pow-suc 2 k, pow-le-pow k t h)

mask_half_zero : (t : ℕ) → (2 ^ suc t - 2 ^ zero) / 2 ≡ 2 ^ t - 2 ^ zero
mask_half_zero t = omega (arith, pow-suc 2 t, pow_pos t)

mask_low : (t k : ℕ) → k ≤ t → (2 ^ suc t - 2 ^ suc k) % 2 ≡ 0
mask_low t k h = omega (arith, pow-suc 2 t, pow-suc 2 k, pow-le-pow k t h)

mask_low_zero : (t : ℕ) → (2 ^ suc t - 2 ^ zero) % 2 ≡ 1
mask_low_zero t = omega (arith, pow-suc 2 t, pow_pos t)

mask_digits :
    (n t k x : ℕ)
    → x ≤ n
    → k ≤ t
    → x < 2 ^ t
    → digits (λ b. zero) min n x (2 ^ t - 2 ^ k) ≡ x - x % 2 ^ k
mask_digits zero t k zero a b c = omega arith
mask_digits zero t k (suc x) a b c = absurd (omega arith)
mask_digits (suc n) t k zero a b c = omega arith
mask_digits (suc n) zero k (suc x) a b c = absurd (omega arith)
mask_digits (suc n) (suc t) zero (suc x) a b c =
    rw (mask_half_zero t, mask_low_zero t)
      (omega (
        arith,
        mask_digits n t zero (suc x / 2) (omega arith) (omega arith) (omega (arith, pow-suc 2 t)),
      ))
mask_digits (suc n) (suc t) (suc k) (suc x) a b c =
    rw (mask_half t k (omega arith), mask_low t k (omega arith), pow-suc 2 k)
      (omega (
        arith,
        pow_pos k,
        mod-double (suc x) (2 ^ k) (pow_pos k),
        mask_digits n t k (suc x / 2) (omega arith) (omega arith) (omega (arith, pow-suc 2 t)),
      ))

-- `x & !(2 ^ k - 1)`
pub bit_and-mask :
    (k x : ℕ) → k ≤ 64 → x < word_mod → bit_and x (bit_not (2 ^ k - 1)) ≡ x - x % 2 ^ k
bit_and-mask k x h lt =
    let e : bit_not (2 ^ k - 1) ≡ 2 ^ 64 - 2 ^ k = omega (arith, pow_pos k) in
    rw e (bit_and-bitwise x (2 ^ 64 - 2 ^ k) ∙ mask_digits x 64 k x (omega arith) h lt)
