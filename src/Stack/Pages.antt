-- ===== src/Stack/Pages.antt =====
-- The arithmetic of `SysStack::allocate` of src/stack/mod.rs: whole pages.
use generator_rs.Base.{
  ℕ, ◌+◌, ◌-◌, ◌*◌, ◌/◌, ◌%◌, ◌^◌, ◌≤◌, ◌<◌, ◌≡◌, some, arith, ltb, if◌then◌else◌, word_mod,
  sub_word, max,
}
use native.Mathlib.Nat.{mod-eq-sub-div-mul, div-mul-le_self, mod-lt, mul-mod_left}
use generator_rs.Base.Bits.{bit_and-mask, pow_pos, pow-le-pow}
use generator_rs.Stack.Sys.{mapped_size}

-- The bytes of whole pages that hold `n` bytes, at least one page.
abbrev pub round_up : (page n : ℕ) → ℕ
round_up page n = (max n page - 1) - (max n page - 1) % page + page

least-max : (size page : ℕ) → (if ltb size page then page else size) ≡ max size page
least-max size page = ground arith

sub_word-one : (n : ℕ) → 0 < n → n < word_mod → sub_word n 1 ≡ n - 1
sub_word-one n p h = omega arith

-- The arithmetic of `allocate`, a guard page included.
pub mapped_size_lem :
    (b size : ℕ)
    → b ≤ 32
    → size + 2 ^ b * 2 < word_mod
    → mapped_size (2 ^ b) (2 ^ b) size ((2 ^ b * 2) % word_mod)
      ≡ some (round_up (2 ^ b) size + 2 ^ b)
unfolding mapped_size
mapped_size_lem b size small fits =
    let pos = pow_pos b in
    let bound = pow-le-pow b 32 small in
    let two : (2 ^ b * 2) % word_mod ≡ 2 ^ b * 2 = omega arith in
    let m = bit_and-mask b (max size (2 ^ b) - 1) (omega arith) (omega arith) in
    rw
      (
        least-max size (2 ^ b),
        sub_word-one (max size (2 ^ b)) (omega arith) (omega arith),
        sub_word-one (2 ^ b) pos (omega arith),
        two,
        m,
      )
      (ground arith)

round_up-eq : (p n : ℕ) → 0 < p → round_up p n ≡ ((max n p - 1) / p + 1) * p
round_up-eq p n h =
    omega (arith, mod-eq-sub-div-mul (max n p - 1) p, div-mul-le_self (max n p - 1) p)

-- At least the bytes asked for and one page, in whole pages, and less than a page more.
round_up_bounds :
    (p n : ℕ)
    → 0 < p
    → (n ≤ round_up p n)
      × (p ≤ round_up p n)
      × (round_up p n % p ≡ 0)
      × (round_up p n < max n p + p)
round_up_bounds p n h =
    let r = mod-lt (max n p - 1) h in
    (
      omega arith,
      omega arith,
      rw (round_up-eq p n h) (mul-mod_left ((max n p - 1) / p + 1) p),
      omega arith,
    )

-- For a page of a power of two of bytes, up to 2^32, and a size that with two pages does not
-- overflow, the size that allocate maps is a whole number of pages, at least two and enough for the
-- size and a guard page, and exceeds the larger of the size and a page by less than two pages.
pub mapped_size_bounds :
    (b size : ℕ)
    → b ≤ 32
    → size + 2 ^ b * 2 < word_mod
    → (n : ℕ) × (mapped_size (2 ^ b) (2 ^ b) size ((2 ^ b * 2) % word_mod) ≡ some n)
      × (size + 2 ^ b ≤ n)
      × (2 ^ b * 2 ≤ n)
      × (n % 2 ^ b ≡ 0)
      × (n < max size (2 ^ b) + 2 ^ b * 2)
mapped_size_bounds b size small fits =
    let q = (max size (2 ^ b) - 1) / 2 ^ b + 1 in
    let z : round_up (2 ^ b) size + 2 ^ b ≡ (q + 1) * 2 ^ b =
      omega (arith, round_up-eq (2 ^ b) size (pow_pos b)) in
    let (big, page, whole, tight) = round_up_bounds (2 ^ b) size (pow_pos b) in
    (
      round_up (2 ^ b) size + 2 ^ b,
      mapped_size_lem b size small fits,
      omega arith,
      omega arith,
      rw z (mul-mod_left (q + 1) (2 ^ b)),
      omega arith,
    )
