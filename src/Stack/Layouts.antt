-- ===== src/Stack/Layouts.antt =====
-- The arithmetic of `StackBox::new_uninit` of src/stack/mod.rs: sizes and alignment.
use Prim.Native.Nat.{bit_and}
use native.Mathlib.Nat.{mod-eq-sub-div-mul, div-mul-le_self, mod-lt, mul-mod_left, pow-suc}
use generator_rs.Base.{
  ℕ, zero, suc, ◌+◌, ◌-◌, ◌*◌, ◌/◌, ◌%◌, ◌^◌, ◌≤◌, ◌<◌, ◌≡◌, ◌∙◌, ap, sym, subst, arith, add_word,
  sub_word, max,
}
use native.Mathlib.Decide.{dec_le}
use generator_rs.Base.Bits.{bit_not, bit_and-mask, pow_pos, pow-le-pow}
use generator_rs.Stack.Words.{Layout, min_align, data_size}

-- An alignment is a power of two, and the value with its padding is far smaller than the memory.
pub record IsLayout (l : Layout) (a : ℕ) : Type 0 where
  pub power : l.align ≡ 2 ^ a
  pub small : a ≤ 32
  pub fits : l.bytes < 2 ^ 62

-- The alignment that a box has, in words.
abbrev pub unit : Layout → ℕ
unit l = max l.align min_align / 8

eight : (k : ℕ) → 2 ^ suc (suc (suc k)) ≡ 2 ^ k * 8
eight k = omega (arith, pow-suc 2 k, pow-suc 2 (suc k), pow-suc 2 (suc (suc k)))

-- The alignment is a power of two, and so many words.
abbrev Aligned : ℕ → Type 0
Aligned m = (e : ℕ) × (e ≤ 32) × (m ≡ 2 ^ e) × (m ≡ m / 8 * 8) × (0 < m / 8)

max-Aligned : (a : ℕ) → a ≤ 32 → Aligned (max (2 ^ a) min_align)
max-Aligned zero h = (5, omega arith, omega arith, omega arith, omega arith)
max-Aligned (suc zero) h = (5, omega arith, omega arith, omega arith, omega arith)
max-Aligned (suc (suc zero)) h = (5, omega arith, omega arith, omega arith, omega arith)
max-Aligned (suc (suc (suc k))) h = elim (dec_le k 2) [
  | yes low ↦
      let e = eight k in
      let b = pow-le-pow k 2 low in (5, omega arith, omega arith, omega arith, omega arith)
  | no high ↦
      let e = eight k in
      let b = pow-le-pow 2 k (omega arith) in
      (suc (suc (suc k)), h, omega arith, omega arith, omega (arith, pow_pos k))
]

unit_lem : (l : Layout) (a : ℕ) → IsLayout l a → Aligned (max l.align min_align)
unit_lem l a v = rw v.power (max-Aligned a v.small)

rounded : (x u : ℕ) → 0 < u → (x - x % (u * 8)) / 8 ≡ x / (u * 8) * u
rounded x u h = omega (arith, mod-eq-sub-div-mul x (u * 8), div-mul-le_self x (u * 8))

-- The bytes rounded up to the alignment, in words.
abbrev words_of : Layout → ℕ
words_of l =
    bit_and (sub_word (add_word l.bytes (max l.align min_align)) 1)
      (bit_not (max l.align min_align - 1))
    / 8

words_of_lem :
    (l : Layout) (a : ℕ)
    → IsLayout l a
    → words_of l ≡ (l.bytes + unit l * 8 - 1) / (unit l * 8) * unit l
words_of_lem l a v =
    let (e, small, p, u, pos) = unit_lem l a v in
    let bound = pow-le-pow e 32 small in
    let x = l.bytes + max l.align min_align - 1 in
    let w : sub_word (add_word l.bytes (max l.align min_align)) 1 ≡ x = omega (arith, v.fits) in
    let m =
      subst (λ t. bit_and x (bit_not (t - 1)) ≡ x - x % t) (sym p)
        (bit_and-mask e x (omega arith) (omega (arith, v.fits))) in
    rw (w, m)
      (subst (λ t. (l.bytes + t - 1 - (l.bytes + t - 1) % t) / 8 ≡ (l.bytes + t - 1) / t * unit l)
          (sym u) (rounded (l.bytes + unit l * 8 - 1) (unit l) pos)
        ∙ ap (λ t. (l.bytes + t - 1) / t * unit l) u)

-- The words of a value of `b` bytes from `o` on, at an alignment of `u` words.
abbrev padded : (o b u : ℕ) → ℕ
padded o b u = let s = (b + u * 8 - 1) / (u * 8) * u in s + (u - (o + s) % u)

padded_lem :
    (o b u : ℕ)
    → 0 < u
    → (b ≤ padded o b u * 8)
      × ((o + padded o b u) % u ≡ 0)
      × (0 < padded o b u)
      × (padded o b u * 8 < b + 2 * (u * 8))
padded_lem o b u h =
    let x = b + u * 8 - 1 in
    let s = x / (u * 8) * u in
    let q = mod-eq-sub-div-mul x (u * 8) in
    let q' = div-mul-le_self x (u * 8) in
    let r = mod-lt x {m = u * 8} (omega arith) in
    let t = mod-lt (o + s) h in
    let k = mod-eq-sub-div-mul (o + s) u in
    let k' = div-mul-le_self (o + s) u in
    let z : o + padded o b u ≡ ((o + s) / u + 1) * u = omega arith in
    (omega arith, rw z (mul-mod_left ((o + s) / u + 1) u), omega arith, omega arith)

-- For an alignment of a power of two, up to 2^32, and fewer than 2^62 bytes, the words that
-- new_uninit reserves hold the bytes of the value, end at a multiple of the alignment, are not none,
-- and exceed the bytes by less than twice the alignment.
pub data_size_lem :
    (l : Layout) (a offset : ℕ)
    → IsLayout l a
    → (l.bytes ≤ data_size l offset * 8)
      × ((offset + data_size l offset) % unit l ≡ 0)
      × (0 < data_size l offset)
      × (data_size l offset * 8 < l.bytes + 2 * max l.align min_align)
unfolding data_size
data_size_lem l a offset v =
    let (e, small, p, u, pos) = unit_lem l a v in
    let r = padded_lem offset l.bytes (unit l) pos in
    rw (words_of_lem l a v) (r.0, r.1, r.2, omega arith)
