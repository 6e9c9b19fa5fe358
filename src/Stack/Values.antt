-- ===== src/Stack/Values.antt =====
-- Values of src/stack/mod.rs, given by their words: what a write of one leaves alone and what is read
-- back.
use generator_rs.Base.{
  ℕ, zero, suc, ◌+◌, ◌*◌, ◌≤◌, ◌<◌, ◌≡◌, ◌⊎◌, refl, ◌∙◌, inl, inr, List, [], ◌∷◌, length, Option,
  none, some, arith, update,
}
use generator_rs.Stack.Words.{write_words, read_words}
use generator_rs.Stack.Layouts.{IsLayout}
use generator_rs.Stack.Placement.{Fields, Value}

-- What the writes of a value leave alone, and what is read back.
pub write_words-out :
    (xs : List ℕ) (ptr : ℕ) (w : ℕ → ℕ) (a : ℕ)
    → (a < ptr) ⊎ (ptr + length xs * 8 ≤ a)
    → write_words xs ptr w a ≡ w a
write_words-out [] ptr w a o = refl
write_words-out (x ∷ xs) ptr w a (inl b) =
    write_words-out xs (ptr + 8) (update w ptr x) a (inl (omega arith)) ∙ ground arith
write_words-out (x ∷ xs) ptr w a (inr b) =
    write_words-out xs (ptr + 8) (update w ptr x) a (inr (omega arith)) ∙ ground arith

pub read_words-write :
    (xs : List ℕ) (ptr : ℕ) (w : ℕ → ℕ) → read_words (length xs) ptr (write_words xs ptr w) ≡ xs
read_words-write [] ptr w = refl
read_words-write (x ∷ xs) ptr w =
    let first : write_words xs (ptr + 8) (update w ptr x) ptr ≡ x =
      write_words-out xs (ptr + 8) (update w ptr x) ptr (inl (omega arith)) ∙ ground arith in
    rw (first, read_words-write xs (ptr + 8) (update w ptr x)) refl

pub read_words-same :
    (n ptr : ℕ) (w w' : ℕ → ℕ)
    → ((a : ℕ) → ptr ≤ a → a < ptr + n * 8 → w' a ≡ w a)
    → read_words n ptr w' ≡ read_words n ptr w
read_words-same zero ptr w w' same = refl
read_words-same (suc n) ptr w w' same =
    rw
      (
        same ptr (omega arith) (omega arith),
        read_words-same n (ptr + 8) w w' (λ a l h. same a (omega arith) (omega arith)),
      )
      refl

module _ {ℓ} {A : Type ℓ} where
  abbrev pub get_elem? : List A → ℕ → Option A
  get_elem? [] i = none
  get_elem? (x ∷ xs) zero = some x
  get_elem? (x ∷ xs) (suc i) = get_elem? xs i

-- Each word of a value is where it has been written.
pub write_words-get :
    (xs : List ℕ) (ptr i v : ℕ) (w : ℕ → ℕ)
    → get_elem? xs i ≡ some v
    → (i < length xs) × (write_words xs ptr w (ptr + i * 8) ≡ v)
write_words-get [] ptr i v w e = absurd (ground arith)
write_words-get (x ∷ xs) ptr zero v w e =
    let same : x ≡ v = ground arith in
    (
      omega arith,
      write_words-out xs (ptr + 8) (update w ptr x) (ptr + 0 * 8) (inl (omega arith))
          ∙ ground (arith, same),
    )
write_words-get (x ∷ xs) ptr (suc i) v w e =
    let (inside, there) = write_words-get xs (ptr + 8) i v (update w ptr x) e in
    let at : ptr + suc i * 8 ≡ ptr + 8 + i * 8 = omega arith in (omega (arith, inside), rw at there)

-- A value has the words of its layout.
pub record IsValue (v : Value) : Type 0 where
  pub power : ℕ
  pub layout : IsLayout v.layout power
  pub whole : length v.words * 8 < v.layout.bytes + 8

-- The fields are in the value, and `f` is apart from those that are written behind it.
pub record Fits (fs : Fields) (v : Value) : Type 0 where
  pub parent : fs.parent + 8 ≤ v.layout.bytes
  pub count : fs.count + 8 ≤ v.layout.bytes
  pub guard : fs.guard + 16 ≤ v.layout.bytes
  pub regs : fs.regs + 64 ≤ v.layout.bytes
  pub f : fs.f + 40 ≤ v.layout.bytes
  pub f_guard : (fs.f + 40 ≤ fs.guard) ⊎ (fs.guard + 16 ≤ fs.f)
  pub f_regs : (fs.f + 40 ≤ fs.regs) ⊎ (fs.regs + 64 ≤ fs.f)

-- The word at an offset is below a field of `n` words, or above.
abbrev pub IsApart : (field n offset : ℕ) → Type 0
IsApart field n offset = (offset < field) ⊎ (field + n * 8 ≤ offset)

-- The word at an offset is in none of the fields.
pub record IsElsewhere (fs : Fields) (offset : ℕ) : Type 0 where
  pub parent : IsApart fs.parent 1 offset
  pub count : IsApart fs.count 1 offset
  pub guard : IsApart fs.guard 2 offset
  pub regs : IsApart fs.regs 8 offset
  pub f : IsApart fs.f 5 offset
