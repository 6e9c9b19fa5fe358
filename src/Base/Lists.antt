-- ===== src/Base/Lists.antt =====
-- Lists measured by native numbers, membership as a test, and maps updated at one key.
use Prim.Native.Nat.{ℕ, suc, ◌+◌}
use mathlib.Core.Path.{◌≡◌, refl, fun_ext}
use mathlib.Core.Logic.{inl, inr}
use mathlib.Core.Bool.{Bool, true, false, ◌||◌}
use mathlib.Core.List.{List, [], ◌∷◌, ◌++◌}
use native.Mathlib.Omega.{arith}
use generator_rs.Base.Tests.{◌==◌, if◌then◌else◌, Bool-cases, eq_of_==, ==_refl}

module _ {ℓ} {A : Type ℓ} where
  abbrev pub length : List A → ℕ
  length [] = 0
  length (x ∷ xs) = suc (length xs)

  pub length-append : (xs ys : List A) → length (xs ++ ys) ≡ length xs + length ys
  length-append [] ys = omega arith
  length-append (x ∷ xs) ys = omega (arith, length-append xs ys)

  -- A map with one key written.
  abbrev pub update : (ℕ → A) → ℕ → A → ℕ → A
  update f p v q = if q == p then v else f q

abbrev pub has : ℕ → List ℕ → Bool
has a [] = false
has a (x ∷ xs) = (a == x) || has a xs

-- No element of the list occurs twice.
abbrev pub IsDistinct : List ℕ → Type 0
IsDistinct [] = Unit {0}
IsDistinct (x ∷ xs) = (has x xs ≡ false) × IsDistinct xs

pub has-append : (a : ℕ) (xs ys : List ℕ) → has a (xs ++ ys) ≡ (has a xs || has a ys)
has-append a [] ys = refl
has-append a (x ∷ xs) ys = ground (arith, has-append a xs ys)

-- No element of the first list is in the second.
abbrev pub Apart : List ℕ → List ℕ → Type 0
Apart xs ys = (a : ℕ) → has a xs ≡ true → has a ys ≡ false

pub IsDistinct-append :
    (xs ys : List ℕ) → IsDistinct xs → IsDistinct ys → Apart xs ys → IsDistinct (xs ++ ys)
IsDistinct-append [] ys d e apart = e
IsDistinct-append (x ∷ xs) ys d e apart = (
  ground (arith, has-append x xs ys, apart x),
  IsDistinct-append xs ys d.1 e λ a i. apart a (ground arith),
)

pub IsDistinct-append_left : (xs ys : List ℕ) → IsDistinct (xs ++ ys) → IsDistinct xs
IsDistinct-append_left [] ys d = tt
IsDistinct-append_left (x ∷ xs) ys d =
    (ground (arith, has-append x xs ys), IsDistinct-append_left xs ys d.1)

pub IsDistinct-append_right : (xs ys : List ℕ) → IsDistinct (xs ++ ys) → IsDistinct ys
IsDistinct-append_right [] ys d = d
IsDistinct-append_right (x ∷ xs) ys d = IsDistinct-append_right xs ys d.1

pub Apart-of_IsDistinct : (xs ys : List ℕ) → IsDistinct (xs ++ ys) → Apart xs ys
Apart-of_IsDistinct [] ys d a i = cc
Apart-of_IsDistinct (x ∷ xs) ys d a i = elim (Bool-cases (a == x)) [
  | inl e ↦ rw (eq_of_== a x e) (ground (arith, has-append x xs ys))
  | inr e ↦ Apart-of_IsDistinct xs ys d.1 a (ground arith)
]

-- An element of a list is not one that the list lacks.
pub ne_of_has : (a b : ℕ) (xs : List ℕ) → has a xs ≡ true → has b xs ≡ false → (a == b) ≡ false
ne_of_has a b xs i o = elim (Bool-cases (a == b)) [
  | inl e ↦ let i' : has b xs ≡ true = rw (eq_of_== a b e) at i in cc
  | inr e ↦ e
]

-- The element in the middle is on neither side.
pub not-has-left : (xs ys : List ℕ) (r : ℕ) → IsDistinct (xs ++ r ∷ ys) → has r xs ≡ false
not-has-left xs ys r d = elim (Bool-cases (has r xs)) [
  | inl i ↦ ground (arith, Apart-of_IsDistinct xs (r ∷ ys) d r i)
  | inr o ↦ o
]

pub update-update :
    {A : Type 0} (f : ℕ → A) (k : ℕ) (a b : A) → update (update f k a) k b ≡ update f k b
update-update f k a b = fun_ext λ x. ground arith

pub update_self : {A : Type 0} (f : ℕ → A) (k : ℕ) → update f k (f k) ≡ f
update_self f k =
    fun_ext
      λ x. elim (Bool-cases (x == k)) [ inl e ↦ rw (eq_of_== x k e, ==_refl k) | inr n ↦ rw n ]
