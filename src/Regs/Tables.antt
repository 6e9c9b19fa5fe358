-- ===== src/Regs/Tables.antt =====
-- Stores and loads of Regs/Linked.antt by a table.
use generator_rs.Base.{
  ℕ, ◌+◌, ◌≡◌, ◌≤◌, ltb, refl, ◌∙◌, Bool, true, false, not, ◌&&◌, List, [], ◌∷◌, arith, ◌==◌,
  update, has, Bool-cases, inl, inr, eq_of_==,
}
use generator_rs.Regs.Linked.{save, restore, copy, move}

abbrev pub regs : List (ℕ × ℕ) → List ℕ
regs [] = []
regs (x ∷ t) = x.0 ∷ regs t

abbrev pub offs : List (ℕ × ℕ) → List ℕ
offs [] = []
offs (x ∷ t) = x.1 ∷ offs t

abbrev pub is_distinct : List ℕ → Bool
is_distinct [] = true
is_distinct (x ∷ xs) = not (has x xs) && is_distinct xs

-- The block holds the registers of the table.
abbrev pub Agrees : List (ℕ × ℕ) → (block file : ℕ → ℕ) → Type 0
Agrees [] b f = Unit {0}
Agrees (x ∷ t) b f = (b x.1 ≡ f x.0) × Agrees t b f

pub save-out :
    (t : List (ℕ × ℕ)) (f b : ℕ → ℕ) (o : ℕ) → has o (offs t) ≡ false → save t f b o ≡ b o
save-out [] f b o z = refl
save-out (x ∷ t) f b o z = save-out t f (update b x.1 (f x.0)) o (ground arith) ∙ ground arith

pub save-Agrees :
    (t : List (ℕ × ℕ)) (f b : ℕ → ℕ) → is_distinct (offs t) ≡ true → Agrees t (save t f b) f
save-Agrees [] f b d = tt
save-Agrees (x ∷ t) f b d = (
  save-out t f (update b x.1 (f x.0)) x.1 (ground arith) ∙ ground arith,
  save-Agrees t f (update b x.1 (f x.0)) (ground arith),
)

restore-out :
    (t : List (ℕ × ℕ)) (b f : ℕ → ℕ) (r : ℕ) → has r (regs t) ≡ false → restore t b f r ≡ f r
restore-out [] b f r z = refl
restore-out (x ∷ t) b f r z = restore-out t b (update f x.0 (b x.1)) r (ground arith) ∙ ground arith

pub restore-Agrees :
    (t : List (ℕ × ℕ)) (b f g : ℕ → ℕ) (r : ℕ)
    → is_distinct (regs t) ≡ true
    → Agrees t b f
    → has r (regs t) ≡ true
    → restore t b g r ≡ f r
restore-Agrees [] b f g r d a i = cc
restore-Agrees (x ∷ t) b f g r d a i = elim (Bool-cases (r == x.0)) [
  | inl e ↦
      let same = eq_of_== r x.0 e in
      let out : has r (regs t) ≡ false = rw same (ground arith) in
      restore-out t b (update g x.0 (b x.1)) r out ∙ rw e (a.0 ∙ rw same refl)
  | inr n ↦ restore-Agrees t b f (update g x.0 (b x.1)) r (ground arith) a.1 (ground arith)
]

pub copy-out : (rs : List ℕ) (v : ℕ) (f : ℕ → ℕ) (r : ℕ) → has r rs ≡ false → copy rs v f r ≡ f r
copy-out [] v f r z = refl
copy-out (x ∷ rs) v f r z = copy-out rs v (update f x v) r (ground arith) ∙ ground arith

pub move-out : (t : List (ℕ × ℕ)) (f : ℕ → ℕ) (r : ℕ) → has r (regs t) ≡ false → move t f r ≡ f r
move-out [] f r z = refl
move-out (x ∷ t) f r z = move-out t (update f x.0 (f x.0 + x.1)) r (ground arith) ∙ ground arith

-- The registers are all among others.
abbrev pub among : List ℕ → List ℕ → Bool
among [] ys = true
among (x ∷ xs) ys = has x ys && among xs ys

pub has-among : (xs ys : List ℕ) (r : ℕ) → among xs ys ≡ true → has r xs ≡ true → has r ys ≡ true
has-among [] ys r a i = cc
has-among (x ∷ xs) ys r a i = elim (Bool-cases (r == x)) [
  | inl e ↦ rw (eq_of_== r x e) (ground arith)
  | inr n ↦ has-among xs ys r (ground arith) (ground arith)
]

-- No register of the one list is in the other.
abbrev pub avoids : List ℕ → List ℕ → Bool
avoids [] ys = true
avoids (x ∷ xs) ys = not (has x ys) && avoids xs ys

pub has-avoids : (xs ys : List ℕ) (r : ℕ) → avoids xs ys ≡ true → has r xs ≡ true → has r ys ≡ false
has-avoids [] ys r a i = cc
has-avoids (x ∷ xs) ys r a i = elim (Bool-cases (r == x)) [
  | inl e ↦ rw (eq_of_== r x e) (ground arith)
  | inr n ↦ has-avoids xs ys r (ground arith) (ground arith)
]

-- The offsets are all below a bound.
abbrev pub is_below : ℕ → List ℕ → Bool
is_below n [] = true
is_below n (x ∷ xs) = ltb x n && is_below n xs

pub has-is_below : (n o : ℕ) (xs : List ℕ) → is_below n xs ≡ true → n ≤ o → has o xs ≡ false
has-is_below n o [] b l = refl
has-is_below n o (x ∷ xs) b l = let rest = has-is_below n o xs (ground arith) l in ground arith
