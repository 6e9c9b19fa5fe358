-- ===== src/Rt/Ring.antt =====
-- The shape that the parent and child pointers of src/rt.rs keep: rings.
--
-- A ring stands at a context `r`. `r.parent` is the newest of the contexts `xs` above it, their
-- parent pointers lead from it back down to `r`, and the child pointers lead the other way. The ring
-- at the root is the thread's stack of running generators. A generator that is not running stands at
-- a ring of its own, in which a coroutine keeps what was running above it when it yielded.
use generator_rs.Base.{
  ◌≡◌, refl, ◌≢◌, true, false, Option, none, some, List, [], ◌∷◌, ◌++◌, arith, ◌==◌, if◌then◌else◌,
  has, IsDistinct, ==_refl,
}
use generator_rs.Rt.Context.{Ptr, null, Context}

-- The first element, or the default.
abbrev pub first : List Ptr → Ptr → Ptr
first [] d = d
first (x ∷ xs) d = x

-- The last element, or the default.
abbrev pub last : Ptr → List Ptr → Ptr
last d [] = d
last d (x ∷ xs) = last x xs

pub first-append : (ys xs : List Ptr) (c d : Ptr) → first (ys ++ c ∷ xs) d ≡ first ys c
first-append [] xs c d = refl
first-append (y ∷ ys) xs c d = refl

pub last-append : (a : Ptr) (ys xs : List Ptr) (c : Ptr) → last a (ys ++ c ∷ xs) ≡ last c xs
last-append a [] xs c = refl
last-append a (y ∷ ys) xs c = last-append y ys xs c

-- What is in no place of a ring is neither its newest context nor its base.
pub ne-first :
    (a : Ptr) (xs : List Ptr) (r : Ptr) → has a (xs ++ r ∷ []) ≡ false → (a == first xs r) ≡ false
ne-first a [] r o = ground arith
ne-first a (x ∷ xs) r o = ground arith

pub ne-base : (a : Ptr) (xs : List Ptr) (r : Ptr) → has a (xs ++ r ∷ []) ≡ false → (a == r) ≡ false
ne-base a [] r o = ground arith
ne-base a (x ∷ xs) r o = ne-base a xs r (ground arith)

pub has-first : (xs : List Ptr) (r : Ptr) → has (first xs r) (xs ++ r ∷ []) ≡ true
has-first [] r = ground (arith, ==_refl r)
has-first (x ∷ xs) r = ground (arith, ==_refl x)

pub has-last : (xs : List Ptr) (r : Ptr) → has r (xs ++ r ∷ []) ≡ true
has-last [] r = ground (arith, ==_refl r)
has-last (x ∷ xs) r = ground (arith, has-last xs r)

module _ {R : Type 0} where
  abbrev pub parent_at : Option (Context R) → Option Ptr
  parent_at none = none
  parent_at (some c) = some c.parent

  abbrev pub child_at : Option (Context R) → Option Ptr
  child_at none = none
  child_at (some c) = some c.child

  -- A context of the memory with these two links.
  abbrev pub Linked : (Ptr → Option (Context R)) → Ptr → (parent child : Ptr) → Type 0
  Linked h x p c = (x ≢ null) × (parent_at (h x) ≡ some p) × (child_at (h x) ≡ some c)

  -- The contexts `xs`, newest first, between `above` and `below`.
  abbrev pub Chain : (Ptr → Option (Context R)) → Ptr → List Ptr → Ptr → Type 0
  Chain h above [] below = Unit {0}
  Chain h above (x ∷ xs) below = Linked h x (first xs below) above × Chain h x xs below

  pub record Ring (h : Ptr → Option (Context R)) (r : Ptr) (xs : List Ptr) : Type 0 where
    pub base : Linked h r (first xs r) (last null xs)
    pub chain : Chain h null xs r
    pub distinct : IsDistinct (xs ++ r ∷ [])

  -- A chain depends on its own contexts only.
  pub Chain-same :
      (h g : Ptr → Option (Context R)) (above : Ptr) (xs : List Ptr) (below : Ptr)
      → ((a : Ptr) → has a xs ≡ true → g a ≡ h a)
      → Chain h above xs below
      → Chain g above xs below
  Chain-same h g above [] below same c = tt
  Chain-same h g above (x ∷ xs) below same c =
      (rw (same x (ground arith)) c.0, Chain-same h g x xs below (λ a i. same a (ground arith)) c.1)

  -- Two chains around a context make one, and come apart again.
  pub Chain-append :
      (h : Ptr → Option (Context R)) (above : Ptr) (ys xs : List Ptr) (c below : Ptr)
      → Chain h above ys c
      → Linked h c (first xs below) (last above ys)
      → Chain h c xs below
      → Chain h above (ys ++ c ∷ xs) below
  Chain-append h above [] xs c below u l v = (l, v)
  Chain-append h above (y ∷ ys) xs c below u l v =
      (rw (first-append ys xs c below) u.0, Chain-append h y ys xs c below u.1 l v)

  pub Chain-split :
      (h : Ptr → Option (Context R)) (above : Ptr) (ys xs : List Ptr) (c below : Ptr)
      → Chain h above (ys ++ c ∷ xs) below
      → Chain h above ys c × Linked h c (first xs below) (last above ys) × Chain h c xs below
  Chain-split h above [] xs c below u = (tt, u.0, u.1)
  Chain-split h above (y ∷ ys) xs c below u =
      let rest = Chain-split h y ys xs c below u.1 in
      ((rw (first-append ys xs c below) at u.0, rest.0), rest.1, rest.2)

-- One link of one context written.
module _ {R : Type 0} where
  abbrev pub with_parent : (Ptr → Option (Context R)) → Ptr → Ptr → Ptr → Option (Context R)
  with_parent h p q a =
      if a == p then elim (h a) [ none ↦ none | some c ↦ some (record c { parent = q }) ] else h a

  abbrev pub with_child : (Ptr → Option (Context R)) → Ptr → Ptr → Ptr → Option (Context R)
  with_child h p q a =
      if a == p then elim (h a) [ none ↦ none | some c ↦ some (record c { child = q }) ] else h a
