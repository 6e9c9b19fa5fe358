-- ===== src/Examples/Iterators.antt =====
-- `Iterator for GeneratorObj` of src/gen_impl.rs, `next` being `resume`: what a generator whose inputs
-- are `()` hands out, as a list.
use generator_rs.Base.{
  ℕ, ◌≡◌, refl, ◌∙◌, ap, true, false, Option, none, some, List, [], ◌∷◌, has, update, arith,
  ==_refl,
}
use generator_rs.Panic.{error, Error}
use generator_rs.Rt.Context.{Ptr}
use generator_rs.Gen.Types.{
  Reply, value, unwind, Op, ret, raise, call, Client, nothing, then_get, then_take, AfterYield,
}
use generator_rs.Gen.Resume.{received}
use generator_rs.Coroutine.Abstract.{
  Status, fresh, paused, over, resumes, going, View, entered, enter, advance, advances, go, ask,
}
use generator_rs.Examples.Steps.{Leads, stay}

-- What `next` gives.
abbrev pub front : List ℕ → Option ℕ
front [] = none
front (x ∷ xs) = some x

module _ {S : Type 0} where
  -- Between two views only these generators have changed.
  pub record Kept (uses : List Ptr) (a b : View S) : Type 0 where
    pub active : b.active ≡ a.active
    pub home : b.home ≡ a.home
    pub usage : b.usage ≡ a.usage
    pub rest : (q : Ptr) → has q uses ≡ false → b.rest q ≡ a.rest q
    pub ports : (q : Ptr) → has q uses ≡ false → b.ports q ≡ a.ports q

  pub Kept-trans : {u : List Ptr} {a b c : View S} → Kept u a b → Kept u b c → Kept u a c
  Kept-trans h k = record {
    active = k.active ∙ h.active;
    home = k.home ∙ h.home;
    usage = k.usage ∙ h.usage;
    rest = λ q n. k.rest q n ∙ h.rest q n;
    ports = λ q n. k.ports q n ∙ h.ports q n;
  }

  -- These generators are the same in two views.
  pub record Same (uses : List Ptr) (a b : View S) : Type 0 where
    pub usage : b.usage ≡ a.usage
    pub rest : (q : Ptr) → has q uses ≡ true → b.rest q ≡ a.rest q
    pub ports : (q : Ptr) → has q uses ≡ true → b.ports q ≡ a.ports q

  -- What is to be handed out once the first of a list has been.
  abbrev pub Remains : (List ℕ → View S → Type 0) → Ptr → List ℕ → View S → Type 0
  Remains Supply g [] a = a.rest g ≡ some (over none)
  Remains Supply g (x ∷ xs) a = Supply xs a

module _ (cl : Client) where
  -- A generator `g` that is to hand out a list is resumed by code that waits as `t`: in some steps
  -- the code has the first of the list as its answer, and the generator is to hand out the rest of
  -- it, or has ended with nothing left.
  pub record Pulled (g : Ptr) (uses : List Ptr) (Supply : List ℕ → View cl.Local → Type 0)
      (xs : List ℕ) (a : View cl.Local) (t : cl.Local) : Type 0 where
    pub inside : View cl.Local
    pub enters : enter a g resumes none t ≡ some inside
    pub after : View cl.Local
    pub leads : Leads cl inside after
    pub answer : after.stage ≡ going t (value (front xs))
    pub kept : Kept uses a after
    pub supply : Remains Supply g xs after

  -- A generator that hands out a list, whatever runs below it, and the generators that it uses.
  pub record Iterator : Type 1 where
    pub gen : Ptr
    pub uses : List Ptr
    pub Supply : List ℕ → View cl.Local → Type 0
    pub own : has gen uses ≡ true
    pub stable : (xs : List ℕ) (a b : View cl.Local) → Same uses a b → Supply xs a → Supply xs b
    pub pull :
        (xs : List ℕ) (a : View cl.Local) (t : cl.Local)
        → Supply xs a
        → Pulled gen uses Supply xs a t

  module _ (g : Ptr) where
    -- The code of the generator `g` yields a list through its scope and ends.
    pub data Gives : cl.Local → Reply → List ℕ → Type 0 where
      stops :
          {s t : cl.Local} {r : Reply}
          → cl.next s r ≡ call Op.done t
          → cl.next t (unwind (error Error.done)) ≡ raise (error Error.done)
          → Gives s r []
      returns : {s : cl.Local} {r : Reply} {v : ℕ} → cl.next s r ≡ ret v → Gives s r (v ∷ [])
      gives :
          {s t : cl.Local} {r : Reply} {x : ℕ} {xs : List ℕ}
          → cl.next s r ≡ call (Op.scope_yield_with g x) t
          → Gives t Reply.unit xs
          → Gives s r (x ∷ xs)
      gives_ :
          {s t : cl.Local} {r : Reply} {x : ℕ} {xs : List ℕ}
          → cl.next s r ≡ call (Op.scope_yield g x) t
          → Gives t (value none) xs
          → Gives s r (x ∷ xs)

    pub data Ready : Status cl.Local → List ℕ → Type 0 where
      is_fresh : {s : cl.Local} {xs : List ℕ} → Gives s Reply.unit xs → Ready (fresh s) xs
      is_paused :
          {after : AfterYield} {s : cl.Local} {xs : List ℕ}
          → Gives s (received after none) xs
          → Ready (paused after s) xs
      is_over : Ready (over none) []

    abbrev pub Hands : List ℕ → View cl.Local → Type 0
    Hands xs a =
        (st : Status cl.Local) × (a.rest g ≡ some st) × Ready st xs × ((a.ports g).inbox ≡ none)

    -- The generator has just gone on.
    abbrev inside_at : View cl.Local → (t s : cl.Local) → Reply → View cl.Local
    inside_at a t s r = entered a g resumes t s r none

    -- It has left with a status.
    abbrev left_at : View cl.Local → (t : cl.Local) → Option ℕ → Status cl.Local → View cl.Local
    left_at a t v st = record a {
      stage = going t (value v);
      rest = update (update a.rest g none) g (some st);
      ports = update a.ports g (record (a.ports g) { inbox = none });
    }

    left-Kept :
        (a : View cl.Local) (t : cl.Local) (v : Option ℕ) (st : Status cl.Local)
        → Kept (g ∷ []) a (left_at a t v st)
    left-Kept a t v st = record {
      active = refl;
      home = refl;
      usage = refl;
      rest = λ q n. ground arith;
      ports = λ q n. ground arith;
    }

    left-here :
        (a : View cl.Local) (t : cl.Local) (v : Option ℕ) (st : Status cl.Local)
        → (left_at a t v st).rest g ≡ some st
    left-here a t v st = ground arith

    handed :
        (xs : List ℕ) (a : View cl.Local) (t : cl.Local) (v : Option ℕ) (st : Status cl.Local)
        → Ready st xs
        → Hands xs (left_at a t v st)
    handed xs a t v st h = (st, left-here a t v st, h, ground arith)

    left-Pulled :
        {xs : List ℕ} {a : View cl.Local} {s t : cl.Local} {r : Reply} (st : Status cl.Local)
        → enter a g resumes none t ≡ some (inside_at a t s r)
        → Leads cl (inside_at a t s r) (left_at a t (front xs) st)
        → Remains Hands g xs (left_at a t (front xs) st)
        → Pulled g (g ∷ []) Hands xs a t
    left-Pulled {xs = xs} {a = a} {s = s} {t = t} {r = r} st e l h = record {
      inside = inside_at a t s r;
      enters = e;
      after = left_at a t (front xs) st;
      leads = l;
      answer = refl;
      kept = left-Kept a t (front xs) st;
      supply = h;
    }

    back-Pulled :
        (xs : List ℕ) (a : View cl.Local) (s t : cl.Local) (r : Reply)
        → enter a g resumes none t ≡ some (inside_at a t s r)
        → Gives s r xs
        → Pulled g (g ∷ []) Hands xs a t
    unfolding ask go advance advances
    back-Pulled [] a s t r e (stops f h) =
        left-Pulled (over none) e (2, rw (f, h) refl) (left-here a t none (over none))
    back-Pulled (v ∷ []) a s t r e (returns f) =
        left-Pulled (over none) e (1, rw f refl) (handed [] a t (some v) (over none) is_over)
    back-Pulled (x ∷ xs) a s t r e (gives {t = u} f h) =
        left-Pulled (paused nothing u) e (1, rw (f, ==_refl g) refl)
          (handed xs a t (some x) (paused nothing u) (is_paused h))
    back-Pulled (x ∷ xs) a s t r e (gives_ {t = u} f h) =
        left-Pulled (paused (then_take g) u) e (1, rw (f, ==_refl g) refl)
          (handed xs a t (some x) (paused (then_take g) u) (is_paused h))

    pub pulled :
        (xs : List ℕ) (a : View cl.Local) (t : cl.Local) (st : Status cl.Local)
        → a.rest g ≡ some st
        → (a.ports g).inbox ≡ none
        → Ready st xs
        → Pulled g (g ∷ []) Hands xs a t
    pulled xs a t (fresh s) e i (is_fresh h) = back-Pulled xs a s t Reply.unit (rw (e, i) refl) h
    pulled xs a t (paused nothing s) e i (is_paused h) =
        back-Pulled xs a s t Reply.unit (rw (e, i) refl) h
    pulled xs a t (paused (then_get b) s) e i (is_paused h) =
        back-Pulled xs a s t (value none) (rw (e, i) refl) h
    pulled xs a t (paused (then_take q) s) e i (is_paused h) =
        back-Pulled xs a s t (value none) (rw (e, i) refl) h
    pulled [] a t (over none) e i is_over = record {
      inside = record a { stage = going t (value none) };
      enters = rw e refl;
      after = record a { stage = going t (value none) };
      leads = stay cl (record a { stage = going t (value none) });
      answer = refl;
      kept = record {
        active = refl;
        home = refl;
        usage = refl;
        rest = λ q n. refl;
        ports = λ q n. refl;
      };
      supply = e;
    }
    pulled [] a t (over (some v)) e i h = elim h [ ]
    pulled (x ∷ xs) a t (over n) e i h = elim h [ ]

    pub itself : has g (g ∷ []) ≡ true
    itself = ground arith

    -- A generator whose code yields a list.
    abbrev pub generator : Iterator
    generator = record {
      gen = g;
      uses = g ∷ [];
      Supply = Hands;
      own = itself;
      stable = λ xs a b same (st, e, h, i).
          (st, same.rest g itself ∙ e, h, ap (λ p. p.inbox) (same.ports g itself) ∙ i);
      pull = λ xs a t (st, e, h, i). pulled xs a t st e i h;
    }
