-- ===== src/Examples/Adapters.antt =====
-- A generator that loops over another one and yields for each value that it takes, as both generators
-- of src/examples/pipe.rs do.
use generator_rs.Base.{
  ℕ, ◌≡◌, ◌≢◌, ◌⊎◌, inl, inr, refl, sym, subst, ◌∙◌, ap, true, false, Option, none, some, List, [],
  ◌∷◌, has, arith, ==_refl,
}
use generator_rs.Panic.{error, Error}
use generator_rs.Rt.Context.{Ptr}
use generator_rs.Gen.Types.{Reply, value, unwind, Op, raise, call, Client, nothing}
use generator_rs.Coroutine.Abstract.{
  Status, fresh, paused, over, resumes, going, View, entered, enter, left, fits, gone, advance,
  advances, go, ask,
}
use generator_rs.Examples.Steps.{Leads, calls, then_on}
use generator_rs.Examples.Iterators.{Kept, Kept-trans, Same, Iterator, Pulled}

-- The code: what it has gathered, what it yields next, and the states of its loop.
pub record Scan (cl : Client) (inner g : Ptr) (B : Type 0) : Type 0 where
  pub step : B → ℕ → B
  pub out : B → ℕ → ℕ
  pub holds : B → cl.Local
  pub asks : B → cl.Local
  pub rests : cl.Local
  pub quits : cl.Local
  pub goes_on : (b : B) → cl.next (holds b) Reply.unit ≡ call (Op.resume inner) (asks b)
  pub yields :
      (b : B) (x : ℕ)
      → cl.next (asks b) (value (some x))
        ≡ call (Op.scope_yield_with g (out b x)) (holds (step b x))
  pub drops : (b : B) → cl.next (asks b) (value none) ≡ call (Op.drop inner false) rests
  pub stops : cl.next rests Reply.unit ≡ call Op.done quits
  pub raises : cl.next quits (unwind (error Error.done)) ≡ raise (error Error.done)

module _ (cl : Client) (it : Iterator cl) (g : Ptr) (other : has g it.uses ≡ false) {B : Type 0}
    (s : Scan cl it.gen g B) where
  -- What it yields.
  unfoldable pub scan : B → List ℕ → List ℕ
  scan b [] = []
  scan b (x ∷ xs) = s.out b x ∷ scan (s.step b x) xs

  pub record Between (b : B) (xs : List ℕ) (a : View cl.Local) : Type 0 where
    pub here :
        (a.rest g ≡ some (fresh (s.holds b))) ⊎ (a.rest g ≡ some (paused nothing (s.holds b)))
    pub inbox : (a.ports g).inbox ≡ none
    pub supply : it.Supply xs a
    pub fits : fits a it.gen ≡ true

  abbrev pub uses : List Ptr
  uses = g ∷ it.uses

  -- The generator has just gone on.
  abbrev inside_at : View cl.Local → (t : cl.Local) → B → View cl.Local
  inside_at a t b = entered a g resumes t (s.holds b) Reply.unit none

  enters_lem :
      (b : B) (xs : List ℕ) (a : View cl.Local) (t : cl.Local)
      → Between b xs a
      → enter a g resumes none t ≡ some (inside_at a t b)
  enters_lem b xs a t v = elim v.here [
    | inl e ↦ rw (e, v.inbox) refl
    | inr e ↦ rw (e, v.inbox) refl
  ]

  apart : (q : Ptr) → has q it.uses ≡ true → q ≢ g
  apart q n e = let o = other in cc

  inside-Same : (a : View cl.Local) (t : cl.Local) (b : B) → Same it.uses a (inside_at a t b)
  inside-Same a t b = record {
    usage = refl;
    rest = λ q n. (let ne = apart q n in ground arith);
    ports = λ q n. (let ne = apart q n in ground arith);
  }

  inside-inbox :
      (a : View cl.Local) (t : cl.Local) (b : B) → ((inside_at a t b).ports g).inbox ≡ none
  inside-inbox a t b = ground arith

  -- It has left with a status, behind a view in which only the generators below have changed.
  abbrev left_at :
      View cl.Local → View cl.Local → cl.Local → Option ℕ → Status cl.Local → View cl.Local
  left_at a c t v st =
      left c (record { gen = g; way = resumes; caller = t }) a.active (some st) (value v)

  left-Kept :
      (a c : View cl.Local) (t : cl.Local) (b : B) (v : Option ℕ) (st : Status cl.Local)
      → Kept it.uses (inside_at a t b) c
      → Kept uses a (left_at a c t v st)
  left-Kept a c t b v st k = record {
    active = refl;
    home = k.home;
    usage = k.usage;
    rest = λ q n. (let r = k.rest q in ground arith);
    ports = λ q n. (let r = k.ports q in ground arith);
  }

  left-Same :
      (a c : View cl.Local) (t : cl.Local) (v : Option ℕ) (st : Status cl.Local)
      → Same it.uses c (left_at a c t v st)
  left-Same a c t v st = record {
    usage = refl;
    rest = λ q n. (let ne = apart q n in ground arith);
    ports = λ q n. refl;
  }

  quits_lem :
      (a c : View cl.Local) (t : cl.Local) (b : B)
      → c.stage ≡ going s.rests Reply.unit
      → c.active ≡ (inside_at a t b).active
      → Leads cl c (left_at a c t none (over none))
  unfolding ask go advance advances
  quits_lem a c t b e f = (2, rw (e, s.stops, f, s.raises) refl)

  -- The generator below, which has ended, is dropped.
  gone-Kept : (c : View cl.Local) → Kept it.uses c (gone c it.gen s.rests)
  gone-Kept c = record {
    active = refl;
    home = refl;
    usage = refl;
    rest = λ q n. (let ne = other_gen q n in ground arith);
    ports = λ q n. refl;
  }
    where
      other_gen : (q : Ptr) → has q it.uses ≡ false → q ≢ it.gen
      other_gen q n e = let o = it.own in cc

  module _ (b : B) (xs : List ℕ) (a : View cl.Local) (t : cl.Local)
      (p : Pulled cl it.gen it.uses it.Supply xs (inside_at a t b) (s.asks b)) where
    asked : Leads cl (inside_at a t b) p.after
    unfolding ask
    asked =
        then_on cl (inside_at a t b) p.inside p.after
          (calls cl (inside_at a t b) p.inside (s.holds b) (s.asks b) Reply.unit (Op.resume it.gen)
            refl (s.goes_on b) p.enters)
          p.leads

  -- The outputs that are to come, or it has ended.
  abbrev pub Adapted : List ℕ → View cl.Local → Type 0
  Adapted ys a = (b : B) × (xs : List ℕ) × (ys ≡ scan b xs) × Between b xs a

  within : (q : Ptr) → has q it.uses ≡ true → has q uses ≡ true
  within q n = ground arith

  pub itself : has g uses ≡ true
  itself = ground arith

  pub Between-stays :
      (b : B) (xs : List ℕ) (a c : View cl.Local) → Same uses a c → Between b xs a → Between b xs c
  Between-stays b xs a c same v = record {
    here = elim v.here [
      | inl e ↦ inl (same.rest g itself ∙ e)
      | inr e ↦ inr (same.rest g itself ∙ e)
    ];
    inbox = ap (λ q. q.inbox) (same.ports g itself) ∙ v.inbox;
    supply =
        it.stable xs a c
          (record {
            usage = same.usage;
            rest = λ q n. same.rest q (within q n);
            ports = λ q n. same.ports q (within q n);
          })
          v.supply;
    fits = rw same.usage v.fits;
  }

  pub pulled :
      (b : B) (xs : List ℕ) (a : View cl.Local) (t : cl.Local)
      → Between b xs a
      → Pulled cl g uses Adapted (scan b xs) a t
  unfolding ask go advance advances scan
  pulled b [] a t v =
      let p =
        it.pull [] (inside_at a t b) (s.asks b)
          (it.stable [] a (inside_at a t b) (inside-Same a t b) v.supply) in
      let c = gone p.after it.gen s.rests in
      record {
        inside = inside_at a t b;
        enters = enters_lem b [] a t v;
        after = left_at a c t none (over none);
        leads =
            then_on cl (inside_at a t b) p.after (left_at a c t none (over none)) (asked b [] a t p)
              (then_on cl p.after c (left_at a c t none (over none))
                (calls cl p.after c (s.asks b) s.rests (value none) (Op.drop it.gen false) p.answer
                  (s.drops b) (rw (p.supply, p.kept.usage, v.fits) refl))
                (quits_lem a c t b refl p.kept.active));
        answer = refl;
        kept = left-Kept a c t b none (over none) (Kept-trans p.kept (gone-Kept p.after));
        supply = ground arith;
      }
  pulled b (x ∷ xs) a t v =
      let p =
        it.pull (x ∷ xs) (inside_at a t b) (s.asks b)
          (it.stable (x ∷ xs) a (inside_at a t b) (inside-Same a t b) v.supply) in
      let after = left_at a p.after t (some (s.out b x)) (paused nothing (s.holds (s.step b x))) in
      record {
        inside = inside_at a t b;
        enters = enters_lem b (x ∷ xs) a t v;
        after = after;
        leads = then_on cl (inside_at a t b) p.after after (asked b (x ∷ xs) a t p) (
            calls cl p.after after (s.asks b) (s.holds (s.step b x)) (value (some x))
              (Op.scope_yield_with g (s.out b x)) p.answer (s.yields b x)
              (rw (p.kept.active, ==_refl g) refl));
        answer = refl;
        kept = left-Kept a p.after t b _ _ p.kept;
        supply = (
          s.step b x,
          xs,
          refl,
          record {
            here = inr (ground arith);
            inbox = ap (λ q. q.inbox) (p.kept.ports g other) ∙ inside-inbox a t b;
            supply =
                it.stable xs p.after after
                  (left-Same a p.after t (some (s.out b x)) (paused nothing (s.holds (s.step b x))))
                  p.supply;
            fits = rw p.kept.usage v.fits;
          },
        );
      }

  abbrev pub adapter : Iterator cl
  adapter = record {
    gen = g;
    uses = uses;
    Supply = Adapted;
    own = itself;
    stable = λ ys a c same (b, xs, e, v). (b, xs, e, Between-stays b xs a c same v);
    pull = λ ys a t (b, xs, e, v).
        subst (λ q. Pulled cl g uses Adapted q a t) (sym e) (pulled b xs a t v);
  }
