-- ===== src/Examples/Loops.antt =====
-- A `for` loop over a generator: `next` until it answers with none, and then the generator is dropped.
use generator_rs.Base.{
  ℕ, ◌≤◌, ◌≡◌, ◌≢◌, refl, ◌∙◌, true, false, none, some, List, [], ◌∷◌, has, arith,
}
use mathlib.Core.List.{foldl}
use generator_rs.Rt.Context.{Ptr, TypeId}
use generator_rs.Gen.Types.{Reply, value, Op, ret, call, Client, World}
use generator_rs.Gen.Machine.{returned, run}
use generator_rs.Coroutine.Refines.{Represents, thread}
use generator_rs.Coroutine.Abstract.{
  resumes, going, View, enter, fits, gone, ask, created, is_free, fresh, ended,
}
use generator_rs.Examples.Steps.{Leads, calls, then_on, ends_with, thread_returns}
use generator_rs.Examples.Iterators.{Kept, Iterator, Kept-trans, Gives, Hands, is_fresh, generator}

-- The loop, with what it has gathered; `rests` is the code behind it.
pub record Loop (cl : Client) (g : Ptr) (A : Type 0) : Type 0 where
  pub f : A → ℕ → A
  pub asks : A → cl.Local
  pub rests : A → cl.Local
  pub goes_on :
      (z : A) (x : ℕ) → cl.next (asks z) (value (some x)) ≡ call (Op.resume g) (asks (f z x))
  pub stops : (z : A) → cl.next (asks z) (value none) ≡ call (Op.drop g false) (rests z)

module _ (cl : Client) (it : Iterator cl) {A : Type 0} (l : Loop cl it.gen A) where
  -- The loop has begun with `next`, and in some steps the generator is gone, and the code behind the
  -- loop goes on with what it has gathered.
  pub record Looped (xs : List ℕ) (z : A) (a : View cl.Local) : Type 0 where
    pub inside : View cl.Local
    pub enters : enter a it.gen resumes none (l.asks z) ≡ some inside
    pub after : View cl.Local
    pub leads : Leads cl inside after
    pub rested : after.stage ≡ going (l.rests (foldl l.f z xs)) Reply.unit
    pub kept : Kept it.uses a after
    pub dropped : after.rest it.gen ≡ none

  other : (q : Ptr) → has q it.uses ≡ false → q ≢ it.gen
  other q n e = let o = it.own in cc

  drop-Kept : (a : View cl.Local) (s : cl.Local) → Kept it.uses a (gone a it.gen s)
  drop-Kept a s = record {
    active = refl;
    home = refl;
    usage = refl;
    rest = λ q n. (let ne = other q n in ground arith);
    ports = λ q n. refl;
  }

  pub loop_lem :
      (xs : List ℕ) (z : A) (a : View cl.Local)
      → it.Supply xs a
      → fits a it.gen ≡ true
      → Looped xs z a
  unfolding ask
  loop_lem [] z a v h =
      let p = it.pull [] a (l.asks z) v in
      record {
        inside = p.inside;
        enters = p.enters;
        after = gone p.after it.gen (l.rests z);
        leads = then_on cl p.inside p.after (gone p.after it.gen (l.rests z)) p.leads (
            calls cl p.after (gone p.after it.gen (l.rests z)) (l.asks z) (l.rests z) (value none)
              (Op.drop it.gen false) p.answer (l.stops z) (rw (p.supply, p.kept.usage, h) refl));
        rested = refl;
        kept = Kept-trans p.kept (drop-Kept p.after (l.rests z));
        dropped = ground arith;
      }
  loop_lem (x ∷ xs) z a v h =
      let p = it.pull (x ∷ xs) a (l.asks z) v in
      let r = loop_lem xs (l.f z x) p.after p.supply (rw p.kept.usage h) in
      record {
        inside = p.inside;
        enters = p.enters;
        after = r.after;
        leads = then_on cl p.inside p.after r.after p.leads (
            then_on cl p.after r.inside r.after
              (calls cl p.after r.inside (l.asks z) (l.asks (l.f z x)) (value (some x))
                (Op.resume it.gen) p.answer (l.goes_on z x) r.enters)
              r.leads);
        rested = r.rested;
        kept = Kept-trans p.kept r.kept;
        dropped = r.dropped;
      }

-- The thread's own code is at `s`, nothing else runs, and there is room for a generator `g`, whose
-- stack has an unused word.
pub record Begins {S : Type 0} (g : Ptr) (s : S) (a : View S) : Type 0 where
  pub stage : a.stage ≡ going s Reply.unit
  pub alone : a.active ≡ []
  pub free : is_free a g ≡ true
  pub fits : fits a g ≡ true

-- A program that makes a generator and loops over it.
pub record Program (cl : Client) (g : Ptr) (A : Type 0) : Type 0 where
  pub loop : Loop cl g A
  pub start : A
  pub begins : cl.Local
  pub ready : cl.Local
  pub code : cl.Local
  pub bottom : ℕ
  pub end : ℕ
  pub takes : TypeId
  pub makes :
      cl.next begins Reply.unit
      ≡ call
          (Op.new_scoped_opt g bottom takes takes (λ s. record { state = code; stack_end = end }))
          ready
  pub loops : cl.next ready Reply.unit ≡ call (Op.resume g) (loop.asks start)

module _ (cl : Client) {A : Type 0} (g : Ptr) (p : Program cl g A) where
  abbrev made : View cl.Local → View cl.Local
  made a =
      created a g (record { takes = p.takes; gives = p.takes; is_typed = false; inbox = none })
        p.code p.ready

  made-Hands :
      (xs : List ℕ) (a : View cl.Local) → Gives cl g p.code Reply.unit xs → Hands cl g xs (made a)
  made-Hands xs a h = (fresh p.code, ground arith, is_fresh h, ground arith)

  free_again :
      (a b : View cl.Local)
      → Begins g p.begins a
      → Kept (g ∷ []) (made a) b
      → b.rest g ≡ none
      → is_free b g ≡ true
  free_again a b v k e = rw (k.active, k.home, e) (let f = v.free in ground arith)

  -- The program comes to the code behind the loop, with all that the generator hands out gathered,
  -- and the generator gone.
  pub program_lem :
      (xs : List ℕ) (a : View cl.Local)
      → Begins g p.begins a
      → Gives cl g p.code Reply.unit xs
      → (b : View cl.Local) × Leads cl a b × Begins g (p.loop.rests (foldl p.loop.f p.start xs)) b
  unfolding ask
  program_lem xs a v h =
      let r = loop_lem cl (generator cl g) p.loop xs p.start (made a) (made-Hands xs a h) v.fits in
      (
        r.after,
        then_on cl a (made a) r.after
            (calls cl a (made a) p.begins p.ready Reply.unit _ v.stage p.makes (rw v.free refl))
            (then_on cl (made a) r.inside r.after
              (calls cl (made a) r.inside p.ready (p.loop.asks p.start) Reply.unit (Op.resume g)
                refl p.loops r.enters)
              r.leads),
        record {
          stage = r.rested;
          alone = r.kept.active ∙ v.alone;
          free = free_again a r.after v r.kept r.dropped;
          fits = rw r.kept.usage v.fits;
        },
      )

  -- A thread that is in the state of a view at the program's begin returns what the code behind the
  -- loop returns.
  pub program_returns :
      (xs : List ℕ) (x : ℕ) (a : View cl.Local) (w : World cl.Local)
      → Represents a w
      → Begins g p.begins a
      → Gives cl g p.code Reply.unit xs
      → cl.next (p.loop.rests (foldl p.loop.f p.start xs)) Reply.unit ≡ ret x
      → (n : ℕ) × ((j : ℕ) → n ≤ j → (run cl j (thread a w)).focus ≡ returned x)
  program_returns xs x a w v s h e =
      let (b, leads, behind) = program_lem xs a s h in
      thread_returns cl a (record b { stage = ended x }) x w v
        (then_on cl a b (record b { stage = ended x }) leads
          (ends_with cl b (p.loop.rests (foldl p.loop.f p.start xs)) Reply.unit x behind.stage
            behind.alone e))
        refl
