-- ===== src/Coroutine/Arriving.antt =====
-- What code that has entered a generator answers with, once the generator has stopped.
use generator_rs.Base.{
  ℕ, Bool, ◌≡◌, ◌≢◌, refl, true, false, Option, none, some, arith, ◌==◌, ◌%◌, ltb, if◌then◌else◌,
  update, Option-cases, Bool-cases, inl, inr, ◌∙◌,
}
use generator_rs.Panic.{ok, panic, Payload, error, text, user, Error}
use generator_rs.Rt.Context.{Ptr, null, Context, Slot, load, store, take_ret}
use generator_rs.Gen.Types.{
  Reply, unwind, raise, Base, Frame, Kont, waiting, in_drop, GeneratorImpl, World, Hook,
}
use generator_rs.Gen.Impl.{
  resume_gen_back, resume_back, send_back, expect_sent, raw_cancel_back, drop_rest, free,
}
use generator_rs.Gen.Machine.{come_back, at, running, continue, arrive, settle, check_err}
use generator_rs.Gen.Views.{with_contexts}
use generator_rs.Gen.Drop.{freed}
use generator_rs.Gen.Sends.{is_done-finished}
use generator_rs.Gen.Leave
use generator_rs.Gen.Leave.{Awaits, with_ret}
use generator_rs.Gen.Ends.{is_error}
use generator_rs.Coroutine.Abstract.{Way, refused, returns, leftover, is_kept}
use generator_rs.Coroutine.Refines.{Waits, by_resume, by_send, by_cancel, by_drop}

-- The answer for what the generator has put into its `ret`.
abbrev pub gives : Way → Option ℕ → Reply
gives way none = refused way
gives way (some v) = returns way v

abbrev pub is_dropping : Way → Bool
is_dropping Way.resumes = false
is_dropping Way.sends = false
is_dropping Way.cancels = false
is_dropping Way.drops = true

kept-leftover : (way : Way) (m : Option ℕ) → is_kept way ≡ true → leftover way m ≡ none
kept-leftover Way.resumes m k = refl
kept-leftover Way.sends m k = refl
kept-leftover Way.cancels m k = cc
kept-leftover Way.drops m k = cc

module _ {S : Type 0} where
  pub Waits-Awaits :
      {way : Way} {g : Ptr} {frame : Frame S}
      → is_kept way ≡ true
      → Waits way g frame
      → Awaits frame g
  Waits-Awaits k (by_resume g) = Leave.by_resume g
  Waits-Awaits k (by_send g) = Leave.by_send g
  Waits-Awaits k (by_cancel g old) = cc
  Waits-Awaits k (by_drop g old) = cc

  -- From `w` to `w'` only `ret` of `g` has changed, in its value, and what is no part of `mem`.
  pub record IsTaken (w : World S) (way : Way) (g : Ptr) (s : Slot) (w' : World S) : Type 0 where
    pub root : w'.mem.root ≡ w.mem.root
    pub contexts : w'.mem.contexts ≡ w.mem.contexts
    pub gens : w'.gens ≡ w.gens
    pub paras : w'.mem.paras ≡ w.mem.paras
    pub left : Slot
    pub ret : w'.mem.rets g ≡ some left
    pub ty : left.ty ≡ s.ty
    pub value : left.value ≡ leftover way s.value
    pub usage : w'.usage ≡ w.usage
    pub others : (b : Ptr) → (b == g) ≡ false → w'.mem.rets b ≡ w.mem.rets b

module _ {S : Type 0} (w : World S) (b : Base) (t : S) (g : Ptr) (c : Context (Kont S))
    (ne : g ≢ null) (here : w.mem.contexts g ≡ some c) where
  taken :
      (way : Way) (s : Slot)
      → is_kept way ≡ true
      → w.mem.rets g ≡ some s
      → IsTaken w way g s (with_ret w g (record s { value = none }))
  taken way s kept e = record {
    root = refl;
    contexts = refl;
    gens = refl;
    paras = refl;
    left = record s { value = none };
    ret = ground arith;
    ty = refl;
    value = ground (arith, kept-leftover way s.value kept);
    usage = refl;
    others = λ b n. ground arith;
  }

  pub arrive-clean :
      {way : Way} {frame : Frame S} (s : Slot)
      → Waits way g frame
      → is_dropping way ≡ false
      → c.err ≡ none
      → w.mem.rets g ≡ some s
      → (w' : World S) × (arrive (waiting frame b t) w ≡ at (running b t (gives way s.value)) w')
        × IsTaken w way g s w'
  unfolding arrive continue come_back resume_back resume_gen_back send_back expect_sent load
      take_ret raw_cancel_back
  arrive-clean s (by_resume _) n clean ret = elim (Option-cases s.value) [
    | inl z ↦ (with_ret w g (record s { value = none }), ground arith, taken Way.resumes s refl ret)
    | inr (v, z) ↦
        (with_ret w g (record s { value = none }), ground arith, taken Way.resumes s refl ret)
  ]
  arrive-clean s (by_send _) n clean ret = elim (Option-cases s.value) [
    | inl z ↦ (with_ret w g (record s { value = none }), ground arith, taken Way.sends s refl ret)
    | inr (v, z) ↦
        (with_ret w g (record s { value = none }), ground arith, taken Way.sends s refl ret)
  ]
  arrive-clean s (by_drop _ old) n clean ret = cc
  arrive-clean s (by_cancel _ old) n clean ret = (
    record w { hook = old },
    elim (Option-cases s.value) [ inl z ↦ ground arith | inr (v, z) ↦ ground arith ],
    record {
      root = refl;
      contexts = refl;
      gens = refl;
      paras = refl;
      left = s;
      ret = ret;
      ty = refl;
      value = refl;
      usage = refl;
      others = λ b n. refl;
    },
  )

  pub arrive-panics :
      {way : Way} {frame : Frame S} (e : Payload)
      → Waits way g frame
      → c.err ≡ some e
      → c.local_data ≡ null
      → arrive (waiting frame b t) w
        ≡ at
            (running b t (unwind e))
            (with_contexts w (update w.mem.contexts g (some (record c { err = none }))))
  unfolding arrive continue come_back resume_back resume_gen_back send_back load store
      raw_cancel_back
  arrive-panics e (by_resume _) bad plain = ground arith
  arrive-panics e (by_send _) bad plain = ground arith
  arrive-panics e (by_cancel _ old) bad plain = ground arith
  arrive-panics e (by_drop _ old) bad plain = ground arith

  -- `check_err` records nothing.
  pub settle-quiet : (e : Payload) → is_error e ≡ false → settle g (raise e) w ≡ ok tt w
  unfolding settle check_err
  settle-quiet (error Error.done) q = refl
  settle-quiet (error Error.cancel) q = refl
  settle-quiet (error Error.type_err) q = cc
  settle-quiet (error Error.stack_err) q = cc
  settle-quiet (error Error.context_err) q = cc
  settle-quiet (text m) q = cc
  settle-quiet (user n) q = cc

-- `drop` goes on: the generator is done, and its memory is given back if its stack has room.
module _ {S : Type 0} where
  drop_rest-done :
      (w : World S) (g : Ptr) (c : Context (Kont S)) (i : GeneratorImpl S)
      → g ≢ null
      → w.mem.contexts g ≡ some c
      → w.gens g ≡ some i
      → i.f ≡ none
      → (c.ref % 4 == 0) ≡ false
      → drop_rest g w ≡ (
          if ltb (w.usage g).1 (w.usage g).0
          then ok tt (freed w g)
          else panic (error Error.stack_err) w)
  unfolding drop_rest free
  drop_rest-done w g c i ne here gen started ended =
      rw (is_done-finished w g c i ne here gen started ended, drop_rest) (ground arith)

  pub arrive-dropped :
      (w : World S) (b : Base) (t : S) (g : Ptr) (c : Context (Kont S)) (i : GeneratorImpl S)
      (old : Hook)
      → g ≢ null
      → w.mem.contexts g ≡ some c
      → w.gens g ≡ some i
      → i.f ≡ none
      → (c.ref % 4 == 0) ≡ false
      → c.err ≡ none
      → arrive (waiting (in_drop g old Reply.unit) b t) w ≡ (
          if ltb (w.usage g).1 (w.usage g).0
          then at (running b t Reply.unit) (freed (record w { hook = old }) g)
          else at (running b t (unwind (error Error.stack_err))) (record w { hook = old }))
  unfolding arrive continue come_back raw_cancel_back resume_gen_back load
  arrive-dropped w b t g c i old ne here gen started ended clean =
      let w1 = record w { hook = old } in
      let d = drop_rest-done w1 g c i ne here gen started ended in
      let room = ltb (w.usage g).1 (w.usage g).0 in
      elim (Bool-cases room) [
        | inl y ↦
            let e : drop_rest g w1 ≡ ok tt (freed w1 g) = d ∙ rw y refl in rw y (ground (arith, e))
        | inr n ↦
            let e : drop_rest g w1 ≡ panic (error Error.stack_err) w1 = d ∙ rw n refl in
            rw n (ground (arith, e))
      ]
