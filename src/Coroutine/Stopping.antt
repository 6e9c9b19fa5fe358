-- ===== src/Coroutine/Stopping.antt =====
-- A closure that stops without an error does what the abstract view says, also where its generator
-- is being dropped.
use generator_rs.Base.{
  sym, subst, ℕ, ◌%◌, ◌≡◌, refl, ap, ◌∙◌, true, false, none, some, List, ◌∷◌, arith, ◌==◌,
  Bool-cases, inl, inr, ne_of_has, ltb, [], ◌++◌, Option,
}
use mathlib.Core.Path.{fun_ext}
use generator_rs.Panic.{ok, error, Error}
use generator_rs.Rt.Context.{Ptr, Slot}
use generator_rs.Gen.Types.{
  Frame, in_drop, Hook, Reply, unwind, Action, Client, body, waiting, finished, World,
}
use generator_rs.Gen.Machine.{Machine, arrive, at, running, perform, step, run, settle, finish}
use generator_rs.Gen.Views.{with_contexts}
use generator_rs.Gen.Leave.{with_ret}
use generator_rs.Gen.Rounds.{with_ret-IsRunning}
use generator_rs.Gen.Ends.{finish_lem}
use generator_rs.Coroutine.Abstract.{
  over, Way, Activation, View, base, gens, left, leftover, fits, stopped,
}
use generator_rs.Coroutine.Refines.{
  count, Waits, by_resume, by_send, by_cancel, by_drop, Represents,
}
use generator_rs.Coroutine.Entering.{Reaches}
use generator_rs.Coroutine.Arriving.{gives, arrive-clean, arrive-dropped, is_dropping}
use generator_rs.Coroutine.Leave.{some-AtRest, left-AtRest, leave_lem}
use generator_rs.Coroutine.Rest.{Ring-apart}
use generator_rs.Coroutine.Leaving.{on}
use generator_rs.Gen.Drop.{freed}

pub running-count : (way : Way) (n : ℕ) → n ≡ count way → (n % 4 == 0) ≡ false
running-count Way.resumes n e = ground arith
running-count Way.sends n e = ground arith
running-count Way.cancels n e = ground arith
running-count Way.drops n e = ground arith

module _ {S : Type 0} where
  pub with_ret-same :
      (w : World S) (g : Ptr) (s : Slot)
      → w.mem.rets g ≡ some s
      → s.value ≡ none
      → w ≡ with_ret w g (record s { value = none })
  with_ret-same w g s e z =
      ap (λ q. record w { mem = record (w.mem) { rets = q } }) (fun_ext λ b. ground arith)

  stopped-kept :
      (a : View S) (x : Activation S) (rest : List (Activation S)) (way : Way) (m : Option ℕ)
      (r : Reply)
      → is_dropping way ≡ false
      → stopped a x rest way m r ≡ left a x rest (some (over m)) r
  stopped-kept a x rest Way.resumes m r n = refl
  stopped-kept a x rest Way.sends m r n = refl
  stopped-kept a x rest Way.cancels m r n = refl
  stopped-kept a x rest Way.drops m r n = cc

  stopped-fits :
      (a : View S) (x : Activation S) (rest : List (Activation S)) (way : Way) (m : Option ℕ)
      (r : Reply)
      → way ≡ Way.drops
      → fits a x.gen ≡ true
      → stopped a x rest way m r ≡ left a x rest none Reply.unit
  stopped-fits a x rest way m r e f = rw (e, f) refl

  stopped-full :
      (a : View S) (x : Activation S) (rest : List (Activation S)) (way : Way) (m : Option ℕ)
      (r : Reply)
      → way ≡ Way.drops
      → fits a x.gen ≡ false
      → stopped a x rest way m r ≡ left a x rest (some (over m)) (unwind (error Error.stack_err))
  stopped-full a x rest way m r e f = rw (e, f) refl

  -- A generator that is dropped waits for its end in `in_drop`.
  Waits-dropping :
      {way : Way} {g : Ptr} {frame : Frame S}
      → Waits way g frame
      → is_dropping way ≡ true
      → (way ≡ Way.drops) × ((old : Hook) × (frame ≡ in_drop g old Reply.unit))
  Waits-dropping (by_resume g) y = cc
  Waits-dropping (by_send g) y = cc
  Waits-dropping (by_cancel g old) y = cc
  Waits-dropping (by_drop g old) y = (refl, (old, refl))

pub leftover-none : (way : Way) → leftover way none ≡ none
leftover-none Way.resumes = refl
leftover-none Way.sends = refl
leftover-none Way.cancels = refl
leftover-none Way.drops = refl

Reaches-same :
    (cl : Client) {m : Machine cl.Local} {a b : View cl.Local}
    → a ≡ b
    → Reaches cl m b
    → Reaches cl m a
Reaches-same cl {m} e = subst (Reaches cl m) (sym e)

module _ (cl : Client) (a : View cl.Local) (w : World cl.Local) (x : Activation cl.Local)
    (rest : List (Activation cl.Local)) (l : cl.Local) (r : Reply)
    (v : Represents (record a { active = x ∷ rest }) w) where
  -- The closure stops with this in `ret`, in a generator that is not being dropped.
  stop-kept :
      (act : Action cl.Local) (s : Slot)
      → is_dropping x.way ≡ false
      → cl.next l r ≡ act
      → perform (body x.gen) act w ≡ finish (body x.gen) act w
      → settle x.gen act w ≡ ok tt (with_ret w x.gen s)
      → s.ty ≡ v.stacked.0.s.ty
      → Reaches cl
          (at (running (body x.gen) l r) w)
          (left a x rest (some (over (leftover x.way s.value))) (gives x.way s.value))
  unfolding run step
  stop-kept act s stays does performs settles ty =
      let g = x.gen in
      let q = v.stacked.0 in
      let below = v.stacked.1 in
      let c = q.c in
      let w1 = with_ret w g s in
      let k = waiting below.frame (base rest) x.caller in
      let (h, e, off, switched) =
        finish_lem w w1 g (gens rest) c s k act settles
          (with_ret-IsRunning w g (gens rest) c q.s s k (on cl a w x rest l r v)) in
      let (c', ec, _, _, err, _, _, _) = off.like in
      let (w', e', took) =
        arrive-clean (with_contexts w1 h) (base rest) x.caller g c' q.owns.ne ec s below.waits stays
          (err ∙ q.owns.clean) (ground arith) in
      let m = leftover x.way s.value in
      record {
        steps = 2;
        some_steps = omega arith;
        few = omega arith;
        world = w';
        reached = rw (does, performs, e) e';
        represents =
            leave_lem a w w' x rest (some (over m)) _ finished _ h v (rw took.contexts off.rest)
              switched (λ b n. refl) (λ b n. ap (λ p. p b) took.contexts) took.root took.usage
              (λ b n.
                (ap (λ p. p b) took.gens, ap (λ p. p b) took.paras, took.others b n ∙ ground arith))
              (some-AtRest w' (a.ports g) g (over m) (
                left-AtRest w w' x (a.ports g) (gens rest) (over m) finished c q.i took.left q
                  (rw took.contexts off) (q.owns.clean, refl, refl, refl)
                  (ap (λ p. p g) took.gens ∙ q.owns.gen) (ap (λ p. p g) took.paras) took.ret
                  (took.ty ∙ ty)
                  (λ d regs ref.
                    (running-count x.way d.ref (ref ∙ q.ref), q.started, took.value))));
      }

  -- The same in a generator that is being dropped.
  stop-dropped :
      (act : Action cl.Local) (s : Slot)
      → is_dropping x.way ≡ true
      → cl.next l r ≡ act
      → perform (body x.gen) act w ≡ finish (body x.gen) act w
      → settle x.gen act w ≡ ok tt (with_ret w x.gen s)
      → s.ty ≡ v.stacked.0.s.ty
      → Reaches cl
          (at (running (body x.gen) l r) w)
          (stopped a x rest x.way (leftover x.way s.value) (gives x.way s.value))
  unfolding run step
  stop-dropped act s drops does performs settles ty =
      let g = x.gen in
      let q = v.stacked.0 in
      let below = v.stacked.1 in
      let c = q.c in
      let w1 = with_ret w g s in
      let k = waiting below.frame (base rest) x.caller in
      let (h, e, off, switched) =
        finish_lem w w1 g (gens rest) c s k act settles
          (with_ret-IsRunning w g (gens rest) c q.s s k (on cl a w x rest l r v)) in
      let (c', ec, _, ref, err, _, _, _) = off.like in
      let (way, (old, frame)) = Waits-dropping below.waits drops in
      let w2 = with_contexts w1 h in
      let done =
        arrive-dropped w2 (base rest) x.caller g c' q.i old q.owns.ne ec q.owns.gen q.started
          (running-count x.way c'.ref (ref ∙ q.ref)) (err ∙ q.owns.clean) in
      let arrives = ap (λ f. arrive (waiting f (base rest) x.caller) w2) frame in
      let kept : leftover x.way s.value ≡ s.value = rw way refl in
      let room : ltb (w.usage g).1 (w.usage g).0 ≡ fits a g = rw v.usage refl in
      elim (Bool-cases (fits a g)) [
        | inl y ↦ Reaches-same cl (stopped-fits a x rest x.way _ _ way y) (record {
          steps = 2;
          some_steps = omega arith;
          few = omega arith;
          world = freed (record w2 { hook = old }) g;
          reached = rw (does, performs, e) (arrives ∙ done ∙ rw (room ∙ y) refl);
          represents =
              leave_lem a w _ x rest none Reply.unit finished _ h v
                (Ring-apart h _ w.mem.root (gens rest)
                  (λ b i.
                    let n = ne_of_has b g (gens rest ++ w.mem.root ∷ []) i v.ring.distinct.0 in
                    ground arith)
                  off.rest)
                switched (λ b n. refl) (λ b n. ground arith) refl refl
                (λ b n. (ground arith, ground arith, ground arith)) (λ u z. cc);
        })
        | inr n ↦ Reaches-same cl (stopped-full a x rest x.way _ _ way n) (record {
          steps = 2;
          some_steps = omega arith;
          few = omega arith;
          world = record w2 { hook = old };
          reached = rw (does, performs, e) (arrives ∙ done ∙ rw (room ∙ n) refl);
          represents =
              leave_lem a w _ x rest (some (over (leftover x.way s.value))) _ finished _ h v
                off.rest switched (λ b n. refl) (λ b n. refl) refl refl
                (λ b n. (refl, refl, ground arith))
                (some-AtRest _ (a.ports g) g (over (leftover x.way s.value)) (
                  left-AtRest w _ x (a.ports g) (gens rest) (over (leftover x.way s.value)) finished
                    c q.i s q off (q.owns.clean, refl, refl, refl) q.owns.gen refl (ground arith) ty
                    (λ d regs ref.
                      (running-count x.way d.ref (ref ∙ q.ref), q.started, sym kept))));
        })
      ]

  pub stop-Reaches :
      (act : Action cl.Local) (s : Slot)
      → cl.next l r ≡ act
      → perform (body x.gen) act w ≡ finish (body x.gen) act w
      → settle x.gen act w ≡ ok tt (with_ret w x.gen s)
      → s.ty ≡ v.stacked.0.s.ty
      → Reaches cl
          (at (running (body x.gen) l r) w)
          (stopped a x rest x.way (leftover x.way s.value) (gives x.way s.value))
  stop-Reaches act s does performs settles ty = elim (Bool-cases (is_dropping x.way)) [
    | inl y ↦ stop-dropped act s y does performs settles ty
    | inr n ↦
        Reaches-same cl (stopped-kept a x rest x.way _ _ n)
          (stop-kept act s n does performs settles ty)
  ]
