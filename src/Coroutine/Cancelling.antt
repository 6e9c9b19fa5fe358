-- ===== src/Coroutine/Cancelling.antt =====
-- `cancel` does what the abstract view says.
use generator_rs.Base.{
  ℕ, Option, ◌≡◌, refl, subst, true, false, none, some, arith, update, inl, inr, Option-cases,
  is_none,
}
use generator_rs.Panic.{ok, error, Error}
use generator_rs.Rt.Context.{Ptr}
use generator_rs.Gen.Types.{
  Reply, unwind, Op, call, Client, AfterYield, Frame, Hook, World, reply, store_gen,
}
use generator_rs.Gen.Impl
use generator_rs.Gen.Impl.{is_done, is_started, cancel_with}
use generator_rs.Gen.Machine.{exec, at, running, continue, perform, step, run}
use generator_rs.Gen.Views.{with_contexts, with_context-ok}
use generator_rs.Gen.Life.{load_gen-ok}
use generator_rs.Gen.Cancel
use generator_rs.Gen.Cancel.{Cancels, cancel-run, is_started-ok}
use generator_rs.Coroutine.Abstract.{
  Status, fresh, paused, over, Way, cancels, View, base, gens, entered, answered, enter, enter_at,
}
use generator_rs.Coroutine.Refines.{Waits, by_cancel, count, AtRest, Represents}
use generator_rs.Coroutine.Leave.{some-AtRest}
use generator_rs.Coroutine.Enter.{cell, AtRest-IsReady, enter_lem}
use generator_rs.Coroutine.Rest.{IsLocal, rest-same_port}
use generator_rs.Coroutine.Entering.{Reaches}
use generator_rs.Coroutine.Asking.{answers, rest-is_done}

module _ (cl : Client) (a : View cl.Local) (w : World cl.Local) (g : Ptr) (l s : cl.Local)
    (r : Reply) (v : Represents a w) where
  -- Code that waits in a yield is cancelled, or dropped.
  pub cancel-paused :
      (way : Way) {o : Op cl.Local} {frame : Hook → Frame cl.Local}
      → Cancels o g frame
      → ((old : Hook) → Waits way g (frame old))
      → count way ≡ 2
      → cl.next l r ≡ call o s
      → (after : AfterYield) (t : cl.Local) → a.rest g ≡ some (paused after t)
      → Reaches cl
          (at (running (base a.active) l r) w)
          (entered a g way s t (unwind (error Error.cancel)) (a.ports g).inbox)
  cancel-paused way how waits two calls after t e =
      let q = (v.off g (paused after t) e).1 in
      let (regs, zero_ref, empty, started, _) = q.holds in
      let ready = AtRest-IsReady a w g (paused after t) v e q in
      let (h, f, on, switched) =
        cancel-run cl w g (gens a.active) q.c q.i (cell (a.ports g)) (base a.active) l s r ready how
          calls after t regs zero_ref started in
      record {
        steps = 2;
        some_steps = omega arith;
        few = omega arith;
        world = _;
        reached = f;
        represents =
            enter_lem a w _ g (paused after t) way _ s t _ _ q.i v e q empty (waits w.hook)
              (rw two on) (rw two switched) refl refl (λ b n. (refl, refl, refl)) q.owns.gen started
              q.owns.para refl;
      }

module _ (cl : Client) (a : View cl.Local) (w : World cl.Local) (g : Ptr) (l s : cl.Local)
    (r : Reply) (v : Represents a w) (calls : cl.next l r ≡ call (Op.cancel g) s) where
  cancel-over :
      (n : Option ℕ)
      → a.rest g ≡ some (over n)
      → Reaches cl (at (running (base a.active) l r) w) (answered a s Reply.unit)
  unfolding continue exec Impl.cancel cancel_with
  cancel-over n e =
      let q = (v.off g (over n) e).1 in
      answers cl a w l s r v Reply.unit calls (
        rw
          (
            rest-is_done cl a w l s r v g (over n) true e refl,
            cancel_with,
            is_started-ok w g q.i q.owns.gen,
          )
          refl)

  -- It has not started: its closure is dropped.
  exec-cancel-fresh :
      (t : cl.Local)
      → (e : a.rest g ≡ some (fresh t)) → (q : AtRest w (fresh t) (a.ports g) g)
      → exec (Op.cancel g) w
        ≡ ok (reply Reply.unit) (
            with_contexts
              (record w { gens = update w.gens g (some (record (q.i) { f = none })) })
              (update w.mem.contexts g (some (record (q.c) { ref = 1 }))))
  unfolding exec Impl.cancel cancel_with store_gen
  exec-cancel-fresh t e q =
      let (f, has_f, _) = q.holds.3 in
      let w1 = record w { gens = update w.gens g (some (record (q.i) { f = none })) } in
      let started : is_none q.i.f ≡ false = ground (arith, has_f) in
      rw (
        rest-is_done cl a w l s r v g (fresh t) false e refl,
        cancel_with,
        is_started-ok w g q.i q.owns.gen,
        started,
        load_gen-ok w g q.i q.owns.gen,
        with_context-ok w1 g q.c (λ c. record c { ref = 1 }) q.owns.ne q.owns.here,
      )

  cancel-fresh :
      (t : cl.Local)
      → a.rest g ≡ some (fresh t)
      → Reaches cl
          (at (running (base a.active) l r) w)
          (record (answered a s Reply.unit) { rest = update a.rest g (some (over none)) })
  unfolding run step perform continue
  cancel-fresh t e =
      let q = (v.off g (fresh t) e).1 in
      let o = q.owns in
      let c = record (q.c) { ref = 1 } in
      let i = record (q.i) { f = none } in
      let w' =
        with_contexts (record w { gens = update w.gens g (some i) })
          (update w.mem.contexts g (some c)) in
      let local : IsLocal w g w' = record {
        root = refl;
        usage = refl;
        same = λ b n. (ground arith, ground arith, refl, refl);
      } in
      record {
        steps = 1;
        some_steps = omega arith;
        few = omega arith;
        world = w';
        reached = rw (calls, perform, exec-cancel-fresh t e q) refl;
        represents = rest-same_port a w w' g (some (over none)) _ v local (v.off g (fresh t) e).0 (
            some-AtRest w' (a.ports g) g (over none) (record {
              c = c;
              i = i;
              s = q.s;
              owns = record {
                ne = o.ne;
                here = ground arith;
                gen = ground arith;
                para = o.para;
                ret = o.ret;
                ty = o.ty;
                clean = o.clean;
                plain = o.plain;
                linked = o.linked;
              };
              own = q.own;
              alone = q.alone;
              holds = (refl, refl, q.holds.2);
            }));
      }

  pub cancel-Reaches :
      {a' : View cl.Local}
      → enter a g cancels none s ≡ some a'
      → Reaches cl (at (running (base a.active) l r) w) a'
  cancel-Reaches {a'} e = elim (Option-cases (a.rest g)) [
    | inl z ↦ absurd (ground (arith, rw z at e))
    | inr (st, z) ↦ cancelled_as st z (rw z at e)
  ]
    where
      goal : View cl.Local → Type 0
      goal = Reaches cl (at (running (base a.active) l r) w)

      cancelled_as :
          (st : Status cl.Local)
          → a.rest g ≡ some st
          → enter_at a g cancels none s (some st) ≡ some a'
          → goal a'
      cancelled_as (fresh t) z e = subst goal (ground (arith, e)) (cancel-fresh t z)
      cancelled_as (paused after t) z e = subst goal (ground (arith, e)) (
          cancel-paused cl a w g l s r v cancels (Cancel.by_cancel g) (by_cancel g) refl calls after
            t z)
      cancelled_as (over n) z e = subst goal (ground (arith, e)) (cancel-over n z)
