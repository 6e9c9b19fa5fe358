-- ===== src/Coroutine/Leaving.antt =====
-- A yield does what the abstract view says.
use generator_rs.Base.{ℕ, ◌≡◌, refl, ◌∙◌, true, none, some, List, ◌∷◌, arith, sub_word, eq_of_==}
use generator_rs.Rt.Context.{Ptr, Context, Slot}
use generator_rs.Gen.Types.{
  Reply, value, Op, call, Client, AfterYield, Channel, typed, scoped, body, Kont, waiting, World,
}
use generator_rs.Gen.Machine.{at, running}
use generator_rs.Gen.Leave.{Yields, Writes}
use generator_rs.Gen.Rounds.{IsRunning, yield_run}
use generator_rs.Coroutine.Abstract.{
  paused, Port, Activation, View, base, gens, left, is_kept, may_write, may_read,
}
use generator_rs.Coroutine.Refines.{Represents}
use generator_rs.Coroutine.Entering.{Reaches, kept-count}
use generator_rs.Coroutine.Arriving.{Waits-Awaits}
use generator_rs.Coroutine.Leave.{Represents-IsRunning, some-AtRest, left-AtRest, leave_lem}

module _ {S : Type 0} where
  may_write-Writes :
      (ch : Channel) (g : Ptr) (p : Port) (c : Context (Kont S)) (s : Slot)
      → (p.is_typed ≡ true → (c.para ≡ g) × (c.ret ≡ g))
      → s.ty ≡ p.gives
      → may_write ch g p ≡ true
      → Writes ch g c s
  may_write-Writes (typed a t) g p c s linked ty e = ((linked (ground arith)).1, ground arith)
  may_write-Writes (scoped q) g p c s linked ty e = eq_of_== q g e

module _ (cl : Client) (a : View cl.Local) (w : World cl.Local) (x : Activation cl.Local)
    (rest : List (Activation cl.Local)) (l : cl.Local) (r : Reply)
    (v : Represents (record a { active = x ∷ rest }) w) where
  pub on :
      IsRunning w x.gen
        (gens rest)
        (v.stacked.0.c)
        (v.stacked.0.s)
        (waiting (v.stacked.1.frame) (base rest) x.caller)
  on = Represents-IsRunning a w x rest v

  pub yield-Reaches :
      (ch : Channel) (n : ℕ) (after : AfterYield) (s : cl.Local) {o : Op cl.Local}
      → cl.next l r ≡ call o s
      → Yields o x.gen ch n after
      → is_kept x.way ≡ true
      → may_write ch x.gen (a.ports x.gen) ≡ true
      → may_read after x.gen (a.ports x.gen) ≡ true
      → Reaches cl
          (at (running (body x.gen) l r) w)
          (left a x rest (some (paused after s)) (value (some n)))
  yield-Reaches ch n after s calls yields kept writes reads =
      let g = x.gen in
      let q = v.stacked.0 in
      let below = v.stacked.1 in
      let c = q.c in
      let one = q.ref ∙ kept-count x.way kept in
      let zero_ref : sub_word c.ref 1 ≡ 0 = ground (arith, one) in
      let (h, e, off, switched) =
        yield_run cl w g (gens rest) c q.s below.frame (base rest) x.caller l r on q.owns.clean
          (Waits-Awaits kept below.waits) ch n after s calls yields
          (may_write-Writes ch g (a.ports g) c q.s q.owns.linked q.owns.ty writes) in
      record {
        steps = 2;
        some_steps = omega arith;
        few = omega arith;
        world = _;
        reached = e;
        represents =
            leave_lem a w _ x rest (some (paused after s)) (value (some n)) _ _ h v off.rest
              switched (λ b n. ground arith) (λ b n. refl) refl refl
              (λ b n. (refl, refl, ground arith))
              (some-AtRest _ (a.ports g) g (paused after s) (
                left-AtRest w _ x (a.ports g) (gens rest) (paused after s) _ _ q.i
                  (record (q.s) { value = none }) q off (q.owns.clean, refl, refl, refl) q.owns.gen
                  refl (ground arith) refl
                  (λ d regs ref. (regs, ref ∙ zero_ref, refl, q.started, reads))));
      }
