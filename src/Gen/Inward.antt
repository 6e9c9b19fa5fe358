-- ===== src/Gen/Inward.antt =====
-- `yield_from` of src/yield_.rs and src/scope.rs, the way in: what is sent to the generator is sent on
-- to the one that it yields from.
use generator_rs.Base.{
  ℕ, ◌≡◌, ◌≢◌, refl, ap, ◌∙◌, false, Option, none, some, List, [], ◌∷◌, ◌++◌, arith, has,
}
use generator_rs.Rt.Context.{Ptr, Context, Slot}
use generator_rs.Rt.Ring.{parent_at, child_at}
use generator_rs.Gen.Types.{
  Reply, Op, call, Client, AfterYield, Channel, Frame, in_raw_yield, from_send, from_yield, Base,
  body, Kont, waiting, GeneratorImpl, World,
}
use generator_rs.Gen.Machine.{at, arriving, running, continue, come_back, arrive, step, run}
use generator_rs.Gen.Views.{with_contexts}
use generator_rs.Gen.Handover.{Like, IsOn, found}
use generator_rs.Gen.Sends.{
  Enters, carried, sent, sent_paras, sent-para, IsReady, enter_lem, step_lem,
}
use generator_rs.Gen.Passing.{Receives, with_para, from_yield_back_lem, Receives-same}
use generator_rs.Gen.Resume.{received, Reads, Reads-same, with_left_over, yield_then_back_lem}

sent-away :
    (paras : Ptr → Option Slot) (g a : Ptr) (s : Slot) (m : Option (Option ℕ))
    → a ≢ g
    → sent_paras paras g s m a ≡ paras a
sent-away paras g a s none ne = refl
sent-away paras g a s (some p) ne = ground arith

module _ (cl : Client) (ctx g : Ptr) (xs : List Ptr) (c : Context (Kont cl.Local))
    (i : GeneratorImpl cl.Local) (s : Slot) (tl t : cl.Local) (ch : Channel)
    (after : AfterYield) where
  -- The outer one runs again, in its yield.
  inward_from :
      (w : World cl.Local) (o : Context (Kont cl.Local)) (os : Slot)
      → IsReady w g (ctx ∷ xs) c i s
      → w.mem.contexts ctx ≡ some o
      → o.ref ≡ 1
      → w.mem.paras ctx ≡ some os
      → Receives ch ctx o os
      → c.regs ≡ waiting (in_raw_yield g after) (body g) t
      → c.ref ≡ 0
      → Reads after g c s
      → (w' : World cl.Local) × (run cl 2
            (at (arriving (waiting (from_yield ctx g ch) (body ctx) tl)) w)
          ≡ at (running (body g) t (received after os.value)) w')
        × IsOn w'.mem.contexts w.mem.root g
            (ctx ∷ xs)
            (waiting (from_send ctx g ch) (body ctx) tl)
            (record c { ref = 1 })
        × Like
            (w'.mem.contexts ctx)
            (record o { regs = waiting (from_send ctx g ch) (body ctx) tl })
        × (w'.gens ≡ w.gens)
        × (w'.hook ≡ w.hook)
  unfolding run step arrive come_back continue
  inward_from w o os inner here one para receives regs ref reads =
      let two = inner.own.base.0 in
      let ne : g ≢ ctx = ground (arith, inner.apart) in
      let go =
        from_yield_back_lem w ch ctx g o c i os s inner.running.chain.0.0 here one para receives two
          ne inner.here ref inner.gen inner.para in
      let s' = record s { value = os.value } in
      let w1 = with_para (with_para w ctx (record os { value = none })) g s' in
      let ready : IsReady w1 g (ctx ∷ xs) c i s' = record {
        running = inner.running;
        own = inner.own;
        apart = inner.apart;
        here = inner.here;
        gen = inner.gen;
        para = ground arith;
        below = inner.below;
      } in
      let k = waiting (from_send ctx g ch) (body ctx) tl in
      let (h, e, on, switched) =
        enter_lem w1 g (ctx ∷ xs) c i s' (body ctx) tl (from_send ctx g ch) w ready in
      let (c', ec, _, cref, _, _, cpara, _) = on.like in
      let n : c'.parent ≢ g = ground (arith, on.ring.chain.0.1) in
      let back =
        yield_then_back_lem (with_contexts w1 h) g after c' s' two ec n (cref ∙ rw ref refl)
          (ground arith) (Reads-same after g c c' s s' cpara refl reads) in
      (
        with_left_over (with_contexts w1 h) after g s',
        rw (go, e, regs, back),
        rw ref at on,
        found (h ctx) (record o { regs = k }) (switched.bodies ctx ∙ ground arith),
        refl,
        refl,
      )

module _ (cl : Client) (w : World cl.Local) (ctx g : Ptr) (xs : List Ptr)
    (o c : Context (Kont cl.Local)) (oi i : GeneratorImpl cl.Local) (os s : Slot) (b : Base)
    (l l' tl t : cl.Local) (r : Reply) (ch : Channel) (after : AfterYield) {op : Op cl.Local}
    {frame : Frame cl.Local} {m : Option (Option ℕ)} where
  -- The generator ctx is a ring of its own and waits, with a count of 0, in the yield of yield_from,
  -- whose channel reads the para of ctx at its type; the generator g that it yields from, another
  -- one, is a ring of its own too and waits, with a count of 0, in a yield that reads its own para
  -- at its type, or reads nothing. When ctx is resumed or sent a value, then in three steps the code
  -- of g goes on behind its yield, which answers with what ctx was sent, or with what the para of
  -- ctx holds if the call sends none; g is the newest running context, right above ctx, each with a
  -- count of 1, and ctx is saved in its send to g.
  pub inward_lem :
      IsReady w ctx xs o oi os
      → Enters op ctx frame m
      → cl.next l r ≡ call op l'
      → o.regs ≡ waiting (from_yield ctx g ch) (body ctx) tl
      → o.ref ≡ 0
      → Receives ch ctx o os
      → IsReady w g xs c i s
      → g ≢ ctx
      → c.regs ≡ waiting (in_raw_yield g after) (body g) t
      → c.ref ≡ 0
      → Reads after g c s
      → (w' : World cl.Local) × (run cl 3 (at (running b l r) w)
          ≡ at (running (body g) t (received after (carried m os.value))) w')
        × IsOn w'.mem.contexts w.mem.root g
            (ctx ∷ xs)
            (waiting (from_send ctx g ch) (body ctx) tl)
            (record c { ref = 1 })
        × Like
            (w'.mem.contexts ctx)
            (record o { ref = 1; regs = waiting (from_send ctx g ch) (body ctx) tl })
        × (w'.gens ≡ w.gens)
        × (w'.hook ≡ w.hook)
  unfolding run
  inward_lem outer how calls oregs oref receives inner ne regs ref reads =
      let (h, e, on, switched) =
        step_lem cl w ctx xs o oi os b l l' r outer (rw oref (ground arith)) how calls in
      let far : has g (ctx ∷ xs ++ w.mem.root ∷ []) ≡ false = ground (arith, inner.apart) in
      let kept : h g ≡ w.mem.contexts g = switched.others g far ∙ ground arith in
      let (o', eo, _, oref', oerr, oloc, opara, oret) = on.like in
      let one : o'.ref ≡ 1 = oref' ∙ rw oref refl in
      let w1 = with_contexts (sent w ctx os m) h in
      let os' = record os { value = carried m os.value } in
      let base = inner.own.base in
      let ready : IsReady w1 g (ctx ∷ xs) c i s = record {
        running = on.ring;
        own = record {
          base = (base.0, ap parent_at kept ∙ base.1, ap child_at kept ∙ base.2);
          chain = tt;
          distinct = inner.own.distinct;
        };
        apart = far;
        here = kept ∙ inner.here;
        gen = inner.gen;
        para = sent-away w.mem.paras ctx g os m ne ∙ inner.para;
        below = (o', eo);
      } in
      let (w', e', on', (d, ed, dregs, dref, derr, dloc, dpara, dret), gens, hook) =
        inward_from cl ctx g xs c i s tl t ch after w1 o' os' ready eo one
          (sent-para w.mem.paras ctx os m outer.para)
          (Receives-same ch ctx o o' os os' opara refl receives) regs ref reads in
      (
        w',
        ap (run cl 2) (e ∙ ap (λ q. at (arriving q) w1) oregs) ∙ e',
        on',
        (d, ed, dregs, dref ∙ one, derr ∙ oerr, dloc ∙ oloc, dpara ∙ opara, dret ∙ oret),
        gens,
        hook,
      )
