-- ===== src/Gen/Resume.antt =====
-- A round of `resume`, `raw_send` or `send` from the call to the generator's own code.
use generator_rs.Base.{
  ℕ, ◌≡◌, ◌≢◌, refl, sym, ◌∙◌, true, Option, none, some, List, [], ◌∷◌, ◌++◌, arith, update,
  add_word, Bool-cases, inl, inr, subst,
}
use generator_rs.Panic.{ok}
use generator_rs.Rt.Context.{Ptr, null, Context, Slot, load, take_para, get_para}
use generator_rs.Rt.Ring.{first, ne-first}
use generator_rs.Gen.Types.{
  Reply, Op, call, Client, Closure, AfterYield, nothing, then_get, then_take, Frame, in_raw_yield,
  Base, body, Kont, entry, waiting, GeneratorImpl, filtered, load_gen, store_gen, World, reply,
}
use generator_rs.Gen.Yield.{yield_then_back, raw_yield_back, raw_get_yield, check_context}
use generator_rs.Gen.Machine.{
  come_back, at, running, continue, arrive, step, run, enter_gen, install_filter, start,
}
use generator_rs.Gen.Views.{with_contexts}
use generator_rs.Gen.Handover.{IsOn, IsSwitched}
use generator_rs.Gen.Sends.{Enters, carried, sent, sent-para, IsReady, step_lem}

-- What a call of a yield answers with.
abbrev pub received : AfterYield → Option ℕ → Reply
received nothing p = Reply.unit
received (then_get a) p = Reply.value p
received (then_take g) p = Reply.value p

-- It reads the generator's `para`, at its type.
abbrev pub Reads : {S : Type 0} → AfterYield → Ptr → Context (Kont S) → Slot → Type 0
Reads nothing g c s = Unit {0}
Reads (then_get a) g c s = (c.para ≡ g) × (s.ty ≡ a)
Reads (then_take q) g c s = q ≡ g

-- What is left of it.
abbrev pub left_over : AfterYield → (Ptr → Option Slot) → Ptr → Slot → Ptr → Option Slot
left_over nothing paras g s = paras
left_over (then_get a) paras g s = update paras g (some (record s { value = none }))
left_over (then_take q) paras g s = update paras g (some (record s { value = none }))

module _ {S : Type 0} where
  abbrev pub with_left_over : World S → AfterYield → Ptr → Slot → World S
  with_left_over w after g s = record w {
    mem = record (w.mem) { paras = left_over after w.mem.paras g s };
  }

  pub yield_then_back_lem :
      (w : World S) (g : Ptr) (after : AfterYield) (c : Context (Kont S)) (s : Slot)
      → g ≢ null
      → w.mem.contexts g ≡ some c
      → c.parent ≢ g
      → c.ref ≡ 1
      → w.mem.paras g ≡ some s
      → Reads after g c s
      → yield_then_back g after w ≡ ok (reply (received after s.value)) (with_left_over w after g s)
  unfolding yield_then_back raw_yield_back raw_get_yield check_context load take_para get_para
  yield_then_back_lem w g nothing c s ne e n r p u = ground arith
  yield_then_back_lem w g (then_get a) c s ne e n r p u = ground arith
  yield_then_back_lem w g (then_take q) c s ne e n r p u = rw u (ground arith)

  -- What a generator's first instruction does.
  enter_gen_lem :
      (w : World S) (g : Ptr) (i : GeneratorImpl S)
      → w.gens g ≡ some i
      → (w' : World S) × (enter_gen g w ≡ ok i.f w')
        × (w'.mem ≡ w.mem)
        × (w'.gens ≡ update w.gens g (some (record i { f = none })))
        × (w'.filter_on ≡ true)
        × (w'.usage ≡ w.usage)
  unfolding enter_gen install_filter load_gen store_gen
  enter_gen_lem w g i e = elim (Bool-cases w.filter_on) [
    | inl on ↦ (
      record w { gens = update w.gens g (some (record i { f = none })) },
      ground arith,
      refl,
      refl,
      on,
      refl,
    )
    | inr off ↦ (
      record w {
        gens = update w.gens g (some (record i { f = none }));
        filter_on = true;
        hook = filtered w.hook;
      },
      ground arith,
      refl,
      refl,
      refl,
      refl,
    )
  ]

  pub Reads-same :
      (after : AfterYield) (g : Ptr) (c d : Context (Kont S)) (s s' : Slot)
      → d.para ≡ c.para
      → s'.ty ≡ s.ty
      → Reads after g c s
      → Reads after g d s'
  Reads-same nothing g c d s s' p t u = tt
  Reads-same (then_get a) g c d s s' p t u = (p ∙ u.0, t ∙ u.1)
  Reads-same (then_take q) g c d s s' p t u = u

module _ (cl : Client) (w : World cl.Local) (g : Ptr) (xs : List Ptr) (c : Context (Kont cl.Local))
    (i : GeneratorImpl cl.Local) (s : Slot) (b : Base) (l l' : cl.Local) (r : Reply)
    {o : Op cl.Local} {frame : Frame cl.Local} {m : Option (Option ℕ)}
    (ready : IsReady w g xs c i s) (how : Enters o g frame m)
    (calls : cl.next l r ≡ call o l') where
  pub resume_run :
      (after : AfterYield) (t : cl.Local)
      → c.regs ≡ waiting (in_raw_yield g after) (body g) t
      → c.ref ≡ 0
      → Reads after g c s
      → (h : Ptr → Option (Context (Kont cl.Local))) × (run cl 2 (at (running b l r) w)
          ≡ at (running (body g) t (received after (carried m s.value))) (
              with_left_over
                (with_contexts (sent w g s m) h)
                after
                g
                (record s { value = carried m s.value })))
        × IsOn h w.mem.root g xs (waiting frame b l') (record c { ref = 1 })
        × IsSwitched
            (update w.mem.contexts g (some (record c { ref = 1 })))
            (first xs w.mem.root)
            (waiting frame b l')
            (g ∷ (xs ++ w.mem.root ∷ []))
            h
  unfolding run step arrive continue come_back
  resume_run after t regs zero_ref reads =
      let (h, e, on, switched) =
        step_lem cl w g xs c i s b l l' r ready (rw zero_ref (ground arith)) how calls in
      let (c', ec, _, ref, _, _, para, _) = on.like in
      let one : c'.ref ≡ 1 = ref ∙ rw zero_ref refl in
      let s' = record s { value = carried m s.value } in
      let w1 = with_contexts (sent w g s m) h in
      let away = ne-first g xs w.mem.root ready.apart in
      let n : c'.parent ≢ g = ground (arith, on.ring.chain.0.1) in
      let back =
        yield_then_back_lem w1 g after c' s' ready.own.base.0 ec n one
          (sent-para w.mem.paras g s m ready.para) (Reads-same after g c c' s s' para refl reads) in
      (h, rw (e, arrive, regs, come_back, back), rw zero_ref at on, rw zero_ref at switched)

  -- A generator that is a ring of its own and waits, with a count of 0, in a yield that reads its
  -- own para at its type, or reads nothing, is resumed or sent a value: in two steps its code goes
  -- on behind the yield, which answers with the value sent, or with what its para holds if the call
  -- sends none; the generator is the newest running context with a count of 1, and the caller is
  -- saved in the context below.
  pub resume_lem :
      (after : AfterYield) (t : cl.Local)
      → c.regs ≡ waiting (in_raw_yield g after) (body g) t
      → c.ref ≡ 0
      → Reads after g c s
      → (w' : World cl.Local) × (run cl 2 (at (running b l r) w)
          ≡ at (running (body g) t (received after (carried m s.value))) w')
        × IsOn w'.mem.contexts w.mem.root g xs (waiting frame b l') (record c { ref = 1 })
        × (w'.gens ≡ w.gens)
        × (w'.hook ≡ w.hook)
  resume_lem after t regs zero_ref reads =
      let (h, e, on, _) = resume_run after t regs zero_ref reads in (_, e, on, refl, refl)

  pub start_run :
      (f : Closure cl.Local)
      → c.regs ≡ entry g
      → i.f ≡ some f
      → (h : Ptr → Option (Context (Kont cl.Local))) × (w' : World cl.Local) × (run cl 2
            (at (running b l r) w)
          ≡ at (running (body g) f.state Reply.unit) w')
        × (w'.mem ≡ (with_contexts (sent w g s m) h).mem)
        × (w'.gens ≡ update w.gens g (some (record i { f = none })))
        × (w'.filter_on ≡ true)
        × (w'.usage ≡ w.usage)
        × IsOn h w.mem.root g xs (waiting frame b l') (record c { ref = add_word c.ref 1 })
        × IsSwitched
            (update w.mem.contexts g (some (record c { ref = add_word c.ref 1 })))
            (first xs w.mem.root)
            (waiting frame b l')
            (g ∷ (xs ++ w.mem.root ∷ []))
            h
  unfolding run step arrive start
  start_run f regs fe =
      let (h, e, on, switched) =
        step_lem cl w g xs c i s b l l' r ready (rw fe (ground arith)) how calls in
      let w1 = with_contexts (sent w g s m) h in
      let (w', e', mem, gens, on_filter, usage) = enter_gen_lem w1 g i ready.gen in
      (h, w', rw (e, arrive, regs, e', fe), mem, gens, on_filter, usage, on, switched)

  -- A generator that is a ring of its own, has its closure, and whose registers stand at gen_init is
  -- resumed or sent a value: in two steps its closure runs from the start and has been consumed; the
  -- generator is the newest running context with its count one more, the caller is saved in the
  -- context below, and the filter of panic messages is in place.
  pub start_lem :
      (f : Closure cl.Local)
      → c.regs ≡ entry g
      → i.f ≡ some f
      → (w' : World cl.Local) × (run cl 2 (at (running b l r) w)
          ≡ at (running (body g) f.state Reply.unit) w')
        × IsOn w'.mem.contexts w.mem.root g xs
            (waiting frame b l')
            (record c { ref = add_word c.ref 1 })
        × (w'.gens ≡ update w.gens g (some (record i { f = none })))
        × (w'.filter_on ≡ true)
  start_lem f regs fe =
      let (h, w', e, mem, gens, on_filter, _, on, _) = start_run f regs fe in
      (
        w',
        e,
        subst
            (λ q.
              IsOn q.contexts w.mem.root g xs (waiting frame b l')
                (record c { ref = add_word c.ref 1 }))
            (sym mem) on,
        gens,
        on_filter,
      )
