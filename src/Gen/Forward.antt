-- ===== src/Gen/Forward.antt =====
-- `yield_from` of src/yield_.rs and src/scope.rs: a generator that hands on what another one yields.
use generator_rs.Base.{
  ℕ, ◌≡◌, ◌≢◌, refl, sym, subst, ap, ◌∙◌, false, Option, none, some, List, [], ◌∷◌, ◌++◌, arith,
  update, sub_word, has,
}
use generator_rs.Panic.{ok}
use generator_rs.Rt.Context.{Ptr, null, Context, Slot}
use generator_rs.Rt.Ring.{first, Ring, ne-first, parent_at, child_at}
use generator_rs.Gen.Types.{
  Reply, value, Op, call, Client, AfterYield, Channel, typed, scoped, Frame, in_raw_yield,
  from_send, from_yield, Base, body, Kont, waiting, World, switch,
}
use generator_rs.Gen.Yield.{dropping, raw_yield, raw_yield_now, from_send_back, from_answer}
use generator_rs.Gen.Machine.{at, arriving, running, continue, come_back, arrive, step, run}
use generator_rs.Gen.Views.{with_contexts, env-ok}
use generator_rs.Gen.Handover.{Like, IsOff, IsSwitched, found}
use generator_rs.Gen.Leave.{
  Yields, Writes, Awaits, with_ret, raw_yield_lem, resume_back_lem, come_back-Awaits,
}
use generator_rs.Gen.Rounds.{IsRunning, with_ret-IsRunning, rerun, off_lem, yield_step}

module _ {S : Type 0} where
  Writes-same :
      (ch : Channel) (g : Ptr) (c d : Context (Kont S)) (s : Slot)
      → d.ret ≡ c.ret
      → Writes ch g c s
      → Writes ch g d s
  Writes-same (typed a t) g c d s e u = (e ∙ u.0, u.1)
  Writes-same (scoped q) g c d s e u = u

  -- A generator that is off stays so, while another one leaves for the same contexts.
  IsOff-same :
      (h h' : Ptr → Option (Context (Kont S))) (root g : Ptr) (xs ys : List Ptr) (k : Kont S)
      (c : Context (Kont S))
      → h' g ≡ h g
      → Ring h' root ys
      → IsOff h root g xs k c
      → IsOff h' root g ys k c
  IsOff-same h h' root g xs ys k c e ring off =
      let b = off.own.base in
      record {
        rest = ring;
        own = record {
          base = (b.0, ap parent_at e ∙ b.1, ap child_at e ∙ b.2);
          chain = tt;
          distinct = off.own.distinct;
        };
        like = subst (λ o. Like o (record c { regs = k })) (sym e) off.like;
      }

  -- A context that is off is like another one.
  IsOff-like :
      (h : Ptr → Option (Context (Kont S))) (root g : Ptr) (xs : List Ptr) (k : Kont S)
      (c d : Context (Kont S))
      → (d.ref ≡ c.ref)
        × (d.err ≡ c.err)
        × (d.local_data ≡ c.local_data)
        × (d.para ≡ c.para)
        × (d.ret ≡ c.ret)
      → IsOff h root g xs k d
      → IsOff h root g xs k c
  IsOff-like h root g xs k c d (ref, err, local, para, ret) off =
      let (e, ee, regs, ref', err', local', para', ret') = off.like in
      record {
        rest = off.rest;
        own = off.own;
        like = (e, ee, regs, ref' ∙ ref, err' ∙ err, local' ∙ local, para' ∙ para, ret' ∙ ret);
      }

  -- Once `g` has left with something in its `ret`, the context below it is the one that runs.
  next_lem :
      (w : World S) (g ctx : Ptr) (xs : List Ptr) (c d o p : Context (Kont S)) (s os : Slot)
      (k out : Kont S) (h : Ptr → Option (Context (Kont S)))
      → has g (ctx ∷ xs ++ w.mem.root ∷ []) ≡ false
      → IsOff h w.mem.root g (ctx ∷ xs) out d
      → IsSwitched (update w.mem.contexts g (some c)) g out (g ∷ (ctx ∷ xs ++ w.mem.root ∷ [])) h
      → w.mem.contexts ctx ≡ some o
      → w.mem.rets ctx ≡ some os
      → w.mem.contexts (first xs w.mem.root) ≡ some p
      → p.regs ≡ k
      → (like : Like (h ctx) o) × IsRunning (with_contexts (with_ret w g s) h) ctx xs like.0 os k
  next_lem w g ctx xs c d o p s os k out h apart off switched here ret below regs =
      let n = ne-first g xs w.mem.root (ground arith) in
      let like = found (h ctx) o (switched.bodies ctx ∙ ground arith) in
      let (p', ep, pregs, _, _, _, _, _) =
        found (h (first xs w.mem.root)) p (switched.bodies (first xs w.mem.root) ∙ ground arith) in
      (
        like,
        record {
          ring = off.rest;
          here = like.1;
          ret = ground arith;
          below = (p', ep, pregs ∙ regs);
        },
      )

module _ (cl : Client) (w : World cl.Local) (ctx : Ptr) (xs : List Ptr)
    (c : Context (Kont cl.Local)) (s : Slot) (frame : Frame cl.Local) (b : Base) (t l : cl.Local)
    (g : Ptr) (ch : Channel) (gc : Context (Kont cl.Local)) (gs : Slot) (v : ℕ)
    (on : IsRunning w ctx xs c s (waiting frame b t)) (clean : c.err ≡ none)
    (awaits : Awaits frame ctx) (writes : Writes ch ctx c s) (ne : g ≢ null) (apart : g ≢ ctx)
    (here : w.mem.contexts g ≡ some gc) (quiet : gc.err ≡ none) (ret : w.mem.rets g ≡ some gs)
    (full : gs.value ≡ some v) where
  from_send_back_lem :
      (into : Ptr) (w2 : World cl.Local) (h0 : Ptr → Option (Context (Kont cl.Local)))
      → raw_yield ch ctx v (from_yield ctx g ch) (with_ret w g (record gs { value = none }))
        ≡ ok (switch ctx (from_yield ctx g ch) into) (with_contexts w2 h0)
      → from_send_back ch ctx g w ≡ ok (switch ctx (from_yield ctx g ch) into) (with_contexts w2 h0)
  unfolding from_send_back from_answer
  from_send_back_lem into w2 h0 e =
      rw (dropping, resume_back_lem w g gc gs ne here quiet ret, full, dropping, e)

  -- The generator `ctx` finds `v` in the `ret` of `g`, from which it yields, and hands it on.
  hand_on_run :
      (w' : World cl.Local) × (run cl 2
          (at (arriving (waiting (from_send ctx g ch) (body ctx) l)) w)
        ≡ at (running b t (value (some v))) w')
      × (w'.gens ≡ w.gens)
      × (w'.hook ≡ w.hook)
      × IsOff w'.mem.contexts w.mem.root ctx xs
          (waiting (from_yield ctx g ch) (body ctx) l)
          (record c { ref = sub_word c.ref 1 })
      × IsSwitched
          (update w.mem.contexts ctx (some (record c { ref = sub_word c.ref 1 })))
          ctx
          (waiting (from_yield ctx g ch) (body ctx) l)
          (ctx ∷ (xs ++ w.mem.root ∷ []))
          w'.mem.contexts
  unfolding run step arrive continue come_back raw_yield_now
  hand_on_run =
      let k = waiting frame b t in
      let d = record c { ref = sub_word c.ref 1 } in
      let s' = record s { value = some v } in
      let w1 = with_ret w g (record gs { value = none }) in
      let w2 = with_ret w1 ctx s' in
      let on1 : IsRunning w1 ctx xs c s k = record {
        ring = on.ring;
        here = on.here;
        ret = ground (arith, on.ret);
        below = on.below;
      } in
      let on2 = rerun w2 ctx xs c d s' k refl refl (with_ret-IsRunning w1 ctx xs c s s' k on1) in
      let w3 = with_contexts w2 (update w.mem.contexts ctx (some d)) in
      let (h0, h, popped, swapped, off, switched) =
        off_lem w3 ctx xs d s' k (waiting (from_yield ctx g ch) (body ctx) l) on2 in
      let (c', ec, _, _, err, _, _, _) = off.like in
      let back =
        come_back-Awaits (with_contexts w2 h) c' s' v on.ring.chain.0.0 ec (err ∙ clean)
          (ground arith) refl awaits in
      let handed = from_send_back_lem (first xs w.mem.root) w2 h0 (
        rw (
          raw_yield_lem w1 ctx xs c s ch v (from_yield ctx g ch) on1.ring on1.here on1.ret writes,
          raw_yield_now,
          env-ok w3 on.ring.base.0,
          popped,
        )) in
      (
        with_ret (with_contexts w2 h) ctx (record s' { value = none }),
        rw (handed, swapped, back),
        refl,
        refl,
        off,
        switched,
      )

module _ (cl : Client) (w : World cl.Local) (g ctx : Ptr) (xs : List Ptr)
    (c o : Context (Kont cl.Local)) (s os : Slot) (frame : Frame cl.Local) (b : Base)
    (t tl l : cl.Local) (r : Reply) (ch och : Channel) where
  -- The newest running generator, whose context has no error, was sent to by the generator ctx below
  -- it, from yield_from; ctx was resumed or sent to, its context has no error, and the channel of
  -- yield_from writes the ret of ctx at its type. If the newest one yields v through a channel that
  -- writes its own ret at its type, then in three steps the call that resumed ctx answers with v;
  -- both generators are rings of their own with their places saved, that of ctx in the yield of
  -- yield_from, and with their counts one less, and what waits below ctx is the ring that runs.
  pub yield_from_lem :
      (v : ℕ) (after : AfterYield) (l' : cl.Local) {op : Op cl.Local}
      → IsRunning w g (ctx ∷ xs) c s (waiting (from_send ctx g och) (body ctx) tl)
      → c.err ≡ none
      → w.mem.contexts ctx ≡ some o
      → w.mem.rets ctx ≡ some os
      → o.err ≡ none
      → (p : Context (Kont cl.Local)) × (w.mem.contexts (first xs w.mem.root) ≡ some p)
        × (p.regs ≡ waiting frame b t)
      → Awaits frame ctx
      → Writes och ctx o os
      → cl.next l r ≡ call op l'
      → Yields op g ch v after
      → Writes ch g c s
      → (w' : World cl.Local) × (run cl 3 (at (running (body g) l r) w)
          ≡ at (running b t (value (some v))) w')
        × IsOff w'.mem.contexts w.mem.root ctx xs
            (waiting (from_yield ctx g och) (body ctx) tl)
            (record o { ref = sub_word o.ref 1 })
        × IsOff w'.mem.contexts w.mem.root g xs
            (waiting (in_raw_yield g after) (body g) l')
            (record c { ref = sub_word c.ref 1 })
        × (w'.gens ≡ w.gens)
        × (w'.hook ≡ w.hook)
  unfolding run
  yield_from_lem v after l' on clean oh oret oclean below awaits owrites calls yields writes =
      let k = waiting (in_raw_yield g after) (body g) l' in
      let (h, e, off, switched) =
        yield_step cl w g (ctx ∷ xs) c s l r (waiting (from_send ctx g och) (body ctx) tl) on ch v
          after l' calls yields writes in
      let s' = record s { value = some v } in
      let apart = on.ring.distinct.0 in
      let ((o', _, _, oref, oerr, oloc, opara, oret'), outer) =
        next_lem w g ctx xs (record c { ref = sub_word c.ref 1 })
          (record c { ref = sub_word c.ref 1 }) o below.0 s' os (waiting frame b t) k h apart off
          switched oh oret below.1 below.2 in
      let (c', ec, _, _, err, _, _, _) = off.like in
      let (w', e', gens, hook, off', switched') =
        hand_on_run cl (with_contexts (with_ret w g s') h) ctx xs o' os frame b t tl g och c' s' v
          outer (oerr ∙ oclean) awaits (Writes-same och ctx o o' os oret' owrites) on.ring.chain.0.0
          (ground arith) ec (err ∙ clean) (ground arith) refl in
      (
        w',
        ap (run cl 2) e ∙ e',
        IsOff-like w'.mem.contexts w.mem.root ctx xs (waiting (from_yield ctx g och) (body ctx) tl)
            (record o { ref = sub_word o.ref 1 }) (record o' { ref = sub_word o'.ref 1 })
            (ap (λ n. sub_word n 1) oref, oerr, oloc, opara, oret') off',
        IsOff-same h w'.mem.contexts w.mem.root g (ctx ∷ xs) xs k
            (record c { ref = sub_word c.ref 1 }) (switched'.others g apart ∙ ground arith)
            off'.rest off,
        gens,
        hook,
      )
