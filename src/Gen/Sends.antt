-- ===== src/Gen/Sends.antt =====
-- The way into a generator: `resume`, `raw_send` and `send` of src/gen_impl.rs, up to the generator's
-- next own instruction.
use generator_rs.Base.{
  ℕ, ◌%◌, ◌≡◌, ◌≢◌, refl, ◌∙◌, true, false, not, ◌&&◌, Option, none, some, List, [], ◌∷◌, ◌++◌,
  arith, ◌==◌, update, add_word, has, is_none,
}
use generator_rs.Panic.{ok}
use generator_rs.Rt.Context.{Ptr, null, Context, Slot, load, load_para, store_para}
use generator_rs.Rt.Ring.{first, Ring, ne-first}
use generator_rs.Gen.Types.{
  Reply, Op, call, Client, Frame, in_resume, in_send, Base, Kont, waiting, GeneratorImpl, World,
  load_gen, on_mem,
}
use generator_rs.Gen.Impl.{is_done, is_started, raw_send, resume, send, enter}
use generator_rs.Gen.Machine.{exec, at, arriving, running, continue, perform, step}
use generator_rs.Gen.Views.{with_contexts, with_context-ok, Ring-update}
use generator_rs.Gen.Handover.{IsOn, IsSwitched, arrive_lem}

-- The calls that resume a generator, with the frame that they leave and what they send.
pub data Enters {S : Type 0} : Op S → Ptr → Frame S → Option (Option ℕ) → Type 0 where
  by_resume : (g : Ptr) → Enters (Op.resume g) g (in_resume g) none
  by_raw_send : (g : Ptr) (p : Option ℕ) → Enters (Op.raw_send g p) g (in_resume g) (some p)
  by_send : (g : Ptr) (v : ℕ) → Enters (Op.send g v) g (in_send g) (some (some v))

-- The generator's `para` once it is sent.
abbrev pub carried : Option (Option ℕ) → Option ℕ → Option ℕ
carried none old = old
carried (some p) old = p

abbrev pub sent_paras : (Ptr → Option Slot) → Ptr → Slot → Option (Option ℕ) → Ptr → Option Slot
sent_paras paras g s none = paras
sent_paras paras g s (some p) = update paras g (some (record s { value = p }))

pub sent-para :
    (paras : Ptr → Option Slot) (g : Ptr) (s : Slot) (m : Option (Option ℕ))
    → paras g ≡ some s
    → sent_paras paras g s m g ≡ some (record s { value = carried m s.value })
sent-para paras g s none e = e
sent-para paras g s (some p) e = ground arith

module _ {S : Type 0} where
  abbrev pub sent : World S → Ptr → Slot → Option (Option ℕ) → World S
  sent w g s m = record w { mem = record (w.mem) { paras = sent_paras w.mem.paras g s m } }

  -- A generator `g` with context `c` is suspended, and `xs` run.
  pub record IsReady (w : World S) (g : Ptr) (xs : List Ptr) (c : Context (Kont S))
      (i : GeneratorImpl S) (s : Slot) : Type 0 where
    pub running : Ring w.mem.contexts w.mem.root xs
    pub own : Ring w.mem.contexts g []
    pub apart : has g (xs ++ w.mem.root ∷ []) ≡ false
    pub here : w.mem.contexts g ≡ some c
    pub gen : w.gens g ≡ some i
    pub para : w.mem.paras g ≡ some s
    pub below : (p : Context (Kont S)) × (w.mem.contexts (first xs w.mem.root) ≡ some p)

  pub is_done-ok :
      (w : World S) (g : Ptr) (c : Context (Kont S)) (i : GeneratorImpl S)
      → g ≢ null
      → w.mem.contexts g ≡ some c
      → w.gens g ≡ some i
      → is_done g w ≡ ok (is_none i.f && not (c.ref % 4 == 0)) w
  unfolding is_done is_started load_gen load
  is_done-ok w g c i ne ec ei = ground arith

  pub is_done-finished :
      (w : World S) (g : Ptr) (c : Context (Kont S)) (i : GeneratorImpl S)
      → g ≢ null
      → w.mem.contexts g ≡ some c
      → w.gens g ≡ some i
      → i.f ≡ none
      → (c.ref % 4 == 0) ≡ false
      → is_done g w ≡ ok true w
  is_done-finished w g c i ne ec ei z r = is_done-ok w g c i ne ec ei ∙ ground arith

  pub load_para-ok :
      (w : World S) (g : Ptr) (s : Slot) → w.mem.paras g ≡ some s → on_mem (load_para g) w ≡ ok s w
  unfolding load_para
  load_para-ok w g s e = ground arith

  exec-Enters :
      (w : World S) (g : Ptr) (xs : List Ptr) (c : Context (Kont S)) (i : GeneratorImpl S)
      (s : Slot) {o : Op S} {frame : Frame S} {m : Option (Option ℕ)}
      → IsReady w g xs c i s
      → (is_none i.f && not (c.ref % 4 == 0)) ≡ false
      → Enters o g frame m
      → exec o w ≡ enter g frame (sent w g s m)
  unfolding exec resume raw_send send store_para
  exec-Enters w g xs c i s v live (by_resume _) =
      rw (is_done-ok w g c i v.own.base.0 v.here v.gen, resume, live)
  exec-Enters w g xs c i s v live (by_raw_send _ p) =
      rw (is_done-ok w g c i v.own.base.0 v.here v.gen, raw_send, live, load_para-ok w g s v.para)
  exec-Enters w g xs c i s v live (by_send _ x) =
      rw (is_done-ok w g c i v.own.base.0 v.here v.gen, raw_send, live, load_para-ok w g s v.para)

  -- The same with a new count.
  pub recount :
      (w : World S) (g : Ptr) (xs : List Ptr) (c d : Context (Kont S)) (i : GeneratorImpl S)
      (s : Slot)
      → d.parent ≡ c.parent
      → d.child ≡ c.child
      → IsReady w g xs c i s
      → IsReady (with_contexts w (update w.mem.contexts g (some d))) g xs d i s
  recount w g xs c d i s ep ec v =
      let o = ne-first g xs w.mem.root v.apart in
      record {
        running = Ring-update w.mem.contexts w.mem.root xs g c d v.here ep ec v.running;
        own = Ring-update w.mem.contexts g [] g c d v.here ep ec v.own;
        apart = v.apart;
        here = ground arith;
        gen = v.gen;
        para = v.para;
        below = (v.below.0, ground (arith, v.below.1));
      }

  -- The way in, in the name of code that stands at `l`.
  pub enter_lem :
      (w : World S) (g : Ptr) (xs : List Ptr) (c : Context (Kont S)) (i : GeneratorImpl S)
      (s : Slot) (b : Base) (l : S) (frame : Frame S) (w0 : World S)
      → IsReady w g xs c i s
      → (h : Ptr → Option (Context (Kont S))) × (continue b l w0 (enter g frame w)
          ≡ at (arriving c.regs) (with_contexts w h))
        × IsOn h w.mem.root g xs (waiting frame b l) (record c { ref = add_word c.ref 1 })
        × IsSwitched
            (update w.mem.contexts g (some (record c { ref = add_word c.ref 1 })))
            (first xs w.mem.root)
            (waiting frame b l)
            (g ∷ (xs ++ w.mem.root ∷ []))
            h
  unfolding enter continue
  enter_lem w g xs c i s b l frame w0 ready =
      let d = record c { ref = add_word c.ref 1 } in
      let v = recount w g xs c d i s refl refl ready in
      let w1 = with_contexts w (update w.mem.contexts g (some d)) in
      let (h0, h, go, swapped, on, switched) =
        arrive_lem w1 g xs d v.below.0 (waiting frame b l) v.running v.own v.apart v.here
          v.below.1 in
      (
        h,
        rw
            (
              with_context-ok w g c (λ c. record c { ref = add_word c.ref 1 }) ready.own.base.0
                  ready.here,
              enter,
              go,
              continue,
            )
            swapped,
        on,
        switched,
      )

module _ (cl : Client) (w : World cl.Local) (g : Ptr) (xs : List Ptr) (c : Context (Kont cl.Local))
    (i : GeneratorImpl cl.Local) (s : Slot) (b : Base) (l l' : cl.Local) (r : Reply)
    {o : Op cl.Local} {frame : Frame cl.Local} {m : Option (Option ℕ)}
    (ready : IsReady w g xs c i s) (live : (is_none i.f && not (c.ref % 4 == 0)) ≡ false)
    (how : Enters o g frame m) (calls : cl.next l r ≡ call o l') where
  pub step_lem :
      (h : Ptr → Option (Context (Kont cl.Local))) × (step cl (at (running b l r) w)
        ≡ at (arriving c.regs) (with_contexts (sent w g s m) h))
      × IsOn h w.mem.root g xs (waiting frame b l') (record c { ref = add_word c.ref 1 })
      × IsSwitched
          (update w.mem.contexts g (some (record c { ref = add_word c.ref 1 })))
          (first xs w.mem.root)
          (waiting frame b l')
          (g ∷ (xs ++ w.mem.root ∷ []))
          h
  unfolding step perform
  step_lem =
      let w1 = sent w g s m in
      let s' = record s { value = carried m s.value } in
      let after : IsReady w1 g xs c i s' = record {
        running = ready.running;
        own = ready.own;
        apart = ready.apart;
        here = ready.here;
        gen = ready.gen;
        para = sent-para w.mem.paras g s m ready.para;
        below = ready.below;
      } in
      let (h, go, on, switched) = enter_lem w1 g xs c i s' b l' frame w after in
      (h, rw (calls, perform, exec-Enters w g xs c i s ready live how) go, on, switched)
