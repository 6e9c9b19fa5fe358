-- ===== src/Gen/Cancel.antt =====
-- `cancel` of src/gen_impl.rs, and the panic hook that it puts aside.
use generator_rs.Base.{
  ◌≡◌, ◌≢◌, refl, ◌∙◌, true, false, Option, none, some, List, [], ◌∷◌, ◌++◌, arith, update, is_none,
}
use generator_rs.Panic.{ok, panic, Payload, error, cancel}
use generator_rs.Rt.Context.{Ptr, null, Context, Slot, load, store}
use generator_rs.Gen.Types.{
  Reply, unwind, Op, call, raise, Client, Frame, in_cancel, in_drop, in_raw_yield, AfterYield,
  nothing, then_get, then_take, Base, body, Kont, waiting, finished, GeneratorImpl, World, Hook,
  silent, load_gen,
}
use generator_rs.Gen.Impl
use generator_rs.Gen.Impl.{
  is_done, is_started, resume_gen_back, raw_cancel_back, raw_cancel, cancel_with,
}
use generator_rs.Gen.Yield.{yield_then_back, raw_yield_back}
use generator_rs.Gen.Machine.{
  exec, come_back, at, Focus, running, continue, perform, arrive, step, run, settle, check_err,
}
use generator_rs.Gen.Views.{with_contexts, with_context-ok}
use generator_rs.Gen.Handover.{IsOn, IsOff, IsSwitched, arrive_lem}
use generator_rs.Gen.Sends.{is_done-ok, IsReady, recount}
use generator_rs.Rt.Ring.{first}
use generator_rs.Gen.Rounds.{IsRunning}
use generator_rs.Gen.Ends.{finish_lem, is_error}
use generator_rs.Gen.Panics.{raise_lem, IsOff-clear}

module _ {S : Type 0} where
  pub is_started-ok :
      (w : World S) (g : Ptr) (i : GeneratorImpl S)
      → w.gens g ≡ some i
      → is_started g w ≡ ok (is_none i.f) w
  unfolding is_started load_gen
  is_started-ok w g i e = ground arith

  cancelled :
      (w : World S) (g : Ptr) (after : AfterYield) (c : Context (Kont S))
      → g ≢ null
      → w.mem.contexts g ≡ some c
      → c.ref ≡ 2
      → yield_then_back g after w ≡ panic (error cancel) w
  unfolding yield_then_back raw_yield_back load
  cancelled w g nothing c ne e r = ground arith
  cancelled w g (then_get a) c ne e r = ground arith
  cancelled w g (then_take q) c ne e r = ground arith

  -- `raw_cancel` in the name of code that stands at `l`, up to its switch.
  raw_cancel_lem :
      (w w0 : World S) (g : Ptr) (xs : List Ptr) (c : Context (Kont S)) (i : GeneratorImpl S)
      (s : Slot) (b : Base) (l : S) (frame : Hook → Frame S)
      → IsReady w g xs c i s
      → (h : Ptr → Option (Context (Kont S))) × (continue b l w0 (raw_cancel g frame w)
          ≡ at (Focus.arriving c.regs) (record (with_contexts w h) { hook = silent }))
        × IsOn h w.mem.root g xs (waiting (frame w.hook) b l) (record c { ref = 2 })
        × IsSwitched
            (update w.mem.contexts g (some (record c { ref = 2 })))
            (first xs w.mem.root)
            (waiting (frame w.hook) b l)
            (g ∷ (xs ++ w.mem.root ∷ []))
            h
  unfolding continue raw_cancel
  raw_cancel_lem w w0 g xs c i s b l frame ready =
      let d = record c { ref = 2 } in
      let w1 = record (with_contexts w (update w.mem.contexts g (some d))) { hook = silent } in
      let v = recount w g xs c d i s refl refl ready in
      let (h0, h, go, swapped, on, switched) =
        arrive_lem w1 g xs d v.below.0 (waiting (frame w.hook) b l) v.running v.own v.apart v.here
          v.below.1 in
      (
        h,
        rw
            (
              with_context-ok w g c (λ c. record c { ref = 2 }) ready.own.base.0 ready.here,
              raw_cancel,
              go,
              continue,
            )
            swapped,
        on,
        switched,
      )

-- The calls that cancel a generator: with the frame that they leave.
pub data Cancels {S : Type 0} : Op S → Ptr → (Hook → Frame S) → Type 0 where
  by_cancel : (g : Ptr) → Cancels (Op.cancel g) g (in_cancel g)
  by_drop : (g : Ptr) → Cancels (Op.drop g false) g (λ old. in_drop g old Reply.unit)

module _ {S : Type 0} where
  exec-Cancels :
      (w : World S) (c : Context (Kont S)) (i : GeneratorImpl S) {o : Op S} {g : Ptr}
      {frame : Hook → Frame S}
      → Cancels o g frame
      → g ≢ null
      → w.mem.contexts g ≡ some c
      → w.gens g ≡ some i
      → c.ref ≡ 0
      → i.f ≡ none
      → exec o w ≡ raw_cancel g frame w
  unfolding exec cancel_with Impl.cancel Impl.drop
  exec-Cancels w c i (by_cancel g) ne here gen zero_ref consumed = rw (
    Impl.cancel,
    is_done-ok w g c i ne here gen,
    consumed,
    zero_ref,
    cancel_with,
    is_started-ok w g i gen,
    consumed,
  )
  exec-Cancels w c i (by_drop g) ne here gen zero_ref consumed =
      rw (is_started-ok w g i gen, consumed, is_done-ok w g c i ne here gen, consumed, zero_ref)

module _ (cl : Client) (w : World cl.Local) (g : Ptr) (xs : List Ptr) (c : Context (Kont cl.Local))
    (i : GeneratorImpl cl.Local) (s : Slot) (b : Base) (l l' : cl.Local) (r : Reply)
    {o : Op cl.Local} {frame : Hook → Frame cl.Local} (ready : IsReady w g xs c i s)
    (how : Cancels o g frame) (calls : cl.next l r ≡ call o l') where
  pub cancel-run :
      (after : AfterYield) (t : cl.Local)
      → c.regs ≡ waiting (in_raw_yield g after) (body g) t
      → c.ref ≡ 0
      → i.f ≡ none
      → (h : Ptr → Option (Context (Kont cl.Local))) × (run cl 2 (at (running b l r) w)
          ≡ at
              (running (body g) t (unwind (error cancel)))
              (record (with_contexts w h) { hook = silent }))
        × IsOn h w.mem.root g xs (waiting (frame w.hook) b l') (record c { ref = 2 })
        × IsSwitched
            (update w.mem.contexts g (some (record c { ref = 2 })))
            (first xs w.mem.root)
            (waiting (frame w.hook) b l')
            (g ∷ (xs ++ w.mem.root ∷ []))
            h
  unfolding run step perform arrive continue come_back
  cancel-run after t regs zero_ref consumed =
      let (h, e, on, switched) = raw_cancel_lem w w g xs c i s b l' frame ready in
      let (c', ec, _, ref, _, _, _, _) = on.like in
      let w2 = record (with_contexts w h) { hook = silent } in
      let ne = ready.own.base.0 in
      (
        h,
        rw (
          calls,
          perform,
          exec-Cancels w c i how ne ready.here ready.gen zero_ref consumed,
          e,
          arrive,
          regs,
          come_back,
          cancelled w2 g after c' ne ec ref,
        ),
        on,
        switched,
      )

module _ (cl : Client) (w : World cl.Local) (g : Ptr) (xs : List Ptr) (c : Context (Kont cl.Local))
    (i : GeneratorImpl cl.Local) (s : Slot) (b : Base) (l l' : cl.Local) (r : Reply)
    (ready : IsReady w g xs c i s) (calls : cl.next l r ≡ call (Op.cancel g) l') where
  -- cancel of a generator that is a ring of its own, has started, and waits in a yield with a count
  -- of 0: in two steps its yield raises Cancel; its count is 2, the panic hook is silent, and the
  -- old hook is kept in the frame of the caller.
  pub cancel_lem :
      (after : AfterYield) (t : cl.Local)
      → c.regs ≡ waiting (in_raw_yield g after) (body g) t
      → c.ref ≡ 0
      → i.f ≡ none
      → (w' : World cl.Local) × (run cl 2 (at (running b l r) w)
          ≡ at (running (body g) t (unwind (error cancel))) w')
        × IsOn w'.mem.contexts w.mem.root g xs
            (waiting (in_cancel g w.hook) b l')
            (record c { ref = 2 })
        × (w'.hook ≡ silent)
        × (w'.gens ≡ w.gens)
  cancel_lem after t regs zero_ref consumed =
      let (_, e, on, _) =
        cancel-run cl w g xs c i s b l l' r ready (by_cancel g) calls after t regs zero_ref
          consumed in
      (_, e, on, refl, refl)

module _ (cl : Client) (w : World cl.Local) (g : Ptr) (xs : List Ptr) (c : Context (Kont cl.Local))
    (s : Slot) (old : Hook) (b : Base) (t l : cl.Local) (r : Reply)
    (on : IsRunning w g xs c s (waiting (in_cancel g old) b t)) where
  -- Once the code of the newest running generator, which is being cancelled with a count of 2, has
  -- unwound with Cancel, and its context has no error, cancel returns in two steps with the old hook
  -- in place, and the generator is done.
  pub cancel_back_lem :
      (i : GeneratorImpl cl.Local)
      → cl.next l r ≡ raise (error cancel)
      → c.err ≡ none
      → w.gens g ≡ some i
      → i.f ≡ none
      → c.ref ≡ 2
      → (w' : World cl.Local) × (run cl 2 (at (running (body g) l r) w)
          ≡ at (running b t Reply.unit) w')
        × IsOff w'.mem.contexts w.mem.root g xs finished c
        × (w'.hook ≡ old)
        × (is_done g w' ≡ ok true w')
  unfolding run step perform arrive continue come_back settle check_err raw_cancel_back
      resume_gen_back load
  cancel_back_lem i raises clean gen consumed two =
      let (h, f, off, _) =
        finish_lem w w g xs c s (waiting (in_cancel g old) b t) (raise (error cancel)) refl on in
      let (c', ec, _, ref, err, _, _, _) = off.like in
      let ne = on.ring.chain.0.0 in
      let no_err = err ∙ clean in
      let w' = record (with_contexts w h) { hook = old } in
      (
        w',
        rw (raises, perform, f) (ground arith),
        off,
        refl,
        is_done-ok w' g c' i ne ec gen ∙ rw (consumed, ref, two) refl,
      )

module _ (cl : Client) (w : World cl.Local) (g : Ptr) (xs : List Ptr) (c : Context (Kont cl.Local))
    (s : Slot) (old : Hook) (b : Base) (t l : cl.Local) (r : Reply) (e : Payload)
    (on : IsRunning w g xs c s (waiting (in_cancel g old) b t)) (raises : cl.next l r ≡ raise e)
    (bad : is_error e ≡ true) (local : c.local_data ≡ null) where
  -- If the code of the newest running generator, which has no local data and is being cancelled,
  -- unwinds with a panic other than Cancel and Done, that panic leaves cancel in two steps, and the
  -- panic hook is still the one that was in place inside.
  pub cancel_panic_lem :
      (w' : World cl.Local) × (run cl 2 (at (running (body g) l r) w)
        ≡ at (running b t (unwind e)) w')
      × IsOff w'.mem.contexts w.mem.root g xs finished (record c { err = none })
      × (w'.hook ≡ w.hook)
  unfolding run step arrive continue come_back raw_cancel_back resume_gen_back load store
  cancel_panic_lem =
      let (h, f, off, _) = raise_lem cl w g xs c s (in_cancel g old) b t l r e on raises bad in
      let (c', ec, _, _, err, lo, _, _) = off.like in
      let ne = on.ring.chain.0.0 in
      let unset = lo ∙ local in
      (
        with_contexts w (update h g (some (record c' { err = none }))),
        rw f (ground arith),
        IsOff-clear h w.mem.root g xs (record c { err = some e }) (record c { err = none }) off refl
            refl,
        refl,
      )
