-- ===== src/Gen/Panics.antt =====
-- A panic in the closure of a generator: `check_err` of src/detail/gen.rs and the end of `resume_gen`
-- of src/gen_impl.rs.
use generator_rs.Base.{
  ◌≡◌, ◌≢◌, refl, sym, ap, ◌∙◌, true, Option, none, some, List, [], ◌∷◌, ◌++◌, arith, update,
}
use generator_rs.Panic.{ok, Payload}
use generator_rs.Rt.Context.{Ptr, null, Context, Slot, load, store, take_ret}
use generator_rs.Gen.Types.{
  Reply, value, unwind, raise, Client, Frame, in_resume, Base, body, Kont, waiting, finished, World,
}
use generator_rs.Gen.Impl.{get_panic_data, resume_gen_back, resume_back}
use generator_rs.Gen.Machine.{
  come_back, at, Focus, running, continue, perform, arrive, step, run, settle,
}
use generator_rs.Gen.Views.{with_contexts, Ring-update}
use generator_rs.Gen.Handover.{IsOff, IsSwitched}
use generator_rs.Gen.Leave.{Awaits, with_ret}
use generator_rs.Gen.Rounds.{IsRunning, rerun}
use generator_rs.Gen.Ends.{is_error, finish_lem, check_err-set, come_back-panics}

module _ {S : Type 0} where
  -- Off the ring with the error taken out.
  pub IsOff-clear :
      (h : Ptr → Option (Context (Kont S))) (root g : Ptr) (xs : List Ptr) (c d : Context (Kont S))
      {k : Kont S} (off : IsOff h root g xs k c)
      → c ≡ record d { err = c.err }
      → d.err ≡ none
      → IsOff (update h g (some (record (off.like.0) { err = none }))) root g xs k d
  IsOff-clear h root g xs c d off e n =
      let (c', ec, regs, ref, _, local, pa, re) = off.like in
      record {
        rest = Ring-update h root xs g c' (record c' { err = none }) ec refl refl off.rest;
        own = Ring-update h g [] g c' (record c' { err = none }) ec refl refl off.own;
        like = (
          record c' { err = none },
          ground arith,
          regs,
          ref ∙ ap (λ q. q.ref) e,
          sym n,
          local ∙ ap (λ q. q.local_data) e,
          pa ∙ ap (λ q. q.para) e,
          re ∙ ap (λ q. q.ret) e,
        );
      }

module _ (cl : Client) (w : World cl.Local) (g : Ptr) (xs : List Ptr) (c : Context (Kont cl.Local))
    (s : Slot) (frame : Frame cl.Local) (b : Base) (t l : cl.Local) (r : Reply) (e : Payload)
    (on : IsRunning w g xs c s (waiting frame b t)) (raises : cl.next l r ≡ raise e)
    (bad : is_error e ≡ true) where
  pub raise_lem :
      (h : Ptr → Option (Context (Kont cl.Local))) × (step cl (at (running (body g) l r) w)
        ≡ at (Focus.arriving (waiting frame b t)) (with_contexts w h))
      × IsOff h w.mem.root g xs finished (record c { err = some e })
      × IsSwitched
          (update w.mem.contexts g (some (record c { err = some e })))
          g
          finished
          (g ∷ (xs ++ w.mem.root ∷ []))
          h
  unfolding step perform settle
  raise_lem =
      let d = record c { err = some e } in
      let w1 = with_contexts w (update w.mem.contexts g (some d)) in
      let (h, f, off, switched) =
        finish_lem w w1 g xs d s (waiting frame b t) (raise e)
          (check_err-set w g xs c e on.ring on.here bad)
          (rerun w g xs c d s (waiting frame b t) refl refl on) in
      (h, rw (raises, perform) f, off, switched)

  -- A panic other than Cancel and Done in the closure of the newest running generator, which has no
  -- local data, is raised again, in two steps, by the call that resumed it or sent to it; the
  -- generator is off the ring and its error is taken.
  pub panic_lem :
      c.local_data ≡ null
      → Awaits frame g
      → (w' : World cl.Local) × (run cl 2 (at (running (body g) l r) w)
          ≡ at (running b t (unwind e)) w')
        × IsOff w'.mem.contexts w.mem.root g xs finished (record c { err = none })
        × (w'.gens ≡ w.gens)
  unfolding run step arrive continue
  panic_lem local awaits =
      let (h, f, off, _) = raise_lem in
      let (c', ec, _, _, err, lo, _, _) = off.like in
      let back =
        come_back-panics (with_contexts w h) c' e on.ring.chain.0.0 ec err (lo ∙ local) awaits in
      (
        with_contexts w (update h g (some (record c' { err = none }))),
        rw (f, back),
        IsOff-clear h w.mem.root g xs (record c { err = some e }) (record c { err = none }) off refl
            refl,
        refl,
      )

  -- A panic other than Cancel and Done in the closure of the newest running generator, which has
  -- local data and was resumed, is not raised again: in two steps resume answers with what ret
  -- holds, and get_panic_data then gives the panic.
  pub coroutine_panic_lem :
      c.local_data ≢ null
      → frame ≡ in_resume g
      → (w' : World cl.Local) × (run cl 2 (at (running (body g) l r) w)
          ≡ at (running b t (value s.value)) w')
        × IsOff w'.mem.contexts w.mem.root g xs finished (record c { err = some e })
        × ((w'' : World cl.Local) × (get_panic_data g w' ≡ ok (some e) w''))
  unfolding run step arrive continue come_back resume_back resume_gen_back take_ret load store
      get_panic_data
  coroutine_panic_lem local resumes =
      let (h, f, off, _) = raise_lem in
      let (c', ec, _, _, err, lo, _, _) = off.like in
      let away : c'.local_data ≢ null = λ z. local (sym lo ∙ z) in
      let w1 = with_contexts w h in
      let ne = on.ring.chain.0.0 in
      let kept = on.ret in
      (
        with_ret w1 g (record s { value = none }),
        rw (f, resumes) (ground arith),
        off,
        (
          with_ret (with_contexts w (update h g (some (record c' { err = none })))) g
              (record s { value = none }),
          ground arith,
        ),
      )
