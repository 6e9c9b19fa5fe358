-- ===== src/Gen/Ends.antt =====
-- How a closure ends (src/detail/gen.rs): it returns or it panics, and what the caller sees of it.
use generator_rs.Base.{
  ℕ, ◌≡◌, ◌≢◌, refl, ◌∙◌, Bool, true, false, Option, none, some, List, [], ◌∷◌, ◌++◌, arith, update,
}
use generator_rs.Panic.{◌>>=◌, ok, panic, Payload, error, text, user, Error}
use generator_rs.Rt.Context.{Ptr, null, Context, Slot, load, store, load_ret, store_ret}
use generator_rs.Rt.Ring.{Ring}
use generator_rs.Gen.Types.{
  Reply, value, Action, ret, Client, Frame, Base, body, Kont, waiting, finished, GeneratorImpl,
  World,
}
use generator_rs.Gen.Impl.{with_context, is_done, resume_gen_back, resume_back, send_back}
use generator_rs.Gen.Yield.{top_context}
use generator_rs.Gen.Machine.{
  come_back, at, arriving, running, continue, perform, arrive, step, run, finish, settle, check_err,
  leave_gen,
}
use generator_rs.Gen.Views.{with_contexts, env-ok, top-ok, with_context-ok}
use generator_rs.Gen.Handover.{IsOff, IsSwitched}
use generator_rs.Gen.Sends.{is_done-finished}
use generator_rs.Gen.Leave.{Awaits, by_resume, by_send, with_ret, come_back-Awaits}
use generator_rs.Gen.Rounds.{IsRunning, with_ret-IsRunning, off_lem}

-- `Cancel` and `Done` end a closure without an error.
abbrev pub is_error : Payload → Bool
is_error (error Error.done) = false
is_error (error Error.cancel) = false
is_error e = true

module _ {S : Type 0} where
  -- What is left to do once the end of the closure is recorded.
  pub finish_lem :
      (w0 w : World S) (g : Ptr) (xs : List Ptr) (c : Context (Kont S)) (s : Slot) (k : Kont S)
      (a : Action S)
      → settle g a w0 ≡ ok tt w
      → IsRunning w g xs c s k
      → (h : Ptr → Option (Context (Kont S))) × (finish (body g) a w0
          ≡ at (arriving k) (with_contexts w h))
        × IsOff h w.mem.root g xs finished c
        × IsSwitched w.mem.contexts g finished (g ∷ (xs ++ w.mem.root ∷ [])) h
  unfolding finish leave_gen
  finish_lem w0 w g xs c s k a e on =
      let (h0, h, popped, swapped, off, switched) = off_lem w g xs c s k finished on in
      (
        h,
        rw
            (
              finish,
              e,
              env-ok w on.ring.base.0,
              leave_gen,
              top-ok w (g ∷ xs) on.ring,
              leave_gen,
              popped,
            )
            swapped,
        off,
        switched,
      )

  pub settle-ret :
      (w : World S) (g : Ptr) (s : Slot) (v : ℕ)
      → w.mem.rets g ≡ some s
      → settle g (ret v) w ≡ ok tt (with_ret w g (record s { value = some v }))
  unfolding settle load_ret store_ret
  settle-ret w g s v e = ground arith

  set_err :
      (w : World S) (g : Ptr) (xs : List Ptr) (c : Context (Kont S)) (e : Payload)
      → Ring w.mem.contexts w.mem.root (g ∷ xs)
      → w.mem.contexts g ≡ some c
      → (do ctx ← top_context; with_context ctx λ c. record c { err = some e }) w
        ≡ ok tt (with_contexts w (update w.mem.contexts g (some (record c { err = some e }))))
  unfolding top_context
  set_err w g xs c e ring here =
      rw (env-ok w ring.base.0, top_context, top-ok w (g ∷ xs) ring)
        (with_context-ok w g c (λ c. record c { err = some e }) ring.chain.0.0 here)

  pub check_err-set :
      (w : World S) (g : Ptr) (xs : List Ptr) (c : Context (Kont S)) (e : Payload)
      → Ring w.mem.contexts w.mem.root (g ∷ xs)
      → w.mem.contexts g ≡ some c
      → is_error e ≡ true
      → check_err e w
        ≡ ok tt (with_contexts w (update w.mem.contexts g (some (record c { err = some e }))))
  unfolding check_err
  check_err-set w g xs c (error Error.done) ring here x = cc
  check_err-set w g xs c (error Error.cancel) ring here x = cc
  check_err-set w g xs c (error Error.type_err) ring here x = set_err w g xs c _ ring here
  check_err-set w g xs c (error Error.stack_err) ring here x = set_err w g xs c _ ring here
  check_err-set w g xs c (error Error.context_err) ring here x = set_err w g xs c _ ring here
  check_err-set w g xs c (text m) ring here x = set_err w g xs c _ ring here
  check_err-set w g xs c (user n) ring here x = set_err w g xs c _ ring here

  -- The caller's `resume_gen` finds the panic, and takes it.
  pub come_back-panics :
      (w : World S) (c : Context (Kont S)) (e : Payload) {g : Ptr} {frame : Frame S}
      → g ≢ null
      → w.mem.contexts g ≡ some c
      → c.err ≡ some e
      → c.local_data ≡ null
      → Awaits frame g
      → come_back frame w
        ≡ panic e (with_contexts w (update w.mem.contexts g (some (record c { err = none }))))
  unfolding come_back resume_back resume_gen_back send_back load store
  come_back-panics w c e ne ec ee local (by_resume g) = ground arith
  come_back-panics w c e ne ec ee local (by_send g) = ground arith

module _ (cl : Client) (w : World cl.Local) (g : Ptr) (xs : List Ptr) (c : Context (Kont cl.Local))
    (s : Slot) (frame : Frame cl.Local) (b : Base) (t l : cl.Local) (r : Reply)
    (on : IsRunning w g xs c s (waiting frame b t)) (awaits : Awaits frame g) where
  -- The newest running generator was resumed or sent to, its context has no error and a count of 1,
  -- and its closure, consumed before, returns v: in two steps the call that resumed it answers with
  -- v, and the generator is off the ring and done.
  pub return_lem :
      (v : ℕ) (i : GeneratorImpl cl.Local)
      → cl.next l r ≡ ret v
      → c.err ≡ none
      → w.gens g ≡ some i
      → i.f ≡ none
      → c.ref ≡ 1
      → (w' : World cl.Local) × (run cl 2 (at (running (body g) l r) w)
          ≡ at (running b t (value (some v))) w')
        × IsOff w'.mem.contexts w.mem.root g xs finished c
        × (is_done g w' ≡ ok true w')
  unfolding run step perform arrive continue
  return_lem v i returns clean gen consumed one =
      let s' = record s { value = some v } in
      let w1 = with_ret w g s' in
      let (h, e, off, _) =
        finish_lem w w1 g xs c s' (waiting frame b t) (ret v) (settle-ret w g s v on.ret)
          (with_ret-IsRunning w g xs c s s' (waiting frame b t) on) in
      let (c', ec, _, ref, err, _, _, _) = off.like in
      let back =
        come_back-Awaits (with_contexts w1 h) c' s' v on.ring.chain.0.0 ec (err ∙ clean)
          (ground arith) refl awaits in
      let w' = with_ret (with_contexts w1 h) g (record s { value = none }) in
      (
        w',
        rw (returns, perform, e, back),
        off,
        is_done-finished w' g c' i on.ring.chain.0.0 ec gen consumed (ground (arith, ref, one)),
      )
