-- ===== src/Overflow/Signals.antt =====
-- A stack overflow reaches the code that has resumed the generator; another fault is given back.
use generator_rs.Base.{
  ℕ, ◌≡◌, ◌≢◌, ◌⊎◌, inl, inr, refl, ◌∙◌, true, false, Option, none, some, List, [], ◌∷◌, arith,
  update, sub_word,
}
use generator_rs.Panic.{error, text, assertion, Error, M, ok, panic}
use generator_rs.Rt.Context.{Ptr, null, Context, Slot}
use generator_rs.Rt.Env.{guard_current, pop_context}
use generator_rs.Rt.Ring.{first, last, Ring}
use generator_rs.Rt.Search.{guard_current_lem, is_generator_lem}
use generator_rs.Gen.Types.{unwind, Client, Frame, Base, Kont, waiting, finished, World, on_mem}
use generator_rs.Gen.Machine.{
  Machine, at, crashed, arriving, running, step, arrive, continue, leave_gen,
}
use generator_rs.Gen.Views.{with_contexts, env-ok, top-ok, on_mem-ok, with_context-ok}
use generator_rs.Gen.Handover.{IsOff}
use generator_rs.Gen.Leave.{Awaits}
use generator_rs.Gen.Rounds.{IsRunning, rerun, off_lem}
use generator_rs.Gen.Ends.{come_back-panics}
use generator_rs.Gen.Panics.{IsOff-clear}
use generator_rs.Gen.Impl.{env, with_context}
use generator_rs.Gen.Yield.{top_context}
use generator_rs.Gen.Outside.{IsIdle, IsIdle-Ring, env-IsIdle}
use generator_rs.Overflow.Unix.{
  Signals, Process, init, init_once, contains, in_world, again, signal_handler, handled, handler,
  delivered,
}

module _ {S : Type 0} where
  pub guard-ok :
      (w : World S) (page g : ℕ) (xs : List Ptr) (c : Context (Kont S))
      → Ring w.mem.contexts w.mem.root (g ∷ xs)
      → w.mem.contexts (last g xs) ≡ some c
      → on_mem (guard_current page w.mem.root) w
        ≡ ok (sub_word c.stack_guard.0 page, c.stack_guard.1) w
  guard-ok w page g xs c ring e =
      on_mem-ok (guard_current page w.mem.root) w
        (guard_current_lem w.mem w.mem.root g xs page c ring e)

  in_world-ok :
      {A : Type 0} (f : M (World S) A) (p : Process S) {a : A} {w : World S}
      → f p.world ≡ ok a w
      → in_world f p ≡ ok a (record p { world = w })
  in_world-ok f p e = rw (e, in_world)

  -- The handler's own write of the error, and its `yield_now`.
  top_context-ok :
      (w : World S) (g : Ptr) (xs : List Ptr)
      → Ring w.mem.contexts w.mem.root (g ∷ xs)
      → top_context w ≡ ok g w
  unfolding top_context
  top_context-ok w g xs ring = rw (env-ok w ring.base.0, top_context, top-ok w (g ∷ xs) ring)

  leave_gen-ok :
      (w : World S) (g : Ptr) (xs : List Ptr) (h0 : Ptr → Option (Context (Kont S)))
      → Ring w.mem.contexts w.mem.root (g ∷ xs)
      → on_mem (pop_context w.mem.root g) w ≡ ok (first xs w.mem.root) (with_contexts w h0)
      → leave_gen w ≡ ok (g, first xs w.mem.root) (with_contexts w h0)
  unfolding leave_gen
  leave_gen-ok w g xs h0 ring popped =
      rw (env-ok w ring.base.0, leave_gen, top-ok w (g ∷ xs) ring, leave_gen, popped)

module _ {S : Type 0} (p : Process S) (g : Ptr) (xs : List Ptr) (c : Context (Kont S)) (s : Slot)
    (k : Kont S) (page signum addr : ℕ) (on : IsRunning p.world g xs c s k)
    (oldest : Context (Kont S)) (here : p.world.mem.contexts (last g xs) ≡ some oldest) where
  abbrev guard : ℕ × ℕ
  guard = (sub_word oldest.stack_guard.0 page, oldest.stack_guard.1)

  inside_lem :
      contains guard addr ≡ true
      → (h : Ptr → Option (Context (Kont S))) × ((m : Machine S)
          → handled (signal_handler page signum addr p) m
            ≡ at (arriving k) (with_contexts p.world h))
        × IsOff h p.world.mem.root g xs finished (record c { err = some (error Error.stack_err) })
  unfolding signal_handler handled
  inside_lem inside =
      let w = p.world in
      let d = record c { err = some (error Error.stack_err) } in
      let f = λ (q : Context (Kont S)). record q { err = some (error Error.stack_err) } in
      let w1 = with_contexts w (update w.mem.contexts g (some d)) in
      let on' = rerun w g xs c d s k refl refl on in
      let (h0, h, popped, swapped, off, _) = off_lem w1 g xs d s k finished on' in
      let signals = record (p.signals) { blocked = update p.signals.blocked signum false } in
      (
        h,
        λ m.
            rw
              (
                in_world-ok env p (env-ok w on.ring.base.0),
                signal_handler,
                in_world-ok (on_mem (guard_current page w.mem.root)) p
                    (guard-ok w page g xs oldest on.ring here),
                inside,
                in_world-ok top_context p (top_context-ok w g xs on.ring),
                signal_handler,
                in_world-ok (with_context g f) p
                    (with_context-ok w g c f on.ring.chain.0.0 on.here),
                signal_handler,
                in_world-ok leave_gen (record { world = w1; signals = signals })
                    (leave_gen-ok w1 g xs h0 on'.ring popped),
                handled,
              )
              swapped,
        off,
      )

  outside_lem :
      contains guard addr ≡ false
      → signal_handler page signum addr p
        ≡ ok again (record p {
          signals = record (p.signals) {
            actions = update p.signals.actions signum p.signals.sig_action;
          };
        })
  unfolding signal_handler
  outside_lem outside = rw (
    in_world-ok env p (env-ok p.world on.ring.base.0),
    signal_handler,
    in_world-ok (on_mem (guard_current page p.world.mem.root)) p
        (guard-ok p.world page g xs oldest on.ring here),
    outside,
  )

module _ (cl : Client) (p : Process cl.Local) (g : Ptr) (xs : List Ptr)
    (c : Context (Kont cl.Local)) (s : Slot) (frame : Frame cl.Local) (b : Base) (t : cl.Local)
    (page signum addr : ℕ) (on : IsRunning p.world g xs c s (waiting frame b t))
    (awaits : Awaits frame g) (plain : c.local_data ≡ null) (oldest : Context (Kont cl.Local))
    (here : p.world.mem.contexts (last g xs) ≡ some oldest) where
  -- A fault at an address between the stack guard of the oldest running generator, less a page, and
  -- its end: the handler switches away from the newest one, which was resumed or sent to and has no
  -- local data, and the call that did so panics with StackErr; the generator is off the ring.
  pub overflow_lem :
      contains (sub_word oldest.stack_guard.0 page, oldest.stack_guard.1) addr ≡ true
      → (w' : World cl.Local) × ((m : Machine cl.Local)
          → step cl (handled (signal_handler page signum addr p) m)
            ≡ at (running b t (unwind (error Error.stack_err))) w')
        × IsOff w'.mem.contexts p.world.mem.root g xs finished (record c { err = none })
        × (w'.gens ≡ p.world.gens)
  unfolding step arrive continue
  overflow_lem inside =
      let w = p.world in
      let e = error Error.stack_err in
      let (h, f, off) =
        inside_lem p g xs c s (waiting frame b t) page signum addr on oldest here inside in
      let (c', ec, _, _, err, lo, _, _) = off.like in
      let back =
        come_back-panics (with_contexts w h) c' e on.ring.chain.0.0 ec err (lo ∙ plain) awaits in
      (
        with_contexts w (update h g (some (record c' { err = none }))),
        λ m. rw (f m, back),
        IsOff-clear h w.mem.root g xs (record c { err = some e }) (record c { err = none }) off refl
            refl,
        refl,
      )

delivered-handler :
    {S : Type 0} (others : ℕ → Process S → Machine S) (page signum addr : ℕ) (p : Process S)
    (m : Machine S)
    → p.signals.actions signum ≡ handler
    → delivered others page signum addr p m ≡ handled (signal_handler page signum addr p) m
unfolding delivered
delivered-handler others page signum addr p m e = rw (delivered, e)

module _ {S : Type 0} (w : World S) (s : Signals) (sigsegv sigbus page signum addr : ℕ)
    (first_time : s.is_init ≡ false) where
  abbrev started : Process S
  started = record { world = w; signals = init_once sigsegv sigbus s }

  -- `SIG_ACTION` is written twice.
  init_once-saved :
      sigsegv ≢ sigbus
      → ((init_once sigsegv sigbus s).sig_action ≡ s.actions sigbus)
        × ((init_once sigsegv sigbus s).blocked ≡ s.blocked)
  unfolding init_once init
  init_once-saved ne = rw first_time (ground arith, refl)

  -- Once init_once has installed the handler for two different signals, a fault in a generator at
  -- another address is given back, but to the action that SIGBUS had before, whichever of the two
  -- signals it is; the thread is as it was.
  pub given_back_lem :
      (g : Ptr) (xs : List Ptr) (c oldest : Context (Kont S)) (q : Slot) (k : Kont S)
      → sigsegv ≢ sigbus
      → IsRunning w g xs c q k
      → w.mem.contexts (last g xs) ≡ some oldest
      → contains (sub_word oldest.stack_guard.0 page, oldest.stack_guard.1) addr ≡ false
      → (s' : Signals) × (signal_handler page signum addr started
          ≡ ok again (record { world = w; signals = s' }))
        × (s'.actions signum ≡ s.actions sigbus)
        × (s'.blocked ≡ s.blocked)
  given_back_lem g xs c oldest q k ne on here outside = (
    _,
    outside_lem started g xs c q k page signum addr on oldest here outside,
    ground (arith, (init_once-saved ne).0),
    (init_once-saved ne).1,
  )

  installed :
      (signum ≡ sigsegv) ⊎ (signum ≡ sigbus) → (init_once sigsegv sigbus s).actions signum ≡ handler
  unfolding init_once init
  installed (inl e) = rw first_time (ground (arith, e))
  installed (inr e) = rw first_time (ground (arith, e))

  -- Once init_once has installed the handler for the two signals, a fault that is delivered as one
  -- of them to a thread that runs no generator, whether it has used the crate before or not, aborts
  -- the process, whatever the other actions do; the thread has got a root context if it had none.
  pub no_generator_lem :
      (w' : World S)
      → IsIdle w w'
      → (signum ≡ sigsegv) ⊎ (signum ≡ sigbus)
      → (others : ℕ → Process S → Machine S) (m : Machine S)
      → delivered others page signum addr started m ≡ at crashed w'
  unfolding signal_handler handled guard_current
  no_generator_lem w' idle which others m =
      let ring = IsIdle-Ring idle in
      let (_, _, b, _, _, _, q, iff) = is_generator_lem w'.mem w'.mem.root [] ring in
      let behind = record started { world = w' } in
      let no_guard : guard_current page w'.mem.root w'.mem ≡ panic (text assertion) w'.mem =
        rw (q, iff.1 refl) refl in
      let refused : in_world (on_mem (guard_current page w'.mem.root)) behind
          ≡ panic (text assertion) behind =
        rw (in_world, on_mem, no_guard) refl in
      let aborts : handled (signal_handler page signum addr started) m ≡ at crashed w' =
        rw (in_world-ok env started (env-IsIdle idle), signal_handler, refused) in
      delivered-handler others page signum addr started m (installed which) ∙ aborts
