-- ===== src/Gen/Machine.antt =====
-- A thread that runs code of a client, and the generators that this makes, one call or one switch a
-- step: the whole interface (`exec`), src/detail/gen.rs (`enter_gen`, `leave_gen`), and
-- `RegContext::swap`.
use generator_rs.Base.{ℕ, zero, suc, true, Option, none, some, if◌then◌else◌}
use generator_rs.Panic.{
  Payload, text, unwrap_none, Error, Outcome, M, ok, panic, fault, pure, ◌>>=◌, ◌>>◌,
}
use generator_rs.Rt.Context.{Ptr, Context, Memory, load, store, store_ret}
use generator_rs.Rt.Context
use generator_rs.Rt.Env.{top, pop_context}
use generator_rs.Gen.Types
use generator_rs.Gen.Types.{
  Reply, Closure, Op, Action, Client, Hook, filtered, Channel, typed, scoped, nothing, then_get,
  then_take, Frame, Base, Kont, zeroed, entry, waiting, finished, GeneratorImpl, World, Control,
  reply, switch, on_mem, load_gen, store_gen,
}
use generator_rs.Gen.Impl
use generator_rs.Gen.Impl.{with_context, env}
use generator_rs.Gen.Yield

module _ {S : Type 0} where
  abbrev pub answer : {A : Type 0} → (A → Reply) → M (World S) A → M (World S) (Control S)
  answer f m = do a ← m; pure (reply (f a))

  abbrev pub quietly : M (World S) (Unit {0}) → M (World S) (Control S)
  quietly m = do m; pure (reply Reply.unit)

  -- A call of the interface, up to its switch.
  unfoldable pub exec : Op S → M (World S) (Control S)
  -- `Gn::new_opt`: a fresh generator, its typed channel, and its code.
  exec (Op.new_opt at bottom a t f) = do
    Impl.new at bottom a t
    Impl.init_context at
    Impl.init_code at f
  exec (Op.new_scoped_opt at bottom a t f) = do Impl.new at bottom a t; Impl.init_code at (f at)
  exec (Op.init_code g f) = Impl.init_code g f
  exec (Op.scoped_init g f) = Impl.init_code g (f g)
  exec (Op.set_para g v) = quietly (Impl.set_para g v)
  exec (Op.set_local_data g p) = quietly (Impl.set_local_data g p)
  exec (Op.get_local_data g) = answer Reply.word (Impl.get_local_data g)
  exec (Op.get_panic_data g) = answer Reply.payload (Impl.get_panic_data g)
  exec (Op.resume g) = Impl.resume g
  exec (Op.raw_send g p) = Impl.raw_send g p (Frame.in_resume g) (pure (reply (Reply.value none)))
  exec (Op.send g v) = Impl.send g v
  exec (Op.cancel g) = Impl.cancel g
  exec (Op.is_done g) = answer Reply.bool (Impl.is_done g)
  exec (Op.stack_usage g) = answer (λ u. Reply.words u.0 u.1) (Impl.stack_usage g)
  exec (Op.drop g panicking) = Impl.drop g panicking Reply.unit
  exec Op.done = Yield.done
  exec (Op.yield_with t v) = Yield.yield_then (typed t t) v nothing
  exec (Op.get_yield a) = answer Reply.value (Yield.get_yield a)
  exec (Op.yield_ a t v) = Yield.yield_then (typed a t) v (then_get a)
  exec (Op.yield_from a t g) = Yield.yield_from (typed a t) g
  exec (Op.co_yield_with t v) = Yield.co_yield_with t v
  exec (Op.co_get_yield a) = answer Reply.value (Yield.co_get_yield a)
  exec (Op.co_set_para a v) = quietly (Yield.co_set_para a v)
  exec Op.is_generator = answer Reply.bool Yield.is_generator
  exec Op.thread_local_data = answer Reply.word Yield.thread_local_data
  exec (Op.scope_yield_with g v) = Yield.yield_then (scoped g) v nothing
  exec (Op.scope_get_yield g) = answer Reply.value (on_mem (Context.take_para g))
  exec (Op.scope_yield g v) = Yield.yield_then (scoped g) v (then_take g)
  exec (Op.scope_yield_from g from) = Yield.yield_from (scoped g) from

  -- The rest of a function, when its switch comes back.
  unfoldable pub come_back : Frame S → M (World S) (Control S)
  come_back (Frame.in_resume g) = answer Reply.value (Impl.resume_back g)
  come_back (Frame.in_send g) = Impl.send_back g
  come_back (Frame.in_cancel g old) = quietly (Impl.raw_cancel_back g old)
  come_back (Frame.in_init g old f) =
      quietly (do Impl.raw_cancel_back g old; Impl.init_code_rest g f)
  come_back (Frame.in_drop g old r) = do
    Impl.raw_cancel_back g old
    Impl.drop_rest g
    pure (reply r)
  come_back (Frame.in_raw_yield ctx after) = Yield.yield_then_back ctx after
  come_back Frame.in_co_yield = pure (reply Reply.unit)
  come_back (Frame.from_send ctx g ch) = Yield.from_send_back ch ctx g
  come_back (Frame.from_yield ctx g ch) = Yield.from_yield_back ch ctx g

  -- `catch_unwind_filter` puts its hook in once.
  unfoldable pub install_filter : M (World S) (Unit {0})
  install_filter w =
      if w.filter_on then ok tt w else ok tt (record w { filter_on = true; hook = filtered w.hook })

  -- `gen_init_impl` up to the call of the closure: `self.f` is consumed.
  unfoldable pub enter_gen : Ptr → M (World S) (Option (Closure S))
  enter_gen g = do
    install_filter
    i ← Types.load_gen g
    store_gen g (record i { f = none })
    pure i.f

  -- `check_err`: `Cancel` and `Done` are no errors.
  unfoldable pub check_err : Payload → M (World S) (Unit {0})
  check_err (Payload.error Error.cancel) w = ok tt w
  check_err (Payload.error Error.done) w = ok tt w
  check_err e w = (do ctx ← Yield.top_context; with_context ctx λ c. record c { err = some e }) w

  -- How the closure ended.
  unfoldable pub settle : Ptr → Action S → M (World S) (Unit {0})
  settle g (Action.ret v) w =
      (do s ← on_mem (Context.load_ret g); on_mem (store_ret g (record s { value = some v }))) w
  settle g (Action.raise e) w = check_err e w
  settle g (Action.call o s) w = fault

  -- `yield_now`, the last thing that a generator does: the two contexts of its switch.
  unfoldable pub leave_gen : M (World S) (Ptr × Ptr)
  leave_gen = do
    root ← env
    cur ← on_mem (top root)
    parent ← on_mem (pop_context root cur)
    pure (cur, parent)

-- Where control is.
pub data Focus (S : Type 0) : Type 0 where
  -- Code of the client is about to go on with an answer.
  running : Base → S → Reply → Focus S
  -- Registers have been loaded.
  arriving : Kont S → Focus S
  -- The thread's own code has returned, or a panic has left it.
  returned : ℕ → Focus S
  uncaught : Payload → Focus S
  -- Undefined behaviour, or an abort of the process.
  crashed : Focus S

pub record Machine (S : Type 0) : Type 0 where
  pub focus : Focus S
  pub world : World S

module _ {S : Type 0} where
  abbrev pub at : Focus S → World S → Machine S
  at f w = record { focus = f; world = w }

  -- `RegContext::swap`: the running code is saved in `out`, and what `into` has saved goes on.
  unfoldable pub swap : (out : Ptr) → Kont S → (into : Ptr) → World S → Machine S
  swap out k into w =
      elim ((do with_context out λ c. record c { regs = k }; c ← on_mem (load into); pure c.regs)
        w) [ ok k' w' ↦ at (arriving k') w' | panic e w' ↦ at crashed w' | fault ↦ at crashed w ]

  -- The library goes on in the name of the client's code `s`.
  unfoldable pub continue : Base → S → World S → Outcome (World S) (Control S) → Machine S
  continue b s w0 (ok (reply r) w) = at (running b s r) w
  continue b s w0 (ok (switch out frame into) w) = swap out (waiting frame b s) into w
  continue b s w0 (panic e w) = at (running b s (Reply.unwind e)) w
  continue b s w0 fault = at crashed w0

  -- The end of a closure, or of the thread.
  unfoldable pub finish : Base → Action S → World S → Machine S
  finish Base.main (Action.ret v) w = at (returned v) w
  finish Base.main (Action.raise e) w = at (uncaught e) w
  finish Base.main (Action.call o s) w = at crashed w
  finish (Base.body g) a w = elim ((do settle g a; leave_gen) w) [
    | ok (cur, parent) w' ↦ swap cur finished parent w'
    | panic e w' ↦ at crashed w'
    | fault ↦ at crashed w
  ]

  unfoldable pub perform : Base → Action S → World S → Machine S
  perform b (Action.call o s) w = continue b s w (exec o w)
  perform b (Action.ret v) w = finish b (Action.ret v) w
  perform b (Action.raise e) w = finish b (Action.raise e) w

  -- `f.take().unwrap()` of a closure that is not there is a panic inside the `catch_unwind`.
  unfoldable pub start : Ptr → World S → Outcome (World S) (Option (Closure S)) → Machine S
  start g w0 (ok (some f) w) = at (running (Base.body g) f.state Reply.unit) w
  start g w0 (ok none w) = finish (Base.body g) (Action.raise (text unwrap_none)) w
  start g w0 (panic e w) = at crashed w
  start g w0 fault = at crashed w0

  unfoldable pub arrive : Kont S → World S → Machine S
  arrive zeroed w = at crashed w
  arrive (entry g) w = start g w (enter_gen g w)
  arrive (waiting frame b s) w = continue b s w (come_back frame w)
  arrive finished w = at crashed w

module _ (c : Client) where
  abbrev pub step_at : Focus c.Local → World c.Local → Machine c.Local
  step_at (running b s r) w = perform b (c.next s r) w
  step_at (arriving k) w = arrive k w
  step_at (returned v) w = at (returned v) w
  step_at (uncaught e) w = at (uncaught e) w
  step_at crashed w = at crashed w

  unfoldable pub step : Machine c.Local → Machine c.Local
  step m = step_at m.focus m.world

  -- `n` steps.
  unfoldable pub run : ℕ → Machine c.Local → Machine c.Local
  run zero m = m
  run (suc n) m = run n (step m)
