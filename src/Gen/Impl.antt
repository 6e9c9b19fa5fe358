-- ===== src/Gen/Impl.antt =====
-- src/gen_impl.rs: `GeneratorImpl`. A function that switches is cut in two at the switch, the second
-- half by the name of the first with `back`.
use generator_rs.Base.{
  ℕ, ◌%◌, Bool, not, ◌&&◌, Option, none, some, ltb, ◌==◌, if◌then◌else◌, add_word, update, is_none,
}
use generator_rs.Panic.{
  Payload, error, text, stack_err, assertion, send_got_none, unwrap_none, M, ok, pure, throw,
  assert, ◌>>=◌, ◌>>◌,
}
use generator_rs.Rt.Context
use generator_rs.Rt.Context.{
  Ptr, null, TypeId, Slot, Context, load, store, store_para, store_ret, take_ret,
}
use generator_rs.Rt.Env.{current, top, push_context}
use generator_rs.Gen.Types.{
  Reply, unit, value, Closure, Hook, standard, silent, Frame, in_resume, in_send, in_cancel,
  in_init, in_drop, Kont, zeroed, entry, World, Control, reply, switch, on_mem, load_gen, store_gen,
}

module _ {S : Type 0} where
  -- The context of a generator, rewritten.
  abbrev pub with_context : Ptr → (Context (Kont S) → Context (Kont S)) → M (World S) (Unit {0})
  with_context g f = do c ← on_mem (load g); on_mem (store g (f c))

  -- `ContextStack::current`
  unfoldable pub env : M (World S) Ptr
  env w = on_mem (current w.root_box zeroed) w

  -- `panic::take_hook` on a thread that does not panic, `panic::set_hook`
  abbrev pub take_hook : M (World S) Hook
  take_hook w = ok w.hook (record w { hook = standard })

  abbrev pub set_hook : Hook → M (World S) (Unit {0})
  set_hook h w = ok tt (record w { hook = h })

  unfoldable pub is_started : Ptr → M (World S) Bool
  is_started g = do i ← load_gen g; pure (is_none i.f)

  unfoldable pub is_done : Ptr → M (World S) Bool
  unfolding is_started
  is_done g = do started ← is_started g; c ← on_mem (load g); pure (started && not (c.ref % 4 == 0))

  -- `init_context`: `para` and `ret` of the context point at the generator's.
  unfoldable pub init_context : Ptr → M (World S) (Unit {0})
  init_context g = with_context g λ c. record c { para = g; ret = g }

  -- `GeneratorImpl::new`, with the expect of `Stack::new` at an address that is null.
  unfoldable pub new : (at bottom : ℕ) (a t : TypeId) → M (World S) (Unit {0})
  new at bottom a t = if at == null then throw (text unwrap_none) else (do
    on_mem (store at (Context.new zeroed))
    on_mem (store_para at (record { ty = a; value = none }))
    on_mem (store_ret at (record { ty = t; value = none }))
    store_gen at (record { bottom = bottom; f = none }))

  -- `resume_gen` up to the switch: the two contexts.
  unfoldable pub resume_gen : Ptr → M (World S) (Ptr × Ptr)
  resume_gen g = do
    root ← env
    cur ← on_mem (top root)
    c ← on_mem (load g)
    let into = c.parent
    on_mem (push_context root g)
    pure (cur, into)

  -- A panic of the generator goes on in its parent, but not out of a coroutine.
  unfoldable pub resume_gen_back : Ptr → M (World S) (Unit {0})
  resume_gen_back g = do
    c ← on_mem (load g)
    if not (c.local_data == null) then pure tt else elim c.err [
      | none ↦ pure tt
      | some e ↦ (do on_mem (store g (record c { err = none })); throw e)
    ]

  unfoldable pub set_para : Ptr → ℕ → M (World S) (Unit {0})
  set_para g v = do
    s ← on_mem (Context.load_para g)
    on_mem (store_para g (record s { value = some v }))

  unfoldable pub set_local_data : Ptr → Ptr → M (World S) (Unit {0})
  set_local_data g p = with_context g λ c. record c { local_data = p }

  unfoldable pub get_local_data : Ptr → M (World S) Ptr
  get_local_data g = do c ← on_mem (load g); pure c.local_data

  unfoldable pub get_panic_data : Ptr → M (World S) (Option Payload)
  get_panic_data g = do c ← on_mem (load g); on_mem (store g (record c { err = none })); pure c.err

  -- The reference count up, and the switch.
  unfoldable pub enter : Ptr → Frame S → M (World S) (Control S)
  enter g frame = do
    with_context g λ c. record c { ref = add_word c.ref 1 }
    (cur, into) ← resume_gen g
    pure (switch cur frame into)

  unfoldable pub resume : Ptr → M (World S) (Control S)
  resume g = do
    finished ← is_done g
    if finished then pure (reply (value none)) else enter g (in_resume g)

  unfoldable pub resume_back : Ptr → M (World S) (Option ℕ)
  resume_back g = do resume_gen_back g; on_mem (take_ret g)

  -- `raw_send` up to the switch, for a caller with that frame, which goes on by `after` if the
  -- generator is done.
  unfoldable pub raw_send :
      Ptr → Option ℕ → Frame S → (after : M (World S) (Control S)) → M (World S) (Control S)
  raw_send g para frame after = do
    finished ← is_done g
    if finished then after else (do
      s ← on_mem (Context.load_para g)
      on_mem (store_para g (record s { value = para }))
      enter g frame)

  -- The `expect` of `send`.
  unfoldable pub expect_sent : Option ℕ → M (World S) (Control S)
  expect_sent none = throw (text send_got_none)
  expect_sent (some v) = pure (reply (value (some v)))

  unfoldable pub send : Ptr → ℕ → M (World S) (Control S)
  send g v = raw_send g (some v) (in_send g) (expect_sent none)

  unfoldable pub send_back : Ptr → M (World S) (Control S)
  send_back g = do r ← resume_back g; expect_sent r

  unfoldable pub raw_cancel : Ptr → (Hook → Frame S) → M (World S) (Control S)
  raw_cancel g frame = do
    with_context g λ c. record c { ref = 2 }
    old ← take_hook
    set_hook silent
    (cur, into) ← resume_gen g
    pure (switch cur (frame old) into)

  unfoldable pub raw_cancel_back : Ptr → Hook → M (World S) (Unit {0})
  raw_cancel_back g old = do resume_gen_back g; set_hook old

  -- `cancel`, for a caller with that frame, which goes on by `after` where nothing is switched.
  unfoldable pub cancel_with :
      Ptr → (Hook → Frame S) → (after : M (World S) (Control S)) → M (World S) (Control S)
  cancel_with g frame after = do
    finished ← is_done g
    started ← is_started g
    if finished then after else if started then raw_cancel g frame else (do
      i ← load_gen g
      store_gen g (record i { f = none })
      with_context g λ c. record c { ref = 1 }
      after)

  unfoldable pub cancel : Ptr → M (World S) (Control S)
  cancel g = cancel_with g (in_cancel g) (pure (reply unit))

  -- `init_code` behind its `cancel`: the context is a ring of its own and ready to start.
  unfoldable pub init_code_rest : Ptr → Closure S → M (World S) (Unit {0})
  init_code_rest g f = do
    with_context g λ c. record c { parent = g; ref = 0 }
    i ← load_gen g
    store_gen g (record i { f = some f })
    with_context g λ c. record c { stack_guard = (i.bottom, f.stack_end); regs = entry g }

  unfoldable pub init_code : Ptr → Closure S → M (World S) (Control S)
  init_code g f = do
    i ← load_gen g
    c ← on_mem (load g)
    if is_none i.f && c.ref == 0
        then cancel_with g (λ old. in_init g old f) (do init_code_rest g f; pure (reply unit))
        else (do store_gen g (record i { f = none }); init_code_rest g f; pure (reply unit))

  -- The memory of a generator is given back with its stack.
  unfoldable pub free : Ptr → M (World S) (Unit {0})
  free g w = ok tt (record w {
    gens = update w.gens g none;
    mem = record (w.mem) {
      contexts = update w.mem.contexts g none;
      paras = update w.mem.paras g none;
      rets = update w.mem.rets g none;
    };
  })

  -- The end of `Drop for GeneratorImpl`.
  unfoldable pub drop_rest : Ptr → M (World S) (Unit {0})
  drop_rest g = do
    finished ← is_done g
    assert finished assertion
    (total, used) ← λ w. ok (w.usage g) w
    if ltb used total then free g else throw (error stack_err)

  -- `Drop for GeneratorImpl`; `answer` is what its caller gives once it is dropped.
  unfoldable pub drop : Ptr → (panicking : Bool) → (answer : Reply) → M (World S) (Control S)
  drop g panicking answer = if panicking then (do free g; pure (reply answer)) else (do
    started ← is_started g
    finished ← is_done g
    if not started
        then (do free g; pure (reply answer))
        else if finished
        then (do drop_rest g; pure (reply answer))
        else raw_cancel g (λ old. in_drop g old answer))

  unfoldable pub stack_usage : Ptr → M (World S) (ℕ × ℕ)
  stack_usage g w = ok (w.usage g) w
