-- ===== src/Gen/Yield.antt =====
-- src/yield_.rs and src/scope.rs: what the code of a generator calls. As in Gen/Impl.antt, `back` is
-- the half of a function behind its switch.
use generator_rs.Base.{ℕ, Bool, false, Option, none, some, ◌==◌, if◌then◌else◌, sub_word}
use generator_rs.Panic.{
  Payload, error, text, cancel, context_err, none_generator_context, done_outside, unwrap_none,
  Error, M, ok, panic, fault, undefined, pure, throw, assert, ◌>>=◌, ◌>>◌,
}
use generator_rs.Rt.Context
use generator_rs.Rt.Context.{Ptr, TypeId, load, store, store_ret, take_para, get_para, set_ret}
use generator_rs.Rt.Env
use generator_rs.Rt.Env.{top, pop_context, co_ctx}
use generator_rs.Gen.Types.{
  unit, value, Channel, typed, scoped, AfterYield, nothing, then_get, then_take, Frame,
  in_raw_yield, in_co_yield, from_send, from_yield, World, Control, reply, switch, on_mem,
}
use generator_rs.Gen.Impl.{with_context, env, is_done, raw_send, resume_back, drop, free}

module _ {S : Type 0} where
  unfoldable pub top_context : M (World S) Ptr
  top_context = do root ← env; on_mem (top root)

  -- The check of `raw_yield` and of `raw_get_yield`.
  unfoldable pub check_context : Ptr → Payload → M (World S) (Unit {0})
  check_context ctx e = do
    c ← on_mem (load ctx)
    if Context.is_generator ctx c then pure tt else throw e

  unfoldable pub is_generator : M (World S) Bool
  is_generator = do root ← env; on_mem (Env.is_generator root)

  -- `done`
  unfoldable pub done : M (World S) (Control S)
  done = do inside ← is_generator; assert inside done_outside; throw (error Error.done)

  -- `raw_yield_now`
  unfoldable pub raw_yield_now : Ptr → Frame S → M (World S) (Control S)
  raw_yield_now ctx frame = do
    root ← env
    parent ← on_mem (pop_context root ctx)
    pure (switch ctx frame parent)

  -- Where the value of a yield goes: `Context::set_ret`, or `Scope::set_ret`.
  unfoldable pub put_ret : Channel → ℕ → Ptr → M (World S) (Unit {0})
  put_ret (typed a t) v ctx = on_mem (set_ret t v ctx)
  put_ret (scoped g) v ctx = do
    s ← on_mem (Context.load_ret g)
    on_mem (store_ret g (record s { value = some v }))

  -- Where the sent value comes from: `Context::get_para`, or `Scope::get_yield`.
  unfoldable pub get_sent : Channel → Ptr → M (World S) (Option ℕ)
  get_sent (typed a t) ctx = on_mem (get_para a ctx)
  get_sent (scoped g) ctx = on_mem (take_para g)

  -- `raw_yield` of either file.
  unfoldable pub raw_yield : Channel → Ptr → ℕ → Frame S → M (World S) (Control S)
  raw_yield ch ctx v frame = do
    check_context ctx (text none_generator_context)
    put_ret ch v ctx
    with_context ctx λ c. record c { ref = sub_word c.ref 1 }
    raw_yield_now ctx frame

  -- Whoever resumes the context with another count than 1 cancels it.
  unfoldable pub raw_yield_back : Ptr → M (World S) (Unit {0})
  raw_yield_back ctx = do
    c ← on_mem (load ctx)
    if c.ref == 1 then pure tt else throw (error cancel)

  -- `raw_get_yield`
  unfoldable pub raw_get_yield : TypeId → Ptr → M (World S) (Option ℕ)
  raw_get_yield t ctx = do check_context ctx (error context_err); on_mem (get_para t ctx)

  -- `yield_with`, `yield_`, and their namesakes of `Scope`.
  unfoldable pub yield_then : Channel → ℕ → AfterYield → M (World S) (Control S)
  yield_then ch v after = do ctx ← top_context; raw_yield ch ctx v (in_raw_yield ctx after)

  unfoldable pub yield_then_back : Ptr → AfterYield → M (World S) (Control S)
  yield_then_back ctx nothing = do raw_yield_back ctx; pure (reply unit)
  yield_then_back ctx (then_get t) = do
    raw_yield_back ctx
    v ← raw_get_yield t ctx
    pure (reply (value v))
  yield_then_back ctx (then_take g) = do
    raw_yield_back ctx
    v ← on_mem (take_para g)
    pure (reply (value v))

  -- `get_yield`
  unfoldable pub get_yield : TypeId → M (World S) (Option ℕ)
  get_yield t = do ctx ← top_context; raw_get_yield t ctx

  -- A panic that leaves `yield_from` drops its generator while the thread is panicking.
  abbrev pub dropping : {A : Type 0} → Ptr → M (World S) A → M (World S) A
  dropping g m w = elim (m w) [
    | ok a w' ↦ ok a w'
    | panic e w' ↦ (do free g; throw e) w'
    | fault ↦ fault
  ]

  -- A round of the loop of `yield_from`, with the sent value.
  unfoldable pub from_round : Channel → (ctx g : Ptr) → Option ℕ → M (World S) (Control S)
  from_round ch ctx g p = do
    finished ← is_done g
    if finished
        then drop g false (value p)
        else raw_send g p (from_send ctx g ch) (drop g false (value none))

  -- `yield_from`, and `yield_from_unsafe` of `Scope`.
  unfoldable pub yield_from : Channel → (g : Ptr) → M (World S) (Control S)
  yield_from ch g = do ctx ← top_context; p ← dropping g (get_sent ch ctx); from_round ch ctx g p

  -- `None => return None`, `Some(r) => raw_yield(r)`
  unfoldable pub from_answer : Channel → (ctx g : Ptr) → Option ℕ → M (World S) (Control S)
  from_answer ch ctx g none w = drop g false (value none) w
  from_answer ch ctx g (some r) w = dropping g (raw_yield ch ctx r (from_yield ctx g ch)) w

  unfoldable pub from_send_back : Channel → (ctx g : Ptr) → M (World S) (Control S)
  from_send_back ch ctx g = do r ← dropping g (resume_back g); from_answer ch ctx g r

  unfoldable pub from_yield_back : Channel → (ctx g : Ptr) → M (World S) (Control S)
  from_yield_back ch ctx g = do
    p ← dropping g (do raw_yield_back ctx; get_sent ch ctx)
    from_round ch ctx g p

  -- `ContextStack::co_ctx`
  unfoldable pub coroutine : M (World S) (Option Ptr)
  coroutine w =
      (do
        root ← env
        found ← on_mem (co_ctx w.fuel root)
        elim found [ none ↦ undefined | some c ↦ pure c ])
        w

  -- `co_yield_with` on the context that it finds.
  unfoldable pub co_yield_at : TypeId → ℕ → Option Ptr → M (World S) (Control S)
  co_yield_at t v none w = throw (text unwrap_none) w
  co_yield_at t v (some ctx) w =
      (do
        c ← on_mem (load ctx)
        if c.ref == 1 then pure tt else throw (error cancel)
        on_mem (Context.co_set_ret t v ctx)
        with_context ctx λ c. record c { ref = sub_word c.ref 1 }
        root ← env
        parent ← on_mem (pop_context root ctx)
        c' ← on_mem (load ctx)
        pure (switch c'.parent in_co_yield parent))
        w

  unfoldable pub co_yield_with : TypeId → ℕ → M (World S) (Control S)
  co_yield_with t v = do ctx ← coroutine; co_yield_at t v ctx

  unfoldable pub co_get_yield : TypeId → M (World S) (Option ℕ)
  co_get_yield t = do
    found ← coroutine
    elim found [ none ↦ pure none | some ctx ↦ on_mem (Context.co_get_para t ctx) ]

  unfoldable pub co_set_para : TypeId → ℕ → M (World S) (Unit {0})
  co_set_para t v = do
    found ← coroutine
    elim found [ none ↦ pure tt | some ctx ↦ on_mem (Context.co_set_para t v ctx) ]

  -- `get_local_data` of src/rt.rs
  unfoldable pub thread_local_data : M (World S) Ptr
  thread_local_data w =
      (do
        root ← env
        found ← on_mem (Env.get_local_data w.fuel root)
        elim found [ none ↦ undefined | some p ↦ pure p ])
        w
