-- ===== src/Tests/Runs.antt =====
-- Whole runs of a program, from a thread without a root context.
use generator_rs.Base.{ℕ, ◌≡◌, refl, false, none, some, ◌==◌, if◌then◌else◌}
use generator_rs.Panic.{user}
use generator_rs.Gen.Types.{
  Reply, bool, value, payload, unwind, Op, Action, ret, raise, call, Client, Closure, Base, Hook,
  standard, World,
}
use generator_rs.Gen.Machine.{Machine, Focus, returned, uncaught, running, at, run}

-- Runs that are computed.
evaluate : (c : Client) → ℕ → Machine c.Local → Machine c.Local
unfolding generator_rs.Rt.Context.load generator_rs.Rt.Context.store
    generator_rs.Rt.Context.load_para generator_rs.Rt.Context.store_para
    generator_rs.Rt.Context.load_ret generator_rs.Rt.Context.store_ret
    generator_rs.Rt.Context.take_para generator_rs.Rt.Context.take_ret
    generator_rs.Rt.Context.get_para generator_rs.Rt.Context.co_get_para
    generator_rs.Rt.Context.co_set_para generator_rs.Rt.Context.set_ret
    generator_rs.Rt.Context.co_set_ret generator_rs.Rt.Env.set_parent generator_rs.Rt.Env.set_child
    generator_rs.Rt.Env.init_root generator_rs.Rt.Env.current generator_rs.Rt.Env.top
    generator_rs.Rt.Env.push_context generator_rs.Rt.Env.pop_context generator_rs.Rt.Env.search
    generator_rs.Rt.Env.co_ctx generator_rs.Rt.Env.is_generator generator_rs.Rt.Env.get_local_data
    generator_rs.Rt.Env.guard_current generator_rs.Gen.Types.load_gen
    generator_rs.Gen.Types.store_gen generator_rs.Gen.Impl.env generator_rs.Gen.Impl.is_started
    generator_rs.Gen.Impl.is_done generator_rs.Gen.Impl.init_context generator_rs.Gen.Impl.new
    generator_rs.Gen.Impl.resume_gen generator_rs.Gen.Impl.resume_gen_back
    generator_rs.Gen.Impl.set_para generator_rs.Gen.Impl.set_local_data
    generator_rs.Gen.Impl.get_local_data generator_rs.Gen.Impl.get_panic_data
    generator_rs.Gen.Impl.enter generator_rs.Gen.Impl.resume generator_rs.Gen.Impl.resume_back
    generator_rs.Gen.Impl.raw_send generator_rs.Gen.Impl.expect_sent generator_rs.Gen.Impl.send
    generator_rs.Gen.Impl.send_back generator_rs.Gen.Impl.raw_cancel
    generator_rs.Gen.Impl.raw_cancel_back generator_rs.Gen.Impl.cancel_with
    generator_rs.Gen.Impl.cancel generator_rs.Gen.Impl.init_code_rest
    generator_rs.Gen.Impl.init_code generator_rs.Gen.Impl.free generator_rs.Gen.Impl.drop_rest
    generator_rs.Gen.Impl.drop generator_rs.Gen.Impl.stack_usage generator_rs.Gen.Yield.top_context
    generator_rs.Gen.Yield.check_context generator_rs.Gen.Yield.is_generator
    generator_rs.Gen.Yield.done generator_rs.Gen.Yield.raw_yield_now generator_rs.Gen.Yield.put_ret
    generator_rs.Gen.Yield.get_sent generator_rs.Gen.Yield.raw_yield
    generator_rs.Gen.Yield.raw_yield_back generator_rs.Gen.Yield.raw_get_yield
    generator_rs.Gen.Yield.yield_then generator_rs.Gen.Yield.yield_then_back
    generator_rs.Gen.Yield.get_yield generator_rs.Gen.Yield.from_round
    generator_rs.Gen.Yield.yield_from generator_rs.Gen.Yield.from_answer
    generator_rs.Gen.Yield.from_send_back generator_rs.Gen.Yield.from_yield_back
    generator_rs.Gen.Yield.coroutine generator_rs.Gen.Yield.co_yield_at
    generator_rs.Gen.Yield.co_yield_with generator_rs.Gen.Yield.co_get_yield
    generator_rs.Gen.Yield.co_set_para generator_rs.Gen.Yield.thread_local_data
    generator_rs.Gen.Machine.exec generator_rs.Gen.Machine.come_back
    generator_rs.Gen.Machine.install_filter generator_rs.Gen.Machine.enter_gen
    generator_rs.Gen.Machine.check_err generator_rs.Gen.Machine.settle
    generator_rs.Gen.Machine.leave_gen generator_rs.Gen.Machine.swap
    generator_rs.Gen.Machine.continue generator_rs.Gen.Machine.finish
    generator_rs.Gen.Machine.perform generator_rs.Gen.Machine.start generator_rs.Gen.Machine.arrive
    generator_rs.Gen.Machine.step generator_rs.Gen.Machine.run
evaluate = run

-- A thread without a root context, and without generators.
abbrev blank : {S : Type 0} → World S
blank = record {
  mem = record { root = 0; contexts = λ p. none; paras = λ p. none; rets = λ p. none };
  gens = λ p. none;
  hook = standard;
  filter_on = false;
  root_box = 4;
  fuel = 9;
  usage = λ p. (512, 100);
}

-- The thread makes a generator at 8 that yields 5 and returns 6, asks it three times, and drops it.
pub data Place : Type 0 where
  begins first second third drops ends yields returns : Place

abbrev act : Place → Reply → Action Place
act begins r =
    call (Op.new_scoped_opt 8 4096 1 1 (λ g. record { state = yields; stack_end = 8000 })) first
act first r = call (Op.resume 8) second
act second (value (some v)) = if v == 5 then call (Op.resume 8) third else raise (user 0)
act second r = raise (user 1)
act third (value (some v)) = if v == 6 then call (Op.resume 8) drops else raise (user 0)
act third r = raise (user 2)
act drops (value none) = call (Op.drop 8 false) ends
act drops r = raise (user 3)
act ends r = ret 11
act yields r = call (Op.scope_yield_with 8 5) returns
act returns r = ret 6

abbrev program : Client
program = record { Local = Place; next = act }

-- The program ends, and the memory of the generator is gone.
ends_well :
    ((evaluate program 20 (at (running Base.main begins Reply.unit) blank)).focus ≡ returned 11)
    × ((evaluate program 20 (at (running Base.main begins Reply.unit) blank)).world.gens 8 ≡ none)
unfolding evaluate
ends_well = (refl, refl)

-- The same generator inside one at 16, which forwards it and then returns 7.
pub data Part : Type 0 where
  makes wraps once twice thrice checks inner_yields inner_returns forwards outer_returns : Part

abbrev follow : Part → Reply → Action Part
follow makes r =
    call (Op.new_scoped_opt 8 4096 1 1 (λ g. record { state = inner_yields; stack_end = 8000 }))
      wraps
follow wraps r =
    call (Op.new_scoped_opt 16 12288 1 1 (λ g. record { state = forwards; stack_end = 16000 })) once
follow once r = call (Op.resume 16) twice
follow twice (value (some v)) = if v == 5 then call (Op.resume 16) thrice else raise (user 1)
follow twice r = raise (user 1)
follow thrice (value (some v)) = if v == 6 then call (Op.resume 16) checks else raise (user 2)
follow thrice r = raise (user 2)
follow checks (value (some v)) = ret v
follow checks r = raise (user 3)
follow inner_yields r = call (Op.scope_yield_with 8 5) inner_returns
follow inner_returns r = ret 6
follow forwards r = call (Op.scope_yield_from 16 8) outer_returns
follow outer_returns r = ret 7

abbrev forwarding : Client
forwarding = record { Local = Part; next = follow }

-- The thread sees 5, 6 and 7, and the inner generator is gone.
forwards_all :
    ((evaluate forwarding 30 (at (running Base.main makes Reply.unit) blank)).focus ≡ returned 7)
    × ((evaluate forwarding 30 (at (running Base.main makes Reply.unit) blank)).world.gens 8 ≡ none)
unfolding evaluate
forwards_all = (refl, refl)

-- A generator whose code catches the cancellation and returns 6, is given new code, which ends by
-- `done`.
pub data Stale : Type 0 where
  creates resumes cancels renews asks ends waits caught quits stops : Stale

abbrev reuse : Stale → Reply → Action Stale
reuse creates r =
    call (Op.new_scoped_opt 8 4096 1 1 (λ g. record { state = waits; stack_end = 8000 })) resumes
reuse resumes r = call (Op.resume 8) cancels
reuse cancels r = call (Op.cancel 8) renews
reuse renews r = call (Op.scoped_init 8 (λ g. record { state = quits; stack_end = 8000 })) asks
reuse asks r = call (Op.resume 8) ends
reuse ends (value (some v)) = ret v
reuse ends r = ret 0
reuse waits r = call (Op.scope_yield_with 8 5) caught
reuse caught r = ret 6
reuse quits r = call Op.done stops
reuse stops (unwind e) = raise e
reuse stops r = ret 1

abbrev reusing : Client
reusing = record { Local = Stale; next = reuse }

-- The new code has given nothing, but the last resume answers with the 6 of the old one.
stale_result :
    (evaluate reusing 30 (at (running Base.main creates Reply.unit) blank)).focus ≡ returned 6
unfolding evaluate
stale_result = refl
