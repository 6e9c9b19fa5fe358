-- ===== src/Tests/Rounds.antt =====
-- The rounds of a generator at the thread of Tests/Worlds.antt.
use generator_rs.Base.{inr, ◌≡◌, refl, true, false, none, some, [], arith, update}
use generator_rs.Panic.{
  none_generator_context, done_outside, unwrap_none, ok, panic, text, user, error, Error,
}
use generator_rs.Rt.Context.{Context, load}
use generator_rs.Rt.Ring.{Ring}
use generator_rs.Gen.Types.{
  Reply, value, unwind, Op, Closure, Base, body, Kont, entry, waiting, finished, in_resume,
  in_cancel, in_raw_yield, nothing, then_take, scoped, World, standard, silent, reply, load_gen,
}
use generator_rs.Gen.Impl.{is_done}
use generator_rs.Gen.Machine.{at, running, run, exec}
use generator_rs.Gen.Handover.{IsOn, IsOff}
use generator_rs.Gen.Sends
use generator_rs.Gen.Leave
use generator_rs.Gen.Rounds.{yield_lem}
use generator_rs.Gen.Resume.{resume_lem}
use generator_rs.Gen.Panics.{panic_lem}
use generator_rs.Gen.Cancel.{cancel_back_lem, cancel_panic_lem}
use generator_rs.Gen.Outside.{begun, unused, outside_lem}
use generator_rs.Gen.Drop.{freed, drop_lem}
use generator_rs.Gen.Life.{init_code_lem}
use generator_rs.Tests.Worlds.{
  Place, sends, rests, yields, returns, panics, unwinds, client, slot, gen, thread, off, idle,
  below, busy, ready, active,
}

-- What the thread's own code has saved.
abbrev caller : Kont Place
caller = waiting (in_resume 8) Base.main rests

abbrev canceller : Kont Place
canceller = waiting (in_cancel 8 standard) Base.main rests

abbrev in_yield : Kont Place
in_yield = waiting (in_raw_yield 8 (then_take 8)) (body 8) returns

yield_example :
    (w' : World Place) × (run client 2
        (at (running (body 8) yields Reply.unit) (thread (below caller) (busy 1 0) none))
      ≡ at (running Base.main rests (value (some 5))) w')
    × IsOff w'.mem.contexts 4 8 [] (waiting (in_raw_yield 8 nothing) (body 8) rests) (busy 0 0)
    × (w'.gens ≡ (thread (below caller) (busy 1 0) none).gens)
    × (w'.hook ≡ standard)
yield_example =
    yield_lem client (thread (below caller) (busy 1 0) none) 8 [] (busy 1 0) slot (in_resume 8)
      Base.main rests yields Reply.unit (active 1 0 caller none) refl (Leave.by_resume 8) (scoped 8)
      5 nothing rests refl (Leave.by_scope_yield_with 8 5) refl

resume_example :
    (w' : World Place) × (run client 2
        (at (running Base.main sends Reply.unit) (thread off (idle 0 in_yield) none))
      ≡ at (running (body 8) returns (value (some 4))) w')
    × IsOn w'.mem.contexts 4 8 [] caller (idle 1 in_yield)
    × (w'.gens ≡ (thread off (idle 0 in_yield) none).gens)
    × (w'.hook ≡ standard)
resume_example =
    resume_lem client (thread off (idle 0 in_yield) none) 8 [] (idle 0 in_yield) (gen none) slot
      Base.main sends rests Reply.unit (ready 0 in_yield none) (Sends.by_raw_send 8 (some 4)) refl
      (then_take 8) returns refl refl refl

abbrev closure : Closure Place
closure = record { state = yields; stack_end = 8000 }

panic_example :
    (w' : World Place) × (run client 2
        (at (running (body 8) panics Reply.unit) (thread (below caller) (busy 1 0) none))
      ≡ at (running Base.main rests (unwind (user 3))) w')
    × IsOff w'.mem.contexts 4 8 [] finished (busy 1 0)
    × (w'.gens ≡ (thread (below caller) (busy 1 0) none).gens)
panic_example =
    panic_lem client (thread (below caller) (busy 1 0) none) 8 [] (busy 1 0) slot (in_resume 8)
      Base.main rests panics Reply.unit (user 3) (active 1 0 caller none) refl refl refl
      (Leave.by_resume 8)

cancel_back_example :
    (w' : World Place) × (run client 2
        (at (running (body 8) unwinds Reply.unit) (thread (below canceller) (busy 2 0) none))
      ≡ at (running Base.main rests Reply.unit) w')
    × IsOff w'.mem.contexts 4 8 [] finished (busy 2 0)
    × (w'.hook ≡ standard)
    × (is_done 8 w' ≡ ok true w')
cancel_back_example =
    cancel_back_lem client (thread (below canceller) (busy 2 0) none) 8 [] (busy 2 0) slot standard
      Base.main rests unwinds Reply.unit (active 2 0 canceller none) (gen none) refl refl refl refl
      refl

-- The thread inside a `cancel`.
abbrev cancelling : World Place
cancelling = record (thread (below canceller) (busy 2 0) none) { hook = silent }

cancel_panic_example :
    (w' : World Place) × (run client 2 (at (running (body 8) panics Reply.unit) cancelling)
      ≡ at (running Base.main rests (unwind (user 3))) w')
    × IsOff w'.mem.contexts 4 8 [] finished (busy 2 0)
    × (w'.hook ≡ silent)
cancel_panic_example =
    cancel_panic_lem client cancelling 8 [] (busy 2 0) slot standard Base.main rests panics
      Reply.unit (user 3)
      (record {
        ring = (active 2 0 canceller none).ring;
        here = refl;
        ret = refl;
        below = (below canceller, refl, refl);
      })
      refl refl refl

init_code_example :
    (d : Context (Kont Place)) × (w' : World Place) × (exec
        (Op.init_code 8 closure)
        (thread off (idle 1 finished) none)
      ≡ ok (reply Reply.unit) w')
    × (w'.mem.contexts ≡ update (thread off (idle 1 finished) none).mem.contexts 8 (some d))
    × Ring w'.mem.contexts 8 []
    × (d.ref ≡ 0)
    × (d.regs ≡ entry 8)
    × (d.stack_guard ≡ (4096, 8000))
    × (w'.gens 8 ≡ some (gen (some closure)))
    × (is_done 8 w' ≡ ok false w')
init_code_example =
    init_code_lem (thread off (idle 1 finished) none) 8 (idle 1 finished) (gen none) (ground arith)
      refl refl closure refl refl

drop_example :
    exec (Op.drop 8 false) (thread off (idle 1 finished) none)
    ≡ ok (reply Reply.unit) (freed (thread off (idle 1 finished) none) 8)
unfolding is_done load_gen load
drop_example =
    drop_lem (thread off (idle 1 finished) none) 8 (idle 1 finished) (gen none) (ground arith) refl
      refl false (inr (inr refl))

-- The thread with its one generator done.
abbrev idle_thread : World Place
idle_thread = thread off (idle 1 finished) none

-- A thread that has never called the crate.
abbrev new_thread : World Place
new_thread = record idle_thread {
  mem = record (idle_thread.mem) { root = 0; contexts = λ p. none };
}

outside_example :
    (exec (Op.yield_with 1 5) new_thread ≡ panic (text none_generator_context) (begun new_thread))
    × (exec (Op.yield_ 2 1 5) new_thread ≡ panic (text none_generator_context) (begun new_thread))
    × (exec (Op.get_yield 2) new_thread ≡ panic (error Error.context_err) (begun new_thread))
    × (exec Op.done new_thread ≡ panic (text done_outside) (begun new_thread))
    × (exec Op.is_generator new_thread ≡ ok (reply (Reply.bool false)) (begun new_thread))
    × (exec (Op.co_yield_with 1 5) new_thread ≡ panic (text unwrap_none) (begun new_thread))
    × (exec (Op.co_get_yield 2) new_thread ≡ ok (reply (value none)) (begun new_thread))
    × (exec (Op.co_set_para 2 5) new_thread ≡ ok (reply Reply.unit) (begun new_thread))
outside_example =
    outside_lem new_thread (begun new_thread) (unused refl (ground arith)) (omega arith) 2 1 5
