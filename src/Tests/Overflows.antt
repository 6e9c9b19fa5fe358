-- ===== src/Tests/Overflows.antt =====
-- Stack overflows and other faults of the generator of Tests/Worlds.antt, whose guard is from 4096 to
-- 8000, with pages of 16 bytes.
use generator_rs.Base.{inl, ◌≡◌, refl, true, false, none, [], arith, update}
use generator_rs.Panic.{ok, error, Error}
use generator_rs.Gen.Types.{unwind, Base, Kont, zeroed, finished, in_resume, waiting, World}
use generator_rs.Gen.Machine.{Machine, at, crashed, running, step}
use generator_rs.Gen.Handover.{IsOff}
use generator_rs.Gen.Leave
use generator_rs.Gen.Outside.{begun, unused}
use generator_rs.Overflow.Unix.{
  other, Signals, Process, init_once, again, signal_handler, handled, delivered,
}
use generator_rs.Overflow.Signals.{overflow_lem, given_back_lem, no_generator_lem}
use generator_rs.Overflow.Windows.{vectored_handler, excepted}
use generator_rs.Overflow.Exceptions.{exception_lem}
use generator_rs.Tests.Worlds.{Place, rests, client, slot, thread, off, idle, below, busy, active}

abbrev caller : Kont Place
caller = waiting (in_resume 8) Base.main rests

abbrev world : World Place
world = thread (below caller) (busy 1 0) none

-- Before the handler is installed, SIGSEGV (11) has action 1 and SIGBUS (7) action 2.
abbrev signals : Signals
signals = record {
  actions = update (update (λ n. other 0) 11 (other 1)) 7 (other 2);
  blocked = λ n. false;
  sig_action = other 0;
  is_init = false;
}

abbrev process : Process Place
process = record { world = world; signals = signals }

overflow_example :
    (w' : World Place) × ((m : Machine Place)
      → step client (handled (signal_handler 16 11 4090 process) m)
        ≡ at (running Base.main rests (unwind (error Error.stack_err))) w')
    × IsOff w'.mem.contexts 4 8 [] finished (busy 1 0)
    × (w'.gens ≡ world.gens)
overflow_example =
    overflow_lem client process 8 [] (busy 1 0) slot (in_resume 8) Base.main rests 16 11 4090
      (active 1 0 caller none) (Leave.by_resume 8) refl (busy 1 0) refl refl

given_back_example :
    (s' : Signals) × (signal_handler 16 11 99
        (record { world = world; signals = init_once 11 7 signals })
      ≡ ok again (record { world = world; signals = s' }))
    × (s'.actions 11 ≡ other 2)
    × (s'.blocked ≡ signals.blocked)
given_back_example =
    given_back_lem world signals 11 7 16 11 99 refl 8 [] (busy 1 0) (busy 1 0) slot caller
      (ground arith) (active 1 0 caller none) refl refl

abbrev alone : World Place
alone = thread off (idle 0 zeroed) none

-- A thread that has never called the crate.
abbrev new_thread : World Place
new_thread = record alone { mem = record (alone.mem) { root = 0; contexts = λ p. none } }

no_generator_example :
    delivered
      (λ n p. at crashed world)
      16
      11
      99
      (record { world = new_thread; signals = init_once 11 7 signals })
      (at crashed world)
    ≡ at crashed (begun new_thread)
no_generator_example =
    no_generator_lem new_thread signals 11 7 16 11 99 refl (begun new_thread)
      (unused refl (ground arith)) (inl refl) (λ n p. at crashed world) (at crashed world)

exception_example :
    (w' : World Place) × ((m : Machine Place)
      → step client (excepted (vectored_handler 16 true 4090 world) m)
        ≡ at (running Base.main rests (unwind (error Error.stack_err))) w')
    × IsOff w'.mem.contexts 4 8 [] zeroed (busy 1 0)
    × (w'.gens ≡ world.gens)
exception_example =
    exception_lem client world 8 [] (busy 1 0) slot (in_resume 8) Base.main rests 16 4090
      (active 1 0 caller none) (Leave.by_resume 8) refl (busy 1 0) refl refl
