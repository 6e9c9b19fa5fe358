-- ===== src/Tests/Coroutines.antt =====
-- A thread that drives two generators, as the abstract view and as the machine see it.
use generator_rs.Base.{
  ℕ, ◌≡◌, ◌≢◌, ◌≤◌, ◌*◌, refl, false, true, none, some, [], arith, ◌==◌, if◌then◌else◌,
}
use generator_rs.Panic.{user}
use generator_rs.Rt.Context.{new}
use generator_rs.Gen.Types.{
  Reply, bool, value, unwind, Op, Action, ret, raise, call, Client, zeroed, World, standard,
}
use generator_rs.Gen.Machine.{crashed, returned, run}
use generator_rs.Coroutine.Abstract.{View, going, ended, advances, advance, go, ask}
use generator_rs.Coroutine.Refines.{Represents, thread}
use generator_rs.Coroutine.Runs.{advances_lem, advances_sound, advances_returns}

-- The thread makes a generator at 8, which makes one at 16, resumes it and yields what it has
-- yielded; then it cancels the one at 8, whose code unwinds, gives it new code, which yields what it
-- is sent, and drops it.
data Place : Type 0 where
  begins resumes cancels asks renews fills again drops ends : Place
  takes hands : Place
  makes enters passes waits : Place
  yields rests : Place

abbrev act : Place → Reply → Action Place
act begins r =
    call (Op.new_scoped_opt 8 4096 1 1 (λ g. record { state = makes; stack_end = 8000 })) resumes
act resumes r = call (Op.resume 8) cancels
act cancels (value (some v)) = if v == 5 then call (Op.cancel 8) asks else raise (user 0)
act cancels r = raise (user 1)
act asks r = call (Op.is_done 8) renews
act renews (bool true) =
    call (Op.scoped_init 8 (λ g. record { state = takes; stack_end = 8000 })) fills
act renews r = ret 0
act fills r = call (Op.set_para 8 3) again
act again r = call (Op.resume 8) drops
act drops (value (some v)) = if v == 3 then call (Op.drop 8 false) ends else raise (user 3)
act drops r = raise (user 4)
act ends r = ret 7
act takes r = call (Op.scope_get_yield 8) hands
act hands (value (some v)) = call (Op.scope_yield_with 8 v) waits
act hands r = raise (user 5)
act makes r = call (Op.new_opt 16 8192 1 2 (record { state = yields; stack_end = 12000 })) enters
act enters r = call (Op.send 16 9) passes
act passes (value (some v)) = call (Op.scope_yield_with 8 v) waits
act passes r = raise (user 2)
act waits (unwind e) = raise e
act waits r = ret 1
act yields r = call (Op.yield_with 2 5) rests
act rests r = ret 6

abbrev client : Client
client = record { Local = Place; next = act }

-- A thread that begins, and runs no generator.
abbrev pub start : {S : Type 0} → S → View S
start s = record {
  home = 4;
  stage = going s Reply.unit;
  active = [];
  rest = λ g. none;
  ports = λ g. record { takes = 0; gives = 0; is_typed = false; inbox = none };
  usage = λ g. (512, 100);
}

abbrev pub empty : {S : Type 0} → World S
empty = record {
  mem = record {
    root = 4;
    contexts = λ p. if p == 4 then some (record (new zeroed) { parent = 4 }) else none;
    paras = λ p. none;
    rets = λ p. none;
  };
  gens = λ p. none;
  hook = standard;
  filter_on = false;
  root_box = 4;
  fuel = 9;
  usage = λ p. (512, 100);
}

pub starts : {S : Type 0} (s : S) → Represents (start s) empty
starts s = record {
  home = refl;
  usage = refl;
  ring = record { base = (ground arith, refl, refl); chain = tt; distinct = (refl, tt) };
  stacked = tt;
  off = λ g st e. cc;
}

-- The view behind twenty steps: the program has ended, and the generator at 8 is gone.
last :
    (a : View Place) × (advances client 20 (start begins) ≡ some a)
    × (a.stage ≡ ended 7)
    × (a.rest 8 ≡ none)
unfolding ask go advance advances
last = (_, refl, refl, refl)

advances_example :
    (k : ℕ) × (w' : World Place) × (20 ≤ k)
    × (k ≤ 2 * 20)
    × (run client k (thread (start begins) empty) ≡ thread last.0 w')
    × Represents last.0 w'
advances_example = advances_lem client 20 (start begins) last.0 empty (starts begins) last.1

advances_sound_example : (run client 9 (thread (start begins) empty)).focus ≢ crashed
advances_sound_example =
    advances_sound client 20 9 (start begins) last.0 empty (starts begins) last.1 (omega arith)

advances_returns_example : (run client 40 (thread (start begins) empty)).focus ≡ returned 7
advances_returns_example =
    advances_returns client 20 40 7 (start begins) last.0 empty (starts begins) last.1 last.2
      (omega arith)
