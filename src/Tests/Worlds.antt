-- ===== src/Tests/Worlds.antt =====
-- A thread with its root context at 4 and one generator, at 8, and a client to drive it.
use generator_rs.Base.{ℕ, refl, true, Option, none, some, [], arith, ◌==◌, if◌then◌else◌}
use generator_rs.Panic.{user, error, Error}
use generator_rs.Rt.Context.{Ptr, Context, Slot}
use generator_rs.Gen.Types.{
  Reply, Op, Action, ret, raise, call, Client, Closure, Kont, zeroed, GeneratorImpl, World,
  standard,
}
use generator_rs.Gen.Sends.{IsReady}
use generator_rs.Gen.Rounds.{IsRunning}

-- What a piece of the client's code does next.
pub data Place : Type 0 where
  resumes cancels sends rests yields returns panics unwinds : Place

abbrev pub act : Place → Reply → Action Place
act resumes r = call (Op.resume 8) rests
act cancels r = call (Op.cancel 8) rests
act sends r = call (Op.raw_send 8 (some 4)) rests
act rests r = ret 0
act yields r = call (Op.scope_yield_with 8 5) rests
act returns r = ret 6
act panics r = raise (user 3)
act unwinds r = raise (error Error.cancel)

abbrev pub client : Client
client = record { Local = Place; next = act }

abbrev pub context_of : (parent child ref local_data : ℕ) → Kont Place → Context (Kont Place)
context_of parent child ref local_data k = record {
  regs = k;
  child = child;
  parent = parent;
  para = 8;
  ret = 8;
  ref = ref;
  local_data = local_data;
  err = none;
  stack_guard = (4096, 8000);
}

abbrev pub two : (root g : Context (Kont Place)) → Ptr → Option (Context (Kont Place))
two root g a = if a == 4 then some root else if a == 8 then some g else none

abbrev pub slot : Slot
slot = record { ty = 1; value = none }

abbrev pub gen : Option (Closure Place) → GeneratorImpl Place
gen f = record { bottom = 4096; f = f }

abbrev pub thread : (root g : Context (Kont Place)) → Option (Closure Place) → World Place
thread root g f = record {
  mem = record {
    root = 4;
    contexts = two root g;
    paras = λ a. if a == 8 then some slot else none;
    rets = λ a. if a == 8 then some slot else none;
  };
  gens = λ a. if a == 8 then some (gen f) else none;
  hook = standard;
  filter_on = true;
  root_box = 4;
  fuel = 9;
  usage = λ a. (512, 100);
}

-- The generator is off the ring.
abbrev pub off : Context (Kont Place)
off = context_of 4 0 1 0 zeroed

abbrev pub idle : ℕ → Kont Place → Context (Kont Place)
idle ref k = context_of 8 0 ref 0 k

-- It runs, resumed by the thread's own code.
abbrev pub below : Kont Place → Context (Kont Place)
below k = context_of 8 8 1 0 k

abbrev pub busy : (ref local_data : ℕ) → Context (Kont Place)
busy ref local_data = context_of 4 0 ref local_data zeroed

pub ready :
    (ref : ℕ) (k : Kont Place) (f : Option (Closure Place))
    → IsReady (thread off (idle ref k) f) 8 [] (idle ref k) (gen f) slot
ready ref k f = record {
  running = record { base = (ground arith, refl, refl); chain = tt; distinct = (refl, tt) };
  own = record { base = (ground arith, refl, refl); chain = tt; distinct = (refl, tt) };
  apart = refl;
  here = refl;
  gen = refl;
  para = refl;
  below = (off, refl);
}

pub active :
    (ref local_data : ℕ) (k : Kont Place) (f : Option (Closure Place))
    → IsRunning (thread (below k) (busy ref local_data) f) 8 [] (busy ref local_data) slot k
active ref local_data k f = record {
  ring = record {
    base = (ground arith, refl, refl);
    chain = ((ground arith, refl, refl), tt);
    distinct = (refl, (refl, tt));
  };
  here = refl;
  ret = refl;
  below = (below k, refl, refl);
}
