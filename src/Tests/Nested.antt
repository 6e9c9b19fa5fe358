-- ===== src/Tests/Nested.antt =====
-- A thread at 4 that has resumed the generator at 12, which is in `yield_from` of the one at 8.
use generator_rs.Base.{
  ◌≡◌, refl, true, none, some, [], ◌∷◌, arith, ◌==◌, if◌then◌else◌, ◌⊎◌, inl, inr,
}
use generator_rs.Rt.Context.{Ptr, Context}
use generator_rs.Rt.Ring.{Ring}
use generator_rs.Gen.Types.{
  Reply, value, Op, call, Client, then_take, Base, body, Kont, waiting, in_resume, in_raw_yield,
  from_send, from_yield, nothing, scoped, World, standard,
}
use generator_rs.Gen.Machine.{at, running, run}
use generator_rs.Gen.Handover.{Like, IsOn, IsOff}
use generator_rs.Gen.Sends
use generator_rs.Gen.Sends.{IsReady}
use generator_rs.Gen.Inward.{inward_lem}
use generator_rs.Gen.Leave
use generator_rs.Gen.Rounds.{IsRunning}
use generator_rs.Gen.Forward.{yield_from_lem}
use generator_rs.Tests.Worlds.{
  Place, rests, yields, sends, returns, act, client, slot, gen, off, context_of, busy,
}

abbrev caller : Kont Place
caller = waiting (in_resume 12) Base.main rests

abbrev forwarding : Kont Place
forwarding = waiting (from_send 12 8 (scoped 12)) (body 12) rests

abbrev root : Context (Kont Place)
root = context_of 8 12 1 0 caller

abbrev outer : Context (Kont Place)
outer = context_of 4 8 1 0 forwarding

abbrev inner : Context (Kont Place)
inner = record (busy 1 0) { parent = 12 }

abbrev nested : World Place
nested = record {
  mem = record {
    root = 4;
    contexts = λ a.
        if a == 4
        then some root
        else if a == 8
        then some inner
        else if a == 12
        then some outer
        else none;
    paras = λ a. if a == 8 then some slot else if a == 12 then some slot else none;
    rets = λ a. if a == 8 then some slot else if a == 12 then some slot else none;
  };
  gens = λ a. if a == 8 then some (gen none) else if a == 12 then some (gen none) else none;
  hook = standard;
  filter_on = true;
  root_box = 4;
  fuel = 9;
  usage = λ a. (512, 100);
}

inside : IsRunning nested 8 (12 ∷ []) inner slot forwarding
inside = record {
  ring = record {
    base = (ground arith, refl, refl);
    chain = ((ground arith, refl, refl), ((ground arith, refl, refl), tt));
    distinct = (refl, (refl, (refl, tt)));
  };
  here = refl;
  ret = refl;
  below = (outer, refl, refl);
}

yield_from_example :
    (w' : World Place) × (run client 3 (at (running (body 8) yields Reply.unit) nested)
      ≡ at (running Base.main rests (value (some 5))) w')
    × IsOff w'.mem.contexts 4 12 []
        (waiting (from_yield 12 8 (scoped 12)) (body 12) rests)
        (record outer { ref = 0 })
    × IsOff w'.mem.contexts 4 8 []
        (waiting (in_raw_yield 8 nothing) (body 8) rests)
        (record inner { ref = 0 })
    × (w'.gens ≡ nested.gens)
    × (w'.hook ≡ standard)
yield_from_example =
    yield_from_lem client nested 8 12 [] inner outer slot slot (in_resume 12) Base.main rests rests
      yields Reply.unit (scoped 8) (scoped 12) 5 nothing rests inside refl refl refl refl
      (root, refl, refl) (Leave.by_resume 12) refl refl (Leave.by_scope_yield_with 8 5) refl

-- Both generators are off, the one at 12 in the yield of `yield_from`.
abbrev parked : Context (Kont Place)
parked = record (context_of 12 0 0 0 (waiting (from_yield 12 8 (scoped 12)) (body 12) rests)) {
  para = 12;
  ret = 12;
}

abbrev asleep : Context (Kont Place)
asleep = context_of 8 0 0 0 (waiting (in_raw_yield 8 (then_take 8)) (body 8) returns)

abbrev apart : World Place
apart = record nested {
  mem = record (nested.mem) {
    contexts = λ a.
        if a == 4
        then some off
        else if a == 8
        then some asleep
        else if a == 12
        then some parked
        else none;
  };
}

abbrev driver : Client
driver = record {
  Local = Place;
  next = λ p r. elim p [ sends ↦ call (Op.raw_send 12 (some 4)) rests | q ↦ act q r ];
}

alone :
    (g : Ptr) (c : Context (Kont Place))
    → (g ≡ 8) ⊎ (g ≡ 12)
    → apart.mem.contexts g ≡ some c
    → Ring apart.mem.contexts g []
    → IsReady apart g [] c (gen none) slot
alone g c which here own = record {
  running = record { base = (ground arith, refl, refl); chain = tt; distinct = (refl, tt) };
  own = own;
  apart = ground arith;
  here = here;
  gen = ground arith;
  para = ground arith;
  below = (off, refl);
}

own-Ring : (g : Ptr) → (g ≡ 8) ⊎ (g ≡ 12) → Ring apart.mem.contexts g []
own-Ring g (inl e) =
    rw e (record { base = (ground arith, refl, refl); chain = tt; distinct = (refl, tt) })
own-Ring g (inr e) =
    rw e (record { base = (ground arith, refl, refl); chain = tt; distinct = (refl, tt) })

inward_example :
    (w' : World Place) × (run driver 3 (at (running Base.main sends Reply.unit) apart)
      ≡ at (running (body 8) returns (value (some 4))) w')
    × IsOn w'.mem.contexts 4 8 (12 ∷ []) forwarding (record asleep { ref = 1 })
    × Like (w'.mem.contexts 12) (record parked { ref = 1; regs = forwarding })
    × (w'.gens ≡ apart.gens)
    × (w'.hook ≡ standard)
inward_example =
    inward_lem driver apart 12 8 [] parked asleep (gen none) (gen none) slot slot Base.main sends
      rests rests returns Reply.unit (scoped 12) (then_take 8)
      (alone 12 parked (inr refl) refl (own-Ring 12 (inr refl))) (Sends.by_raw_send 12 (some 4))
      refl refl refl refl (alone 8 asleep (inl refl) refl (own-Ring 8 (inl refl))) (ground arith)
      refl refl refl
