-- ===== src/Coroutine/Refines.antt =====
-- When a thread of Gen/Machine.antt is in the state that an abstract view describes.
use generator_rs.Base.{ℕ, ◌%◌, ◌≡◌, ◌≢◌, true, false, none, some, List, [], ◌∷◌, ◌++◌, ◌==◌, has}
use generator_rs.Rt.Context.{Ptr, null, Context, Slot}
use generator_rs.Rt.Ring.{first, Ring}
use generator_rs.Gen.Types.{
  Reply, Closure, Frame, in_resume, in_send, in_cancel, in_drop, in_raw_yield, body, Kont, entry,
  waiting, Hook, GeneratorImpl, World,
}
use generator_rs.Gen.Machine.{Focus, running, Machine, at}
use generator_rs.Coroutine.Abstract.{
  Status, fresh, paused, over, Way, resumes, sends, cancels, drops, Port, Activation, Stage, going,
  ended, escaped, View, may_read, base, gens,
}

-- The frames of code that has entered a generator.
pub data Waits {S : Type 0} : Way → Ptr → Frame S → Type 0 where
  by_resume : (g : Ptr) → Waits resumes g (in_resume g)
  by_send : (g : Ptr) → Waits sends g (in_send g)
  by_cancel : (g : Ptr) (old : Hook) → Waits cancels g (in_cancel g old)
  by_drop : (g : Ptr) (old : Hook) → Waits drops g (in_drop g old Reply.unit)

-- The reference count of a generator that runs.
abbrev pub count : Way → ℕ
count resumes = 1
count sends = 1
count cancels = 2
count drops = 2

module _ {S : Type 0} where
  -- What is in memory for the generator `g` with these cells.
  pub record Owns (w : World S) (p : Port) (g : Ptr) (c : Context (Kont S)) (i : GeneratorImpl S)
      (s : Slot) : Type 0 where
    pub ne : g ≢ null
    pub here : w.mem.contexts g ≡ some c
    pub gen : w.gens g ≡ some i
    pub para : w.mem.paras g ≡ some (record { ty = p.takes; value = p.inbox })
    pub ret : w.mem.rets g ≡ some s
    pub ty : s.ty ≡ p.gives
    pub clean : c.err ≡ none
    pub plain : c.local_data ≡ null
    pub linked : p.is_typed ≡ true → (c.para ≡ g) × (c.ret ≡ g)

  -- It is at rest with a status.
  abbrev pub Holds : Status S → Port → Ptr → Context (Kont S) → GeneratorImpl S → Slot → Type 0
  Holds (fresh t) p g c i s =
      (c.regs ≡ entry g)
      × (c.ref ≡ 0)
      × (s.value ≡ none)
      × ((f : Closure S) × (i.f ≡ some f) × (f.state ≡ t))
  Holds (paused after t) p g c i s =
      (c.regs ≡ waiting (in_raw_yield g after) (body g) t)
      × (c.ref ≡ 0)
      × (s.value ≡ none)
      × (i.f ≡ none)
      × (may_read after g p ≡ true)
  Holds (over m) p g c i s = ((c.ref % 4 == 0) ≡ false) × (i.f ≡ none) × (s.value ≡ m)

  pub record AtRest (w : World S) (st : Status S) (p : Port) (g : Ptr) : Type 0 where
    pub c : Context (Kont S)
    pub i : GeneratorImpl S
    pub s : Slot
    pub owns : Owns w p g c i s
    pub own : c.parent ≡ g
    pub alone : c.child ≡ null
    pub holds : Holds st p g c i s

  pub record Runs (w : World S) (way : Way) (p : Port) (g : Ptr) : Type 0 where
    pub c : Context (Kont S)
    pub i : GeneratorImpl S
    pub s : Slot
    pub owns : Owns w p g c i s
    pub ref : c.ref ≡ count way
    pub empty : s.value ≡ none
    pub started : i.f ≡ none

  -- The context below a generator that runs has saved the code that entered it.
  pub record Below (w : World S) (x : Activation S) (rest : List (Activation S)) : Type 0 where
    pub frame : Frame S
    pub waits : Waits x.way x.gen frame
    pub ctx : Context (Kont S)
    pub here : w.mem.contexts (first (gens rest) w.mem.root) ≡ some ctx
    pub regs : ctx.regs ≡ waiting frame (base rest) x.caller

  abbrev pub Stacked : World S → (Ptr → Port) → List (Activation S) → Type 0
  Stacked w ports [] = Unit {0}
  Stacked w ports (x ∷ rest) =
      Runs w x.way (ports x.gen) x.gen × Below w x rest × Stacked w ports rest

  pub record Represents (a : View S) (w : World S) : Type 0 where
    pub home : w.mem.root ≡ a.home
    pub usage : w.usage ≡ a.usage
    pub ring : Ring w.mem.contexts w.mem.root (gens a.active)
    pub stacked : Stacked w a.ports a.active
    pub off :
        (g : Ptr) (st : Status S)
        → a.rest g ≡ some st
        → (has g (gens a.active ++ w.mem.root ∷ []) ≡ false) × AtRest w st (a.ports g) g

  -- The client's code has another answer.
  pub Represents-answered :
      (a : View S) (w : World S) (stage : Stage S)
      → Represents a w
      → Represents (record a { stage = stage }) w
  Represents-answered a w stage v = record {
    home = v.home;
    usage = v.usage;
    ring = v.ring;
    stacked = v.stacked;
    off = v.off;
  }

  abbrev pub focus : View S → Stage S → Focus S
  focus a (going s r) = running (base a.active) s r
  focus a (ended v) = Focus.returned v
  focus a (escaped e) = Focus.uncaught e

  -- The thread whose client code is in that stage.
  abbrev pub thread : View S → World S → Machine S
  thread a w = at (focus a a.stage) w
