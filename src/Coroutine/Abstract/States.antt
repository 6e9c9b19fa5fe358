-- ===== src/Coroutine/Abstract/States.antt =====
-- The state of the abstract view: who waits for whom, and what each generator at rest will do; and how
-- a generator is entered and left.
use generator_rs.Base.{
  ℕ, Bool, true, false, ◌&&◌, Option, none, some, List, [], ◌∷◌, ◌==◌, if◌then◌else◌, ltb, update,
}
use generator_rs.Panic.{Payload, error, text, Error, send_got_none}
use generator_rs.Rt.Context.{Ptr, TypeId}
use generator_rs.Gen.Types.{
  Reply, value, unwind, Channel, typed, scoped, AfterYield, nothing, then_get, then_take, Base,
  main, body,
}

-- What a generator that does not run will do when it is entered.
pub data Status (S : Type 0) : Type 0 where
  fresh : S → Status S
  paused : AfterYield → S → Status S
  -- It has ended, and this is left in its `ret`.
  over : Option ℕ → Status S

-- How a generator was entered.
pub data Way : Type 0 where
  resumes sends cancels drops : Way

-- A generator's two cells: what it takes, at which type, and the type of what it gives. Those of a
-- generator that `new_scoped` has made are reached through its scope only.
pub record Port : Type 0 where
  pub takes : TypeId
  pub gives : TypeId
  pub is_typed : Bool
  pub inbox : Option ℕ

-- A generator that runs, and the code that waits for it.
pub record Activation (S : Type 0) : Type 0 where
  pub gen : Ptr
  pub way : Way
  pub caller : S

pub data Stage (S : Type 0) : Type 0 where
  going : S → Reply → Stage S
  ended : ℕ → Stage S
  escaped : Payload → Stage S

pub record View (S : Type 0) : Type 0 where
  -- The address that the thread itself occupies.
  pub home : Ptr
  pub stage : Stage S
  -- Newest first.
  pub active : List (Activation S)
  pub rest : Ptr → Option (Status S)
  pub ports : Ptr → Port
  -- The words of each stack, and how many of them have been used.
  pub usage : Ptr → ℕ × ℕ

-- A call that finds a generator over, or whose generator ends by `Cancel` or `Done`.
abbrev pub refused : Way → Reply
refused resumes = value none
refused sends = unwind (text send_got_none)
refused cancels = Reply.unit
refused drops = Reply.unit

abbrev pub returns : Way → ℕ → Reply
returns cancels v = Reply.unit
returns drops v = Reply.unit
returns resumes v = value (some v)
returns sends v = value (some v)

-- What a generator may do behind a yield, and the channels it may yield through.
abbrev pub may_read : AfterYield → Ptr → Port → Bool
may_read nothing g p = true
may_read (then_get a) g p = p.is_typed && p.takes == a
may_read (then_take q) g p = q == g

abbrev pub may_write : Channel → Ptr → Port → Bool
may_write (typed a t) g p = p.is_typed && p.gives == t
may_write (scoped q) g p = q == g

-- A generator's cell once it has gone on behind a yield.
abbrev pub drained : AfterYield → Option ℕ → Option ℕ
drained nothing p = p
drained (then_get a) p = none
drained (then_take q) p = none

-- What the call that has entered a generator leaves in its `ret`.
abbrev pub leftover : Way → Option ℕ → Option ℕ
leftover resumes m = none
leftover sends m = none
leftover cancels m = m
leftover drops m = m

-- Code that is being cancelled or dropped is not to yield.
abbrev pub is_kept : Way → Bool
is_kept cancels = false
is_kept drops = false
is_kept resumes = true
is_kept sends = true

module _ {S : Type 0} where
  abbrev pub base : List (Activation S) → Base
  base [] = main
  base (x ∷ rest) = body x.gen

  abbrev pub gens : List (Activation S) → List Ptr
  gens [] = []
  gens (x ∷ rest) = x.gen ∷ gens rest

  abbrev pub answered : View S → S → Reply → View S
  answered a s r = record a { stage = going s r }

  -- `g` is entered by code that waits as `s`; it goes on as `t` with an answer, and has `p` in its
  -- cell.
  abbrev pub entered : View S → Ptr → Way → S → (t : S) → Reply → (p : Option ℕ) → View S
  entered a g way s t r p = record a {
    stage = going t r;
    active = record { gen = g; way = way; caller = s } ∷ a.active;
    rest = update a.rest g none;
    ports = update a.ports g (record (a.ports g) { inbox = p });
  }

  -- `x` stops with a status, or is gone, the newest of those that run, and the code that waits for it goes on.
  abbrev pub left : View S → Activation S → List (Activation S) → Option (Status S) → Reply → View S
  left a x rest o r = record a {
    stage = going x.caller r;
    active = rest;
    rest = update a.rest x.gen o;
  }

  -- The stack of `g` has an unused word.
  abbrev pub fits : View S → Ptr → Bool
  fits a g = ltb (a.usage g).1 (a.usage g).0

  -- `g` is gone.
  abbrev pub gone : View S → Ptr → S → View S
  gone a g s = record (answered a s Reply.unit) { rest = update a.rest g none }

  -- `g`, which has ended, is dropped.
  abbrev pub dropped : View S → Ptr → S → View S
  dropped a g s = if fits a g then gone a g s else answered a s (unwind (error Error.stack_err))
