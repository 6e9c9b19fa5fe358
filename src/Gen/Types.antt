-- ===== src/Gen/Types.antt =====
-- The state of a thread that runs generators.
--
-- The code that uses the library, the closures of the generators among it, is a parameter: `Local` is
-- the state of a piece of such code between two of its calls, and `next` says what it does when the
-- last call has been answered. It can catch a panic that a call raises and go on.
--
-- The library's own code between two switches is a function on `World`. A switch saves the rest of
-- the library's function as a `Frame` above the code that called it.
use generator_rs.Base.{ℕ, Bool, Option, none, some, update}
use generator_rs.Panic.{Payload, ok, panic, fault, M}
use generator_rs.Rt.Context.{Ptr, TypeId, Memory}

-- What a call answers with.
pub data Reply : Type 0 where
  unit : Reply
  bool : Bool → Reply
  value : Option ℕ → Reply
  word : ℕ → Reply
  words : ℕ → ℕ → Reply
  payload : Option Payload → Reply
  -- The call has raised a panic.
  unwind : Payload → Reply

-- A closure, with the value that `Stack::end` has once it has been moved onto the stack.
pub record Closure (S : Type 0) : Type 0 where
  pub state : S
  pub stack_end : ℕ

-- The library's interface. A generator is named by its address; a `Scope` by that of its generator.
pub data Op (S : Type 0) : Type 0 where
  -- `Gn::new_opt` and `Gn::new_scoped_opt` at types A and T. The address and the low end of the new
  -- stack are the allocator's, null if it fails.
  new_opt : (at bottom : ℕ) (a t : TypeId) → Closure S → Op S
  new_scoped_opt : (at bottom : ℕ) (a t : TypeId) → (Ptr → Closure S) → Op S
  init_code : Ptr → Closure S → Op S
  scoped_init : Ptr → (Ptr → Closure S) → Op S
  set_para : Ptr → ℕ → Op S
  set_local_data : Ptr → Ptr → Op S
  get_local_data : Ptr → Op S
  get_panic_data : Ptr → Op S
  resume : Ptr → Op S
  raw_send : Ptr → Option ℕ → Op S
  send : Ptr → ℕ → Op S
  cancel : Ptr → Op S
  is_done : Ptr → Op S
  stack_usage : Ptr → Op S
  -- Drop of a generator; the flag is `thread::panicking()`.
  drop : Ptr → Bool → Op S
  done : Op S
  yield_with : TypeId → ℕ → Op S
  get_yield : TypeId → Op S
  yield_ : (a t : TypeId) → ℕ → Op S
  yield_from : (a t : TypeId) → Ptr → Op S
  co_yield_with : TypeId → ℕ → Op S
  co_get_yield : TypeId → Op S
  co_set_para : TypeId → ℕ → Op S
  is_generator : Op S
  thread_local_data : Op S
  scope_yield_with : Ptr → ℕ → Op S
  scope_get_yield : Ptr → Op S
  scope_yield : Ptr → ℕ → Op S
  scope_yield_from : Ptr → Ptr → Op S

pub data Action (S : Type 0) : Type 0 where
  ret : ℕ → Action S
  raise : Payload → Action S
  call : Op S → S → Action S

pub record Client : Type 1 where
  pub Local : Type 0
  pub next : Local → Reply → Action Local

-- The thread's panic hook.
pub data Hook : Type 0 where
  standard : Hook
  custom : ℕ → Hook
  -- `|_| {}`, of `raw_cancel`.
  silent : Hook
  -- The one of `catch_unwind_filter`, in front of another.
  filtered : Hook → Hook

-- Where a loop of `yield_from` reads and writes: the context, at types A and T, or a scope.
pub data Channel : Type 0 where
  typed : (a t : TypeId) → Channel
  scoped : Ptr → Channel

-- What `raw_yield` is followed by.
pub data AfterYield : Type 0 where
  nothing : AfterYield
  then_get : TypeId → AfterYield
  then_take : Ptr → AfterYield

-- The rest of a function of the library, behind its call of `RegContext::swap`.
pub data Frame (S : Type 0) : Type 0 where
  in_resume : Ptr → Frame S
  in_send : Ptr → Frame S
  -- Behind `resume_gen` of `raw_cancel`, with the old hook.
  in_cancel : Ptr → Hook → Frame S
  in_init : Ptr → Hook → Closure S → Frame S
  in_drop : Ptr → Hook → Reply → Frame S
  in_raw_yield : Ptr → AfterYield → Frame S
  in_co_yield : Frame S
  -- The two switches of a loop of `yield_from`, in the context of the caller.
  from_send : Ptr → Ptr → Channel → Frame S
  from_yield : Ptr → Ptr → Channel → Frame S

-- Whose code runs: the thread's own, or the closure of a generator.
pub data Base : Type 0 where
  main : Base
  body : Ptr → Base

-- What saved registers stand for.
pub data Kont (S : Type 0) : Type 0 where
  zeroed : Kont S
  -- A call frame of `gen_init` on the `f` of a generator.
  entry : Ptr → Kont S
  waiting : Frame S → Base → S → Kont S
  -- Behind the last `yield_now` of `gen_init_impl`.
  finished : Kont S

-- `GeneratorImpl` but for its context, `para` and `ret`, which are in `Memory`.
pub record GeneratorImpl (S : Type 0) : Type 0 where
  -- `stack.begin()`
  pub bottom : ℕ
  pub f : Option (Closure S)

pub record World (S : Type 0) : Type 0 where
  pub mem : Memory (Kont S)
  pub gens : Ptr → Option (GeneratorImpl S)
  pub hook : Hook
  -- `INIT` of `catch_unwind_filter`.
  pub filter_on : Bool
  -- Where `Box::new` puts a root context.
  pub root_box : Ptr
  -- More contexts than there are: the fuel of the walks down the parent pointers.
  pub fuel : ℕ
  -- What `stack_usage` finds: the scan is in Stack/Words.antt, and nothing here changes it.
  pub usage : Ptr → ℕ × ℕ

-- How a function of the library goes on: it returns, or it switches from the registers of one
-- context to those of another.
pub data Control (S : Type 0) : Type 0 where
  reply : Reply → Control S
  switch : (out : Ptr) → Frame S → (into : Ptr) → Control S

module _ {S : Type 0} where
  -- An operation on the contexts.
  abbrev pub on_mem : {A : Type 0} → M (Memory (Kont S)) A → M (World S) A
  on_mem f w = elim (f w.mem) [
    | ok a m ↦ ok a (record w { mem = m })
    | panic e m ↦ panic e (record w { mem = m })
    | fault ↦ fault
  ]

  unfoldable pub load_gen : Ptr → M (World S) (GeneratorImpl S)
  load_gen g w = elim (w.gens g) [ none ↦ fault | some i ↦ ok i w ]

  unfoldable pub store_gen : Ptr → GeneratorImpl S → M (World S) (Unit {0})
  store_gen g i w = ok tt (record w { gens = update w.gens g (some i) })
