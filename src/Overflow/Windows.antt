-- ===== src/Overflow/Windows.antt =====
-- src/stack/overflow_windows.rs. An exception is given by whether its code is
-- `EXCEPTION_STACK_OVERFLOW` and by the stack pointer where it was raised. What the handler prints is
-- left out.
use generator_rs.Base.{ℕ, Bool, Option, none, some, add_word, if◌then◌else◌}
use generator_rs.Panic.{error, Error, Outcome, M, ok, panic, fault, pure, ◌>>=◌, ◌>>◌}
use generator_rs.Rt.Context.{Ptr, load}
use generator_rs.Rt.Env.{top, pop_context, guard_current}
use generator_rs.Gen.Types.{World, on_mem}
use generator_rs.Gen.Impl.{with_context, env}
use generator_rs.Gen.Machine.{Machine, at, arriving, crashed}
use generator_rs.Regs.Machine.{Cpu, gpr}
use generator_rs.Regs.Windows.{Tib}
use generator_rs.Overflow.Unix.{contains}

-- `context_init`: the thread is to go on where the block `regs` of registers stands.
unfoldable pub context_init : (regs : ℕ) → (word : ℕ → ℕ) → Cpu → Cpu × Tib
context_init regs w context =
    let rsp = w (gpr regs 1) in
    (
      record context {
        rbx = w (gpr regs 0);
        rsp = add_word rsp 8;
        rbp = w (gpr regs 2);
        r12 = w (gpr regs 4);
        r13 = w (gpr regs 5);
        r14 = w (gpr regs 6);
        r15 = w (gpr regs 7);
        rip = w rsp;
      },
      record {
        stack_base = w (gpr regs 11);
        stack_limit = w (gpr regs 12);
        dealloc = w (gpr regs 13);
      },
    )

module _ {S : Type 0} where
  -- `vectored_handler`: the context to go on in (`EXCEPTION_CONTINUE_EXECUTION`), or none
  -- (`EXCEPTION_CONTINUE_SEARCH`).
  unfoldable pub vectored_handler :
      (page_size : ℕ) → (is_overflow : Bool) → (rsp : ℕ) → M (World S) (Option Ptr)
  vectored_handler page_size is_overflow rsp =
      if is_overflow
      then (do
        root ← env
        guard ← on_mem (guard_current page_size root)
        if contains guard rsp
            then (do
              cur ← on_mem (top root)
              with_context cur λ c. record c { err = some (error Error.stack_err) }
              parent ← on_mem (pop_context root cur)
              pure (some parent))
            else pure none)
      else pure none

  -- What the thread goes on with, where `m` is where the exception was raised. `context_init` loads
  -- the registers of a context, and saves none.
  unfoldable pub excepted : Outcome (World S) (Option Ptr) → (m : Machine S) → Machine S
  excepted (ok (some parent) w) m = elim (on_mem (load parent) w) [
    | ok c w' ↦ at (arriving c.regs) w'
    | panic e w' ↦ at crashed w'
    | fault ↦ at crashed w
  ]
  excepted (ok none w) m = m
  excepted (panic e w) m = at crashed w
  excepted fault m = m
