-- ===== src/Tests/Targets.antt =====
-- Switches of the targets with a link register, and of Windows, at concrete addresses.
use generator_rs.Base.{
  ℕ, ◌≡◌, ◌+◌, false, ◌&&◌, ltb, refl, inl, inr, true, arith, ◌==◌, if◌then◌else◌, has,
}
use generator_rs.Regs.Linked.{Core, swap_registers, bootstrap_green_task}
use generator_rs.Regs.Targets.{
  aarch64, riscv64, target, callee_saved, frame, initialize_call_frame, swap_registers_kept,
  initialize_call_frame_enters,
}
use generator_rs.Regs.Windows
use generator_rs.Regs.Windows.{Tib}
use generator_rs.Regs.Bounds.{bounds_kept}
use generator_rs.Overflow.Windows.{context_init}
use generator_rs.Overflow.Exceptions.{context_init_lem}
use generator_rs.Tests.Switches.{cpu}

-- On aarch64, a switch from 1000 to 2000, and one back by other registers.
abbrev leaving : Core
leaving = record {
  file = λ r. if r == 0 then 1000 else if r == 1 then 2000 else r + 50;
  pc = 0;
  blocks = λ b o. b + o;
}

abbrev returning : Core
returning = record {
  file = λ r. if r == 0 then 2000 else if r == 1 then 1000 else 0;
  pc = 0;
  blocks = (swap_registers (target aarch64) leaving).blocks;
}

swap_registers_kept_example :
    ((swap_registers (target aarch64) returning).pc ≡ 80)
    × ((r : ℕ)
        → has r (callee_saved aarch64) ≡ true
        → (swap_registers (target aarch64) returning).file r ≡ leaving.file r)
    × ((b o : ℕ)
        → ((b == 2000) && ltb o 256) ≡ false
        → (swap_registers (target aarch64) returning).blocks b o ≡ returning.blocks b o)
swap_registers_kept_example = swap_registers_kept aarch64 leaving returning refl refl refl

-- On riscv64, a switch into the block at 1000.
abbrev entering : Core
entering = record {
  file = λ r. if r == 10 then 2000 else if r == 11 then 1000 else 0;
  pc = 0;
  blocks = λ b. initialize_call_frame riscv64 7 1 2 8008 9 (λ o. 0);
}

initialize_call_frame_enters_example :
    let b = swap_registers (target riscv64) entering in
    let e = bootstrap_green_task (target riscv64) b in
    (b.pc ≡ 9)
    × (e.pc ≡ 7)
    × (e.file 10 ≡ 1)
    × (e.file 11 ≡ 2)
    × (e.file 1 ≡ 0)
    × (e.file 2 ≡ 8000)
    × (e.file (frame riscv64) ≡ 8000)
initialize_call_frame_enters_example =
    initialize_call_frame_enters riscv64 entering 7 1 2 8008 9 (λ o. 0) refl refl (omega arith)

-- On Windows.
abbrev tib : Tib
tib = record { stack_base = 9000; stack_limit = 5000; dealloc = 4000 }

abbrev windows : (rdi rsi rsp : ℕ) → (ℕ → ℕ) → Windows.Core
windows rdi rsi rsp w = record { cpu = cpu rdi rsi rsp; r10 = 0; word = w; teb = 70; tib = tib }

abbrev away : Windows.Core
away = windows 1000 2000 6000 (λ a. a)

abbrev back : Windows.Core
back = windows 2000 1000 7000 (Windows.swap_registers away).word

bounds_kept_example :
    let c = (Windows.swap_registers back).cpu in
    (c.rbx ≡ 11)
    × (c.rbp ≡ 12)
    × (c.r12 ≡ 13)
    × (c.r13 ≡ 14)
    × (c.r14 ≡ 15)
    × (c.r15 ≡ 16)
    × (c.rsp ≡ 6008)
    × (c.rip ≡ 6000)
    × ((Windows.swap_registers back).tib ≡ tib)
bounds_kept_example =
    bounds_kept away back refl (λ i l. refl) refl (inr (omega arith)) (inr (omega arith))
      (inr (omega arith))

context_init_example :
    let (c, t) = context_init 2000 (λ a. a) (cpu 1000 2000 6000) in
    let d = (Windows.swap_registers away).cpu in
    (d.rbx ≡ c.rbx)
    × (d.rsp ≡ c.rsp)
    × (d.rbp ≡ c.rbp)
    × (d.r12 ≡ c.r12)
    × (d.r13 ≡ c.r13)
    × (d.r14 ≡ c.r14)
    × (d.r15 ≡ c.r15)
    × (d.rip ≡ c.rip)
    × ((Windows.swap_registers away).tib ≡ t)
context_init_example = context_init_lem away (inl (omega arith)) (inr (omega arith))
