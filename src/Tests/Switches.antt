-- ===== src/Tests/Switches.antt =====
-- Switches of a processor at concrete addresses.
use generator_rs.Base.{ℕ, ◌≡◌, ◌≤◌, ◌+◌, ◌%◌, refl, inr, arith}
use generator_rs.Regs.Machine.{
  Cpu, Core, initialize_call_frame, swap_registers, bootstrap_green_task,
}
use generator_rs.Regs.Switch.{swap_registers_lem, initialize_call_frame_lem}

abbrev pub cpu : (rdi rsi rsp : ℕ) → Cpu
cpu rdi rsi rsp = record {
  rbx = 11;
  rsp = rsp;
  rbp = 12;
  r12 = 13;
  r13 = 14;
  r14 = 15;
  r15 = 16;
  rdi = rdi;
  rsi = rsi;
  rax = 0;
  rip = 0;
}

abbrev leaving : Core
leaving = record { cpu = cpu 1000 2000 3000; word = λ a. a }

abbrev returning : Core
returning = record { cpu = cpu 2000 1000 4000; word = (swap_registers leaving).word }

swap_registers_example :
    let c = (swap_registers returning).cpu in
    (c.rbx ≡ 11)
    × (c.rbp ≡ 12)
    × (c.r12 ≡ 13)
    × (c.r13 ≡ 14)
    × (c.r14 ≡ 15)
    × (c.r15 ≡ 16)
    × (c.rsp ≡ 3008)
    × (c.rip ≡ 3000)
swap_registers_example =
    swap_registers_lem leaving returning refl (λ i l. refl) refl (inr (omega arith))
      (inr (omega arith)) (inr (omega arith))

abbrev entering : Core
entering = record {
  cpu = cpu 2000 1000 3000;
  word = initialize_call_frame 1000 7 1 2 8000 9 (λ a. a);
}

initialize_call_frame_example :
    let b = swap_registers entering in
    let e = bootstrap_green_task b in
    (b.cpu.rip ≡ 9)
    × (e.cpu.rip ≡ 7)
    × (e.cpu.rdi ≡ 1)
    × (e.cpu.rsi ≡ 2)
    × (e.cpu.rbp ≡ 0)
    × (e.cpu.rsp % 16 ≡ 8)
    × (e.cpu.rsp + 8 ≤ 8000)
    × (e.word e.cpu.rsp ≡ 0)
initialize_call_frame_example =
    initialize_call_frame_lem entering (λ a. a) 1000 7 1 2 8000 9 refl refl (omega arith)
      (omega arith) (inr (omega arith)) (inr (omega arith)) (inr (omega arith))
