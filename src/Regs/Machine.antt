-- ===== src/Regs/Machine.antt =====
-- src/detail/x86_64_unix.rs, its assembly src/detail/asm/asm_x86_64_sysv_elf.S, and the helpers of
-- src/detail/mod.rs.
--
-- `word` holds the 8 bytes at an address; `Registers` is the block of eight words at an address. An
-- instruction is a function of the registers and the words; a jump sets `rip`.
use Prim.Native.Nat.{bit_and}
use generator_rs.Base.{ℕ, ◌+◌, ◌*◌, add_word, sub_word, update}
use generator_rs.Base.Bits.{bit_not}

pub record Cpu : Type 0 where
  pub rbx : ℕ
  pub rsp : ℕ
  pub rbp : ℕ
  pub r12 : ℕ
  pub r13 : ℕ
  pub r14 : ℕ
  pub r15 : ℕ
  pub rdi : ℕ
  pub rsi : ℕ
  pub rax : ℕ
  pub rip : ℕ

pub record Core : Type 0 where
  pub cpu : Cpu
  pub word : ℕ → ℕ

-- `align_down`
abbrev pub align_down : ℕ → ℕ
align_down sp = bit_and sp (bit_not 15)

-- `gpr[i]` of the `Registers` at an address.
abbrev pub gpr : ℕ → ℕ → ℕ
gpr regs i = regs + i * 8

-- `initialize_call_frame`: `stack_end` is that of the stack, `bootstrap` the address of
-- `bootstrap_green_task`.
unfoldable pub initialize_call_frame :
    (regs fptr arg arg2 stack_end bootstrap : ℕ) → (ℕ → ℕ) → ℕ → ℕ
initialize_call_frame regs fptr arg arg2 stack_end bootstrap w =
    let sp = align_down stack_end in
    let w1 = update w (gpr regs 4) arg in
    let w2 = update w1 (gpr regs 5) arg2 in
    let w3 = update w2 (gpr regs 6) fptr in
    let w4 = update w3 (gpr regs 2) 0 in
    let w5 = update w4 (gpr regs 1) (sub_word sp 16) in
    let w6 = update w5 (sub_word sp 16) bootstrap in update w6 (sub_word sp 8) 0

-- The seven stores of `swap_registers`.
unfoldable pub save : Cpu → (ℕ → ℕ) → ℕ → ℕ
save c w =
    let w1 = update w (gpr c.rdi 0) c.rbx in
    let w2 = update w1 (gpr c.rdi 1) c.rsp in
    let w3 = update w2 (gpr c.rdi 2) c.rbp in
    let w4 = update w3 (gpr c.rdi 4) c.r12 in
    let w5 = update w4 (gpr c.rdi 5) c.r13 in
    let w6 = update w5 (gpr c.rdi 6) c.r14 in update w6 (gpr c.rdi 7) c.r15

-- Its seven loads, `pop rax` and `jmp rax`.
unfoldable pub restore : Cpu → (ℕ → ℕ) → Cpu
restore c w =
    let rsp = w (gpr c.rsi 1) in
    record c {
      rbx = w (gpr c.rsi 0);
      rsp = add_word rsp 8;
      rbp = w (gpr c.rsi 2);
      r12 = w (gpr c.rsi 4);
      r13 = w (gpr c.rsi 5);
      r14 = w (gpr c.rsi 6);
      r15 = w (gpr c.rsi 7);
      rax = w rsp;
      rip = w rsp;
    }

-- `swap_registers`, called with `rdi` and `rsi`.
unfoldable pub swap_registers : Core → Core
swap_registers k = let w = save k.cpu k.word in record { cpu = restore k.cpu w; word = w }

-- `bootstrap_green_task`, up to its `ret`.
unfoldable pub bootstrap_green_task : Core → Core
bootstrap_green_task k =
    let rsp = align_down k.cpu.rsp in
    let w = update k.word rsp k.cpu.r14 in
    record {
      cpu = record (k.cpu) { rdi = k.cpu.r12; rsi = k.cpu.r13; rsp = add_word rsp 8; rip = w rsp };
      word = w;
    }
