-- ===== src/Regs/Windows.antt =====
-- src/detail/x86_64_windows.rs with src/detail/asm/asm_x86_64_sysv_pe.S: as on Unix, and the bounds of
-- the stack in the thread information block, which Windows checks, are exchanged too.
use generator_rs.Base.{ℕ, add_word, sub_word, update}
use generator_rs.Regs.Machine.{Cpu, align_down, gpr, save}

-- `NT_TIB`, the fields at 0x08, 0x10 and 0x1478.
pub record Tib : Type 0 where
  pub stack_base : ℕ
  pub stack_limit : ℕ
  pub dealloc : ℕ

pub record Core : Type 0 where
  pub cpu : Cpu
  pub r10 : ℕ
  pub word : ℕ → ℕ
  -- What `gs:[0x30]` holds, the address of the block, and the block.
  pub teb : ℕ
  pub tib : Tib

-- `initialize_call_frame`: `stack_begin` and `stack_end` are those of the stack, `bootstrap` the
-- address of `bootstrap_green_task`.
unfoldable pub initialize_call_frame :
    (regs fptr arg arg2 stack_begin stack_end bootstrap : ℕ) → (ℕ → ℕ) → ℕ → ℕ
initialize_call_frame regs fptr arg arg2 stack_begin stack_end bootstrap w =
    let sp = align_down stack_end in
    let w1 = update w (gpr regs 4) arg in
    let w2 = update w1 (gpr regs 5) arg2 in
    let w3 = update w2 (gpr regs 6) fptr in
    let w4 = update w3 (gpr regs 2) 0 in
    let w5 = update w4 (gpr regs 11) stack_end in
    let w6 = update w5 (gpr regs 12) stack_begin in
    let w7 = update w6 (gpr regs 13) 0 in
    let w8 = update w7 (gpr regs 1) (sub_word sp 16) in
    let w9 = update w8 (sub_word sp 16) bootstrap in update w9 (sub_word sp 8) 0

-- The seven loads of `swap_registers`.
abbrev pub load : Cpu → (ℕ → ℕ) → Cpu
load c w = record c {
  rbx = w (gpr c.rsi 0);
  rsp = w (gpr c.rsi 1);
  rbp = w (gpr c.rsi 2);
  r12 = w (gpr c.rsi 4);
  r13 = w (gpr c.rsi 5);
  r14 = w (gpr c.rsi 6);
  r15 = w (gpr c.rsi 7);
}

-- The bounds of the stack, stored and loaded.
abbrev pub save_tib : Cpu → Tib → (ℕ → ℕ) → ℕ → ℕ
save_tib c t w =
    let w1 = update w (gpr c.rdi 11) t.stack_base in
    let w2 = update w1 (gpr c.rdi 12) t.stack_limit in update w2 (gpr c.rdi 13) t.dealloc

abbrev pub load_tib : Cpu → (ℕ → ℕ) → Tib
load_tib c w = record {
  dealloc = w (gpr c.rsi 13);
  stack_limit = w (gpr c.rsi 12);
  stack_base = w (gpr c.rsi 11);
}

-- `swap_registers`: the seven registers are stored and loaded, then the bounds are, then `pop rax` and
-- `jmp rax`.
unfoldable pub swap_registers : Core → Core
unfolding save
swap_registers k =
    let w1 = save k.cpu k.word in
    let c = load k.cpu w1 in
    let w = save_tib c k.tib w1 in
    record k {
      cpu = record c { rsp = add_word c.rsp 8; rax = w c.rsp; rip = w c.rsp };
      r10 = k.teb;
      word = w;
      tib = load_tib c w;
    }
