-- ===== src/Regs/Riscv64.antt =====
-- src/detail/riscv64_unix.rs with src/detail/asm/asm_riscv64_c_elf.S. x0 to x31 have the numbers 0 to
-- 31 (ra 1, sp 2, fp 8, s1 9, a0 10, a1 11, s2 to s11 18 to 27), and f0 to f31 have 32 to 63 (fs0 and
-- fs1 40 and 41, fs2 to fs11 50 to 59).
use generator_rs.Base.{ℕ, ◌*◌, [], ◌∷◌, update}
use generator_rs.Regs.Machine.{align_down}
use generator_rs.Regs.Linked.{Target}

-- `Registers` has this many bytes.
abbrev pub size : ℕ
size = 32 * 8

-- `Registers::new`
abbrev pub new : ℕ → ℕ
new o = 0

-- What `swap_registers` saves in it.
abbrev pub target : Target
target = record {
  size = size;
  saved =
      (18, 0)
      ∷ (19, 8)
      ∷ (20, 16)
      ∷ (21, 24)
      ∷ (22, 32)
      ∷ (23, 40)
      ∷ (24, 48)
      ∷ (25, 56)
      ∷ (26, 64)
      ∷ (27, 72)
      ∷ (8, 80)
      ∷ (9, 88)
      ∷ (2, 96)
      ∷ (1, 104)
      ∷ (40, 112)
      ∷ (41, 120)
      ∷ (50, 128)
      ∷ (51, 136)
      ∷ (52, 144)
      ∷ (53, 152)
      ∷ (54, 160)
      ∷ (55, 168)
      ∷ (56, 176)
      ∷ (57, 184)
      ∷ (58, 192)
      ∷ (59, 200)
      ∷ [];
  moved = [];
  scratch = [];
  first = 10;
  second = 11;
  link = 1;
  stack = 2;
  arg = 18;
  arg2 = 19;
  fptr = 20;
}

-- `initialize_call_frame`, on the block.
unfoldable pub initialize_call_frame : (fptr arg arg2 stack_end bootstrap : ℕ) → (ℕ → ℕ) → ℕ → ℕ
initialize_call_frame fptr arg arg2 stack_end bootstrap w =
    let sp = align_down stack_end in
    let w1 = update w (0 * 8) arg in
    let w2 = update w1 (1 * 8) arg2 in
    let w3 = update w2 (2 * 8) fptr in
    let w4 = update w3 (10 * 8) sp in
    let w5 = update w4 (11 * 8) 0 in let w6 = update w5 (12 * 8) sp in update w6 (13 * 8) bootstrap
