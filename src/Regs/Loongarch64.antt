-- ===== src/Regs/Loongarch64.antt =====
-- src/detail/loongarch64_unix.rs with src/detail/asm/asm_loongarch64_sysv_elf.S. r0 to r31 have the
-- numbers 0 to 31 (ra 1, sp 3, a0 4, a1 5, fp 22, s0 to s8 23 to 31), and f0 to f31 have 32 to 63 (fs0
-- to fs7 56 to 63).
use generator_rs.Base.{ℕ, ◌*◌, [], ◌∷◌, update}
use generator_rs.Regs.Machine.{align_down}
use generator_rs.Regs.Linked.{Target}

-- `Registers` has this many bytes.
abbrev pub size : ℕ
size = 20 * 8

-- `Registers::new`
abbrev pub new : ℕ → ℕ
new o = 0

-- What `swap_registers` saves in it.
abbrev pub target : Target
target = record {
  size = size;
  saved =
      (1, 0)
      ∷ (3, 8)
      ∷ (22, 16)
      ∷ (23, 24)
      ∷ (24, 32)
      ∷ (25, 40)
      ∷ (26, 48)
      ∷ (27, 56)
      ∷ (28, 64)
      ∷ (29, 72)
      ∷ (30, 80)
      ∷ (31, 88)
      ∷ (56, 96)
      ∷ (57, 104)
      ∷ (58, 112)
      ∷ (59, 120)
      ∷ (60, 128)
      ∷ (61, 136)
      ∷ (62, 144)
      ∷ (63, 152)
      ∷ [];
  moved = [];
  scratch = [];
  first = 4;
  second = 5;
  link = 1;
  stack = 3;
  arg = 23;
  arg2 = 24;
  fptr = 25;
}

-- `initialize_call_frame`, on the block.
unfoldable pub initialize_call_frame : (fptr arg arg2 stack_end bootstrap : ℕ) → (ℕ → ℕ) → ℕ → ℕ
initialize_call_frame fptr arg arg2 stack_end bootstrap w =
    let sp = align_down stack_end in
    let w1 = update w (3 * 8) arg in
    let w2 = update w1 (4 * 8) arg2 in
    let w3 = update w2 (5 * 8) fptr in
    let w4 = update w3 (2 * 8) sp in let w5 = update w4 (0 * 8) bootstrap in update w5 (1 * 8) sp
