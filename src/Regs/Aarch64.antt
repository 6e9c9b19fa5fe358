-- ===== src/Regs/Aarch64.antt =====
-- src/detail/aarch64_unix.rs with src/detail/asm/asm_aarch64_aapcs_elf.S. x0 to x30 have the numbers
-- 0 to 30, sp has 31, and d0 to d31 have 32 to 63.
use generator_rs.Base.{ℕ, ◌*◌, [], ◌∷◌, update}
use generator_rs.Regs.Machine.{align_down}
use generator_rs.Regs.Linked.{Target}

-- `Registers` has this many bytes.
abbrev pub size : ℕ
size = 32 * 8

-- `Registers::new`
abbrev pub new : ℕ → ℕ
new o = 0

-- What `swap_registers` saves in it.
abbrev pub target : Target
target = record {
  size = size;
  saved =
      (19, 0)
      ∷ (20, 8)
      ∷ (21, 16)
      ∷ (22, 24)
      ∷ (23, 32)
      ∷ (24, 40)
      ∷ (25, 48)
      ∷ (26, 56)
      ∷ (27, 64)
      ∷ (28, 72)
      ∷ (29, 80)
      ∷ (30, 88)
      ∷ (31, 96)
      ∷ (40, 112)
      ∷ (41, 120)
      ∷ (42, 128)
      ∷ (43, 136)
      ∷ (44, 144)
      ∷ (45, 152)
      ∷ (46, 160)
      ∷ (47, 168)
      ∷ [];
  moved = [];
  scratch = 2 ∷ [];
  first = 0;
  second = 1;
  link = 30;
  stack = 31;
  arg = 19;
  arg2 = 20;
  fptr = 21;
}

-- `initialize_call_frame`, on the block: `stack_end` is that of the stack, `bootstrap` the address of
-- `bootstrap_green_task`.
unfoldable pub initialize_call_frame : (fptr arg arg2 stack_end bootstrap : ℕ) → (ℕ → ℕ) → ℕ → ℕ
initialize_call_frame fptr arg arg2 stack_end bootstrap w =
    let sp = align_down stack_end in
    let w1 = update w (0 * 8) arg in
    let w2 = update w1 (1 * 8) arg2 in
    let w3 = update w2 (2 * 8) fptr in
    let w4 = update w3 (10 * 8) sp in let w5 = update w4 (11 * 8) bootstrap in update w5 (12 * 8) sp
