-- ===== src/Regs/Arm.antt =====
-- src/detail/arm_unix.rs with src/detail/asm/asm_arm_aapcs_elf.S. r0 to r15 have the numbers 0 to 15,
-- and s0 to s31 have 16 to 47. A word has 4 bytes. Each `stmia` and `ldmia` moves its base
-- on, r0 or r1, which end behind the saved registers; the offsets are those from where they start.
use generator_rs.Base.{ℕ, ◌*◌, [], ◌∷◌, update}
use generator_rs.Regs.Machine.{align_down}
use generator_rs.Regs.Linked.{Target}

-- `Registers` has this many bytes.
abbrev pub size : ℕ
size = 32 * 4

-- `Registers::new`
abbrev pub new : ℕ → ℕ
new o = 0

-- What `swap_registers` saves in it.
abbrev pub target : Target
target = record {
  size = size;
  saved =
      (4, 0)
      ∷ (5, 4)
      ∷ (6, 8)
      ∷ (7, 12)
      ∷ (8, 16)
      ∷ (9, 20)
      ∷ (10, 24)
      ∷ (11, 28)
      ∷ (13, 32)
      ∷ (14, 36)
      ∷ (32, 40)
      ∷ (33, 44)
      ∷ (34, 48)
      ∷ (35, 52)
      ∷ (36, 56)
      ∷ (37, 60)
      ∷ (38, 64)
      ∷ (39, 68)
      ∷ (40, 72)
      ∷ (41, 76)
      ∷ (42, 80)
      ∷ (43, 84)
      ∷ (44, 88)
      ∷ (45, 92)
      ∷ (46, 96)
      ∷ (47, 100)
      ∷ [];
  moved = (0, 104) ∷ (1, 104) ∷ [];
  scratch = 2 ∷ [];
  first = 0;
  second = 1;
  link = 14;
  stack = 13;
  arg = 4;
  arg2 = 5;
  fptr = 6;
}

-- `initialize_call_frame`, on the block.
unfoldable pub initialize_call_frame : (fptr arg arg2 stack_end bootstrap : ℕ) → (ℕ → ℕ) → ℕ → ℕ
initialize_call_frame fptr arg arg2 stack_end bootstrap w =
    let sp = align_down stack_end in
    let w1 = update w (0 * 4) arg in
    let w2 = update w1 (1 * 4) arg2 in
    let w3 = update w2 (2 * 4) fptr in
    let w4 = update w3 (7 * 4) sp in let w5 = update w4 (9 * 4) bootstrap in update w5 (8 * 4) sp
