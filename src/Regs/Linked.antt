-- ===== src/Regs/Linked.antt =====
-- The switch of the targets that keep the return address in a register: src/detail/asm of aarch64,
-- arm, loongarch64 and riscv64. The four differ in what they save and where (`Target`).
--
-- Registers have numbers; those of the floating-point unit follow the general ones. `Registers` is a
-- block of words, indexed by their offsets in bytes. Two blocks are two values of Rust, so they are
-- the same or have nothing in common.
use generator_rs.Base.{ℕ, ◌+◌, List, [], ◌∷◌, update}

pub record Target : Type 0 where
  -- The bytes of the block.
  pub size : ℕ
  -- The registers that `swap_registers` stores and loads, with their offsets, in the order of both.
  pub saved : List (ℕ × ℕ)
  -- The arguments that the stores and loads move on, by how much.
  pub moved : List (ℕ × ℕ)
  -- The register that the stack pointer is copied through, if it is.
  pub scratch : List ℕ
  -- The two arguments of a call, the link register and the stack pointer.
  pub first : ℕ
  pub second : ℕ
  pub link : ℕ
  pub stack : ℕ
  -- The three registers that `bootstrap_green_task` reads.
  pub arg : ℕ
  pub arg2 : ℕ
  pub fptr : ℕ

pub record Core : Type 0 where
  pub file : ℕ → ℕ
  pub pc : ℕ
  pub blocks : ℕ → ℕ → ℕ

-- The stores of `swap_registers`, and its loads.
abbrev pub save : List (ℕ × ℕ) → (file block : ℕ → ℕ) → ℕ → ℕ
save [] f b = b
save (x ∷ t) f b = save t f (update b x.1 (f x.0))

abbrev pub restore : List (ℕ × ℕ) → (block file : ℕ → ℕ) → ℕ → ℕ
restore [] b f = f
restore (x ∷ t) b f = restore t b (update f x.0 (b x.1))

abbrev pub copy : List ℕ → ℕ → (ℕ → ℕ) → ℕ → ℕ
copy [] v f = f
copy (r ∷ rs) v f = copy rs v (update f r v)

abbrev pub move : List (ℕ × ℕ) → (ℕ → ℕ) → ℕ → ℕ
move [] f = f
move (x ∷ t) f = move t (update f x.0 (f x.0 + x.1))

-- `swap_registers`: the stores, the loads, and the branch to the link register.
unfoldable pub swap_registers : Target → Core → Core
swap_registers t k =
    let out = k.file t.first in
    let into = k.file t.second in
    let blocks = update k.blocks out (save t.saved k.file (k.blocks out)) in
    let loaded = restore t.saved (blocks into) k.file in
    record {
      file = copy t.scratch (loaded t.stack) (move t.moved loaded);
      pc = loaded t.link;
      blocks = blocks;
    }

-- `bootstrap_green_task`: the arguments are moved, the link register is cleared, and the function is
-- entered.
unfoldable pub bootstrap_green_task : Target → Core → Core
bootstrap_green_task t k =
    let f1 = update k.file t.first (k.file t.arg) in
    let f2 = update f1 t.second (f1 t.arg2) in
    let f3 = update f2 t.link 0 in record k { file = f3; pc = f3 t.fptr }
