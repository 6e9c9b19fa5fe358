-- ===== src/Regs/Targets.antt =====
-- The switches of src/detail on aarch64, arm, loongarch64 and riscv64 keep what the calling
-- conventions ask for, and a fresh frame is entered as a call of its function.
use generator_rs.Base.{
  ℕ, suc, zero, ◌+◌, ◌-◌, ◌%◌, ◌<◌, ◌≡◌, refl, ◌∙◌, true, false, ◌&&◌, ltb, List, [], ◌∷◌, ◌++◌,
  arith, ◌==◌, update, has, Bool-cases, inl, inr, eq_of_==, ==_refl, subst, sym, word_mod,
}
use generator_rs.Regs.Machine.{align_down}
use generator_rs.Regs.Switch.{align_down_lem}
use generator_rs.Regs.Linked.{
  Target, Core, save, restore, copy, move, swap_registers, bootstrap_green_task,
}
use generator_rs.Regs.Tables.{
  regs, offs, is_distinct, Agrees, save-Agrees, restore-Agrees, copy-out, move-out, among,
  has-among, avoids, has-avoids, is_below, has-is_below, save-out,
}
use generator_rs.Regs.Aarch64
use generator_rs.Regs.Arm
use generator_rs.Regs.Loongarch64
use generator_rs.Regs.Riscv64

pub data Arch : Type 0 where
  aarch64 arm loongarch64 riscv64 : Arch

abbrev pub target : Arch → Target
target aarch64 = Aarch64.target
target arm = Arm.target
target loongarch64 = Loongarch64.target
target riscv64 = Riscv64.target

abbrev pub initialize_call_frame : Arch → (fptr arg arg2 stack_end bootstrap : ℕ) → (ℕ → ℕ) → ℕ → ℕ
initialize_call_frame aarch64 = Aarch64.initialize_call_frame
initialize_call_frame arm = Arm.initialize_call_frame
initialize_call_frame loongarch64 = Loongarch64.initialize_call_frame
initialize_call_frame riscv64 = Riscv64.initialize_call_frame

-- `n` registers from `r` on.
abbrev pub range : (r n : ℕ) → List ℕ
range r zero = []
range r (suc n) = r ∷ range (r + 1) n

-- The registers that a call keeps, by the calling conventions: AAPCS64, AAPCS with VFP, and the ones
-- of LoongArch and RISC-V with doubles.
abbrev pub callee_saved : Arch → List ℕ
callee_saved aarch64 = range 19 11 ++ 31 ∷ range 40 8
callee_saved arm = range 4 8 ++ 13 ∷ range 32 16
callee_saved loongarch64 = 3 ∷ range 22 10 ++ range 56 8
callee_saved riscv64 = 2 ∷ 8 ∷ 9 ∷ range 18 10 ++ 40 ∷ 41 ∷ range 50 10

-- The frame pointer.
abbrev pub frame : Arch → ℕ
frame aarch64 = 29
frame arm = 11
frame loongarch64 = 22
frame riscv64 = 8

-- What is checked of each table.
record IsSound (t : Target) (kept : List ℕ) : Type 0 where
  pub regs_distinct : is_distinct (regs t.saved) ≡ true
  pub offs_distinct : is_distinct (offs t.saved) ≡ true
  pub all_saved : among kept (regs t.saved) ≡ true
  pub link_saved : has t.link (regs t.saved) ≡ true
  pub no_scratch : avoids kept t.scratch ≡ true
  pub no_moved : avoids kept (regs t.moved) ≡ true
  pub inside : is_below t.size (offs t.saved) ≡ true

target-IsSound : (i : Arch) → IsSound (target i) (callee_saved i)
target-IsSound aarch64 = record {
  regs_distinct = refl;
  offs_distinct = refl;
  all_saved = refl;
  link_saved = refl;
  no_scratch = refl;
  no_moved = refl;
  inside = refl;
}
target-IsSound arm = record {
  regs_distinct = refl;
  offs_distinct = refl;
  all_saved = refl;
  link_saved = refl;
  no_scratch = refl;
  no_moved = refl;
  inside = refl;
}
target-IsSound loongarch64 = record {
  regs_distinct = refl;
  offs_distinct = refl;
  all_saved = refl;
  link_saved = refl;
  no_scratch = refl;
  no_moved = refl;
  inside = refl;
}
target-IsSound riscv64 = record {
  regs_distinct = refl;
  offs_distinct = refl;
  all_saved = refl;
  link_saved = refl;
  no_scratch = refl;
  no_moved = refl;
  inside = refl;
}

-- A switch into the block where an earlier switch has saved, on any target with a link register:
-- each register that a call is to keep is as it was, and control goes on at the return address, if
-- the block is as it was left and is not the one that is saved into; nothing outside of the block
-- that is saved into is written.
pub swap_registers_kept :
    (i : Arch) (k k' : Core)
    → k'.file (target i).second ≡ k.file (target i).first
    → (k.file (target i).first == k'.file (target i).first) ≡ false
    → k'.blocks (k.file (target i).first)
      ≡ (swap_registers (target i) k).blocks (k.file (target i).first)
    → ((swap_registers (target i) k').pc ≡ k.file (target i).link)
      × ((r : ℕ) → has r (callee_saved i) ≡ true → (swap_registers (target i) k').file r ≡ k.file r)
      × ((b o : ℕ)
          → ((b == k'.file (target i).first) && ltb o (target i).size) ≡ false
          → (swap_registers (target i) k').blocks b o ≡ k'.blocks b o)
unfolding swap_registers
swap_registers_kept i k k' into apart left =
    let t = target i in
    let sound = target-IsSound i in
    let out = k.file t.first in
    let out' = k'.file t.first in
    let saved = save t.saved k'.file (k'.blocks out') in
    let block : update k'.blocks out' saved (k'.file t.second)
        ≡ save t.saved k.file (k.blocks out) =
      rw (into, apart, left, ==_refl out) refl in
    let agrees =
      subst (λ b. Agrees t.saved b k.file) (sym block)
        (save-Agrees t.saved k.file (k.blocks out) sound.offs_distinct) in
    let loads = λ (r : ℕ) (m : has r (regs t.saved) ≡ true).
      restore-Agrees t.saved (update k'.blocks out' saved (k'.file t.second)) k.file k'.file r
        sound.regs_distinct agrees m in
    (
      loads t.link sound.link_saved,
      λ r kept.
          copy-out t.scratch _ _ r (has-avoids (callee_saved i) t.scratch r sound.no_scratch kept)
          ∙ move-out t.moved _ r (has-avoids (callee_saved i) (regs t.moved) r sound.no_moved kept)
          ∙ loads r (has-among (callee_saved i) (regs t.saved) r sound.all_saved kept),
      λ b o away. elim (Bool-cases (b == out')) [
        | inl e ↦
            let beyond = has-is_below t.size o (offs t.saved) sound.inside (ground arith) in
            rw (e, eq_of_== b out' e) (save-out t.saved k'.file (k'.blocks out') o beyond)
        | inr n ↦ rw n refl
      ],
    )

-- The registers that are loaded from a fresh block.
fresh_loads :
    (i : Arch) (fptr arg arg2 stack_end bootstrap : ℕ) (w g : ℕ → ℕ) (blocks : ℕ → ℕ → ℕ)
    → let t = target i in
      let loaded =
        restore t.saved (initialize_call_frame i fptr arg arg2 stack_end bootstrap w) g in
      let file = copy t.scratch (loaded t.stack) (move t.moved loaded) in
      let e =
        bootstrap_green_task t (record { file = file; pc = loaded t.link; blocks = blocks }) in
      (loaded t.link ≡ bootstrap)
      × (e.pc ≡ fptr)
      × (e.file t.first ≡ arg)
      × (e.file t.second ≡ arg2)
      × (e.file t.link ≡ 0)
      × (e.file t.stack ≡ align_down stack_end)
      × (e.file (frame i) ≡ align_down stack_end)
unfolding bootstrap_green_task Aarch64.initialize_call_frame Arm.initialize_call_frame
    Loongarch64.initialize_call_frame Riscv64.initialize_call_frame
fresh_loads aarch64 fptr arg arg2 stack_end bootstrap w g blocks =
    (refl, refl, refl, refl, refl, refl, refl)
fresh_loads arm fptr arg arg2 stack_end bootstrap w g blocks =
    (refl, refl, refl, refl, refl, refl, refl)
fresh_loads loongarch64 fptr arg arg2 stack_end bootstrap w g blocks =
    (refl, refl, refl, refl, refl, refl, refl)
fresh_loads riscv64 fptr arg arg2 stack_end bootstrap w g blocks =
    (refl, refl, refl, refl, refl, refl, refl)

-- A switch, on any target with a link register, into a block that initialize_call_frame has filled
-- jumps to bootstrap_green_task, which enters the function with the two arguments, the stack and
-- frame pointers at the highest multiple of 16 in the stack, and 0 as the return address, if the
-- block is not the one that is saved into.
pub initialize_call_frame_enters :
    (i : Arch) (k : Core) (fptr arg arg2 stack_end bootstrap : ℕ) (w : ℕ → ℕ)
    → (k.file (target i).second == k.file (target i).first) ≡ false
    → k.blocks (k.file (target i).second)
      ≡ initialize_call_frame i fptr arg arg2 stack_end bootstrap w
    → stack_end < word_mod
    → let b = swap_registers (target i) k in
      let e = bootstrap_green_task (target i) b in
      (b.pc ≡ bootstrap)
      × (e.pc ≡ fptr)
      × (e.file (target i).first ≡ arg)
      × (e.file (target i).second ≡ arg2)
      × (e.file (target i).link ≡ 0)
      × (e.file (target i).stack ≡ stack_end - stack_end % 16)
      × (e.file (frame i) ≡ stack_end - stack_end % 16)
unfolding swap_registers
initialize_call_frame_enters i k fptr arg arg2 stack_end bootstrap w apart fresh in_space =
    rw (apart, fresh, ← align_down_lem stack_end in_space)
      (fresh_loads i fptr arg arg2 stack_end bootstrap w k.file _)
