-- ===== src/Regs/Switch.antt =====
-- The switch of Regs/Machine.antt into a saved block of registers, and into a fresh frame.
use generator_rs.Base.{
  ℕ, ◌+◌, ◌-◌, ◌%◌, ◌≤◌, ◌<◌, ◌≡◌, ◌⊎◌, inl, inr, ◌∙◌, ap, false, arith, ◌==◌, ==_refl, word_mod,
  add_word, sub_word,
}
use generator_rs.Base.Bits.{bit_and-mask}
use generator_rs.Regs.Machine.{
  Cpu, Core, align_down, gpr, initialize_call_frame, save, restore, swap_registers,
  bootstrap_green_task,
}

-- Two blocks of registers do not overlap.
abbrev pub Disjoint : (a b : ℕ) → Type 0
Disjoint a b = (a + 64 ≤ b) ⊎ (b + 64 ≤ a)

-- A word lies outside of a block.
abbrev pub Outside : (a regs : ℕ) → Type 0
Outside a regs = (a + 8 ≤ regs) ⊎ (regs + 64 ≤ a)

-- The words of a block that a switch uses are those of the processor `c`.
pub record Holds (w : ℕ → ℕ) (regs : ℕ) (c : Cpu) : Type 0 where
  pub rbx : w (gpr regs 0) ≡ c.rbx
  pub rsp : w (gpr regs 1) ≡ c.rsp
  pub rbp : w (gpr regs 2) ≡ c.rbp
  pub r12 : w (gpr regs 4) ≡ c.r12
  pub r13 : w (gpr regs 5) ≡ c.r13
  pub r14 : w (gpr regs 6) ≡ c.r14
  pub r15 : w (gpr regs 7) ≡ c.r15

save-Holds : (c : Cpu) (w : ℕ → ℕ) → Holds (save c w) c.rdi c
unfolding save
save-Holds c w = record {
  rbx = ground arith;
  rsp = ground arith;
  rbp = ground arith;
  r12 = ground arith;
  r13 = ground arith;
  r14 = ground arith;
  r15 = ground arith;
}

save-Outside : (c : Cpu) (w : ℕ → ℕ) (a : ℕ) → Outside a c.rdi → save c w a ≡ w a
unfolding save
save-Outside c w a o = ground arith

pub align_down_lem : (n : ℕ) → n < word_mod → align_down n ≡ n - n % 16
align_down_lem n h = bit_and-mask 4 n (omega arith) h

Disjoint-Outside : (a b i : ℕ) → i < 8 → Disjoint a b → Outside (gpr b i) a
Disjoint-Outside a b i l (inl p) = inr (omega arith)
Disjoint-Outside a b i l (inr p) = inl (omega arith)

-- Of the words above the end of the stack only those of the block are written.
pub initialize_call_frame-kept :
    (w : ℕ → ℕ) (regs fptr arg arg2 stack_end bootstrap a : ℕ)
    → 32 ≤ stack_end
    → stack_end < word_mod
    → stack_end ≤ a
    → (a < regs) ⊎ (regs + 64 ≤ a)
    → initialize_call_frame regs fptr arg arg2 stack_end bootstrap w a ≡ w a
unfolding initialize_call_frame
initialize_call_frame-kept w regs fptr arg arg2 stack_end bootstrap a low in_space above out =
    let e = align_down_lem stack_end in_space in
    let sp = stack_end - stack_end % 16 in
    let first : sub_word sp 16 ≡ sp - 16 = omega arith in
    let second : sub_word sp 8 ≡ sp - 8 = omega arith in
    rw (e, first, second) (elim out [ inl below ↦ ground arith | inr beyond ↦ ground arith ])

-- The frame that a fresh generator starts from.
module _ (w : ℕ → ℕ) (regs fptr arg arg2 stack_end bootstrap : ℕ) (low : 32 ≤ stack_end)
    (in_space : stack_end < word_mod) (apart : (stack_end ≤ regs) ⊎ (regs + 96 ≤ stack_end)) where
  abbrev sp : ℕ
  sp = stack_end - stack_end % 16

  frame_lem :
      let f = initialize_call_frame regs fptr arg arg2 stack_end bootstrap w in
      (f (gpr regs 1) ≡ sp - 16)
      × (f (gpr regs 2) ≡ 0)
      × (f (gpr regs 4) ≡ arg)
      × (f (gpr regs 5) ≡ arg2)
      × (f (gpr regs 6) ≡ fptr)
      × (f (sp - 16) ≡ bootstrap)
      × (f (sp - 8) ≡ 0)
  unfolding initialize_call_frame
  frame_lem =
      let e = align_down_lem stack_end in_space in
      let below : sub_word sp 16 ≡ sp - 16 = omega arith in
      let above : sub_word sp 8 ≡ sp - 8 = omega arith in
      rw (e, below, above)
        (
          ground arith,
          ground arith,
          ground arith,
          ground arith,
          ground arith,
          ground arith,
          ground arith,
        )

-- A switch into the block where an earlier switch has saved.
module _ (k k' : Core) (into : k'.cpu.rsi ≡ k.cpu.rdi)
    (kept : (i : ℕ) → i < 8 → k'.word (gpr k.cpu.rdi i) ≡ (swap_registers k).word (gpr k.cpu.rdi i))
    (stacked : k'.word k.cpu.rsp ≡ (swap_registers k).word k.cpu.rsp)
    (blocks : Disjoint k'.cpu.rdi k.cpu.rdi) (apart : Outside k.cpu.rsp k.cpu.rdi)
    (apart' : Outside k.cpu.rsp k'.cpu.rdi) where
  -- On x86_64: a switch out of a block of registers, and a later switch into that block by any
  -- processor, where the block and the word on top of the saved stack are as they were left and the
  -- blocks and that word lie apart, restores rbx, rbp and r12 to r15, and goes on at the return
  -- address with the stack popped by a word.
  pub swap_registers_lem :
      let c = (swap_registers k').cpu in
      (c.rbx ≡ k.cpu.rbx)
      × (c.rbp ≡ k.cpu.rbp)
      × (c.r12 ≡ k.cpu.r12)
      × (c.r13 ≡ k.cpu.r13)
      × (c.r14 ≡ k.cpu.r14)
      × (c.r15 ≡ k.cpu.r15)
      × (c.rsp ≡ add_word k.cpu.rsp 8)
      × (c.rip ≡ k.word k.cpu.rsp)
  unfolding swap_registers restore
  swap_registers_lem =
      let old = save-Holds k.cpu k.word in
      let w = save k'.cpu k'.word in
      let word = λ (i : ℕ) (l : i < 8).
        ap w (ap (λ q. gpr q i) into)
        ∙ save-Outside k'.cpu k'.word (gpr k.cpu.rdi i)
            (Disjoint-Outside k'.cpu.rdi k.cpu.rdi i l blocks)
        ∙ kept i l in
      let sp = word 1 (omega arith) ∙ old.rsp in
      let top =
        save-Outside k'.cpu k'.word k.cpu.rsp apart'
        ∙ stacked
        ∙ save-Outside k.cpu k.word k.cpu.rsp apart in
      (
        word 0 (omega arith) ∙ old.rbx,
        word 2 (omega arith) ∙ old.rbp,
        word 4 (omega arith) ∙ old.r12,
        word 5 (omega arith) ∙ old.r13,
        word 6 (omega arith) ∙ old.r14,
        word 7 (omega arith) ∙ old.r15,
        ap (λ q. add_word q 8) sp,
        ap w sp ∙ top,
      )

-- A switch into a fresh frame, and the bootstrap that it jumps to.
module _ (k : Core) (w : ℕ → ℕ) (regs fptr arg arg2 stack_end bootstrap : ℕ)
    (into : k.cpu.rsi ≡ regs)
    (fresh : k.word ≡ initialize_call_frame regs fptr arg arg2 stack_end bootstrap w)
    (low : 32 ≤ stack_end) (in_space : stack_end < word_mod) (blocks : Disjoint k.cpu.rdi regs)
    (apart : (stack_end ≤ regs) ⊎ (regs + 96 ≤ stack_end))
    (apart' : (stack_end ≤ k.cpu.rdi) ⊎ (k.cpu.rdi + 96 ≤ stack_end)) where
  -- On x86_64: a switch into a block that initialize_call_frame has filled jumps to
  -- bootstrap_green_task, which enters the function with the two arguments, a base pointer of 0, a
  -- stack pointer 8 above a multiple of 16 and within the stack, and 0 as the return address, if the
  -- blocks and the two words of the frame lie apart.
  pub initialize_call_frame_lem :
      let b = swap_registers k in
      let e = bootstrap_green_task b in
      (b.cpu.rip ≡ bootstrap)
      × (e.cpu.rip ≡ fptr)
      × (e.cpu.rdi ≡ arg)
      × (e.cpu.rsi ≡ arg2)
      × (e.cpu.rbp ≡ 0)
      × (e.cpu.rsp % 16 ≡ 8)
      × (e.cpu.rsp + 8 ≤ stack_end)
      × (e.word e.cpu.rsp ≡ 0)
  unfolding swap_registers restore bootstrap_green_task
  initialize_call_frame_lem =
      let (f1, f2, f4, f5, f6, fb, fz) =
        frame_lem w regs fptr arg arg2 stack_end bootstrap low in_space apart in
      let sp = stack_end - stack_end % 16 in
      let s = save k.cpu k.word in
      let word = λ (i : ℕ) (l : i < 8).
        ap s (ap (λ q. gpr q i) into)
        ∙ save-Outside k.cpu k.word (gpr regs i) (Disjoint-Outside k.cpu.rdi regs i l blocks)
        ∙ ap (λ q. q (gpr regs i)) fresh in
      let v1 = word 1 (omega arith) ∙ f1 in
      let b =
        save-Outside k.cpu k.word (sp - 16) (ground arith) ∙ ap (λ q. q (sp - 16)) fresh ∙ fb in
      let z = save-Outside k.cpu k.word (sp - 8) (ground arith) ∙ ap (λ q. q (sp - 8)) fresh ∙ fz in
      let up : add_word (sp - 16) 8 ≡ sp - 8 = omega arith in
      let down : align_down (sp - 8) ≡ sp - 16 =
        align_down_lem (sp - 8) (omega arith) ∙ omega arith in
      let ne : ((sp - 8) == (sp - 16)) ≡ false = ground arith in
      rw (v1, up, down, up, ==_refl (sp - 16), ne)
        (
          b,
          word 6 (omega arith) ∙ f6,
          word 4 (omega arith) ∙ f4,
          word 5 (omega arith) ∙ f5,
          word 2 (omega arith) ∙ f2,
          omega arith,
          omega arith,
          z,
        )
