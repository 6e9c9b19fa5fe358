-- ===== src/Regs/Fresh.antt =====
-- A fresh frame of Regs/Windows.antt, entered.
use generator_rs.Base.{
  ℕ, ◌+◌, ◌-◌, ◌%◌, ◌≤◌, ◌<◌, ◌≡◌, ◌⊎◌, ◌∙◌, ap, refl, arith, word_mod, add_word, sub_word,
}
use generator_rs.Regs.Machine.{gpr, save}
use generator_rs.Regs.Switch.{align_down_lem}
use generator_rs.Regs.Windows.{Core, swap_registers, initialize_call_frame}
use generator_rs.Regs.Bounds.{AreApart, stored, stored-Outside, saved-Outside, AreApart-Outside}

module _ (w : ℕ → ℕ) (regs fptr arg arg2 stack_begin stack_end bootstrap : ℕ) (low : 32 ≤ stack_end)
    (in_space : stack_end < word_mod) (apart : (stack_end ≤ regs) ⊎ (regs + 160 ≤ stack_end)) where
  abbrev sp : ℕ
  sp = stack_end - stack_end % 16

  frame_lem :
      let f = initialize_call_frame regs fptr arg arg2 stack_begin stack_end bootstrap w in
      (f (gpr regs 1) ≡ sp - 16)
      × (f (gpr regs 2) ≡ 0)
      × (f (gpr regs 4) ≡ arg)
      × (f (gpr regs 5) ≡ arg2)
      × (f (gpr regs 6) ≡ fptr)
      × (f (gpr regs 11) ≡ stack_end)
      × (f (gpr regs 12) ≡ stack_begin)
      × (f (gpr regs 13) ≡ 0)
      × (f (sp - 16) ≡ bootstrap)
  unfolding initialize_call_frame
  frame_lem =
      let e = align_down_lem stack_end in_space in
      let below : sub_word sp 16 ≡ sp - 16 = omega arith in
      let above : sub_word sp 8 ≡ sp - 8 = omega arith in
      rw (e, below, above)
        (
          ground arith,
          ground arith,
          ground arith,
          ground arith,
          ground arith,
          ground arith,
          ground arith,
          ground arith,
          ground arith,
        )

-- On x86_64 Windows: a switch into a block that initialize_call_frame has filled jumps to
-- bootstrap_green_task with the two arguments and the function in r12 to r14, a base pointer of 0 and
-- the stack pointer in the stack, and makes the bounds of that stack those of the thread, if the
-- blocks and the words of the frame lie apart.
pub fresh_lem :
    (k : Core) (w : ℕ → ℕ) (regs fptr arg arg2 stack_begin stack_end bootstrap : ℕ)
    → k.cpu.rsi ≡ regs
    → k.word ≡ initialize_call_frame regs fptr arg arg2 stack_begin stack_end bootstrap w
    → 32 ≤ stack_end
    → stack_end < word_mod
    → AreApart k.cpu.rdi regs
    → (stack_end ≤ regs) ⊎ (regs + 160 ≤ stack_end)
    → (stack_end ≤ k.cpu.rdi) ⊎ (k.cpu.rdi + 160 ≤ stack_end)
    → let c = (swap_registers k).cpu in
      (c.rip ≡ bootstrap)
      × (c.r12 ≡ arg)
      × (c.r13 ≡ arg2)
      × (c.r14 ≡ fptr)
      × (c.rbp ≡ 0)
      × (c.rsp ≡ stack_end - stack_end % 16 - 8)
      × ((swap_registers k).tib
          ≡ record { stack_base = stack_end; stack_limit = stack_begin; dealloc = 0 })
unfolding swap_registers
fresh_lem k w regs fptr arg arg2 stack_begin stack_end bootstrap into fresh low in_space blocks
      apart apart' =
    let (f1, f2, f4, f5, f6, f11, f12, f13, fb) =
      frame_lem w regs fptr arg arg2 stack_begin stack_end bootstrap low in_space apart in
    let sp = stack_end - stack_end % 16 in
    let s = save k.cpu k.word in
    let first = λ (i : ℕ) (l : i < 16).
      ap s (ap (λ q. gpr q i) into)
      ∙ saved-Outside k (gpr regs i) (AreApart-Outside k.cpu.rdi regs i l blocks)
      ∙ ap (λ q. q (gpr regs i)) fresh in
    let both = λ (i : ℕ) (l : i < 16).
      ap (stored k) (ap (λ q. gpr q i) into)
      ∙ stored-Outside k (gpr regs i) (AreApart-Outside k.cpu.rdi regs i l blocks)
      ∙ ap (λ q. q (gpr regs i)) fresh in
    let rsp = first 1 (omega arith) ∙ f1 in
    let up : add_word (sp - 16) 8 ≡ sp - 8 = omega arith in
    let b = stored-Outside k (sp - 16) (ground arith) ∙ ap (λ q. q (sp - 16)) fresh ∙ fb in
    (
      ap (stored k) rsp ∙ b,
      first 4 (omega arith) ∙ f4,
      first 5 (omega arith) ∙ f5,
      first 6 (omega arith) ∙ f6,
      first 2 (omega arith) ∙ f2,
      ap (λ q. add_word q 8) rsp ∙ up,
      rw (both 11 (omega arith) ∙ f11, both 12 (omega arith) ∙ f12, both 13 (omega arith) ∙ f13)
          refl,
    )
