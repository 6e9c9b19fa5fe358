-- ===== src/Regs/Bounds.antt =====
-- The switch of Regs/Windows.antt exchanges the stack bounds with the registers.
use generator_rs.Base.{ℕ, ◌+◌, ◌≤◌, ◌<◌, ◌≡◌, ◌⊎◌, inl, inr, ◌∙◌, ap, refl, arith, add_word}
use generator_rs.Regs.Machine.{gpr, save}
use generator_rs.Regs.Windows.{Core, save_tib, swap_registers}

-- Two blocks of registers do not overlap, and a word lies outside of a block.
abbrev pub AreApart : (a b : ℕ) → Type 0
AreApart a b = (a + 128 ≤ b) ⊎ (b + 128 ≤ a)

abbrev pub IsOutside : (a regs : ℕ) → Type 0
IsOutside a regs = (a + 8 ≤ regs) ⊎ (regs + 128 ≤ a)

-- What a switch stores.
abbrev pub stored : Core → ℕ → ℕ
stored k = save_tib k.cpu k.tib (save k.cpu k.word)

pub stored-Outside : (k : Core) (a : ℕ) → IsOutside a k.cpu.rdi → stored k a ≡ k.word a
unfolding save
stored-Outside k a o = ground arith

-- It loads its registers before the bounds are stored, so from where these do not lie.
pub saved-Outside : (k : Core) (a : ℕ) → IsOutside a k.cpu.rdi → save k.cpu k.word a ≡ k.word a
unfolding save
saved-Outside k a o = ground arith

pub AreApart-Outside : (a b i : ℕ) → i < 16 → AreApart a b → IsOutside (gpr b i) a
AreApart-Outside a b i l (inl p) = inr (omega arith)
AreApart-Outside a b i l (inr p) = inl (omega arith)

stored-words :
    (k : Core)
    → (stored k (gpr k.cpu.rdi 0) ≡ k.cpu.rbx)
      × (stored k (gpr k.cpu.rdi 1) ≡ k.cpu.rsp)
      × (stored k (gpr k.cpu.rdi 2) ≡ k.cpu.rbp)
      × (stored k (gpr k.cpu.rdi 4) ≡ k.cpu.r12)
      × (stored k (gpr k.cpu.rdi 5) ≡ k.cpu.r13)
      × (stored k (gpr k.cpu.rdi 6) ≡ k.cpu.r14)
      × (stored k (gpr k.cpu.rdi 7) ≡ k.cpu.r15)
      × (stored k (gpr k.cpu.rdi 11) ≡ k.tib.stack_base)
      × (stored k (gpr k.cpu.rdi 12) ≡ k.tib.stack_limit)
      × (stored k (gpr k.cpu.rdi 13) ≡ k.tib.dealloc)
unfolding save
stored-words k = (
  ground arith,
  ground arith,
  ground arith,
  ground arith,
  ground arith,
  ground arith,
  ground arith,
  ground arith,
  ground arith,
  ground arith,
)

module _ (k k' : Core) (into : k'.cpu.rsi ≡ k.cpu.rdi)
    (kept : (i : ℕ)
      → i < 16
      → k'.word (gpr k.cpu.rdi i) ≡ (swap_registers k).word (gpr k.cpu.rdi i))
    (stacked : k'.word k.cpu.rsp ≡ (swap_registers k).word k.cpu.rsp)
    (blocks : AreApart k'.cpu.rdi k.cpu.rdi) (apart : IsOutside k.cpu.rsp k.cpu.rdi)
    (apart' : IsOutside k.cpu.rsp k'.cpu.rdi) where
  -- On x86_64 Windows: a switch out of a block of registers, and a later switch into that block,
  -- where the block and the word on top of the saved stack are as they were left and the blocks and
  -- that word lie apart, restores rbx, rbp and r12 to r15, the base, the limit and the allocation of
  -- the stack, and goes on at the return address with the stack popped by a word.
  pub bounds_kept :
      let c = (swap_registers k').cpu in
      (c.rbx ≡ k.cpu.rbx)
      × (c.rbp ≡ k.cpu.rbp)
      × (c.r12 ≡ k.cpu.r12)
      × (c.r13 ≡ k.cpu.r13)
      × (c.r14 ≡ k.cpu.r14)
      × (c.r15 ≡ k.cpu.r15)
      × (c.rsp ≡ add_word k.cpu.rsp 8)
      × (c.rip ≡ k.word k.cpu.rsp)
      × ((swap_registers k').tib ≡ k.tib)
  unfolding swap_registers
  bounds_kept =
      let (bx, sp, bp, v12, v13, v14, v15, base, limit, dealloc) = stored-words k in
      let w = save k'.cpu k'.word in
      let first = λ (i : ℕ) (l : i < 16).
        ap w (ap (λ q. gpr q i) into)
        ∙ saved-Outside k' (gpr k.cpu.rdi i) (AreApart-Outside k'.cpu.rdi k.cpu.rdi i l blocks)
        ∙ kept i l in
      let both = λ (i : ℕ) (l : i < 16).
        ap (stored k') (ap (λ q. gpr q i) into)
        ∙ stored-Outside k' (gpr k.cpu.rdi i) (AreApart-Outside k'.cpu.rdi k.cpu.rdi i l blocks)
        ∙ kept i l in
      let rsp = first 1 (omega arith) ∙ sp in
      let top = stored-Outside k' k.cpu.rsp apart' ∙ stacked ∙ stored-Outside k k.cpu.rsp apart in
      (
        first 0 (omega arith) ∙ bx,
        first 2 (omega arith) ∙ bp,
        first 4 (omega arith) ∙ v12,
        first 5 (omega arith) ∙ v13,
        first 6 (omega arith) ∙ v14,
        first 7 (omega arith) ∙ v15,
        ap (λ q. add_word q 8) rsp,
        ap (stored k') rsp ∙ top,
        rw
            (
              both 11 (omega arith) ∙ base,
              both 12 (omega arith) ∙ limit,
              both 13 (omega arith) ∙ dealloc,
            )
            refl,
      )
