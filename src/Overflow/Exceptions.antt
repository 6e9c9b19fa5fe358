-- ===== src/Overflow/Exceptions.antt =====
-- A stack overflow on Windows reaches the code that has resumed the generator, in the registers that
-- a switch would have loaded.
use generator_rs.Base.{
  ℕ, ◌<◌, ◌≡◌, refl, ◌∙◌, ap, true, Option, none, some, List, [], ◌∷◌, arith, update, add_word,
  sub_word,
}
use generator_rs.Panic.{error, Error}
use generator_rs.Rt.Context.{Ptr, null, Context, Slot}
use generator_rs.Rt.Env.{pop_context}
use generator_rs.Rt.Ring.{first, last}
use generator_rs.Rt.Splice.{body_at, pop_context_lem}
use generator_rs.Rt.Push.{first-Linked}
use generator_rs.Gen.Types.{unwind, Client, Frame, Base, Kont, waiting, World}
use generator_rs.Gen.Machine.{Machine, at, arriving, running, step, arrive, continue}
use generator_rs.Gen.Views.{with_contexts, env-ok, top-ok, on_mem-ok, load-ok, with_context-ok}
use generator_rs.Gen.Handover.{IsOff, found}
use generator_rs.Gen.Leave.{Awaits}
use generator_rs.Gen.Rounds.{IsRunning, rerun}
use generator_rs.Gen.Ends.{come_back-panics}
use generator_rs.Gen.Panics.{IsOff-clear}
use generator_rs.Regs.Machine.{gpr}
use generator_rs.Regs.Windows.{Core, swap_registers}
use generator_rs.Regs.Bounds.{
  AreApart, IsOutside, stored, stored-Outside, saved-Outside, AreApart-Outside,
}
use generator_rs.Overflow.Unix.{contains}
use generator_rs.Overflow.Windows.{context_init, vectored_handler, excepted}
use generator_rs.Overflow.Signals.{guard-ok}

-- context_init sets the registers, the place to go on at and the bounds of the stack to what a
-- switch by the same processor into that block gives, if the block that the switch saves into lies
-- apart from that block and from the word on top of its stack.
pub context_init_lem :
    (k : Core)
    → AreApart k.cpu.rdi k.cpu.rsi
    → IsOutside (k.word (gpr k.cpu.rsi 1)) k.cpu.rdi
    → let (c, tib) = context_init k.cpu.rsi k.word k.cpu in
      let d = (swap_registers k).cpu in
      (d.rbx ≡ c.rbx)
      × (d.rsp ≡ c.rsp)
      × (d.rbp ≡ c.rbp)
      × (d.r12 ≡ c.r12)
      × (d.r13 ≡ c.r13)
      × (d.r14 ≡ c.r14)
      × (d.r15 ≡ c.r15)
      × (d.rip ≡ c.rip)
      × ((swap_registers k).tib ≡ tib)
unfolding context_init swap_registers
context_init_lem k apart out =
    let low = λ (i : ℕ) (l : i < 16).
      saved-Outside k (gpr k.cpu.rsi i) (AreApart-Outside k.cpu.rdi k.cpu.rsi i l apart) in
    let all = λ (i : ℕ) (l : i < 16).
      stored-Outside k (gpr k.cpu.rsi i) (AreApart-Outside k.cpu.rdi k.cpu.rsi i l apart) in
    let sp = low 1 (omega arith) in
    (
      low 0 (omega arith),
      ap (λ q. add_word q 8) sp,
      low 2 (omega arith),
      low 4 (omega arith),
      low 5 (omega arith),
      low 6 (omega arith),
      low 7 (omega arith),
      ap (stored k) sp ∙ stored-Outside k (k.word (gpr k.cpu.rsi 1)) out,
      rw (all 11 (omega arith), all 12 (omega arith), all 13 (omega arith)) refl,
    )

module _ {S : Type 0} (w : World S) (g : Ptr) (xs : List Ptr) (c : Context (Kont S)) (s : Slot)
    (k : Kont S) (page rsp : ℕ) (on : IsRunning w g xs c s k) (oldest : Context (Kont S))
    (here : w.mem.contexts (last g xs) ≡ some oldest) where
  handler_lem :
      contains (sub_word oldest.stack_guard.0 page, oldest.stack_guard.1) rsp ≡ true
      → (h : Ptr → Option (Context (Kont S))) × ((m : Machine S)
          → excepted (vectored_handler page true rsp w) m ≡ at (arriving k) (with_contexts w h))
        × IsOff h w.mem.root g xs c.regs (record c { err = some (error Error.stack_err) })
  unfolding vectored_handler excepted
  handler_lem inside =
      let d = record c { err = some (error Error.stack_err) } in
      let w1 = with_contexts w (update w.mem.contexts g (some d)) in
      let on' = rerun w g xs c d s k refl refl on in
      let (h, pop, rest, own, only) = pop_context_lem w1.mem w1.mem.root g xs [] on'.ring in
      let (p, ep, kp) = on'.below in
      let (_, t) = first-Linked h w.mem.root xs rest in
      let (p', ep', regs, _, _, _, _, _) =
        found (h (first xs w.mem.root)) p ((only (first xs w.mem.root)).0 ∙ ap body_at ep) in
      let like = found (h g) d ((only g).0 ∙ ap body_at on'.here) in
      (
        h,
        λ m. rw (
          env-ok w on.ring.base.0,
          vectored_handler,
          guard-ok w page g xs oldest on.ring here,
          inside,
          top-ok w (g ∷ xs) on.ring,
          vectored_handler,
          with_context-ok w g c (λ c. record c { err = some (error Error.stack_err) })
              on.ring.chain.0.0 on.here,
          vectored_handler,
          on_mem-ok (pop_context w.mem.root g) w1 pop,
          excepted,
          load-ok (with_contexts w h) (first xs w.mem.root) p' t.0 ep',
          regs,
          kp,
        ),
        record { rest = rest; own = own; like = like },
      )

module _ (cl : Client) (w : World cl.Local) (g : Ptr) (xs : List Ptr) (c : Context (Kont cl.Local))
    (s : Slot) (frame : Frame cl.Local) (b : Base) (t : cl.Local) (page rsp : ℕ)
    (on : IsRunning w g xs c s (waiting frame b t)) (awaits : Awaits frame g)
    (plain : c.local_data ≡ null) (oldest : Context (Kont cl.Local))
    (here : w.mem.contexts (last g xs) ≡ some oldest) where
  -- On Windows: a stack overflow with the stack pointer in the guard of the oldest running
  -- generator: the handler makes the thread go on in the call that resumed the newest one, or sent
  -- to it, which has no local data, and that call panics with StackErr; the generator is off the
  -- ring, and keeps the registers that it had saved last.
  pub exception_lem :
      contains (sub_word oldest.stack_guard.0 page, oldest.stack_guard.1) rsp ≡ true
      → (w' : World cl.Local) × ((m : Machine cl.Local)
          → step cl (excepted (vectored_handler page true rsp w) m)
            ≡ at (running b t (unwind (error Error.stack_err))) w')
        × IsOff w'.mem.contexts w.mem.root g xs c.regs (record c { err = none })
        × (w'.gens ≡ w.gens)
  unfolding step arrive continue
  exception_lem inside =
      let e = error Error.stack_err in
      let (h, f, off) = handler_lem w g xs c s (waiting frame b t) page rsp on oldest here inside in
      let (c', ec, _, _, err, lo, _, _) = off.like in
      let back =
        come_back-panics (with_contexts w h) c' e on.ring.chain.0.0 ec err (lo ∙ plain) awaits in
      (
        with_contexts w (update h g (some (record c' { err = none }))),
        λ m. rw (f m, back),
        IsOff-clear h w.mem.root g xs (record c { err = some e }) (record c { err = none }) off refl
            refl,
        refl,
      )
