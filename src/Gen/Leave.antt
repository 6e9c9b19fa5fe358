-- ===== src/Gen/Leave.antt =====
-- A round from a yield of src/yield_.rs or src/scope.rs back to the code that resumed the generator.
use generator_rs.Base.{
  ℕ, ◌≡◌, ◌≢◌, refl, false, none, some, List, ◌∷◌, arith, ◌==◌, update, sub_word,
}
use generator_rs.Panic.{ok}
use generator_rs.Rt.Context.{
  Ptr, null, Context, Slot, TypeId, load, load_ret, store_ret, take_ret, set_ret,
}
use generator_rs.Rt.Ring.{Ring, ne-first}
use generator_rs.Gen.Types.{
  value, Op, AfterYield, nothing, then_get, then_take, Channel, typed, scoped, Frame, in_resume,
  in_send, in_raw_yield, Kont, World, reply,
}
use generator_rs.Gen.Impl.{resume_gen_back, resume_back, send_back, expect_sent}
use generator_rs.Gen.Yield.{
  top_context, put_ret, raw_yield, yield_then, check_context, raw_yield_now,
}
use generator_rs.Gen.Machine.{exec, come_back}
use generator_rs.Gen.Views.{with_contexts, load-ok, env-ok, top-ok, with_context-ok}

-- The calls that yield a value, and what they do behind it.
pub data Yields {S : Type 0} : Op S → (g : Ptr) → Channel → ℕ → AfterYield → Type 0 where
  by_yield_with :
      (g : Ptr) (t : TypeId) (v : ℕ) → Yields (Op.yield_with t v) g (typed t t) v nothing
  by_yield_ :
      (g : Ptr) (a t : TypeId) (v : ℕ) → Yields (Op.yield_ a t v) g (typed a t) v (then_get a)
  by_scope_yield_with : (g : Ptr) (v : ℕ) → Yields (Op.scope_yield_with g v) g (scoped g) v nothing
  by_scope_yield : (g : Ptr) (v : ℕ) → Yields (Op.scope_yield g v) g (scoped g) v (then_take g)

-- The channel writes the generator's `ret`, at its type.
abbrev pub Writes : {S : Type 0} → Channel → Ptr → Context (Kont S) → Slot → Type 0
Writes (typed a t) g c s = (c.ret ≡ g) × (s.ty ≡ t)
Writes (scoped q) g c s = q ≡ g

-- The frames of `resume`, `raw_send` and `send`.
pub data Awaits {S : Type 0} : Frame S → Ptr → Type 0 where
  by_resume : (g : Ptr) → Awaits (in_resume g) g
  by_send : (g : Ptr) → Awaits (in_send g) g

module _ {S : Type 0} where
  abbrev pub with_ret : World S → Ptr → Slot → World S
  with_ret w g s = record w { mem = record (w.mem) { rets = update w.mem.rets g (some s) } }

  pub put_ret_lem :
      (w : World S) (ch : Channel) (v : ℕ) (g : Ptr) (c : Context (Kont S)) (s : Slot)
      → g ≢ null
      → w.mem.contexts g ≡ some c
      → w.mem.rets g ≡ some s
      → Writes ch g c s
      → put_ret ch v g w ≡ ok tt (with_ret w g (record s { value = some v }))
  unfolding put_ret load set_ret load_ret store_ret
  put_ret_lem w (typed a t) v g c s ne e r u = ground arith
  put_ret_lem w (scoped q) v g c s ne e r u = rw u (ground arith)

  pub exec-Yields :
      (w : World S) {o : Op S} {g : Ptr} {ch : Channel} {v : ℕ} {after : AfterYield}
      → Yields o g ch v after
      → exec o w ≡ yield_then ch v after w
  unfolding exec
  exec-Yields w (by_yield_with _ t v) = refl
  exec-Yields w (by_yield_ _ a t v) = refl
  exec-Yields w (by_scope_yield_with _ v) = refl
  exec-Yields w (by_scope_yield _ v) = refl

  -- `raw_yield` of the newest running generator, up to its switch.
  pub raw_yield_lem :
      (w : World S) (g : Ptr) (xs : List Ptr) (c : Context (Kont S)) (s : Slot) (ch : Channel)
      (v : ℕ) (frame : Frame S)
      → Ring w.mem.contexts w.mem.root (g ∷ xs)
      → w.mem.contexts g ≡ some c
      → w.mem.rets g ≡ some s
      → Writes ch g c s
      → raw_yield ch g v frame w
        ≡ raw_yield_now g frame (
            with_contexts
              (with_ret w g (record s { value = some v }))
              (update w.mem.contexts g (some (record c { ref = sub_word c.ref 1 }))))
  unfolding raw_yield check_context
  raw_yield_lem w g xs c s ch v frame ring e r u =
      let o = ne-first g xs w.mem.root ring.distinct.0 in
      let away : (c.parent == g) ≡ false = ground (arith, ring.chain.0.1) in
      let w1 = with_ret w g (record s { value = some v }) in
      rw (
        load-ok w g c ring.chain.0.0 e,
        away,
        put_ret_lem w ch v g c s ring.chain.0.0 e r u,
        raw_yield,
        with_context-ok w1 g c (λ c. record c { ref = sub_word c.ref 1 }) ring.chain.0.0 e,
      )

  -- A yield of the newest running generator, up to its switch.
  pub yield_then_lem :
      (w : World S) (g : Ptr) (xs : List Ptr) (c : Context (Kont S)) (s : Slot) (ch : Channel)
      (v : ℕ) (after : AfterYield)
      → Ring w.mem.contexts w.mem.root (g ∷ xs)
      → w.mem.contexts g ≡ some c
      → w.mem.rets g ≡ some s
      → Writes ch g c s
      → yield_then ch v after w
        ≡ raw_yield_now g (in_raw_yield g after) (
            with_contexts
              (with_ret w g (record s { value = some v }))
              (update w.mem.contexts g (some (record c { ref = sub_word c.ref 1 }))))
  unfolding yield_then top_context
  yield_then_lem w g xs c s ch v after ring e r u =
      rw (env-ok w ring.base.0, top_context, top-ok w (g ∷ xs) ring)
        (raw_yield_lem w g xs c s ch v (in_raw_yield g after) ring e r u)

  -- The caller takes the value.
  pub resume_back_lem :
      (w : World S) (g : Ptr) (c : Context (Kont S)) (s : Slot)
      → g ≢ null
      → w.mem.contexts g ≡ some c
      → c.err ≡ none
      → w.mem.rets g ≡ some s
      → resume_back g w ≡ ok s.value (with_ret w g (record s { value = none }))
  unfolding resume_back resume_gen_back load take_ret
  resume_back_lem w g c s ne e err r = ground arith

  pub come_back-Awaits :
      (w : World S) (c : Context (Kont S)) (s : Slot) (v : ℕ) {g : Ptr} {frame : Frame S}
      → g ≢ null
      → w.mem.contexts g ≡ some c
      → c.err ≡ none
      → w.mem.rets g ≡ some s
      → s.value ≡ some v
      → Awaits frame g
      → come_back frame w ≡ ok (reply (value (some v))) (with_ret w g (record s { value = none }))
  unfolding come_back resume_back resume_gen_back send_back expect_sent load take_ret
  come_back-Awaits w c s v ne e err r sv (by_resume g) = ground arith
  come_back-Awaits w c s v ne e err r sv (by_send g) = ground arith
