-- ===== src/Gen/Passing.antt =====
-- The second half of a yield inside `yield_from` of src/yield_.rs and src/scope.rs, up to the switch.
use generator_rs.Base.{
  ℕ, ◌%◌, ◌≡◌, ◌≢◌, ap, ◌∙◌, false, not, ◌&&◌, Option, none, some, arith, ◌==◌, update, is_none,
}
use generator_rs.Panic.{ok, ◌>>◌}
use generator_rs.Rt.Context.{Ptr, null, Context, Slot, load, take_para, get_para, store_para}
use generator_rs.Gen.Types.{Channel, typed, scoped, from_send, Kont, GeneratorImpl, World}
use generator_rs.Gen.Impl.{enter, raw_send}
use generator_rs.Gen.Yield.{dropping, raw_yield_back, get_sent, from_round, from_yield_back}
use generator_rs.Gen.Sends.{is_done-ok, load_para-ok}

-- The channel reads the generator's `para`, at its type.
abbrev pub Receives : {S : Type 0} → Channel → Ptr → Context (Kont S) → Slot → Type 0
Receives (typed a t) g c s = (c.para ≡ g) × (s.ty ≡ a)
Receives (scoped q) g c s = q ≡ g

module _ {S : Type 0} where
  abbrev pub with_para : World S → Ptr → Slot → World S
  with_para w g s = record w { mem = record (w.mem) { paras = update w.mem.paras g (some s) } }

  get_sent_lem :
      (w : World S) (ch : Channel) (g : Ptr) (c : Context (Kont S)) (s : Slot)
      → g ≢ null
      → w.mem.contexts g ≡ some c
      → c.ref ≡ 1
      → w.mem.paras g ≡ some s
      → Receives ch g c s
      → (raw_yield_back g >> get_sent ch g) w
        ≡ ok s.value (with_para w g (record s { value = none }))
  unfolding raw_yield_back get_sent load take_para get_para
  get_sent_lem w (typed a t) g c s ne e r p u = ground arith
  get_sent_lem w (scoped q) g c s ne e r p u = rw u (ground arith)

  from_round_lem :
      (w : World S) (ch : Channel) (ctx g : Ptr) (c : Context (Kont S)) (i : GeneratorImpl S)
      (s : Slot) (p : Option ℕ)
      → g ≢ null
      → w.mem.contexts g ≡ some c
      → c.ref ≡ 0
      → w.gens g ≡ some i
      → w.mem.paras g ≡ some s
      → from_round ch ctx g p w
        ≡ enter g (from_send ctx g ch) (with_para w g (record s { value = p }))
  unfolding from_round raw_send store_para
  from_round_lem w ch ctx g c i s p ne e r ei es =
      let live : (is_none i.f && not (c.ref % 4 == 0)) ≡ false = rw r (ground arith) in
      let d = is_done-ok w g c i ne e ei ∙ ap (λ q. ok q w) live in
      rw (d, raw_send, d, load_para-ok w g s es)

  -- The generator that yields from `g` has been resumed, and sends on what its `para` holds.
  pub from_yield_back_lem :
      (w : World S) (ch : Channel) (ctx g : Ptr) (o c : Context (Kont S)) (i : GeneratorImpl S)
      (os s : Slot)
      → ctx ≢ null
      → w.mem.contexts ctx ≡ some o
      → o.ref ≡ 1
      → w.mem.paras ctx ≡ some os
      → Receives ch ctx o os
      → g ≢ null
      → g ≢ ctx
      → w.mem.contexts g ≡ some c
      → c.ref ≡ 0
      → w.gens g ≡ some i
      → w.mem.paras g ≡ some s
      → from_yield_back ch ctx g w
        ≡ enter g (from_send ctx g ch) (
            with_para
              (with_para w ctx (record os { value = none }))
              g
              (record s { value = os.value }))
  unfolding from_yield_back
  from_yield_back_lem w ch ctx g o c i os s one ho oref ps receives two apart hc cref gi ss =
      let w1 = with_para w ctx (record os { value = none }) in
      rw (
        dropping,
        get_sent_lem w ch ctx o os one ho oref ps receives,
        from_round_lem w1 ch ctx g c i s os.value two hc cref gi (ground arith),
      )

  pub Receives-same :
      (ch : Channel) (g : Ptr) (c d : Context (Kont S)) (s s' : Slot)
      → d.para ≡ c.para
      → s'.ty ≡ s.ty
      → Receives ch g c s
      → Receives ch g d s'
  Receives-same (typed a t) g c d s s' p u r = (p ∙ r.0, u ∙ r.1)
  Receives-same (scoped q) g c d s s' p u r = r
