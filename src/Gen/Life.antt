-- ===== src/Gen/Life.antt =====
-- `init_code` of a generator that does not wait.
use generator_rs.Base.{
  ◌≡◌, ◌≢◌, refl, ap, false, ◌&&◌, none, some, [], arith, ◌==◌, update, update-update, is_none,
}
use generator_rs.Panic.{ok}
use generator_rs.Rt.Context.{Ptr, null, Context}
use generator_rs.Rt.Ring.{Ring}
use generator_rs.Gen.Types.{
  Reply, Op, Closure, Kont, entry, GeneratorImpl, World, reply, load_gen, store_gen,
}
use generator_rs.Gen.Impl.{is_done, init_code, init_code_rest}
use generator_rs.Gen.Machine.{exec}
use generator_rs.Gen.Views.{with_contexts, load-ok, with_context-ok}
use generator_rs.Gen.Sends.{is_done-ok}

module _ {S : Type 0} where
  pub load_gen-ok :
      (w : World S) (g : Ptr) (i : GeneratorImpl S) → w.gens g ≡ some i → load_gen g w ≡ ok i w
  unfolding load_gen
  load_gen-ok w g i e = ground arith

  abbrev pub ready : Context (Kont S) → Ptr → GeneratorImpl S → Closure S → Context (Kont S)
  ready c g i f = record c {
    parent = g;
    ref = 0;
    stack_guard = (i.bottom, f.stack_end);
    regs = entry g;
  }

  init_code_rest-ok :
      (w : World S) (g : Ptr) (c : Context (Kont S)) (i : GeneratorImpl S) (f : Closure S)
      → g ≢ null
      → w.mem.contexts g ≡ some c
      → w.gens g ≡ some i
      → init_code_rest g f w
        ≡ ok tt
            (record (with_contexts w (
              update
                (update w.mem.contexts g (some (record c { parent = g; ref = 0 })))
                g
                (some (ready c g i f)))) {
                  gens = update w.gens g (some (record i { f = some f }));
                })
  unfolding init_code_rest store_gen
  init_code_rest-ok w g c i f ne e gen =
      let d1 = record c { parent = g; ref = 0 } in
      let h1 = update w.mem.contexts g (some d1) in
      let w1 = with_contexts w h1 in
      let w2 = record w1 { gens = update w.gens g (some (record i { f = some f })) } in
      rw (
        with_context-ok w g c (λ c. record c { parent = g; ref = 0 }) ne e,
        init_code_rest,
        load_gen-ok w1 g i gen,
        init_code_rest,
        with_context-ok w2 g d1
            (λ c. record c { stack_guard = (i.bottom, f.stack_end); regs = entry g }) ne
            (ground arith),
      )

module _ {S : Type 0} (w : World S) (g : Ptr) (c : Context (Kont S)) (i : GeneratorImpl S)
    (ne : g ≢ null) (here : w.mem.contexts g ≡ some c) (gen : w.gens g ≡ some i) where
  -- The state behind `init_code`, where it does not cancel.
  pub init_code-ok :
      (f : Closure S)
      → (is_none i.f && c.ref == 0) ≡ false
      → init_code g f w
        ≡ ok
            (reply Reply.unit)
            (record (with_contexts w (
              update
                (update w.mem.contexts g (some (record c { parent = g; ref = 0 })))
                g
                (some (ready c g i f)))) {
                  gens =
                      update
                        (update w.gens g (some (record i { f = none })))
                        g
                        (some (record i { f = some f }));
                })
  unfolding init_code store_gen
  init_code-ok f fresh =
      let i1 = record i { f = none } in
      let w1 = record w { gens = update w.gens g (some i1) } in
      rw (
        load_gen-ok w g i gen,
        init_code,
        load-ok w g c ne here,
        fresh,
        init_code,
        init_code_rest-ok w1 g c i1 f ne here (ground arith),
      )

  -- init_code of a generator whose context has no child, and which has code or a count other than 0,
  -- returns; of the contexts only its own is changed, which is then a ring of its own with a count
  -- of 0, registers at gen_init and the bounds of its stack; it has the new code and is not done.
  pub init_code_lem :
      (f : Closure S)
      → c.child ≡ null
      → (is_none i.f && c.ref == 0) ≡ false
      → (d : Context (Kont S)) × (w' : World S) × (exec (Op.init_code g f) w
          ≡ ok (reply Reply.unit) w')
        × (w'.mem.contexts ≡ update w.mem.contexts g (some d))
        × Ring w'.mem.contexts g []
        × (d.ref ≡ 0)
        × (d.regs ≡ entry g)
        × (d.stack_guard ≡ (i.bottom, f.stack_end))
        × (w'.gens g ≡ some (record i { f = some f }))
        × (is_done g w' ≡ ok false w')
  unfolding exec
  init_code_lem f alone fresh =
      let d1 = record c { parent = g; ref = 0 } in
      let d = record d1 { stack_guard = (i.bottom, f.stack_end); regs = entry g } in
      let h = w.mem.contexts in
      let q = w.gens in
      let i1 = record i { f = none } in
      let i2 = record i { f = some f } in
      let w' = record w {
        mem = record (w.mem) { contexts = update (update h g (some d1)) g (some d) };
        gens = update (update q g (some i1)) g (some i2);
      } in
      let twice = update-update h g (some d1) (some d) in
      let there : w'.mem.contexts g ≡ some d = ground arith in
      let stored : w'.gens g ≡ some i2 = ground arith in
      (
        d,
        w',
        init_code-ok f fresh,
        twice,
        record {
          base = (ne, rw there refl, rw there (ap some alone));
          chain = tt;
          distinct = (refl, tt);
        },
        refl,
        refl,
        refl,
        stored,
        is_done-ok w' g d i2 ne there stored,
      )
