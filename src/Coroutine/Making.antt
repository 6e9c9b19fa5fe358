-- ===== src/Coroutine/Making.antt =====
-- `Gn::new_opt` and `Gn::new_scoped_opt` do what the abstract view says.
use generator_rs.Base.{
  ℕ, ◌≡◌, ◌≢◌, refl, ap, subst, Bool, true, false, none, some, [], ◌∷◌, ◌++◌, arith, ◌==◌, update,
  has, Bool-cases, inl, inr,
}
use generator_rs.Panic.{ok}
use generator_rs.Rt.Context
use generator_rs.Rt.Context.{Ptr, null, TypeId, Context, Slot, store, store_para, store_ret}
use generator_rs.Gen.Types.{
  Reply, Op, call, Client, Closure, Kont, zeroed, GeneratorImpl, World, reply, store_gen,
}
use generator_rs.Gen.Impl.{new, init_context}
use generator_rs.Gen.Machine.{exec, at, running, continue, perform, step, run}
use generator_rs.Gen.Views.{with_contexts, with_context-ok}
use generator_rs.Gen.Life.{ready, init_code-ok}
use generator_rs.Coroutine.Abstract.{fresh, Port, View, base, gens, is_free, created, create}
use generator_rs.Coroutine.Refines.{AtRest, Represents}
use generator_rs.Coroutine.Leave.{some-AtRest}
use generator_rs.Coroutine.Rest.{IsLocal, rest_lem}
use generator_rs.Coroutine.Entering.{Reaches}

module _ {S : Type 0} where
  abbrev blank : ℕ → GeneratorImpl S
  blank bottom = record { bottom = bottom; f = none }

  -- The context of a new generator; `p` is where its `para` and `ret` point.
  abbrev context : Ptr → Context (Kont S)
  context p = record (Context.new zeroed) { para = p; ret = p }

  abbrev installed : World S → Ptr → ℕ → TypeId → TypeId → World S
  installed w g bottom a t = record w {
    mem = record (w.mem) {
      contexts = update w.mem.contexts g (some (context null));
      paras = update w.mem.paras g (some (record { ty = a; value = none }));
      rets = update w.mem.rets g (some (record { ty = t; value = none }));
    };
    gens = update w.gens g (some (blank bottom));
  }

  -- `init_code` has installed the closure.
  abbrev coded : World S → Ptr → Context (Kont S) → ℕ → Closure S → World S
  coded w g c bottom f =
      record (with_contexts w (
        update (update w.mem.contexts g (some (record c { parent = g; ref = 0 }))) g
          (some (ready c g (blank bottom) f)))) {
            gens =
                update (update w.gens g (some (blank bottom))) g
                  (some (record { bottom = bottom; f = some f }));
          }

  new-ok :
      (w : World S) (g : Ptr) (bottom : ℕ) (a t : TypeId)
      → (g == null) ≡ false
      → new g bottom a t w ≡ ok tt (installed w g bottom a t)
  unfolding new store store_para store_ret store_gen
  new-ok w g bottom a t n = rw n refl

  -- What has been made is at rest.
  made-AtRest :
      (w w' : World S) (g bottom p : ℕ) (a t : TypeId) (typed : Bool) (f : Closure S)
      → g ≢ null
      → w'.mem.contexts g ≡ some (ready (context p) g (blank bottom) f)
      → w'.gens g ≡ some (record { bottom = bottom; f = some f })
      → w'.mem.paras g ≡ some (record { ty = a; value = none })
      → w'.mem.rets g ≡ some (record { ty = t; value = none })
      → (typed ≡ true → p ≡ g)
      → AtRest w'
          (fresh f.state)
          (record { takes = a; gives = t; is_typed = typed; inbox = none })
          g
  made-AtRest w w' g bottom p a t typed f ne here gen para ret linked = record {
    c = ready (context p) g (blank bottom) f;
    i = record { bottom = bottom; f = some f };
    s = record { ty = t; value = none };
    owns = record {
      ne = ne;
      here = here;
      gen = gen;
      para = para;
      ret = ret;
      ty = refl;
      clean = refl;
      plain = refl;
      linked = λ z. (linked z, linked z);
    };
    own = refl;
    alone = refl;
    holds = (refl, refl, refl, (f, refl, refl));
  }

  -- It is made where there is none.
  create-free :
      (a a' : View S) (g : Ptr) (p : Port) (t s : S)
      → create a g p t s ≡ some a'
      → ((g == null) ≡ false)
        × (has g (gens a.active ++ a.home ∷ []) ≡ false)
        × (created a g p t s ≡ a')
  create-free a a' g p t s e = elim (Bool-cases (is_free a g)) [
    | inr n ↦ let z : none ≡ some a' = rw n at e in absurd cc
    | inl y ↦
        let z : some (created a g p t s) ≡ some a' = rw y at e in (ground arith, ground arith, cc)
  ]

module _ (cl : Client) (a : View cl.Local) (w : World cl.Local) (l s : cl.Local) (r : Reply)
    (v : Represents a w) where
  create-Reaches :
      {o : Op cl.Local} (g : Ptr) (p : Port) (t : cl.Local) (w' : World cl.Local)
      {a' : View cl.Local}
      → cl.next l r ≡ call o s
      → create a g p t s ≡ some a'
      → ((g == null) ≡ false → exec o w ≡ ok (reply Reply.unit) w')
      → IsLocal w g w'
      → (g ≢ null → AtRest w' (fresh t) p g)
      → Reaches cl (at (running (base a.active) l r) w) a'
  unfolding run step perform continue
  create-Reaches g p t w' calls e runs local rests =
      let (n, out, same) = create-free a _ g p t s e in
      subst (Reaches cl (at (running (base a.active) l r) w)) same (record {
        steps = 1;
        some_steps = omega arith;
        few = omega arith;
        world = w';
        reached = rw calls (ap (continue (base a.active) s w) (runs n));
        represents =
            rest_lem a w w' g (some (fresh t)) p _ v local (rw v.home out)
              (some-AtRest w' p g (fresh t) (rests (ground arith)));
      })

  pub new_opt-Reaches :
      (g bottom : ℕ) (t u : TypeId) (f : Closure cl.Local) {a' : View cl.Local}
      → cl.next l r ≡ call (Op.new_opt g bottom t u f) s
      → create a g (record { takes = t; gives = u; is_typed = true; inbox = none }) f.state s
        ≡ some a'
      → Reaches cl (at (running (base a.active) l r) w) a'
  unfolding exec init_context
  new_opt-Reaches g bottom t u f calls e =
      let w1 = installed w g bottom t u in
      let w0 = with_contexts w1 (update w1.mem.contexts g (some (context g))) in
      create-Reaches g _ f.state (coded w0 g (context g) bottom f) calls e
        (λ n.
          rw
            (
              new-ok w g bottom t u n,
              with_context-ok w1 g (context null) (λ c. record c { para = g; ret = g })
                  (ground arith) (ground arith),
            )
            (init_code-ok w0 g (context g) (blank bottom) (ground arith) (ground arith)
              (ground arith) f refl))
        (record {
          root = refl;
          usage = refl;
          same = λ b n. (ground arith, ground arith, ground arith, ground arith);
        })
        (λ n.
          made-AtRest w _ g bottom g t u true f n (ground arith) (ground arith) (ground arith)
            (ground arith) (λ z. refl))

  pub new_scoped_opt-Reaches :
      (g bottom : ℕ) (t u : TypeId) (f : Ptr → Closure cl.Local) {a' : View cl.Local}
      → cl.next l r ≡ call (Op.new_scoped_opt g bottom t u f) s
      → create a g (record { takes = t; gives = u; is_typed = false; inbox = none }) (f g).state s
        ≡ some a'
      → Reaches cl (at (running (base a.active) l r) w) a'
  unfolding exec
  new_scoped_opt-Reaches g bottom t u f calls e =
      let w1 = installed w g bottom t u in
      create-Reaches g _ (f g).state (coded w1 g (context null) bottom (f g)) calls e
        (λ n. rw (new-ok w g bottom t u n) (
          init_code-ok w1 g (context null) (blank bottom) (ground arith) (ground arith)
            (ground arith) (f g) refl))
        (record {
          root = refl;
          usage = refl;
          same = λ b n. (ground arith, ground arith, ground arith, ground arith);
        })
        (λ n.
          made-AtRest w _ g bottom null t u false (f g) n (ground arith) (ground arith)
            (ground arith) (ground arith) (λ z. cc))
