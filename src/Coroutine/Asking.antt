-- ===== src/Coroutine/Asking.antt =====
-- The calls that switch nothing, do what the abstract view says.
use generator_rs.Base.{
  ◌≡◌, ◌↔◌, refl, ◌∙◌, subst, Bool, false, some, List, [], ◌∷◌, arith, Bool-cases, inl, inr,
  Option-cases,
}
use generator_rs.Panic.{ok, panic}
use generator_rs.Rt.Context.{Ptr}
use generator_rs.Rt.Env
use generator_rs.Rt.Search.{is_generator_lem}
use generator_rs.Gen.Types.{Reply, unwind, Op, call, Client, World}
use generator_rs.Gen.Impl.{is_done}
use generator_rs.Gen.Yield
use generator_rs.Gen.Machine.{exec, at, running, continue, perform, step, run}
use generator_rs.Gen.Views.{env-ok, on_mem-ok}
use generator_rs.Gen.Sends.{is_done-ok}
use generator_rs.Coroutine.Abstract.{
  Status, fresh, paused, over, Activation, View, base, gens, answered, is_over, is_inside, stop,
  ask_done,
}
use generator_rs.Coroutine.Refines.{Represents, Represents-answered}
use generator_rs.Coroutine.Entering.{Reaches}

module _ {S : Type 0} where
  agreed : (st : List (Activation S)) (b : Bool) → (b ≡ false ↔ gens st ≡ []) → b ≡ is_inside st
  agreed [] b iff = iff.1 refl
  agreed (x ∷ rest) b iff = elim (Bool-cases b) [
    | inl t ↦ t
    | inr f ↦ absurd (ground (arith, iff.0 f))
  ]

  done-stop :
      (w : World S) (st : List (Activation S))
      → Yield.is_generator w ≡ ok (is_inside st) w
      → Yield.done w ≡ panic (stop st) w
  unfolding Yield.done
  done-stop w [] e = rw e refl
  done-stop w (x ∷ rest) e = rw e refl

module _ (cl : Client) (a : View cl.Local) (w : World cl.Local) (l s : cl.Local) (r : Reply)
    (v : Represents a w) where
  -- A call that answers at once.
  pub answers :
      {o : Op cl.Local} (q : Reply)
      → cl.next l r ≡ call o s
      → continue (base a.active) s w (exec o w) ≡ at (running (base a.active) s q) w
      → Reaches cl (at (running (base a.active) l r) w) (answered a s q)
  unfolding run step perform
  answers q calls e = record {
    steps = 1;
    some_steps = omega arith;
    few = omega arith;
    world = w;
    reached = rw calls e;
    represents = Represents-answered a w _ v;
  }

  pub rest-is_done :
      (g : Ptr) (st : Status cl.Local) (b : Bool)
      → a.rest g ≡ some st
      → is_over (some st) ≡ some b
      → is_done g w ≡ ok b w
  rest-is_done g (fresh t) b e i =
      let q = (v.off g (fresh t) e).1 in
      let (f, has_f, _) = q.holds.3 in
      is_done-ok w g q.c q.i q.owns.ne q.owns.here q.owns.gen ∙ ground (arith, has_f, i)
  rest-is_done g (paused after t) b e i =
      let q = (v.off g (paused after t) e).1 in
      is_done-ok w g q.c q.i q.owns.ne q.owns.here q.owns.gen
      ∙ ground (arith, q.holds.1, q.holds.3, i)
  rest-is_done g (over n) b e i =
      let q = (v.off g (over n) e).1 in
      is_done-ok w g q.c q.i q.owns.ne q.owns.here q.owns.gen
      ∙ ground (arith, q.holds.0, q.holds.1, i)

  pub is_done-Reaches :
      (g : Ptr) {a' : View cl.Local}
      → cl.next l r ≡ call (Op.is_done g) s
      → ask_done a s (is_over (a.rest g)) ≡ some a'
      → Reaches cl (at (running (base a.active) l r) w) a'
  unfolding continue exec
  is_done-Reaches g {a'} calls e = elim (Option-cases (a.rest g)) [
    | inl z ↦ absurd (ground (arith, rw z at e))
    | inr (st, z) ↦ elim (Option-cases (is_over (some st))) [
      | inl y ↦ absurd (ground (arith, rw (z, y) at e))
      | inr (b, y) ↦
          let same : answered a s (Reply.bool b) ≡ a' = ground (arith, rw (z, y) at e) in
          subst (Reaches cl (at (running (base a.active) l r) w)) same
            (answers (Reply.bool b) calls (rw (rest-is_done g st b z y) refl))
    ]
  ]

  inside : Yield.is_generator w ≡ ok (is_inside a.active) w
  unfolding Yield.is_generator
  inside =
      let (_, _, b, _, _, _, q, iff) = is_generator_lem w.mem w.mem.root (gens a.active) v.ring in
      let same = agreed a.active b iff in
      rw (
        env-ok w v.ring.base.0,
        Yield.is_generator,
        on_mem-ok (Env.is_generator w.mem.root) w q,
        same,
      )

  pub is_generator-Reaches :
      cl.next l r ≡ call Op.is_generator s
      → Reaches cl
          (at (running (base a.active) l r) w)
          (answered a s (Reply.bool (is_inside a.active)))
  unfolding continue exec
  is_generator-Reaches calls = answers _ calls (rw inside refl)

  pub done-Reaches :
      cl.next l r ≡ call Op.done s
      → Reaches cl (at (running (base a.active) l r) w) (answered a s (unwind (stop a.active)))
  unfolding continue exec
  done-Reaches calls = answers _ calls (rw (done-stop w a.active inside) refl)
