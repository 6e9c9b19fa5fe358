-- ===== src/Coroutine/Steps.antt =====
-- Each step of the abstract view is made by the thread.
use generator_rs.Base.{
  ℕ, ◌≡◌, refl, sym, subst, true, false, ◌&&◌, none, some, List, [], ◌∷◌, arith, ◌==◌, Bool-cases,
  inl, inr, eq_of_==,
}
use generator_rs.Panic.{Payload}
use generator_rs.Rt.Context.{Ptr}
use generator_rs.Gen.Types.{
  Reply, value, Op, Action, ret, raise, call, Client, Channel, typed, scoped, AfterYield, nothing,
  then_get, then_take, World,
}
use generator_rs.Gen.Machine.{Machine, at, running, exec, step, run, perform, finish}
use generator_rs.Gen.Leave.{Yields, by_yield_with, by_yield_, by_scope_yield_with, by_scope_yield}
use generator_rs.Coroutine.Abstract.{
  paused, Activation, View, base, left, is_kept, may_write, may_read, yield_from_top, ask, go, end,
  fail,
}
use generator_rs.Coroutine.Refines.{Represents, Represents-answered}
use generator_rs.Coroutine.Entering.{Reaches, ask_resume, ask_raw_send, ask_send, enter-Reaches}
use generator_rs.Coroutine.Leaving.{yield-Reaches}
use generator_rs.Coroutine.Ending.{return-Reaches, raise-Reaches}
use generator_rs.Coroutine.Making.{new_opt-Reaches, new_scoped_opt-Reaches}
use generator_rs.Coroutine.Dropping.{drop-Reaches, discard-Reaches}
use generator_rs.Coroutine.Setting.{set_para-Reaches, init_code-Reaches}
use generator_rs.Coroutine.Taking.{by_get_yield, by_scope, take-Reaches}
use generator_rs.Coroutine.Asking.{is_done-Reaches, is_generator-Reaches, done-Reaches}
use generator_rs.Coroutine.Cancelling.{cancel-Reaches}

-- The view that a step gives is the one that it is said to give.
pub Reaches-some :
    (cl : Client) {m : Machine cl.Local} {a b : View cl.Local}
    → some a ≡ some b
    → Reaches cl m a
    → Reaches cl m b
Reaches-some cl {m} {a} {b} e = let same : a ≡ b = cc in subst (Reaches cl m) same

-- A scope yields for its own generator.
scope-own : (q g : Ptr) → (q == g) ≡ true → g ≡ q
scope-own q g e = sym (eq_of_== q g e)

module _ (cl : Client) (a : View cl.Local) (w : World cl.Local) (l : cl.Local) (r : Reply) where
  Yields-Reaches :
      {o : Op cl.Local} {a' : View cl.Local} (ch : Channel) (n : ℕ) (after : AfterYield)
      (s : cl.Local) (st : List (Activation cl.Local))
      → Represents (record a { active = st }) w
      → cl.next l r ≡ call o s
      → ((g : Ptr) → may_write ch g (a.ports g) ≡ true → Yields o g ch n after)
      → yield_from_top a ch n after s st ≡ some a'
      → Reaches cl (at (running (base st) l r) w) a'
  Yields-Reaches ch n after s [] v calls how e = absurd (ground (arith, e))
  Yields-Reaches {o} {a'} ch n after s (x ∷ rest) v calls how e =
      let ok =
        is_kept x.way
        && may_write ch x.gen (a.ports x.gen)
        && may_read after x.gen (a.ports x.gen) in
      elim (Bool-cases ok) [
        | inr no_yield ↦ let z : none ≡ some a' = rw no_yield at e in absurd cc
        | inl yields ↦
            let z : some (left a x rest (some (paused after s)) (value (some n))) ≡ some a' =
              rw yields at e in
            let kept : is_kept x.way ≡ true = ground arith in
            let writes : may_write ch x.gen (a.ports x.gen) ≡ true = ground arith in
            let reads : may_read after x.gen (a.ports x.gen) ≡ true = ground arith in
            Reaches-some cl z (
              yield-Reaches cl a w x rest l r v ch n after s calls (how x.gen writes) kept writes
                reads)
      ]

  module _ (v : Represents a w) where
    ask-Reaches :
        {a' : View cl.Local} (o : Op cl.Local) (s : cl.Local)
        → cl.next l r ≡ call o s
        → ask a o s ≡ some a'
        → Reaches cl (at (running (base a.active) l r) w) a'
    unfolding ask exec
    ask-Reaches (Op.new_opt g bottom t u f) s c e =
        new_opt-Reaches cl a w l s r v g bottom t u f c e
    ask-Reaches (Op.new_scoped_opt g bottom t u f) s c e =
        new_scoped_opt-Reaches cl a w l s r v g bottom t u f c e
    ask-Reaches (Op.resume g) s c e = enter-Reaches cl a w g _ l s r v (ask_resume g) c e
    ask-Reaches (Op.raw_send g p) s c e = enter-Reaches cl a w g _ l s r v (ask_raw_send g p) c e
    ask-Reaches (Op.send g n) s c e = enter-Reaches cl a w g _ l s r v (ask_send g n) c e
    ask-Reaches (Op.cancel g) s c e = cancel-Reaches cl a w g l s r v c e
    ask-Reaches (Op.yield_with t n) s c e =
        Yields-Reaches (typed t t) n nothing s a.active v c (λ g _. by_yield_with g t n) e
    ask-Reaches (Op.yield_ b t n) s c e =
        Yields-Reaches (typed b t) n (then_get b) s a.active v c (λ g _. by_yield_ g b t n) e
    ask-Reaches (Op.scope_yield_with q n) s c e =
        Yields-Reaches (scoped q) n nothing s a.active v c
          (λ g y. rw (scope-own q g y) (by_scope_yield_with q n)) e
    ask-Reaches (Op.scope_yield q n) s c e =
        Yields-Reaches (scoped q) n (then_take q) s a.active v c
          (λ g y. rw (scope-own q g y) (by_scope_yield q n)) e
    ask-Reaches (Op.is_done g) s c e = is_done-Reaches cl a w l s r v g c e
    ask-Reaches Op.is_generator s c e = Reaches-some cl e (is_generator-Reaches cl a w l s r v c)
    ask-Reaches Op.done s c e = Reaches-some cl e (done-Reaches cl a w l s r v c)
    ask-Reaches (Op.init_code g f) s c e = init_code-Reaches cl a w g l s r v f c refl e
    ask-Reaches (Op.scoped_init g f) s c e = init_code-Reaches cl a w g l s r v (f g) c refl e
    ask-Reaches (Op.set_para g n) s c e = set_para-Reaches cl a w g l s r v n c e
    ask-Reaches (Op.drop g false) s c e = drop-Reaches cl a w g l s r v c e
    ask-Reaches (Op.drop g true) s c e = discard-Reaches cl a w g l s r v c e
    ask-Reaches (Op.get_yield t) s c e =
        take-Reaches cl a w l s r (then_get t) a.active v c (λ g _. by_get_yield g t) e
    ask-Reaches (Op.scope_get_yield q) s c e =
        take-Reaches cl a w l s r (then_take q) a.active v c
          (λ g y. rw (scope-own q g y) (by_scope q)) e
    ask-Reaches (Op.set_local_data g p) s c e = cc
    ask-Reaches (Op.get_local_data g) s c e = cc
    ask-Reaches (Op.get_panic_data g) s c e = cc
    ask-Reaches (Op.stack_usage g) s c e = cc
    ask-Reaches (Op.yield_from b t g) s c e = cc
    ask-Reaches (Op.co_yield_with t n) s c e = cc
    ask-Reaches (Op.co_get_yield t) s c e = cc
    ask-Reaches (Op.co_set_para t n) s c e = cc
    ask-Reaches Op.thread_local_data s c e = cc
    ask-Reaches (Op.scope_yield_from q g) s c e = cc

  end-Reaches :
      (n : ℕ) (st : List (Activation cl.Local))
      → Represents (record a { active = st }) w
      → cl.next l r ≡ ret n
      → Reaches cl (at (running (base st) l r) w) (end (record a { active = st }) n st)
  unfolding run step perform finish
  end-Reaches n [] v c = record {
    steps = 1;
    some_steps = omega arith;
    few = omega arith;
    world = w;
    reached = rw c refl;
    represents = Represents-answered (record a { active = [] }) w _ v;
  }
  end-Reaches n (x ∷ rest) v c = return-Reaches cl a w x rest l r v n c

  fail-Reaches :
      (e : Payload) (st : List (Activation cl.Local))
      → Represents (record a { active = st }) w
      → cl.next l r ≡ raise e
      → Reaches cl (at (running (base st) l r) w) (fail (record a { active = st }) e st)
  unfolding run step perform finish
  fail-Reaches e [] v c = record {
    steps = 1;
    some_steps = omega arith;
    few = omega arith;
    world = w;
    reached = rw c refl;
    represents = Represents-answered (record a { active = [] }) w _ v;
  }
  fail-Reaches e (x ∷ rest) v c = raise-Reaches cl a w x rest l r v e c

  pub go-Reaches :
      {a' : View cl.Local} (act : Action cl.Local)
      → Represents a w
      → cl.next l r ≡ act
      → go a act ≡ some a'
      → Reaches cl (at (running (base a.active) l r) w) a'
  unfolding go
  go-Reaches (call o s) v c e = ask-Reaches v o s c e
  go-Reaches (ret n) v c e = Reaches-some cl e (end-Reaches n a.active v c)
  go-Reaches (raise x) v c e = Reaches-some cl e (fail-Reaches x a.active v c)
