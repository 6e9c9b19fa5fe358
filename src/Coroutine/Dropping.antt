-- ===== src/Coroutine/Dropping.antt =====
-- `Drop for GeneratorImpl` does what the abstract view says.
use generator_rs.Base.{
  ℕ, ◌≡◌, refl, ◌∙◌, subst, true, false, Option, none, some, arith, ltb, is_none, Bool-cases,
  Option-cases, inl, inr,
}
use generator_rs.Panic.{ok, panic, error, Error}
use generator_rs.Rt.Context.{Ptr}
use generator_rs.Gen.Types.{Reply, unwind, Op, call, Client, World, reply}
use generator_rs.Gen.Machine.{exec, at, running, continue, perform, step, run}
use generator_rs.Gen.Cancel
use generator_rs.Gen.Drop.{freed, drop_lem}
use generator_rs.Coroutine.Abstract.{
  Status, fresh, paused, over, drops, View, base, enter, enter_at, fits, gone, dropped, discard,
}
use generator_rs.Coroutine.Refines.{by_drop, Represents}
use generator_rs.Coroutine.Rest.{IsLocal, rest-same_port}
use generator_rs.Coroutine.Entering.{Reaches}
use generator_rs.Coroutine.Asking.{answers, rest-is_done}
use generator_rs.Coroutine.Cancelling.{cancel-paused}

module _ {S : Type 0} where
  freed-IsLocal : (w : World S) (g : Ptr) → IsLocal w g (freed w g)
  freed-IsLocal w g = record {
    root = refl;
    usage = refl;
    same = λ b n. (ground arith, ground arith, ground arith, ground arith);
  }

module _ (cl : Client) (a : View cl.Local) (w : World cl.Local) (g : Ptr) (l s : cl.Local)
    (r : Reply) (v : Represents a w) where
  gone-Reaches :
      {o : Op cl.Local} (st : Status cl.Local)
      → cl.next l r ≡ call o s
      → a.rest g ≡ some st
      → exec o w ≡ ok (reply Reply.unit) (freed w g)
      → Reaches cl (at (running (base a.active) l r) w) (gone a g s)
  unfolding run step perform continue
  gone-Reaches st calls e does = record {
    steps = 1;
    some_steps = omega arith;
    few = omega arith;
    world = freed w g;
    reached = rw (calls, does) refl;
    represents =
        rest-same_port a w (freed w g) g none _ v (freed-IsLocal w g) (v.off g st e).0 (λ u z. cc);
  }

  pub discard-Reaches :
      {a' : View cl.Local}
      → cl.next l r ≡ call (Op.drop g true) s
      → discard a g s (a.rest g) ≡ some a'
      → Reaches cl (at (running (base a.active) l r) w) a'
  discard-Reaches {a'} calls e = elim (Option-cases (a.rest g)) [
    | inl z ↦ absurd (ground (arith, rw z at e))
    | inr (st, z) ↦
        let q = (v.off g st z).1 in
        let same : gone a g s ≡ a' = ground (arith, rw z at e) in
        subst (Reaches cl (at (running (base a.active) l r) w)) same (
          gone-Reaches st calls z
            (drop_lem w g q.c q.i q.owns.ne q.owns.here q.owns.gen true (inl refl)))
  ]

  module _ (calls : cl.next l r ≡ call (Op.drop g false) s) where
    drop-fresh :
        (t : cl.Local)
        → a.rest g ≡ some (fresh t)
        → Reaches cl (at (running (base a.active) l r) w) (gone a g s)
    drop-fresh t e =
        let q = (v.off g (fresh t) e).1 in
        let (f, has_f, _) = q.holds.3 in
        let n : is_none q.i.f ≡ false = ground (arith, has_f) in
        let d = drop_lem w g q.c q.i q.owns.ne q.owns.here q.owns.gen false (inr (inl n)) in
        gone-Reaches (fresh t) calls e (d ∙ rw n refl)

    drop-over :
        (n : Option ℕ)
        → a.rest g ≡ some (over n)
        → Reaches cl (at (running (base a.active) l r) w) (dropped a g s)
    unfolding continue
    drop-over n e =
        let q = (v.off g (over n) e).1 in
        let done = rest-is_done cl a w l s r v g (over n) true e refl in
        let d = drop_lem w g q.c q.i q.owns.ne q.owns.here q.owns.gen false (inr (inr done)) in
        let room : ltb (w.usage g).1 (w.usage g).0 ≡ fits a g = rw v.usage refl in
        elim (Bool-cases (fits a g)) [
          | inl y ↦
              let does : exec (Op.drop g false) w ≡ ok (reply Reply.unit) (freed w g) =
                d ∙ rw (q.holds.1, room, y) refl in
              rw y (gone-Reaches (over n) calls e does)
          | inr k ↦
              let does : exec (Op.drop g false) w ≡ panic (error Error.stack_err) w =
                d ∙ rw (q.holds.1, room, k) refl in
              rw k (answers cl a w l s r v (unwind (error Error.stack_err)) calls (rw does refl))
        ]

    pub drop-Reaches :
        {a' : View cl.Local}
        → enter a g drops none s ≡ some a'
        → Reaches cl (at (running (base a.active) l r) w) a'
    drop-Reaches {a'} e = elim (Option-cases (a.rest g)) [
      | inl z ↦ absurd (ground (arith, rw z at e))
      | inr (st, z) ↦ dropped_as st z (rw z at e)
    ]
      where
        goal : View cl.Local → Type 0
        goal = Reaches cl (at (running (base a.active) l r) w)

        dropped_as :
            (st : Status cl.Local)
            → a.rest g ≡ some st
            → enter_at a g drops none s (some st) ≡ some a'
            → goal a'
        dropped_as (fresh t) z e = subst goal (ground (arith, e)) (drop-fresh t z)
        dropped_as (paused after t) z e = subst goal (ground (arith, e)) (
            cancel-paused cl a w g l s r v drops (Cancel.by_drop g) (by_drop g) refl calls after t
              z)
        dropped_as (over n) z e =
            let same : dropped a g s ≡ a' = cc in subst goal same (drop-over n z)
