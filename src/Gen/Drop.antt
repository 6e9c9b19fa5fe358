-- ===== src/Gen/Drop.antt =====
-- `Drop for GeneratorImpl` of src/gen_impl.rs.
use generator_rs.Base.{
  ◌≡◌, ◌≢◌, refl, ◌⊎◌, inl, inr, Bool, true, false, not, ◌&&◌, none, some, arith, ltb,
  if◌then◌else◌, update, is_none, Bool-cases,
}
use generator_rs.Panic.{ok, panic, error, stack_err}
use generator_rs.Rt.Context.{Ptr, null, Context}
use generator_rs.Gen.Types.{Reply, Op, Kont, GeneratorImpl, World, reply}
use generator_rs.Gen.Impl
use generator_rs.Gen.Impl.{is_done, is_started, drop_rest, free}
use generator_rs.Gen.Machine.{exec}
use generator_rs.Gen.Sends.{is_done-ok}
use generator_rs.Gen.Cancel.{is_started-ok}

module _ {S : Type 0} where
  -- The thread without the generator.
  abbrev pub freed : World S → Ptr → World S
  freed w g = record w {
    gens = update w.gens g none;
    mem = record (w.mem) {
      contexts = update w.mem.contexts g none;
      paras = update w.mem.paras g none;
      rets = update w.mem.rets g none;
    };
  }

module _ {S : Type 0} (w : World S) (g : Ptr) (c : Context (Kont S)) (i : GeneratorImpl S)
    (ne : g ≢ null) (here : w.mem.contexts g ≡ some c) (gen : w.gens g ≡ some i) where
  drop-unstarted :
      is_none i.f ≡ false → exec (Op.drop g false) w ≡ ok (reply Reply.unit) (freed w g)
  unfolding exec Impl.drop free
  drop-unstarted e = rw (is_started-ok w g i gen, e, is_done-ok w g c i ne here gen)

  -- Dropping a generator, where the thread is panicking, or it has not started, or it is done: the
  -- generator is freed and nothing else changes, but one that is done while the thread does not
  -- panic, and whose stack has no unused word, panics with StackErr and stays.
  pub drop_lem :
      (panicking : Bool)
      → (panicking ≡ true) ⊎ ((is_none i.f ≡ false) ⊎ (is_done g w ≡ ok true w))
      → exec (Op.drop g panicking) w ≡ (
          if not panicking && (is_none i.f && not (ltb (w.usage g).1 (w.usage g).0))
          then panic (error stack_err) w
          else ok (reply Reply.unit) (freed w g))
  unfolding exec Impl.drop drop_rest free
  drop_lem true why = refl
  drop_lem false (inl e) = absurd (ground arith)
  drop_lem false (inr (inl e)) = rw (e, drop-unstarted e)
  drop_lem false (inr (inr d)) = elim (Bool-cases (is_none i.f)) [
    | inl t ↦ rw (is_started-ok w g i gen, t, d, drop_rest, d) (ground arith)
    | inr f ↦ rw (f, drop-unstarted f)
  ]
