-- ===== src/Coroutine/Taking.antt =====
-- `get_yield` and `Scope::get_yield` do what the abstract view says.
use generator_rs.Base.{
  ℕ, ◌≡◌, refl, subst, true, false, Option, none, some, List, [], ◌∷◌, arith, ◌==◌, update,
  Bool-cases, inl, inr,
}
use generator_rs.Panic.{ok}
use generator_rs.Rt.Context.{Ptr, TypeId, Context, take_para, get_para, load}
use generator_rs.Rt.Ring.{Ring, ne-first}
use generator_rs.Gen.Types.{
  Reply, Op, call, Client, AfterYield, then_get, then_take, Kont, World, reply,
}
use generator_rs.Gen.Yield.{get_yield, raw_get_yield, check_context, top_context}
use generator_rs.Gen.Machine.{exec, at, running, continue, perform, step, run}
use generator_rs.Gen.Views.{env-ok, top-ok}
use generator_rs.Gen.Resume.{Reads, received}
use generator_rs.Gen.Passing.{with_para}
use generator_rs.Coroutine.Abstract.{
  Port, Activation, View, base, gens, answered, drained, may_read, take_at_top,
}
use generator_rs.Coroutine.Refines.{Represents}
use generator_rs.Coroutine.Frames.{AtRest-framed, Stacked-framed, lower-out}
use generator_rs.Coroutine.Enter.{cell}
use generator_rs.Coroutine.Rest.{IsLocal-IsFramed}
use generator_rs.Coroutine.Setting.{with_para-IsLocal}
use generator_rs.Coroutine.Entering.{Reaches, may_read-Reads}

-- The newest generator takes what has been sent to it.
module _ {S : Type 0} where
  takes :
      (a : View S) (w : World S) (x : Activation S) (rest : List (Activation S)) (r : Reply) (s : S)
      (m : Option ℕ)
      → Represents (record a { active = x ∷ rest }) w
      → Represents
          (record (answered (record a { active = x ∷ rest }) s r) {
            ports = update a.ports x.gen (record (a.ports x.gen) { inbox = m });
          })
          (with_para w x.gen (record (cell (a.ports x.gen)) { value = m }))
  takes a w x rest r s m v =
      let g = x.gen in
      let p = record (a.ports g) { inbox = m } in
      let w' = with_para w g (record (cell (a.ports g)) { value = m }) in
      let local = with_para-IsLocal w g (record (cell (a.ports g)) { value = m }) in
      let framed = IsLocal-IsFramed w w' g local in
      let apart = v.ring.distinct.0 in
      let q = v.stacked.0 in
      let k = q.owns in
      let here : update a.ports g p g ≡ p = ground arith in
      record {
        home = v.home;
        usage = v.usage;
        ring = v.ring;
        stacked = (
          rw here (record {
            c = q.c;
            i = q.i;
            s = q.s;
            owns = record {
              ne = k.ne;
              here = k.here;
              gen = k.gen;
              para = ground arith;
              ret = k.ret;
              ty = k.ty;
              clean = k.clean;
              plain = k.plain;
              linked = k.linked;
            };
            ref = q.ref;
            empty = q.empty;
            started = q.started;
          }),
          (let b = v.stacked.1 in
              record {
                frame = b.frame;
                waits = b.waits;
                ctx = b.ctx;
                here = b.here;
                regs = b.regs;
              }),
          Stacked-framed w w' g g _ (g ∷ []) framed a.ports (update a.ports g p) rest
              (λ b n. ground arith) apart (lower-out g rest w.mem.root apart) v.stacked.2,
        );
        off = λ b st z.
            let (ob, rb) = v.off b st z in
            let n : (b == g) ≡ false = ground arith in
            let kept : update a.ports g p b ≡ a.ports b = ground arith in
            (
              ob,
              rw kept
                  (AtRest-framed w w' g g _ (g ∷ []) framed st (a.ports b) b n (ground arith) rb),
            );
      }

-- The calls that take it, with what they answer and leave.
pub data Takes {S : Type 0} : Op S → (g : Ptr) → AfterYield → Type 0 where
  by_get_yield : (g : Ptr) (t : TypeId) → Takes (Op.get_yield t) g (then_get t)
  by_scope : (g : Ptr) → Takes (Op.scope_get_yield g) g (then_take g)

module _ {S : Type 0} where
  exec-Takes :
      (w : World S) (xs : List Ptr) (c : Context (Kont S)) (p : Port) {o : Op S} {g : Ptr}
      {after : AfterYield}
      → Takes o g after
      → Ring w.mem.contexts w.mem.root (g ∷ xs)
      → w.mem.contexts g ≡ some c
      → w.mem.paras g ≡ some (cell p)
      → Reads after g c (cell p)
      → exec o w
        ≡ ok
            (reply (received after p.inbox))
            (with_para w g (record (cell p) { value = drained after p.inbox }))
  unfolding exec get_yield raw_get_yield check_context top_context get_para take_para load
  exec-Takes w xs c p (by_get_yield g t) ring here para reads =
      let o = ne-first g xs w.mem.root ring.distinct.0 in
      let away : (c.parent == g) ≡ false = ground (arith, ring.chain.0.1) in
      let ne = ring.chain.0.0 in
      rw (env-ok w ring.base.0, top_context, top-ok w (g ∷ xs) ring)
        (ground (arith, reads.0, reads.1))
  exec-Takes w xs c p (by_scope g) ring here para reads = ground arith

module _ (cl : Client) (a : View cl.Local) (w : World cl.Local) (l s : cl.Local) (r : Reply) where
  pub take-Reaches :
      {o : Op cl.Local} {a' : View cl.Local} (after : AfterYield) (st : List (Activation cl.Local))
      → Represents (record a { active = st }) w
      → cl.next l r ≡ call o s
      → ((g : Ptr) → may_read after g (a.ports g) ≡ true → Takes o g after)
      → take_at_top (record a { active = st }) after s st ≡ some a'
      → Reaches cl (at (running (base st) l r) w) a'
  unfolding run step perform continue
  take-Reaches after [] v calls how e = absurd (ground (arith, e))
  take-Reaches {o} {a'} after (x ∷ rest) v calls how e =
      let g = x.gen in
      let p = a.ports g in
      elim (Bool-cases (may_read after g p)) [
        | inr n ↦ let z : none ≡ some a' = rw n at e in absurd cc
        | inl y ↦
            let b = record (answered (record a { active = x ∷ rest }) s (received after p.inbox)) {
              ports = update a.ports g (record p { inbox = drained after p.inbox });
            } in
            let z : some b ≡ some a' = rw y at e in
            let same : b ≡ a' = cc in
            let q = v.stacked.0 in
            let does =
              exec-Takes w (gens rest) q.c p (how g y) v.ring q.owns.here q.owns.para
                (may_read-Reads after g p q.c q.owns.linked y) in
            subst (Reaches cl (at (running (base (x ∷ rest)) l r) w)) same (record {
              steps = 1;
              some_steps = omega arith;
              few = omega arith;
              world = with_para w g (record (cell p) { value = drained after p.inbox });
              reached = rw (calls, does) refl;
              represents = takes a w x rest _ s (drained after p.inbox) v;
            })
      ]
