-- ===== src/Coroutine/Setting.antt =====
-- `set_para` and `init_code` do what the abstract view says.
use generator_rs.Base.{
  ℕ, ◌≡◌, refl, sym, ap, ◌∙◌, subst, false, ◌&&◌, Option, none, some, arith, ◌==◌, update,
  update_self, is_none, Option-cases, inl, inr,
}
use generator_rs.Panic.{ok}
use generator_rs.Rt.Context.{Ptr, Context, Slot, store_para}
use generator_rs.Gen.Types.{
  Reply, Op, call, Client, Closure, nothing, then_get, then_take, Kont, GeneratorImpl, World, reply,
}
use generator_rs.Gen.Impl
use generator_rs.Gen.Machine.{exec, at, running, continue, perform, step, run}
use generator_rs.Gen.Sends.{load_para-ok}
use generator_rs.Gen.Passing.{with_para}
use generator_rs.Gen.Life.{ready, init_code-ok}
use generator_rs.Coroutine.Abstract.{
  Status, fresh, paused, over, Port, View, base, answered, fill, recode,
}
use generator_rs.Coroutine.Refines.{Holds, AtRest, Represents}
use generator_rs.Coroutine.Enter.{cell}
use generator_rs.Coroutine.Leave.{some-AtRest}
use generator_rs.Coroutine.Rest.{IsLocal, rest_lem, rest-same_port}
use generator_rs.Coroutine.Entering.{Reaches}

module _ {S : Type 0} where
  -- What a generator at rest holds does not depend on what it has been sent.
  Holds-filled :
      (st : Status S) (p : Port) (m : Option ℕ) (g : Ptr) (c : Context (Kont S))
      (i : GeneratorImpl S) (s : Slot)
      → Holds st p g c i s
      → Holds st (record p { inbox = m }) g c i s
  Holds-filled (fresh t) p m g c i s h = h
  Holds-filled (paused nothing t) p m g c i s h = h
  Holds-filled (paused (then_get u) t) p m g c i s h = h
  Holds-filled (paused (then_take u) t) p m g c i s h = h
  Holds-filled (over n) p m g c i s h = h

  pub with_para-IsLocal : (w : World S) (g : Ptr) (s : Slot) → IsLocal w g (with_para w g s)
  with_para-IsLocal w g s = record {
    root = refl;
    usage = refl;
    same = λ b n. (refl, refl, ground arith, refl);
  }

  AtRest-filled :
      (w : World S) (st : Status S) (p : Port) (g : Ptr) (m : Option ℕ)
      → AtRest w st p g
      → AtRest (with_para w g (record (cell p) { value = m })) st (record p { inbox = m }) g
  AtRest-filled w st p g m r =
      let o = r.owns in
      record {
        c = r.c;
        i = r.i;
        s = r.s;
        owns = record {
          ne = o.ne;
          here = o.here;
          gen = o.gen;
          para = ground arith;
          ret = o.ret;
          ty = o.ty;
          clean = o.clean;
          plain = o.plain;
          linked = o.linked;
        };
        own = r.own;
        alone = r.alone;
        holds = Holds-filled st p m g r.c r.i r.s r.holds;
      }

module _ (cl : Client) (a : View cl.Local) (w : World cl.Local) (g : Ptr) (l s : cl.Local)
    (r : Reply) (v : Represents a w) where
  set_para-does :
      (st : Status cl.Local) (n : ℕ)
      → (e : a.rest g ≡ some st)
      → exec (Op.set_para g n) w
        ≡ ok (reply Reply.unit) (with_para w g (record (cell (a.ports g)) { value = some n }))
  unfolding exec Impl.set_para store_para
  set_para-does st n e =
      let q = (v.off g st e).1 in
      rw (load_para-ok w g (cell (a.ports g)) q.owns.para, Impl.set_para)

  pub set_para-Reaches :
      (n : ℕ) {a' : View cl.Local}
      → cl.next l r ≡ call (Op.set_para g n) s
      → fill a g n s (a.rest g) ≡ some a'
      → Reaches cl (at (running (base a.active) l r) w) a'
  unfolding run step perform continue
  set_para-Reaches n {a'} calls e = elim (Option-cases (a.rest g)) [
    | inl z ↦ absurd (ground (arith, rw z at e))
    | inr (st, z) ↦
        let q = (v.off g st z).1 in
        let p = record (a.ports g) { inbox = some n } in
        let w' = with_para w g (record (cell (a.ports g)) { value = some n }) in
        let b = record (answered a s Reply.unit) { ports = update a.ports g p } in
        let same : b ≡ a' = ground (arith, rw z at e) in
        subst (Reaches cl (at (running (base a.active) l r) w)) same (record {
          steps = 1;
          some_steps = omega arith;
          few = omega arith;
          world = w';
          reached = rw (calls, perform, set_para-does st n z) refl;
          represents =
              subst (λ f. Represents (record b { rest = f }) w')
                (ap (update a.rest g) (sym z) ∙ update_self a.rest g)
                (rest_lem a w w' g (some st) p _ v (with_para-IsLocal w g _) (v.off g st z).0
                  (some-AtRest w' p g st (AtRest-filled w st (a.ports g) g (some n) q)));
        })
  ]

  -- New code, where `init_code` does not cancel.
  recoded :
      {o : Op cl.Local} (st : Status cl.Local) (f : Closure cl.Local)
      → cl.next l r ≡ call o s
      → exec o w ≡ Impl.init_code g f w
      → (e : a.rest g ≡ some st) → (q : AtRest w st (a.ports g) g)
      → (is_none q.i.f && q.c.ref == 0) ≡ false
      → q.s.value ≡ none
      → Reaches cl
          (at (running (base a.active) l r) w)
          (record (answered a s Reply.unit) { rest = update a.rest g (some (fresh f.state)) })
  unfolding run step perform continue
  recoded st f calls does e q cond empty =
      let c = q.c in
      let i = q.i in
      let k = q.owns in
      let w' = record w {
        mem = record (w.mem) {
          contexts =
              update (update w.mem.contexts g (some (record c { parent = g; ref = 0 }))) g
                (some (ready c g i f));
        };
        gens =
            update (update w.gens g (some (record i { f = none }))) g
              (some (record i { f = some f }));
      } in
      let local : IsLocal w g w' = record {
        root = refl;
        usage = refl;
        same = λ b n. (ground arith, ground arith, refl, refl);
      } in
      record {
        steps = 1;
        some_steps = omega arith;
        few = omega arith;
        world = w';
        reached =
            rw (calls, perform)
              (ap (continue (base a.active) s w)
                (does ∙ init_code-ok w g c i k.ne k.here k.gen f cond));
        represents = rest-same_port a w w' g (some (fresh f.state)) _ v local (v.off g st e).0 (
            some-AtRest w' (a.ports g) g (fresh f.state) (record {
              c = ready c g i f;
              i = record i { f = some f };
              s = q.s;
              owns = record {
                ne = k.ne;
                here = ground arith;
                gen = ground arith;
                para = k.para;
                ret = k.ret;
                ty = k.ty;
                clean = k.clean;
                plain = k.plain;
                linked = k.linked;
              };
              own = refl;
              alone = q.alone;
              holds = (refl, refl, empty, (f, refl, refl));
            }));
      }

  pub init_code-Reaches :
      {o : Op cl.Local} (f : Closure cl.Local) {a' : View cl.Local}
      → cl.next l r ≡ call o s
      → exec o w ≡ Impl.init_code g f w
      → recode a g f.state s (a.rest g) ≡ some a'
      → Reaches cl (at (running (base a.active) l r) w) a'
  init_code-Reaches f {a'} calls does e = elim (Option-cases (a.rest g)) [
    | inl z ↦ absurd (ground (arith, rw z at e))
    | inr (st, z) ↦ recoded_as st z (rw z at e)
  ]
    where
      goal : View cl.Local → Type 0
      goal = Reaches cl (at (running (base a.active) l r) w)

      recoded_as :
          (st : Status cl.Local)
          → a.rest g ≡ some st
          → recode a g f.state s (some st) ≡ some a'
          → goal a'
      recoded_as (fresh t) z e =
          let q = (v.off g (fresh t) z).1 in
          let (h, has_h, _) = q.holds.3 in
          subst goal (ground (arith, e))
            (recoded (fresh t) f calls does z q (ground (arith, has_h)) q.holds.2)
      recoded_as (over none) z e =
          let q = (v.off g (over none) z).1 in
          let n : (q.c.ref == 0) ≡ false = ground (arith, q.holds.0) in
          subst goal (ground (arith, e))
            (recoded (over none) f calls does z q (rw (q.holds.1, n) refl) q.holds.2)
      recoded_as (over (some n)) z e = absurd (ground (arith, e))
      recoded_as (paused after t) z e = absurd (ground (arith, e))
