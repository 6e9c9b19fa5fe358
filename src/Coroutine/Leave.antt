-- ===== src/Coroutine/Leave.antt =====
-- The way out of a generator keeps the abstract view.
use generator_rs.Base.{
  ◌≡◌, refl, subst, ◌∙◌, false, Option, none, some, List, [], ◌∷◌, ◌++◌, arith, ◌==◌, has,
  Bool-cases, inl, inr, eq_of_==,
}
use generator_rs.Rt.Context.{Ptr, Context, Slot}
use generator_rs.Rt.Ring.{Ring}
use generator_rs.Gen.Types.{Reply, Kont, waiting, GeneratorImpl, World}
use generator_rs.Gen.Handover.{IsSwitched, IsOff}
use generator_rs.Gen.Rounds.{IsRunning}
use generator_rs.Coroutine.Abstract.{Status, Port, Activation, View, base, gens, left}
use generator_rs.Coroutine.Refines.{Holds, Runs, AtRest, Represents}
use generator_rs.Coroutine.Frames.{IsFramed-by_switch, AtRest-framed, Stacked-framed, lower-out}

module _ {S : Type 0} where
  pub Represents-IsRunning :
      (a : View S) (w : World S) (x : Activation S) (rest : List (Activation S))
      → (v : Represents (record a { active = x ∷ rest }) w)
      → IsRunning w x.gen
          (gens rest)
          (v.stacked.0.c)
          (v.stacked.0.s)
          (waiting (v.stacked.1.frame) (base rest) x.caller)
  Represents-IsRunning a w x rest v = record {
    ring = v.ring;
    here = v.stacked.0.owns.here;
    ret = v.stacked.0.owns.ret;
    below = (v.stacked.1.ctx, v.stacked.1.here, v.stacked.1.regs);
  }

  -- A status that is given.
  pub some-AtRest :
      (w : World S) (p : Port) (g : Ptr) (st : Status S)
      → AtRest w st p g
      → (u : Status S) → some st ≡ some u
      → AtRest w u p g
  some-AtRest w p g st r u e = let same : st ≡ u = cc in subst (λ q. AtRest w q p g) same r

  -- What a generator that has left is, if its memory is kept.
  pub left-AtRest :
      (w w' : World S) (x : Activation S) (p : Port) (xs : List Ptr) (st : Status S) (k : Kont S)
      (d : Context (Kont S)) (i : GeneratorImpl S) (s : Slot)
      → (q : Runs w x.way p x.gen) → IsOff w'.mem.contexts w.mem.root x.gen xs k d
      → (d.err ≡ none) × (d.local_data ≡ q.c.local_data) × (d.para ≡ q.c.para) × (d.ret ≡ q.c.ret)
      → w'.gens x.gen ≡ some i
      → w'.mem.paras x.gen ≡ w.mem.paras x.gen
      → w'.mem.rets x.gen ≡ some s
      → s.ty ≡ q.s.ty
      → ((c : Context (Kont S)) → c.regs ≡ k → c.ref ≡ d.ref → Holds st p x.gen c i s)
      → AtRest w' st p x.gen
  left-AtRest w w' x p xs st k d i s q off kept gen para ret ty holds =
      let (c', ec, regs, ref, err, local, pa, re) = off.like in
      let o = q.owns in
      record {
        c = c';
        i = i;
        s = s;
        owns = record {
          ne = o.ne;
          here = ec;
          gen = gen;
          para = para ∙ o.para;
          ret = ret;
          ty = ty ∙ o.ty;
          clean = err ∙ kept.0;
          plain = local ∙ kept.1 ∙ o.plain;
          linked = λ t. (pa ∙ kept.2 ∙ (o.linked t).0, re ∙ kept.3 ∙ (o.linked t).1);
        };
        own = ground (arith, off.own.base.1, ec);
        alone = ground (arith, off.own.base.2, ec);
        holds = holds c' regs ref;
      }

  pub leave_lem :
      (a : View S) (w w' : World S) (x : Activation S) (rest : List (Activation S))
      (st : Option (Status S)) (answer : Reply) (k : Kont S)
      (pre post : Ptr → Option (Context (Kont S)))
      → (v : Represents (record a { active = x ∷ rest }) w)
      → Ring w'.mem.contexts w.mem.root (gens rest)
      → IsSwitched pre x.gen k (x.gen ∷ (gens rest ++ w.mem.root ∷ [])) post
      → ((b : Ptr) → (b == x.gen) ≡ false → pre b ≡ w.mem.contexts b)
      → ((b : Ptr) → (b == x.gen) ≡ false → w'.mem.contexts b ≡ post b)
      → w'.mem.root ≡ w.mem.root
      → w'.usage ≡ w.usage
      → ((b : Ptr)
          → (b == x.gen) ≡ false
          → (w'.gens b ≡ w.gens b)
            × (w'.mem.paras b ≡ w.mem.paras b)
            × (w'.mem.rets b ≡ w.mem.rets b))
      → ((u : Status S) → st ≡ some u → AtRest w' u (a.ports x.gen) x.gen)
      → Represents (left a x rest st answer) w'
  leave_lem a w w' x rest st answer k pre post v ring switched before after root usage cells mine =
      let g = x.gen in
      let touched = g ∷ (gens rest ++ w.mem.root ∷ []) in
      let framed =
        IsFramed-by_switch w w' g g k touched pre post switched before after root cells in
      let apart = v.ring.distinct.0 in
      record {
        home = root ∙ v.home;
        usage = usage ∙ v.usage;
        ring = rw root ring;
        stacked =
            Stacked-framed w w' g g k touched framed a.ports a.ports rest (λ b n. refl) apart
              (lower-out g rest w.mem.root apart) v.stacked.2;
        off = λ b st' z. elim (Bool-cases (b == g)) [
          | inl y ↦
              let st_same : st ≡ some st' = ground arith in
              let same : b ≡ g = eq_of_== b g y in
              (rw (same, root) apart, rw same (mine st' st_same))
          | inr n ↦
              let z' : a.rest b ≡ some st' = ground arith in
              let (ob, rb) = v.off b st' z' in
              let ob' : has b touched ≡ false = ground arith in
              let ob'' : has b (gens rest ++ w.mem.root ∷ []) ≡ false = ground arith in
              (rw root ob'', AtRest-framed w w' g g k touched framed st' (a.ports b) b n ob' rb)
        ];
      }
