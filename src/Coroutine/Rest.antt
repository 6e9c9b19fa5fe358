-- ===== src/Coroutine/Rest.antt =====
-- A generator at rest is changed, or made, without a switch.
use generator_rs.Base.{
  ◌≡◌, ◌∙◌, subst, true, false, Option, some, List, [], ◌∷◌, ◌++◌, arith, ◌==◌, update, update_self,
  ==_refl, has, has-append, ne_of_has, Bool-cases, inl, inr, eq_of_==,
}
use generator_rs.Rt.Context.{Ptr, Context}
use generator_rs.Rt.Ring.{Ring, Chain-same, has-last}
use generator_rs.Gen.Types.{Kont, zeroed, World}
use generator_rs.Coroutine.Abstract.{Status, Port, Stage, View, gens}
use generator_rs.Coroutine.Refines.{AtRest, Represents}
use generator_rs.Coroutine.Frames.{IsFramed, AtRest-framed, Stacked-framed, lower-out}

module _ {S : Type 0} where
  -- From `w` to `w'` only what belongs to `g` has changed.
  pub record IsLocal (w : World S) (g : Ptr) (w' : World S) : Type 0 where
    pub root : w'.mem.root ≡ w.mem.root
    pub usage : w'.usage ≡ w.usage
    pub same :
        (a : Ptr)
        → (a == g) ≡ false
        → (w'.mem.contexts a ≡ w.mem.contexts a)
          × (w'.gens a ≡ w.gens a)
          × (w'.mem.paras a ≡ w.mem.paras a)
          × (w'.mem.rets a ≡ w.mem.rets a)

  pub IsLocal-IsFramed :
      (w w' : World S) (g : Ptr) → IsLocal w g w' → IsFramed w g g zeroed (g ∷ []) w'
  IsLocal-IsFramed w w' g local = record {
    root = local.root;
    bodies = λ a n. let e = (local.same a n).0 in ground arith;
    others = λ a n o. (local.same a n).0;
    cells = λ a n. let (_, gen, para, ret) = local.same a n in (gen, para, ret);
  }

  pub Ring-apart :
      (h h' : Ptr → Option (Context (Kont S))) (r : Ptr) (xs : List Ptr)
      → ((a : Ptr) → has a (xs ++ r ∷ []) ≡ true → h' a ≡ h a)
      → Ring h r xs
      → Ring h' r xs
  Ring-apart h h' r xs same ring =
      let here = same r (has-last xs r) in
      record {
        base = (ring.base.0, ground (arith, here, ring.base.1), ground (arith, here, ring.base.2));
        chain =
            Chain-same h h' _ xs r (λ a i. same a (ground (arith, has-append a xs (r ∷ []))))
              ring.chain;
        distinct = ring.distinct;
      }

  -- `g` has another status then, or none.
  pub rest_lem :
      (a : View S) (w w' : World S) (g : Ptr) (o : Option (Status S)) (p : Port) (stage : Stage S)
      → Represents a w
      → IsLocal w g w'
      → has g (gens a.active ++ w.mem.root ∷ []) ≡ false
      → ((st : Status S) → o ≡ some st → AtRest w' st p g)
      → Represents
          (record a { stage = stage; rest = update a.rest g o; ports = update a.ports g p })
          w'
  rest_lem a w w' g o p stage v local apart mine =
      let framed = IsLocal-IsFramed w w' g local in
      let mine_at : (b : Ptr) (st : Status S)
          → b ≡ g
          → o ≡ some st
          → AtRest w' st (update a.ports g p b) b =
        λ b st e z. rw (e, ==_refl g) (mine st z) in
      record {
        home = local.root ∙ v.home;
        usage = local.usage ∙ v.usage;
        ring = rw local.root (
            Ring-apart w.mem.contexts w'.mem.contexts w.mem.root (gens a.active)
              (λ b i. (local.same b (ne_of_has b g (gens a.active ++ w.mem.root ∷ []) i apart)).0)
              v.ring);
        stacked =
            Stacked-framed w w' g g zeroed (g ∷ []) framed a.ports (update a.ports g p) a.active
              (λ b n. ground arith) apart (lower-out g a.active w.mem.root apart) v.stacked;
        off = λ b st' z. elim (Bool-cases (b == g)) [
          | inl y ↦
              let o_same : o ≡ some st' = ground arith in
              let same : b ≡ g = eq_of_== b g y in
              (rw (same, local.root) apart, mine_at b st' same o_same)
          | inr n ↦
              let z' : a.rest b ≡ some st' = ground arith in
              let (ob, rb) = v.off b st' z' in
              let kept : update a.ports g p b ≡ a.ports b = ground arith in
              (
                rw local.root ob,
                rw kept (
                    AtRest-framed w w' g g zeroed (g ∷ []) framed st' (a.ports b) b n (ground arith)
                      rb),
              )
        ];
      }

  -- The same, with its cells as they were.
  pub rest-same_port :
      (a : View S) (w w' : World S) (g : Ptr) (o : Option (Status S)) (stage : Stage S)
      → Represents a w
      → IsLocal w g w'
      → has g (gens a.active ++ w.mem.root ∷ []) ≡ false
      → ((st : Status S) → o ≡ some st → AtRest w' st (a.ports g) g)
      → Represents (record a { stage = stage; rest = update a.rest g o }) w'
  rest-same_port a w w' g o stage v local apart mine =
      subst (λ q. Represents (record a { stage = stage; rest = update a.rest g o; ports = q }) w')
        (update_self a.ports g) (rest_lem a w w' g o (a.ports g) stage v local apart mine)
