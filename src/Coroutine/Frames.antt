-- ===== src/Coroutine/Frames.antt =====
-- What a switch leaves of the generators that it does not concern.
use generator_rs.Base.{
  ◌≡◌, refl, ◌∙◌, false, Option, none, some, List, [], ◌∷◌, ◌++◌, arith, ◌==◌, has, ne_of_has,
}
use generator_rs.Rt.Context.{Ptr, Context}
use generator_rs.Rt.Ring.{first, has-first}
use generator_rs.Rt.Splice.{body_at}
use generator_rs.Gen.Types.{Kont, World}
use generator_rs.Gen.Handover.{saved, IsSwitched}
use generator_rs.Coroutine.Abstract.{Status, Way, Port, Activation, gens}
use generator_rs.Coroutine.Refines.{AtRest, Runs, Below, Stacked}

module _ {S : Type 0} where
  -- From `w` to `w'`: the generator `g` has changed, registers are saved in `out`, and else no more
  -- than links, of the contexts of a list.
  pub record IsFramed (w : World S) (g out : Ptr) (k : Kont S) (touched : List Ptr) (w' : World S)
      : Type 0 where
    pub root : w'.mem.root ≡ w.mem.root
    pub bodies :
        (a : Ptr)
        → (a == g) ≡ false
        → body_at (w'.mem.contexts a) ≡ body_at (saved w.mem.contexts out k a)
    pub others :
        (a : Ptr) → (a == g) ≡ false → has a touched ≡ false → w'.mem.contexts a ≡ w.mem.contexts a
    pub cells :
        (a : Ptr)
        → (a == g) ≡ false
        → (w'.gens a ≡ w.gens a) × (w'.mem.paras a ≡ w.mem.paras a) × (w'.mem.rets a ≡ w.mem.rets a)

  AtRest-same :
      (w w' : World S) (st : Status S) (p : Port) (g : Ptr)
      → w'.mem.contexts g ≡ w.mem.contexts g
      → (w'.gens g ≡ w.gens g) × (w'.mem.paras g ≡ w.mem.paras g) × (w'.mem.rets g ≡ w.mem.rets g)
      → AtRest w st p g
      → AtRest w' st p g
  AtRest-same w w' st p g ec cells r =
      let o = r.owns in
      record {
        c = r.c;
        i = r.i;
        s = r.s;
        owns = record {
          ne = o.ne;
          here = ec ∙ o.here;
          gen = cells.0 ∙ o.gen;
          para = cells.1 ∙ o.para;
          ret = cells.2 ∙ o.ret;
          ty = o.ty;
          clean = o.clean;
          plain = o.plain;
          linked = o.linked;
        };
        own = r.own;
        alone = r.alone;
        holds = r.holds;
      }

  -- A context under a switch, but for its registers.
  found_saved :
      (h : Ptr → Option (Context (Kont S))) (out a : Ptr) (k : Kont S)
      (o : Option (Context (Kont S))) (c : Context (Kont S))
      → h a ≡ some c
      → body_at o ≡ body_at (saved h out k a)
      → (d : Context (Kont S)) × (o ≡ some d)
        × (d.ref ≡ c.ref)
        × (d.err ≡ c.err)
        × (d.local_data ≡ c.local_data)
        × (d.para ≡ c.para)
        × (d.ret ≡ c.ret)
        × ((a == out) ≡ false → d.regs ≡ c.regs)
  found_saved h out a k none c e b = ground arith
  found_saved h out a k (some d) c e b =
      (d, refl, ground arith, ground arith, ground arith, ground arith, ground arith, ground arith)

  -- A switch between two writes of the context of `g`.
  pub IsFramed-by_switch :
      (w w' : World S) (g out : Ptr) (k : Kont S) (touched : List Ptr)
      (pre post : Ptr → Option (Context (Kont S)))
      → IsSwitched pre out k touched post
      → ((a : Ptr) → (a == g) ≡ false → pre a ≡ w.mem.contexts a)
      → ((a : Ptr) → (a == g) ≡ false → w'.mem.contexts a ≡ post a)
      → w'.mem.root ≡ w.mem.root
      → ((a : Ptr)
          → (a == g) ≡ false
          → (w'.gens a ≡ w.gens a)
            × (w'.mem.paras a ≡ w.mem.paras a)
            × (w'.mem.rets a ≡ w.mem.rets a))
      → IsFramed w g out k touched w'
  IsFramed-by_switch w w' g out k touched pre post s before after root cells = record {
    root = root;
    bodies = λ a n. let b = s.bodies a in let p = before a n in let q = after a n in ground arith;
    others = λ a n o. after a n ∙ s.others a o ∙ before a n;
    cells = cells;
  }

  -- The contexts that code which waits is saved in.
  abbrev pub lower : List (Activation S) → Ptr → List Ptr
  lower [] r = []
  lower (x ∷ rest) r = gens rest ++ r ∷ []

  pub lower-out :
      (a : Ptr) (rest : List (Activation S)) (r : Ptr)
      → has a (gens rest ++ r ∷ []) ≡ false
      → has a (lower rest r) ≡ false
  lower-out a [] r o = refl
  lower-out a (x ∷ rest) r o = ground arith

module _ {S : Type 0} (w w' : World S) (g out : Ptr) (k : Kont S) (touched : List Ptr)
    (framed : IsFramed w g out k touched w') where
  pub AtRest-framed :
      (st : Status S) (p : Port) (a : Ptr)
      → (a == g) ≡ false
      → has a touched ≡ false
      → AtRest w st p a
      → AtRest w' st p a
  AtRest-framed st p a n o r = AtRest-same w w' st p a (framed.others a n o) (framed.cells a n) r

  Runs-framed :
      (way : Way) (p : Port) (a : Ptr) → (a == g) ≡ false → Runs w way p a → Runs w' way p a
  Runs-framed way p a n r =
      let o = r.owns in
      let (d, e, ref, err, local, pa, re, _) =
        found_saved w.mem.contexts out a k (w'.mem.contexts a) r.c o.here (framed.bodies a n) in
      let (gen, para, ret) = framed.cells a n in
      record {
        c = d;
        i = r.i;
        s = r.s;
        owns = record {
          ne = o.ne;
          here = e;
          gen = gen ∙ o.gen;
          para = para ∙ o.para;
          ret = ret ∙ o.ret;
          ty = o.ty;
          clean = err ∙ o.clean;
          plain = local ∙ o.plain;
          linked = λ t. (pa ∙ (o.linked t).0, re ∙ (o.linked t).1);
        };
        ref = ref ∙ r.ref;
        empty = r.empty;
        started = r.started;
      }

  Below-framed :
      (x : Activation S) (rest : List (Activation S))
      → has g (gens rest ++ w.mem.root ∷ []) ≡ false
      → has out (gens rest ++ w.mem.root ∷ []) ≡ false
      → Below w x rest
      → Below w' x rest
  Below-framed x rest og oo b =
      let t = first (gens rest) w.mem.root in
      let i = has-first (gens rest) w.mem.root in
      let ng = ne_of_has t g (gens rest ++ w.mem.root ∷ []) i og in
      let no_out = ne_of_has t out (gens rest ++ w.mem.root ∷ []) i oo in
      let (d, e, _, _, _, _, _, regs) =
        found_saved w.mem.contexts out t k (w'.mem.contexts t) b.ctx b.here (framed.bodies t ng) in
      record {
        frame = b.frame;
        waits = b.waits;
        ctx = d;
        here = rw framed.root e;
        regs = regs no_out ∙ b.regs;
      }

  pub Stacked-framed :
      (ports ports' : Ptr → Port) (st : List (Activation S))
      → ((a : Ptr) → (a == g) ≡ false → ports' a ≡ ports a)
      → has g (gens st ++ w.mem.root ∷ []) ≡ false
      → has out (lower st w.mem.root) ≡ false
      → Stacked w ports st
      → Stacked w' ports' st
  Stacked-framed ports ports' [] same og oo s = tt
  Stacked-framed ports ports' (x ∷ rest) same og oo s =
      let n : (x.gen == g) ≡ false = ground arith in
      let og' : has g (gens rest ++ w.mem.root ∷ []) ≡ false = ground arith in
      (
        rw (same x.gen n) (Runs-framed x.way (ports x.gen) x.gen n s.0),
        Below-framed x rest og' oo s.1,
        Stacked-framed ports ports' rest same og' (lower-out out rest w.mem.root oo) s.2,
      )
