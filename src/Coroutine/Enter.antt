-- ===== src/Coroutine/Enter.antt =====
-- The way into a generator keeps the abstract view.
use generator_rs.Base.{
  ℕ, ◌≡◌, refl, ◌∙◌, false, Option, none, some, List, [], ◌∷◌, ◌++◌, arith, ◌==◌, update, has,
  Bool-cases, inl, inr, Option-cases,
}
use generator_rs.Rt.Context.{Ptr, Context, Slot}
use generator_rs.Rt.Ring.{first, Ring}
use generator_rs.Rt.Push.{first-Linked}
use generator_rs.Gen.Types.{Reply, Frame, Kont, waiting, GeneratorImpl, World}
use generator_rs.Gen.Handover.{IsSwitched, IsOn}
use generator_rs.Gen.Sends.{IsReady}
use generator_rs.Coroutine.Abstract.{Status, Way, Port, Activation, View, base, gens, entered}
use generator_rs.Coroutine.Refines.{Waits, count, AtRest, Represents}
use generator_rs.Coroutine.Frames.{IsFramed-by_switch, AtRest-framed, Stacked-framed, lower}

-- The cell that a generator takes from.
abbrev pub cell : Port → Slot
cell p = record { ty = p.takes; value = p.inbox }

module _ {S : Type 0} where
  pub newest :
      (h : Ptr → Option (Context (Kont S))) (r : Ptr) (xs : List Ptr)
      → Ring h r xs
      → (p : Context (Kont S)) × (h (first xs r) ≡ some p)
  newest h r xs ring =
      let (_, l) = first-Linked h r xs ring in
      elim (Option-cases (h (first xs r))) [ inl z ↦ absurd (ground (arith, l)) | inr x ↦ x ]

  pub AtRest-IsReady :
      (a : View S) (w : World S) (g : Ptr) (st : Status S)
      → Represents a w
      → (e : a.rest g ≡ some st) → (r : AtRest w st (a.ports g) g)
      → IsReady w g (gens a.active) r.c r.i (cell (a.ports g))
  AtRest-IsReady a w g st v e r = record {
    running = v.ring;
    own = record {
      base = (r.owns.ne, ground (arith, r.owns.here, r.own), ground (arith, r.owns.here, r.alone));
      chain = tt;
      distinct = (refl, tt);
    };
    apart = (v.off g st e).0;
    here = r.owns.here;
    gen = r.owns.gen;
    para = r.owns.para;
    below = newest w.mem.contexts w.mem.root (gens a.active) v.ring;
  }

  lower-newest :
      (h : Ptr → Option (Context (Kont S))) (r : Ptr) (st : List (Activation S))
      → Ring h r (gens st)
      → has (first (gens st) r) (lower st r) ≡ false
  lower-newest h r [] ring = refl
  lower-newest h r (x ∷ rest) ring = ring.distinct.0

  pub enter_lem :
      (a : View S) (w w' : World S) (g : Ptr) (st : Status S) (way : Way) (frame : Frame S)
      (s t : S) (answer : Reply) (p : Option ℕ) (i : GeneratorImpl S)
      → Represents a w
      → a.rest g ≡ some st
      → (r : AtRest w st (a.ports g) g) → r.s.value ≡ none
      → Waits way g frame
      → IsOn w'.mem.contexts w.mem.root g
          (gens a.active)
          (waiting frame (base a.active) s)
          (record (r.c) { ref = count way })
      → IsSwitched
          (update w.mem.contexts g (some (record (r.c) { ref = count way })))
          (first (gens a.active) w.mem.root)
          (waiting frame (base a.active) s)
          (g ∷ (gens a.active ++ w.mem.root ∷ []))
          w'.mem.contexts
      → w'.mem.root ≡ w.mem.root
      → w'.usage ≡ w.usage
      → ((b : Ptr)
          → (b == g) ≡ false
          → (w'.gens b ≡ w.gens b)
            × (w'.mem.paras b ≡ w.mem.paras b)
            × (w'.mem.rets b ≡ w.mem.rets b))
      → w'.gens g ≡ some i
      → i.f ≡ none
      → w'.mem.paras g ≡ some (record { ty = (a.ports g).takes; value = p })
      → w'.mem.rets g ≡ w.mem.rets g
      → Represents (entered a g way s t answer p) w'
  enter_lem a w w' g st way frame s t answer p i v e r empty waits on switched root usage cells gen
        started para ret =
      let out = first (gens a.active) w.mem.root in
      let k = waiting frame (base a.active) s in
      let touched = g ∷ (gens a.active ++ w.mem.root ∷ []) in
      let apart = (v.off g st e).0 in
      let framed =
        IsFramed-by_switch w w' g out k touched _ w'.mem.contexts switched (λ b n. ground arith)
          (λ b n. refl) root cells in
      let (c', ec, _, ref, err, local, pa, re) = on.like in
      let (d, ed, kd) = on.below in
      let o = r.owns in
      let port = update a.ports g (record (a.ports g) { inbox = p }) in
      let here_port : port g ≡ record (a.ports g) { inbox = p } = ground arith in
      record {
        home = root ∙ v.home;
        usage = usage ∙ v.usage;
        ring = rw root on.ring;
        stacked = (
          rw here_port (record {
            c = c';
            i = i;
            s = r.s;
            owns = record {
              ne = o.ne;
              here = ec;
              gen = gen;
              para = para;
              ret = ret ∙ o.ret;
              ty = o.ty;
              clean = err ∙ o.clean;
              plain = local ∙ o.plain;
              linked = λ z. (pa ∙ (o.linked z).0, re ∙ (o.linked z).1);
            };
            ref = ref;
            empty = empty;
            started = started;
          }),
          record { frame = frame; waits = waits; ctx = d; here = rw root ed; regs = kd },
          Stacked-framed w w' g out k touched framed a.ports port a.active (λ b n. ground arith)
              apart (lower-newest w.mem.contexts w.mem.root a.active v.ring) v.stacked,
        );
        off = λ b st' z. elim (Bool-cases (b == g)) [
          | inl y ↦ absurd (ground arith)
          | inr n ↦
              let z' : a.rest b ≡ some st' = ground arith in
              let (ob, rb) = v.off b st' z' in
              let same : port b ≡ a.ports b = ground arith in
              let ob' : has b touched ≡ false = ground arith in
              (
                rw root ob',
                rw same (AtRest-framed w w' g out k touched framed st' (a.ports b) b n ob' rb),
              )
        ];
      }
