-- ===== src/Coroutine/Entering.antt =====
-- `resume`, `raw_send` and `send` do what the abstract view says.
use generator_rs.Base.{
  ℕ, ◌≡◌, ◌<◌, ◌≤◌, refl, ap, ◌∙◌, subst, true, false, Option, none, some, arith, ◌==◌, add_word,
  has, inl, inr, Option-cases, eq_of_==,
}
use generator_rs.Panic.{ok}
use generator_rs.Rt.Context.{Ptr, Context, Slot}
use generator_rs.Gen.Types.{
  Reply, Op, call, Client, AfterYield, nothing, then_get, then_take, Frame, in_resume, in_send,
  Base, Kont, World,
}
use generator_rs.Gen.Impl.{is_done, resume, raw_send, send, expect_sent}
use generator_rs.Gen.Machine.{exec, at, running, continue, perform, step, run, Machine}
use generator_rs.Gen.Sends
use generator_rs.Gen.Sends.{Enters, carried, sent, sent_paras, is_done-finished}
use generator_rs.Gen.Resume.{Reads, received, left_over, resume_run, start_run}
use generator_rs.Coroutine.Abstract.{
  Status, fresh, paused, over, Way, resumes, sends, cancels, drops, Port, View, base, gens, entered,
  answered, refused, is_kept, may_read, drained, enter, enter_at,
}
use generator_rs.Coroutine.Refines.{
  Waits, by_resume, by_send, count, Represents, Represents-answered, thread,
}
use generator_rs.Coroutine.Enter.{cell, AtRest-IsReady, enter_lem}

-- The thread reaches, in a step or two, a state that the view describes.
pub record Reaches (cl : Client) (m : Machine cl.Local) (a : View cl.Local) : Type 0 where
  pub steps : ℕ
  pub some_steps : 0 < steps
  pub few : steps ≤ 2
  pub world : World cl.Local
  pub reached : run cl steps m ≡ thread a world
  pub represents : Represents a world

-- The calls that enter a generator.
pub data Asks {S : Type 0} : Op S → Ptr → Way → Option (Option ℕ) → Frame S → Type 0 where
  ask_resume : (g : Ptr) → Asks (Op.resume g) g resumes none (in_resume g)
  ask_raw_send : (g : Ptr) (p : Option ℕ) → Asks (Op.raw_send g p) g resumes (some p) (in_resume g)
  ask_send : (g : Ptr) (v : ℕ) → Asks (Op.send g v) g sends (some (some v)) (in_send g)

pub kept-count : (way : Way) → is_kept way ≡ true → count way ≡ 1
kept-count resumes k = refl
kept-count sends k = refl
kept-count cancels k = cc
kept-count drops k = cc

-- The two cells of a generator that has taken its value.
taken_paras :
    (paras : Ptr → Option Slot) (g : Ptr) (p : Port) (m : Option (Option ℕ)) (after : AfterYield)
    (s : Slot)
    → paras g ≡ some (cell p)
    → s ≡ record { ty = p.takes; value = carried m p.inbox }
    → (left_over after (sent_paras paras g (cell p) m) g s g
        ≡ some (record { ty = p.takes; value = drained after (carried m p.inbox) }))
      × ((b : Ptr)
          → (b == g) ≡ false
          → left_over after (sent_paras paras g (cell p) m) g s b ≡ paras b)
taken_paras paras g p none nothing s e u = (e, λ b n. refl)
taken_paras paras g p (some v) nothing s e u = (ground arith, λ b n. ground arith)
taken_paras paras g p none (then_get a) s e u = (ground arith, λ b n. ground arith)
taken_paras paras g p (some v) (then_get a) s e u = (ground arith, λ b n. ground arith)
taken_paras paras g p none (then_take q) s e u = (ground arith, λ b n. ground arith)
taken_paras paras g p (some v) (then_take q) s e u = (ground arith, λ b n. ground arith)

module _ {S : Type 0} where
  pub may_read-Reads :
      (after : AfterYield) (g : Ptr) (p : Port) (c : Context (Kont S))
      → (p.is_typed ≡ true → (c.para ≡ g) × (c.ret ≡ g))
      → may_read after g p ≡ true
      → Reads after g c (cell p)
  may_read-Reads nothing g p c linked e = tt
  may_read-Reads (then_get a) g p c linked e = ((linked (ground arith)).0, ground arith)
  may_read-Reads (then_take q) g p c linked e = eq_of_== q g e

  -- A generator that is done.
  Asks-Enters :
      {o : Op S} {g : Ptr} {way : Way} {m : Option (Option ℕ)} {frame : Frame S}
      → Asks o g way m frame
      → Enters o g frame m × Waits way g frame × (is_kept way ≡ true)
  Asks-Enters (ask_resume g) = (Sends.by_resume g, by_resume g, refl)
  Asks-Enters (ask_raw_send g p) = (Sends.by_raw_send g p, by_resume g, refl)
  Asks-Enters (ask_send g v) = (Sends.by_send g v, by_send g, refl)

  enter_at-fresh :
      (a : View S) (g : Ptr) (way : Way) (m : Option (Option ℕ)) (s t : S)
      → is_kept way ≡ true
      → enter_at a g way m s (some (fresh t))
        ≡ some (entered a g way s t Reply.unit (carried m (a.ports g).inbox))
  enter_at-fresh a g resumes m s t k = refl
  enter_at-fresh a g sends m s t k = refl
  enter_at-fresh a g cancels m s t k = cc
  enter_at-fresh a g drops m s t k = cc

  enter_at-paused :
      (a : View S) (g : Ptr) (way : Way) (m : Option (Option ℕ)) (s : S) (after : AfterYield)
      (t : S)
      → is_kept way ≡ true
      → enter_at a g way m s (some (paused after t))
        ≡ some (
            entered a g way s t
              (received after (carried m (a.ports g).inbox))
              (drained after (carried m (a.ports g).inbox)))
  enter_at-paused a g resumes m s after t k = refl
  enter_at-paused a g sends m s after t k = refl
  enter_at-paused a g cancels m s after t k = cc
  enter_at-paused a g drops m s after t k = cc

  enter_at-over :
      (a : View S) (g : Ptr) (way : Way) (m : Option (Option ℕ)) (s : S) (n : Option ℕ)
      → is_kept way ≡ true
      → enter_at a g way m s (some (over n)) ≡ some (answered a s (refused way))
  enter_at-over a g resumes m s n k = refl
  enter_at-over a g sends m s n k = refl
  enter_at-over a g cancels m s n k = cc
  enter_at-over a g drops m s n k = cc

  continue-refused :
      (w : World S) (b : Base) (s : S) {o : Op S} {g : Ptr} {way : Way} {m : Option (Option ℕ)}
      {frame : Frame S}
      → Asks o g way m frame
      → is_done g w ≡ ok true w
      → continue b s w (exec o w) ≡ at (running b s (refused way)) w
  unfolding continue exec resume raw_send send expect_sent
  continue-refused w b s (ask_resume _) d = rw (d, resume)
  continue-refused w b s (ask_raw_send _ p) d = rw (d, raw_send)
  continue-refused w b s (ask_send _ v) d = rw (d, raw_send)

module _ (cl : Client) (a : View cl.Local) (w : World cl.Local) (g : Ptr) (way : Way)
    (l s : cl.Local) (r : Reply) {o : Op cl.Local} {frame : Frame cl.Local} {m : Option (Option ℕ)}
    (v : Represents a w) (asks : Asks o g way m frame) (calls : cl.next l r ≡ call o s) where
  pub enter-paused :
      (after : AfterYield) (t : cl.Local)
      → a.rest g ≡ some (paused after t)
      → Reaches cl (at (running (base a.active) l r) w) (
          entered a g way s t
            (received after (carried m (a.ports g).inbox))
            (drained after (carried m (a.ports g).inbox)))
  enter-paused after t e =
      let q = (v.off g (paused after t) e).1 in
      let (regs, zero_ref, empty, started, reads) = q.holds in
      let (how, waits, kept) = Asks-Enters asks in
      let one = kept-count way kept in
      let ready = AtRest-IsReady a w g (paused after t) v e q in
      let (h, f, on, switched) =
        resume_run cl w g (gens a.active) q.c q.i (cell (a.ports g)) (base a.active) l s r ready how
          calls after t regs zero_ref
          (may_read-Reads after g (a.ports g) q.c q.owns.linked reads) in
      let (mine, others) = taken_paras w.mem.paras g (a.ports g) m after _ q.owns.para refl in
      record {
        steps = 2;
        some_steps = omega arith;
        few = omega arith;
        world = _;
        reached = f;
        represents =
            enter_lem a w _ g (paused after t) way frame s t _ _ q.i v e q empty waits (rw one on)
              (rw one switched) refl refl (λ b n. (refl, others b n, refl)) q.owns.gen started mine
              refl;
      }

  pub enter-fresh :
      (t : cl.Local)
      → a.rest g ≡ some (fresh t)
      → Reaches cl
          (at (running (base a.active) l r) w)
          (entered a g way s t Reply.unit (carried m (a.ports g).inbox))
  enter-fresh t e =
      let q = (v.off g (fresh t) e).1 in
      let (regs, zero_ref, empty, has) = q.holds in
      let (f, has_f, code) = has in
      let (how, waits, kept) = Asks-Enters asks in
      let one : count way ≡ add_word q.c.ref 1 = ground (arith, kept-count way kept) in
      let ready = AtRest-IsReady a w g (fresh t) v e q in
      let (h, w', f', mem, gens', _, usage, on, switched) =
        start_run cl w g (gens a.active) q.c q.i (cell (a.ports g)) (base a.active) l s r ready how
          calls f regs has_f in
      let contexts = ap (λ x. x.contexts) mem in
      let (mine, others) = taken_paras w.mem.paras g (a.ports g) m nothing _ q.owns.para refl in
      record {
        steps = 2;
        some_steps = omega arith;
        few = omega arith;
        world = w';
        reached = rw code at f';
        represents =
            enter_lem a w w' g (fresh t) way frame s t _ _ (record (q.i) { f = none }) v e q empty
              waits (rw (contexts, one) on) (rw (contexts, one) switched) (ap (λ x. x.root) mem)
              usage
              (λ b n. (ground arith, ap (λ x. x.paras b) mem ∙ others b n, ap (λ x. x.rets b) mem))
              (ground arith) refl (ap (λ x. x.paras g) mem ∙ mine) (ap (λ x. x.rets g) mem);
      }

  pub enter-over :
      (n : Option ℕ)
      → a.rest g ≡ some (over n)
      → Reaches cl (at (running (base a.active) l r) w) (answered a s (refused way))
  unfolding run step perform
  enter-over n e =
      let q = (v.off g (over n) e).1 in
      let d = is_done-finished w g q.c q.i q.owns.ne q.owns.here q.owns.gen q.holds.1 q.holds.0 in
      record {
        steps = 1;
        some_steps = omega arith;
        few = omega arith;
        world = w;
        reached = rw (calls, perform) (continue-refused w (base a.active) s asks d);
        represents = Represents-answered a w _ v;
      }

  pub enter-Reaches :
      {a' : View cl.Local}
      → enter a g way m s ≡ some a'
      → Reaches cl (at (running (base a.active) l r) w) a'
  enter-Reaches {a'} e = elim (Option-cases (a.rest g)) [
    | inl z ↦ absurd (ground (arith, rw z at e))
    | inr (st, z) ↦ entered_as st z (rw z at e)
  ]
    where
      goal : View cl.Local → Type 0
      goal = Reaches cl (at (running (base a.active) l r) w)

      entered_as :
          (st : Status cl.Local)
          → a.rest g ≡ some st
          → enter_at a g way m s (some st) ≡ some a'
          → goal a'
      entered_as (fresh t) z e =
          let k = (Asks-Enters asks).2 in
          let same : entered a g way s t Reply.unit (carried m (a.ports g).inbox) ≡ a' =
            ground (arith, e, enter_at-fresh a g way m s t k) in
          subst goal same (enter-fresh t z)
      entered_as (paused after t) z e =
          let k = (Asks-Enters asks).2 in
          let p = carried m (a.ports g).inbox in
          let same : entered a g way s t (received after p) (drained after p) ≡ a' =
            ground (arith, e, enter_at-paused a g way m s after t k) in
          subst goal same (enter-paused after t z)
      entered_as (over n) z e =
          let k = (Asks-Enters asks).2 in
          let same : answered a s (refused way) ≡ a' =
            ground (arith, e, enter_at-over a g way m s n k) in
          subst goal same (enter-over n z)
