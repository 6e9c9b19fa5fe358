-- ===== src/Coroutine/Ending.antt =====
-- The three ends of a closure do what the abstract view says.
use generator_rs.Base.{
  ℕ, ◌≡◌, refl, ap, ◌∙◌, true, false, none, some, List, ◌∷◌, arith, if◌then◌else◌, update,
  Bool-cases, inl, inr,
}
use generator_rs.Panic.{ok, Payload}
use generator_rs.Gen.Types.{Reply, unwind, ret, raise, Client, body, finished, World}
use generator_rs.Gen.Machine.{at, running, perform, step, run}
use generator_rs.Gen.Views.{with_contexts}
use generator_rs.Gen.Ends.{is_error, settle-ret}
use generator_rs.Gen.Panics.{raise_lem, IsOff-clear}
use generator_rs.Coroutine.Abstract.{
  over, Activation, View, base, gens, left, returns, refused, leftover, stopped,
}
use generator_rs.Coroutine.Refines.{Represents}
use generator_rs.Coroutine.Entering.{Reaches}
use generator_rs.Coroutine.Arriving.{arrive-panics, settle-quiet}
use generator_rs.Coroutine.Leave.{some-AtRest, left-AtRest, leave_lem}
use generator_rs.Coroutine.Leaving.{on}
use generator_rs.Coroutine.Stopping.{running-count, with_ret-same, leftover-none, stop-Reaches}

module _ (cl : Client) (a : View cl.Local) (w : World cl.Local) (x : Activation cl.Local)
    (rest : List (Activation cl.Local)) (l : cl.Local) (r : Reply)
    (v : Represents (record a { active = x ∷ rest }) w) where
  pub return-Reaches :
      (n : ℕ)
      → cl.next l r ≡ ret n
      → Reaches cl
          (at (running (body x.gen) l r) w)
          (stopped a x rest x.way (leftover x.way (some n)) (returns x.way n))
  unfolding perform
  return-Reaches n does =
      let q = v.stacked.0 in
      stop-Reaches cl a w x rest l r v (ret n) (record (q.s) { value = some n }) does refl
        (settle-ret w x.gen q.s n q.owns.ret) refl

  -- `Cancel` or `Done` leaves the closure.
  quit-Reaches :
      (e : Payload)
      → cl.next l r ≡ raise e
      → is_error e ≡ false
      → Reaches cl (at (running (body x.gen) l r) w) (stopped a x rest x.way none (refused x.way))
  unfolding perform
  quit-Reaches e does quiet =
      let q = v.stacked.0 in
      let same = with_ret-same w x.gen q.s q.owns.ret q.empty in
      let nothing_left : leftover x.way none ≡ none = leftover-none x.way in
      rw (← nothing_left) (
        stop-Reaches cl a w x rest l r v (raise e) (record (q.s) { value = none }) does refl
          (settle-quiet w (base rest) x.caller x.gen q.c q.owns.ne q.owns.here e quiet
            ∙ ap (ok tt) same)
          refl)

  panic-Reaches :
      (e : Payload)
      → cl.next l r ≡ raise e
      → is_error e ≡ true
      → Reaches cl (at (running (body x.gen) l r) w) (left a x rest (some (over none)) (unwind e))
  unfolding run step
  panic-Reaches e does bad =
      let g = x.gen in
      let q = v.stacked.0 in
      let below = v.stacked.1 in
      let c = q.c in
      let (h, f, off, switched) =
        raise_lem cl w g (gens rest) c q.s below.frame (base rest) x.caller l r e
          (on cl a w x rest l r v) does bad in
      let (c', ec, _, _, err, lo, _, _) = off.like in
      let w' = with_contexts w (update h g (some (record c' { err = none }))) in
      let clear =
        IsOff-clear h w.mem.root g (gens rest) (record c { err = some e }) (record c { err = none })
          off refl refl in
      let back =
        arrive-panics (with_contexts w h) (base rest) x.caller g c' q.owns.ne ec e below.waits err
          (lo ∙ q.owns.plain) in
      record {
        steps = 2;
        some_steps = omega arith;
        few = omega arith;
        world = w';
        reached = rw (f, step) back;
        represents =
            leave_lem a w w' x rest (some (over none)) (unwind e) finished _ h v clear.rest switched
              (λ b n. ground arith) (λ b n. ground arith) refl refl (λ b n. (refl, refl, refl))
              (some-AtRest w' (a.ports g) g (over none) (
                left-AtRest w w' x (a.ports g) (gens rest) (over none) finished
                  (record c { err = none }) q.i q.s q clear (refl, refl, refl, refl) q.owns.gen refl
                  q.owns.ret refl
                  (λ d regs ref. (running-count x.way d.ref (ref ∙ q.ref), q.started, q.empty))));
      }

  pub raise-Reaches :
      (e : Payload)
      → cl.next l r ≡ raise e
      → Reaches cl (at (running (body x.gen) l r) w) (
          if is_error e
          then left a x rest (some (over none)) (unwind e)
          else stopped a x rest x.way none (refused x.way))
  raise-Reaches e does = elim (Bool-cases (is_error e)) [
    | inl bad ↦ rw bad (panic-Reaches e does bad)
    | inr quiet ↦ rw quiet (quit-Reaches e does quiet)
  ]
