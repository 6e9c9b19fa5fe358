-- ===== src/Gen/Rounds.antt =====
-- The way out of a generator, and a round that ends with a yield.
use generator_rs.Base.{
  ℕ, ◌≡◌, refl, ap, ◌∙◌, Option, none, some, List, [], ◌∷◌, ◌++◌, arith, update, sub_word,
}
use generator_rs.Panic.{ok}
use generator_rs.Rt.Context.{Ptr, Context, Slot}
use generator_rs.Rt.Env.{pop_context}
use generator_rs.Rt.Ring.{first, Ring, ne-first}
use generator_rs.Gen.Types.{
  Reply, value, Op, call, Client, AfterYield, Channel, Frame, in_raw_yield, Base, body, Kont,
  waiting, World, on_mem,
}
use generator_rs.Gen.Yield.{raw_yield_now}
use generator_rs.Gen.Machine.{at, arriving, running, continue, perform, arrive, step, run, swap}
use generator_rs.Gen.Views.{with_contexts, env-ok, Ring-update}
use generator_rs.Gen.Handover.{IsOff, IsSwitched, leave_lem}
use generator_rs.Gen.Leave.{
  Yields, Writes, Awaits, with_ret, exec-Yields, yield_then_lem, come_back-Awaits,
}

-- The generator `g`, with context `c`, is the newest that runs, and the context below has saved `k`.
pub record IsRunning {S : Type 0} (w : World S) (g : Ptr) (xs : List Ptr) (c : Context (Kont S))
    (s : Slot) (k : Kont S) : Type 0 where
  pub ring : Ring w.mem.contexts w.mem.root (g ∷ xs)
  pub here : w.mem.contexts g ≡ some c
  pub ret : w.mem.rets g ≡ some s
  pub below :
      (p : Context (Kont S)) × (w.mem.contexts (first xs w.mem.root) ≡ some p) × (p.regs ≡ k)

module _ {S : Type 0} where
  pub rerun :
      (w : World S) (g : Ptr) (xs : List Ptr) (c d : Context (Kont S)) (s : Slot) (k : Kont S)
      → d.parent ≡ c.parent
      → d.child ≡ c.child
      → IsRunning w g xs c s k
      → IsRunning (with_contexts w (update w.mem.contexts g (some d))) g xs d s k
  rerun w g xs c d s k ep ec v =
      let o = ne-first g xs w.mem.root v.ring.distinct.0 in
      record {
        ring = Ring-update w.mem.contexts w.mem.root (g ∷ xs) g c d v.here ep ec v.ring;
        here = ground arith;
        ret = v.ret;
        below = (v.below.0, ground (arith, v.below.1), v.below.2);
      }

  pub with_ret-IsRunning :
      (w : World S) (g : Ptr) (xs : List Ptr) (c : Context (Kont S)) (s s' : Slot) (k : Kont S)
      → IsRunning w g xs c s k
      → IsRunning (with_ret w g s') g xs c s' k
  with_ret-IsRunning w g xs c s s' k v = record {
    ring = v.ring;
    here = v.here;
    ret = ground arith;
    below = v.below;
  }

  -- It leaves for the context below.
  pub off_lem :
      (w : World S) (g : Ptr) (xs : List Ptr) (c : Context (Kont S)) (s : Slot) (k out : Kont S)
      → IsRunning w g xs c s k
      → (h0 h : Ptr → Option (Context (Kont S))) × (on_mem (pop_context w.mem.root g) w
          ≡ ok (first xs w.mem.root) (with_contexts w h0))
        × (swap g out (first xs w.mem.root) (with_contexts w h0)
            ≡ at (arriving k) (with_contexts w h))
        × IsOff h w.mem.root g xs out c
        × IsSwitched w.mem.contexts g out (g ∷ (xs ++ w.mem.root ∷ [])) h
  off_lem w g xs c s k out v =
      let (h0, h, popped, swapped, off, switched) =
        leave_lem w g xs c v.below.0 out v.ring v.here v.below.1 in
      (
        h0,
        h,
        popped,
        swapped ∙ ap (λ q. at (arriving q) (with_contexts w h)) v.below.2,
        off,
        switched,
      )

module _ (cl : Client) (w : World cl.Local) (g : Ptr) (xs : List Ptr) (c : Context (Kont cl.Local))
    (s : Slot) (l : cl.Local) (r : Reply) where
  -- A yield, up to the code below.
  pub yield_step :
      (k : Kont cl.Local)
      → IsRunning w g xs c s k
      → (ch : Channel) (v : ℕ) (after : AfterYield) (l' : cl.Local) {o : Op cl.Local}
      → cl.next l r ≡ call o l'
      → Yields o g ch v after
      → Writes ch g c s
      → (h : Ptr → Option (Context (Kont cl.Local))) × (step cl (at (running (body g) l r) w)
          ≡ at (arriving k) (with_contexts (with_ret w g (record s { value = some v })) h))
        × IsOff h w.mem.root g xs
            (waiting (in_raw_yield g after) (body g) l')
            (record c { ref = sub_word c.ref 1 })
        × IsSwitched
            (update w.mem.contexts g (some (record c { ref = sub_word c.ref 1 })))
            g
            (waiting (in_raw_yield g after) (body g) l')
            (g ∷ (xs ++ w.mem.root ∷ []))
            h
  unfolding step perform continue raw_yield_now
  yield_step k on ch v after l' calls yields writes =
      let d = record c { ref = sub_word c.ref 1 } in
      let s' = record s { value = some v } in
      let w1 = with_ret w g s' in
      let on' = rerun w1 g xs c d s' k refl refl (with_ret-IsRunning w g xs c s s' k on) in
      let w2 = with_contexts w1 (update w.mem.contexts g (some d)) in
      let (h0, h, popped, swapped, off, switched) =
        off_lem w2 g xs d s' k (waiting (in_raw_yield g after) (body g) l') on' in
      (
        h,
        rw
            (
              calls,
              perform,
              exec-Yields w yields,
              yield_then_lem w g xs c s ch v after on.ring on.here on.ret writes,
              raw_yield_now,
              env-ok w2 on.ring.base.0,
              popped,
            )
            swapped,
        off,
        switched,
      )

module _ (cl : Client) (w : World cl.Local) (g : Ptr) (xs : List Ptr) (c : Context (Kont cl.Local))
    (s : Slot) (frame : Frame cl.Local) (b : Base) (t l : cl.Local) (r : Reply)
    (on : IsRunning w g xs c s (waiting frame b t)) (clean : c.err ≡ none)
    (awaits : Awaits frame g) where
  pub yield_run :
      (ch : Channel) (v : ℕ) (after : AfterYield) (l' : cl.Local) {o : Op cl.Local}
      → cl.next l r ≡ call o l'
      → Yields o g ch v after
      → Writes ch g c s
      → (h : Ptr → Option (Context (Kont cl.Local))) × (run cl 2 (at (running (body g) l r) w)
          ≡ at (running b t (value (some v))) (
              with_ret
                (with_contexts (with_ret w g (record s { value = some v })) h)
                g
                (record s { value = none })))
        × IsOff h w.mem.root g xs
            (waiting (in_raw_yield g after) (body g) l')
            (record c { ref = sub_word c.ref 1 })
        × IsSwitched
            (update w.mem.contexts g (some (record c { ref = sub_word c.ref 1 })))
            g
            (waiting (in_raw_yield g after) (body g) l')
            (g ∷ (xs ++ w.mem.root ∷ []))
            h
  unfolding run step arrive continue
  yield_run ch v after l' calls yields writes =
      let s' = record s { value = some v } in
      let (h, e, off, switched) =
        yield_step cl w g xs c s l r (waiting frame b t) on ch v after l' calls yields writes in
      let (c', ec, _, _, err, _, _, _) = off.like in
      let back =
        come_back-Awaits (with_contexts (with_ret w g s') h) c' s' v on.ring.chain.0.0 ec
          (err ∙ clean) (ground arith) refl awaits in
      (h, rw (e, back), off, switched)

  -- The newest running generator was resumed or sent to, its context has no error, and it yields v
  -- through a typed channel or a scope that writes its own ret at its type: in two steps the call
  -- that resumed it answers with v, the generator is a ring of its own with its place saved and its
  -- count one less, and the contexts below are the ring that runs.
  pub yield_lem :
      (ch : Channel) (v : ℕ) (after : AfterYield) (l' : cl.Local) {o : Op cl.Local}
      → cl.next l r ≡ call o l'
      → Yields o g ch v after
      → Writes ch g c s
      → (w' : World cl.Local) × (run cl 2 (at (running (body g) l r) w)
          ≡ at (running b t (value (some v))) w')
        × IsOff w'.mem.contexts w.mem.root g xs
            (waiting (in_raw_yield g after) (body g) l')
            (record c { ref = sub_word c.ref 1 })
        × (w'.gens ≡ w.gens)
        × (w'.hook ≡ w.hook)
  yield_lem ch v after l' calls yields writes =
      let (h, e, off, _) = yield_run ch v after l' calls yields writes in (_, e, off, refl, refl)
