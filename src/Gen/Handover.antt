-- ===== src/Gen/Handover.antt =====
-- A switch of src/reg_context.rs between a generator and what runs below it: the contexts are
-- relinked, then the registers are exchanged.
use generator_rs.Base.{
  ◌≡◌, ◌≢◌, refl, ap, ◌∙◌, true, false, Option, none, some, List, [], ◌∷◌, ◌++◌, arith, ◌==◌,
  if◌then◌else◌, update, has, ne_of_has,
}
use generator_rs.Panic.{ok}
use generator_rs.Rt.Context.{Ptr, null, Context, load, store}
use generator_rs.Rt.Env.{pop_context}
use generator_rs.Rt.Ring.{first, Ring, ne-first, has-first}
use generator_rs.Rt.Push.{first-Linked}
use generator_rs.Rt.Splice.{body_at, OnlyLinks, pop_context_lem}
use generator_rs.Gen.Types.{Kont, World, on_mem}
use generator_rs.Gen.Impl.{resume_gen}
use generator_rs.Gen.Machine.{swap, at, arriving}
use generator_rs.Gen.Views.{Ring-update, with_contexts, on_mem-ok, resume_gen_lem}

module _ {R : Type 0} where
  -- A context like another one but for its links.
  abbrev pub Like : Option (Context R) → Context R → Type 0
  Like o d =
      (c : Context R) × (o ≡ some c)
      × (c.regs ≡ d.regs)
      × (c.ref ≡ d.ref)
      × (c.err ≡ d.err)
      × (c.local_data ≡ d.local_data)
      × (c.para ≡ d.para)
      × (c.ret ≡ d.ret)

  pub found : (o : Option (Context R)) (d : Context R) → body_at o ≡ body_at (some d) → Like o d
  found none d e = cc
  found (some c) d e = (c, refl, cc, cc, cc, cc, cc, cc)

-- What a switch out of `out` has changed: the registers `k` are saved there, and else no more than
-- links, of the contexts of a list.
module _ {R : Type 0} where
  abbrev pub saved : (Ptr → Option (Context R)) → (out : Ptr) → R → Ptr → Option (Context R)
  saved h out k a =
      if a == out then elim (h a) [ none ↦ none | some c ↦ some (record c { regs = k }) ] else h a

  pub record IsSwitched (h : Ptr → Option (Context R)) (out : Ptr) (k : R) (touched : List Ptr)
      (h' : Ptr → Option (Context R)) : Type 0 where
    pub bodies : (a : Ptr) → body_at (h' a) ≡ body_at (saved h out k a)
    pub others : (a : Ptr) → has a touched ≡ false → h' a ≡ h a

  switched :
      (h h0 : Ptr → Option (Context R)) (out : Ptr) (k : R) (o : Context R) (touched : List Ptr)
      → OnlyLinks touched h h0
      → h0 out ≡ some o
      → has out touched ≡ true
      → IsSwitched h out k touched (update h0 out (some (record o { regs = k })))
  switched h h0 out k o touched only e i = record {
    bodies = λ a. let b = (only a).0 in ground arith;
    others = λ a z. let b = (only a).1 z in let n = ne_of_has out a touched i z in ground arith;
  }

-- The generator `g` has left the contexts `xs` to themselves: it is a ring of its own, has saved `k`,
-- and is else like `c`.
module _ {S : Type 0} where
  pub record IsOff (h : Ptr → Option (Context (Kont S))) (root g : Ptr) (xs : List Ptr) (k : Kont S)
      (c : Context (Kont S)) : Type 0 where
    pub rest : Ring h root xs
    pub own : Ring h g []
    pub like : Like (h g) (record c { regs = k })

  -- It is the newest of the contexts that run, like `c`, above one that has saved `k`.
  pub record IsOn (h : Ptr → Option (Context (Kont S))) (root g : Ptr) (xs : List Ptr) (k : Kont S)
      (c : Context (Kont S)) : Type 0 where
    pub ring : Ring h root (g ∷ xs)
    pub like : Like (h g) c
    pub below : (d : Context (Kont S)) × (h (first xs root) ≡ some d) × (d.regs ≡ k)

  pub swap_lem :
      (w : World S) (out into : Ptr) (k : Kont S) (o i : Context (Kont S))
      → out ≢ null
      → into ≢ null
      → into ≢ out
      → w.mem.contexts out ≡ some o
      → w.mem.contexts into ≡ some i
      → swap out k into w
        ≡ at
            (arriving i.regs)
            (with_contexts w (update w.mem.contexts out (some (record o { regs = k }))))
  unfolding swap load store
  swap_lem w out into k o i out_ok into_ok ne eo ei =
      let ei' : update w.mem.contexts out (some (record o { regs = k })) into ≡ some i =
        ground arith in
      ground arith

module _ {S : Type 0} (w : World S) (g : Ptr) (xs : List Ptr) (c p : Context (Kont S)) where
  -- The generator's own way out.
  pub leave_lem :
      (k : Kont S)
      → Ring w.mem.contexts w.mem.root (g ∷ xs)
      → w.mem.contexts g ≡ some c
      → w.mem.contexts (first xs w.mem.root) ≡ some p
      → (h0 h : Ptr → Option (Context (Kont S))) × (on_mem (pop_context w.mem.root g) w
          ≡ ok (first xs w.mem.root) (with_contexts w h0))
        × (swap g k (first xs w.mem.root) (with_contexts w h0)
            ≡ at (arriving p.regs) (with_contexts w h))
        × IsOff h w.mem.root g xs k c
        × IsSwitched w.mem.contexts g k (g ∷ (xs ++ w.mem.root ∷ [])) h
  leave_lem k ring eg ep =
      let (h0, pop, rest, own, only) = pop_context_lem w.mem w.mem.root g xs [] ring in
      let (c', ec, _, ref, err, local, pa, re) = found (h0 g) c ((only g).0 ∙ ap body_at eg) in
      let (p', ep', regs, _, _, _, _, _) =
        found (h0 (first xs w.mem.root)) p ((only (first xs w.mem.root)).0 ∙ ap body_at ep) in
      let (_, t) = first-Linked h0 w.mem.root xs rest in
      let ne : first xs w.mem.root ≢ g =
        let o = ne-first g xs w.mem.root ring.distinct.0 in ground arith in
      let s =
        swap_lem (with_contexts w h0) g (first xs w.mem.root) k c' p' own.base.0 t.0 ne ec ep' in
      let d = record c' { regs = k } in
      (
        h0,
        update h0 g (some d),
        on_mem-ok (pop_context w.mem.root g) w pop,
        rw regs at s,
        record {
          rest = Ring-update h0 w.mem.root xs g c' d ec refl refl rest;
          own = Ring-update h0 g [] g c' d ec refl refl own;
          like = (d, ground arith, refl, ref, err, local, pa, re);
        },
        switched w.mem.contexts h0 g k c' (g ∷ (xs ++ w.mem.root ∷ [])) only ec (ground arith),
      )

  -- The way in.
  pub arrive_lem :
      (k : Kont S)
      → Ring w.mem.contexts w.mem.root xs
      → Ring w.mem.contexts g []
      → has g (xs ++ w.mem.root ∷ []) ≡ false
      → w.mem.contexts g ≡ some c
      → w.mem.contexts (first xs w.mem.root) ≡ some p
      → (h0 h : Ptr → Option (Context (Kont S))) × (resume_gen g w
          ≡ ok (first xs w.mem.root, g) (with_contexts w h0))
        × (swap (first xs w.mem.root) k g (with_contexts w h0)
            ≡ at (arriving c.regs) (with_contexts w h))
        × IsOn h w.mem.root g xs k c
        × IsSwitched w.mem.contexts (first xs w.mem.root) k (g ∷ (xs ++ w.mem.root ∷ [])) h
  arrive_lem k rx ry apart eg ep =
      let (h0, e, ring, only) = resume_gen_lem w g xs [] c rx ry (apart, rx.distinct) eg in
      let top = first xs w.mem.root in
      let (_, t) = first-Linked w.mem.contexts w.mem.root xs rx in
      let o = ne-first g xs w.mem.root apart in
      let (c', ec, regs, ref, err, local, pa, re) = found (h0 g) c ((only g).0 ∙ ap body_at eg) in
      let (p', ep', _, _, _, _, _, _) = found (h0 top) p ((only top).0 ∙ ap body_at ep) in
      let ne : g ≢ top = ground arith in
      let s = swap_lem (with_contexts w h0) top g k p' c' t.0 ry.base.0 ne ep' ec in
      let d = record p' { regs = k } in
      (
        h0,
        update h0 top (some d),
        e,
        rw regs at s,
        record {
          ring = Ring-update h0 w.mem.root (g ∷ xs) top p' d ep' refl refl ring;
          like = (c', ground arith, regs, ref, err, local, pa, re);
          below = (d, ground arith, refl);
        },
        switched w.mem.contexts h0 top k p' (g ∷ (xs ++ w.mem.root ∷ [])) only ep'
            (ground (arith, has-first xs w.mem.root)),
      )
