-- ===== src/Gen/Views.antt =====
-- What the theorems on generators read off a context, and the single steps that they are made of.
use generator_rs.Base.{◌≡◌, ◌≢◌, ◌∙◌, Option, some, List, [], ◌∷◌, ◌++◌, arith, update}
use generator_rs.Panic.{M, ok}
use generator_rs.Rt.Context.{Ptr, null, Context, Memory, load, store}
use generator_rs.Rt.Env.{top, current, push_context}
use generator_rs.Rt.Ring.{first, parent_at, child_at, Linked, Chain, Ring}
use generator_rs.Rt.Links
use generator_rs.Rt.Push.{first-Linked, AreApart}
use generator_rs.Rt.Splice.{OnlyLinks, push_context_lem}
use generator_rs.Gen.Types.{Kont, World, on_mem}
use generator_rs.Gen.Impl.{with_context, env, resume_gen}

module _ {R : Type 0} where
  -- A ring depends on the links only.
  pub Ring-same :
      (h g : Ptr → Option (Context R)) (r : Ptr) (xs : List Ptr)
      → ((a : Ptr) → (parent_at (g a) ≡ parent_at (h a)) × (child_at (g a) ≡ child_at (h a)))
      → Ring h r xs
      → Ring g r xs
  Ring-same h g r xs same ring = record {
    base = moved r ring.base;
    chain = moved_chain null xs ring.chain;
    distinct = ring.distinct;
  }
    where
      moved : (x : Ptr) {p c : Ptr} → Linked h x p c → Linked g x p c
      moved x l = (l.0, (same x).0 ∙ l.1, (same x).1 ∙ l.2)

      moved_chain : (above : Ptr) (ys : List Ptr) → Chain h above ys r → Chain g above ys r
      moved_chain above [] c = tt
      moved_chain above (y ∷ ys) c = (moved y c.0, moved_chain y ys c.1)

  -- A context rewritten in all but its links.
  pub Ring-update :
      (h : Ptr → Option (Context R)) (r : Ptr) (xs : List Ptr) (p : Ptr) (c d : Context R)
      → h p ≡ some c
      → d.parent ≡ c.parent
      → d.child ≡ c.child
      → Ring h r xs
      → Ring (update h p (some d)) r xs
  Ring-update h r xs p c d e ep ec ring =
      Ring-same h (update h p (some d)) r xs (λ a. (ground arith, ground arith)) ring

  pub top-first :
      (m : Memory R) (root : Ptr) (xs : List Ptr)
      → Ring m.contexts root xs
      → top root m ≡ ok (first xs root) m
  unfolding top
  top-first m root xs ring =
      let (p, t) = first-Linked m.contexts root xs ring in
      let (r, l, _, e) = Links.load-ok root m ring.base.0 ring.base.1 in
      let (c, l', _, _) = Links.load-ok (first xs root) m t.0 t.1 in rw (l, e, l')

module _ {S : Type 0} where
  abbrev pub with_contexts : World S → (Ptr → Option (Context (Kont S))) → World S
  with_contexts w h = record w { mem = record (w.mem) { contexts = h } }

  pub env-ok : (w : World S) → w.mem.root ≢ null → env w ≡ ok w.mem.root w
  unfolding env current
  env-ok w ne = ground arith

  pub load-ok :
      (w : World S) (p : Ptr) (c : Context (Kont S))
      → p ≢ null
      → w.mem.contexts p ≡ some c
      → on_mem (load p) w ≡ ok c w
  unfolding load
  load-ok w p c ne e = ground arith

  pub with_context-ok :
      (w : World S) (p : Ptr) (c : Context (Kont S)) (f : Context (Kont S) → Context (Kont S))
      → p ≢ null
      → w.mem.contexts p ≡ some c
      → with_context p f w ≡ ok tt (with_contexts w (update w.mem.contexts p (some (f c))))
  unfolding load store
  with_context-ok w p c f ne e = ground arith

  pub on_mem-ok :
      {A : Type 0} (f : M (Memory (Kont S)) A) (w : World S) {a : A} {m : Memory (Kont S)}
      → f w.mem ≡ ok a m
      → on_mem f w ≡ ok a (record w { mem = m })
  on_mem-ok f w e = rw (e, on_mem)

  pub top-ok :
      (w : World S) (xs : List Ptr)
      → Ring w.mem.contexts w.mem.root xs
      → on_mem (top w.mem.root) w ≡ ok (first xs w.mem.root) w
  top-ok w xs ring = on_mem-ok (top w.mem.root) w (top-first w.mem w.mem.root xs ring)

  -- `resume_gen` up to its switch: of the contexts no more than links change, and the generator
  -- stands on top of those that run.
  pub resume_gen_lem :
      (w : World S) (g : Ptr) (xs ys : List Ptr) (c : Context (Kont S))
      → Ring w.mem.contexts w.mem.root xs
      → Ring w.mem.contexts g ys
      → AreApart w.mem.root g xs ys
      → w.mem.contexts g ≡ some c
      → (h : Ptr → Option (Context (Kont S))) × (resume_gen g w
          ≡ ok (first xs w.mem.root, first ys g) (with_contexts w h))
        × Ring h w.mem.root (ys ++ g ∷ xs)
        × OnlyLinks (g ∷ (xs ++ w.mem.root ∷ [])) w.mem.contexts h
  unfolding resume_gen
  resume_gen_lem w g xs ys c rx ry apart e =
      let (h, p, r, only) = push_context_lem w.mem w.mem.root g xs ys rx ry apart in
      let parent : c.parent ≡ first ys g = ground arith in
      (
        h,
        rw (
          env-ok w rx.base.0,
          resume_gen,
          top-ok w xs rx,
          resume_gen,
          load-ok w g c ry.base.0 e,
          resume_gen,
          on_mem-ok (push_context w.mem.root g) w p,
          parent,
        ),
        r,
        only,
      )
