-- ===== src/Rt/Pop.antt =====
-- `ContextStack::pop_context` of src/rt.rs: from one ring to two.
use mathlib.Core.List.{append_assoc}
use generator_rs.Base.{
  ◌≡◌, true, false, Option, List, [], ◌∷◌, ◌++◌, arith, ◌==◌, has, has-append, IsDistinct,
  IsDistinct-append_left, IsDistinct-append_right, Apart-of_IsDistinct, not-has-left, ne_of_has,
  ◌∙◌,
}
use generator_rs.Panic.{ok}
use generator_rs.Rt.Context.{Ptr, null, Context, Memory}
use generator_rs.Rt.Env.{pop_context}
use generator_rs.Rt.Ring.{
  first, last, first-append, last-append, Linked, Chain, Ring, Chain-same, Chain-split, ne-first,
  ne-base, with_parent, with_child,
}
use generator_rs.Rt.Links.{
  relink, load-ok, set_parent-ok, set_child-ok, parent-with_child, parent-with_parent,
}

module _ {R : Type 0} where
  -- The contexts after a pop at `ctx` of the ring at `root`, whose newest context is `top`.
  abbrev pub popped :
      (Ptr → Option (Context R)) → (root ctx parent top : Ptr) → Ptr → Option (Context R)
  popped h root ctx parent top =
      with_parent (with_child (with_parent h ctx top) parent null) root parent

  -- What a pop needs of the ring, from the ring.
  pub record Parts (h : Ptr → Option (Context R)) (root ctx : Ptr) (xs ys : List Ptr) : Type 0 where
    pub base : Linked h root (first ys ctx) (last ctx xs)
    pub mid : Linked h ctx (first xs root) (last null ys)
    pub high : Chain h null ys ctx
    pub low : Chain h ctx xs root
    pub distinct : IsDistinct (ys ++ ctx ∷ (xs ++ root ∷ []))

  pub Ring-Parts :
      (h : Ptr → Option (Context R)) (root ctx : Ptr) (xs ys : List Ptr)
      → Ring h root (ys ++ ctx ∷ xs)
      → Parts h root ctx xs ys
  Ring-Parts h root ctx xs ys r =
      let split = Chain-split h null ys xs ctx root r.chain in
      record {
        base = rw (first-append ys xs ctx root, last-append null ys xs ctx) at r.base;
        mid = split.1;
        high = split.0;
        low = split.2;
        distinct = rw (append_assoc ys (ctx ∷ xs) (root ∷ [])) at r.distinct;
      }

  pub parent-Linked :
      (h : Ptr → Option (Context R)) (root ctx : Ptr) (xs ys : List Ptr)
      → Parts h root ctx xs ys
      → (p : Ptr) × Linked h (first xs root) p ctx
  parent-Linked h root ctx [] ys p = (_, p.base)
  parent-Linked h root ctx (x ∷ xs) ys p = (_, p.low.0)

  pub pop_context-popped :
      (m : Memory R) (root ctx : Ptr) (xs ys : List Ptr)
      → Parts m.contexts root ctx xs ys
      → pop_context root ctx m
        ≡ ok (first xs root) (relink m (popped m.contexts root ctx (first xs root) (first ys ctx)))
  unfolding pop_context
  pop_context-popped m root ctx xs ys parts =
      let (c, lc, _, pc) = load-ok ctx m parts.mid.0 parts.mid.1 in
      let (r, lr, _, pr) = load-ok root m parts.base.0 parts.base.1 in
      let (p, t) = parent-Linked m.contexts root ctx xs ys parts in
      let h = with_parent m.contexts ctx (first ys ctx) in
      let et = parent-with_parent m.contexts ctx (first ys ctx) (first xs root) t.1 in
      let er = parent-with_parent m.contexts ctx (first ys ctx) root parts.base.1 in
      let er' = parent-with_child h (first xs root) null root ∙ er in
      rw (
        lc,
        pop_context,
        lr,
        pop_context,
        pc,
        pr,
        set_parent-ok ctx (first ys ctx) m parts.mid.0 parts.mid.1,
        pop_context,
        set_child-ok (first xs root) null (relink m h) t.0 et,
        pop_context,
        set_parent-ok root (first xs root) (relink m (with_child h (first xs root) null))
            parts.base.0 er',
      )

-- What a pop leaves of one context.
module _ {R : Type 0} (h : Ptr → Option (Context R)) (root ctx parent top : Ptr) where
  pub popped-same :
      (a : Ptr)
      → (a == root) ≡ false
      → (a == ctx) ≡ false
      → (a == parent) ≡ false
      → popped h root ctx parent top a ≡ h a
  popped-same a r c t = rw (r, c, t)

  popped-mid :
      {p c : Ptr}
      → (ctx == root) ≡ false
      → (ctx == parent) ≡ false
      → Linked h ctx p c
      → Linked (popped h root ctx parent top) ctx top c
  popped-mid r t l = (l.0, ground arith, ground arith)

module _ {R : Type 0} (h : Ptr → Option (Context R)) (root ctx top : Ptr) where
  popped-low :
      (xs : List Ptr)
      → IsDistinct (ctx ∷ (xs ++ root ∷ []))
      → Chain h ctx xs root
      → Chain (popped h root ctx (first xs root) top) null xs root
  popped-low [] d c = tt
  popped-low (x ∷ xs) d c =
      let out = not-has-left xs [] root d.1.1 in
      let facts = has-append x xs (root ∷ []) in
      let out' = has-append ctx xs (root ∷ []) in
      (
        (c.0.0, ground (arith, facts), ground (arith, facts)),
        Chain-same h _ x xs root
            (λ a i.
              popped-same h root ctx x top a (ne_of_has a root xs i out)
                (ne_of_has a ctx xs i (ground arith)) (ne_of_has a x xs i (ground arith)))
            c.1,
      )

  popped-base :
      (xs : List Ptr)
      → IsDistinct (ctx ∷ (xs ++ root ∷ []))
      → Linked h root top (last ctx xs)
      → Linked (popped h root ctx (first xs root) top) root (first xs root) (last null xs)
  popped-base [] d l = (l.0, ground arith, ground arith)
  popped-base (x ∷ xs) d l =
      let out = not-has-left (x ∷ xs) [] root d.1 in (l.0, ground arith, ground arith)

  -- The ring at the root is left with what lay below `ctx`.
  pub popped-Ring_root :
      (xs ys : List Ptr)
      → Parts h root ctx xs ys
      → top ≡ first ys ctx
      → Ring (popped h root ctx (first xs root) top) root xs
  popped-Ring_root xs ys p e =
      let d = IsDistinct-append_right ys _ p.distinct in
      record {
        base = popped-base xs d (rw e p.base);
        chain = popped-low xs d p.low;
        distinct = d.1;
      }

  -- What ran above `ctx` stays in a ring at `ctx`.
  pub popped-Ring_ctx :
      (xs ys : List Ptr)
      → Parts h root ctx xs ys
      → top ≡ first ys ctx
      → Ring (popped h root ctx (first xs root) top) ctx ys
  popped-Ring_ctx xs ys p e = record {
    base = rw (← e) (
        popped-mid h root ctx (first xs root) top (ne-base ctx xs root d.0)
          (ne-first ctx xs root d.0) p.mid);
    chain = Chain-same h _ null ys ctx (λ a i. same a (apart a i)) p.high;
    distinct =
        IsDistinct-append_left (ys ++ ctx ∷ []) (xs ++ root ∷ [])
          (rw (append_assoc ys (ctx ∷ []) (xs ++ root ∷ [])) p.distinct);
  }
    where
      d : IsDistinct (ctx ∷ (xs ++ root ∷ []))
      d = IsDistinct-append_right ys _ p.distinct

      apart : (a : Ptr) → has a ys ≡ true → has a (ctx ∷ (xs ++ root ∷ [])) ≡ false
      apart = Apart-of_IsDistinct ys (ctx ∷ (xs ++ root ∷ [])) p.distinct

      same :
          (a : Ptr)
          → has a (ctx ∷ (xs ++ root ∷ [])) ≡ false
          → popped h root ctx (first xs root) top a ≡ h a
      same a o =
          let o' : has a (xs ++ root ∷ []) ≡ false = ground arith in
          popped-same h root ctx (first xs root) top a (ne-base a xs root o') (ground arith)
            (ne-first a xs root o')
