-- ===== src/Rt/Push.antt =====
-- `ContextStack::push_context` of src/rt.rs: from two rings to one.
use generator_rs.Base.{
  ◌≡◌, false, Option, List, [], ◌∷◌, ◌++◌, arith, ◌==◌, if◌then◌else◌, has, has-append, IsDistinct,
  IsDistinct-append_right, Apart-of_IsDistinct, not-has-left, ne_of_has, ◌∙◌,
}
use mathlib.Core.List.{append_assoc}
use generator_rs.Panic.{ok}
use generator_rs.Rt.Context.{Ptr, null, Context, Memory}
use generator_rs.Rt.Env.{push_context}
use generator_rs.Rt.Ring.{
  first, last, first-append, last-append, Linked, Chain, Ring, Chain-same, Chain-append, ne-first,
  ne-base, with_parent, with_child,
}
use generator_rs.Rt.Links.{
  relink, load-ok, set_parent-ok, set_child-ok, parent-with_child, parent-with_parent,
}

module _ {R : Type 0} where
  -- The contexts after a push onto the ring at `root`, whose newest context is `top`, of a ring at
  -- `ctx` whose newest is `new_top`.
  abbrev pub pushed :
      (Ptr → Option (Context R)) → (root ctx top new_top : Ptr) → Ptr → Option (Context R)
  pushed h root ctx top new_top =
      with_parent (with_parent (with_child h top ctx) ctx top) root new_top

  -- Nothing runs above the newest context.
  pub first-Linked :
      (h : Ptr → Option (Context R)) (r : Ptr) (xs : List Ptr)
      → Ring h r xs
      → (p : Ptr) × Linked h (first xs r) p null
  first-Linked h r [] ring = (_, ring.base)
  first-Linked h r (x ∷ xs) ring = (_, ring.chain.0)

  pub push_context-pushed :
      (m : Memory R) (root ctx : Ptr) (xs ys : List Ptr)
      → Ring m.contexts root xs
      → Ring m.contexts ctx ys
      → push_context root ctx m
        ≡ ok tt (relink m (pushed m.contexts root ctx (first xs root) (first ys ctx)))
  unfolding push_context
  push_context-pushed m root ctx xs ys rx ry =
      let (r, lr, _, pr) = load-ok root m rx.base.0 rx.base.1 in
      let (c, lc, _, pc) = load-ok ctx m ry.base.0 ry.base.1 in
      let (p, t) = first-Linked m.contexts root xs rx in
      let h = with_child m.contexts (first xs root) ctx in
      let ec = parent-with_child m.contexts (first xs root) ctx ctx ∙ ry.base.1 in
      let er = parent-with_child m.contexts (first xs root) ctx root ∙ rx.base.1 in
      let er' = parent-with_parent h ctx (first xs root) root er in
      rw
        (
          lr,
          push_context,
          lc,
          push_context,
          pr,
          pc,
          set_child-ok (first xs root) ctx m t.0 t.1,
          push_context,
          set_parent-ok ctx (first xs root) (relink m h) ry.base.0 ec,
          push_context,
        )
        (set_parent-ok root (first ys ctx) (relink m (with_parent h ctx (first xs root))) rx.base.0
          er')

-- What a push leaves of one context.
module _ {R : Type 0} (h : Ptr → Option (Context R)) (root ctx top new_top a : Ptr) where
  Linked-pushed :
      {p c : Ptr}
      → Linked h a p c
      → Linked
          (pushed h root ctx top new_top)
          a
          (if a == root then new_top else if a == ctx then top else p)
          (if a == top then ctx else c)
  Linked-pushed l = (l.0, ground arith, ground arith)

  pub pushed-same :
      (a == root) ≡ false
      → (a == ctx) ≡ false
      → (a == top) ≡ false
      → pushed h root ctx top new_top a ≡ h a
  pushed-same r c t = rw (r, c, t)

-- Two rings that share no context.
abbrev pub AreApart : (root ctx : Ptr) (xs ys : List Ptr) → Type 0
AreApart root ctx xs ys = IsDistinct (ys ++ ctx ∷ (xs ++ root ∷ []))

module _ {R : Type 0} (h : Ptr → Option (Context R)) (root ctx : Ptr) where
  pushed-low :
      (new_top : Ptr) (xs : List Ptr)
      → IsDistinct (ctx ∷ (xs ++ root ∷ []))
      → Chain h null xs root
      → Chain (pushed h root ctx (first xs root) new_top) ctx xs root
  pushed-low new_top [] d c = tt
  pushed-low new_top (x ∷ xs) d c =
      let l = Linked-pushed h root ctx x new_top x c.0 in
      let out = not-has-left xs [] root d.1.1 in
      let facts = has-append x xs (root ∷ []) in
      let out' = has-append ctx xs (root ∷ []) in
      (
        ground (arith, facts),
        Chain-same h _ x xs root
            (λ a i.
              pushed-same h root ctx x new_top a (ne_of_has a root xs i out)
                (ne_of_has a ctx xs i (ground arith)) (ne_of_has a x xs i (ground arith)))
            c.1,
      )

  pushed-mid :
      (top new_top : Ptr) {p c : Ptr}
      → (ctx == root) ≡ false
      → (ctx == top) ≡ false
      → Linked h ctx p c
      → Linked (pushed h root ctx top new_top) ctx top c
  pushed-mid top new_top r t l = (l.0, ground arith, ground arith)

  -- Both links of the root: its child is `ctx` if the ring was empty.
  pushed-base :
      (new_top : Ptr) (xs : List Ptr)
      → IsDistinct (xs ++ root ∷ [])
      → Linked h root (first xs root) (last null xs)
      → Linked (pushed h root ctx (first xs root) new_top) root new_top (last ctx xs)
  pushed-base new_top [] d l = (l.0, ground arith, ground arith)
  pushed-base new_top (x ∷ xs) d l =
      let out = not-has-left (x ∷ xs) [] root d in (l.0, ground arith, ground arith)

  pub push_context-Ring :
      (xs ys : List Ptr)
      → Ring h root xs
      → Ring h ctx ys
      → AreApart root ctx xs ys
      → Ring (pushed h root ctx (first xs root) (first ys ctx)) root (ys ++ ctx ∷ xs)
  push_context-Ring xs ys rx ry d =
      let d' : IsDistinct (ctx ∷ (xs ++ root ∷ [])) = IsDistinct-append_right ys _ d in
      let mid : Linked g ctx (first xs root) (last null ys) =
        pushed-mid (first xs root) (first ys ctx) (ne-base ctx xs root d'.0)
          (ne-first ctx xs root d'.0) ry.base in
      let apart = Apart-of_IsDistinct ys (ctx ∷ (xs ++ root ∷ [])) d in
      record {
        base =
            rw (first-append ys xs ctx root, last-append null ys xs ctx)
              (pushed-base (first ys ctx) xs rx.distinct rx.base);
        chain =
            Chain-append g null ys xs ctx root
              (Chain-same h g null ys ctx (λ a i. same a (apart a i)) ry.chain) mid
              (pushed-low (first ys ctx) xs d' rx.chain);
        distinct = rw (append_assoc ys (ctx ∷ xs) (root ∷ [])) d;
      }
    where
      g : Ptr → Option (Context R)
      g = pushed h root ctx (first xs root) (first ys ctx)

      same : (a : Ptr) → has a (ctx ∷ (xs ++ root ∷ [])) ≡ false → g a ≡ h a
      same a o =
          let o' : has a (xs ++ root ∷ []) ≡ false = ground arith in
          pushed-same h root ctx (first xs root) (first ys ctx) a (ne-base a xs root o')
            (ground arith) (ne-first a xs root o')
