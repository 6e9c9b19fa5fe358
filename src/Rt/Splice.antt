-- ===== src/Rt/Splice.antt =====
-- `push_context` and `pop_context` of src/rt.rs on the thread's stack of contexts, alone and one after
-- the other.
use mathlib.Core.Path.{fun_ext}
use generator_rs.Base.{◌≡◌, refl, ap, false, Option, none, some, List, [], ◌∷◌, ◌++◌, arith, has}
use generator_rs.Panic.{ok, ◌>>◌}
use generator_rs.Rt.Context.{Ptr, null, Context, Memory}
use generator_rs.Rt.Env.{push_context, pop_context}
use generator_rs.Rt.Ring.{first, parent_at, child_at, Ring, ne-first, ne-base}
use generator_rs.Rt.Links.{relink}
use generator_rs.Rt.Push.{
  pushed, pushed-same, first-Linked, push_context-pushed, push_context-Ring, AreApart,
}
use generator_rs.Rt.Pop.{
  popped, popped-same, Ring-Parts, parent-Linked, pop_context-popped, popped-Ring_root,
  popped-Ring_ctx,
}

module _ {R : Type 0} where
  -- All of a context but its two links.
  abbrev pub body_at : Option (Context R) → Option (Context R)
  body_at none = none
  body_at (some c) = some (record c { parent = null; child = null })

  -- Only the links of contexts in `xs` differ.
  abbrev pub OnlyLinks : List Ptr → (h g : Ptr → Option (Context R)) → Type 0
  OnlyLinks xs h g = (a : Ptr) → (body_at (g a) ≡ body_at (h a)) × (has a xs ≡ false → g a ≡ h a)

  body-pushed :
      (h : Ptr → Option (Context R)) (root ctx top new_top a : Ptr)
      → body_at (pushed h root ctx top new_top a) ≡ body_at (h a)
  body-pushed h root ctx top new_top a = ground arith

  body-popped :
      (h : Ptr → Option (Context R)) (root ctx top new_top a : Ptr)
      → body_at (popped h root ctx top new_top a) ≡ body_at (h a)
  body-popped h root ctx top new_top a = ground arith

-- The six writes at one context.
module _ {R : Type 0} (h : Ptr → Option (Context R)) (root ctx top new_top : Ptr) where
  popped-pushed :
      (a : Ptr)
      → parent_at (h root) ≡ some top
      → parent_at (h ctx) ≡ some new_top
      → child_at (h top) ≡ some null
      → popped (pushed h root ctx top new_top) root ctx top new_top a ≡ h a
  popped-pushed a r c t = ground arith

  pushed-popped :
      (a : Ptr)
      → parent_at (h root) ≡ some new_top
      → parent_at (h ctx) ≡ some top
      → child_at (h top) ≡ some ctx
      → pushed (popped h root ctx top new_top) root ctx top new_top a ≡ h a
  pushed-popped a r c t = ground arith

module _ {R : Type 0} (m : Memory R) (root ctx : Ptr) (xs ys : List Ptr) where
  -- If a ring of contexts xs stands at root, a ring ys at ctx, and they share no context,
  -- push_context returns with the one ring ys, ctx, xs at root; nothing but links of ctx, of root
  -- and of xs has changed.
  pub push_context_lem :
      Ring m.contexts root xs
      → Ring m.contexts ctx ys
      → AreApart root ctx xs ys
      → (h : Ptr → Option (Context R)) × (push_context root ctx m ≡ ok tt (relink m h))
        × Ring h root (ys ++ ctx ∷ xs)
        × OnlyLinks (ctx ∷ (xs ++ root ∷ [])) m.contexts h
  push_context_lem rx ry apart = (
    pushed m.contexts root ctx (first xs root) (first ys ctx),
    push_context-pushed m root ctx xs ys rx ry,
    push_context-Ring m.contexts root ctx xs ys rx ry apart,
    λ a. (
      body-pushed m.contexts root ctx (first xs root) (first ys ctx) a,
      λ o.
          let o' : has a (xs ++ root ∷ []) ≡ false = ground arith in
          pushed-same m.contexts root ctx (first xs root) (first ys ctx) a (ne-base a xs root o')
            (ground arith) (ne-first a xs root o'),
    ),
  )

  -- If the ring at root is ys, ctx, xs, pop_context of ctx returns the newest of xs, or root, and
  -- leaves the ring xs at root and the ring ys at ctx; nothing but links of ctx, of root and of xs
  -- has changed.
  pub pop_context_lem :
      Ring m.contexts root (ys ++ ctx ∷ xs)
      → (h : Ptr → Option (Context R)) × (pop_context root ctx m ≡ ok (first xs root) (relink m h))
        × Ring h root xs
        × Ring h ctx ys
        × OnlyLinks (ctx ∷ (xs ++ root ∷ [])) m.contexts h
  pop_context_lem ring =
      let parts = Ring-Parts m.contexts root ctx xs ys ring in
      (
        popped m.contexts root ctx (first xs root) (first ys ctx),
        pop_context-popped m root ctx xs ys parts,
        popped-Ring_root m.contexts root ctx (first ys ctx) xs ys parts refl,
        popped-Ring_ctx m.contexts root ctx (first ys ctx) xs ys parts refl,
        λ a. (
          body-popped m.contexts root ctx (first xs root) (first ys ctx) a,
          λ o.
              let o' : has a (xs ++ root ∷ []) ≡ false = ground arith in
              popped-same m.contexts root ctx (first xs root) (first ys ctx) a
                (ne-base a xs root o') (ground arith) (ne-first a xs root o'),
        ),
      )

  -- Under the conditions of push_context_lem, popping the context that has just been pushed gives
  -- the old top context and restores the memory exactly.
  pub pop_context-push_context :
      Ring m.contexts root xs
      → Ring m.contexts ctx ys
      → AreApart root ctx xs ys
      → (push_context root ctx >> pop_context root ctx) m ≡ ok (first xs root) m
  pop_context-push_context rx ry apart =
      let g = pushed m.contexts root ctx (first xs root) (first ys ctx) in
      let parts =
        Ring-Parts g root ctx xs ys (push_context-Ring m.contexts root ctx xs ys rx ry apart) in
      rw
        (
          push_context-pushed m root ctx xs ys rx ry,
          pop_context-popped (relink m g) root ctx xs ys parts,
        )
        (ap (λ h. ok (first xs root) (relink m h))
          (fun_ext λ a.
            popped-pushed m.contexts root ctx (first xs root) (first ys ctx) a rx.base.1 ry.base.1
              (first-Linked m.contexts root xs rx).1.2))

  -- If the ring at root is ys, ctx, xs, pushing the context that has just been popped restores the
  -- memory exactly, with all that ran above it.
  pub push_context-pop_context :
      Ring m.contexts root (ys ++ ctx ∷ xs)
      → (pop_context root ctx >> push_context root ctx) m ≡ ok tt m
  push_context-pop_context ring =
      let parts = Ring-Parts m.contexts root ctx xs ys ring in
      let g = popped m.contexts root ctx (first xs root) (first ys ctx) in
      let rx = popped-Ring_root m.contexts root ctx (first ys ctx) xs ys parts refl in
      let ry = popped-Ring_ctx m.contexts root ctx (first ys ctx) xs ys parts refl in
      rw
        (
          pop_context-popped m root ctx xs ys parts,
          push_context-pushed (relink m g) root ctx xs ys rx ry,
        )
        (ap (λ h. ok tt (relink m h))
          (fun_ext λ a.
            pushed-popped m.contexts root ctx (first xs root) (first ys ctx) a parts.base.1
              parts.mid.1 (parent-Linked m.contexts root ctx xs ys parts).1.2))
