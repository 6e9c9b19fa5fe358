-- ===== src/Rt/Search.antt =====
-- The queries of src/rt.rs on a well-formed thread: who runs, which coroutine it runs in, where its
-- stack ends.
use generator_rs.Base.{
  ℕ, zero, suc, ◌<◌, ◌≡◌, refl, ◌≢◌, ◌↔◌, Bool, true, false, Option, none, some, List, [], ◌∷◌,
  arith, ◌==◌, if◌then◌else◌, has, length, Option-cases, inl, inr, sub_word, not-has-left,
}
use generator_rs.Panic.{ok}
use generator_rs.Rt.Context.{Ptr, null, Context, Memory, load}
use generator_rs.Rt.Context
use generator_rs.Rt.Env.{top, search, co_ctx, is_generator, get_local_data, guard_current}
use generator_rs.Rt.Ring.{first, last, Chain, Ring, ne-first}
use generator_rs.Rt.Links.{load-ok}

module _ {R : Type 0} where
  abbrev pub local_at : Option (Context R) → Ptr
  local_at none = null
  local_at (some c) = c.local_data

  -- The newest of the contexts that has local data.
  abbrev pub coroutine : (Ptr → Option (Context R)) → List Ptr → Option Ptr
  coroutine h [] = none
  coroutine h (x ∷ xs) = if local_at (h x) == null then coroutine h xs else some x

  -- It is one of them, and it has local data.
  pub coroutine-some :
      (h : Ptr → Option (Context R)) (xs : List Ptr) (p : Ptr)
      → coroutine h xs ≡ some p
      → (has p xs ≡ true) × ((local_at (h p) == null) ≡ false)
  coroutine-some h [] p e = cc
  coroutine-some h (x ∷ xs) p e = ground (arith, coroutine-some h xs p)

  abbrev pub local_of : (Ptr → Option (Context R)) → Option Ptr → Ptr
  local_of h none = null
  local_of h (some p) = local_at (h p)

  search-coroutine :
      (fuel : ℕ) (root above : Ptr) (xs : List Ptr) (m : Memory R)
      → Chain m.contexts above xs root
      → has root xs ≡ false
      → length xs < fuel
      → search fuel root (first xs root) m ≡ ok (some (coroutine m.contexts xs)) m
  unfolding search
  search-coroutine zero root above xs m c o f = absurd (omega arith)
  search-coroutine (suc fuel) root above [] m c o f = ground arith
  search-coroutine (suc fuel) root above (x ∷ xs) m c o f =
      let (k, l, e, p) = load-ok x m c.0.0 c.0.1 in
      ground (arith, search-coroutine fuel root x xs m c.1)

module _ {R : Type 0} (m : Memory R) (root : Ptr) (xs : List Ptr) where
  -- On a ring of contexts xs, with more fuel than xs has contexts, co_ctx ends and gives the newest
  -- of xs that has local data, none if there is none, and changes nothing.
  pub co_ctx_lem :
      (fuel : ℕ)
      → Ring m.contexts root xs
      → length xs < fuel
      → co_ctx fuel root m ≡ ok (some (coroutine m.contexts xs)) m
  unfolding co_ctx
  co_ctx_lem fuel ring f =
      let (r, l, e, p) = load-ok root m ring.base.0 ring.base.1 in
      rw (l, p)
        (search-coroutine fuel root null xs m ring.chain (not-has-left xs [] root ring.distinct) f)

  -- On a ring of contexts xs, with more fuel than xs has contexts, get_local_data ends and gives the
  -- local data of the newest of xs that has any, null if there is none, and changes nothing.
  pub get_local_data_lem :
      (fuel : ℕ)
      → Ring m.contexts root xs
      → length xs < fuel
      → get_local_data fuel root m ≡ ok (some (local_of m.contexts (coroutine m.contexts xs))) m
  unfolding get_local_data
  get_local_data_lem fuel ring f =
      let (r, l, e, p) = load-ok root m ring.base.0 ring.base.1 in
      rw
        (
          l,
          p,
          search-coroutine fuel root null xs m ring.chain (not-has-left xs [] root ring.distinct) f,
        )
        (elim (Option-cases (coroutine m.contexts xs)) [
          | inl z ↦ rw z
          | inr (p', z) ↦ let facts = coroutine-some m.contexts xs p' z in rw z (ground arith)
        ])

module _ {R : Type 0} where
  last-ne-null :
      (h : Ptr → Option (Context R)) (above x : Ptr) (xs : List Ptr) (below : Ptr)
      → Chain h above (x ∷ xs) below
      → last x xs ≢ null
  last-ne-null h above x [] below c = c.0.0
  last-ne-null h above x (y ∷ xs) below c = last-ne-null h x y xs below c.1

  -- `is_generator`, and the test that `raw_yield` makes at the top context.
  abbrev pub Agree : Memory R → Ptr → List Ptr → Type 0
  Agree m root xs =
      (t : Ptr) × (c : Context R) × (b : Bool) × (top root m ≡ ok t m)
      × (m.contexts t ≡ some c)
      × (Context.is_generator t c ≡ b)
      × (is_generator root m ≡ ok b m)
      × ((b ≡ false) ↔ (xs ≡ []))

  -- On a ring of contexts xs, the function is_generator, which looks at the child of the root, and
  -- the method is_generator of the top context, which looks at its parent, agree, and both are false
  -- just when xs is empty.
  pub is_generator_lem :
      (m : Memory R) (root : Ptr) (xs : List Ptr) → Ring m.contexts root xs → Agree m root xs
  unfolding top is_generator
  is_generator_lem m root [] ring =
      let (r, l, e, p) = load-ok root m ring.base.0 ring.base.1 in
      (root, r, false, rw (l, p, l), e, ground arith, ground arith, (λ _. refl, λ _. refl))
  is_generator_lem m root (x ∷ xs) ring =
      let (r, l, e, p) = load-ok root m ring.base.0 ring.base.1 in
      let (c, lc, ec, pc) = load-ok x m ring.chain.0.0 ring.chain.0.1 in
      let ne = last-ne-null m.contexts null x xs root ring.chain in
      let away = ne-first x xs root ring.distinct.0 in
      (x, c, true, rw (l, p, lc), ec, ground arith, ground arith, (λ z. cc, λ z. cc))

  -- On a ring of contexts that is not empty, guard::current gives the stack guard of the oldest of
  -- them, the one next to the root, with its low end a page lower.
  pub guard_current_lem :
      (m : Memory R) (root x : Ptr) (xs : List Ptr) (page_size : ℕ) (c : Context R)
      → Ring m.contexts root (x ∷ xs)
      → m.contexts (last x xs) ≡ some c
      → guard_current page_size root m ≡ ok (sub_word c.stack_guard.0 page_size, c.stack_guard.1) m
  unfolding guard_current
  guard_current_lem m root x xs page_size c ring e =
      let (r, l, er, p) = load-ok root m ring.base.0 ring.base.1 in
      let ne = last-ne-null m.contexts null x xs root ring.chain in ground arith
