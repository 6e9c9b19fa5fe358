-- ===== src/Rt/Env.antt =====
-- src/rt.rs: `ContextStack`, the free functions over it, and `guard::current`.
--
-- The loops that walk the parent pointers run on fuel; `none` in place of a result means that the
-- fuel ran out. Rt/Search.antt is about how much is enough.
use generator_rs.Base.{
  ℕ, zero, suc, Bool, not, Option, none, some, ◌==◌, if◌then◌else◌, update, sub_word,
}
use generator_rs.Panic.{assertion, M, ok, fault, assert, pure, ◌>>=◌, ◌>>◌}
use generator_rs.Rt.Context.{Ptr, null, Context, Memory, new, load, store}

module _ {R : Type 0} where
  -- Writes of one field through a pointer.
  unfoldable pub set_parent : Ptr → Ptr → M (Memory R) (Unit {0})
  unfolding load store
  set_parent p q = do c ← load p; store p (record c { parent = q })

  unfoldable pub set_child : Ptr → Ptr → M (Memory R) (Unit {0})
  unfolding load store
  set_child p q = do c ← load p; store p (record c { child = q })

  -- `ContextStack::init_root`: `fresh` is the address that `Box::new` returns, `empty` the zeroed
  -- registers. The box is leaked.
  unfoldable pub init_root : Ptr → R → M (Memory R) Ptr
  init_root fresh empty m = ok fresh (record m {
    root = fresh;
    contexts = update m.contexts fresh (some (record (new empty) { parent = fresh }));
  })

  -- `ContextStack::current`
  unfoldable pub current : Ptr → R → M (Memory R) Ptr
  unfolding init_root
  current fresh empty m = if m.root == null then init_root fresh empty m else ok m.root m

  -- `ContextStack::top`, as the address of the top context.
  unfoldable pub top : Ptr → M (Memory R) Ptr
  unfolding load
  top root = do r ← load root; load r.parent; pure r.parent

  -- `ContextStack::push_context`
  unfoldable pub push_context : Ptr → Ptr → M (Memory R) (Unit {0})
  push_context root ctx = do
    r ← load root
    c ← load ctx
    let top = r.parent
    let new_top = c.parent
    set_child top ctx
    set_parent ctx top
    set_parent root new_top

  -- `ContextStack::pop_context`
  unfoldable pub pop_context : Ptr → Ptr → M (Memory R) Ptr
  pop_context root ctx = do
    c ← load ctx
    let parent = c.parent
    r ← load root
    set_parent ctx r.parent
    set_child parent null
    set_parent root parent
    pure parent

  -- `while ctx != root { if !local_data.is_null() { return .. } ctx = ctx.parent }`, the loop of
  -- `co_ctx` and of `get_local_data`, with the context at which it returns.
  unfoldable pub search : ℕ → Ptr → Ptr → M (Memory R) (Option (Option Ptr))
  unfolding load
  search zero root ctx m = ok none m
  search (suc fuel) root ctx m =
      let rest = λ (c : Context R). search fuel root c.parent in
      if ctx == root
      then ok (some none) m
      else (do c ← load ctx; if c.local_data == null then rest c else pure (some (some ctx))) m

  -- `ContextStack::co_ctx`
  unfoldable pub co_ctx : ℕ → Ptr → M (Memory R) (Option (Option Ptr))
  unfolding load search
  co_ctx fuel root = do r ← load root; search fuel root r.parent

  -- `is_generator`
  unfoldable pub is_generator : Ptr → M (Memory R) Bool
  unfolding load
  is_generator root = do r ← load root; pure (not (r.child == null))

  -- What `get_local_data` returns where its loop stops.
  abbrev pub local_data_at : Option (Option Ptr) → M (Memory R) (Option Ptr)
  local_data_at none m = ok none m
  local_data_at (some none) m = ok (some null) m
  local_data_at (some (some p)) m = elim (m.contexts p) [
    | none ↦ fault
    | some c ↦ ok (some c.local_data) m
  ]

  -- `get_local_data`
  unfoldable pub get_local_data : ℕ → Ptr → M (Memory R) (Option Ptr)
  unfolding load search
  get_local_data fuel root = do
    r ← load root
    found ← search fuel root r.parent
    local_data_at found

  -- `guard::current`: the range that a stack overflow of the running generator falls in.
  unfoldable pub guard_current : ℕ → Ptr → M (Memory R) (ℕ × ℕ)
  unfolding load is_generator
  guard_current page_size root = do
    inside ← is_generator root
    assert inside assertion
    r ← load root
    c ← load r.child
    pure (sub_word c.stack_guard.0 page_size, c.stack_guard.1)
