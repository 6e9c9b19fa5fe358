-- ===== src/Rt/Context.antt =====
-- src/rt.rs: `Context` and its methods, over an explicit memory.
--
-- A pointer is a number and 0 is null. `GeneratorImpl` is `repr(C)` with the context first, so a
-- generator and its context have one address; `contexts` holds the contexts, and `paras` and `rets`
-- hold the fields `para` and `ret` of the generators, each with the type that it was made at. The
-- saved registers are of a type `R` that the modules which switch contexts choose.
use generator_rs.Base.{ℕ, Bool, not, Option, none, some, ◌==◌, if◌then◌else◌, update}
use generator_rs.Panic.{
  type_err, Payload, error, assertion, M, ok, fault, undefined, throw, assert, pure, ◌>>=◌, ◌>>◌,
}

abbrev pub Ptr : Type 0
Ptr = ℕ

abbrev pub null : Ptr
null = 0

-- `std::any::TypeId`
abbrev pub TypeId : Type 0
TypeId = ℕ

-- A cell of type `Option<X>`, `ty` standing for `X`.
pub record Slot : Type 0 where
  pub ty : TypeId
  pub value : Option ℕ

pub record Context (R : Type 0) : Type 0 where
  pub regs : R
  pub child : Ptr
  pub parent : Ptr
  -- The generator whose field is pointed to; null as long as it is zeroed.
  pub para : Ptr
  pub ret : Ptr
  pub ref : ℕ
  pub local_data : Ptr
  pub err : Option Payload
  pub stack_guard : ℕ × ℕ

pub record Memory (R : Type 0) : Type 0 where
  -- `ROOT_CONTEXT_P`
  pub root : Ptr
  pub contexts : Ptr → Option (Context R)
  pub paras : Ptr → Option Slot
  pub rets : Ptr → Option Slot

-- `Context::new`; `empty` is `RegContext::empty()`.
abbrev pub new : {R : Type 0} → R → Context R
new empty = record {
  regs = empty;
  child = null;
  parent = null;
  para = null;
  ret = null;
  ref = 1;
  local_data = null;
  err = none;
  stack_guard = (0, 0);
}

module _ {R : Type 0} where
  -- A context read through a pointer.
  unfoldable pub load : Ptr → M (Memory R) (Context R)
  load p m = if p == null then fault else elim (m.contexts p) [ none ↦ fault | some c ↦ ok c m ]

  abbrev pub write_context : Memory R → Ptr → Context R → Memory R
  write_context m p c = record m { contexts = update m.contexts p (some c) }

  unfoldable pub store : Ptr → Context R → M (Memory R) (Unit {0})
  store p c m = ok tt (write_context m p c)

  -- A `dyn Any` pointer to a field of a generator, read. `Memory.paras` and `Memory.rets` differ in
  -- the field only.
  abbrev pub read_slot : Option Slot → M (Memory R) Slot
  read_slot none m = fault
  read_slot (some s) m = ok s m

  unfoldable pub load_para : Ptr → M (Memory R) Slot
  load_para p m = read_slot (m.paras p) m

  unfoldable pub store_para : Ptr → Slot → M (Memory R) (Unit {0})
  store_para p s m = ok tt (record m { paras = update m.paras p (some s) })

  unfoldable pub load_ret : Ptr → M (Memory R) Slot
  load_ret p m = read_slot (m.rets p) m

  unfoldable pub store_ret : Ptr → Slot → M (Memory R) (Unit {0})
  store_ret p s m = ok tt (record m { rets = update m.rets p (some s) })

  -- `Option::take` on a cell.
  unfoldable pub take_para : Ptr → M (Memory R) (Option ℕ)
  unfolding load_para store_para
  take_para p = do s ← load_para p; store_para p (record s { value = none }); pure s.value

  unfoldable pub take_ret : Ptr → M (Memory R) (Option ℕ)
  unfolding load_ret store_ret
  take_ret p = do s ← load_ret p; store_ret p (record s { value = none }); pure s.value

  -- `type_error`: the log line is left out.
  abbrev pub type_error : {A : Type 0} → M (Memory R) A
  type_error = throw (error type_err)

  -- `Context::is_generator`
  abbrev pub is_generator : Ptr → Context R → Bool
  is_generator self c = not (c.parent == self)

  -- `Context::get_para`, a checked downcast to `Option<t>`.
  unfoldable pub get_para : TypeId → Ptr → M (Memory R) (Option ℕ)
  unfolding load load_para take_para
  get_para t self = do
    c ← load self
    assert (not (c.para == null)) assertion
    s ← load_para c.para
    if s.ty == t then take_para c.para else type_error

  -- `Context::co_get_para`: an unchecked cast, so another type is undefined behaviour. Its
  -- `debug_assert!` is not in a release build, where the null pointer is read.
  unfoldable pub co_get_para : TypeId → Ptr → M (Memory R) (Option ℕ)
  unfolding load load_para take_para
  co_get_para t self = do
    c ← load self
    s ← if c.para == null then undefined else load_para c.para
    if s.ty == t then take_para c.para else undefined

  -- `Context::co_set_para`
  unfoldable pub co_set_para : TypeId → ℕ → Ptr → M (Memory R) (Unit {0})
  unfolding load load_para store_para
  co_set_para t v self = do
    c ← load self
    s ← if c.para == null then undefined else load_para c.para
    if s.ty == t then store_para c.para (record s { value = some v }) else undefined

  -- `Context::set_ret`
  unfoldable pub set_ret : TypeId → ℕ → Ptr → M (Memory R) (Unit {0})
  unfolding load load_ret store_ret
  set_ret t v self = do
    c ← load self
    assert (not (c.ret == null)) assertion
    s ← load_ret c.ret
    if s.ty == t then store_ret c.ret (record s { value = some v }) else type_error

  -- `Context::co_set_ret`
  unfoldable pub co_set_ret : TypeId → ℕ → Ptr → M (Memory R) (Unit {0})
  unfolding load load_ret store_ret
  co_set_ret t v self = do
    c ← load self
    s ← if c.ret == null then undefined else load_ret c.ret
    if s.ty == t then store_ret c.ret (record s { value = some v }) else undefined
