-- ===== src/Stack/Placement.antt =====
-- What `Gn::new_scoped_opt` of src/gen_impl.rs puts on a stack: the `GeneratorImpl`, the closure, and
-- the first call frame; and what the drop of the `StackBox` does.
use generator_rs.Base.{ℕ, ◌+◌, Bool, true, false, List, [], ◌∷◌}
use generator_rs.Panic.{M, ok, pure, ◌>>=◌, ◌>>◌}
use generator_rs.Stack.Sys.{Kernel}
use generator_rs.Stack.Words.{
  StackMemory, Stack, Layout, new_uninit, Func, new_fn_once, drop_func, drop_box, new, stack_end,
  init, begin,
}
use generator_rs.Regs.Machine.{initialize_call_frame}

-- Where the fields of a `GeneratorImpl` that `init_code` writes are, in bytes: `context.parent`,
-- `context._ref`, `context.stack_guard`, `context.regs` and `f`.
pub record Fields : Type 0 where
  pub parent : ℕ
  pub count : ℕ
  pub guard : ℕ
  pub regs : ℕ
  pub f : ℕ

-- The addresses of `gen_init`, `bootstrap_green_task`, and of the closure's `call_once` and
-- `drop_inner`.
pub record Functions : Type 0 where
  pub gen_init : ℕ
  pub bootstrap : ℕ
  pub call_once : ℕ
  pub drop_inner : ℕ

-- A value, by its layout and its words.
pub record Value : Type 0 where
  pub layout : Layout
  pub words : List ℕ

-- `RegContext::init_with` on x86_64, at the end of the stack.
unfoldable pub init_with : (regs fptr arg arg2 bootstrap : ℕ) → Stack → M StackMemory (Unit {0})
init_with regs fptr arg arg2 bootstrap stack = do
  end ← stack_end stack
  λ m. ok tt (record m { word = initialize_call_frame regs fptr arg arg2 end bootstrap m.word })

-- `Some(func)`, its fields in the order of the source; a null `func` is `None`.
abbrev pub func_fields : Functions → Func → List ℕ
func_fields fn f = f.data_ptr ∷ f.words ∷ f.offset ∷ fn.call_once ∷ fn.drop_inner ∷ []

-- `init_code` of a new generator at `g`, whose context is the first field; and what it does once the
-- closure is there.
unfoldable pub fill_in : Fields → Functions → ℕ → Stack → Func → M StackMemory Func
fill_in fs fn g stack f = do
  init (g + fs.f) (func_fields fn f)
  end ← stack_end stack
  init (g + fs.guard) (begin stack ∷ end ∷ [])
  init_with (g + fs.regs) fn.gen_init 0 (g + fs.f) fn.bootstrap stack
  pure f

unfoldable pub install : Fields → Functions → Value → ℕ → Stack → M StackMemory Func
install fs fn closure g stack = do
  init (g + fs.parent) (g ∷ [])
  init (g + fs.count) (0 ∷ [])
  f ← new_fn_once closure.layout closure.words stack
  fill_in fs fn g stack f

-- `GeneratorImpl::new`: the box that owns the stack, and the value that is moved into it.
unfoldable pub new_box : Value → Stack → M StackMemory ℕ
new_box gen stack = do g ← new_uninit gen.layout stack 1; init g gen.words; pure g

-- `Gn::new_scoped_opt`, on a new stack of n words.
unfoldable pub create :
    Kernel → ℕ → Fields → Functions → (gen closure : Value) → M StackMemory (ℕ × Func)
create k n fs fn gen closure = do
  stack ← new k n
  g ← new_box gen stack
  f ← install fs fn closure g stack
  pure (g, f)

-- The drop of the generator. A closure that has run is dropped at its end, before; one that has not,
-- with the generator.
unfoldable pub discard : Kernel → (started : Bool) → ℕ × Func → M StackMemory (Unit {0})
discard k true (g, f) = do drop_func f; drop_box k (pure tt) g
discard k false (g, f) = drop_box k (drop_func f) g
