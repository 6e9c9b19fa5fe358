-- ===== src/Tests/Stacks.antt =====
-- A kernel with pages of 4096 bytes, and stacks on it.
use generator_rs.Base.{
  inl, inr, ◌+◌, ◌*◌, ℕ, ◌≡◌, ◌≤◌, ◌<◌, ◌⊎◌, ◌%◌, refl, Bool, true, false, some, [], ◌∷◌, arith,
  ◌==◌, if◌then◌else◌, update,
}
use generator_rs.Panic.{ok}
use generator_rs.Stack.Sys.{
  Limit, infinity, Kernel, mapped, protected, unmapped, SysState, SysStack, success, failure,
  io_error, page_size, min_stack_size, max_stack_size, allocate_stack, protect_stack, mapped_size,
  allocate,
}
use generator_rs.Stack.Words.{
  Func, read_words, StackMemory, Layout, size, get_offset, on, fill, data_size, drop_func,
  new_fn_once, get_used_size, new,
}
use generator_rs.Stack.Allocate.{IsFaithful, settled, with_events, allocate-mmap, allocate-mprotect}
use generator_rs.Stack.Pages.{mapped_size_bounds}
use generator_rs.Stack.Boxes.{HasRoom, drop_func-new_fn_once}
use generator_rs.Stack.Usage.{new-used}
use generator_rs.Stack.Placement.{Fields, Functions, Value, create, discard, func_fields}
use generator_rs.Stack.Layouts.{IsLayout}
use generator_rs.Stack.Lifetime.{discard-create}
use generator_rs.Stack.Values.{IsElsewhere, get_elem?}
use generator_rs.Stack.Sys.{committed, guard_page}
use generator_rs.Stack.Windows
use generator_rs.Stack.Windows.{Win32}
use generator_rs.Stack.Committed.{allocate-committed}

abbrev kernel : (limit : Limit) → Bool → Kernel
kernel limit protects = record {
  page = 4096;
  rlimit = some limit;
  mmap = λ n. some 65536;
  mprotect = λ p n. protects;
}

abbrev cold : SysState
cold = record { page_cache = 0; limit_cache = 0; events = [] }

cold-IsFaithful : (limit : Limit) (protects : Bool) → IsFaithful (kernel limit protects) 12 cold
cold-IsFaithful limit protects = record { page = refl; small = omega arith; cached = inl refl }

mapped_size_example :
    (n : ℕ) × (mapped_size 4096 4096 5000 8192 ≡ some n)
    × (9096 ≤ n)
    × (8192 ≤ n)
    × (n % 4096 ≡ 0)
    × (n < 13192)
mapped_size_example = mapped_size_bounds 12 5000 (omega arith) (omega arith)

allocate_example :
    allocate (kernel infinity true) 5000 true cold
    ≡ ok (success (record { top = 77824; bottom = 69632 })) (
        with_events
          (settled (kernel infinity true) cold)
          (protected 65536 4096 ∷ mapped 65536 12288 ∷ []))
allocate_example =
    allocate-mmap (kernel infinity true) 12 5000 cold (cold-IsFaithful infinity true) (omega arith)
      65536 refl refl (omega arith) refl

allocate_leak_example :
    allocate (kernel infinity false) 5000 true cold
    ≡ ok
        (failure io_error)
        (with_events (settled (kernel infinity false) cold) (mapped 65536 12288 ∷ []))
allocate_leak_example =
    allocate-mprotect (kernel infinity false) 12 5000 cold (cold-IsFaithful infinity false)
      (omega arith) 65536 refl refl (omega arith) refl

abbrev buf : SysStack
buf = record { top = 77824; bottom = 69632 }

-- Every word is 0, but the last of the stack.
abbrev words : StackMemory
words = record { word = λ a. if a == 77816 then 1 else 0; sys = cold }

abbrev layout : Layout
layout = record { bytes = 24; align = 8 }

room : HasRoom (on buf) words 1 (data_size layout 1)
unfolding data_size
room = record {
  ordered = omega arith;
  in_space = omega arith;
  cell = refl;
  used = omega arith;
  room = omega arith;
}

layout-IsLayout : IsLayout layout 3
layout-IsLayout = record { power = refl; small = omega arith; fits = omega arith }

-- A closure that has captured three words, on the stack from 69632 to 77824.
func_example :
    (f : Func) × (m1 m2 : StackMemory) × (new_fn_once layout (7 ∷ 8 ∷ 9 ∷ []) (on buf) words
      ≡ ok f m1)
    × (read_words 3 f.data_ptr m1.word ≡ 7 ∷ 8 ∷ 9 ∷ [])
    × (drop_func f m1 ≡ ok tt m2)
    × (m2.sys ≡ words.sys)
    × ((a : ℕ) → (a < 77728) ⊎ (77816 ≤ a) → m2.word a ≡ words.word a)
unfolding data_size
func_example =
    drop_func-new_fn_once layout (on buf) words 1 room (7 ∷ 8 ∷ 9 ∷ []) 3 layout-IsLayout
      (omega arith)

abbrev empty : StackMemory
empty = record { word = λ a. 0; sys = cold }

abbrev full : SysState
full =
    with_events (settled (kernel infinity true) cold)
      (protected 65536 4096 ∷ mapped 65536 12288 ∷ [])

abbrev marked : StackMemory
marked = record {
  word = update (fill (size (on buf)) 69632 empty.word) (get_offset (on buf)) 1;
  sys = full;
}

new_example :
    (new (kernel infinity true) 1001 empty ≡ ok (on buf) marked)
    × (get_used_size 2000 (on buf) marked ≡ some 1)
unfolding min_stack_size allocate page_size max_stack_size mapped_size allocate_stack protect_stack
new_example =
    new-used (kernel infinity true) 1001 4096 empty buf (record cold { page_cache = 4096 }) full
      refl refl 1024 refl (omega arith) (omega arith) 2000 (omega arith) (ground arith)

abbrev fields : Fields
fields = record { parent = 0; count = 8; guard = 16; regs = 32; f = 96 }

abbrev functions : Functions
functions = record { gen_init = 700; bootstrap = 800; call_once = 900; drop_inner = 1000 }

-- A generator of 18 words, the last of which is a field that `init_code` leaves, and a closure of
-- three.
abbrev gen : Value
gen = record {
  layout = record { bytes = 144; align = 8 };
  words = 0 ∷ 0 ∷ 0 ∷ 0 ∷ 0 ∷ 0 ∷ 0 ∷ 0 ∷ 0 ∷ 0 ∷ 0 ∷ 0 ∷ 0 ∷ 0 ∷ 0 ∷ 0 ∷ 0 ∷ 5 ∷ [];
}

abbrev closure : Value
closure = record { layout = layout; words = 7 ∷ 8 ∷ 9 ∷ [] }

discard_example :
    (b : ℕ × Func) × (m1 : StackMemory) × (create
        (kernel infinity true)
        1001
        fields
        functions
        gen
        closure
        empty
      ≡ ok b m1)
    × (read_words 3 b.1.data_ptr m1.word ≡ 7 ∷ 8 ∷ 9 ∷ [])
    × (read_words 5 (b.0 + 96) m1.word ≡ func_fields functions b.1)
    × ((i v : ℕ)
        → get_elem? gen.words i ≡ some v
        → IsElsewhere fields (i * 8)
        → m1.word (b.0 + i * 8) ≡ v)
    × ((started : Bool)
        → (w : ℕ → ℕ) × (discard (kernel infinity true) started b m1
            ≡ ok tt (record {
              word = w;
              sys =
                  with_events
                    (settled (kernel infinity true) cold)
                    (unmapped 65536 12288 ∷ protected 65536 4096 ∷ mapped 65536 12288 ∷ []);
            })))
unfolding data_size
discard_example =
    discard-create (kernel infinity true) 12 1001 65536 fields functions gen closure
      (record {
        power = 3;
        layout = record { power = refl; small = omega arith; fits = omega arith };
        whole = omega arith;
      })
      (record { power = 3; layout = layout-IsLayout; whole = omega arith })
      (record {
        parent = omega arith;
        count = omega arith;
        guard = omega arith;
        regs = omega arith;
        f = omega arith;
        f_guard = inr (omega arith);
        f_regs = inr (omega arith);
      })
      empty (cold-IsFaithful infinity true) (omega arith) refl refl (omega arith) (omega arith) refl
      (omega arith)

abbrev win32 : Bool → Win32
win32 protects = record {
  page = 4096;
  virtual_alloc = λ n. some 65536;
  virtual_protect = λ p n. protects;
}

abbrev cached : SysState
cached = record { page_cache = 4096; limit_cache = 0; events = [] }

committed_example :
    Windows.allocate (win32 true) 5000 true cold
    ≡ ok
        (success (record { top = 77824; bottom = 69632 }))
        (with_events cached (guard_page 65536 4096 ∷ committed 65536 12288 ∷ []))
committed_example =
    allocate-committed (win32 true) 12 5000 cold refl (omega arith) (inl refl) (omega arith) 65536
      refl (omega arith) true refl
