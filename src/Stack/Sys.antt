-- ===== src/Stack/Sys.antt =====
-- src/stack/unix.rs, and `SysStack` with `allocate` of src/stack/mod.rs.
--
-- The kernel's answers are the record `Kernel`; its effects are the list of events, newest first.
-- The two `static` caches are fields of the state. `usize` has 64 bits and wraps, as in a release
-- build, in which the `debug_assert!`s are not there either.
use Prim.Native.Nat.{bit_and}
use generator_rs.Base.{
  ℕ, ◌+◌, ◌-◌, ◌*◌, ◌%◌, Bool, true, false, Option, none, some, List, ◌∷◌, ltb, leb, ◌==◌,
  if◌then◌else◌, word_mod, add_word, sub_word,
}
use generator_rs.Base.Bits.{bit_not}
use generator_rs.Panic.{M, ok, pure, ◌>>=◌, ◌>>◌}

-- `rlim_max` of `getrlimit`.
pub data Limit : Type 0 where
  infinity : Limit
  bytes : ℕ → Limit

-- What the C library answers: the page size, the limit on a stack (`none` if the call fails), where a
-- mapping of a size is made if at all, and whether the pages at an address can be protected.
pub record Kernel : Type 0 where
  pub page : ℕ
  pub rlimit : Option Limit
  pub mmap : ℕ → Option ℕ
  pub mprotect : ℕ → ℕ → Bool

pub data Event : Type 0 where
  -- `mmap`, to read and write; `mprotect` with PROT_NONE; `munmap`.
  mapped : (address size : ℕ) → Event
  protected : (address size : ℕ) → Event
  unmapped : (address size : ℕ) → Event
  -- `VirtualAlloc` with MEM_COMMIT | MEM_RESERVE and PAGE_READWRITE; `VirtualProtect` with
  -- PAGE_READONLY | PAGE_GUARD; `VirtualFree` with MEM_RELEASE.
  committed : (address size : ℕ) → Event
  guard_page : (address size : ℕ) → Event
  released : (address : ℕ) → Event

pub record SysState : Type 0 where
  -- The two functions' `PAGE_SIZE`.
  pub page_cache : ℕ
  pub limit_cache : ℕ
  pub events : List Event

pub record SysStack : Type 0 where
  pub top : ℕ
  pub bottom : ℕ

pub data StackError : Type 0 where
  exceeds_maximum_size : ℕ → StackError
  io_error : StackError

pub data Result (A : Type 0) : Type 0 where
  success : A → Result A
  failure : StackError → Result A

-- `SysStack::len`
abbrev pub len : SysStack → ℕ
len s = sub_word s.top s.bottom

abbrev pub emit : Event → M SysState (Unit {0})
emit e s = ok tt (record s { events = e ∷ s.events })

unfoldable pub page_size : Kernel → M SysState ℕ
page_size k s =
    if s.page_cache == 0 then ok k.page (record s { page_cache = k.page }) else ok s.page_cache s

unfoldable pub min_stack_size : Kernel → M SysState ℕ
unfolding page_size
min_stack_size k = page_size k

abbrev pub limit_bytes : Limit → ℕ
limit_bytes infinity = word_mod - 1
limit_bytes (bytes n) = if ltb (word_mod - 1) n then word_mod - 1 else n

unfoldable pub max_stack_size : Kernel → M SysState ℕ
max_stack_size k s =
    if s.limit_cache == 0
    then elim k.rlimit [
      | some l ↦ ok (limit_bytes l) (record s { limit_cache = limit_bytes l })
      | none ↦ ok (1024 * 1024 * 1024) s
    ]
    else ok s.limit_cache s

unfoldable pub allocate_stack : Kernel → ℕ → M SysState (Result SysStack)
allocate_stack k size s = elim (k.mmap size) [
  | none ↦ ok (failure io_error) s
  | some p ↦
      (do emit (mapped p size); pure (success (record { top = add_word p size; bottom = p }))) s
]

unfoldable pub protect_stack : Kernel → SysStack → M SysState (Result SysStack)
unfolding page_size
protect_stack k stack = do
  page ← page_size k
  if k.mprotect stack.bottom page
      then (do
        emit (protected stack.bottom page)
        pure (success (record { top = stack.top; bottom = add_word stack.bottom page })))
      else pure (failure io_error)

unfoldable pub deallocate_stack : ℕ → ℕ → M SysState (Unit {0})
deallocate_stack p size = emit (unmapped p size)

-- `if protected { if let Ok(stack) = ret { ret = protect_stack(&stack) } }`
abbrev pub and_protect :
    (SysStack → M SysState (Result SysStack))
    → Bool
    → Result SysStack
    → M SysState (Result SysStack)
and_protect protect guarded (failure e) s = ok (failure e) s
and_protect protect false (success stack) s = ok (success stack) s
and_protect protect true (success stack) s = protect stack s

-- The size that `allocate` maps: `none` where `checked_add` overflows.
unfoldable pub mapped_size : (least page size add : ℕ) → Option ℕ
mapped_size least page size add =
    let size' = if ltb size least then least else size in
    let down = bit_and (sub_word size' 1) (bit_not (sub_word page 1)) in
    if ltb (down + add) word_mod then some (down + add) else none

-- The functions of `src/stack/unix.rs` or `src/stack/windows.rs` that `SysStack::allocate` calls.
pub record System : Type 0 where
  pub page_size : M SysState ℕ
  pub min_stack_size : M SysState ℕ
  pub max_stack_size : M SysState ℕ
  pub allocate_stack : ℕ → M SysState (Result SysStack)
  pub protect_stack : SysStack → M SysState (Result SysStack)

-- `SysStack::allocate`
abbrev pub allocate_on : System → ℕ → Bool → M SysState (Result SysStack)
allocate_on sys size guarded = do
  page ← sys.page_size
  least ← sys.min_stack_size
  most ← sys.max_stack_size
  let add = if guarded then (page * 2) % word_mod else page
  elim (mapped_size least page size add) [
    | none ↦ pure (failure (exceeds_maximum_size (sub_word most add)))
    | some n ↦
        if leb n most
        then (do ret ← sys.allocate_stack n; and_protect sys.protect_stack guarded ret)
        else pure (failure (exceeds_maximum_size (sub_word most add)))
  ]

abbrev pub unix : Kernel → System
unix k = record {
  page_size = page_size k;
  min_stack_size = min_stack_size k;
  max_stack_size = max_stack_size k;
  allocate_stack = allocate_stack k;
  protect_stack = protect_stack k;
}

unfoldable pub allocate : Kernel → ℕ → Bool → M SysState (Result SysStack)
allocate k size guarded = allocate_on (unix k) size guarded
