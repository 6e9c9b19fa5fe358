-- ===== src/Stack/Windows.antt =====
-- src/stack/windows.rs. The system's answers are those of a record, its effects the events of
-- Stack/Sys.antt.
use generator_rs.Base.{ℕ, ◌-◌, Bool, Option, none, some, ◌==◌, if◌then◌else◌, word_mod, add_word}
use generator_rs.Panic.{M, ok, pure, ◌>>=◌, ◌>>◌}
use generator_rs.Stack.Sys.{
  committed, guard_page, released, SysState, SysStack, io_error, Result, success, failure, emit,
  System, allocate_on,
}

-- `GetSystemInfo`, `VirtualAlloc` (none if it fails) and `VirtualProtect`.
pub record Win32 : Type 0 where
  pub page : ℕ
  pub virtual_alloc : ℕ → Option ℕ
  pub virtual_protect : ℕ → ℕ → Bool

unfoldable pub page_size : Win32 → M SysState ℕ
page_size k s =
    if s.page_cache == 0 then ok k.page (record s { page_cache = k.page }) else ok s.page_cache s

unfoldable pub min_stack_size : Win32 → M SysState ℕ
unfolding page_size
min_stack_size k = page_size k

unfoldable pub max_stack_size : M SysState ℕ
max_stack_size s = ok (word_mod - 1) s

unfoldable pub allocate_stack : Win32 → ℕ → M SysState (Result SysStack)
allocate_stack k size s = elim (k.virtual_alloc size) [
  | none ↦ ok (failure io_error) s
  | some p ↦
      (do emit (committed p size); pure (success (record { top = add_word p size; bottom = p }))) s
]

unfoldable pub protect_stack : Win32 → SysStack → M SysState (Result SysStack)
unfolding page_size
protect_stack k stack = do
  page ← page_size k
  if k.virtual_protect stack.bottom page
      then (do
        emit (guard_page stack.bottom page)
        pure (success (record { top = stack.top; bottom = add_word stack.bottom page })))
      else pure (failure io_error)

-- The size is not used.
unfoldable pub deallocate_stack : ℕ → ℕ → M SysState (Unit {0})
deallocate_stack p size = emit (released p)

abbrev pub windows : Win32 → System
windows k = record {
  page_size = page_size k;
  min_stack_size = min_stack_size k;
  max_stack_size = max_stack_size;
  allocate_stack = allocate_stack k;
  protect_stack = protect_stack k;
}

-- `SysStack::allocate` on Windows.
unfoldable pub allocate : Win32 → ℕ → Bool → M SysState (Result SysStack)
allocate k size has_guard = allocate_on (windows k) size has_guard
