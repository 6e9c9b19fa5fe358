-- ===== src/Stack/Committed.antt =====
-- What `SysStack::allocate` of src/stack/mod.rs returns, commits and protects on Windows.
use generator_rs.Base.{
  ℕ, ◌+◌, ◌-◌, ◌*◌, ◌^◌, ◌≤◌, ◌<◌, ◌≡◌, ◌⊎◌, refl, if◌then◌else◌, Bool, true, false, some, [], ◌∷◌,
  arith, leb, word_mod,
}
use generator_rs.Base.Bits.{pow_pos}
use generator_rs.Stack.Pages.{mapped_size_lem}
use generator_rs.Panic.{ok}
use generator_rs.Stack.Sys.{SysState, success, failure, io_error, committed, guard_page}
use generator_rs.Stack.Windows.{
  Win32, page_size, min_stack_size, max_stack_size, allocate_stack, protect_stack, allocate,
}
use generator_rs.Stack.Allocate.{total, with_events}

below : (n p : ℕ) → p + n < word_mod → leb n (word_mod - 1) ≡ true
below n p h = ground arith

module _ (k : Win32) (b size : ℕ) (s : SysState) (page : k.page ≡ 2 ^ b) (small : b ≤ 32)
    (cached : (s.page_cache ≡ 0) ⊎ (s.page_cache ≡ 2 ^ b))
    (fits : size + 2 ^ b * 2 < word_mod) where
  abbrev paged : SysState
  paged = record s { page_cache = 2 ^ b }

  page_size-ok : page_size k s ≡ ok (2 ^ b) paged
  unfolding page_size
  page_size-ok = ground (arith, pow_pos b)

  page_size-cached : (t : SysState) → t.page_cache ≡ 2 ^ b → page_size k t ≡ ok (2 ^ b) t
  unfolding page_size
  page_size-cached t e = ground (arith, pow_pos b)

  abbrev bytes : ℕ
  bytes = total (2 ^ b) size

  committed-ok :
      (p : ℕ)
      → k.virtual_alloc bytes ≡ some p
      → p + bytes < word_mod
      → allocate_stack k bytes paged
        ≡ ok
            (success (record { top = p + bytes; bottom = p }))
            (with_events paged (committed p bytes ∷ []))
  unfolding allocate_stack
  committed-ok p m h = ground arith

  -- On Windows, with a page of a power of two of bytes, up to 2^32, that is cached as it is if at
  -- all: if the size does not overflow, and the system commits the total at p within the address
  -- space, allocate gives the memory above the lowest page if the system makes that a guard page,
  -- and the error if not; in the second case all of it stays committed.
  pub allocate-committed :
      (p : ℕ)
      → k.virtual_alloc bytes ≡ some p
      → p + bytes < word_mod
      → (protects : Bool) → k.virtual_protect p (2 ^ b) ≡ protects
      → allocate k size true s ≡ (
          if protects
          then ok
              (success (record { top = p + bytes; bottom = p + 2 ^ b }))
              (with_events paged (guard_page p (2 ^ b) ∷ committed p bytes ∷ []))
          else ok (failure io_error) (with_events paged (committed p bytes ∷ [])))
  unfolding allocate min_stack_size max_stack_size protect_stack
  allocate-committed p m h true pr =
      rw
        (
          page_size-ok,
          allocate,
          page_size-cached,
          allocate,
          mapped_size_lem b size small fits,
          below bytes p h,
          committed-ok p m h,
          page_size-cached (with_events paged (committed p bytes ∷ [])) refl,
          pr,
        )
        (ground arith)
  allocate-committed p m h false pr = rw (
    page_size-ok,
    allocate,
    page_size-cached,
    allocate,
    mapped_size_lem b size small fits,
    below bytes p h,
    committed-ok p m h,
    page_size-cached (with_events paged (committed p bytes ∷ [])) refl,
    pr,
  )
