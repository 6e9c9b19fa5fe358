-- ===== src/Stack/Allocate.antt =====
-- What `SysStack::allocate` of src/stack/mod.rs returns, maps and protects.
use generator_rs.Base.{
  ℕ, ◌+◌, ◌-◌, ◌*◌, ◌^◌, ◌≤◌, ◌<◌, ◌≡◌, ◌⊎◌, true, false, none, some, List, [], ◌∷◌, ◌++◌, arith,
  leb, ◌==◌, if◌then◌else◌, word_mod, sub_word,
}
use generator_rs.Base.Bits.{pow_pos, pow-le-pow}
use generator_rs.Stack.Pages.{round_up, mapped_size_lem}
use generator_rs.Panic.{ok}
use generator_rs.Stack.Sys.{
  min_stack_size, Kernel, SysState, success, failure, exceeds_maximum_size, io_error, Event, mapped,
  protected, len, page_size, limit_bytes, max_stack_size, allocate_stack, protect_stack, allocate,
  unmapped,
}
use generator_rs.Stack.Words.{StackMemory, on, drop_stack}

-- A page is a power of two of bytes, and the caches hold nothing else than the kernel's answers.
pub record IsFaithful (k : Kernel) (b : ℕ) (s : SysState) : Type 0 where
  pub page : k.page ≡ 2 ^ b
  pub small : b ≤ 32
  pub cached : (s.page_cache ≡ 0) ⊎ (s.page_cache ≡ 2 ^ b)

-- The limit that `max_stack_size` answers with.
abbrev pub limit : Kernel → SysState → ℕ
limit k s =
    if s.limit_cache == 0
    then elim k.rlimit [ some l ↦ limit_bytes l | none ↦ 1024 * 1024 * 1024 ]
    else s.limit_cache

-- Both caches filled.
abbrev pub settled : Kernel → SysState → SysState
settled k s = record s {
  page_cache = k.page;
  limit_cache =
      if s.limit_cache == 0
      then elim k.rlimit [ some l ↦ limit_bytes l | none ↦ 0 ]
      else s.limit_cache;
}

-- What `allocate` maps for a stack with its guard page.
abbrev pub total : (page size : ℕ) → ℕ
total page size = round_up page size + page

abbrev pub with_events : SysState → List Event → SysState
with_events s es = record s { events = es ++ s.events }

module _ (k : Kernel) (b size : ℕ) (s : SysState) (v : IsFaithful k b s)
    (fits : size + 2 ^ b * 2 < word_mod) where
  pub page_size-ok : page_size k s ≡ ok (2 ^ b) (record s { page_cache = 2 ^ b })
  unfolding page_size
  page_size-ok = ground (arith, pow_pos b)

  page_size-cached : (t : SysState) → t.page_cache ≡ 2 ^ b → page_size k t ≡ ok (2 ^ b) t
  unfolding page_size
  page_size-cached t e = ground (arith, pow_pos b)

  max_stack_size-ok :
      max_stack_size k (record s { page_cache = 2 ^ b }) ≡ ok (limit k s) (settled k s)
  unfolding max_stack_size
  max_stack_size-ok = ground arith

  allocate_stack-some :
      (n p : ℕ) (t : SysState)
      → k.mmap n ≡ some p
      → p + n < word_mod
      → allocate_stack k n t
        ≡ ok
            (success (record { top = p + n; bottom = p }))
            (record t { events = mapped p n ∷ t.events })
  unfolding allocate_stack
  allocate_stack-some n p t m h = ground arith

  -- With a page of a power of two of bytes, up to 2^32, that is cached as it is if at all: if the
  -- size does not overflow, the total is within the limit, the kernel maps it at p within the
  -- address space and protects the lowest page, allocate gives the memory above that page, and has
  -- made these two calls only.
  pub allocate-mmap :
      (p : ℕ)
      → leb (total (2 ^ b) size) (limit k s) ≡ true
      → k.mmap (total (2 ^ b) size) ≡ some p
      → p + total (2 ^ b) size < word_mod
      → k.mprotect p (2 ^ b) ≡ true
      → allocate k size true s
        ≡ ok
            (success (record { top = p + total (2 ^ b) size; bottom = p + 2 ^ b }))
            (with_events (settled k s) (protected p (2 ^ b) ∷ mapped p (total (2 ^ b) size) ∷ []))
  unfolding allocate min_stack_size protect_stack
  allocate-mmap p le m h pr =
      rw
        (
          page_size-ok,
          allocate,
          page_size-cached,
          max_stack_size-ok,
          allocate,
          mapped_size_lem b size v.small fits,
          le,
          allocate_stack-some (total (2 ^ b) size) p (settled k s) m h,
          page_size-cached (with_events (settled k s) (mapped p (total (2 ^ b) size) ∷ [])) v.page,
          pr,
        )
        (ground arith)

  -- With a page of a power of two of bytes, up to 2^32, that is cached as it is if at all: if the
  -- size does not overflow, the total is within the limit, and the kernel maps it at p within the
  -- address space but cannot protect the lowest page, allocate gives the error, and the memory stays
  -- mapped.
  pub allocate-mprotect :
      (p : ℕ)
      → leb (total (2 ^ b) size) (limit k s) ≡ true
      → k.mmap (total (2 ^ b) size) ≡ some p
      → p + total (2 ^ b) size < word_mod
      → k.mprotect p (2 ^ b) ≡ false
      → allocate k size true s
        ≡ ok (failure io_error) (with_events (settled k s) (mapped p (total (2 ^ b) size) ∷ []))
  unfolding allocate min_stack_size protect_stack
  allocate-mprotect p le m h pr = rw (
    page_size-ok,
    allocate,
    page_size-cached,
    max_stack_size-ok,
    allocate,
    mapped_size_lem b size v.small fits,
    le,
    allocate_stack-some (total (2 ^ b) size) p (settled k s) m h,
    page_size-cached (with_events (settled k s) (mapped p (total (2 ^ b) size) ∷ [])) v.page,
    pr,
  )

  -- With a page of a power of two of bytes, up to 2^32, that is cached as it is if at all: if the
  -- size does not overflow, and the total passes the limit or the kernel maps nothing, allocate
  -- gives the error that says which, and has mapped nothing.
  pub allocate-refused :
      (leb (total (2 ^ b) size) (limit k s) ≡ false) ⊎ (k.mmap (total (2 ^ b) size) ≡ none)
      → allocate k size true s
        ≡ ok
            (failure (
              if leb (total (2 ^ b) size) (limit k s)
              then io_error
              else exceeds_maximum_size (sub_word (limit k s) (2 ^ b * 2))))
            (settled k s)
  unfolding allocate min_stack_size allocate_stack
  allocate-refused why =
      rw
        (
          page_size-ok,
          allocate,
          page_size-cached,
          max_stack_size-ok,
          allocate,
          mapped_size_lem b size v.small fits,
        )
        (ground (arith, pow-le-pow b 32 v.small))

module _ (k : Kernel) (b n p : ℕ) (m : StackMemory) (small : b ≤ 32) (page : k.page ≡ 2 ^ b)
    (cached : m.sys.page_cache ≡ 2 ^ b) (some_pages : 2 ^ b < n) (in_space : p + n < word_mod) where
  -- With a page of a power of two of bytes, up to 2^32, that is cached, and a stack above one page
  -- in a longer mapping of n bytes at p within the address space, drop_stack unmaps exactly these n
  -- bytes at p, the guard page included.
  pub drop_stack-unmapped :
      drop_stack k (on (record { top = p + n; bottom = p + 2 ^ b })) m
      ≡ ok tt (record m { sys = record (m.sys) { events = unmapped p n ∷ m.sys.events } })
  unfolding drop_stack
  drop_stack-unmapped =
      let l : len (record { top = p + n; bottom = p + 2 ^ b }) ≡ n - 2 ^ b = omega arith in
      ground (arith, pow_pos b)
