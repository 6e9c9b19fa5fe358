-- ===== src/Stack/Lifetime.antt =====
-- The memory of a generator over its life: `Gn::new_scoped_opt` of src/gen_impl.rs maps it, and the drop
-- of the `StackBox` gives it back.
use generator_rs.Base.{
  ℕ, ◌+◌, ◌-◌, ◌*◌, ◌%◌, ◌^◌, ◌≤◌, ◌<◌, ◌≡◌, refl, length, Bool, true, [], ◌∷◌, arith, max, leb,
  word_mod, inr, some,
}
use generator_rs.Panic.{ok}
use generator_rs.Stack.Sys.{
  Kernel, SysState, SysStack, success, mapped, protected, unmapped, min_stack_size, allocate,
}
use generator_rs.Stack.Words.{
  StackMemory, Func, read_words, header_size, get_offset, drop_stack, on, word_size,
}
use generator_rs.Stack.Allocate.{
  IsFaithful, limit, settled, total, with_events, page_size-ok, allocate-mmap, drop_stack-unmapped,
}
use generator_rs.Stack.Usage
use generator_rs.Stack.Placement.{Fields, Functions, Value, create, discard, func_fields}
use generator_rs.Stack.Placed
use generator_rs.Stack.Values.{IsValue, Fits, IsElsewhere, get_elem?}
use generator_rs.Stack.Placed.{gen_words, code_words}

-- The bytes that `Stack::new` asks for.
abbrev pub asked : (page n : ℕ) → ℕ
asked page n = max ((n * word_size) % word_mod) page

module _ (k : Kernel) (b n p : ℕ) (fs : Fields) (fn : Functions) (gen code : Value)
    (vg : IsValue gen) (vc : IsValue code) (in_gen : Fits fs gen) (m : StackMemory)
    (v : IsFaithful k b m.sys) (fits : asked (2 ^ b) n + 2 ^ b * 2 < word_mod)
    (in_limit : leb (total (2 ^ b) (asked (2 ^ b) n)) (limit k m.sys) ≡ true)
    (maps : k.mmap (total (2 ^ b) (asked (2 ^ b) n)) ≡ some p)
    (in_space : p + total (2 ^ b) (asked (2 ^ b) n) < word_mod) (low : 32 ≤ p)
    (protects : k.mprotect p (2 ^ b) ≡ true)
    (room : 2 ^ b + (1 + gen_words gen + header_size + code_words gen code + header_size + 4) * 8
      ≤ total (2 ^ b) (asked (2 ^ b) n)) where
  abbrev bytes : ℕ
  bytes = total (2 ^ b) (asked (2 ^ b) n)

  abbrev buf : SysStack
  buf = record { top = p + bytes; bottom = p + 2 ^ b }

  abbrev paged : SysState
  paged = record (m.sys) { page_cache = 2 ^ b }

  min_ok : min_stack_size k m.sys ≡ ok (2 ^ b) paged
  unfolding min_stack_size
  min_ok = page_size-ok k b (asked (2 ^ b) n) m.sys v fits

  paged-IsFaithful : IsFaithful k b paged
  paged-IsFaithful = record { page = v.page; small = v.small; cached = inr refl }

  abbrev mapped_sys : SysState
  mapped_sys = with_events (settled k m.sys) (protected p (2 ^ b) ∷ mapped p bytes ∷ [])

  got : allocate k (asked (2 ^ b) n) true paged ≡ ok (success buf) mapped_sys
  got =
      allocate-mmap k b (asked (2 ^ b) n) paged paged-IsFaithful fits p in_limit maps in_space
        protects

  -- The memory once the stack is made.
  abbrev made : StackMemory
  made =
      Usage.fresh k n (2 ^ b) m buf paged mapped_sys min_ok got
        (Usage.track k n (2 ^ b) m buf paged mapped_sys min_ok got)

  made-cell : made.word (p + bytes - 8) ≡ 1
  made-cell = let e : get_offset (on buf) ≡ p + bytes - 8 = omega (arith, room) in ground arith

  unmaps :
      (w : ℕ → ℕ)
      → drop_stack k (on buf) (record { word = w; sys = mapped_sys })
        ≡ ok tt (record {
          word = w;
          sys =
              with_events
                (settled k m.sys)
                (unmapped p bytes ∷ protected p (2 ^ b) ∷ mapped p bytes ∷ []);
        })
  unmaps w =
      drop_stack-unmapped k b bytes p (record { word = w; sys = mapped_sys }) v.small v.page v.page
        (omega (arith, room)) in_space

  -- With a page of a power of two of bytes, up to 2^32, that is cached as it is if at all: if the
  -- size of the stack does not overflow, the total is within the limit, the kernel maps it at p, not
  -- below 32, within the address space and protects the lowest page, the words of the generator and
  -- of the closure are those of their layouts, the fields that init_code writes lie in the
  -- generator, f apart from the two that are written behind it, and there is room for the two, their
  -- headers and four words more, then create, which puts the two and the first call frame there,
  -- succeeds; then the words of the closure are where its data pointer points, f holds its Func, and
  -- each word of the generator that is in none of these fields is the one it is made of; the drop of
  -- what create returns, whether the closure has been dropped before or not, succeeds as well; of
  -- the kernel the two have asked for the mapping at p, its protection, and for exactly this mapping
  -- to be unmapped.
  pub discard-create :
      (x : ℕ × Func) × (m1 : StackMemory) × (create k n fs fn gen code m ≡ ok x m1)
      × (read_words (length code.words) x.1.data_ptr m1.word ≡ code.words)
      × (read_words 5 (x.0 + fs.f) m1.word ≡ func_fields fn x.1)
      × ((i v : ℕ)
          → get_elem? gen.words i ≡ some v
          → IsElsewhere fs (i * 8)
          → m1.word (x.0 + i * 8) ≡ v)
      × ((started : Bool)
          → (w : ℕ → ℕ) × (discard k started x m1
              ≡ ok tt (record {
                word = w;
                sys =
                    with_events
                      (settled k m.sys)
                      (unmapped p bytes ∷ protected p (2 ^ b) ∷ mapped p bytes ∷ []);
              })))
  unfolding create
  discard-create =
      let q : buf.bottom + (1 + gen_words gen + header_size + code_words gen code + header_size) * 8
          ≤ buf.top =
        omega (arith, room) in
      let o : buf.bottom ≤ buf.top = omega (arith, room) in
      let l : 32 ≤ buf.bottom = omega (arith, low) in
      (
        (
          Placed.gen_box fs fn gen code vg vc in_gen (on buf) made o in_space made-cell q l,
          Placed.code_func fs fn gen code vg vc in_gen (on buf) made o in_space made-cell q l,
        ),
        record made {
          word = Placed.framed fs fn gen code vg vc in_gen (on buf) made o in_space made-cell q l;
        },
        rw (
          Usage.new-fresh k n (2 ^ b) m buf paged mapped_sys min_ok got,
          Placed.new_box_lem fs fn gen code vg vc in_gen (on buf) made o in_space made-cell q l,
          Placed.installed fs fn gen code vg vc in_gen (on buf) made o in_space made-cell q l,
        ),
        Placed.closure_kept fs fn gen code vg vc in_gen (on buf) made o in_space made-cell q l,
        Placed.func_kept fs fn gen code vg vc in_gen (on buf) made o in_space made-cell q l,
        Placed.gen_kept fs fn gen code vg vc in_gen (on buf) made o in_space made-cell q l,
        Placed.dropped fs fn gen code vg vc in_gen (on buf) made o in_space made-cell q l k _
            unmaps,
      )
