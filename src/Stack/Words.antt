-- ===== src/Stack/Words.antt =====
-- src/stack/mod.rs: `Stack`, `StackBox`, `StackBoxHeader` and `Func`, over the words of the memory.
--
-- An address counts bytes, `word` holds the `usize` at an address, and a word has 8 bytes. A stack
-- grows down from `top`; its last word holds the offset, the number of words in use there. What is
-- moved into a box is given by its words.
use Prim.Native.Nat.{bit_and}
use generator_rs.Base.{
  ℕ, zero, suc, ◌+◌, ◌-◌, ◌*◌, ◌/◌, ◌%◌, not, Option, none, some, List, [], ◌∷◌, ◌==◌, true,
  if◌then◌else◌, word_mod, add_word, sub_word, update, max,
}
use generator_rs.Base.Bits.{bit_not}
use generator_rs.Panic.{M, text, unwrap_none, ok, panic, fault, throw, pure, ◌>>=◌, ◌>>◌}
use generator_rs.Stack.Sys.{
  Kernel, SysState, SysStack, success, failure, len, page_size, min_stack_size, allocate,
  deallocate_stack,
}

-- The words, and the kernel's side.
pub record StackMemory : Type 0 where
  pub word : ℕ → ℕ
  pub sys : SysState

pub record Stack : Type 0 where
  pub buf : SysStack

abbrev pub word_size : ℕ
word_size = 8

-- Four words: the stack's two ends, `data_size` and `need_drop`.
abbrev pub header_size : ℕ
header_size = 4

-- `ALIGN`, `size_of::<StackBoxHeader>()`.
abbrev pub min_align : ℕ
min_align = header_size * word_size

abbrev pub read : ℕ → M StackMemory ℕ
read a m = ok (m.word a) m

abbrev pub write : ℕ → ℕ → M StackMemory (Unit {0})
write a v m = ok tt (record m { word = update m.word a v })

-- An operation on the kernel's side.
abbrev pub lift : {A : Type 0} → M SysState A → M StackMemory A
lift f m = elim (f m.sys) [
  | ok a s ↦ ok a (record m { sys = s })
  | panic e s ↦ panic e (record m { sys = s })
  | fault ↦ fault
]

-- `Stack::size`, in words.
abbrev pub size : Stack → ℕ
size s = len s.buf / word_size

-- `Stack::get_offset`, an address.
abbrev pub get_offset : Stack → ℕ
get_offset s = sub_word s.buf.top word_size

-- `Stack::end`: `top.offset(0 - *offset as isize)`
unfoldable pub end_at : Stack → (offset : ℕ) → ℕ
end_at s offset = sub_word s.buf.top ((offset * word_size) % word_mod)

abbrev pub stack_end : Stack → M StackMemory ℕ
stack_end s = do offset ← read (get_offset s); pure (end_at s offset)

abbrev pub begin : Stack → ℕ
begin s = s.buf.bottom

abbrev pub shadow_clone : Stack → Stack
shadow_clone s = s

-- The `std::alloc::Layout` of a type.
pub record Layout : Type 0 where
  pub bytes : ℕ
  pub align : ℕ

-- `data_size` of `new_uninit`: the words of the value, with padding up to its alignment.
unfoldable pub data_size : Layout → (offset : ℕ) → ℕ
data_size l offset =
    let align = max l.align min_align in
    let size = bit_and (sub_word (add_word l.bytes align) 1) (bit_not (align - 1)) / word_size in
    let u_align = align / word_size in size + (u_align - (offset + size) % u_align)

-- `StackBox::new_uninit`; the box is its address.
unfoldable pub new_uninit : Layout → Stack → (need_drop : ℕ) → M StackMemory ℕ
new_uninit l stack need_drop = do
  let cell = get_offset stack
  offset ← read cell
  let words = data_size l offset
  write cell (add_word offset words)
  ptr ← stack_end stack
  offset' ← read cell
  write cell (add_word offset' header_size)
  header ← stack_end stack
  write (header + 2 * word_size) words
  write (header + 3 * word_size) need_drop
  write header (shadow_clone stack).buf.top
  write (header + word_size) (shadow_clone stack).buf.bottom
  pure ptr

pub record Header : Type 0 where
  pub stack : Stack
  pub data_size : ℕ
  pub need_drop : ℕ

-- `StackBox::get_header`
unfoldable pub get_header : ℕ → M StackMemory Header
get_header ptr = do
  let h = sub_word ptr (header_size * word_size)
  top ← read h
  bottom ← read (h + word_size)
  words ← read (h + 2 * word_size)
  need ← read (h + 3 * word_size)
  pure (record {
    stack = record { buf = record { top = top; bottom = bottom } };
    data_size = words;
    need_drop = need;
  })

-- `StackBox::init`, `ptr::write` of a value: it is given by its words. What a last word has above the
-- value's bytes is padding of the box.
abbrev pub write_words : List ℕ → ℕ → (ℕ → ℕ) → (ℕ → ℕ)
write_words [] ptr w = w
write_words (x ∷ xs) ptr w = write_words xs (ptr + word_size) (update w ptr x)

unfoldable pub init : ℕ → List ℕ → M StackMemory (Unit {0})
init ptr value m = ok tt (record m { word = write_words value ptr m.word })

-- `data.read()` of `StackBox::call_once`, of `n` words.
abbrev pub read_words : ℕ → ℕ → (ℕ → ℕ) → List ℕ
read_words zero ptr w = []
read_words (suc n) ptr w = w ptr ∷ read_words n (ptr + word_size) w

-- `Stack::drop_stack`
unfoldable pub drop_stack : Kernel → Stack → M StackMemory (Unit {0})
unfolding page_size deallocate_stack
drop_stack k s = if len s.buf == 0 then pure tt else (do
  page ← lift (page_size k)
  lift (deallocate_stack (sub_word s.buf.bottom page) (add_word (len s.buf) page)))

-- `Drop for StackBox`, with the `drop_in_place` of its value.
unfoldable pub drop_box :
    Kernel → (drop_in_place : M StackMemory (Unit {0})) → ℕ → M StackMemory (Unit {0})
drop_box k drop_in_place ptr = do
  header ← get_header ptr
  let cell = get_offset header.stack
  offset ← read cell
  write cell (sub_word offset (header.data_size + header_size))
  drop_in_place
  if header.need_drop == 0 then pure tt else drop_stack k header.stack

-- `Func`: `data` is null once it has been called.
pub record Func : Type 0 where
  pub data_ptr : ℕ
  pub words : ℕ
  pub offset : ℕ

-- `StackBox::new_fn_once`
unfoldable pub new_fn_once : Layout → (closure : List ℕ) → Stack → M StackMemory Func
new_fn_once l closure stack = do
  d ← new_uninit l stack 0
  init d closure
  header ← get_header d
  pure (record { data_ptr = d; words = header.data_size + header_size; offset = get_offset stack })

-- `Drop for Func`; the call of its `drop` function is the closure's own.
unfoldable pub drop_func : Func → M StackMemory (Unit {0})
drop_func f = do offset ← read f.offset; write f.offset (sub_word offset f.words)

-- `ptr::write_bytes(buf, 0xEE, count)`
abbrev pub magic : ℕ
magic = 0xEEEE_EEEE_EEEE_EEEE

unfoldable pub fill : ℕ → ℕ → (ℕ → ℕ) → ℕ → ℕ
fill zero a w = w
fill (suc n) a w = fill n (a + word_size) (update w a magic)

abbrev pub on : SysStack → Stack
on b = record { buf = b }

-- `Stack::new`
unfoldable pub new : Kernel → ℕ → M StackMemory Stack
new k n = do
  let track = not (n % 2 == 0)
  least ← lift (min_stack_size k)
  buf ← lift (allocate k (max ((n * word_size) % word_mod) least) true)
  elim buf [
    | failure e ↦ throw (text unwrap_none)
    | success b ↦ (do
      let stk = on b
      λ m. ok tt (record m { word = fill (if track then size stk else 8) b.bottom m.word })
      write (get_offset stk) 1
      pure stk)
  ]

-- The loop of `Stack::get_used_size`; `none` is out of fuel.
unfoldable pub count_magic : ℕ → ℕ → (ℕ → ℕ) → Option ℕ
count_magic zero a w = none
count_magic (suc fuel) a w =
    let rest = count_magic fuel (a + word_size) w in
    if w a == magic then elim rest [ none ↦ none | some n ↦ some (suc n) ] else some 0

-- `Stack::get_used_size`
unfoldable pub get_used_size : ℕ → Stack → StackMemory → Option ℕ
unfolding count_magic
get_used_size fuel s m = elim (count_magic fuel s.buf.bottom m.word) [
  | none ↦ none
  | some n ↦ some (sub_word (size s) n)
]
