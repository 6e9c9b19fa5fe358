-- ===== src/Stack/Placed.antt =====
-- The memory of a new generator, as Stack/Placement.antt fills it and gives it back.
use generator_rs.Base.{
  ℕ, ◌+◌, ◌-◌, ◌*◌, ◌≤◌, ◌<◌, ◌≡◌, ◌≢◌, refl, ◌∙◌, Bool, true, false, arith, word_mod, sub_word,
  update, inl, inr, List, [], ◌∷◌, ◌⊎◌, length, some,
}
use generator_rs.Panic.{M, ok, pure}
use generator_rs.Stack.Sys.{Kernel, SysState}
use generator_rs.Stack.Words.{
  StackMemory, Stack, header_size, data_size, Func, new_fn_once, drop_func, drop_box, drop_stack,
  end_at, init, write_words, read_words,
}
use generator_rs.Regs.Machine.{initialize_call_frame}
use generator_rs.Regs.Switch.{initialize_call_frame-kept}
use generator_rs.Stack.Boxes
use generator_rs.Stack.Boxes.{HasRoom}
use generator_rs.Stack.Values.{
  IsValue, Fits, IsElsewhere, IsApart, get_elem?, write_words-out, write_words-get,
  read_words-write, read_words-same,
}
use generator_rs.Stack.Layouts.{data_size_lem}
use generator_rs.Stack.Placement.{
  Fields, Functions, Value, init_with, func_fields, fill_in, install, new_box, discard,
}

-- The words of the two values.
abbrev pub gen_words : Value → ℕ
gen_words gen = data_size gen.layout 1

abbrev pub code_words : (gen code : Value) → ℕ
code_words gen code = data_size code.layout (1 + gen_words gen + header_size)

module _ (fs : Fields) (fn : Functions) (gen code : Value) (vg : IsValue gen) (vc : IsValue code)
    (in_gen : Fits fs gen) (s : Stack) (m : StackMemory) (ordered : s.buf.bottom ≤ s.buf.top)
    (in_space : s.buf.top < word_mod) (cell : m.word (s.buf.top - 8) ≡ 1)
    (room : s.buf.bottom + (1 + gen_words gen + header_size + code_words gen code + header_size) * 8
      ≤ s.buf.top)
    (low : 32 ≤ s.buf.bottom) where
  gen_bytes : gen.layout.bytes ≤ gen_words gen * 8
  gen_bytes = (data_size_lem gen.layout vg.power 1 vg.layout).0

  pub gen_room : HasRoom s m 1 (gen_words gen)
  gen_room = record {
    ordered = ordered;
    in_space = in_space;
    cell = cell;
    used = omega arith;
    room = omega (arith, room);
  }

  abbrev pub gen_box : ℕ
  gen_box = Boxes.box gen.layout s m 1 gen_room

  abbrev cell_at : ℕ
  cell_at = s.buf.top - 8

  abbrev at_words : (ℕ → ℕ) → StackMemory
  at_words w = record m { word = w }

  apart-field :
      (field n i : ℕ)
      → IsApart field n (i * 8)
      → (gen_box + i * 8 < gen_box + field) ⊎ (gen_box + field + n * 8 ≤ gen_box + i * 8)
  apart-field field n i (inl l) = inl (omega (arith, l))
  apart-field field n i (inr l) = inr (omega (arith, l))

  apart-f :
      (field n a : ℕ)
      → gen_box + fs.f ≤ a
      → a < gen_box + fs.f + 40
      → (fs.f + 40 ≤ field) ⊎ (field + n ≤ fs.f)
      → (a < gen_box + field) ⊎ (gen_box + field + n ≤ a)
  apart-f field n a l h (inl b) = inl (omega (arith, b))
  apart-f field n a l h (inr b) = inr (omega (arith, b))

  -- Not in the generator's value.
  abbrev Outer : ℕ → Type 0
  Outer a = (a < gen_box) ⊎ (cell_at ≤ a)

  field-same :
      (off : ℕ) (xs : List ℕ) (w : ℕ → ℕ) (a : ℕ)
      → off + length xs * 8 ≤ gen_words gen * 8
      → Outer a
      → write_words xs (gen_box + off) w a ≡ w a
  field-same off xs w a h (inl l) = write_words-out xs (gen_box + off) w a (inl (omega arith))
  field-same off xs w a h (inr l) =
      write_words-out xs (gen_box + off) w a (inr (omega (arith, room)))

  -- The words once the generator's value is in its box, and once `parent` and `_ref` are written.
  abbrev with_value : ℕ → ℕ
  with_value = write_words gen.words gen_box (Boxes.with_box gen.layout s m 1 gen_room 1)

  abbrev with_parent : ℕ → ℕ
  with_parent = write_words (gen_box ∷ []) (gen_box + fs.parent) with_value

  abbrev pub with_gen : StackMemory
  with_gen = at_words (write_words (0 ∷ []) (gen_box + fs.count) with_parent)

  value-same : (a : ℕ) → Outer a → with_value a ≡ Boxes.with_box gen.layout s m 1 gen_room 1 a
  value-same a (inl l) =
      write_words-out gen.words gen_box (Boxes.with_box gen.layout s m 1 gen_room 1) a (inl l)
  value-same a (inr l) =
      write_words-out gen.words gen_box (Boxes.with_box gen.layout s m 1 gen_room 1) a
        (inr (omega (arith, room, gen_bytes, vg.whole)))

  gen-same : (a : ℕ) → Outer a → with_gen.word a ≡ Boxes.with_box gen.layout s m 1 gen_room 1 a
  gen-same a o =
      field-same fs.count (0 ∷ []) with_parent a (omega (arith, gen_bytes, in_gen.count)) o
      ∙ field-same fs.parent (gen_box ∷ []) with_value a (omega (arith, gen_bytes, in_gen.parent)) o
      ∙ value-same a o

  pub code_room : HasRoom s with_gen (1 + gen_words gen + header_size) (code_words gen code)
  code_room = record {
    ordered = ordered;
    in_space = in_space;
    cell = gen-same cell_at (inr (omega arith)) ∙ Boxes.offset-box gen.layout s m 1 gen_room 1;
    used = omega arith;
    room = omega (arith, room);
  }

  abbrev pub code_func : Func
  code_func = Boxes.func code.layout s with_gen (1 + gen_words gen + header_size) code_room

  abbrev pub with_code : ℕ → ℕ
  with_code =
      Boxes.with_closure code.layout s with_gen (1 + gen_words gen + header_size) code_room
        code.words

  closure_made : new_fn_once code.layout code.words s with_gen ≡ ok code_func (at_words with_code)
  closure_made =
      Boxes.new_fn_once-func code.layout s with_gen (1 + gen_words gen + header_size) code_room
        code.words vc.power vc.layout vc.whole

  abbrev last_end : ℕ
  last_end = Boxes.header_at code.layout s with_gen (1 + gen_words gen + header_size) code_room

  code-cell :
      with_code cell_at ≡ 1 + gen_words gen + header_size + code_words gen code + header_size
  code-cell =
      Boxes.closure-cell code.layout s with_gen (1 + gen_words gen + header_size) code_room
        code.words vc.power vc.layout vc.whole

  -- `f` and `stack_guard` written, and the call frame.
  abbrev with_f : ℕ → ℕ
  with_f = write_words (func_fields fn code_func) (gen_box + fs.f) with_code

  abbrev with_guard : ℕ → ℕ
  with_guard = write_words (s.buf.bottom ∷ last_end ∷ []) (gen_box + fs.guard) with_f

  abbrev pub framed : ℕ → ℕ
  framed =
      initialize_call_frame (gen_box + fs.regs) fn.gen_init 0 (gen_box + fs.f) last_end fn.bootstrap
        with_guard

  f-same : (a : ℕ) → Outer a → with_f a ≡ with_code a
  f-same a o =
      field-same fs.f (func_fields fn code_func) with_code a (omega (arith, gen_bytes, in_gen.f)) o

  guard-same : (a : ℕ) → Outer a → with_guard a ≡ with_code a
  guard-same a o =
      field-same fs.guard (s.buf.bottom ∷ last_end ∷ []) with_f a
        (omega (arith, gen_bytes, in_gen.guard)) o
      ∙ f-same a o

  ends : end_at s (1 + gen_words gen + header_size + code_words gen code + header_size) ≡ last_end
  ends = Boxes.end_at-header code.layout s with_gen (1 + gen_words gen + header_size) code_room

  framed_lem :
      (w : ℕ → ℕ)
      → w cell_at ≡ with_code cell_at
      → init_with (gen_box + fs.regs) fn.gen_init 0 (gen_box + fs.f) fn.bootstrap s (at_words w)
        ≡ ok tt (
            at_words (
              initialize_call_frame
                (gen_box + fs.regs)
                fn.gen_init
                0
                (gen_box + fs.f)
                last_end
                fn.bootstrap
                w))
  unfolding init_with
  framed_lem w e = rw (Boxes.cell_lem gen.layout s m 1 gen_room, e ∙ code-cell, ends)

  filled_in :
      fill_in fs fn gen_box s code_func (at_words with_code) ≡ ok code_func (at_words framed)
  unfolding fill_in init
  filled_in = rw (
    Boxes.cell_lem gen.layout s m 1 gen_room,
    f-same cell_at (inr (omega arith)) ∙ code-cell,
    ends,
    framed_lem with_guard (guard-same cell_at (inr (omega arith))),
  )

  pub installed :
      install fs fn code gen_box s (at_words with_value) ≡ ok code_func (at_words framed)
  unfolding install init
  installed = rw (closure_made, filled_in)

  pub new_box_lem : new_box gen s m ≡ ok gen_box (at_words with_value)
  unfolding new_box init
  new_box_lem = rw (Boxes.new_uninit-box gen.layout s m 1 gen_room 1)

  framed-same : (a : ℕ) → last_end ≤ a → a < gen_box → framed a ≡ with_code a
  framed-same a l h =
      initialize_call_frame-kept with_guard (gen_box + fs.regs) fn.gen_init 0 (gen_box + fs.f)
        last_end fn.bootstrap a (omega (arith, low, room)) (omega (arith, room, in_space)) l
        (inl (omega arith))
      ∙ guard-same a (inl h)

  -- The closure lies on the stack word for word, whatever has been written since.
  pub closure_kept : read_words (length code.words) code_func.data_ptr framed ≡ code.words
  closure_kept =
      let r = data_size_lem code.layout vc.power (1 + gen_words gen + header_size) vc.layout in
      read_words-same (length code.words) code_func.data_ptr with_code framed
        (λ a l h. framed-same a (omega (arith, room)) (omega (arith, room, r.0, vc.whole)))
      ∙ read_words-write code.words code_func.data_ptr _

  -- A word of the generator that is not in those fields is the one that it is made of.
  pub gen_kept :
      (i v : ℕ)
      → get_elem? gen.words i ≡ some v
      → IsElsewhere fs (i * 8)
      → framed (gen_box + i * 8) ≡ v
  gen_kept i v e out =
      let a = gen_box + i * 8 in
      let (inside, there) =
        write_words-get gen.words gen_box i v (Boxes.with_box gen.layout s m 1 gen_room 1) e in
      let n : i * 8 + 8 ≤ gen_words gen * 8 = omega (arith, gen_bytes, vg.whole) in
      initialize_call_frame-kept with_guard (gen_box + fs.regs) fn.gen_init 0 (gen_box + fs.f)
        last_end fn.bootstrap a (omega (arith, low, room)) (omega (arith, room, in_space))
        (omega (arith, room)) (apart-field fs.regs 8 i out.regs)
      ∙ write_words-out (s.buf.bottom ∷ last_end ∷ []) (gen_box + fs.guard) with_f a
          (apart-field fs.guard 2 i out.guard)
      ∙ write_words-out (func_fields fn code_func) (gen_box + fs.f) with_code a
          (apart-field fs.f 5 i out.f)
      ∙ Boxes.closure-same code.layout s with_gen (1 + gen_words gen + header_size) code_room
          code.words vc.power vc.layout vc.whole a (inr (omega (arith, room)))
      ∙ Boxes.with_box-same code.layout s with_gen (1 + gen_words gen + header_size) code_room 0 a
          (inr (omega (arith, room))) (omega (arith, room))
      ∙ write_words-out (0 ∷ []) (gen_box + fs.count) with_parent a
          (apart-field fs.count 1 i out.count)
      ∙ write_words-out (gen_box ∷ []) (gen_box + fs.parent) with_value a
          (apart-field fs.parent 1 i out.parent)
      ∙ there

  -- `f` holds the closure's `Func`.
  pub func_kept : read_words 5 (gen_box + fs.f) framed ≡ func_fields fn code_func
  func_kept =
      read_words-same 5 (gen_box + fs.f) with_f framed (λ a l h.
        initialize_call_frame-kept with_guard (gen_box + fs.regs) fn.gen_init 0 (gen_box + fs.f)
          last_end fn.bootstrap a (omega (arith, low, room)) (omega (arith, room, in_space))
          (omega (arith, room)) (apart-f fs.regs 64 a l h in_gen.f_regs)
        ∙ write_words-out (s.buf.bottom ∷ last_end ∷ []) (gen_box + fs.guard) with_f a
            (apart-f fs.guard 16 a l h in_gen.f_guard))
      ∙ read_words-write (func_fields fn code_func) (gen_box + fs.f) with_code

  -- The generator's header.
  header_kept :
      (a : ℕ)
      → gen_box - 32 ≤ a
      → a < gen_box
      → framed a ≡ Boxes.with_box gen.layout s m 1 gen_room 1 a
  header_kept a l h =
      framed-same a (omega (arith, room)) h
      ∙ Boxes.closure-same code.layout s with_gen (1 + gen_words gen + header_size) code_room
          code.words vc.power vc.layout vc.whole a (inr (omega (arith, room)))
      ∙ Boxes.with_box-same code.layout s with_gen (1 + gen_words gen + header_size) code_room 0 a
          (inr (omega (arith, room))) (omega (arith, room))
      ∙ gen-same a (inl h)

  -- The offset given back, by the closure and by the generator.
  abbrev given : ℕ → (ℕ → ℕ) → ℕ → ℕ
  given words w = update w cell_at (sub_word (w cell_at) words)

  abbrev func_words : ℕ
  func_words = code_words gen code + header_size

  abbrev box_words : ℕ
  box_words = gen_words gen + header_size

  func-dropped :
      (w : ℕ → ℕ) → drop_func code_func (at_words w) ≡ ok tt (at_words (given func_words w))
  unfolding drop_func
  func-dropped w = refl

  module _ (k : Kernel) (t : SysState)
      (give : (w : ℕ → ℕ)
        → drop_stack k s (at_words w) ≡ ok tt (record { word = w; sys = t })) where
    box-dropped :
        (value : M StackMemory (Unit {0})) (w x : ℕ → ℕ)
        → ((a : ℕ) → gen_box - 32 ≤ a → a < gen_box → w a ≡ framed a)
        → value (at_words (given box_words w)) ≡ ok tt (at_words x)
        → drop_box k value gen_box (at_words w) ≡ ok tt (record { word = x; sys = t })
    unfolding drop_box
    box-dropped value w x same e = rw (
      Boxes.get_header-kept gen.layout s m 1 gen_room 1 (at_words w)
          (λ a l h. same a l h ∙ header_kept a l h),
      Boxes.cell_lem gen.layout s m 1 gen_room,
      e,
      give,
    )

    -- Whether the closure is dropped before the generator or with it, the stack is given back.
    pub dropped :
        (started : Bool)
        → (w : ℕ → ℕ) × (discard k started (gen_box, code_func) (at_words framed)
            ≡ ok tt (record { word = w; sys = t }))
    unfolding discard
    dropped true = (
      given box_words (given func_words framed),
      rw (func-dropped framed) (
          box-dropped (pure tt) (given func_words framed)
            (given box_words (given func_words framed)) given-same refl),
    )
      where
        given-same : (a : ℕ) → gen_box - 32 ≤ a → a < gen_box → given func_words framed a ≡ framed a
        given-same a l h = let ne : a ≢ cell_at = omega (arith, room) in ground arith
    dropped false = (
      given func_words (given box_words framed),
      box-dropped (drop_func code_func) framed (given func_words (given box_words framed))
          (λ a l h. refl) (func-dropped _),
    )
