-- ===== src/Stack/Boxes.antt =====
-- `StackBox` and `Func` of src/stack/mod.rs: allocation and drop.
use generator_rs.Base.{
  ℕ, ◌+◌, ◌-◌, ◌*◌, ◌≤◌, ◌<◌, ◌≡◌, ◌≢◌, ◌⊎◌, refl, ◌∙◌, inl, inr, List, length, add_word, arith,
  word_mod, sub_word, update, ==_refl,
}
use generator_rs.Panic.{ok}
use generator_rs.Stack.Words.{
  StackMemory, Stack, Layout, header_size, get_offset, end_at, data_size, new_uninit, get_header,
  new_fn_once, drop_func, Func, write_words, read_words, init,
}
use generator_rs.Stack.Layouts.{IsLayout, data_size_lem}
use generator_rs.Stack.Values.{write_words-out, read_words-write}

-- The stack lies in the address space, `offset` is in its last word, and `words` more words, and a
-- header, fit below what is in use.
pub record HasRoom (s : Stack) (m : StackMemory) (offset words : ℕ) : Type 0 where
  pub ordered : s.buf.bottom ≤ s.buf.top
  pub in_space : s.buf.top < word_mod
  pub cell : m.word (s.buf.top - 8) ≡ offset
  pub used : 0 < offset
  pub room : s.buf.bottom + (offset + words + header_size) * 8 ≤ s.buf.top

module _ (l : Layout) (s : Stack) (m : StackMemory) (offset : ℕ)
    (v : HasRoom s m offset (data_size l offset)) where
  -- The box, its header, and the words after the writes.
  abbrev pub box : ℕ
  box = s.buf.top - (offset + data_size l offset) * 8

  abbrev pub header_at : ℕ
  header_at = box - 32

  abbrev pub with_box : ℕ → ℕ → ℕ
  with_box need_drop =
      let c = s.buf.top - 8 in
      update
        (update
          (update
            (update
              (update (update m.word c (offset + data_size l offset)) c
                (offset + data_size l offset + header_size))
              (header_at + 16) (data_size l offset))
            (header_at + 24) need_drop)
          header_at s.buf.top)
        (header_at + 8) s.buf.bottom

  pub cell_lem : get_offset s ≡ s.buf.top - 8
  cell_lem = omega (arith, v)

  end_at-box : end_at s (offset + data_size l offset) ≡ box
  unfolding end_at
  end_at-box = omega (arith, v)

  pub end_at-header : end_at s (offset + data_size l offset + header_size) ≡ header_at
  unfolding end_at
  end_at-header = omega (arith, v)

  pub new_uninit-box :
      (need_drop : ℕ) → new_uninit l s need_drop m ≡ ok box (record m { word = with_box need_drop })
  unfolding new_uninit
  new_uninit-box need_drop =
      let first : add_word offset (data_size l offset) ≡ offset + data_size l offset =
        omega (arith, v) in
      let second : add_word (offset + data_size l offset) header_size
          ≡ offset + data_size l offset + header_size =
        omega (arith, v) in
      rw (cell_lem, v.cell, first, ==_refl (s.buf.top - 8), second, end_at-box, end_at-header)

  -- What the header says is found again at the box.
  pub get_header-box :
      (need_drop : ℕ)
      → let m' = record m { word = with_box need_drop } in
        get_header box m'
        ≡ ok (record { stack = s; data_size = data_size l offset; need_drop = need_drop }) m'
  unfolding get_header
  get_header-box need_drop =
      let h : sub_word box (header_size * 8) ≡ header_at = omega (arith, v) in rw h (ground arith)

  -- So it is while the header keeps its words.
  pub get_header-kept :
      (need_drop : ℕ) (m' : StackMemory)
      → ((a : ℕ) → header_at ≤ a → a < box → m'.word a ≡ with_box need_drop a)
      → get_header box m'
        ≡ ok (record { stack = s; data_size = data_size l offset; need_drop = need_drop }) m'
  unfolding get_header
  get_header-kept need_drop m' same =
      let h : sub_word box (header_size * 8) ≡ header_at = omega (arith, v) in
      rw
        (
          h,
          same header_at (omega arith) (omega (arith, v)),
          same (header_at + 8) (omega arith) (omega (arith, v)),
          same (header_at + 16) (omega arith) (omega (arith, v)),
          same (header_at + 24) (omega arith) (omega (arith, v)),
        )
        (ground arith)

  pub offset-box :
      (need_drop : ℕ)
      → with_box need_drop (s.buf.top - 8) ≡ offset + data_size l offset + header_size
  offset-box need_drop = ground arith

  pub given_back :
      sub_word (offset + data_size l offset + header_size) (data_size l offset + header_size)
      ≡ offset
  given_back = omega (arith, v)

  -- The offset, and the words of the box's header, are all that `new_uninit` writes.
  pub with_box-same :
      (need_drop a : ℕ)
      → (a < header_at) ⊎ (box ≤ a)
      → a ≢ s.buf.top - 8
      → with_box need_drop a ≡ m.word a
  with_box-same need_drop a out ne = ground arith

  -- The closure on the stack.
  abbrev pub func : Func
  func = record { data_ptr = box; words = data_size l offset + header_size; offset = s.buf.top - 8 }

  -- The words once the closure has been moved into the box, and once it has been dropped.
  abbrev pub with_closure : List ℕ → ℕ → ℕ
  with_closure xs = write_words xs box (with_box 0)

  abbrev after_drop : List ℕ → ℕ → ℕ
  after_drop xs = update (with_closure xs) (s.buf.top - 8) offset

  -- A value of the layout, in words.
  module _ (xs : List ℕ) (al : ℕ) (layout : IsLayout l al)
      (whole : length xs * 8 < l.bytes + 8) where
    holds : length xs ≤ data_size l offset
    holds = let r = data_size_lem l al offset layout in omega arith

    pub closure-same :
        (a : ℕ) → (a < box) ⊎ (s.buf.top - offset * 8 ≤ a) → with_closure xs a ≡ with_box 0 a
    closure-same a (inl b) = write_words-out xs box (with_box 0) a (inl b)
    closure-same a (inr b) = write_words-out xs box (with_box 0) a (inr (omega (arith, v, holds)))

    pub new_fn_once-func : new_fn_once l xs s m ≡ ok func (record m { word = with_closure xs })
    unfolding new_fn_once init
    new_fn_once-func = rw (
      new_uninit-box 0,
      init,
      get_header-kept 0 (record m { word = with_closure xs }) (λ a b h. closure-same a (inl h)),
      cell_lem,
    )

    pub closure-cell : with_closure xs (s.buf.top - 8) ≡ offset + data_size l offset + header_size
    closure-cell = closure-same (s.buf.top - 8) (inr (omega (arith, v))) ∙ offset-box 0

    drop_func-func :
        drop_func func (record m { word = with_closure xs })
        ≡ ok tt (record m { word = after_drop xs })
    unfolding drop_func
    drop_func-func = rw (closure-cell, given_back)

    after_drop-same :
        (a : ℕ) → (a < header_at) ⊎ (s.buf.top - offset * 8 ≤ a) → after_drop xs a ≡ m.word a
    after_drop-same a out =
        let o : (a < box) ⊎ (s.buf.top - offset * 8 ≤ a) = omega (arith, out) in
        let o' : (a < header_at) ⊎ (box ≤ a) = omega (arith, out, v) in
        let e = closure-same a o in let f = with_box-same 0 a o' in let c = v.cell in ground arith

    -- On a stack with room, a closure, of an alignment of a power of two, up to 2^32, fewer than
    -- 2^62 bytes, and as many words as hold them, that is moved onto the stack lies there word for
    -- word, and when it is dropped, the offset is as it was, and no word that was in use, and none
    -- below the closure and its header, has changed.
    pub drop_func-new_fn_once :
        (f : Func) × (m1 m2 : StackMemory) × (new_fn_once l xs s m ≡ ok f m1)
        × (read_words (length xs) f.data_ptr m1.word ≡ xs)
        × (drop_func f m1 ≡ ok tt m2)
        × (m2.sys ≡ m.sys)
        × ((a : ℕ) → (a < header_at) ⊎ (s.buf.top - offset * 8 ≤ a) → m2.word a ≡ m.word a)
    drop_func-new_fn_once = (
      func,
      record m { word = with_closure xs },
      record m { word = after_drop xs },
      new_fn_once-func,
      read_words-write xs box (with_box 0),
      drop_func-func,
      refl,
      after_drop-same,
    )
