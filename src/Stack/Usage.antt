-- ===== src/Stack/Usage.antt =====
-- `Stack::get_used_size` of src/stack/mod.rs: the scan for the first word that has been written.
use generator_rs.Base.{
  ℕ, zero, suc, ◌+◌, ◌-◌, ◌*◌, ◌%◌, ◌≤◌, ◌<◌, ◌≡◌, ◌≢◌, refl, ap, sym, ◌∙◌, update, Bool, true,
  false, some, arith, ◌==◌, if◌then◌else◌, not, max, word_mod, sub_word,
}
use generator_rs.Panic.{ok, M}
use generator_rs.Stack.Sys.{Kernel, SysState, SysStack, success, min_stack_size, allocate}
use generator_rs.Stack.Words.{
  lift, new, on, get_offset, StackMemory, Stack, size, word_size, magic, fill, count_magic,
  get_used_size,
}

-- The words from `a` on, for `n` words, hold the magic value, and the next does not.
pub record IsClean (w : ℕ → ℕ) (a n : ℕ) : Type 0 where
  pub clean : (i : ℕ) → i < n → w (a + i * 8) ≡ magic
  pub dirty : w (a + n * 8) ≢ magic

count_magic-clean :
    (fuel a n : ℕ) (w : ℕ → ℕ) → n < fuel → IsClean w a n → count_magic fuel a w ≡ some n
unfolding count_magic
count_magic-clean zero a n w h c = absurd (omega arith)
count_magic-clean (suc fuel) a zero w h c =
    let e : a + 0 * 8 ≡ a = omega arith in ground (arith, c.dirty, ap w e)
count_magic-clean (suc fuel) a (suc n) w h c =
    let e : a + 0 * 8 ≡ a = omega arith in
    let first : w a ≡ magic = (rw e at (c.clean 0 (omega arith))) in
    let rest = count_magic-clean fuel (a + 8) n w (omega arith) (record {
      clean = λ i l. ap w (shift i) ∙ c.clean (suc i) (omega arith);
      dirty = λ z. c.dirty (sym (ap w (shift n)) ∙ z);
    }) in
    rw first (rw rest)
  where
    shift : (i : ℕ) → a + 8 + i * 8 ≡ a + suc i * 8
    shift i = omega arith

-- If the lowest n words of a stack, no more than it has, hold the magic value and the next does not,
-- get_used_size ends with more than n rounds of fuel and gives the words of the stack less n.
pub get_used_size_lem :
    (fuel n : ℕ) (s : Stack) (m : StackMemory)
    → n < fuel
    → n ≤ size s
    → IsClean m.word s.buf.bottom n
    → get_used_size fuel s m ≡ some (sub_word (size s) n)
unfolding get_used_size
get_used_size_lem fuel n s m h l c =
    rw (count_magic-clean fuel s.buf.bottom n m.word h c, get_used_size)

-- `write_bytes` in `Stack::new`.
fill-lt : (n a x : ℕ) (w : ℕ → ℕ) → x < a → fill n a w x ≡ w x
unfolding fill
fill-lt zero a x w h = refl
fill-lt (suc n) a x w h = fill-lt n (a + 8) x (update w a magic) (omega arith) ∙ ground arith

fill-ge : (n a x : ℕ) (w : ℕ → ℕ) → a + n * 8 ≤ x → fill n a w x ≡ w x
unfolding fill
fill-ge zero a x w h = refl
fill-ge (suc n) a x w h = fill-ge n (a + 8) x (update w a magic) (omega arith) ∙ ground arith

fill-magic : (n a i : ℕ) (w : ℕ → ℕ) → i < n → fill n a w (a + i * 8) ≡ magic
unfolding fill
fill-magic zero a i w h = absurd (omega arith)
fill-magic (suc n) a zero w h =
    fill-lt n (a + 8) (a + 0 * 8) (update w a magic) (omega arith) ∙ ground arith
fill-magic (suc n) a (suc i) w h =
    ap (fill n (a + 8) (update w a magic)) (shift)
    ∙ fill-magic n (a + 8) i (update w a magic) (omega arith)
  where
    shift : a + suc i * 8 ≡ a + 8 + i * 8
    shift = omega arith

pub lift-ok :
    {A : Type 0} (f : M SysState A) (m : StackMemory) {a : A} {s : SysState}
    → f m.sys ≡ ok a s
    → lift f m ≡ ok a (record m { sys = s })
lift-ok f m e = rw (e, lift)

-- `Stack::new` once its stack is allocated, below of `cap` words.
module _ (k : Kernel) (n least : ℕ) (m : StackMemory) (b : SysStack) (s1 s2 : SysState)
    (min_ok : min_stack_size k m.sys ≡ ok least s1)
    (got : allocate k (max ((n * word_size) % word_mod) least) true s1 ≡ ok (success b) s2) where
  -- The memory after it: the whole stack marked if `n` is odd, else eight words, and one word used.
  abbrev pub fresh : Bool → StackMemory
  fresh track = record {
    word = update (fill (if track then size (on b) else 8) b.bottom m.word) (get_offset (on b)) 1;
    sys = s2;
  }

  abbrev pub track : Bool
  track = not (n % 2 == 0)

  pub new-fresh : new k n m ≡ ok (on b) (fresh track)
  unfolding new
  new-fresh = rw (
    lift-ok (min_stack_size k) m min_ok,
    lift-ok (allocate k (max ((n * word_size) % word_mod) least) true) (record m { sys = s1 }) got,
  )

  module _ (cap : ℕ) (ends : b.top ≡ b.bottom + cap * 8) (in_space : b.top < word_mod)
      (large : 9 < cap) where
    size_lem : size (on b) ≡ cap
    size_lem = omega (arith, ends, in_space)

    cell_lem : get_offset (on b) ≡ b.bottom + (cap - 1) * 8
    cell_lem = omega (arith, ends, in_space, large)

    abbrev marked : ℕ → ℕ → ℕ
    marked c = update (fill c b.bottom m.word) (b.bottom + (cap - 1) * 8) 1

    marked-all : IsClean (marked cap) b.bottom (cap - 1)
    marked-all = record {
      clean = λ i l. ground (arith, fill-magic cap b.bottom i m.word (omega (arith, large)));
      dirty = ground arith;
    }

    marked-eight : m.word (b.bottom + 8 * 8) ≢ magic → IsClean (marked 8) b.bottom 8
    marked-eight d = record {
      clean = λ i l. ground (arith, large, fill-magic 8 b.bottom i m.word l);
      dirty = ground (arith, large, fill-ge 8 b.bottom (b.bottom + 8 * 8) m.word);
    }

    used-odd :
        (fuel : ℕ) (w : ℕ → ℕ)
        → cap < fuel
        → w ≡ marked cap
        → get_used_size fuel (on b) (record { word = w; sys = s2 }) ≡ some 1
    used-odd fuel w f e = rw e (
        get_used_size_lem fuel (cap - 1) (on b) (record { word = marked cap; sys = s2 })
          (omega arith) (omega (arith, size_lem)) marked-all
        ∙ ap some (omega (arith, size_lem, large)))

    used-even :
        (fuel : ℕ) (w : ℕ → ℕ)
        → cap < fuel
        → m.word (b.bottom + 8 * 8) ≢ magic
        → w ≡ marked 8
        → get_used_size fuel (on b) (record { word = w; sys = s2 }) ≡ some (cap - 8)
    used-even fuel w f d e = rw e (
        get_used_size_lem fuel 8 (on b) (record { word = marked 8; sys = s2 })
          (omega (arith, large)) (omega (arith, size_lem, large)) (marked-eight d)
        ∙ ap some (omega (arith, size_lem, large, ends, in_space)))

    used-fresh :
        (fuel : ℕ)
        → cap < fuel
        → m.word (b.bottom + 8 * 8) ≢ magic
        → (t : Bool) → get_used_size fuel (on b) (fresh t) ≡ some (if t then 1 else cap - 8)
    used-fresh fuel f d true = used-odd fuel (fresh true).word f (rw (size_lem, cell_lem))
    used-fresh fuel f d false = used-even fuel (fresh false).word f d (rw cell_lem)

    -- When the size of a page is known and a stack of cap words is allocated, cap above 9,
    -- Stack::new returns it; with more than cap rounds of fuel, get_used_size then gives 1 for an
    -- odd size, and for an even one all words but eight, if the ninth does not hold the magic value.
    pub new-used :
        (fuel : ℕ)
        → cap < fuel
        → m.word (b.bottom + 8 * 8) ≢ magic
        → (new k n m ≡ ok (on b) (fresh track))
          × (get_used_size fuel (on b) (fresh track) ≡ some (if track then 1 else cap - 8))
    new-used fuel f d = (new-fresh, used-fresh fuel f d track)
