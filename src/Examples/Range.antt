-- ===== src/Examples/Range.antt =====
-- src/examples/range.rs: the sum of a generator that yields the numbers below n.
use generator_rs.Base.{
  ℕ, zero, suc, ◌+◌, ◌*◌, ◌%◌, ◌≤◌, ◌≡◌, refl, ◌∙◌, ap, false, none, some, List, [], ◌∷◌, arith,
  if◌then◌else◌, ltb, word_mod, add_word,
}
use mathlib.Core.List.{foldl}
use generator_rs.Panic.{user}
use generator_rs.Gen.Types.{Reply, value, unwind, Op, Action, ret, raise, call, Client, World}
use generator_rs.Gen.Machine.{returned, run}
use generator_rs.Coroutine.Abstract.{View}
use generator_rs.Coroutine.Refines.{Represents, thread}
use generator_rs.Examples.Iterators.{Gives, stops, gives_}
use generator_rs.Examples.Loops.{Program, Begins, program_returns}

-- `main` up to the sum, the body of the generator at the head of its loop, and behind `done!`.
pub data Place : Type 0 where
  begins ready : Place
  sums prints : ℕ → Place
  counts : ℕ → Place
  quits : Place

module _ (n : ℕ) (g bottom stack_end : ℕ) where
  -- The head of the generator's loop.
  unfoldable pub head : ℕ → Action Place
  head num =
      if ltb num n then call (Op.scope_yield g num) (counts (suc num)) else call Op.done quits

  -- `range.sum()` takes the generator and drops it at its end.
  unfoldable pub act : Place → Reply → Action Place
  unfolding head
  act begins r =
      call
        (Op.new_scoped_opt g bottom 0 0 (λ s. record { state = counts 0; stack_end = stack_end }))
        ready
  act ready (unwind e) = raise e
  act ready r = call (Op.resume g) (sums 0)
  act (sums acc) (value (some x)) = call (Op.resume g) (sums (add_word acc x))
  act (sums acc) (value none) = call (Op.drop g false) (prints acc)
  act (sums acc) (unwind e) = raise e
  act (sums acc) r = raise (user 0)
  act (prints acc) (unwind e) = raise e
  act (prints acc) r = ret acc
  act (counts num) (unwind e) = raise e
  act (counts num) r = head num
  act quits (unwind e) = raise e
  act quits r = ret 0

  abbrev pub client : Client
  client = record { Local = Place; next = act }

  -- The numbers from `i` on, `k` of them.
  abbrev from : ℕ → ℕ → List ℕ
  from zero i = []
  from (suc k) i = i ∷ from k (suc i)

  counts-Gives :
      (k i : ℕ) (r : Reply)
      → i + k ≡ n
      → act (counts i) r ≡ head i
      → Gives client g (counts i) r (from k i)
  unfolding act head
  counts-Gives zero i r e h = stops {t = quits} (h ∙ ground arith) refl
  counts-Gives (suc k) i r e h =
      gives_ {t = counts (suc i)} (h ∙ ground arith)
        (counts-Gives k (suc i) (value none) (omega arith) refl)

  unfoldable program : Program client g ℕ
  unfolding act
  program = record {
    loop = record {
      f = add_word;
      asks = sums;
      rests = prints;
      goes_on = λ z x. refl;
      stops = λ z. refl;
    };
    start = 0;
    begins = begins;
    ready = ready;
    code = counts 0;
    bottom = bottom;
    end = stack_end;
    takes = 0;
    makes = refl;
    loops = refl;
  }

  foldl-from :
      (k i z : ℕ)
      → (t : ℕ) × (t * 2 + k ≡ k * (2 * i + k))
        × (foldl add_word (z % word_mod) (from k i) ≡ (z + t) % word_mod)
  foldl-from zero i z = (0, omega arith, omega arith)
  foldl-from (suc k) i z =
      let (t, e, f) = foldl-from k (suc i) (z + i) in
      (
        i + t,
        omega (arith, e),
        let first : (z % word_mod + i) % word_mod ≡ (z + i) % word_mod = omega arith in
            ap (λ q. foldl add_word q (from k (suc i))) first ∙ f ∙ omega arith,
      )

  -- A thread that is in the state of a view where main of range.rs begins, with room for its
  -- generator, whose stack has an unused word, ends, and main has the sum of the numbers below n, n
  -- * (n - 1) / 2, wrapped to a word.
  pub range_lem :
      (a : View Place) (w : World Place)
      → Represents a w
      → Begins g begins a
      → (total : ℕ) × (total * 2 + n ≡ n * n)
        × ((steps : ℕ) × ((j : ℕ)
              → steps ≤ j
              → (run client j (thread a w)).focus ≡ returned (total % word_mod)))
  unfolding act program
  range_lem a w v b =
      let (total, e, f) = foldl-from n 0 0 in
      (
        total,
        omega (arith, e),
        program_returns client g program (from n 0) (total % word_mod) a w v b
            (counts-Gives n 0 Reply.unit (omega arith) refl) (ap ret (f ∙ omega arith)),
      )
