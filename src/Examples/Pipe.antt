-- ===== src/Examples/Pipe.antt =====
-- src/examples/pipe.rs: a generator of squares inside a generator of sums.
use generator_rs.Base.{
  ℕ, zero, suc, ◌+◌, ◌*◌, ◌%◌, ◌^◌, ◌≡◌, ◌≢◌, refl, sym, ◌∙◌, ap, true, false, none, some, List, [],
  ◌∷◌, ◌++◌, arith, if◌then◌else◌, ltb, has, inl,
}
use mathlib.Core.List.{foldl, append-nil, append_assoc}
use generator_rs.Panic.{user}
use generator_rs.Gen.Types.{Reply, value, unwind, Op, Action, ret, raise, call, Client, World, main}
use generator_rs.Gen.Machine.{running, run}
use generator_rs.Coroutine.Abstract.{View, fits, is_free, created, ask, fresh}
use generator_rs.Coroutine.Refines.{Represents, thread}
use generator_rs.Examples.Steps.{calls, then_on, thread_arrives}
use generator_rs.Examples.Iterators.{Iterator, Gives, stops, gives, is_fresh, generator}
use generator_rs.Examples.Loops.{Begins, Loop, loop_lem}
use generator_rs.Examples.Adapters

-- `main`, with the sums that it has printed; the loops of `square` and of `sum`.
pub data Place : Type 0 where
  begins makes ready : Place
  prints printed : List ℕ → Place
  squares : ℕ → Place
  quits : Place
  holds adds : ℕ → Place
  rests leaves : Place

-- `u32`, in a release build.
abbrev pub wrap : ℕ → ℕ
wrap x = x % 2 ^ 32

-- What the sums are: the i-th line is the sum of the squares up to that of `i`, wrapped.
abbrev pub IsPyramid : ℕ → ℕ → Type 0
IsPyramid i z = (s : ℕ) × (s * 6 ≡ i * suc i * (2 * i + 1)) × (z ≡ wrap s)

abbrev pub Numbered : (k i : ℕ) → List ℕ → Type 0
Numbered zero i zs = zs ≡ []
Numbered (suc k) i [] = ⊥
Numbered (suc k) i (z ∷ zs) = IsPyramid i z × Numbered k (suc i) zs

module _ (n g1 g2 bottom1 bottom2 stack_end1 stack_end2 : ℕ) where
  -- With `0..n` in place of `0..20`.
  unfoldable pub act : Place → Reply → Action Place
  act begins r =
      call
        (Op.new_scoped_opt g1 bottom1 0 0
          (λ s. record { state = squares 0; stack_end = stack_end1 }))
        makes
  act makes (unwind e) = raise e
  act makes r =
      call
        (Op.new_scoped_opt g2 bottom2 0 0 (λ s. record { state = holds 0; stack_end = stack_end2 }))
        ready
  act ready (unwind e) = raise e
  act ready r = call (Op.resume g2) (prints [])
  act (prints zs) (value (some x)) = call (Op.resume g2) (prints (zs ++ x ∷ []))
  act (prints zs) (value none) = call (Op.drop g2 false) (printed zs)
  act (prints zs) (unwind e) = raise e
  act (prints zs) r = raise (user 0)
  act (printed zs) (unwind e) = raise e
  act (printed zs) r = ret 0
  act (squares i) (unwind e) = raise e
  act (squares i) r =
      if ltb i n
      then call (Op.scope_yield_with g1 (wrap (i * i))) (squares (suc i))
      else call Op.done quits
  act quits (unwind e) = raise e
  act quits r = ret 0
  act (holds acc) (unwind e) = raise e
  act (holds acc) r = call (Op.resume g1) (adds acc)
  act (adds acc) (value (some i)) =
      call (Op.scope_yield_with g2 (wrap (acc + i))) (holds (wrap (acc + i)))
  act (adds acc) (value none) = call (Op.drop g1 false) rests
  act (adds acc) (unwind e) = raise e
  act (adds acc) r = raise (user 1)
  act rests (unwind e) = raise e
  act rests r = call Op.done leaves
  act leaves (unwind e) = raise e
  act leaves r = ret 0

  abbrev pub client : Client
  client = record { Local = Place; next = act }

  -- The squares from that of `i` on, `k` of them.
  abbrev from : ℕ → ℕ → List ℕ
  from zero i = []
  from (suc k) i = wrap (i * i) ∷ from k (suc i)

  squares-Gives : (k i : ℕ) → i + k ≡ n → Gives client g1 (squares i) Reply.unit (from k i)
  unfolding act
  squares-Gives zero i e = stops {t = quits} (ground arith) refl
  squares-Gives (suc k) i e =
      gives {t = squares (suc i)} (ground arith) (squares-Gives k (suc i) (omega arith))

  unfoldable scanning : Adapters.Scan client g1 g2 ℕ
  unfolding act
  scanning = record {
    step = λ acc x. wrap (acc + x);
    out = λ acc x. wrap (acc + x);
    holds = holds;
    asks = adds;
    rests = rests;
    quits = leaves;
    goes_on = λ b. refl;
    yields = λ b x. refl;
    drops = λ b. refl;
    stops = refl;
    raises = refl;
  }

  unfoldable printing : Loop client g2 (List ℕ)
  unfolding act
  printing = record {
    f = λ zs x. zs ++ x ∷ [];
    asks = prints;
    rests = printed;
    goes_on = λ zs x. refl;
    stops = λ zs. refl;
  }

  module _ (ne : g1 ≢ g2) where
    abbrev squaring : Iterator client
    squaring = generator client g1

    elsewhere : has g2 (g1 ∷ []) ≡ false
    elsewhere = ground arith

    abbrev sums : ℕ → List ℕ → List ℕ
    sums = Adapters.scan client squaring g2 elsewhere scanning

    sums-Numbered :
        (k i s : ℕ)
        → s * 6 + 3 * i * i ≡ 2 * i * i * i + i
        → Numbered k i (sums (wrap s) (from k i))
    unfolding Adapters.scan scanning
    sums-Numbered zero i s e = refl
    sums-Numbered (suc k) i s e =
        let w : wrap (wrap s + wrap (i * i)) ≡ wrap (s + i * i) = omega arith in
        rw w (
          (s + i * i, omega (arith, e), refl),
          sums-Numbered k (suc i) (s + i * i) (omega (arith, e)),
        )

    foldl-printing : (xs zs : List ℕ) → foldl printing.f zs xs ≡ zs ++ xs
    unfolding printing
    foldl-printing [] zs = sym (append-nil zs)
    foldl-printing (x ∷ xs) zs = foldl-printing xs (zs ++ x ∷ []) ∙ append_assoc zs (x ∷ []) xs

    abbrev summing : Iterator client
    summing = Adapters.adapter client squaring g2 elsewhere scanning

    abbrev made1 : View Place → View Place
    made1 a =
        created a g1 (record { takes = 0; gives = 0; is_typed = false; inbox = none }) (squares 0)
          makes

    abbrev made2 : View Place → View Place
    made2 a =
        created (made1 a) g2 (record { takes = 0; gives = 0; is_typed = false; inbox = none })
          (holds 0) ready

    made-Between :
        (a : View Place)
        → fits a g1 ≡ true
        → Adapters.Between client squaring g2 elsewhere scanning 0 (from n 0) (made2 a)
    unfolding scanning
    made-Between a f = record {
      here = inl (ground arith);
      inbox = ground arith;
      supply = (
        fresh (squares 0),
        ground arith,
        is_fresh (squares-Gives n 0 (omega arith)),
        ground arith,
      );
      fits = f;
    }

    -- A thread that is in the state of a view where main of pipe.rs begins, over the numbers below
    -- n, with room for its two generators at different addresses, whose stacks have an unused word
    -- each, prints n sums and comes to the end of its loop; the i-th is the sum of the squares up to
    -- that of i, i * (i + 1) * (2 * i + 1) / 6, wrapped to 32 bits.
    pub pipe_lem :
        (a : View Place) (w : World Place)
        → Represents a w
        → Begins g1 begins a
        → Begins g2 begins a
        → (zs : List ℕ) × Numbered n 0 zs
          × ((steps : ℕ) × ((run client steps (thread a w)).focus
                ≡ running main (printed zs) Reply.unit))
    unfolding ask act scanning printing
    pipe_lem a w v b1 b2 =
        let r =
          loop_lem client summing printing (sums 0 (from n 0)) [] (made2 a)
            (0, from n 0, refl, made-Between a b1.fits) b2.fits in
        let all =
          then_on client a (made1 a) r.after
            (calls client a (made1 a) begins makes Reply.unit _ b1.stage refl (rw b1.free refl))
            (then_on client (made1 a) (made2 a) r.after
              (calls client (made1 a) (made2 a) makes ready Reply.unit _ refl refl
                (rw (free2 a b1 b2) refl))
              (then_on client (made2 a) r.inside r.after
                (calls client (made2 a) r.inside ready (prints []) Reply.unit (Op.resume g2) refl
                  refl r.enters)
                r.leads)) in
        let (k, e) =
          thread_arrives client a r.after _ Reply.unit w v all r.rested
            (r.kept.active ∙ b1.alone) in
        (
          sums 0 (from n 0),
          sums-Numbered n 0 0 (omega arith),
          (
            k,
            e
                ∙ ap (λ q. running main (printed q) Reply.unit)
                    (foldl-printing (sums 0 (from n 0)) []),
          ),
        )
      where
        free2 :
            (a : View Place) → Begins g1 begins a → Begins g2 begins a → is_free (made1 a) g2 ≡ true
        free2 a b1 b2 = ground (arith, b2.free)
