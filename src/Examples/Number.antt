-- ===== src/Examples/Number.antt =====
-- src/examples/number.rs: the numbers that are the sum of what `factors` gives.
pub mod Divisors
use generator_rs.Base.{
  ℕ, zero, suc, ◌+◌, ◌-◌, ◌*◌, ◌%◌, ◌^◌, ◌≤◌, ◌<◌, ◌≡◌, refl, sym, ◌∙◌, ap, subst, Bool, true,
  false, Option, none, some, List, [], ◌∷◌, ◌++◌, arith, if◌then◌else◌, ltb, leb, ◌==◌, ◌&&◌, ◌||◌,
  Bool-cases, inl, inr, has, has-append,
}
use mathlib.Core.List.{foldl}
use generator_rs.Examples.Number.Divisors.{
  wrap, add, divisors, all_factors, foldl-factors, total, tested, printed, has-printed, below,
}
use generator_rs.Panic.{user}
use generator_rs.Rt.Context.{Ptr}
use generator_rs.Gen.Types.{Reply, value, unwind, Op, Action, ret, raise, call, Client, World, main}
use generator_rs.Gen.Machine.{running, run}
use generator_rs.Coroutine.Abstract.{View, going}
use generator_rs.Coroutine.Refines.{Represents, thread}
use generator_rs.Examples.Steps.{Leads, stay, then_on, thread_arrives}
use generator_rs.Examples.Iterators.{Gives, stops, gives, returns}
use generator_rs.Examples.Loops.{Begins, Program, program_lem}

-- `main`, which prints the factors of 28, and then has the numbers below `m` that it has printed; the
-- code of `factors`, and its loop at `i`.
pub data Place : Type 0 where
  begins ready prints : Place
  tests opens : (m : ℕ) → List ℕ → Place
  sums : (m : ℕ) → List ℕ → (acc : ℕ) → Place
  starts : ℕ → Place
  tries : (n i : ℕ) → Place
  quits : Place

-- The first of `c` numbers from `i` on that divides `n`.
unfoldable pub find : (n c i : ℕ) → Option ℕ
find n zero i = none
find n (suc c) i = if n % i == 0 then some i else find n c (suc i)

module _ (limit g bottom stack_end : ℕ) where
  abbrev factors : ℕ → Place → Action Place
  factors n s =
      call
        (Op.new_scoped_opt g bottom 0 0 (λ q. record { state = starts n; stack_end = stack_end })) s

  -- The `for` loop of `factors`, from `i` on.
  unfoldable pub scan : (n c i : ℕ) → Action Place
  unfolding find
  scan n c i = elim (find n c i) [
    | none ↦ call Op.done quits
    | some j ↦ call (Op.scope_yield_with g j) (tries n (suc j))
  ]

  -- With a limit in place of 10000.
  unfoldable pub act : Place → Reply → Action Place
  unfolding scan
  act begins r = factors 28 ready
  act ready (unwind e) = raise e
  act ready r = call (Op.resume g) prints
  act prints (value (some x)) = call (Op.resume g) prints
  act prints (value none) = call (Op.drop g false) (tests 0 [])
  act prints (unwind e) = raise e
  act prints r = raise (user 0)
  act (tests m zs) (unwind e) = raise e
  act (tests m zs) r = if ltb m limit then factors m (opens m zs) else ret 0
  act (opens m zs) (unwind e) = raise e
  act (opens m zs) r = call (Op.resume g) (sums m zs 0)
  act (sums m zs acc) (value (some x)) = call (Op.resume g) (sums m zs (wrap (acc + x)))
  act (sums m zs acc) (value none) =
      call (Op.drop g false) (tests (suc m) (if acc == m then zs ++ m ∷ [] else zs))
  act (sums m zs acc) (unwind e) = raise e
  act (sums m zs acc) r = raise (user 1)
  act (starts n) (unwind e) = raise e
  act (starts n) r = if n == 0 then ret 0 else call (Op.scope_yield_with g 1) (tries n 2)
  act (tries n i) (unwind e) = raise e
  act (tries n i) r = scan n (n - i) i
  act quits (unwind e) = raise e
  act quits r = ret 0

  abbrev pub client : Client
  client = record { Local = Place; next = act }

  scan-found :
      (n c i : ℕ)
      → (n % i == 0) ≡ true
      → scan n (suc c) i ≡ call (Op.scope_yield_with g i) (tries n (suc i))
  unfolding scan find
  scan-found n c i y = rw (scan, y) refl

  scan-next : (n c i : ℕ) → (n % i == 0) ≡ false → scan n (suc c) i ≡ scan n c (suc i)
  unfolding scan find
  scan-next n c i y = rw (scan, y) refl

  scan-Gives :
      (n c i : ℕ) (s : Place)
      → n - i ≡ c
      → act s Reply.unit ≡ scan n c i
      → Gives client g s Reply.unit (divisors n c i)
  unfolding act scan find
  scan-Gives n zero i s e f = stops {t = quits} f refl
  scan-Gives n (suc c) i s e f = elim (Bool-cases (n % i == 0)) [
    | inl y ↦
        let more : n - suc i ≡ c = omega (arith, e) in
        rw y (
          gives {t = tries n (suc i)} (f ∙ scan-found n c i y)
            (scan-Gives n c (suc i) (tries n (suc i)) more (ap (λ k. scan n k (suc i)) more)))
    | inr y ↦ rw y (scan-Gives n c (suc i) s (omega (arith, e)) (f ∙ scan-next n c i y))
  ]

  factors-Gives : (n : ℕ) → Gives client g (starts n) Reply.unit (all_factors n)
  unfolding act
  factors-Gives n = elim (Bool-cases (n == 0)) [
    | inl y ↦ rw y (returns (rw y refl))
    | inr y ↦
        rw y (gives {t = tries n 2} (rw y refl) (scan-Gives n (n - 2) 2 (tries n 2) refl refl))
  ]

  unfoldable printing : Program client g (Unit {0})
  unfolding act
  printing = record {
    loop = record {
      f = λ u x. tt;
      asks = λ u. prints;
      rests = λ u. tests 0 [];
      goes_on = λ u x. refl;
      stops = λ u. refl;
    };
    start = tt;
    begins = begins;
    ready = ready;
    code = starts 28;
    bottom = bottom;
    end = stack_end;
    takes = 0;
    makes = refl;
    loops = refl;
  }

  unfoldable testing : (m : ℕ) (zs : List ℕ) → ltb m limit ≡ true → Program client g ℕ
  unfolding act
  testing m zs h = record {
    loop = record {
      f = add;
      asks = sums m zs;
      rests = λ acc. tests (suc m) (tested m acc zs);
      goes_on = λ acc x. refl;
      stops = λ acc. refl;
    };
    start = 0;
    begins = tests m zs;
    ready = opens m zs;
    code = starts m;
    bottom = bottom;
    end = stack_end;
    takes = 0;
    makes = rw h refl;
    loops = refl;
  }

  tests_lem :
      (c m : ℕ) (zs : List ℕ) (a : View Place)
      → m + c ≡ limit
      → Begins g (tests m zs) a
      → (b : View Place) × Leads client a b × Begins g (tests limit (printed c m zs)) b
  unfolding testing
  tests_lem zero m zs a e v =
      let same : m ≡ limit = omega (arith, e) in
      (a, stay client a, subst (λ q. Begins g (tests q zs) a) same v)
  tests_lem (suc c) m zs a e v =
      let h : ltb m limit ≡ true = ground (arith, e) in
      let (b, l, w) = program_lem client g (testing m zs h) (all_factors m) a v (factors-Gives m) in
      let w' = subst (λ q. Begins g (tests (suc m) (tested m q zs)) b) (foldl-factors m) w in
      let (d, k, x) = tests_lem c (suc m) (tested m (total m) zs) b (omega (arith, e)) w' in
      (d, then_on client a b d l k, x)

  -- A thread that is in the state of a view where main of number.rs begins, with a limit in place of
  -- 10000, with room for one generator at a time, whose stack has an unused word, comes to the end
  -- of its second loop, and has printed there exactly the numbers below the limit that are 0, 1, or
  -- equal to the sum of their divisors below them, wrapped to 32 bits.
  pub number_lem :
      (a : View Place) (w : World Place)
      → Represents a w
      → Begins g begins a
      → (zs : List ℕ) × ((x : ℕ) → has x zs ≡ (ltb x limit && total x == x))
        × ((steps : ℕ) × ((run client steps (thread a w)).focus
              ≡ running main (tests limit zs) Reply.unit))
  unfolding printing
  number_lem a w v h =
      let (b, l, s) = program_lem client g printing (all_factors 28) a h (factors-Gives 28) in
      let (d, k, t) = tests_lem limit 0 [] b (omega arith) s in
      (
        printed limit 0 [],
        λ x. has-printed x limit 0 [] ∙ below x limit (total x == x),
        thread_arrives client a d (tests limit (printed limit 0 [])) Reply.unit w v
            (then_on client a b d l k) t.stage t.alone,
      )
