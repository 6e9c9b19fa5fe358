-- ===== src/Coroutine/Runs.antt =====
-- The thread of Gen/Machine.antt implements the abstract view, for runs of any length.
use generator_rs.Base.{
  ℕ, zero, suc, ◌+◌, ◌*◌, ◌-◌, ◌≡◌, ◌≢◌, ◌≤◌, refl, sym, ap, ◌∙◌, subst, none, some, arith,
  Option-cases, inl, inr,
}
use generator_rs.Gen.Types.{Client, World}
use generator_rs.Gen.Machine.{Machine, crashed, returned, at, step, run}
use generator_rs.Coroutine.Abstract.{
  Stage, going, ended, escaped, View, advance, advance_at, advances,
}
use generator_rs.Coroutine.Refines.{Represents, focus, thread}
use generator_rs.Coroutine.Entering.{Reaches}
use generator_rs.Coroutine.Steps.{go-Reaches, Reaches-some}

module _ (cl : Client) where
  pub run-add : (i j : ℕ) (m : Machine cl.Local) → run cl (i + j) m ≡ run cl j (run cl i m)
  unfolding run
  run-add zero j m = let e : 0 + j ≡ j = omega arith in ap (λ n. run cl n m) e
  run-add (suc i) j m =
      let e : suc i + j ≡ suc (i + j) = omega arith in
      ap (λ n. run cl n m) e ∙ run-add i j (step cl m)

  -- Nothing follows undefined behaviour.
  crashed-stays : (n : ℕ) (m : Machine cl.Local) → m.focus ≡ crashed → (run cl n m).focus ≡ crashed
  unfolding run step
  crashed-stays zero m e = e
  crashed-stays (suc n) m e = crashed-stays n (step cl m) (rw e refl)

  returned-stays : (n x : ℕ) (w : World cl.Local) → run cl n (at (returned x) w) ≡ at (returned x) w
  unfolding run step
  returned-stays zero x w = refl
  returned-stays (suc n) x w = returned-stays n x w

  advance-Reaches :
      (a a' : View cl.Local) (w : World cl.Local) (st : Stage cl.Local)
      → Represents a w
      → a.stage ≡ st
      → advance_at cl a st ≡ some a'
      → Reaches cl (thread a w) a'
  unfolding run step
  advance-Reaches a a' w (going s r) v e f = rw e (go-Reaches cl a w s r (cl.next s r) v refl f)
  advance-Reaches a a' w (ended x) v e f = Reaches-some cl f (record {
    steps = 1;
    some_steps = omega arith;
    few = omega arith;
    world = w;
    reached = rw e refl;
    represents = v;
  })
  advance-Reaches a a' w (escaped x) v e f = Reaches-some cl f (record {
    steps = 1;
    some_steps = omega arith;
    few = omega arith;
    world = w;
    reached = rw e refl;
    represents = v;
  })

  -- A thread that is in the state of an abstract view makes n of its steps, each in one or two of
  -- its own, and is then in the state of the view behind them.
  pub advances_lem :
      (n : ℕ) (a a' : View cl.Local) (w : World cl.Local)
      → Represents a w
      → advances cl n a ≡ some a'
      → (k : ℕ) × (w' : World cl.Local) × (n ≤ k)
        × (k ≤ 2 * n)
        × (run cl k (thread a w) ≡ thread a' w')
        × Represents a' w'
  unfolding advances advance run
  advances_lem zero a a' w v e =
      let same : a ≡ a' = cc in
      (
        0,
        w,
        omega arith,
        omega arith,
        ap (λ q. thread q w) same,
        subst (λ q. Represents q w) same v,
      )
  advances_lem (suc n) a a' w v e = elim (Option-cases (advance cl a)) [
    | inl z ↦ let y : none ≡ some a' = rw z at e in absurd cc
    | inr (b, z) ↦
        let r = advance-Reaches a b w a.stage v refl z in
        let (k, w', low, high, f, v') = advances_lem n b a' r.world r.represents (rw z at e) in
        (
          r.steps + k,
          w',
          omega (arith, r.some_steps),
          omega (arith, r.few),
          run-add r.steps k (thread a w) ∙ ap (run cl k) r.reached ∙ f,
          v',
        )
  ]

  focus_sound : (a : View cl.Local) (st : Stage cl.Local) → focus a st ≢ crashed
  focus_sound a (going s r) e = cc
  focus_sound a (ended x) e = cc
  focus_sound a (escaped x) e = cc

  -- A thread in the state of an abstract view has no undefined behaviour as long as the view goes
  -- on: not in the first n steps if the view makes n.
  pub advances_sound :
      (n j : ℕ) (a a' : View cl.Local) (w : World cl.Local)
      → Represents a w
      → advances cl n a ≡ some a'
      → j ≤ n
      → (run cl j (thread a w)).focus ≢ crashed
  advances_sound n j a a' w v e le bad =
      let (k, w', low, _, f, _) = advances_lem n a a' w v e in
      let split = run-add j (k - j) (thread a w) in
      let whole : j + (k - j) ≡ k = omega arith in
      let stuck = crashed-stays (k - j) (run cl j (thread a w)) bad in
      let end : (run cl k (thread a w)).focus ≡ crashed =
        subst (λ q. (run cl q (thread a w)).focus ≡ crashed) whole
          (ap (λ m. m.focus) split ∙ stuck) in
      focus_sound a' a'.stage (sym (ap (λ m. m.focus) f) ∙ end)

  -- If the abstract view ends with a value within n steps, the thread in its state returns that
  -- value within 2n steps, and stays so.
  pub advances_returns :
      (n j x : ℕ) (a a' : View cl.Local) (w : World cl.Local)
      → Represents a w
      → advances cl n a ≡ some a'
      → a'.stage ≡ ended x
      → 2 * n ≤ j
      → (run cl j (thread a w)).focus ≡ returned x
  advances_returns n j x a a' w v e ends le =
      let (k, w', _, high, f, _) = advances_lem n a a' w v e in
      let split = run-add k (j - k) (thread a w) in
      let whole : k + (j - k) ≡ j = omega arith in
      let arrived : run cl k (thread a w) ≡ at (returned x) w' =
        f ∙ ap (λ q. at (focus a' q) w') ends in
      let stays = returned-stays (j - k) x w' in
      subst (λ q. (run cl q (thread a w)).focus ≡ returned x) whole
        (ap (λ m. m.focus) (split ∙ ap (run cl (j - k)) arrived ∙ stays))
