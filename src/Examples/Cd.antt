-- ===== src/Examples/Cd.antt =====
-- src/examples/cd.rs: a player that is sent actions and yields its state.
use generator_rs.Base.{
  ℕ, zero, suc, ◌≤◌, ◌≡◌, ◌⊎◌, inl, inr, refl, true, false, none, some, List, [], ◌∷◌, ◌++◌, arith,
  if◌then◌else◌, ◌==◌, ==_refl, update,
}
use generator_rs.Panic.{user, Error, error}
use generator_rs.Gen.Types.{
  Reply, value, unwind, Op, Action, ret, raise, call, Client, World, nothing,
}
use generator_rs.Gen.Machine.{returned, run}
use generator_rs.Coroutine.Abstract.{
  View, fresh, paused, going, ended, fits, sends, drops, enter, entered, advance, advances, go, ask,
  created, gone, left,
}
use generator_rs.Coroutine.Refines.{Represents, thread}
use generator_rs.Examples.Steps.{Leads, calls, then_on, ends_with, thread_returns}
use generator_rs.Examples.Loops.{Begins}

-- The commands and the states, as numbers: `Stop` and `Stopped` are 0.
abbrev pub play : ℕ
play = 1

abbrev pub stop : ℕ
stop = 0

abbrev pub playing : ℕ
playing = 1

abbrev pub stopped : ℕ
stopped = 0

-- The rest of `main`, as the actions to send, each with the state that `assert_eq!` compares with.
abbrev pub Script : Type 0
Script = List (ℕ × ℕ)

-- The body of the loop.
abbrev pub round : Script
round =
    (play, playing)
    ∷ (play, playing)
    ∷ (stop, stopped)
    ∷ (stop, stopped)
    ∷ (play, playing)
    ∷ (stop, stopped)
    ∷ []

unfoldable pub rounds : ℕ → Script
rounds zero = []
rounds (suc k) = round ++ rounds k

pub data Place : Type 0 where
  begins : Place
  plays : Script → Place
  expects : ℕ → Script → Place
  dropped : Place
  -- The player at the head of its loop, and with an action.
  loops : ℕ → Place
  decides : ℕ → Place

module _ (n g bottom stack_end : ℕ) where
  -- `send` of the first action, or the drop of the player.
  unfoldable pub go_on : Script → Action Place
  go_on [] = call (Op.drop g false) dropped
  go_on ((v, st) ∷ more) = call (Op.send g v) (expects st more)

  -- The match on the state, with what it prints left out.
  unfoldable pub act : Place → Reply → Action Place
  unfolding go_on rounds
  act begins r =
      call
        (Op.new_scoped_opt g bottom 0 0
          (λ s. record { state = loops stopped; stack_end = stack_end }))
        (plays (rounds n))
  act (plays more) (unwind e) = raise e
  act (plays more) r = go_on more
  act (expects st more) (value (some x)) = if x == st then go_on more else raise (user 0)
  act (expects st more) (unwind e) = raise e
  act (expects st more) r = raise (user 1)
  act dropped (unwind e) = raise e
  act dropped r = ret 0
  act (loops st) (unwind e) = raise e
  act (loops st) r = call (Op.scope_get_yield g) (decides st)
  act (decides st) (value (some v)) =
      if st == stopped
      then (if v == play
          then call (Op.scope_yield_with g playing) (loops playing)
          else call (Op.scope_yield_with g st) (loops st))
      else (if v == stop
          then call (Op.scope_yield_with g stopped) (loops stopped)
          else call (Op.scope_yield_with g st) (loops st))
  act (decides st) (unwind e) = raise e
  act (decides st) r = raise (user 2)

  abbrev pub client : Client
  client = record { Local = Place; next = act }

  -- The player is at rest, in a state.
  abbrev pub Waiting : ℕ → View Place → Type 0
  Waiting st a =
      (a.rest g ≡ some (fresh (loops st))) ⊎ (a.rest g ≡ some (paused nothing (loops st)))

  abbrev pub IsBit : ℕ → Type 0
  IsBit x = (x ≡ 0) ⊎ (x ≡ 1)

  abbrev inside : View Place → Place → ℕ → ℕ → View Place
  inside a t st v = entered a g sends t (loops st) Reply.unit (some v)

  enters_lem :
      (st v : ℕ) (a : View Place) (t : Place)
      → Waiting st a
      → enter a g sends (some (some v)) t ≡ some (inside a t st v)
  enters_lem st v a t (inl e) = rw e refl
  enters_lem st v a t (inr e) = rw e refl

  abbrev answered_at : View Place → Place → ℕ → View Place
  answered_at a t v = record a {
    stage = going t (value (some v));
    rest = update (update a.rest g none) g (some (paused nothing (loops v)));
    ports =
        update (update a.ports g (record (a.ports g) { inbox = some v })) g
          (record (a.ports g) { inbox = none });
  }

  -- Whatever its state, the player is then in the one that the action asks for.
  answers_lem :
      (st v : ℕ) (a : View Place) (t : Place)
      → IsBit st
      → IsBit v
      → Leads client (inside a t st v) (answered_at a t v)
  unfolding act go ask advance advances
  answers_lem st v a t (inl s) (inl w) = (2, rw (s, w, ==_refl g, ==_refl g) refl)
  answers_lem st v a t (inl s) (inr w) = (2, rw (s, w, ==_refl g, ==_refl g) refl)
  answers_lem st v a t (inr s) (inl w) = (2, rw (s, w, ==_refl g, ==_refl g) refl)
  answers_lem st v a t (inr s) (inr w) = (2, rw (s, w, ==_refl g, ==_refl g) refl)

  -- Each of the states is the one that its action asks for.
  abbrev pub IsRight : Script → Type 0
  IsRight [] = Unit {0}
  IsRight ((v, st) ∷ more) = IsBit v × (st ≡ v) × IsRight more

  rounds-IsRight : (k : ℕ) → IsRight (rounds k)
  unfolding rounds
  rounds-IsRight zero = tt
  rounds-IsRight (suc k) = (
    inr refl,
    refl,
    (
      inr refl,
      refl,
      (inl refl, refl, (inl refl, refl, (inr refl, refl, (inl refl, refl, rounds-IsRight k)))),
    ),
  )

  -- `main` is about to send, or to drop the player, which is at rest.
  pub record Sending (more : Script) (a : View Place) : Type 0 where
    pub state : ℕ
    pub bit : IsBit state
    pub waiting : Waiting state a
    pub fit : fits a g ≡ true
    pub alone : a.active ≡ []
    pub here : Place
    pub answer : Reply
    pub stage : a.stage ≡ going here answer
    pub goes : act here answer ≡ go_on more

  ending :
      (a b : View Place)
      → Leads client a b
      → b.stage ≡ going dropped Reply.unit
      → b.active ≡ []
      → (c : View Place) × Leads client a c × (c.stage ≡ ended 0)
  unfolding act
  ending a b l e f = (
    record b { stage = ended 0 },
    then_on client a b (record b { stage = ended 0 }) l
        (ends_with client b dropped Reply.unit 0 e f refl),
    refl,
  )

  drops_lem :
      (a : View Place) → Sending [] a → (b : View Place) × Leads client a b × (b.stage ≡ ended 0)
  unfolding act go ask advance advances go_on
  drops_lem a s = elim s.waiting [
    | inl e ↦ ending a (gone a g dropped) (1, rw (s.stage, s.goes, e) refl) refl s.alone
    | inr e ↦
        ending a
          (left
            (entered a g drops dropped (loops s.state) (unwind (error Error.cancel))
              (a.ports g).inbox)
            (record { gen = g; way = drops; caller = dropped }) a.active none Reply.unit)
          (2, rw (s.stage, s.goes, e, s.fit) refl) refl s.alone
  ]

  pub script_lem :
      (more : Script) (a : View Place)
      → IsRight more
      → Sending more a
      → (b : View Place) × Leads client a b × (b.stage ≡ ended 0)
  unfolding ask act go_on
  script_lem [] a r s = drops_lem a s
  script_lem ((v, st) ∷ more) a (w, e, r) s =
      let t = expects st more in
      let c = answered_at a t v in
      let (b, l, f) = script_lem more c r (record {
        state = v;
        bit = w;
        waiting = inr (ground arith);
        fit = s.fit;
        alone = s.alone;
        here = t;
        answer = value (some v);
        stage = refl;
        goes = rw (e, ==_refl v) refl;
      }) in
      (
        b,
        then_on client a (inside a t s.state v) b
            (calls client a (inside a t s.state v) s.here t s.answer (Op.send g v) s.stage s.goes
              (enters_lem s.state v a t s.waiting))
            (then_on client (inside a t s.state v) c b (answers_lem s.state v a t s.bit w) l),
        f,
      )

  -- A thread that is in the state of a view where main of cd.rs begins, for n rounds of its six
  -- actions, with room for its generator, whose stack has an unused word, ends, for any n, and no
  -- assertion has failed.
  pub cd_lem :
      (a : View Place) (w : World Place)
      → Represents a w
      → Begins g begins a
      → (steps : ℕ) × ((j : ℕ) → steps ≤ j → (run client j (thread a w)).focus ≡ returned 0)
  unfolding act ask
  cd_lem a w v b =
      let c =
        created a g (record { takes = 0; gives = 0; is_typed = false; inbox = none })
          (loops stopped) (plays (rounds n)) in
      let (d, l, e) = script_lem (rounds n) c (rounds-IsRight n) (record {
        state = stopped;
        bit = inl refl;
        waiting = inl (ground arith);
        fit = b.fits;
        alone = b.alone;
        here = plays (rounds n);
        answer = Reply.unit;
        stage = refl;
        goes = refl;
      }) in
      thread_returns client a d 0 w v
        (then_on client a c d
          (calls client a c begins (plays (rounds n)) Reply.unit _ b.stage refl (rw b.free refl)) l)
        e
