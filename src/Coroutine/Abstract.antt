-- ===== src/Coroutine/Abstract.antt =====
-- The abstract view of a thread that runs generators, of which src/gen_impl.rs, src/yield_.rs,
-- src/scope.rs and src/detail/gen.rs are the implementation: who waits for whom, and what each
-- generator at rest will do. There are no contexts, links, counts or registers.
--
-- A step is one call or one end of the client's code. It is `none` where nothing is promised: a
-- generator that is not at rest is entered, a channel is used at another type or by another
-- generator, or the call is none of those listed.
use generator_rs.Base.{
  ℕ, zero, suc, Bool, true, false, not, ◌&&◌, Option, none, some, List, [], ◌∷◌, ◌++◌, ◌==◌,
  if◌then◌else◌, ltb, update, has, is_none,
}
use generator_rs.Panic.{Payload, error, text, Error, send_got_none, done_outside}
use generator_rs.Rt.Context.{Ptr, null, TypeId}
use generator_rs.Gen.Types.{
  Reply, value, unwind, Op, Action, ret, raise, call, Client, Channel, typed, scoped, AfterYield,
  nothing, then_get, then_take, Base, main, body,
}
use generator_rs.Gen.Sends.{carried}
use generator_rs.Gen.Resume.{received}
use generator_rs.Gen.Ends.{is_error}
mod States
pub use States.*

module _ {S : Type 0} where
  abbrev pub enter_at :
      View S → Ptr → Way → Option (Option ℕ) → S → Option (Status S) → Option (View S)
  enter_at a g way m s none = none
  enter_at a g resumes m s (some (over n)) = some (answered a s (refused resumes))
  enter_at a g sends m s (some (over n)) = some (answered a s (refused sends))
  enter_at a g cancels m s (some (over n)) = some (answered a s (refused cancels))
  enter_at a g drops m s (some (over n)) = some (dropped a g s)
  enter_at a g drops m s (some (fresh t)) = some (gone a g s)
  enter_at a g cancels m s (some (fresh t)) =
      some (record (answered a s Reply.unit) { rest = update a.rest g (some (over none)) })
  enter_at a g resumes m s (some (fresh t)) =
      some (entered a g resumes s t Reply.unit (carried m (a.ports g).inbox))
  enter_at a g sends m s (some (fresh t)) =
      some (entered a g sends s t Reply.unit (carried m (a.ports g).inbox))
  enter_at a g cancels m s (some (paused after t)) =
      some (entered a g cancels s t (unwind (error Error.cancel)) (a.ports g).inbox)
  enter_at a g drops m s (some (paused after t)) =
      some (entered a g drops s t (unwind (error Error.cancel)) (a.ports g).inbox)
  enter_at a g resumes m s (some (paused after t)) =
      let p = carried m (a.ports g).inbox in
      some (entered a g resumes s t (received after p) (drained after p))
  enter_at a g sends m s (some (paused after t)) =
      let p = carried m (a.ports g).inbox in
      some (entered a g sends s t (received after p) (drained after p))

  abbrev pub enter : View S → Ptr → Way → Option (Option ℕ) → S → Option (View S)
  enter a g way m s = enter_at a g way m s (a.rest g)

  abbrev pub yield_from_top :
      View S → Channel → ℕ → AfterYield → S → List (Activation S) → Option (View S)
  yield_from_top a ch v after s [] = none
  yield_from_top a ch v after s (x ∷ rest) =
      if is_kept x.way && may_write ch x.gen (a.ports x.gen) && may_read after x.gen (a.ports x.gen)
      then some (left a x rest (some (paused after s)) (value (some v)))
      else none

  abbrev pub is_over : Option (Status S) → Option Bool
  is_over none = none
  is_over (some (fresh t)) = some false
  is_over (some (paused after t)) = some false
  is_over (some (over n)) = some true

  abbrev pub ask_done : View S → S → Option Bool → Option (View S)
  ask_done a s none = none
  ask_done a s (some b) = some (answered a s (Reply.bool b))

  -- The newest that runs takes what has been sent to it.
  abbrev pub take_at_top : View S → AfterYield → S → List (Activation S) → Option (View S)
  take_at_top a after s [] = none
  take_at_top a after s (x ∷ rest) =
      if may_read after x.gen (a.ports x.gen)
      then some (record (answered a s (received after (a.ports x.gen).inbox)) {
        ports =
            update a.ports x.gen
              (record (a.ports x.gen) { inbox = drained after (a.ports x.gen).inbox });
      })
      else none

  -- Calls that only a generator at rest answers.
  abbrev pub fill : View S → Ptr → ℕ → S → Option (Status S) → Option (View S)
  fill a g v s none = none
  fill a g v s (some st) = some (record (answered a s Reply.unit) {
    ports = update a.ports g (record (a.ports g) { inbox = some v });
  })

  abbrev pub discard : View S → Ptr → S → Option (Status S) → Option (View S)
  discard a g s none = none
  discard a g s (some st) = some (gone a g s)

  -- New code for one that has not started, or has ended and left nothing behind.
  abbrev pub recode : View S → Ptr → (t : S) → S → Option (Status S) → Option (View S)
  recode a g t s none = none
  recode a g t s (some (paused after u)) = none
  recode a g t s (some (over (some n))) = none
  recode a g t s (some (over none)) =
      some (record (answered a s Reply.unit) { rest = update a.rest g (some (fresh t)) })
  recode a g t s (some (fresh u)) =
      some (record (answered a s Reply.unit) { rest = update a.rest g (some (fresh t)) })

  -- A generator is made where there is none.
  abbrev pub is_free : View S → Ptr → Bool
  is_free a g = not (g == null) && not (has g (gens a.active ++ a.home ∷ [])) && is_none (a.rest g)

  abbrev pub created : View S → Ptr → Port → (t : S) → S → View S
  created a g p t s = record a {
    stage = going s Reply.unit;
    rest = update a.rest g (some (fresh t));
    ports = update a.ports g p;
  }

  abbrev pub create : View S → Ptr → Port → (t : S) → S → Option (View S)
  create a g p t s = if is_free a g then some (created a g p t s) else none

  abbrev pub is_inside : List (Activation S) → Bool
  is_inside [] = false
  is_inside (x ∷ rest) = true

  abbrev pub stop : List (Activation S) → Payload
  stop [] = text done_outside
  stop (x ∷ rest) = error Error.done

  unfoldable pub ask : View S → Op S → S → Option (View S)
  ask a (Op.new_opt g bottom t u f) s =
      create a g (record { takes = t; gives = u; is_typed = true; inbox = none }) f.state s
  ask a (Op.new_scoped_opt g bottom t u f) s =
      create a g (record { takes = t; gives = u; is_typed = false; inbox = none }) (f g).state s
  ask a (Op.resume g) s = enter a g resumes none s
  ask a (Op.raw_send g p) s = enter a g resumes (some p) s
  ask a (Op.send g v) s = enter a g sends (some (some v)) s
  ask a (Op.cancel g) s = enter a g cancels none s
  ask a (Op.yield_with t v) s = yield_from_top a (typed t t) v nothing s a.active
  ask a (Op.yield_ b t v) s = yield_from_top a (typed b t) v (then_get b) s a.active
  ask a (Op.scope_yield_with g v) s = yield_from_top a (scoped g) v nothing s a.active
  ask a (Op.scope_yield g v) s = yield_from_top a (scoped g) v (then_take g) s a.active
  ask a (Op.is_done g) s = ask_done a s (is_over (a.rest g))
  ask a Op.is_generator s = some (answered a s (Reply.bool (is_inside a.active)))
  ask a Op.done s = some (answered a s (unwind (stop a.active)))
  ask a (Op.drop g false) s = enter a g drops none s
  ask a (Op.drop g true) s = discard a g s (a.rest g)
  ask a (Op.set_para g v) s = fill a g v s (a.rest g)
  ask a (Op.init_code g f) s = recode a g f.state s (a.rest g)
  ask a (Op.scoped_init g f) s = recode a g (f g).state s (a.rest g)
  ask a (Op.get_yield t) s = take_at_top a (then_get t) s a.active
  ask a (Op.scope_get_yield q) s = take_at_top a (then_take q) s a.active
  ask a o s = none

  -- The code that runs ends, with this left in `ret`, and the call that has entered it is answered.
  abbrev pub stopped : View S → Activation S → List (Activation S) → Way → Option ℕ → Reply → View S
  stopped a x rest drops m r =
      if fits a x.gen
      then left a x rest none Reply.unit
      else left a x rest (some (over m)) (unwind (error Error.stack_err))
  stopped a x rest resumes m r = left a x rest (some (over m)) r
  stopped a x rest sends m r = left a x rest (some (over m)) r
  stopped a x rest cancels m r = left a x rest (some (over m)) r

  abbrev pub end : View S → ℕ → List (Activation S) → View S
  end a v [] = record a { stage = ended v }
  end a v (x ∷ rest) = stopped a x rest x.way (leftover x.way (some v)) (returns x.way v)

  abbrev pub fail : View S → Payload → List (Activation S) → View S
  fail a e [] = record a { stage = escaped e }
  fail a e (x ∷ rest) =
      if is_error e
      then left a x rest (some (over none)) (unwind e)
      else stopped a x rest x.way none (refused x.way)

  unfoldable pub go : View S → Action S → Option (View S)
  unfolding ask
  go a (call o s) = ask a o s
  go a (ret v) = some (end a v a.active)
  go a (raise e) = some (fail a e a.active)

module _ (cl : Client) where
  abbrev pub advance_at : View cl.Local → Stage cl.Local → Option (View cl.Local)
  advance_at a (going s r) = go a (cl.next s r)
  advance_at a (ended v) = some a
  advance_at a (escaped e) = some a

  unfoldable pub advance : View cl.Local → Option (View cl.Local)
  advance a = advance_at a a.stage

  abbrev pub advance_then :
      (View cl.Local → Option (View cl.Local)) → Option (View cl.Local) → Option (View cl.Local)
  advance_then k none = none
  advance_then k (some a) = k a

  -- `n` steps.
  unfoldable pub advances : ℕ → View cl.Local → Option (View cl.Local)
  advances zero a = some a
  advances (suc n) a = advance_then (advances n) (advance a)
