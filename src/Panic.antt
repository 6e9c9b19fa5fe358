-- ===== src/Panic.antt =====
-- Panic payloads, with the `Error` of src/rt.rs, and the outcome of an operation on a state: a value,
-- an unwinding panic, or undefined behaviour (a read through a null or dangling pointer, an unchecked
-- cast to another type). A panic keeps the state that its operation has reached.
use generator_rs.Base.{ℕ, Bool, true, false}

pub data Error : Type 0 where
  done cancel type_err stack_err context_err : Error

-- The texts of the library's own `panic!`, `assert!`, `unwrap` and `expect`.
pub data Text : Type 0 where
  assertion : Text
  none_generator_context : Text
  done_outside : Text
  send_got_none : Text
  unwrap_none : Text

-- `Box<dyn Any + Send>`: what a panic carries. `user` is what the code of a generator throws.
pub data Payload : Type 0 where
  error : Error → Payload
  text : Text → Payload
  user : ℕ → Payload

pub data Outcome (W A : Type 0) : Type 0 where
  ok : A → W → Outcome W A
  panic : Payload → W → Outcome W A
  fault : Outcome W A

abbrev pub M : Type 0 → Type 0 → Type 0
M W A = W → Outcome W A

module _ {W : Type 0} where
  abbrev pub pure : {A : Type 0} → A → M W A
  pure = ok

  abbrev pub and_then : {A B : Type 0} → Outcome W A → (A → M W B) → Outcome W B
  and_then (ok a w) k = k a w
  and_then (panic e w) k = panic e w
  and_then fault k = fault

  infixl 5 ◌>>=◌ ◌>>◌
  abbrev pub ◌>>=◌ : {A B : Type 0} → M W A → (A → M W B) → M W B
  m >>= k = λ w. and_then (m w) k

  abbrev pub ◌>>◌ : {A B : Type 0} → M W A → M W B → M W B
  m >> n = m >>= λ _. n

  -- Undefined behaviour.
  abbrev pub undefined : {A : Type 0} → M W A
  undefined w = fault

  abbrev pub throw : {A : Type 0} → Payload → M W A
  throw = panic

  -- `assert!`
  abbrev pub assert : Bool → Text → M W (Unit {0})
  assert true t w = ok tt w
  assert false t w = panic (text t) w
