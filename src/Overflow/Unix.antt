-- ===== src/Overflow/Unix.antt =====
-- src/stack/overflow_unix.rs. The C library's table of signal actions and the thread's signal mask
-- are in the state. A fault is an access to an address, with the number of the signal that the kernel
-- raises for it. What the handler prints is left out.
use generator_rs.Base.{
  ℕ, Bool, true, false, ◌&&◌, some, List, [], ◌∷◌, leb, ltb, if◌then◌else◌, update,
}
use generator_rs.Panic.{error, Error, Outcome, M, ok, panic, fault, pure, ◌>>=◌, ◌>>◌}
use generator_rs.Rt.Context.{Ptr}
use generator_rs.Rt.Env.{guard_current}
use generator_rs.Gen.Types.{World, finished, on_mem}
use generator_rs.Gen.Impl.{with_context, env}
use generator_rs.Gen.Yield.{top_context}
use generator_rs.Gen.Machine.{Machine, at, crashed, swap, leave_gen}

-- `sigaction`: the crate's handler, or one that was there before.
pub data SigAction : Type 0 where
  handler : SigAction
  other : ℕ → SigAction

pub record Signals : Type 0 where
  pub actions : ℕ → SigAction
  pub blocked : ℕ → Bool
  -- `SIG_ACTION`
  pub sig_action : SigAction
  -- `INIT_ONCE`
  pub is_init : Bool

-- `for signal in [SIGSEGV, SIGBUS] { sigaction(signal, &action, old_action) }`
abbrev pub install : List ℕ → Signals → Signals
install [] s = s
install (n ∷ ns) s =
    install ns (record s { actions = update s.actions n handler; sig_action = s.actions n })

-- `init`, at the numbers of the two signals.
unfoldable pub init : (sigsegv sigbus : ℕ) → Signals → Signals
init sigsegv sigbus s = install (sigsegv ∷ sigbus ∷ []) s

unfoldable pub init_once : (sigsegv sigbus : ℕ) → Signals → Signals
unfolding init
init_once sigsegv sigbus s =
    if s.is_init then s else record (init sigsegv sigbus s) { is_init = true }

-- `Range::contains`
abbrev pub contains : ℕ × ℕ → ℕ → Bool
contains g a = leb g.0 a && ltb a g.1

pub record Process (S : Type 0) : Type 0 where
  pub world : World S
  pub signals : Signals

-- How the handler ends: it returns, and the access is tried again, or it switches from one context
-- to another, with `abort` behind the switch.
pub data Handled : Type 0 where
  again : Handled
  switched : (out into : Ptr) → Handled

module _ {S : Type 0} where
  abbrev pub in_world : {A : Type 0} → M (World S) A → M (Process S) A
  in_world f p = elim (f p.world) [
    | ok a w ↦ ok a (record p { world = w })
    | panic e w ↦ panic e (record p { world = w })
    | fault ↦ fault
  ]

  abbrev pub signal : (Signals → Signals) → M (Process S) (Unit {0})
  signal f p = ok tt (record p { signals = f p.signals })

  -- `signal_handler`
  unfoldable pub signal_handler : (page_size signum addr : ℕ) → M (Process S) Handled
  signal_handler page_size signum addr = do
    root ← in_world env
    guard ← in_world (on_mem (guard_current page_size root))
    if contains guard addr
        then (do
          ctx ← in_world top_context
          in_world (with_context ctx λ c. record c { err = some (error Error.stack_err) })
          signal λ s. record s { blocked = update s.blocked signum false }
          (out, into) ← in_world leave_gen
          pure (switched out into))
        else (do
          signal λ s. record s { actions = update s.actions signum s.sig_action }
          pure again)

  -- The thread behind the handler's switch. A panic in the handler aborts the process.
  unfoldable pub handled : Outcome (Process S) Handled → (otherwise : Machine S) → Machine S
  handled (ok (switched out into) p) m = swap out finished into p.world
  handled (ok again p) m = m
  handled (panic e p) m = at crashed p.world
  handled fault m = m

  -- The kernel calls the action that is installed for the signal; what one does that is not the
  -- crate's is `others`.
  unfoldable pub delivered :
      (others : ℕ → Process S → Machine S)
      → (page_size signum addr : ℕ) → Process S
      → Machine S
      → Machine S
  unfolding handled signal_handler
  delivered others page_size signum addr p m = elim (p.signals.actions signum) [
    | handler ↦ handled (signal_handler page_size signum addr p) m
    | other n ↦ others n p
  ]
