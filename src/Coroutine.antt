-- ===== src/Coroutine.antt =====
-- What the crate promises (README.md, src/gen_impl.rs, src/yield_.rs, src/scope.rs), without contexts
-- and registers: coroutines that are entered and left, and the proof that the thread of
-- Gen/Machine.antt runs them.
pub mod Abstract
pub mod Refines
pub mod Frames
pub mod Enter
pub mod Leave
pub mod Entering
pub mod Arriving
pub mod Leaving
pub mod Stopping
pub mod Ending
pub mod Rest
pub mod Making
pub mod Asking
pub mod Cancelling
pub mod Dropping
pub mod Setting
pub mod Taking
pub mod Steps
pub mod Runs
