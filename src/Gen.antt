-- ===== src/Gen.antt =====
-- src/gen_impl.rs, src/yield_.rs, src/scope.rs and src/detail/gen.rs: generators, and the switches
-- between them.
pub mod Types
pub mod Impl
pub mod Yield
pub mod Machine
pub mod Views
pub mod Handover
pub mod Sends
pub mod Resume
pub mod Leave
pub mod Rounds
pub mod Forward
pub mod Passing
pub mod Inward
pub mod Ends
pub mod Panics
pub mod Cancel
pub mod Life
pub mod Drop
pub mod Outside
