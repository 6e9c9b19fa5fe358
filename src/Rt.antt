-- ===== src/Rt.antt =====
-- src/rt.rs: contexts, the thread's stack of contexts, and the queries over it.
pub mod Context
pub mod Env
pub mod Ring
pub mod Links
pub mod Push
pub mod Pop
pub mod Splice
pub mod Search
pub mod Slots
