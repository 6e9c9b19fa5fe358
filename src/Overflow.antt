-- ===== src/Overflow.antt =====
-- The handlers of a stack overflow: src/stack/overflow_unix.rs and src/stack/overflow_windows.rs.
pub mod Unix
pub mod Signals
pub mod Windows
pub mod Exceptions
