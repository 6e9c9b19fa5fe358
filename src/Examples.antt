-- ===== src/Examples.antt =====
-- The programs of src/examples, run on the abstract view of Coroutine/Abstract.
pub mod Steps
pub mod Iterators
pub mod Loops
pub mod Range
pub mod Adapters
pub mod Pipe
pub mod Number
pub mod Cd
