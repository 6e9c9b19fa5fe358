-- ===== src/Tests.antt =====
-- Concrete threads, stacks and clients, and the theorems of the development at them.
mod Worlds
mod Rounds
mod Nested
mod Rings
mod Stacks
mod Runs
mod Switches
mod Coroutines
mod Programs
mod Targets
mod Overflows
