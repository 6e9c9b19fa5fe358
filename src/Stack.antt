-- ===== src/Stack.antt =====
-- src/stack/: the memory that a generator runs on.
pub mod Sys
pub mod Windows
pub mod Committed
pub mod Pages
pub mod Allocate
pub mod Words
pub mod Layouts
pub mod Boxes
pub mod Usage
pub mod Placement
pub mod Values
pub mod Placed
pub mod Lifetime
