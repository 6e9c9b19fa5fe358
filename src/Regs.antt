-- ===== src/Regs.antt =====
-- The switch on the registers of a processor, target by target.
pub mod Machine
pub mod Switch
pub mod Linked
pub mod Aarch64
pub mod Arm
pub mod Loongarch64
pub mod Riscv64
pub mod Tables
pub mod Targets
pub mod Windows
pub mod Bounds
pub mod Fresh
