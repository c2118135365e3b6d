-- ===== src/Cpu.antt =====
-- src/CPUControl: interrupts.
pub mod Gates
pub mod Interrupts
