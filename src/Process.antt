-- ===== src/Process.antt =====
-- header/Process and src/Process: the memory of a process.
pub mod Mapping
