-- ===== src/Acpi.antt =====
-- src/ACPI: the tables of the firmware and what they describe.
pub mod Redirection
pub mod Apic
