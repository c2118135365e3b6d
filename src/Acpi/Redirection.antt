-- ===== src/Acpi/Redirection.antt =====
-- src/ACPI/APIC.cpp: the entry of an I/O APIC for one of its pins, and its two registers.
use crack_os.Base.{ℕ, ◌+◌, ◌*◌, ◌/◌, ◌%◌, ◌^◌}

-- RedirectionEntry
pub record RedirectionEntry : Type 0 where
  pub vector : ℕ
  pub delv_mode : ℕ
  pub dest_mode : ℕ
  pub delv_status : ℕ
  pub pin_polarity : ℕ
  pub remote_irr : ℕ
  pub trigger_mode : ℕ
  pub masked : ℕ
  pub reserved : ℕ
  pub destination : ℕ

abbrev pub from_dwords : ℕ → ℕ → RedirectionEntry
from_dwords low high = record {
  vector = low % 2 ^ 8;
  delv_mode = low / 2 ^ 8 % 2 ^ 3;
  dest_mode = low / 2 ^ 11 % 2;
  delv_status = low / 2 ^ 12 % 2;
  pin_polarity = low / 2 ^ 13 % 2;
  remote_irr = low / 2 ^ 14 % 2;
  trigger_mode = low / 2 ^ 15 % 2;
  masked = low / 2 ^ 16 % 2;
  reserved = low / 2 ^ 17 % 2 ^ 15 + high % 2 ^ 24 * 2 ^ 15;
  destination = high / 2 ^ 24 % 2 ^ 8;
}

abbrev pub lower_dword : RedirectionEntry → ℕ
lower_dword e =
    e.vector
    + e.delv_mode * 2 ^ 8
    + e.dest_mode * 2 ^ 11
    + e.delv_status * 2 ^ 12
    + e.pin_polarity * 2 ^ 13
    + e.remote_irr * 2 ^ 14
    + e.trigger_mode * 2 ^ 15
    + e.masked * 2 ^ 16
    + e.reserved % 2 ^ 15 * 2 ^ 17

abbrev pub upper_dword : RedirectionEntry → ℕ
upper_dword e = e.reserved / 2 ^ 15 + e.destination * 2 ^ 24

-- The fields that mapInterrupt sets.
abbrev pub mapped_entry : RedirectionEntry → ℕ → ℕ → RedirectionEntry
mapped_entry e result_vector cpu_id = record e {
  vector = result_vector;
  delv_mode = 0;
  dest_mode = 0;
  delv_status = 0;
  pin_polarity = 0;
  trigger_mode = 0;
  masked = 0;
  destination = cpu_id;
}
