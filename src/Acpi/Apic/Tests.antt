-- ===== src/Acpi/Apic/Tests.antt =====
-- Runs of src/ACPI/APIC.cpp on a table with one I/O APIC of 24 pins.
use crack_os.Base.{ℕ, ◌+◌, ◌≡◌, ◌≢◌, refl, arith, true, false, List, [], ◌∷◌, inr, some}
use crack_os.Base.{◌==◌, if◌then◌else◌, ok}
use crack_os.Language.Bytes.{Bytes}
use crack_os.Memory.Physical.{window}
use crack_os.Storage.Sata.Device.{load32}
use crack_os.Acpi.Apic.{
  Device, Apic, read_io_apic, write_io_apic, is_interrupt_enabled, map_interrupt, get_interrupt,
}
use crack_os.Acpi.Apic.Walk.{IsIoApic, HoldsEntries, find_io_apic}
use crack_os.Acpi.Apic.Pins.Queries.{map_interrupt-get_interrupt, map_interrupt-IsBeyond}

abbrev pub io_address : ℕ
io_address = 0xFEC00000 + window

pub record IoState : Type 0 where
  pub chosen : ℕ
  pub registers : ℕ → ℕ

abbrev write_register : ℕ → ℕ → IoState → IoState
write_register p v d =
    if p == io_address
    then record d { chosen = v }
    else if p == io_address + 16
    then record d { registers = λ i. if i == d.chosen then v else d.registers i }
    else d

abbrev pub io_device : Device IoState
io_device = record {
  read32 = λ p d. (if p == io_address + 16 then d.registers d.chosen else 0, d);
  write32 = write_register;
}

abbrev pub register_at : IoState → ℕ → ℕ → ℕ
register_at d a i = if a == io_address then d.registers i else 0

abbrev pub IsHere : ℕ → Type 0
IsHere a = a ≡ io_address

self : (i v r : ℕ) → (if i == i then v else r) ≡ v
self i v r = ground arith

miss : (j i v r : ℕ) → j ≢ i → (if j == i then v else r) ≡ r
miss j i v r h = ground arith

pub io_device-IsIoApic : IsIoApic io_device register_at IsHere
unfolding read_io_apic write_io_apic
io_device-IsIoApic = record {
  value = λ a i d at lt. rw at refl;
  unchanged = λ a i d b j at lt. rw at refl;
  vector = λ a i v d at lo hi even. rw at (rw (self i v (d.registers i)) refl);
  mask_bit = λ a i v d at lo hi even. rw at (rw (self i v (d.registers i)) refl);
  other = λ a i v d b j at lo hi ne. rw at (rw (miss j i v (d.registers j) ne) refl);
}

-- The table at 0x1000: 44 bytes, and one entry of 12.
abbrev pub table_bytes : Bytes
table_bytes q =
    if q == 0x1004
    then 56
    else if q == 0x102C
    then 1
    else if q == 0x102D
    then 12
    else if q == 0x1032
    then 0xC0
    else if q == 0x1033
    then 0xFE
    else 0

abbrev pub found_apic : Apic
found_apic = record {
  acpi_table = 0x1000;
  local_apic_address = 0;
  processor_count = 0;
  cpu_bitmap = 0;
}

-- The last pin has the number 23, which the register 1 holds; all pins are masked.
abbrev pub start_state : IoState
start_state = record { chosen = 0; registers = λ i. if i == 1 then 0x170020 else 0x10000 }

abbrev pub one_entry : List ℕ
one_entry = 0x102C ∷ []

pub one_entry-HoldsEntries : HoldsEntries table_bytes IsHere 0x102C 12 one_entry
unfolding load32
one_entry-HoldsEntries = (refl, omega arith, omega arith, λ _. (omega arith, refl), refl)

served :
    find_io_apic table_bytes (λ a. register_at start_state a 1) 21 one_entry ≡ some (io_address, 0)
unfolding load32
served = refl

map_interrupt-get_interrupt_example :
    (d1 : IoState) × (map_interrupt io_device 2 table_bytes found_apic 21 32 0 start_state
      ≡ ok (tt, d1))
    × ((d2 : IoState) × (get_interrupt io_device 2 table_bytes found_apic 21 d1 ≡ ok (32, d2)))
    × ((d2 : IoState) × (is_interrupt_enabled io_device 2 table_bytes found_apic 21 d1
          ≡ ok (true, d2)))
unfolding load32
map_interrupt-get_interrupt_example =
    map_interrupt-get_interrupt io_device register_at IsHere io_device-IsIoApic table_bytes
      found_apic one_entry 2 21 one_entry-HoldsEntries (omega arith) start_state io_address 0 32 0
      served (omega arith) (omega arith)

-- The last pin.
map_interrupt-IsBeyond_example :
    ((d1 : IoState) × (map_interrupt io_device 2 table_bytes found_apic 23 32 0 start_state
        ≡ ok (tt, d1))
      × ((x j : ℕ) → register_at d1 x j ≡ register_at start_state x j))
    × ((d1 : IoState) × (get_interrupt io_device 2 table_bytes found_apic 23 start_state
          ≡ ok (0xFF, d1)))
    × ((d1 : IoState) × (is_interrupt_enabled io_device 2 table_bytes found_apic 23 start_state
          ≡ ok (false, d1)))
unfolding load32
map_interrupt-IsBeyond_example =
    map_interrupt-IsBeyond io_device register_at IsHere io_device-IsIoApic table_bytes found_apic
      one_entry 2 23 one_entry-HoldsEntries (omega arith) start_state 32 0
      ((λ _. inr (omega arith, omega arith)), tt) (omega arith)
