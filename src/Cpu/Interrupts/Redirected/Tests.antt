-- ===== src/Cpu/Interrupts/Redirected/Tests.antt =====
-- The timer's line 0 in src/CPUControl/interrupts.cpp, on a table with one I/O APIC and the override
-- that names the interrupt 2 for it.
use crack_os.Base.{ℕ, ◌≡◌, refl, arith, true, false, some, List, [], ◌∷◌}
use crack_os.Base.{◌==◌, if◌then◌else◌, ok}
use crack_os.Language.Bytes.{Bytes}
use crack_os.Storage.Sata.Device.{load32}
use crack_os.Acpi.Apic.{map_interrupt}
use crack_os.Acpi.Apic.Walk.{HoldsEntries, find_io_apic}
use crack_os.Acpi.Apic.Tests.{
  IoState, io_address, io_device, register_at, IsHere, io_device-IsIoApic, found_apic, start_state,
}
use crack_os.Cpu.Gates.{empty_gate}
use crack_os.Cpu.Interrupts.{
  Interrupts, pic, hardware_interrupt_to_vector, is_hardware_interrupt_enabled,
  set_hardware_interrupt_enabled,
}
use crack_os.Cpu.Interrupts.Redirected.{
  redirected, map_interrupt-hardware_interrupt_to_vector, set_hardware_interrupt_enabled-redirected,
}

abbrev switched : Interrupts
switched = record {
  gates = λ _. empty_gate;
  callbacks = λ _. 0;
  hardware_interrupt_mask = 0xFF;
  offset = 240;
  is_active = false;
  apic_enabled = true;
  flag = true;
  lidt = [];
  ports = [];
}

-- The table at 0x1000: 44 bytes, the I/O APIC's entry of 12 and the override's of 10.
abbrev two_entry_bytes : Bytes
two_entry_bytes q =
    if q == 0x1004
    then 66
    else if q == 0x102C
    then 1
    else if q == 0x102D
    then 12
    else if q == 0x1032
    then 0xC0
    else if q == 0x1033
    then 0xFE
    else if q == 0x1038
    then 2
    else if q == 0x1039
    then 10
    else if q == 0x103C
    then 2
    else 0

abbrev two_entries : List ℕ
two_entries = 0x102C ∷ 0x1038 ∷ []

timer_line : redirected two_entry_bytes two_entries 0 ≡ 2
unfolding load32
timer_line = refl

two_entries-HoldsEntries : HoldsEntries two_entry_bytes IsHere 0x102C 22 two_entries
unfolding load32
two_entries-HoldsEntries = (
  refl,
  omega arith,
  omega arith,
  (λ _. (omega arith, refl)),
  (refl, omega arith, omega arith, (λ h. absurd (omega arith)), refl),
)

timer_served :
    find_io_apic two_entry_bytes (λ a. register_at start_state a 1) 2 two_entries
    ≡ some (io_address, 0)
unfolding load32
timer_served = refl

map_interrupt-hardware_interrupt_to_vector_example :
    (d1 : IoState) × (map_interrupt io_device 3 two_entry_bytes found_apic 2 32 0 start_state
      ≡ ok (tt, d1))
    × ((d2 : IoState) × (hardware_interrupt_to_vector io_device 3 two_entry_bytes found_apic pic 0
            switched d1
          ≡ ok (32, d2)))
    × ((d2 : IoState) × (is_hardware_interrupt_enabled io_device 3 two_entry_bytes found_apic pic 0
            switched d1
          ≡ ok (true, d2)))
unfolding load32
map_interrupt-hardware_interrupt_to_vector_example =
    map_interrupt-hardware_interrupt_to_vector io_device register_at IsHere io_device-IsIoApic
      two_entry_bytes found_apic two_entries 3 0 two_entries-HoldsEntries (omega arith) switched
      refl start_state io_address 0 32 0 timer_served (omega arith) (omega arith)

set_hardware_interrupt_enabled-redirected_example :
    (d1 : IoState) × (set_hardware_interrupt_enabled io_device 3 two_entry_bytes found_apic pic 0
        true switched start_state
      ≡ ok (switched, d1))
    × ((d2 : IoState) × (is_hardware_interrupt_enabled io_device 3 two_entry_bytes found_apic pic 0
            switched d1
          ≡ ok (true, d2)))
    × ((vector : ℕ) × ((d2 : IoState) × (hardware_interrupt_to_vector io_device 3 two_entry_bytes
              found_apic pic 0 switched start_state
            ≡ ok (vector, d2)))
        × ((d2 : IoState) × (hardware_interrupt_to_vector io_device 3 two_entry_bytes found_apic pic
                0 switched d1
              ≡ ok (vector, d2))))
unfolding load32
set_hardware_interrupt_enabled-redirected_example =
    set_hardware_interrupt_enabled-redirected io_device register_at IsHere io_device-IsIoApic
      two_entry_bytes found_apic two_entries 3 0 two_entries-HoldsEntries (omega arith) switched
      refl start_state io_address 0 true timer_served (omega arith)
