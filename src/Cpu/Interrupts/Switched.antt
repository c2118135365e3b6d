-- ===== src/Cpu/Interrupts/Switched.antt =====
-- Interrupt::switchToAPICMode of src/CPUControl/interrupts.cpp: what it leaves of the lines.
mod Tests
use crack_os.Base.{
  ℕ, ◌+◌, ◌-◌, ◌/◌, ◌%◌, ◌<◌, ◌≤◌, ◌≡◌, ◌≢◌, sym, Bool, true, false, List, [], ◌∷◌, ◌++◌, length,
}
use crack_os.Base.{sub64}
use crack_os.Language.Bytes.{Bytes}
use crack_os.Storage.Sata.Device.{load32}
use crack_os.Acpi.Apic.{Device, Apic, low_register, sub32, write_io_apic}
use crack_os.Acpi.Apic.Walk.{IsIoApic, HoldsEntries}
use crack_os.Cpu.Interrupts.{Interrupts, pic1_data, pic2_data, out8}

module _ {D : Type 0} (device : Device D) (reg : D → ℕ → ℕ → ℕ) (IsAt : ℕ → Type 0)
    (law : IsIoApic device reg IsAt)
    (apart : (x i v : ℕ) (d : D) (y j : ℕ)
      → IsAt x
      → 16 ≤ i
      → i < 64
      → y ≢ x
      → reg (write_io_apic device x i v d) y j ≡ reg d y j)
    (m : Bytes) (a : Apic) (es : List ℕ) (fuel : ℕ)
    (table : HoldsEntries m IsAt (a.acpi_table + 44) (sub64 (load32 m (a.acpi_table + 4)) 44) es)
    (enough : length es < fuel) (s : Interrupts) where
  abbrev switched : Interrupts
  switched = record s {
    apic_enabled = true;
    is_active = false;
    ports = (s.ports ++ (pic1_data, 0xFF) ∷ []) ++ (pic2_data, 0xFF) ∷ [];
  }
