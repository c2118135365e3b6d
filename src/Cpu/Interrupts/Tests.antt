-- ===== src/Cpu/Interrupts/Tests.antt =====
-- Runs of src/CPUControl/interrupts.cpp before the switch to the APIC.
use crack_os.Base.{ℕ, ◌+◌, ◌*◌, ◌/◌, ◌%◌, ◌^◌, ◌<◌, ◌≡◌, refl, arith, true, false, [], ◌∷◌, ◌++◌}
use crack_os.Base.{◌==◌, if◌then◌else◌, ok}
use crack_os.Language.Bytes.{Bytes}
use crack_os.Acpi.Apic.{Device, Apic}
use crack_os.Base.{Run, ◌>>=◌}
use crack_os.Cpu.Interrupts.{
  Interrupts, Handlers, pic, pic1_data, pic2_data, mask_bit, is_hardware_interrupt_enabled,
  set_hardware_interrupt_enabled, send_eoi, setup_interrupt_vector_table, setup_interrupt_handler,
  on_stack,
}
use crack_os.Cpu.Gates.{empty_gate}
use crack_os.Cpu.Interrupts.Entry.{Interrupt, entry_function}
use crack_os.Cpu.Interrupts.Vectors.Ready.{
  entry_function-handler_of, delivered, IsReady, setup_interrupt_vector_table-IsReady,
}
use crack_os.Cpu.Interrupts.Lines.{set_hardware_interrupt_enabled-is_hardware_interrupt_enabled}

abbrev no_device : Device ℕ
no_device = record { read32 = λ p d. (0, d); write32 = λ p v d. d }

abbrev no_bytes : Bytes
no_bytes q = 0

abbrev no_apic : Apic
no_apic = record { acpi_table = 0; local_apic_address = 0; processor_count = 0; cpu_bitmap = 0 }

abbrev fresh : Interrupts
fresh = record {
  gates = λ _. empty_gate;
  callbacks = λ _. 0;
  hardware_interrupt_mask = 0xFF;
  offset = 240;
  is_active = true;
  apic_enabled = false;
  flag = true;
  lidt = [];
  ports = [];
}

abbrev some_handlers : Handlers
some_handlers = record { system_error = 0x100; on_invalid_opcode = 0x200; on_page_fault = 0x300 }

abbrev entry_address : ℕ → ℕ
entry_address n = 0x400000 + n * 16

setup_interrupt_vector_table-IsReady_example :
    IsReady
      (setup_interrupt_vector_table entry_address 0x10000 some_handlers fresh)
      0x4000E0
      0x300
      1
      14
    × ((setup_interrupt_vector_table entry_address 0x10000 some_handlers fresh).flag ≡ true)
setup_interrupt_vector_table-IsReady_example =
    setup_interrupt_vector_table-IsReady entry_address 0x10000 some_handlers fresh 14 (omega arith)
      (omega arith) (omega arith) (omega arith) (omega arith)

set_hardware_interrupt_enabled-is_hardware_interrupt_enabled_example :
    (t : Interrupts) × (set_hardware_interrupt_enabled no_device 0 no_bytes no_apic pic 1 true fresh
        0
      ≡ ok (t, 0))
    × ((k : ℕ)
        → is_hardware_interrupt_enabled no_device 0 no_bytes no_apic pic k t 0
          ≡ ok (if k == 1 then true else mask_bit 0xFF k == 0, 0))
    × (t.hardware_interrupt_mask < 2 ^ 16)
    × (t.ports
        ≡ []
          ++ (pic1_data, t.hardware_interrupt_mask % 2 ^ 8)
            ∷ (pic2_data, t.hardware_interrupt_mask / 2 ^ 8)
            ∷ [])
set_hardware_interrupt_enabled-is_hardware_interrupt_enabled_example =
    set_hardware_interrupt_enabled-is_hardware_interrupt_enabled no_device 0 no_bytes no_apic fresh
      0 refl 1 true refl (omega arith) (omega arith)

-- Setting up no handler leaves interrupts off.
no_handler : (setup_interrupt_handler 40 0 (on_stack 0) fresh).flag ≡ false
unfolding setup_interrupt_handler
no_handler = refl

-- A handler that notes its address and the error code as a write to a port.
abbrev noted : ℕ → Interrupt → Interrupts × ℕ → Run (Interrupts × ℕ)
noted handler i (s, d) = ok (record s { ports = s.ports ++ (handler, i.error_code) ∷ [] }, d)

entry_function-handler_of_example :
    entry_function no_device 0 no_bytes no_apic noted 14 0x7000 5
      (setup_interrupt_vector_table entry_address 0x10000 some_handlers fresh, 0)
    ≡ (noted 0x300
          (delivered 14 0x7000 5)
          (setup_interrupt_vector_table entry_address 0x10000 some_handlers fresh, 0)
        >>= λ t. ok (send_eoi no_device 0 no_bytes no_apic 14 t.0 t.1))
entry_function-handler_of_example =
    entry_function-handler_of no_device 0 no_bytes no_apic entry_address 0x10000 some_handlers fresh
      (setup_interrupt_vector_table entry_address 0x10000 some_handlers fresh) 0 noted 14 0x7000 5
      (omega arith) (omega arith) (omega arith) (omega arith) (omega arith) refl
