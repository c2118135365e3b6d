-- ===== src/Cpu/Interrupts/Switched/Tests.antt =====
-- The switch to the APIC of src/CPUControl/interrupts.cpp on a machine with one I/O APIC of 24 pins,
-- of which all are unmasked.
use crack_os.Base.{true, false, []}
use crack_os.Base.{◌==◌, if◌then◌else◌}
use crack_os.Acpi.Apic.Tests.{IoState}
use crack_os.Cpu.Gates.{empty_gate}
use crack_os.Cpu.Interrupts.{Interrupts}

abbrev before_switch : Interrupts
before_switch = record {
  gates = λ _. empty_gate;
  callbacks = λ _. 0;
  hardware_interrupt_mask = 0xFF;
  offset = 240;
  is_active = true;
  apic_enabled = false;
  flag = true;
  lidt = [];
  ports = [];
}

abbrev unmasked_state : IoState
unmasked_state = record { chosen = 0; registers = λ i. if i == 1 then 0x170020 else 0 }
