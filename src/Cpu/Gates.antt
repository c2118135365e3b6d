-- ===== src/Cpu/Gates.antt =====
-- src/CPUControl/interrupts.cpp: the entries of the vector table.
use crack_os.Base.{ℕ, zero, suc, ◌+◌, ◌/◌, ◌%◌, ◌^◌, Bool, true, false}
use crack_os.Base.{if◌then◌else◌, update}

pub record InterruptGate : Type 0 where
  pub low_address : ℕ
  pub segment_selector : ℕ
  pub interrupt_stack : ℕ
  pub zero0 : ℕ
  pub type : ℕ
  pub zero1 : ℕ
  pub descriptor_privilege_level : ℕ
  pub present : Bool
  pub middle_address : ℕ
  pub high_address : ℕ
  pub reserved : ℕ

-- memset(interruptVectorTable, 0, sizeof(interruptVectorTable))
abbrev pub empty_gate : InterruptGate
empty_gate = record {
  low_address = 0;
  segment_selector = 0;
  interrupt_stack = 0;
  zero0 = 0;
  type = 0;
  zero1 = 0;
  descriptor_privilege_level = 0;
  present = false;
  middle_address = 0;
  high_address = 0;
  reserved = 0;
}

pub record InterruptOptions : Type 0 where
  pub callable_from_user_mode : Bool
  pub interrupt_stack : ℕ

-- set
abbrev pub set_gate : InterruptGate → ℕ → InterruptGate
set_gate g funct = record g {
  low_address = funct % 2 ^ 16;
  middle_address = funct / 2 ^ 16 % 2 ^ 16;
  high_address = funct / 2 ^ 32 % 2 ^ 32;
}

-- fillInterruptVectorTable, whose calls are those of `set` for each of the 256 numbers in order.
unfoldable pub fill_loop : ℕ → (ℕ → ℕ) → ℕ → (ℕ → InterruptGate) → ℕ → InterruptGate
fill_loop zero entry i gates = gates
fill_loop (suc left) entry i gates =
    fill_loop left entry (i + 1) (update gates i (set_gate (gates i) (entry i)))

unfoldable pub fill_interrupt_vector_table : (ℕ → ℕ) → (ℕ → InterruptGate) → ℕ → InterruptGate
fill_interrupt_vector_table entry gates = fill_loop 256 entry 0 gates

-- The fields that setupInterruptHandler sets; 8 is the selector of the kernel's code.
abbrev pub handler_gate : InterruptGate → InterruptOptions → InterruptGate
handler_gate g options = record g {
  zero0 = 0;
  zero1 = 0;
  reserved = 0;
  present = true;
  type = 0xE;
  segment_selector = 8;
  descriptor_privilege_level = if options.callable_from_user_mode then 3 else 0;
  interrupt_stack = options.interrupt_stack % 2 ^ 3;
}
