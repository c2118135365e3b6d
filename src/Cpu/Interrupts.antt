-- ===== src/Cpu/Interrupts.antt =====
-- src/CPUControl/interrupts.cpp: the vector table with its handlers, the two interrupt controllers
-- (PIC), and the choice between them and the APIC. Addresses of functions are numbers, 0 for none;
-- `entry` has those of the functions in the table.
pub mod Vectors
pub mod Lines
pub mod Entry
pub mod Redirected
pub mod Switched
mod Tests
use crack_os.Cpu.Gates.{
  InterruptGate, empty_gate, InterruptOptions, set_gate, fill_loop, fill_interrupt_vector_table,
  handler_gate,
}
use crack_os.Base.{ℕ, zero, suc, ◌+◌, ◌-◌, ◌*◌, ◌/◌, ◌%◌, ◌^◌, Bool, true, false, not, ◌&&◌, ◌||◌}
use crack_os.Base.{List, [], ◌∷◌, ◌++◌}
use crack_os.Base.{ltb, leb, ◌==◌, if◌then◌else◌, Run, ok, stopped, ◌>>=◌, update}
use crack_os.Language.Bytes.{Bytes}
use crack_os.Acpi.Apic.{
  Device, Apic, get_source_override, get_interrupt, is_interrupt_enabled, set_interrupt_enabled,
}
use crack_os.Acpi.Apic.Local.{set_spurious_interrupt_vector, send_end_of_interrupt}

-- The file's variables, with the interrupt flag of the processor, the operand of the last lidt, and
-- the writes to ports so far: their ports and values.
pub record Interrupts : Type 0 where
  pub gates : ℕ → InterruptGate
  pub callbacks : ℕ → ℕ
  pub hardware_interrupt_mask : ℕ
  pub offset : ℕ
  pub is_active : Bool
  pub apic_enabled : Bool
  pub flag : Bool
  pub lidt : List ℕ
  pub ports : List (ℕ × ℕ)

pub data HardwareInterruptNumberSource : Type 0 where
  pic apic : HardwareInterruptNumberSource

abbrev pub pic1_command : ℕ
pic1_command = 0x20

abbrev pub pic1_data : ℕ
pic1_data = 0x21

abbrev pub pic2_command : ℕ
pic2_command = 0xA0

abbrev pub pic2_data : ℕ
pic2_data = 0xA1

abbrev pub out8 : ℕ → ℕ → Interrupts → Interrupts
out8 port value s = record s { ports = s.ports ++ (port, value) ∷ [] }

-- ICW1_INIT | ICW1_ICW4, and ICW4_8086
abbrev pub start_command : ℕ
start_command = 0x11

abbrev pub mode_8086 : ℕ
mode_8086 = 1

abbrev pub remap_pic_interrupts : ℕ → Interrupts → Interrupts
remap_pic_interrupts offset s = record s {
  hardware_interrupt_mask = 0xFF;
  is_active = true;
  ports =
      s.ports
      ++ (pic1_data, 0xFF)
        ∷ (pic2_data, 0xFF)
        ∷ (pic1_command, start_command)
        ∷ (pic2_command, start_command)
        ∷ (pic1_data, offset)
        ∷ (pic2_data, (offset + 8) % 2 ^ 8)
        ∷ (pic1_data, 4)
        ∷ (pic2_data, 2)
        ∷ (pic1_data, mode_8086)
        ∷ (pic2_data, mode_8086)
        ∷ [];
}

pub setup_interrupt_handler : ℕ → ℕ → InterruptOptions → Interrupts → Interrupts
setup_interrupt_handler n handler options s =
    let t = record s { flag = false; callbacks = update s.callbacks n handler } in
    if handler == 0
    then record t { gates = update s.gates n (record (s.gates n) { present = false }) }
    else record t { gates = update s.gates n (handler_gate (s.gates n) options); flag = s.flag }

-- The functions that setupInterruptVectorTable names.
pub record Handlers : Type 0 where
  pub system_error : ℕ
  pub on_invalid_opcode : ℕ
  pub on_page_fault : ℕ

abbrev pub on_stack : ℕ → InterruptOptions
on_stack stack = record { callable_from_user_mode = true; interrupt_stack = stack }

pub handler_loop : ℕ → ℕ → ℕ → Interrupts → Interrupts
handler_loop zero handler i s = s
handler_loop (suc left) handler i s =
    handler_loop left handler (i + 1) (setup_interrupt_handler i handler (on_stack 2) s)

-- The ten bytes that lidt loads: the size less one, and the address of the table.
abbrev pub lidt_data : ℕ → List ℕ
lidt_data table =
    0xFF
    ∷ 0x0F
    ∷ table % 2 ^ 8
    ∷ (table / 2 ^ 8 % 2 ^ 8)
    ∷ (table / 2 ^ 16 % 2 ^ 8)
    ∷ (table / 2 ^ 24 % 2 ^ 8)
    ∷ (table / 2 ^ 32 % 2 ^ 8)
    ∷ (table / 2 ^ 40 % 2 ^ 8)
    ∷ (table / 2 ^ 48 % 2 ^ 8)
    ∷ (table / 2 ^ 56 % 2 ^ 8)
    ∷ []

-- setupInterruptVectorTable as far as lidt, with `table` the address of the vector table. The flag
-- is at the end what it was.
abbrev pub load_table : (ℕ → ℕ) → ℕ → Interrupts → Interrupts
load_table entry table s =
    let t = remap_pic_interrupts 240 (record s {
      apic_enabled = false;
      gates = fill_interrupt_vector_table entry (λ _. empty_gate);
      callbacks = λ _. 0;
      offset = 240;
    }) in
    record t { lidt = lidt_data table }

pub setup_interrupt_vector_table : (ℕ → ℕ) → ℕ → Handlers → Interrupts → Interrupts
setup_interrupt_vector_table entry table h s =
    setup_interrupt_handler 14 h.on_page_fault (on_stack 1) (
      setup_interrupt_handler 6 h.on_invalid_opcode (on_stack 1)
        (handler_loop 256 h.system_error 0 (load_table entry table s)))

-- `mask & (1 << n)` as a digit, and the mask with this bit cleared or set. The shift has no defined
-- result for n from 32 on, which no line of the PICs is.
pub mask_bit : ℕ → ℕ → ℕ
mask_bit mask zero = mask % 2
mask_bit mask (suc n) = mask_bit (mask / 2) n

pub cleared : ℕ → ℕ → ℕ
cleared mask zero = mask - mask % 2
cleared mask (suc n) = cleared (mask / 2) n * 2 + mask % 2

pub with_bit : ℕ → ℕ → ℕ
with_bit mask zero = mask - mask % 2 + 1
with_bit mask (suc n) = with_bit (mask / 2) n * 2 + mask % 2

-- sendEOI while the PICs are used.
pub send_pic_end : ℕ → Interrupts → Interrupts
send_pic_end n s =
    if ltb s.offset n
    then (if leb (s.offset + 8) n
        then out8 pic1_command 0x20 (out8 pic2_command 0x20 s)
        else out8 pic1_command 0x20 s)
    else s

abbrev pub set_pic_interrupt : ℕ → Bool → Interrupts → Interrupts
set_pic_interrupt n enabled s =
    let mask =
      if enabled
      then cleared s.hardware_interrupt_mask n
      else with_bit s.hardware_interrupt_mask n % 2 ^ 16 in
    out8 pic2_data (mask / 2 ^ 8)
      (out8 pic1_data (mask % 2 ^ 8) (record s { hardware_interrupt_mask = mask }))

module _ {D : Type 0} (device : Device D) (fuel : ℕ) (m : Bytes) (a : Apic) where
  -- The interrupt of the APIC for a line of the PICs; without an override it is the line's number.
  pub global_interrupt : ℕ → D → Run (ℕ × D)
  global_interrupt n d = do
    (found, d1) ← get_source_override device fuel m a n d
    ok (if found == 2 ^ 32 - 1 then n else found, d1)

  pub hardware_interrupt_to_vector :
      HardwareInterruptNumberSource → ℕ → Interrupts → D → Run (ℕ × D)
  hardware_interrupt_to_vector pic n s d = elim s.apic_enabled [
    | true ↦ do (global, d1) ← global_interrupt n d; get_interrupt device fuel m a global d1
    | false ↦ ok (if s.is_active then (n + s.offset) % 2 ^ 8 else 0, d)
  ]
  hardware_interrupt_to_vector apic n s d = elim s.apic_enabled [
    | true ↦ get_interrupt device fuel m a n d
    | false ↦ ok (0, d)
  ]

  pub is_hardware_interrupt_enabled :
      HardwareInterruptNumberSource → ℕ → Interrupts → D → Run (Bool × D)
  is_hardware_interrupt_enabled pic n s d = elim s.apic_enabled [
    | true ↦ do (global, d1) ← global_interrupt n d; is_interrupt_enabled device fuel m a global d1
    | false ↦ ok (if s.is_active then mask_bit s.hardware_interrupt_mask n == 0 else false, d)
  ]
  is_hardware_interrupt_enabled apic n s d = elim s.apic_enabled [
    | true ↦ is_interrupt_enabled device fuel m a n d
    | false ↦ ok (false, d)
  ]

  -- The flag is at the end what it was.
  pub set_hardware_interrupt_enabled :
      HardwareInterruptNumberSource → ℕ → Bool → Interrupts → D → Run (Interrupts × D)
  set_hardware_interrupt_enabled pic n enabled s d = elim s.apic_enabled [
    | true ↦ do
      (global, d1) ← global_interrupt n d
      (done, d2) ← set_interrupt_enabled device fuel m a global enabled d1
      ok (s, d2)
    | false ↦ ok (if s.is_active then set_pic_interrupt n enabled s else s, d)
  ]
  set_hardware_interrupt_enabled apic n enabled s d = elim s.apic_enabled [
    | true ↦ do (done, d1) ← set_interrupt_enabled device fuel m a n enabled d; ok (s, d1)
    | false ↦ ok (s, d)
  ]

  pub send_eoi : ℕ → Interrupts → D → Interrupts × D
  send_eoi n s d =
      if s.is_active
      then (send_pic_end n s, d)
      else (s, if s.apic_enabled then send_end_of_interrupt device a d else d)

  pub switch_to_apic_mode : Interrupts → D → Run (Interrupts × D)
  switch_to_apic_mode s d = do
    let t = record s { apic_enabled = true; is_active = false }
    d1 ← set_spurious_interrupt_vector device fuel m a 0xFF d
    ok (out8 pic2_data 0xFF (out8 pic1_data 0xFF t), d1)
