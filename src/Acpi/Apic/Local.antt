-- ===== src/Acpi/Apic/Local.antt =====
-- src/ACPI/APIC.cpp: the local APIC, the setup of both, and the processors of the table.
pub mod Masked
pub mod Silenced
use crack_os.Base.{ℕ, zero, suc, ◌+◌, ◌*◌, ◌/◌, ◌%◌, ◌^◌, Bool, true, false}
use crack_os.Base.{Option, none}
use crack_os.Base.{◌==◌, if◌then◌else◌, sub64, Run, ok, out_of_fuel, ◌>>=◌}
use crack_os.Language.Bytes.{Bytes}
use crack_os.Memory.Physical.{map_pages}
use crack_os.Storage.Sata.Device.{load32}
use Prim.Native.Nat.{bit_and, bit_or}
use crack_os.Acpi.Apic.{
  Device, Apic, read_io_apic, read_entry, write_entry, walk_table, entry_type, entry_length,
  io_apic_address, redirection_count,
}

module _ {D : Type 0} (device : Device D) where
  -- APIC::set and APIC::get
  pub set_local : Apic → ℕ → ℕ → D → D
  set_local s offset value d = device.write32 (s.local_apic_address + offset) value d

  pub get_local : Apic → ℕ → D → ℕ × D
  get_local s offset d = device.read32 (s.local_apic_address + offset) d

  -- The inner loop of setSpuriousInterruptVector, `left` pins still to come.
  pub mask_loop : ℕ → ℕ → ℕ → D → D
  mask_loop zero address i d = d
  mask_loop (suc left) address i d =
      let (e, d1) = read_entry device address i d in
      mask_loop left address (i + 1) (write_entry device address i (record e { masked = 1 }) d1)

  pub mask_entries : Bytes → ℕ → D → Run (Option (Unit {0}) × D)
  mask_entries m entry d = elim (entry_type m entry == 1) [
    | false ↦ ok (none, d)
    | true ↦ do
      address ← map_pages (io_apic_address m entry)
      let (version, d1) = read_io_apic device address 1 d
      ok (none, mask_loop (redirection_count version) address 0 d1)
  ]

  pub set_spurious_interrupt_vector : ℕ → Bytes → Apic → ℕ → D → Run D
  set_spurious_interrupt_vector fuel m s vector d = do
    let (current, d1) = get_local s 0x0F0 d
    let d2 = set_local s 0x0F0 (bit_or (bit_or vector 0x100) current) d1
    (found, d3) ← walk_table device (mask_entries m) fuel m s d2
    ok d3

  pub get_cpu_id : Apic → D → ℕ × D
  get_cpu_id s d = let (id, d1) = get_local s 0x020 d in (id / 2 ^ 24 % 2 ^ 8, d1)

  pub send_end_of_interrupt : Apic → D → D
  send_end_of_interrupt s d = set_local s 0xB0 0 d

  -- The wait at the end of sendInterrupt, for the delivery status bit.
  pub wait_for_delivery : ℕ → Apic → D → Run D
  wait_for_delivery zero s d = out_of_fuel
  wait_for_delivery (suc fuel) s d =
      let (command, d1) = get_local s 0x300 d in
      elim (command / 2 ^ 12 % 2 == 0) [ true ↦ ok d1 | false ↦ wait_for_delivery fuel s d1 ]

  -- The command that sendInterrupt writes; `<< 24` and `<< 18` are on an int.
  abbrev pub command_of : ℕ → ℕ → ℕ → Bool → ℕ
  command_of vector destination_mode target_selector deassert =
      bit_or (bit_or (bit_or (destination_mode * 2 ^ 8) vector) (target_selector * 2 ^ 18 % 2 ^ 32))
        (if deassert then 2 ^ 15 else 2 ^ 14)

  pub send_interrupt : ℕ → Apic → ℕ → ℕ → ℕ → ℕ → Bool → D → Run D
  send_interrupt fuel s vector destination_mode target_cpu target_selector deassert d =
      let (target, d1) = get_local s 0x310 d in
      let d2 = set_local s 0x310 (bit_or (bit_and target (15 * 2 ^ 24)) (target_cpu * 2 ^ 24)) d1 in
      wait_for_delivery fuel s
        (set_local s 0x300 (command_of vector destination_mode target_selector deassert) d2)

-- The body of APICTableParser::parse's loop on the processors: their number, a byte, and the bits
-- of their identifiers in 32 bits. A shift by 64 or more has no defined result; here it is none.
abbrev pub count_processor : Bytes → ℕ → Apic → Apic
count_processor m entry s = elim (entry_type m entry == 0) [
  | false ↦ s
  | true ↦ record s {
    processor_count = (s.processor_count + 1) % 2 ^ 8;
    cpu_bitmap = bit_or s.cpu_bitmap (2 ^ m (entry + 3) % 2 ^ 32);
  }
]

pub processor_loop : ℕ → Bytes → ℕ → ℕ → Apic → Run Apic
processor_loop zero m entry remaining s = out_of_fuel
processor_loop (suc fuel) m entry remaining s = elim (remaining == 0) [
  | true ↦ ok s
  | false ↦
      processor_loop fuel m (entry + entry_length m entry) (sub64 remaining (entry_length m entry))
        (count_processor m entry s)
]

-- APICTableParser::parse on a table with its signature, without the switch to the APIC.
pub parse_table : ℕ → Bytes → ℕ → Apic → Run Apic
parse_table fuel m table s = do
  local ← map_pages (load32 m (table + 36))
  let t = record s { local_apic_address = local; processor_count = 0; cpu_bitmap = 0 }
  u ← processor_loop fuel m (table + 44) (sub64 (load32 m (table + 4)) 44) t
  ok (record u { acpi_table = table })
