-- ===== src/Acpi/Apic.antt =====
-- src/ACPI/APIC.cpp: the entries of the firmware's APIC table, which lies in memory `m`, and the
-- registers of the I/O APICs and of the local APIC. A register may return anything, and each access
-- changes the device; `fuel` bounds the rounds of a loop over the entries.
pub mod Walk
pub mod Search
pub mod Pins
pub mod Local
pub mod Overrides
pub mod Tests
use crack_os.Acpi.Redirection.{
  RedirectionEntry, from_dwords, lower_dword, upper_dword, mapped_entry,
}
use crack_os.Base.{ℕ, zero, suc, ◌+◌, ◌-◌, ◌*◌, ◌/◌, ◌%◌, ◌^◌, Bool, true, false, not, ◌&&◌}
use crack_os.Base.{Option, none, some}
use crack_os.Base.{ltb, leb, ◌==◌, if◌then◌else◌, sub64, Run, ok, out_of_fuel, ◌>>=◌}
use crack_os.Language.Bytes.{Bytes}
use crack_os.Memory.Physical.{map_pages}
use crack_os.Storage.Sata.Device.{load32}
use Prim.Native.Nat.{bit_and, bit_or}

-- The 32 bit accesses to the devices' memory.
pub record Device (D : Type 0) : Type 0 where
  pub read32 : ℕ → D → ℕ × D
  pub write32 : ℕ → ℕ → D → D

-- The file's static variables.
pub record Apic : Type 0 where
  pub acpi_table : ℕ
  pub local_apic_address : ℕ
  pub processor_count : ℕ
  pub cpu_bitmap : ℕ

-- EntryBase::type and EntryBase::size, and the fields of the IOAPIC entry.
abbrev pub entry_type : Bytes → ℕ → ℕ
entry_type m entry = m entry

abbrev pub entry_length : Bytes → ℕ → ℕ
entry_length m entry = m (entry + 1)

abbrev pub io_apic_address : Bytes → ℕ → ℕ
io_apic_address m entry = load32 m (entry + 4)

abbrev pub interrupt_base : Bytes → ℕ → ℕ
interrupt_base m entry = load32 m (entry + 8)

abbrev pub add32 : ℕ → ℕ → ℕ
add32 a b = (a + b) % 2 ^ 32

abbrev pub sub32 : ℕ → ℕ → ℕ
sub32 a b = (a + 2 ^ 32 - b) % 2 ^ 32

-- `(readIOApic(address, 0x01) >> 16) & 0xFF`
abbrev pub redirection_count : ℕ → ℕ
redirection_count version = version / 2 ^ 16 % 2 ^ 8

-- The registers of the pin `n`; the offset is a uint8_t.
abbrev pub low_register : ℕ → ℕ
low_register n = (0x10 + n * 2) % 2 ^ 8

abbrev pub high_register : ℕ → ℕ
high_register n = (0x10 + n * 2 + 1) % 2 ^ 8

module _ {D : Type 0} (device : Device D) where
  -- readIOApic and writeIOApic
  pub read_io_apic : ℕ → ℕ → D → ℕ × D
  read_io_apic address offset d = device.read32 (address + 16) (device.write32 address offset d)

  pub write_io_apic : ℕ → ℕ → ℕ → D → D
  write_io_apic address offset value d =
      device.write32 (address + 16) value (device.write32 address offset d)

  -- The end of a round of the loop below: a result ends the loop.
  abbrev pub after_entry :
      {R : Type 0} → (D → Run (Option R × D)) → Option R × D → Run (Option R × D)
  after_entry rest (none, d) = rest d
  after_entry rest (some r, d) = ok (some r, d)

  -- The loop over the entries that most of the functions have, with its body.
  pub walk :
      {R : Type 0} → (ℕ → D → Run (Option R × D)) → ℕ → Bytes → ℕ → ℕ → D → Run (Option R × D)
  walk body zero m entry remaining d = out_of_fuel
  walk body (suc fuel) m entry remaining d = elim (remaining == 0) [
    | true ↦ ok (none, d)
    | false ↦
        body entry d
        >>= after_entry (
            walk body fuel m (entry + entry_length m entry)
              (sub64 remaining (entry_length m entry)))
  ]

  -- The loop from the first entry of the table on, behind the 44 bytes of MADT.
  pub walk_table :
      {R : Type 0} → (ℕ → D → Run (Option R × D)) → ℕ → Bytes → Apic → D → Run (Option R × D)
  walk_table body fuel m s d =
      walk body fuel m (s.acpi_table + 44) (sub64 (load32 m (s.acpi_table + 4)) 44) d

  -- The body in getBaseInterrupt and getIOAPICAddress. Both results are returned.
  pub ask_io_apic : ℕ → ℕ → D → ℕ → Run (Option (ℕ × ℕ) × D)
  ask_io_apic base n d address =
      let (version, d1) = read_io_apic address 1 d in
      let served = ltb n (add32 base (redirection_count version)) in
      ok (if served then some (address, base) else none, d1)

  pub look_at_io_apic : Bytes → ℕ → ℕ → D → Run (Option (ℕ × ℕ) × D)
  look_at_io_apic m n entry d =
      let base = interrupt_base m entry in
      elim (entry_type m entry == 1 && leb base n && ltb n (add32 base 24)) [
        | false ↦ ok (none, d)
        | true ↦ map_pages (io_apic_address m entry) >>= ask_io_apic base n d
      ]

  pub get_base_interrupt : ℕ → Bytes → Apic → ℕ → D → Run (ℕ × D)
  get_base_interrupt fuel m s n d = do
    (found, d1) ← walk_table (look_at_io_apic m n) fuel m s d
    elim found [ none ↦ ok (0, d1) | some (address, base) ↦ ok (base, d1) ]

  pub get_io_apic_address : ℕ → Bytes → Apic → ℕ → D → Run (ℕ × D)
  get_io_apic_address fuel m s n d = do
    (found, d1) ← walk_table (look_at_io_apic m n) fuel m s d
    elim found [ none ↦ ok (0, d1) | some (address, base) ↦ ok (address, d1) ]

  pub read_entry : ℕ → ℕ → D → RedirectionEntry × D
  read_entry address n d =
      let (low, d1) = read_io_apic address (low_register n) d in
      let (high, d2) = read_io_apic address (high_register n) d1 in (from_dwords low high, d2)

  pub write_entry : ℕ → ℕ → RedirectionEntry → D → D
  write_entry address n e d =
      write_io_apic address (high_register n) (upper_dword e)
        (write_io_apic address (low_register n) (lower_dword e) d)

  -- What the functions on one interrupt have in common: the result for an interrupt that no I/O
  -- APIC serves, or what is done at the I/O APIC with the number of its pin.
  pub at_address :
      {R : Type 0} → ℕ → Bytes → Apic → ℕ → R → (ℕ → ℕ → D → R × D) → ℕ × D → Run (R × D)
  at_address fuel m s n missing act (address, d1) = elim (address == 0) [
    | true ↦ ok (missing, d1)
    | false ↦ do (base, d2) ← get_base_interrupt fuel m s n d1; ok (act address (sub32 n base) d2)
  ]

  pub at_pin : {R : Type 0} → ℕ → Bytes → Apic → ℕ → R → (ℕ → ℕ → D → R × D) → D → Run (R × D)
  at_pin fuel m s n missing act d =
      get_io_apic_address fuel m s n d >>= at_address fuel m s n missing act

  abbrev pub is_unmasked : ℕ → ℕ → D → Bool × D
  is_unmasked address pin d = let (e, d1) = read_entry address pin d in (e.masked == 0, d1)

  abbrev pub change_entry : (RedirectionEntry → RedirectionEntry) → ℕ → ℕ → D → Unit {0} × D
  change_entry change address pin d =
      let (e, d1) = read_entry address pin d in (tt, write_entry address pin (change e) d1)

  abbrev pub vector_of : ℕ → ℕ → D → ℕ × D
  vector_of address pin d = let (e, d1) = read_entry address pin d in (e.vector, d1)

  pub is_interrupt_enabled : ℕ → Bytes → Apic → ℕ → D → Run (Bool × D)
  is_interrupt_enabled fuel m s n d = at_pin fuel m s n false is_unmasked d

  pub set_interrupt_enabled : ℕ → Bytes → Apic → ℕ → Bool → D → Run (Unit {0} × D)
  set_interrupt_enabled fuel m s n enabled d =
      at_pin fuel m s n tt (change_entry (λ e. record e { masked = if enabled then 0 else 1 })) d

  -- Unlike that of the others, its interrupt is a uint8_t.
  pub map_interrupt : ℕ → Bytes → Apic → ℕ → ℕ → ℕ → D → Run (Unit {0} × D)
  map_interrupt fuel m s n result_vector cpu_id d =
      at_pin fuel m s (n % 2 ^ 8) tt (change_entry (λ e. mapped_entry e result_vector cpu_id)) d

  pub get_interrupt : ℕ → Bytes → Apic → ℕ → D → Run (ℕ × D)
  get_interrupt fuel m s n d = at_pin fuel m s n 0xFF vector_of d

  -- The other body: getSourceOverride returns the interrupt of the entry for `source`.
  pub look_at_override : Bytes → ℕ → ℕ → D → Run (Option ℕ × D)
  look_at_override m source entry d =
      if entry_type m entry == 2 && m (entry + 3) == source
      then ok (some (load32 m (entry + 4)), d)
      else ok (none, d)

  pub get_source_override : ℕ → Bytes → Apic → ℕ → D → Run (ℕ × D)
  get_source_override fuel m s source d = do
    (found, d1) ← walk_table (look_at_override m source) fuel m s d
    elim found [ none ↦ ok (2 ^ 32 - 1, d1) | some n ↦ ok (n, d1) ]
