-- ===== src/Acpi/Apic/Pins/Queries.antt =====
-- What the queries of src/ACPI/APIC.cpp answer after the changes of an entry.
use crack_os.Base.{
  ℕ, ◌+◌, ◌/◌, ◌%◌, ◌^◌, ◌<◌, ◌≡◌, arith, ap, ◌∙◌, Bool, true, false, some, List, length,
}
use crack_os.Base.{◌==◌, if◌then◌else◌, sub64, ok}
use crack_os.Language.Bytes.{Bytes}
use crack_os.Storage.Sata.Device.{load32}
use crack_os.Acpi.Apic.{
  Device, Apic, low_register, sub32, is_unmasked, change_entry, vector_of, is_interrupt_enabled,
  set_interrupt_enabled, map_interrupt, get_interrupt, at_pin,
}
use crack_os.Acpi.Redirection.{mapped_entry}
use crack_os.Acpi.Apic.Search.{find_io_apic-IsAt, find_io_apic-IsBeyond, IsBeyond}
use crack_os.Acpi.Apic.Pins.{observed, changed, at_pin-none}
use crack_os.Acpi.Apic.Walk.{IsIoApic, HoldsEntries, find_io_apic}

module _ {D : Type 0} (device : Device D) (reg : D → ℕ → ℕ → ℕ) (IsAt : ℕ → Type 0)
    (law : IsIoApic device reg IsAt) (m : Bytes) (s : Apic) (es : List ℕ) (fuel n : ℕ)
    (table : HoldsEntries m IsAt (s.acpi_table + 44) (sub64 (load32 m (s.acpi_table + 4)) 44) es)
    (enough : length es < fuel) where
  -- When an I/O APIC serves the interrupt, mapInterrupt ends, and then getInterrupt answers the
  -- vector that it was given and isInterruptEnabled that the interrupt is enabled. The interrupt
  -- fits the byte that mapInterrupt takes, the table's entries fill it, and the I/O APICs keep the
  -- vector and the mask bit that are written for a pin.
  pub map_interrupt-get_interrupt :
      (d : D) (a b vector cpu_id : ℕ)
      → find_io_apic m (λ x. reg d x 1) n es ≡ some (a, b)
      → n < 2 ^ 8
      → vector < 2 ^ 8
      → (d1 : D) × (map_interrupt device fuel m s n vector cpu_id d ≡ ok (tt, d1))
        × ((d2 : D) × (get_interrupt device fuel m s n d1 ≡ ok (vector, d2)))
        × ((d2 : D) × (is_interrupt_enabled device fuel m s n d1 ≡ ok (true, d2)))
  unfolding map_interrupt
  map_interrupt-get_interrupt d a b vector cpu_id found small byte =
      let (at, some_address, low, high) =
        find_io_apic-IsAt m IsAt (λ x. reg d x 1) n a b es (s.acpi_table + 44)
          (sub64 (load32 m (s.acpi_table + 4)) 44) table found in
      let (d1, run, still, kept, unmasked) =
        changed device reg IsAt law m s es fuel n table enough a b at low high (omega arith)
          (λ e. mapped_entry e vector cpu_id) d found some_address in
      let byte_wide : n % 2 ^ 8 ≡ n = omega arith in
      let act = change_entry device (λ e. mapped_entry e vector cpu_id) in
      let (answer, enabled) =
        observed device reg IsAt law m s es fuel n table enough a b at low high (omega arith) d1
          still some_address in
      let v : reg d1 a (low_register (sub32 n b)) % 2 ^ 8 ≡ vector = omega arith in
      let z : reg d1 a (low_register (sub32 n b)) / 2 ^ 16 % 2 ≡ 0 = omega arith in
      (
        d1,
        ap (λ (k : ℕ). at_pin device fuel m s k tt act d) byte_wide ∙ run,
        (answer.0, answer.1 ∙ ap (λ (x : ℕ). ok (x, answer.0)) v),
        (enabled.0, enabled.1 ∙ ap (λ (x : ℕ). ok (x == 0, enabled.0)) z),
      )

  -- Under the same conditions setInterruptEnabled ends, and then isInterruptEnabled answers what
  -- was set, and getInterrupt what it answered before.
  pub set_interrupt_enabled-is_interrupt_enabled :
      (d : D) (a b : ℕ) (enabled : Bool)
      → find_io_apic m (λ x. reg d x 1) n es ≡ some (a, b)
      → n < 2 ^ 32
      → (d1 : D) × (set_interrupt_enabled device fuel m s n enabled d ≡ ok (tt, d1))
        × ((d2 : D) × (is_interrupt_enabled device fuel m s n d1 ≡ ok (enabled, d2)))
        × ((vector : ℕ) × ((d2 : D) × (get_interrupt device fuel m s n d ≡ ok (vector, d2)))
            × ((d2 : D) × (get_interrupt device fuel m s n d1 ≡ ok (vector, d2))))
  unfolding set_interrupt_enabled
  set_interrupt_enabled-is_interrupt_enabled d a b enabled found small =
      let (at, some_address, low, high) =
        find_io_apic-IsAt m IsAt (λ x. reg d x 1) n a b es (s.acpi_table + 44)
          (sub64 (load32 m (s.acpi_table + 4)) 44) table found in
      let (d1, run, still, kept, masked) =
        changed device reg IsAt law m s es fuel n table enough a b at low high small
          (λ e. record e { masked = if enabled then 0 else 1 }) d found some_address in
      let (before, before_enabled) =
        observed device reg IsAt law m s es fuel n table enough a b at low high small d found
          some_address in
      let (answer, answer_enabled) =
        observed device reg IsAt law m s es fuel n table enough a b at low high small d1 still
          some_address in
      let v : reg d1 a (low_register (sub32 n b)) % 2 ^ 8
          ≡ reg d a (low_register (sub32 n b)) % 2 ^ 8 =
        kept ∙ ground arith in
      let z : (reg d1 a (low_register (sub32 n b)) / 2 ^ 16 % 2 == 0) ≡ enabled =
        ap (λ (x : ℕ). x == 0) masked
        ∙ (elim enabled [ true ↦ ground arith | false ↦ ground arith ]) in
      (
        d1,
        run,
        (answer_enabled.0, answer_enabled.1 ∙ ap (λ (x : Bool). ok (x, answer_enabled.0)) z),
        (
          reg d a (low_register (sub32 n b)) % 2 ^ 8,
          before,
          (answer.0, answer.1 ∙ ap (λ (x : ℕ). ok (x, answer.0)) v),
        ),
      )

  -- An interrupt below 256 that stands above the count of each I/O APIC below it has no entry:
  -- mapInterrupt changes no register, getInterrupt answers 0xFF and isInterruptEnabled false.
  pub map_interrupt-IsBeyond :
      (d : D) (vector cpu_id : ℕ)
      → IsBeyond m (λ x. reg d x 1) n es
      → n < 2 ^ 8
      → ((d1 : D) × (map_interrupt device fuel m s n vector cpu_id d ≡ ok (tt, d1))
          × ((x j : ℕ) → reg d1 x j ≡ reg d x j))
        × ((d1 : D) × (get_interrupt device fuel m s n d ≡ ok (0xFF, d1)))
        × ((d1 : D) × (is_interrupt_enabled device fuel m s n d ≡ ok (false, d1)))
  unfolding map_interrupt get_interrupt is_interrupt_enabled
  map_interrupt-IsBeyond d vector cpu_id beyond small =
      let nothing = find_io_apic-IsBeyond m (λ x. reg d x 1) n es beyond in
      let (d1, run1, kept1) =
        at_pin-none device reg IsAt law m s es fuel n table enough tt
          (change_entry device (λ e. mapped_entry e vector cpu_id)) d nothing in
      let byte_wide : n % 2 ^ 8 ≡ n = omega arith in
      let act = change_entry device (λ e. mapped_entry e vector cpu_id) in
      let (d2, run2, kept2) =
        at_pin-none device reg IsAt law m s es fuel n table enough 0xFF (vector_of device) d
          nothing in
      let (d3, run3, kept3) =
        at_pin-none device reg IsAt law m s es fuel n table enough false (is_unmasked device) d
          nothing in
      (
        (d1, ap (λ (k : ℕ). at_pin device fuel m s k tt act d) byte_wide ∙ run1, kept1),
        (d2, run2),
        (d3, run3),
      )
