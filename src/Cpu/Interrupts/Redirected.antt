-- ===== src/Cpu/Interrupts/Redirected.antt =====
-- The lines of the PICs in src/CPUControl/interrupts.cpp after the switch to the APIC: which
-- interrupt of the APIC a line stands for, and what the functions on a line do there.
mod Tests
use crack_os.Base.{
  ℕ, ◌+◌, ◌-◌, ◌^◌, ◌<◌, ◌≡◌, ap, ◌∙◌, Bool, true, false, Option, none, some, List, length,
}
use crack_os.Base.{◌==◌, if◌then◌else◌, sub64, Run, ok, ◌>>=◌}
use crack_os.Language.Bytes.{Bytes}
use crack_os.Storage.Sata.Device.{load32}
use crack_os.Acpi.Apic.{
  Device, Apic, get_interrupt, is_interrupt_enabled, set_interrupt_enabled, map_interrupt,
}
use crack_os.Acpi.Apic.Walk.{IsIoApic, HoldsEntries, find_io_apic}
use crack_os.Acpi.Apic.Overrides.{find_override, answer_of, get_source_override_lem}
use crack_os.Acpi.Apic.Pins.Queries.{
  map_interrupt-get_interrupt, set_interrupt_enabled-is_interrupt_enabled,
}
use crack_os.Cpu.Interrupts.{
  Interrupts, pic, global_interrupt, hardware_interrupt_to_vector, is_hardware_interrupt_enabled,
  set_hardware_interrupt_enabled, set_pic_interrupt, mask_bit,
}

-- What the first override for the line names, and else the line's own number. The greatest 32 bit
-- number is taken for a missing override.
abbrev pub redirected : Bytes → List ℕ → ℕ → ℕ
redirected m es line =
    let found = answer_of (find_override m line es) in if found == 2 ^ 32 - 1 then line else found

module _ {D : Type 0} (device : Device D) (reg : D → ℕ → ℕ → ℕ) (IsAt : ℕ → Type 0)
    (law : IsIoApic device reg IsAt) (m : Bytes) (a : Apic) (es : List ℕ) (fuel line : ℕ)
    (table : HoldsEntries m IsAt (a.acpi_table + 44) (sub64 (load32 m (a.acpi_table + 4)) 44) es)
    (enough : length es < fuel) (s : Interrupts) (on : s.apic_enabled ≡ true) where
  global_interrupt-redirected :
      (d : D) → global_interrupt device fuel m a line d ≡ ok (redirected m es line, d)
  unfolding global_interrupt
  global_interrupt-redirected d =
      ap (λ (r : Run (ℕ × D)). r >>= λ p. ok (if p.0 == 2 ^ 32 - 1 then line else p.0, p.1))
        (get_source_override_lem device IsAt m line a es fuel d table enough)

  vector_at :
      (d : D)
      → hardware_interrupt_to_vector device fuel m a pic line s d
        ≡ get_interrupt device fuel m a (redirected m es line) d
  unfolding hardware_interrupt_to_vector
  vector_at d =
      rw (on, hardware_interrupt_to_vector)
        (ap (λ (r : Run (ℕ × D)). r >>= λ p. get_interrupt device fuel m a p.0 p.1)
          (global_interrupt-redirected d))

  pub enabled_at :
      (d : D)
      → is_hardware_interrupt_enabled device fuel m a pic line s d
        ≡ is_interrupt_enabled device fuel m a (redirected m es line) d
  unfolding is_hardware_interrupt_enabled
  enabled_at d =
      rw (on, is_hardware_interrupt_enabled)
        (ap (λ (r : Run (ℕ × D)). r >>= λ p. is_interrupt_enabled device fuel m a p.0 p.1)
          (global_interrupt-redirected d))

  set_at :
      (enabled : Bool) (d d1 : D)
      → set_interrupt_enabled device fuel m a (redirected m es line) enabled d ≡ ok (tt, d1)
      → set_hardware_interrupt_enabled device fuel m a pic line enabled s d ≡ ok (s, d1)
  unfolding set_hardware_interrupt_enabled
  set_at enabled d d1 done =
      ap
        (λ (b : Bool). elim b as (λ _. Run (Interrupts × D)) [
          | true ↦ global_interrupt device fuel m a line d >>= λ p.
              set_interrupt_enabled device fuel m a p.0 enabled p.1 >>= λ q. ok (s, q.1)
          | false ↦ ok (if s.is_active then set_pic_interrupt line enabled s else s, d)
        ])
        on
      ∙ ap
          (λ (r : Run (ℕ × D)).
            r >>= λ p. set_interrupt_enabled device fuel m a p.0 enabled p.1 >>= λ q. ok (s, q.1))
          (global_interrupt-redirected d)
      ∙ ap (λ (r : Run (Unit {0} × D)). r >>= λ q. ok (s, q.1)) done

  -- After the switch to the APIC a line of the PICs stands for the interrupt that its override
  -- names: when an I/O APIC serves that, mapInterrupt of it ends, and then
  -- hardwareInterruptToVector of the line answers the vector that was mapped, and
  -- isHardwareInterruptEnabled that the line is enabled. The interrupt fits the byte that
  -- mapInterrupt takes, the table's entries fill it, and the I/O APICs keep the vector and the mask
  -- bit that are written for a pin.
  pub map_interrupt-hardware_interrupt_to_vector :
      (d : D) (address base vector cpu_id : ℕ)
      → find_io_apic m (λ x. reg d x 1) (redirected m es line) es ≡ some (address, base)
      → redirected m es line < 2 ^ 8
      → vector < 2 ^ 8
      → (d1 : D) × (map_interrupt device fuel m a (redirected m es line) vector cpu_id d
          ≡ ok (tt, d1))
        × ((d2 : D) × (hardware_interrupt_to_vector device fuel m a pic line s d1
              ≡ ok (vector, d2)))
        × ((d2 : D) × (is_hardware_interrupt_enabled device fuel m a pic line s d1 ≡ ok (true, d2)))
  map_interrupt-hardware_interrupt_to_vector d address base vector cpu_id found small byte =
      let (d1, run, (d2, answer), (d3, enabled)) =
        map_interrupt-get_interrupt device reg IsAt law m a es fuel (redirected m es line) table
          enough d address base vector cpu_id found small byte in
      (d1, run, (d2, vector_at d1 ∙ answer), (d3, enabled_at d1 ∙ enabled))

  -- When an I/O APIC serves the interrupt that a line of the PICs stands for after the switch to
  -- the APIC, setHardwareInterruptEnabled of the line ends and leaves the state of the PICs as it
  -- was; then isHardwareInterruptEnabled answers what was set, and hardwareInterruptToVector what
  -- it answered before. The table's entries fill it, and the I/O APICs keep the vector and the mask
  -- bit that are written for a pin.
  pub set_hardware_interrupt_enabled-redirected :
      (d : D) (address base : ℕ) (enabled : Bool)
      → find_io_apic m (λ x. reg d x 1) (redirected m es line) es ≡ some (address, base)
      → redirected m es line < 2 ^ 32
      → (d1 : D) × (set_hardware_interrupt_enabled device fuel m a pic line enabled s d
          ≡ ok (s, d1))
        × ((d2 : D) × (is_hardware_interrupt_enabled device fuel m a pic line s d1
              ≡ ok (enabled, d2)))
        × ((vector : ℕ) × ((d2 : D) × (hardware_interrupt_to_vector device fuel m a pic line s d
                ≡ ok (vector, d2)))
            × ((d2 : D) × (hardware_interrupt_to_vector device fuel m a pic line s d1
                  ≡ ok (vector, d2))))
  set_hardware_interrupt_enabled-redirected d address base enabled found small =
      let (d1, run, (d2, answer), (vector, (d3, before), (d4, after))) =
        set_interrupt_enabled-is_interrupt_enabled device reg IsAt law m a es fuel
          (redirected m es line) table enough d address base enabled found small in
      (
        d1,
        set_at enabled d d1 run,
        (d2, enabled_at d1 ∙ answer),
        (vector, (d3, vector_at d ∙ before), (d4, vector_at d1 ∙ after)),
      )
