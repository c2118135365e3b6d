-- ===== src/Acpi/Apic/Pins.antt =====
-- The functions of src/ACPI/APIC.cpp on one interrupt, as they meet at an I/O APIC.
pub mod Queries
use crack_os.Base.{
  ℕ, zero, suc, ◌+◌, ◌-◌, ◌*◌, ◌/◌, ◌%◌, ◌^◌, ◌<◌, ◌≤◌, ◌≡◌, ◌≢◌, refl, arith, ap, ap₂, sym, subst,
  ◌∙◌, Bool, true, false, ◌&&◌, Option, none, some, List, [], ◌∷◌, length, inl, inr, ◌⊎◌,
}
use crack_os.Base.{fun_ext, ltb, leb, ◌==◌, if◌then◌else◌, Bool-cases, sub64, Run, ok, ◌>>=◌}
use crack_os.Language.Bytes.{Bytes}
use crack_os.Memory.Physical.{window}
use crack_os.Storage.Sata.Device.{load32}
use crack_os.Acpi.Apic.{
  Device, Apic, low_register, high_register, io_apic_address, interrupt_base, add32, sub32,
  redirection_count, read_io_apic, write_io_apic, walk, walk_table, look_at_io_apic,
  get_base_interrupt, get_io_apic_address, read_entry, write_entry, at_pin, at_address, is_unmasked,
  change_entry, vector_of, is_interrupt_enabled, set_interrupt_enabled, map_interrupt,
  get_interrupt,
}
use crack_os.Acpi.Redirection.{
  RedirectionEntry, from_dwords, lower_dword, upper_dword, mapped_entry,
}
use crack_os.Acpi.Apic.Walk.{
  IsIoApic, HoldsEntries, find_io_apic, in_range, serves, walk-find_io_apic, same_versions,
}

module _ {D : Type 0} (device : Device D) (reg : D → ℕ → ℕ → ℕ) (IsAt : ℕ → Type 0)
    (law : IsIoApic device reg IsAt) (m : Bytes) (s : Apic) (es : List ℕ) (fuel n : ℕ)
    (table : HoldsEntries m IsAt (s.acpi_table + 44) (sub64 (load32 m (s.acpi_table + 4)) 44) es)
    (enough : length es < fuel) where
  abbrev versions : D → ℕ → ℕ
  versions d a = reg d a 1

  pub searched :
      (d : D)
      → (d1 : D) × (walk_table device (look_at_io_apic device m n) fuel m s d
          ≡ ok (find_io_apic m (λ a. reg d a 1) n es, d1))
        × ((b j : ℕ) → reg d1 b j ≡ reg d b j)
  unfolding walk_table
  searched d =
      walk-find_io_apic device reg IsAt law m n es fuel (s.acpi_table + 44)
        (sub64 (load32 m (s.acpi_table + 4)) 44) d table (omega arith) enough

  -- No I/O APIC serves the interrupt.
  pub at_pin-none :
      {R : Type 0} (missing : R) (act : ℕ → ℕ → D → R × D) (d : D)
      → find_io_apic m (λ a. reg d a 1) n es ≡ none
      → (d1 : D) × (at_pin device fuel m s n missing act d ≡ ok (missing, d1))
        × ((b j : ℕ) → reg d1 b j ≡ reg d b j)
  unfolding at_pin at_address get_io_apic_address
  at_pin-none missing act d nothing =
      let (d1, walked, kept) = searched d in (d1, rw (walked, nothing) refl, kept)

  got_address :
      (d d1 : D) (a b : ℕ)
      → walk_table device (look_at_io_apic device m n) fuel m s d ≡ ok (some (a, b), d1)
      → get_io_apic_address device fuel m s n d ≡ ok (a, d1)
  unfolding get_io_apic_address
  got_address d d1 a b walked = rw walked refl

  got_base :
      (d d1 : D) (a b : ℕ)
      → walk_table device (look_at_io_apic device m n) fuel m s d ≡ ok (some (a, b), d1)
      → get_base_interrupt device fuel m s n d ≡ ok (b, d1)
  unfolding get_base_interrupt
  got_base d d1 a b walked = rw walked refl

  -- The I/O APIC at `a`, whose first interrupt is `b`, serves it.
  pub at_pin-some :
      {R : Type 0} (missing : R) (act : ℕ → ℕ → D → R × D) (d : D) (a b : ℕ)
      → find_io_apic m (λ x. reg d x 1) n es ≡ some (a, b)
      → a ≢ 0
      → (d2 : D) × (at_pin device fuel m s n missing act d ≡ ok (act a (sub32 n b) d2))
        × ((x j : ℕ) → reg d2 x j ≡ reg d x j)
  unfolding at_pin at_address
  at_pin-some missing act d a b found some_address =
      let (d1, walked, kept) = searched d in
      let (d2, walked2, kept2) = searched d1 in
      let still : find_io_apic m (λ x. reg d1 x 1) n es ≡ some (a, b) =
        ap (λ (v : ℕ → ℕ). find_io_apic m v n es) (same_versions reg d1 d kept) ∙ found in
      let not_null : (a == 0) ≡ false = ground arith in
      let first = got_address d d1 a b (walked ∙ rw found refl) in
      let second = got_base d1 d2 a b (walked2 ∙ rw still refl) in
      (
        d2,
        ap (λ r. r >>= at_address device fuel m s n missing act) first
            ∙ rw (not_null, second, at_address) refl,
        λ x j. kept2 x j ∙ kept x j,
      )

  module _ (a b : ℕ) (at : IsAt a) (low : b ≤ n) (high : n < b + 24) (small : n < 2 ^ 32) where
    abbrev pin : ℕ
    pin = sub32 n b

    pin_bound : pin < 24
    pin_bound = omega arith

    registers :
        (16 ≤ low_register pin)
        × (low_register pin < 64)
        × (16 ≤ high_register pin)
        × (high_register pin < 64)
        × (low_register pin ≢ high_register pin)
    registers =
        let h = pin_bound in (omega arith, omega arith, omega arith, omega arith, omega arith)

    abbrev entry_of : D → RedirectionEntry
    entry_of d = from_dwords (reg d a (low_register pin)) (reg d a (high_register pin))

    read_lem :
        (d : D)
        → ((read_entry device a pin d).0 ≡ entry_of d)
          × ((x j : ℕ) → reg (read_entry device a pin d).1 x j ≡ reg d x j)
    unfolding read_entry
    read_lem d =
        let (lo, lo', hi, hi', apart) = registers in
        let d1 = (read_io_apic device a (low_register pin) d).1 in
        (
          ap₂ from_dwords (law.value a (low_register pin) d at lo') (
              law.value a (high_register pin) d1 at hi'
              ∙ law.unchanged a (low_register pin) d a (high_register pin) at lo'),
          λ x j.
              law.unchanged a (high_register pin) d1 x j at hi'
              ∙ law.unchanged a (low_register pin) d x j at lo',
        )

    write_lem :
        (e : RedirectionEntry) (d : D)
        → let d1 = write_entry device a pin e d in
          (reg d1 a (low_register pin) % 2 ^ 8 ≡ lower_dword e % 2 ^ 8)
          × (reg d1 a (low_register pin) / 2 ^ 16 % 2 ≡ lower_dword e / 2 ^ 16 % 2)
          × ((x : ℕ) → reg d1 x 1 ≡ reg d x 1)
    unfolding write_entry
    write_lem e d =
        let (lo, lo', hi, hi', apart) = registers in
        let even : low_register pin % 2 ≡ 0 = let h = pin_bound in omega arith in
        let d0 = write_io_apic device a (low_register pin) (lower_dword e) d in
        let same =
          law.other a (high_register pin) (upper_dword e) d0 a (low_register pin) at hi hi' apart in
        (
          ap (λ (v : ℕ). v % 2 ^ 8) same
              ∙ law.vector a (low_register pin) (lower_dword e) d at lo lo' even,
          ap (λ (v : ℕ). v / 2 ^ 16 % 2) same
              ∙ law.mask_bit a (low_register pin) (lower_dword e) d at lo lo' even,
          λ x.
              law.other a (high_register pin) (upper_dword e) d0 x 1 at hi hi' (omega arith)
              ∙ law.other a (low_register pin) (lower_dword e) d x 1 at lo lo' (omega arith),
        )

    -- What the queries answer.
    pub observed :
        (d : D)
        → find_io_apic m (λ x. reg d x 1) n es ≡ some (a, b)
        → a ≢ 0
        → ((d1 : D) × (get_interrupt device fuel m s n d
              ≡ ok (reg d a (low_register pin) % 2 ^ 8, d1)))
          × ((d1 : D) × (is_interrupt_enabled device fuel m s n d
                ≡ ok (reg d a (low_register pin) / 2 ^ 16 % 2 == 0, d1)))
    unfolding get_interrupt is_interrupt_enabled
    observed d found some_address =
        let (d1, run1, kept1) = at_pin-some 0xFF (vector_of device) d a b found some_address in
        let (d2, run2, kept2) = at_pin-some false (is_unmasked device) d a b found some_address in
        (
          (
            (read_entry device a pin d1).1,
            run1
                ∙ ap (λ (e : RedirectionEntry). ok (e.vector, (read_entry device a pin d1).1))
                    ((read_lem d1).0)
                ∙ ap (λ (v : ℕ). ok (v % 2 ^ 8, (read_entry device a pin d1).1))
                    (kept1 a (low_register pin)),
          ),
          (
            (read_entry device a pin d2).1,
            run2
                ∙ ap (λ (e : RedirectionEntry). ok (e.masked == 0, (read_entry device a pin d2).1))
                    ((read_lem d2).0)
                ∙ ap (λ (v : ℕ). ok (v / 2 ^ 16 % 2 == 0, (read_entry device a pin d2).1))
                    (kept2 a (low_register pin)),
          ),
        )

    -- What a change of the entry leaves in the registers.
    pub changed :
        (change : RedirectionEntry → RedirectionEntry) (d : D)
        → find_io_apic m (λ x. reg d x 1) n es ≡ some (a, b)
        → a ≢ 0
        → (d1 : D) × (at_pin device fuel m s n tt (change_entry device change) d ≡ ok (tt, d1))
          × (find_io_apic m (λ x. reg d1 x 1) n es ≡ some (a, b))
          × (reg d1 a (low_register pin) % 2 ^ 8 ≡ lower_dword (change (entry_of d)) % 2 ^ 8)
          × (reg d1 a (low_register pin) / 2 ^ 16 % 2
              ≡ lower_dword (change (entry_of d)) / 2 ^ 16 % 2)
    changed change d found some_address =
        let (d1, run, kept) =
          at_pin-some tt (change_entry device change) d a b found some_address in
        let (value, kept2) = read_lem d1 in
        let d2 = (read_entry device a pin d1).1 in
        let e = (read_entry device a pin d1).0 in
        let (vector, masked, kept3) = write_lem (change e) d2 in
        let same : e ≡ entry_of d =
          value ∙ ap₂ from_dwords (kept a (low_register pin)) (kept a (high_register pin)) in
        (
          write_entry device a pin (change e) d2,
          run,
          ap (λ (v : ℕ → ℕ). find_io_apic m v n es) (fun_ext (λ x. kept3 x ∙ kept2 x 1 ∙ kept x 1))
              ∙ found,
          vector ∙ ap (λ (x : RedirectionEntry). lower_dword (change x) % 2 ^ 8) same,
          masked ∙ ap (λ (x : RedirectionEntry). lower_dword (change x) / 2 ^ 16 % 2) same,
        )
