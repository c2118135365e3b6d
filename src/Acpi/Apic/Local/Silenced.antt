-- ===== src/Acpi/Apic/Local/Silenced.antt =====
-- The loop of APIC::setSpuriousInterruptVector in src/ACPI/APIC.cpp over the entries of the table,
-- after which every pin that can be found is masked.
use crack_os.Base.{
  ℕ, zero, suc, subst, ◌+◌, ◌-◌, ◌^◌, ◌<◌, ◌≤◌, ◌≡◌, ◌≢◌, refl, arith, ap, sym, ◌∙◌, true, false,
  ◌&&◌, Option, none, some, List, [], ◌∷◌, length, inl, inr,
}
use crack_os.Base.{◌==◌, Bool-cases, sub64, Run, ok, ◌>>=◌}
use crack_os.Language.Bytes.{Bytes}
use crack_os.Memory.{gi}
use crack_os.Memory.Physical.{window}
use crack_os.Acpi.Apic.{
  Device, entry_type, entry_length, io_apic_address, interrupt_base, redirection_count, sub32,
  add32, read_io_apic, write_io_apic, walk, walk_table, after_entry, Apic,
}
use Prim.Native.Nat.{bit_or}
use crack_os.Storage.Sata.Device.{load32}
use crack_os.Acpi.Apic.Local.{
  mask_loop, mask_entries, set_spurious_interrupt_vector, get_local, set_local,
}
use crack_os.Acpi.Apic.Local.Masked.{
  mask_of, OnlyMasks, unchanged-OnlyMasks, OnlyMasks-trans, mask_loop-OnlyMasks,
}
use crack_os.Acpi.Apic.Walk.{IsIoApic, HoldsEntries, find_io_apic, in_range, serves, map_pages_low}
use crack_os.Acpi.Apic.Search.{find_io_apic-hit, find_io_apic-missed, in_range_bounds, pair_of}

pin_below : (n b c : ℕ) → b ≤ n → n < 2 ^ 32 → n < add32 b c → sub32 n b < c
pin_below n b c low small served = omega arith

module _ {D : Type 0} (device : Device D) (reg : D → ℕ → ℕ → ℕ) (IsAt : ℕ → Type 0)
    (law : IsIoApic device reg IsAt)
    (apart : (x i v : ℕ) (d : D) (y j : ℕ)
      → IsAt x
      → 16 ≤ i
      → i < 64
      → y ≢ x
      → reg (write_io_apic device x i v d) y j ≡ reg d y j)
    (m : Bytes) where
  abbrev address : ℕ → ℕ
  address e = io_apic_address m e + window

  abbrev count : D → ℕ → ℕ
  count d x = redirection_count (reg d x 1)

  abbrev Masks : D → D → Type 0
  Masks d d1 = OnlyMasks device reg IsAt law apart d d1

  abbrev bit : D → ℕ → ℕ → ℕ
  bit d x j = mask_of device reg IsAt law apart d x j

  -- The version registers name no more than the 24 pins that there are.
  abbrev pub FewPins : D → Type 0
  FewPins d = (x : ℕ) → IsAt x → count d x ≤ 24

  -- The local APIC's register for the spurious interrupt is none of the I/O APICs'.
  abbrev pub KeepsRegisters : Apic → Type 0
  KeepsRegisters s =
      ((d : D) (y j : ℕ) → reg (device.read32 (s.local_apic_address + 0x0F0) d).1 y j ≡ reg d y j)
      × ((v : ℕ) (d : D) (y j : ℕ)
          → reg (device.write32 (s.local_apic_address + 0x0F0) v d) y j ≡ reg d y j)

  abbrev after_address : ℕ → D → ℕ → Run (Option (Unit {0}) × D)
  after_address e d x = ok (
    none,
    mask_loop device (redirection_count (read_io_apic device x 1 d).0) x 0
        (read_io_apic device x 1 d).1,
  )

  at_entry :
      (e : ℕ) (d : D)
      → (m e ≡ 1 → (io_apic_address m e < gi 512) × IsAt (address e))
      → FewPins d
      → (d1 : D) × (mask_entries device m e d ≡ ok (none, d1))
        × Masks d d1
        × (m e ≡ 1 → (j : ℕ) → j < count d (address e) → bit d1 (address e) j ≡ 1)
  unfolding mask_entries
  at_entry e d known few = elim (Bool-cases (entry_type m e == 1)) [
    | inr other ↦
        let not_io : m e ≢ 1 = ground arith in
        (
          d,
          rw (other, mask_entries) refl,
          unchanged-OnlyMasks device reg IsAt law apart d d (λ y j. refl),
          λ io. absurd (not_io io),
        )
    | inl is_io ↦
        let io : m e ≡ 1 = ground arith in
        let (low, at) = known io in
        let x = address e in
        let d0 = (read_io_apic device x 1 d).1 in
        let kept = λ (y j : ℕ). law.unchanged x 1 d y j at (omega arith) in
        let version : redirection_count (read_io_apic device x 1 d).0 ≡ count d x =
          ap redirection_count (law.value x 1 d at (omega arith)) in
        let bound = few x at in
        let (masks, masked) =
          mask_loop-OnlyMasks device reg IsAt law apart (count d x) x 0 d0 at (omega arith) in
        (
          mask_loop device (count d x) x 0 d0,
          rw (is_io, mask_entries)
              (ap (λ (r : Run ℕ). r >>= after_address e d) (map_pages_low (io_apic_address m e) low)
                ∙ ap (λ (k : ℕ). ok (none, mask_loop device k x 0 d0)) version),
          OnlyMasks-trans device reg IsAt law apart
              (unchanged-OnlyMasks device reg IsAt law apart d d0 kept) masks,
          λ _ j below. masked j (omega arith) (omega arith),
        )
  ]

  -- The pins that the search finds among the entries are masked.
  abbrev pub IsSilent : D → List ℕ → Type 0
  IsSilent d es =
      (n x b : ℕ)
      → find_io_apic m (λ y. reg d y 1) n es ≡ some (x, b)
      → n < 2 ^ 32
      → bit d x (sub32 n b) ≡ 1

  found_here :
      (d : D) (e n x b : ℕ) (es : List ℕ)
      → (in_range m n e && serves m (λ y. reg d y 1) n e) ≡ true
      → find_io_apic m (λ y. reg d y 1) n (e ∷ es) ≡ some (x, b)
      → (address e ≡ x) × (interrupt_base m e ≡ b)
  found_here d e n x b es hit found =
      let pair = sym (find_io_apic-hit m (λ y. reg d y 1) n e es hit) ∙ found in
      (
        ap (λ (o : Option (ℕ × ℕ)). (pair_of o).0) pair,
        ap (λ (o : Option (ℕ × ℕ)). (pair_of o).1) pair,
      )

  -- The pin of an interrupt that an I/O APIC serves is below its count.
  found_pin :
      (d : D) (e n : ℕ)
      → (in_range m n e && serves m (λ y. reg d y 1) n e) ≡ true
      → n < 2 ^ 32
      → (m e ≡ 1)
        × (sub32 n (interrupt_base m e) < count d (address e))
        × (sub32 n (interrupt_base m e) < 24)
  found_pin d e n hit small =
      let (io, low, high) = in_range_bounds m (λ y. reg d y 1) n e hit in
      let served : n < add32 (interrupt_base m e) (count d (address e)) = ground arith in
      (io, pin_below n (interrupt_base m e) (count d (address e)) low small served, omega arith)

  cons-IsSilent :
      (d d1 d2 : D) (e : ℕ) (es : List ℕ)
      → Masks d d1
      → Masks d1 d2
      → (m e ≡ 1 → (j : ℕ) → j < count d (address e) → bit d1 (address e) j ≡ 1)
      → IsSilent d2 es
      → IsSilent d2 (e ∷ es)
  cons-IsSilent d d1 d2 e es first rest here later n x b found small =
      elim (Bool-cases (in_range m n e && serves m (λ y. reg d2 y 1) n e)) [
        | inr missed ↦
            later n x b (sym (find_io_apic-missed m (λ y. reg d2 y 1) n e es missed) ∙ found) small
        | inl hit ↦
            let (ex, eb) = found_here d2 e n x b es hit found in
            let (io, below, few) = found_pin d2 e n hit small in
            let p = sub32 n (interrupt_base m e) in
            let counts : count d2 (address e) ≡ count d (address e) =
              ap redirection_count
                (rest.same_version (address e) ∙ first.same_version (address e)) in
            let set = rest.stays (address e) p (omega arith) (here io p (omega arith)) in
            ap (λ (y : ℕ). bit d2 y (sub32 n b)) (sym ex)
            ∙ ap (λ (c : ℕ). bit d2 (address e) (sub32 n c)) (sym eb)
            ∙ set
      ]

  pub walk-IsSilent :
      (es : List ℕ) (fuel entry remaining : ℕ) (d : D)
      → HoldsEntries m IsAt entry remaining es
      → remaining < 2 ^ 64
      → length es < fuel
      → FewPins d
      → (d1 : D) × (walk device (mask_entries device m) fuel m entry remaining d ≡ ok (none, d1))
        × Masks d d1
        × IsSilent d1 es
  unfolding walk
  walk-IsSilent [] zero entry remaining d h small enough few = absurd (omega arith)
  walk-IsSilent [] (suc fuel) entry remaining d h small enough few =
      let none_left : (remaining == 0) ≡ true = ground arith in
      (
        d,
        rw (none_left, walk) refl,
        unchanged-OnlyMasks device reg IsAt law apart d d (λ y j. refl),
        λ n x b found low. absurd (cc),
      )
  walk-IsSilent (e ∷ es) zero entry remaining d h small enough few = absurd (omega arith)
  walk-IsSilent (e ∷ es) (suc fuel) entry remaining d (same, some_bytes, fits, known, rest) small
        enough few =
      let some_left : (remaining == 0) ≡ false = ground arith in
      let next = entry + entry_length m entry in
      let left : sub64 remaining (m (entry + 1)) ≡ remaining - m (entry + 1) = omega arith in
      let (d1, looked, masks, here) = at_entry entry d known few in
      let few1 : FewPins d1 = λ x at.
        subst (λ (k : ℕ). k ≤ 24) (ap redirection_count (sym (masks.same_version x))) (few x at) in
      let (d2, walked, masks2, silent) =
        walk-IsSilent es fuel next (remaining - m (entry + 1)) d1 rest (omega arith) (omega arith)
          few1 in
      let rest_of = walk device (mask_entries device m) fuel m next in
      (
        d2,
        rw (some_left, left, walk)
              (ap
                (λ (r : Run (Option (Unit {0}) × D)).
                  r >>= after_entry device (rest_of (remaining - m (entry + 1))))
                looked)
            ∙ walked,
        OnlyMasks-trans device reg IsAt law apart masks masks2,
        subst (λ (k : ℕ). IsSilent d2 (k ∷ es)) (sym same)
            (cons-IsSilent d d1 d2 entry es masks masks2 here silent),
      )

  -- setSpuriousInterruptVector, on a table whose entries fill it.
  pub set_spurious_interrupt_vector-IsSilent :
      (s : Apic) (es : List ℕ) (fuel vector : ℕ) (d : D)
      → HoldsEntries m IsAt (s.acpi_table + 44) (sub64 (load32 m (s.acpi_table + 4)) 44) es
      → length es < fuel
      → KeepsRegisters s
      → FewPins d
      → (d1 : D) × (set_spurious_interrupt_vector device fuel m s vector d ≡ ok d1)
        × Masks d d1
        × IsSilent d1 es
  unfolding set_spurious_interrupt_vector get_local set_local walk_table
  set_spurious_interrupt_vector-IsSilent s es fuel vector d table enough (reads, writes) few =
      let place = s.local_apic_address + 0x0F0 in
      let current = device.read32 place d in
      let d2 = device.write32 place (bit_or (bit_or vector 0x100) current.0) current.1 in
      let kept : Masks d d2 =
        unchanged-OnlyMasks device reg IsAt law apart d d2
          (λ y j. writes (bit_or (bit_or vector 0x100) current.0) current.1 y j ∙ reads d y j) in
      let few2 : FewPins d2 = λ x at.
        subst (λ (k : ℕ). k ≤ 24) (ap redirection_count (sym (kept.same_version x))) (few x at) in
      let (d3, walked, masks, silent) =
        walk-IsSilent es fuel (s.acpi_table + 44) (sub64 (load32 m (s.acpi_table + 4)) 44) d2 table
          (omega arith) enough few2 in
      (
        d3,
        ap (λ (r : Run (Option (Unit {0}) × D)). r >>= λ p. ok p.1) walked,
        OnlyMasks-trans device reg IsAt law apart kept masks,
        silent,
      )
