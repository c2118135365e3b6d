-- ===== src/Acpi/Apic/Local/Masked.antt =====
-- The loops of APIC::setSpuriousInterruptVector in src/ACPI/APIC.cpp that mask the pins of every I/O
-- APIC in the table.
use crack_os.Base.{ℕ, zero, suc, ◌+◌, ◌/◌, ◌%◌, ◌^◌, ◌<◌, ◌≤◌, ◌≡◌, ◌≢◌, refl, arith, ap, ◌∙◌}
use native.Mathlib.Decide.{ℕ_discrete}
use crack_os.Acpi.Redirection.{RedirectionEntry, lower_dword, upper_dword}
use crack_os.Acpi.Apic.{
  Device, low_register, high_register, read_io_apic, write_io_apic, read_entry, write_entry,
}
use crack_os.Acpi.Apic.Local.{mask_loop}
use crack_os.Acpi.Apic.Walk.{IsIoApic}

module _ {D : Type 0} (device : Device D) (reg : D → ℕ → ℕ → ℕ) (IsAt : ℕ → Type 0)
    (law : IsIoApic device reg IsAt)
    (apart : (x i v : ℕ) (d : D) (y j : ℕ)
      → IsAt x
      → 16 ≤ i
      → i < 64
      → y ≢ x
      → reg (write_io_apic device x i v d) y j ≡ reg d y j) where
  -- The mask bit of a pin.
  abbrev pub mask_of : D → ℕ → ℕ → ℕ
  mask_of d x i = reg d x (low_register i) / 2 ^ 16 % 2

  -- What a step may do to the registers: the numbers of pins stay, and so do the set mask bits of
  -- the pins below 24, whose registers have their own numbers.
  pub record OnlyMasks (d d1 : D) : Type 0 where
    pub same_version : (y : ℕ) → reg d1 y 1 ≡ reg d y 1
    pub stays : (y j : ℕ) → j < 24 → mask_of d y j ≡ 1 → mask_of d1 y j ≡ 1

  pub unchanged-OnlyMasks : (d d1 : D) → ((y j : ℕ) → reg d1 y j ≡ reg d y j) → OnlyMasks d d1
  unchanged-OnlyMasks d d1 kept = record {
    same_version = λ y. kept y 1;
    stays = λ y j small h. ap (λ (v : ℕ). v / 2 ^ 16 % 2) (kept y (low_register j)) ∙ h;
  }

  pub OnlyMasks-trans : {d d1 d2 : D} → OnlyMasks d d1 → OnlyMasks d1 d2 → OnlyMasks d d2
  OnlyMasks-trans p q = record {
    same_version = λ y. q.same_version y ∙ p.same_version y;
    stays = λ y j small h. q.stays y j small (p.stays y j small h);
  }

  module _ (x i : ℕ) (at : IsAt x) (small : i < 24) where
    low_register_bounds : (16 ≤ low_register i) × (low_register i < 64)
    low_register_bounds = (omega arith, omega arith)

    high_register_bounds : (16 ≤ high_register i) × (high_register i < 64)
    high_register_bounds = (omega arith, omega arith)

    low_write_sets :
        (v : ℕ) (d : D)
        → v / 2 ^ 16 % 2 ≡ 1
        → mask_of (write_io_apic device x (low_register i) v d) x i ≡ 1
    low_write_sets v d set =
        let (lo, hi) = low_register_bounds in
        law.mask_bit x (low_register i) v d at lo hi (omega arith) ∙ set

    low_write_stays :
        (v : ℕ) (d : D)
        → v / 2 ^ 16 % 2 ≡ 1
        → (y j : ℕ) → j < 24
        → mask_of d y j ≡ 1
        → mask_of (write_io_apic device x (low_register i) v d) y j ≡ 1
    low_write_stays v d set y j below h =
        let (lo, hi) = low_register_bounds in
        let bit = λ (w : ℕ). w / 2 ^ 16 % 2 in
        let d1 = write_io_apic device x (low_register i) v d in
        elim (ℕ_discrete j i) [
          | no ne ↦
              ap bit (law.other x (low_register i) v d y (low_register j) at lo hi (omega arith))
              ∙ h
          | yes eq ↦ elim (ℕ_discrete y x) [
            | no ne ↦ ap bit (apart x (low_register i) v d y (low_register j) at lo hi ne) ∙ h
            | yes here ↦
                ap (λ (z : ℕ). mask_of d1 z j) here
                ∙ ap (λ (k : ℕ). mask_of d1 x k) eq
                ∙ low_write_sets v d set
          ]
        ]

    low_write :
        (v : ℕ) (d : D)
        → v / 2 ^ 16 % 2 ≡ 1
        → OnlyMasks d (write_io_apic device x (low_register i) v d)
    low_write v d set =
        let (lo, hi) = low_register_bounds in
        record {
          same_version = λ y. law.other x (low_register i) v d y 1 at lo hi (omega arith);
          stays = λ y j below h. low_write_stays v d set y j below h;
        }

    high_write :
        (v : ℕ) (d : D)
        → let d1 = write_io_apic device x (high_register i) v d in
          (y : ℕ) → (reg d1 y 1 ≡ reg d y 1) × ((j : ℕ) → j < 24 → mask_of d1 y j ≡ mask_of d y j)
    high_write v d y =
        let (lo, hi) = high_register_bounds in
        (
          law.other x (high_register i) v d y 1 at lo hi (omega arith),
          λ j below.
              ap (λ (w : ℕ). w / 2 ^ 16 % 2)
                (law.other x (high_register i) v d y (low_register j) at lo hi (omega arith)),
        )

    -- Writing an entry that is masked.
    masked_write :
        (e : RedirectionEntry) (d : D)
        → lower_dword e / 2 ^ 16 % 2 ≡ 1
        → OnlyMasks d (write_entry device x i e d) × (mask_of (write_entry device x i e d) x i ≡ 1)
    unfolding write_entry
    masked_write e d set =
        let v = lower_dword e in
        let d1 = write_io_apic device x (low_register i) v d in
        let high = high_write (upper_dword e) d1 in
        (
          OnlyMasks-trans (low_write v d set) (record {
            same_version = λ y. (high y).0;
            stays = λ y j below h. (high y).1 j below ∙ h;
          }),
          (high x).1 i small ∙ low_write_sets v d set,
        )

    read_only : (d : D) → OnlyMasks d (read_entry device x i d).1
    unfolding read_entry
    read_only d =
        let (lo, lo') = low_register_bounds in
        let (hi, hi') = high_register_bounds in
        let d1 = (read_io_apic device x (low_register i) d).1 in
        unchanged-OnlyMasks d _ (λ y j.
          law.unchanged x (high_register i) d1 y j at hi'
          ∙ law.unchanged x (low_register i) d y j at lo')

    abbrev masked_entry : D → RedirectionEntry
    masked_entry d = record ((read_entry device x i d).0) { masked = 1 }

    masked_entry_bit : (d : D) → lower_dword (masked_entry d) / 2 ^ 16 % 2 ≡ 1
    unfolding read_entry
    masked_entry_bit d = omega arith

    -- A round of the inner loop.
    mask_round :
        (d : D)
        → let d1 = write_entry device x i (masked_entry d) (read_entry device x i d).1 in
          OnlyMasks d d1 × (mask_of d1 x i ≡ 1)
    mask_round d =
        let (kept, set) =
          masked_write (masked_entry d) (read_entry device x i d).1 (masked_entry_bit d) in
        (OnlyMasks-trans (read_only d) kept, set)

  -- The inner loop masks the pins from `i` on, as many as it has rounds.
  pub mask_loop-OnlyMasks :
      (left x i : ℕ) (d : D)
      → IsAt x
      → i + left ≤ 24
      → let d1 = mask_loop device left x i d in
        OnlyMasks d d1 × ((j : ℕ) → i ≤ j → j < i + left → mask_of d1 x j ≡ 1)
  unfolding mask_loop
  mask_loop-OnlyMasks zero x i d at bound =
      (unchanged-OnlyMasks d d (λ y j. refl), λ j low high. absurd (omega arith))
  mask_loop-OnlyMasks (suc left) x i d at bound =
      let (first, set) = mask_round x i at (omega arith) d in
      let d1 =
        write_entry device x i (masked_entry x i at (omega arith) d) (read_entry device x i d).1 in
      let (rest, masked) = mask_loop-OnlyMasks left x (i + 1) d1 at (omega arith) in
      (
        OnlyMasks-trans first rest,
        λ j low high. elim (ℕ_discrete j i) [
          | no ne ↦ masked j (omega arith) (omega arith)
          | yes eq ↦ rest.stays x j (omega arith) (ap (λ (k : ℕ). mask_of d1 x k) eq ∙ set)
        ],
      )
