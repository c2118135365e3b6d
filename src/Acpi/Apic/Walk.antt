-- ===== src/Acpi/Apic/Walk.antt =====
-- The search for the I/O APIC of an interrupt in src/ACPI/APIC.cpp, on a table whose entries are
-- given as the list of their addresses.
use crack_os.Base.{
  ℕ, zero, suc, ◌+◌, ◌-◌, ◌/◌, ◌%◌, ◌^◌, ◌<◌, ◌≤◌, ◌≡◌, ◌≢◌, refl, arith, ap, ◌∙◌, Bool, true,
  false, ◌&&◌, Option, none, some, List, [], ◌∷◌, length, inl, inr,
}
use crack_os.Base.{fun_ext, ltb, leb, ◌==◌, if◌then◌else◌, Bool-cases, sub64, Run, ok, ◌>>=◌}
use crack_os.Language.Bytes.{Bytes}
use crack_os.Memory.{gi}
use crack_os.Memory.Physical.{map_pages, window}
use crack_os.Acpi.Apic.{
  Device, entry_type, entry_length, io_apic_address, interrupt_base, add32, redirection_count,
  read_io_apic, write_io_apic, walk, look_at_io_apic, ask_io_apic, after_entry,
}

-- What an I/O APIC is, at the addresses `IsAt`: registers that are chosen by their number, those
-- from 16 to 63 two for each of the 24 pins. Reading changes none of them. A write to one of a pin
-- changes no other register, and one to the first of a pin's two stores the vector and the mask bit;
-- the device decides over all other bits.
pub record IsIoApic {D : Type 0} (device : Device D) (reg : D → ℕ → ℕ → ℕ) (IsAt : ℕ → Type 0)
    : Type 0 where
  pub value : (a i : ℕ) (d : D) → IsAt a → i < 64 → (read_io_apic device a i d).0 ≡ reg d a i
  pub unchanged :
      (a i : ℕ) (d : D) (b j : ℕ)
      → IsAt a
      → i < 64
      → reg (read_io_apic device a i d).1 b j ≡ reg d b j
  pub vector :
      (a i v : ℕ) (d : D)
      → IsAt a
      → 16 ≤ i
      → i < 64
      → i % 2 ≡ 0
      → reg (write_io_apic device a i v d) a i % 2 ^ 8 ≡ v % 2 ^ 8
  pub mask_bit :
      (a i v : ℕ) (d : D)
      → IsAt a
      → 16 ≤ i
      → i < 64
      → i % 2 ≡ 0
      → reg (write_io_apic device a i v d) a i / 2 ^ 16 % 2 ≡ v / 2 ^ 16 % 2
  pub other :
      (a i v : ℕ) (d : D) (b j : ℕ)
      → IsAt a
      → 16 ≤ i
      → i < 64
      → j ≢ i
      → reg (write_io_apic device a i v d) b j ≡ reg d b j

-- The entries from `entry` on fill `remaining` bytes, and name I/O APICs below 512 GiB.
abbrev pub HoldsEntries : Bytes → (ℕ → Type 0) → ℕ → ℕ → List ℕ → Type 0
HoldsEntries m IsAt entry remaining [] = remaining ≡ 0
HoldsEntries m IsAt entry remaining (e ∷ es) =
    (e ≡ entry)
    × (0 < m (entry + 1))
    × (m (entry + 1) ≤ remaining)
    × (m entry ≡ 1 → (io_apic_address m entry < gi 512) × IsAt (io_apic_address m entry + window))
    × HoldsEntries m IsAt (entry + m (entry + 1)) (remaining - m (entry + 1)) es

-- The I/O APIC of an interrupt: the first one with a range of 24 numbers around it, and below the
-- number of pins that it says it has. `version` is the register 1 of each I/O APIC.
abbrev pub serves : Bytes → (ℕ → ℕ) → ℕ → ℕ → Bool
serves m version n e =
    ltb n (add32 (interrupt_base m e) (redirection_count (version (io_apic_address m e + window))))

abbrev pub in_range : Bytes → ℕ → ℕ → Bool
in_range m n e =
    entry_type m e == 1 && leb (interrupt_base m e) n && ltb n (add32 (interrupt_base m e) 24)

abbrev pub find_io_apic : Bytes → (ℕ → ℕ) → ℕ → List ℕ → Option (ℕ × ℕ)
find_io_apic m version n [] = none
find_io_apic m version n (e ∷ es) = elim (in_range m n e && serves m version n e) [
  | true ↦ some (io_apic_address m e + window, interrupt_base m e)
  | false ↦ find_io_apic m version n es
]

pub map_pages_low : (a : ℕ) → a < gi 512 → map_pages a ≡ ok (a + window)
unfolding map_pages
map_pages_low a h = ground arith

pub same_versions :
    {D : Type 0} (reg : D → ℕ → ℕ → ℕ) (d1 d : D)
    → ((b j : ℕ) → reg d1 b j ≡ reg d b j)
    → ◌≡◌ {A = ℕ → ℕ} (λ a. reg d1 a 1) (λ a. reg d a 1)
same_versions reg d1 d kept = fun_ext (λ a. kept a 1)

module _ {D : Type 0} (device : Device D) (reg : D → ℕ → ℕ → ℕ) (IsAt : ℕ → Type 0)
    (law : IsIoApic device reg IsAt) (m : Bytes) (n : ℕ) where
  abbrev address : ℕ → ℕ
  address entry = io_apic_address m entry + window

  -- The result at one entry.
  abbrev verdict : (ℕ → ℕ) → ℕ → Option (ℕ × ℕ)
  verdict version e =
      if in_range m n e && serves m version n e then some (address e, interrupt_base m e) else none

  ask_lem :
      (entry : ℕ) (d : D)
      → IsAt (address entry)
      → ask_io_apic device (interrupt_base m entry) n d (address entry)
        ≡ ok (
          if serves m (λ a. reg d a 1) n entry
              then some (address entry, interrupt_base m entry)
              else none,
          (read_io_apic device (address entry) 1 d).1,
        )
  unfolding ask_io_apic
  ask_lem entry d at = rw (law.value (address entry) 1 d at (omega arith)) refl

  look_lem :
      (entry : ℕ) (d : D)
      → (m entry ≡ 1 → (io_apic_address m entry < gi 512) × IsAt (address entry))
      → (d1 : D) × (look_at_io_apic device m n entry d ≡ ok (verdict (λ a. reg d a 1) entry, d1))
        × ((b j : ℕ) → reg d1 b j ≡ reg d b j)
  unfolding look_at_io_apic
  look_lem entry d known = elim (Bool-cases (in_range m n entry)) [
    | inr out ↦ (d, rw (out, look_at_io_apic) refl, λ b j. refl)
    | inl inside ↦
        let io : m entry ≡ 1 = ground arith in
        let there = known io in
        (
          (read_io_apic device (address entry) 1 d).1,
          rw (inside, look_at_io_apic)
              (ap (λ (r : Run ℕ). r >>= ask_io_apic device (interrupt_base m entry) n d)
                  (map_pages_low (io_apic_address m entry) there.0)
                ∙ ask_lem entry d there.1),
          λ b j. law.unchanged (address entry) 1 d b j there.1 (omega arith),
        )
  ]

  -- The walk over the entries finds what `find_io_apic` says, with one round for each entry and
  -- one more, and changes no register.
  pub walk-find_io_apic :
      (es : List ℕ) (fuel entry remaining : ℕ) (d : D)
      → HoldsEntries m IsAt entry remaining es
      → remaining < 2 ^ 64
      → length es < fuel
      → (d1 : D) × (walk device (look_at_io_apic device m n) fuel m entry remaining d
          ≡ ok (find_io_apic m (λ a. reg d a 1) n es, d1))
        × ((b j : ℕ) → reg d1 b j ≡ reg d b j)
  unfolding walk
  walk-find_io_apic [] zero entry remaining d h small enough = absurd (omega arith)
  walk-find_io_apic [] (suc fuel) entry remaining d h small enough =
      let none_left : (remaining == 0) ≡ true = ground arith in
      (d, rw (none_left, walk) refl, λ b j. refl)
  walk-find_io_apic (e ∷ es) zero entry remaining d h small enough = absurd (omega arith)
  walk-find_io_apic (e ∷ es) (suc fuel) entry remaining d (same, some_bytes, fits, known, rest)
        small enough =
      let some_left : (remaining == 0) ≡ false = ground arith in
      let (d1, looked, kept) = look_lem entry d known in
      let next = entry + entry_length m entry in
      let rest_of = walk device (look_at_io_apic device m n) fuel m next in
      let left : sub64 remaining (m (entry + 1)) ≡ remaining - m (entry + 1) = omega arith in
      let (d2, walked, kept2) =
        walk-find_io_apic es fuel next (remaining - m (entry + 1)) d1 rest (omega arith)
          (omega arith) in
      let versions = same_versions reg d1 d kept in
      let start : walk device (look_at_io_apic device m n) (suc fuel) m entry remaining d
          ≡ after_entry device (rest_of (remaining - m (entry + 1)))
              (verdict (λ a. reg d a 1) entry, d1) =
        rw (some_left, left, walk)
          (ap
            (λ (r : Run (Option (ℕ × ℕ) × D)).
              r >>= after_entry device (rest_of (remaining - m (entry + 1))))
            looked) in
      elim (Bool-cases (in_range m n entry && serves m (λ a. reg d a 1) n entry)) [
        | inl found ↦ (d1, start ∙ rw same (rw (found, find_io_apic) refl), kept)
        | inr missed ↦ (
          d2,
          start
              ∙ rw same (
                  rw (missed, find_io_apic)
                    (walked ∙ ap (λ (v : ℕ → ℕ). ok (find_io_apic m v n es, d2)) versions)),
          λ b j. kept2 b j ∙ kept b j,
        )
      ]
