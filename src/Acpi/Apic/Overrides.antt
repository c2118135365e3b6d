-- ===== src/Acpi/Apic/Overrides.antt =====
-- APIC::getSourceOverride of src/ACPI/APIC.cpp, and what it answers on a table whose entries are given
-- as the list of their addresses.
use crack_os.Base.{
  ℕ, zero, suc, ◌+◌, ◌-◌, ◌^◌, ◌<◌, ◌≡◌, refl, arith, true, false, ◌&&◌, Option, none, some, List,
  [], ◌∷◌, length, inl, inr,
}
use crack_os.Base.{◌==◌, if◌then◌else◌, Bool-cases, sub64, ok}
use crack_os.Language.Bytes.{Bytes}
use crack_os.Storage.Sata.Device.{load32}
use crack_os.Acpi.Apic.{
  Device, Apic, entry_type, entry_length, walk, walk_table, look_at_override, get_source_override,
}
use crack_os.Acpi.Apic.Walk.{HoldsEntries}

-- The interrupt that the first override for the line `source` names.
abbrev pub find_override : Bytes → ℕ → List ℕ → Option ℕ
find_override m source [] = none
find_override m source (e ∷ es) =
    if entry_type m e == 2 && m (e + 3) == source
    then some (load32 m (e + 4))
    else find_override m source es

-- What getSourceOverride answers without an override is the greatest 32 bit number.
abbrev pub answer_of : Option ℕ → ℕ
answer_of none = 2 ^ 32 - 1
answer_of (some n) = n

module _ {D : Type 0} (device : Device D) (IsAt : ℕ → Type 0) (m : Bytes) (source : ℕ) where
  walk-find_override :
      (es : List ℕ) (fuel entry remaining : ℕ) (d : D)
      → HoldsEntries m IsAt entry remaining es
      → remaining < 2 ^ 64
      → length es < fuel
      → walk device (look_at_override device m source) fuel m entry remaining d
        ≡ ok (find_override m source es, d)
  unfolding walk look_at_override
  walk-find_override [] zero entry remaining d h small enough = absurd (omega arith)
  walk-find_override [] (suc fuel) entry remaining d h small enough =
      let none_left : (remaining == 0) ≡ true = ground arith in rw (none_left, walk) refl
  walk-find_override (e ∷ es) zero entry remaining d h small enough = absurd (omega arith)
  walk-find_override (e ∷ es) (suc fuel) entry remaining d (same, some_bytes, fits, known, rest)
        small enough =
      let some_left : (remaining == 0) ≡ false = ground arith in
      let left : sub64 remaining (m (entry + 1)) ≡ remaining - m (entry + 1) = omega arith in
      let walked =
        walk-find_override es fuel (entry + entry_length m entry) (remaining - m (entry + 1)) d rest
          (omega arith) (omega arith) in
      elim (Bool-cases (entry_type m entry == 2 && m (entry + 3) == source)) [
        | inl hit ↦ rw same (rw (some_left, walk) (rw (hit, look_at_override) refl))
        | inr missed ↦ rw same (rw (some_left, left, walk) (rw (missed, look_at_override) walked))
      ]

  answered :
      (s : Apic) (fuel : ℕ) (d : D) (found : Option ℕ)
      → walk_table device (look_at_override device m source) fuel m s d ≡ ok (found, d)
      → get_source_override device fuel m s source d ≡ ok (answer_of found, d)
  unfolding get_source_override
  answered s fuel d none walked = rw walked refl
  answered s fuel d (some n) walked = rw walked refl

  -- getSourceOverride reads no register.
  pub get_source_override_lem :
      (s : Apic) (es : List ℕ) (fuel : ℕ) (d : D)
      → HoldsEntries m IsAt (s.acpi_table + 44) (sub64 (load32 m (s.acpi_table + 4)) 44) es
      → length es < fuel
      → get_source_override device fuel m s source d ≡ ok (answer_of (find_override m source es), d)
  unfolding walk_table
  get_source_override_lem s es fuel d table enough = answered s fuel d (find_override m source es) (
      walk-find_override es fuel (s.acpi_table + 44) (sub64 (load32 m (s.acpi_table + 4)) 44) d
        table (omega arith) enough)
