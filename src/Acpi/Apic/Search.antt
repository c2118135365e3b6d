-- ===== src/Acpi/Apic/Search.antt =====
-- What the search of src/ACPI/APIC.cpp for the I/O APIC of an interrupt finds, and when it finds none.
use crack_os.Base.{
  ℕ, ◌+◌, ◌-◌, ◌^◌, ◌<◌, ◌≤◌, ◌≡◌, ◌≢◌, refl, arith, ap, sym, subst, ◌∙◌, true, false, ◌&&◌, Option,
  none, some, List, [], ◌∷◌, inl, inr, ◌⊎◌,
}
use crack_os.Base.{Bool-cases}
use crack_os.Language.Bytes.{Bytes}
use crack_os.Memory.Physical.{window}
use crack_os.Acpi.Apic.{io_apic_address, interrupt_base, redirection_count}
use crack_os.Acpi.Apic.Walk.{HoldsEntries, find_io_apic, in_range, serves}

abbrev pub pair_of : Option (ℕ × ℕ) → ℕ × ℕ
pair_of none = (0, 0)
pair_of (some p) = p

pub find_io_apic-hit :
    (m : Bytes) (version : ℕ → ℕ) (n e : ℕ) (es : List ℕ)
    → (in_range m n e && serves m version n e) ≡ true
    → find_io_apic m version n (e ∷ es) ≡ some (io_apic_address m e + window, interrupt_base m e)
find_io_apic-hit m version n e es h = rw (h, find_io_apic) refl

pub find_io_apic-missed :
    (m : Bytes) (version : ℕ → ℕ) (n e : ℕ) (es : List ℕ)
    → (in_range m n e && serves m version n e) ≡ false
    → find_io_apic m version n (e ∷ es) ≡ find_io_apic m version n es
find_io_apic-missed m version n e es h = rw (h, find_io_apic) refl

pub in_range_bounds :
    (m : Bytes) (version : ℕ → ℕ) (n e : ℕ)
    → (in_range m n e && serves m version n e) ≡ true
    → (m e ≡ 1) × (interrupt_base m e ≤ n) × (n < interrupt_base m e + 24)
in_range_bounds m version n e h = (ground arith, ground arith, ground arith)

-- What the search finds is an I/O APIC, with the interrupt within 24 numbers of its base.
pub find_io_apic-IsAt :
    (m : Bytes) (IsAt : ℕ → Type 0) (version : ℕ → ℕ) (n a b : ℕ) (es : List ℕ) (entry left : ℕ)
    → HoldsEntries m IsAt entry left es
    → find_io_apic m version n es ≡ some (a, b)
    → IsAt a × (a ≢ 0) × (b ≤ n) × (n < b + 24)
find_io_apic-IsAt m IsAt version n a b [] entry left h found = absurd (cc)
find_io_apic-IsAt m IsAt version n a b (e ∷ es) entry left (same, more, fits, known, rest) found =
    elim (Bool-cases (in_range m n e && serves m version n e)) [
      | inr missed ↦
          find_io_apic-IsAt m IsAt version n a b es (entry + m (entry + 1)) (left - m (entry + 1))
            rest (sym (find_io_apic-missed m version n e es missed) ∙ found)
      | inl hit ↦
          let (io, low, high) = in_range_bounds m version n e hit in
          let there = known (ap m (sym same) ∙ io) in
          let pair : ◌≡◌ {A = Option (ℕ × ℕ)}
              (some (io_apic_address m e + window, interrupt_base m e)) (some (a, b)) =
            sym (find_io_apic-hit m version n e es hit) ∙ found in
          let ea : io_apic_address m entry + window ≡ a =
            ap (λ (x : ℕ). io_apic_address m x + window) (sym same)
            ∙ ap (λ (o : Option (ℕ × ℕ)). (pair_of o).0) pair in
          let eb : interrupt_base m e ≡ b = ap (λ (o : Option (ℕ × ℕ)). (pair_of o).1) pair in
          (subst IsAt ea there.1, omega arith, omega arith, omega arith)
    ]

-- Each I/O APIC starts above the interrupt, or has by its register 1 at most the pins below it.
abbrev pub IsBeyond : Bytes → (ℕ → ℕ) → ℕ → List ℕ → Type 0
IsBeyond m version n [] = Unit
IsBeyond m version n (e ∷ es) =
    (m e ≡ 1
      → (n < interrupt_base m e)
        ⊎ ((interrupt_base m e + redirection_count (version (io_apic_address m e + window)) ≤ n)
            × (n < 2 ^ 32)))
    × IsBeyond m version n es

not_served :
    (m : Bytes) (version : ℕ → ℕ) (n e : ℕ)
    → (m e ≡ 1
        → (n < interrupt_base m e)
          ⊎ ((interrupt_base m e + redirection_count (version (io_apic_address m e + window)) ≤ n)
              × (n < 2 ^ 32)))
    → (in_range m n e && serves m version n e) ≡ false
not_served m version n e beyond = elim (Bool-cases (in_range m n e && serves m version n e)) [
  | inr missed ↦ missed
  | inl hit ↦
      let (io, low, high) = in_range_bounds m version n e hit in
      let place = beyond io in ground arith
]

pub find_io_apic-IsBeyond :
    (m : Bytes) (version : ℕ → ℕ) (n : ℕ) (es : List ℕ)
    → IsBeyond m version n es
    → find_io_apic m version n es ≡ none
find_io_apic-IsBeyond m version n [] h = refl
find_io_apic-IsBeyond m version n (e ∷ es) (beyond, rest) =
    find_io_apic-missed m version n e es (not_served m version n e beyond)
    ∙ find_io_apic-IsBeyond m version n es rest
