-- ===== src/Storage/Sata/Port/Slots.antt =====
-- findSlot of src/Storage/SATA.cpp.
use Prim.Native.Nat.{bit_or}
use native.Mathlib.Nat.{div-div-eq-div-mul}
use crack_os.Base.{
  ℕ, zero, suc, ◌+◌, ◌-◌, ◌/◌, ◌%◌, ◌^◌, ◌<◌, ◌≡◌, ◌⊎◌, inl, inr, refl, arith, ap, sym, subst, ◌∙◌,
  true, false,
}
use crack_os.Base.{◌==◌}
use native.Mathlib.Decide.{ℕ_discrete}
use crack_os.Storage.Sata.{Machine}
use crack_os.Storage.Sata.Port.{Bus, sata_active, command_issue, slot_count, slot_loop, find_slot}

-- Bit `i` of a register.
abbrev pub bit : ℕ → ℕ → ℕ
bit x i = x / 2 ^ i % 2

bit-suc : (x i : ℕ) → bit (x / 2) i ≡ bit x (suc i)
bit-suc x i =
    ap (λ (n : ℕ). n % 2) (div-div-eq-div-mul x 2 (2 ^ i))
    ∙ ap (λ (n : ℕ). x / n % 2) {y = 2 ^ suc i} (omega arith)

bit-zero : (x : ℕ) → bit x 0 ≡ x % 2
bit-zero x = omega arith

-- The slot that is found among `count`, where `slots` has a bit for each one in use: the first of
-- the free ones, or ~0 when none is free.
abbrev pub IsFound : ℕ → ℕ → ℕ → Type 0
IsFound count slots found =
    ((found < count) × (bit slots found ≡ 0) × ((j : ℕ) → j < found → bit slots j ≡ 1))
    ⊎ ((found ≡ 2 ^ 64 - 1) × ((j : ℕ) → j < count → bit slots j ≡ 1))

upwards :
    (slots n : ℕ)
    → slots % 2 ≡ 1
    → ((j : ℕ) → j < n → bit (slots / 2) j ≡ 1)
    → (j : ℕ) → j < suc n
    → bit slots j ≡ 1
upwards slots n low high zero h = bit-zero slots ∙ low
upwards slots n low high (suc j) h = sym (bit-suc slots j) ∙ high j (omega arith)

slot_loop-IsFound :
    (left slots i : ℕ)
    → ((k : ℕ) × (slot_loop left slots i ≡ i + k)
        × (k < left)
        × (bit slots k ≡ 0)
        × ((j : ℕ) → j < k → bit slots j ≡ 1))
      ⊎ ((slot_loop left slots i ≡ 2 ^ 64 - 1) × ((j : ℕ) → j < left → bit slots j ≡ 1))
unfolding slot_loop
slot_loop-IsFound zero slots i = inr (refl, λ j h. absurd (omega arith))
slot_loop-IsFound (suc left) slots i = elim (ℕ_discrete (slots % 2) 0) [
  | yes free ↦
      let e : (slots % 2 == 0) ≡ true = ground arith in
      inl
        (0, rw (e, slot_loop) (omega arith), omega arith, omega arith, λ j h. absurd (omega arith))
  | no used ↦
      let e : (slots % 2 == 0) ≡ false = ground arith in
      let shifted = λ (n : ℕ) (below : (j : ℕ) → j < n → bit (slots / 2) j ≡ 1).
        upwards slots n (omega arith) below in
      elim (slot_loop-IsFound left (slots / 2) (i + 1)) [
        | inl (k, is, small, free, below) ↦ inl (
          suc k,
          rw (e, slot_loop) (is ∙ omega arith),
          omega arith,
          sym (bit-suc slots k) ∙ free,
          shifted k below,
        )
        | inr (is, all) ↦ inr (rw (e, slot_loop) is, shifted left all)
      ]
]

module _ {S : Type 0} (bus : Bus S) where
  -- findSlot returns the first slot whose bit is set neither in the register of active commands
  -- nor in that of issued ones, among as many as the controller has, or ~0 when there is none.
  pub find_slot-IsFound :
      (capabilities : ℕ) (s : Machine S)
      → let (active, s1) = bus.load sata_active s in
        let (issue, s2) = bus.load command_issue s1 in
        IsFound (slot_count capabilities) (bit_or active issue) ((find_slot bus capabilities s).0)
  unfolding find_slot
  find_slot-IsFound capabilities s =
      let (active, s1) = bus.load sata_active s in
      let (issue, s2) = bus.load command_issue s1 in
      let slots = bit_or active issue in
      elim (slot_loop-IsFound (slot_count capabilities) slots 0) [
        | inl (k, is, small, free, below) ↦
            let at_k : k ≡ slot_loop (slot_count capabilities) slots 0 = sym (is ∙ omega arith) in
            subst (IsFound (slot_count capabilities) slots) at_k (inl (small, free, below))
        | inr (is, all) ↦ inr (is, all)
      ]

  -- When the first bit of neither register is set, it is slot 0.
  pub find_slot-zero :
      (capabilities : ℕ) (s : Machine S)
      → let (active, s1) = bus.load sata_active s in
        let (issue, s2) = bus.load command_issue s1 in
        bit_or active issue % 2 ≡ 0 → find_slot bus capabilities s ≡ (0, s2)
  unfolding find_slot slot_loop
  find_slot-zero capabilities s free =
      let (active, s1) = bus.load sata_active s in
      let (issue, s2) = bus.load command_issue s1 in
      let e : (bit_or active issue % 2 == 0) ≡ true = ground arith in
      let some_slot : slot_count capabilities ≡ suc (capabilities / 2 ^ 8 % 2 ^ 5) = omega arith in
      rw (some_slot, e, find_slot, slot_loop) refl
