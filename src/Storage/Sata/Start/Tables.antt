-- ===== src/Storage/Sata/Start/Tables.antt =====
-- The command tables that SATA::tryToInit of src/Storage/SATA.cpp gives to the slots.
use crack_os.Base.{
  ℕ, zero, suc, ◌+◌, ◌*◌, ◌/◌, ◌%◌, ◌^◌, ◌<◌, ◌≤◌, ◌≡◌, inl, inr, refl, arith, ap, sym, subst, ◌∙◌,
}
use native.Mathlib.Decide.{ℕ_discrete}
use crack_os.Language.Bytes.{Bytes}
use crack_os.Storage.Sata.Device.{load32, store16, store32, map_pages, get_command_table}
use crack_os.Storage.Sata.Device.Memory.{
  Outside, load32_lem, load32-store32, load32_past, load32_same, store16-Outside, store32-Outside,
  store32_bytes,
}
use crack_os.Storage.Sata.Device.Issue.{table_base, get_command_table_lem}
use crack_os.Storage.Sata.Start.{set_up_slots}

-- The physical address of the table of a slot.
abbrev pub table_at : (ℕ → ℕ) → ℕ → ℕ → ℕ
table_at physical tables i = physical (tables + i * 256)

module _ (physical : ℕ → ℕ) (slots tables : ℕ) (m : Bytes) where
  abbrev after : ℕ → Bytes
  after n = set_up_slots physical slots tables n m

  set_up_new :
      (n : ℕ)
      → table_at physical tables n < 2 ^ 64
      → table_base (after (suc n)) (slots + n * 32) ≡ table_at physical tables n
  unfolding set_up_slots
  set_up_new n h =
      let slot = slots + n * 32 in
      let m0 = store16 (after n) (slot + 2) 8 in
      let low = table_at physical tables n % 2 ^ 32 in
      let high = table_at physical tables n / 2 ^ 32 % 2 ^ 32 in
      let m1 = store32 m0 (slot + 8) low in
      let a : load32 (after (suc n)) (slot + 8) ≡ low =
        load32_past m1 (slot + 12) high (slot + 8) (inl (omega arith))
        ∙ load32-store32 m0 (slot + 8) low (omega arith) in
      let b : load32 (after (suc n)) (slot + 12) ≡ high =
        load32-store32 m1 (slot + 12) high (omega arith) in
      omega arith

  set_up-Outside : (n q : ℕ) → Outside (slots + n * 32) 16 q → after (suc n) q ≡ after n q
  unfolding set_up_slots
  set_up-Outside n q h =
      let slot = slots + n * 32 in
      let m0 = store16 (after n) (slot + 2) 8 in
      let low = table_at physical tables n % 2 ^ 32 in
      let high = table_at physical tables n / 2 ^ 32 % 2 ^ 32 in
      let m1 = store32 m0 (slot + 8) low in
      store32-Outside m1 (slot + 12) high q (ground arith)
      ∙ store32-Outside m0 (slot + 8) low q (ground arith)
      ∙ store16-Outside (after n) (slot + 2) 8 q (ground arith)

  base_same :
      (a b : Bytes) (slot : ℕ)
      → ((k : ℕ) → k < 16 → a (slot + k) ≡ b (slot + k))
      → table_base a slot ≡ table_base b slot
  base_same a b slot same =
      let part = λ (j : ℕ) (h : j ≤ 12). load32_same b a (slot + j) (λ k lt.
        ap a {y = slot + (j + k)} (omega arith)
        ∙ same (j + k) (omega arith)
        ∙ ap b {y = slot + j + k} (omega arith)) in
      let low = part 8 (omega arith) in let high = part 12 (omega arith) in omega arith

  -- When tryToInit has set up `n` slots, each of them names the table that belongs to it.
  pub set_up_slots-table :
      (n i : ℕ)
      → i < n
      → table_at physical tables i < 2 ^ 64
      → table_base (set_up_slots physical slots tables n m) (slots + i * 32)
        ≡ table_at physical tables i
  set_up_slots-table zero i h small = absurd (omega arith)
  set_up_slots-table (suc n) i h small = elim (ℕ_discrete i n) [
    | yes is ↦
        subst (λ (k : ℕ). table_base (after (suc n)) (slots + k * 32) ≡ table_at physical tables k)
          (sym is) (set_up_new n (subst (λ (k : ℕ). table_at physical tables k < 2 ^ 64) is small))
    | no is_not ↦
        base_same (after (suc n)) (after n) (slots + i * 32)
          (λ k lt. set_up-Outside n (slots + i * 32 + k) (inl (omega arith)))
        ∙ set_up_slots-table n i (omega arith) small
  ]

  -- Only the first slot reaches its bytes.
  first_slot : (n k : ℕ) → k < 32 → after (suc n) (slots + k) ≡ after 1 (slots + k)
  first_slot zero k h = refl
  first_slot (suc n) k h = set_up-Outside (suc n) (slots + k) (inl (omega arith)) ∙ first_slot n k h

  first_bytes :
      let low = table_at physical tables 0 % 2 ^ 32 in
      let high = table_at physical tables 0 / 2 ^ 32 % 2 ^ 32 in
      (after 1 (slots + 9) ≡ low / 2 ^ 8 % 2 ^ 8)
      × (after 1 (slots + 10) ≡ low / 2 ^ 16 % 2 ^ 8)
      × (after 1 (slots + 11) ≡ low / 2 ^ 24 % 2 ^ 8)
      × (after 1 (slots + 12) ≡ high % 2 ^ 8)
      × (after 1 (slots + 13) ≡ high / 2 ^ 8 % 2 ^ 8)
      × (after 1 (slots + 14) ≡ high / 2 ^ 16 % 2 ^ 8)
      × (after 1 (slots + 15) ≡ high / 2 ^ 24 % 2 ^ 8)
      × (after 1 (slots + 16) ≡ m (slots + 16))
  unfolding set_up_slots
  first_bytes =
      let slot = slots + 0 * 32 in
      let m0 = store16 m (slot + 2) 8 in
      let low = table_at physical tables 0 % 2 ^ 32 in
      let high = table_at physical tables 0 / 2 ^ 32 % 2 ^ 32 in
      let m1 = store32 m0 (slot + 8) low in
      let m2 = store32 m1 (slot + 12) high in
      let (l0, l1, l2, l3) = store32_bytes m0 (slot + 8) low in
      let (h0, h1, h2, h3) = store32_bytes m1 (slot + 12) high in
      let below =
        λ (q : ℕ) (h : q + 1 ≤ slot + 12). store32-Outside m1 (slot + 12) high q (inl h) in
      (
        ap m2 {y = slot + 8 + 1} (omega arith) ∙ below (slot + 8 + 1) (omega arith) ∙ l1,
        ap m2 {y = slot + 8 + 2} (omega arith) ∙ below (slot + 8 + 2) (omega arith) ∙ l2,
        ap m2 {y = slot + 8 + 3} (omega arith) ∙ below (slot + 8 + 3) (omega arith) ∙ l3,
        ap m2 {y = slot + 12} (omega arith) ∙ h0,
        ap m2 {y = slot + 12 + 1} (omega arith) ∙ h1,
        ap m2 {y = slot + 12 + 2} (omega arith) ∙ h2,
        ap m2 {y = slot + 12 + 3} (omega arith) ∙ h3,
        set_up-Outside 0 (slots + 16) (inr (omega arith)),
      )

  -- writeH2DCommand takes the slot at `commandSlotPtr + slotID`, in bytes: for slot 1 it does not
  -- fill the table of slot 1, but memory at the address of the first table over 256, when
  -- tryToInit has set up the slots in memory that was cleared.
  pub second_slot-get_command_table :
      (n : ℕ)
      → table_at physical tables 0 < 2 ^ 64
      → m (slots + 16) ≡ 0
      → get_command_table (set_up_slots physical slots tables (suc n) m) (slots + 1)
        ≡ map_pages (table_at physical tables 0 / 2 ^ 8)
  second_slot-get_command_table n small clear =
      let final = after (suc n) in
      let slot = slots + 1 in
      let (b9, b10, b11, b12, b13, b14, b15, b16) = first_bytes in
      let at = λ (p k : ℕ) (e : p ≡ slots + k) (h : k < 32). ap final e ∙ first_slot n k h in
      let low = load32_lem final (slot + 8) in
      let high = load32_lem final (slot + 12) in
      let c9 = at (slot + 8) 9 (omega arith) (omega arith) ∙ b9 in
      let c10 = at (slot + 8 + 1) 10 (omega arith) (omega arith) ∙ b10 in
      let c11 = at (slot + 8 + 2) 11 (omega arith) (omega arith) ∙ b11 in
      let c12 = at (slot + 8 + 3) 12 (omega arith) (omega arith) ∙ b12 in
      let c13 = at (slot + 12) 13 (omega arith) (omega arith) ∙ b13 in
      let c14 = at (slot + 12 + 1) 14 (omega arith) (omega arith) ∙ b14 in
      let c15 = at (slot + 12 + 2) 15 (omega arith) (omega arith) ∙ b15 in
      let c16 = at (slot + 12 + 3) 16 (omega arith) (omega arith) ∙ b16 ∙ clear in
      get_command_table_lem final slot ∙ ap map_pages (omega arith)
