-- ===== src/Storage/Sata/Device/Memory.antt =====
-- The commands of src/Storage/SATA.cpp as the disk finds them in memory.
use crack_os.Base.{
  ℕ, zero, suc, ◌+◌, ◌*◌, ◌/◌, ◌%◌, ◌^◌, ◌<◌, ◌≤◌, ◌≡◌, ◌≢◌, ◌⊎◌, inl, refl, arith, ap, sym, subst,
  ◌∙◌, Bool,
}
use crack_os.Base.{if◌then◌else◌, update}
use native.Mathlib.Decide.{ℕ_discrete}
use crack_os.Language.Bytes.{Bytes}
use crack_os.Storage.Sata.Command.{PrdtEntry}
use crack_os.Storage.Sata.Command.Rounds.{Fits}
use crack_os.Storage.Sata.Device.{
  load32, store16, store32, store_entry, store_entries, fill_fis, with_fis_length,
}

-- An address outside of `n` bytes from `p` on.
abbrev pub Outside : ℕ → ℕ → ℕ → Type 0
Outside p n q = (q + 1 ≤ p) ⊎ (p + n ≤ q)

pub load32_lem :
    (m : Bytes) (p : ℕ)
    → load32 m p ≡ m p + m (p + 1) * 2 ^ 8 + m (p + 2) * 2 ^ 16 + m (p + 3) * 2 ^ 24
unfolding load32
load32_lem m p = refl

pub load32-store32 : (m : Bytes) (p v : ℕ) → v < 2 ^ 32 → load32 (store32 m p v) p ≡ v
unfolding load32 store32 update
load32-store32 m p v h = ground arith

pub store32-Outside : (m : Bytes) (p v q : ℕ) → Outside p 4 q → store32 m p v q ≡ m q
unfolding store32 update
store32-Outside m p v q h = ground arith

pub store32_bytes :
    (m : Bytes) (p v : ℕ)
    → (store32 m p v p ≡ v % 2 ^ 8)
      × (store32 m p v (p + 1) ≡ v / 2 ^ 8 % 2 ^ 8)
      × (store32 m p v (p + 2) ≡ v / 2 ^ 16 % 2 ^ 8)
      × (store32 m p v (p + 3) ≡ v / 2 ^ 24 % 2 ^ 8)
unfolding store32 update
store32_bytes m p v = (ground arith, ground arith, ground arith, ground arith)

pub store16-Outside : (m : Bytes) (p v q : ℕ) → Outside p 2 q → store16 m p v q ≡ m q
unfolding store16 update
store16-Outside m p v q h = ground arith

pub store16_self :
    (m : Bytes) (p v : ℕ)
    → (store16 m p v p ≡ v % 2 ^ 8) × (store16 m p v (p + 1) ≡ v / 2 ^ 8 % 2 ^ 8)
unfolding store16 update
store16_self m p v = (ground arith, ground arith)

pub load32_same :
    (m m' : Bytes) (p : ℕ) → ((k : ℕ) → k < 4 → m' (p + k) ≡ m (p + k)) → load32 m' p ≡ load32 m p
unfolding load32
load32_same m m' p same =
    let e0 : m' p ≡ m p =
      ap m' {y = p + 0} (omega arith) ∙ same 0 (omega arith) ∙ ap m {y = p} (omega arith) in
    let e1 = same 1 (omega arith) in
    let e2 = same 2 (omega arith) in let e3 = same 3 (omega arith) in omega arith

-- The fields of a PrdtEntry as the disk reads them.
abbrev pub HoldsEntry : Bytes → ℕ → PrdtEntry → Type 0
HoldsEntry m p e =
    (load32 m p ≡ e.data_base_address_low)
    × (load32 m (p + 4) ≡ e.data_base_address_high)
    × (load32 m (p + 12) % 2 ^ 22 ≡ e.data_byte_count)

-- A FisH2D with a command, a sector and a number of sectors, as the disk reads it.
abbrev pub HoldsCommand : Bytes → ℕ → ℕ → ℕ → ℕ → Type 0
HoldsCommand m fis command sector count =
    (m fis ≡ 0x27)
    × (m (fis + 1) / 2 ^ 7 ≡ 1)
    × (m (fis + 2) ≡ command)
    × (m (fis + 4)
          + m (fis + 5) * 2 ^ 8
          + m (fis + 6) * 2 ^ 16
          + m (fis + 8) * 2 ^ 24
          + m (fis + 9) * 2 ^ 32
          + m (fis + 10) * 2 ^ 40
        ≡ sector)
    × (m (fis + 12) + m (fis + 13) * 2 ^ 8 ≡ count)

module _ (m : Bytes) (fis command sector count : ℕ) where
  abbrev filled : Bytes
  filled = fill_fis m fis command sector count

  fis_head : (filled fis ≡ 0x27) × (filled (fis + 1) / 2 ^ 7 ≡ 1) × (filled (fis + 2) ≡ command)
  unfolding fill_fis update
  fis_head = (ground arith, ground arith, ground arith)

  fis_low :
      (filled (fis + 4) ≡ sector % 2 ^ 8)
      × (filled (fis + 5) ≡ sector / 2 ^ 8 % 2 ^ 8)
      × (filled (fis + 6) ≡ sector / 2 ^ 16 % 2 ^ 8)
  unfolding fill_fis update
  fis_low = (ground arith, ground arith, ground arith)

  fis_high :
      (filled (fis + 8) ≡ sector / 2 ^ 24 % 2 ^ 8)
      × (filled (fis + 9) ≡ sector / 2 ^ 32 % 2 ^ 8)
      × (filled (fis + 10) ≡ sector / 2 ^ 40 % 2 ^ 8)
  unfolding fill_fis update
  fis_high = (ground arith, ground arith, ground arith)

  fis_count : (filled (fis + 12) ≡ count % 2 ^ 8) × (filled (fis + 13) ≡ count / 2 ^ 8 % 2 ^ 8)
  unfolding fill_fis update
  fis_count = (ground arith, ground arith)

  -- A command reaches the disk with the low 48 bits of the sector, and the low 16 bits of the
  -- number of sectors.
  pub fill_fis-HoldsCommand : HoldsCommand filled fis command (sector % 2 ^ 48) (count % 2 ^ 16)
  fill_fis-HoldsCommand =
      let (a, b, c) = fis_low in
      let (d, e, f) = fis_high in
      let (g, h) = fis_count in (fis_head.0, fis_head.1, fis_head.2, omega arith, omega arith)

  pub fill_fis-Outside : (q : ℕ) → Outside fis 20 q → filled q ≡ m q
  unfolding fill_fis update
  fill_fis-Outside q h = ground arith

pub fis_length_outside : (m : Bytes) (slot q : ℕ) → q ≢ slot → with_fis_length m slot q ≡ m q
unfolding update
fis_length_outside m slot q h = ground arith

pub load32_past :
    (m : Bytes) (p v q : ℕ) → ((q + 4 ≤ p) ⊎ (p + 4 ≤ q)) → load32 (store32 m p v) q ≡ load32 m q
load32_past m p v q h =
    load32_same m (store32 m p v) q (λ k lt. store32-Outside m p v (q + k) (ground arith))

flag_bits : (b : Bool) (n : ℕ) → n < 2 ^ 22 → (n % 2 ^ 22 + (if b then 2 ^ 31 else 0)) % 2 ^ 22 ≡ n
flag_bits b n h = ground arith

module _ (m : Bytes) (p : ℕ) (e : PrdtEntry) where
  abbrev flags : ℕ
  flags = e.data_byte_count % 2 ^ 22 + (if e.interrupt_enable then 2 ^ 31 else 0)

  abbrev one : Bytes
  one = store32 m p e.data_base_address_low

  abbrev two : Bytes
  two = store32 one (p + 4) e.data_base_address_high

  abbrev three : Bytes
  three = store32 two (p + 8) 0

  store_entry-Outside : (q : ℕ) → Outside p 16 q → store_entry m p e q ≡ m q
  unfolding store_entry
  store_entry-Outside q h =
      store32-Outside three (p + 12) flags q (ground arith)
      ∙ store32-Outside two (p + 8) 0 q (ground arith)
      ∙ store32-Outside one (p + 4) e.data_base_address_high q (ground arith)
      ∙ store32-Outside m p e.data_base_address_low q (ground arith)

  store_entry-HoldsEntry : Fits e → HoldsEntry (store_entry m p e) p e
  unfolding store_entry
  store_entry-HoldsEntry (low, high, room) =
      let small : flags < 2 ^ 32 = ground arith in
      (
        load32_past three (p + 12) flags p (inl (omega arith))
            ∙ load32_past two (p + 8) 0 p (inl (omega arith))
            ∙ load32_past one (p + 4) e.data_base_address_high p (inl (omega arith))
            ∙ load32-store32 m p e.data_base_address_low low,
        load32_past three (p + 12) flags (p + 4) (inl (omega arith))
            ∙ load32_past two (p + 8) 0 (p + 4) (inl (omega arith))
            ∙ load32-store32 one (p + 4) e.data_base_address_high high,
        ap (λ (n : ℕ). n % 2 ^ 22) (load32-store32 three (p + 12) flags small)
            ∙ flag_bits e.interrupt_enable e.data_byte_count room,
      )

pub HoldsEntry-same :
    (m m' : Bytes) (p : ℕ) (e : PrdtEntry)
    → ((k : ℕ) → k < 16 → m' (p + k) ≡ m (p + k))
    → HoldsEntry m p e
    → HoldsEntry m' p e
HoldsEntry-same m m' p e same (low, high, count) =
    let shifted = λ (j : ℕ) (h : j ≤ 12). load32_same m m' (p + j) (λ k lt.
      ap m' {y = p + (j + k)} (omega arith)
      ∙ same (j + k) (omega arith)
      ∙ ap m {y = p + j + k} (omega arith)) in
    (
      load32_same m m' p (λ k lt. same k (omega arith)) ∙ low,
      shifted 4 (omega arith) ∙ high,
      ap (λ (n : ℕ). n % 2 ^ 22) (shifted 12 (omega arith)) ∙ count,
    )

module _ (m : Bytes) (table : ℕ) (entries : ℕ → PrdtEntry) where
  pub store_entries-Outside :
      (n q : ℕ) → Outside (table + 128) (16 * n) q → store_entries m table entries n q ≡ m q
  unfolding store_entries
  store_entries-Outside zero q h = refl
  store_entries-Outside (suc n) q h =
      store_entry-Outside (store_entries m table entries n) (table + 128 + 16 * n) (entries n) q
        (ground arith)
      ∙ store_entries-Outside n q (ground arith)

  pub store_entries-HoldsEntry :
      (n j : ℕ)
      → j < n
      → Fits (entries j)
      → HoldsEntry (store_entries m table entries n) (table + 128 + 16 * j) (entries j)
  unfolding store_entries
  store_entries-HoldsEntry zero j h fits = absurd (omega arith)
  store_entries-HoldsEntry (suc n) j h fits = elim (ℕ_discrete j n) [
    | yes is ↦
        subst
          (λ (k : ℕ).
            HoldsEntry (store_entries m table entries (suc n)) (table + 128 + 16 * k) (entries k))
          (sym is)
          (store_entry-HoldsEntry (store_entries m table entries n) (table + 128 + 16 * n)
            (entries n) (subst (λ (k : ℕ). Fits (entries k)) is fits))
    | no is_not ↦
        HoldsEntry-same (store_entries m table entries n) (store_entries m table entries (suc n))
          (table + 128 + 16 * j) (entries j)
          (λ k lt.
            store_entry-Outside (store_entries m table entries n) (table + 128 + 16 * n) (entries n)
              (table + 128 + 16 * j + k) (inl (omega arith)))
          (store_entries-HoldsEntry n j (omega arith) fits)
  ]
