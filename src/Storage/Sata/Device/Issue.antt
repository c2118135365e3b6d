-- ===== src/Storage/Sata/Device/Issue.antt =====
-- The aligned part of SATA::read and SATA::write of src/Storage/SATA.cpp: what it has put into
-- memory when it starts the command.
use crack_os.Base.{
  ℕ, ◌+◌, ◌-◌, ◌*◌, ◌/◌, ◌%◌, ◌^◌, ◌<◌, ◌≤◌, ◌≡◌, ◌≢◌, ◌⊎◌, inr, refl, arith, ap, sym, subst, ◌∙◌,
  true, false,
}
use crack_os.Base.{ltb, if◌then◌else◌, update_self, Run, ok, ◌>>=◌}
use crack_os.Memory.{gi, ti}
use crack_os.Language.Bytes.{Bytes}
use crack_os.Storage.Sata.{Machine}
use crack_os.Storage.Sata.Command.{PrdtEntry, Prdt, create_prdt}
use crack_os.Storage.Sata.Command.Rounds.{Fits}
use crack_os.Storage.Sata.Command.Regions.{Contiguous, IsCovered, create_prdt-IsCovered}
use crack_os.Storage.Sata.Port.{Bus, find_slot}
use crack_os.Storage.Sata.Transfer.{minus_one}
use crack_os.Storage.Sata.Device.{
  Disk, load32, store16, store_entries, fill_fis, with_fis_length, map_pages, get_command_table,
  write_h2d_command, execute_command, transfer_in, transfer,
}
use crack_os.Storage.Sata.Device.Memory.{
  HoldsEntry, HoldsCommand, Outside, HoldsEntry-same, fill_fis-HoldsCommand, fill_fis-Outside,
  fis_length_outside, store_entries-HoldsEntry, store_entries-Outside, store16-Outside,
  store16_self, load32_same,
}

-- The address that a slot names, and where the kernel sees it.
abbrev pub table_base : Bytes → ℕ → ℕ
table_base m slot = load32 m (slot + 8) + load32 m (slot + 12) * 2 ^ 32

abbrev pub table_of : Bytes → ℕ → ℕ
table_of m slot = table_base m slot + ti 32 + ti 64

pub get_command_table_lem :
    (m : Bytes) (slot : ℕ) → get_command_table m slot ≡ map_pages (table_base m slot)
unfolding get_command_table
get_command_table_lem m slot = refl

get_table :
    (m : Bytes) (slot : ℕ)
    → table_base m slot < gi 512
    → get_command_table m slot ≡ ok (table_of m slot)
unfolding get_command_table map_pages
get_table m slot h = let e : ltb (table_base m slot) (gi 512) ≡ true = ground arith in rw e refl

table_base_same :
    (m m' : Bytes) (slot : ℕ)
    → ((k : ℕ) → k < 8 → m' (slot + 8 + k) ≡ m (slot + 8 + k))
    → table_base m' slot ≡ table_base m slot
table_base_same m m' slot same =
    let low = load32_same m m' (slot + 8) (λ k lt. same k (omega arith)) in
    let high = load32_same m m' (slot + 12) (λ k lt.
      ap m' {y = slot + 8 + (4 + k)} (omega arith)
      ∙ same (4 + k) (omega arith)
      ∙ ap m {y = slot + 12 + k} (omega arith)) in
    omega arith

-- A command as the disk finds it: the slot names as many entries as there are and the length of
-- the FIS, the table holds the FIS and the entries, and nothing else has changed.
pub record IsPrepared (before m : Bytes) (slot table n : ℕ) (entries : ℕ → PrdtEntry)
    (command sector count : ℕ) : Type 0 where
  pub length_field : m slot % 2 ^ 5 ≡ 5
  pub entry_field : m (slot + 2) + m (slot + 3) * 2 ^ 8 ≡ n
  pub fis : HoldsCommand m table command sector count
  pub holds : (j : ℕ) → j < n → HoldsEntry m (table + 128 + 16 * j) (entries j)
  pub others : (q : ℕ) → Outside slot 4 q → Outside table 256 q → m q ≡ before q

-- Memory with the entries, and with their number in the slot.
abbrev with_entries : Bytes → ℕ → (ℕ → PrdtEntry) → Bytes
with_entries before table entries = store_entries before table entries 8

abbrev listed : Bytes → ℕ → ℕ → ℕ → (ℕ → PrdtEntry) → Bytes
listed before slot table n entries = store16 (with_entries before table entries) (slot + 2) n

module _ (before : Bytes) (slot table n : ℕ) (entries : ℕ → PrdtEntry)
    (command sector count : ℕ) where
  abbrev pub prepared : Bytes
  prepared =
      fill_fis (with_fis_length (listed before slot table n entries) slot) table command sector
        count

  -- Outside of the FIS and of the first byte of the slot, only the number of entries is new.
  past_fis :
      (q : ℕ)
      → Outside table 20 q
      → q ≢ slot
      → Outside (slot + 2) 2 q
      → prepared q ≡ (with_entries before table entries) q
  past_fis q a b c =
      fill_fis-Outside (with_fis_length (listed before slot table n entries) slot) table command
        sector count q a
      ∙ fis_length_outside (listed before slot table n entries) slot q b
      ∙ store16-Outside (with_entries before table entries) (slot + 2) n q c

  module _ (small : n ≤ 8) (fits : (j : ℕ) → j < n → Fits (entries j))
      (apart : (slot + 32 ≤ table) ⊎ (table + 256 ≤ slot)) where
    past_head :
        (q : ℕ) → slot < q → q < slot + 32 → prepared q ≡ (listed before slot table n entries) q
    past_head q above below =
        fill_fis-Outside (with_fis_length (listed before slot table n entries) slot) table command
          sector count q (ground arith)
        ∙ fis_length_outside (listed before slot table n entries) slot q (ground arith)

    pub prepared-IsPrepared :
        IsPrepared before prepared slot table n entries command (sector % 2 ^ 48) (count % 2 ^ 16)
    prepared-IsPrepared =
        let marked = with_fis_length (listed before slot table n entries) slot in
        let (low, high) = store16_self (with_entries before table entries) (slot + 2) n in
        let first : prepared (slot + 2) ≡ n % 2 ^ 8 =
          past_head (slot + 2) (omega arith) (omega arith) ∙ low in
        let second : prepared (slot + 3) ≡ n / 2 ^ 8 % 2 ^ 8 =
          past_head (slot + 3) (omega arith) (omega arith)
          ∙ ap (listed before slot table n entries) {y = slot + 2 + 1} (omega arith)
          ∙ high in
        record {
          length_field =
              ap (λ (x : ℕ). x % 2 ^ 5)
                (fill_fis-Outside marked table command sector count slot (ground arith)
                  ∙ update_self (listed before slot table n entries) slot
                      ((listed before slot table n entries) slot / 2 ^ 5 * 2 ^ 5 + 5))
              ∙ omega arith;
          entry_field = omega arith;
          fis = fill_fis-HoldsCommand marked table command sector count;
          holds = λ j lt.
              HoldsEntry-same (with_entries before table entries) prepared (table + 128 + 16 * j)
                (entries j)
                (λ k in_entry.
                  past_fis (table + 128 + 16 * j + k) (inr (omega arith)) (ground arith)
                    (ground arith))
                (store_entries-HoldsEntry before table entries 8 j (omega arith) (fits j lt));
          others = λ q out_slot out_table.
              past_fis q (ground arith) (ground arith) (ground arith)
              ∙ store_entries-Outside before table entries 8 q (ground arith);
        }

-- Putting the entries in leaves the rest of the slot.
listed_slot :
    (before : Bytes) (slot table n : ℕ) (entries : ℕ → PrdtEntry)
    → ((slot + 32 ≤ table) ⊎ (table + 256 ≤ slot))
    → (q : ℕ) → slot + 4 ≤ q
    → q < slot + 32
    → listed before slot table n entries q ≡ before q
listed_slot before slot table n entries apart q above below =
    store16-Outside (store_entries before table entries 8) (slot + 2) n q (ground arith)
    ∙ store_entries-Outside before table entries 8 q (ground arith)

write_h2d_command-eq :
    (slot : ℕ) (m : Bytes) (command sector count table : ℕ)
    → get_command_table m slot ≡ ok table
    → write_h2d_command slot m 0 command sector count
      ≡ ok (fill_fis (with_fis_length m slot) table command sector count)
unfolding write_h2d_command
write_h2d_command-eq slot m command sector count table e =
    let first : slot + 0 ≡ slot = omega arith in rw (first, e, write_h2d_command) refl

module _ {S : Type 0} (bus : Bus S) (physical : ℕ → ℕ) (fuel : ℕ) (d : Disk) where
  with_slot :
      (command offset size buffer : ℕ) (s s1 : Machine S)
      → find_slot bus d.capabilities s ≡ (0, s1)
      → transfer bus fuel physical d command offset size buffer s
        ≡ transfer_in bus fuel physical d 0 command offset size buffer s1
  unfolding transfer
  with_slot command offset size buffer s s1 idle =
      ap
        (λ (r : ℕ × Machine S).
          let t : Run (ℕ × Machine S) = elim (ltb 32 (r.0 % 2 ^ 32)) [
            | true ↦ ok (minus_one, r.1)
            | false ↦ transfer_in bus fuel physical d (r.0 % 2 ^ 32) command offset size buffer r.1
          ] in
          t)
        idle

  steps :
      (command offset size buffer table n : ℕ) (p : Prdt) (m : Bytes) (s : Machine S)
      → get_command_table s.memory d.command_slot_ptr ≡ ok table
      → create_prdt physical fuel buffer size ≡ ok (n, p)
      → write_h2d_command d.command_slot_ptr
          (store16 (store_entries s.memory table p.prdt_entries 8) (d.command_slot_ptr + 2) n)
          0
          command
          (offset / 512)
          ((size - p.size) / 512)
        ≡ ok m
      → transfer_in bus fuel physical d 0 command offset size buffer s ≡ (
          execute_command bus fuel 0 (record s { memory = m }) >>= λ done.
          ok (if done.0 then size - p.size else minus_one, done.1))
  unfolding transfer_in
  steps command offset size buffer table n p m s e0 e1 e2 =
      let first : d.command_slot_ptr + 0 * 32 ≡ d.command_slot_ptr = omega arith in
      rw (first, e0, e1, e2, transfer_in) refl

  -- When the first slot is free, its table lies below 512 GiB and apart from the slot, and the
  -- pages of an even buffer follow one another, SATA::read and SATA::write prepare the command
  -- with the entries of createPrdt, with the sector of the offset and as many sectors as the
  -- entries describe, and execute it. They return the bytes that the entries describe when it
  -- succeeds, and -1 otherwise.
  pub transfer-IsPrepared :
      (command offset size buffer : ℕ) (s s1 : Machine S)
      → let slot = d.command_slot_ptr in
        let table = table_of s1.memory slot in
        find_slot bus d.capabilities s ≡ (0, s1)
        → table_base s1.memory slot < gi 512
        → ((slot + 32 ≤ table) ⊎ (table + 256 ≤ slot))
        → Contiguous physical buffer size
        → 0 < size
        → buffer % 2 ≡ 0
        → size % 2 ≡ 0
        → size < fuel
        → (n : ℕ) × (p : Prdt) × (m : Bytes) × IsCovered physical buffer size n p
          × IsPrepared s1.memory m slot table n p.prdt_entries command
              (offset / 512 % 2 ^ 48)
              ((size - p.size) / 512 % 2 ^ 16)
          × (transfer bus fuel physical d command offset size buffer s ≡ (
              execute_command bus fuel 0 (record s1 { memory = m }) >>= λ done.
              ok (if done.0 then size - p.size else minus_one, done.1)))
  transfer-IsPrepared command offset size buffer s s1 idle low apart contiguous h a z f =
      let slot = d.command_slot_ptr in
      let table = table_of s1.memory slot in
      let (n, p, e, c) = create_prdt-IsCovered physical buffer size contiguous fuel h a z f in
      let m' = listed s1.memory slot table n p.prdt_entries in
      let m =
        prepared s1.memory slot table n p.prdt_entries command (offset / 512)
          ((size - p.size) / 512) in
      let kept = table_base_same s1.memory m' slot (λ k lt.
        listed_slot s1.memory slot table n p.prdt_entries apart (slot + 8 + k) (omega arith)
          (omega arith)) in
      let found : get_command_table m' slot ≡ ok table =
        get_table m' slot (subst (λ (b : ℕ). b < gi 512) (sym kept) low)
        ∙ ap (λ (b : ℕ). ok (b + ti 32 + ti 64)) kept in
      (
        n,
        p,
        m,
        c,
        prepared-IsPrepared s1.memory slot table n p.prdt_entries command (offset / 512)
            ((size - p.size) / 512) c.small (λ j lt. (c.starts j lt).1) apart,
        with_slot command offset size buffer s s1 idle
            ∙ steps command offset size buffer table n p m s1 (get_table s1.memory slot low) e (
                write_h2d_command-eq slot m' command (offset / 512) ((size - p.size) / 512) table
                  found),
      )
