-- ===== src/Storage/Sata/Command.antt =====
-- The commands of src/Storage/SATA.cpp in memory: command slots, command tables with the regions of
-- memory that a disk is to use, and the FIS that carries a command. `physical` is
-- PageTable::getPhysicalAddress while the command is built.
pub mod Rounds
pub mod Regions
pub mod Gaps
use crack_os.Base.{ℕ, zero, suc, ◌+◌, ◌-◌, ◌*◌, ◌/◌, ◌%◌, ◌^◌, Bool, true, false}
use crack_os.Base.{ltb, leb, ◌==◌, if◌then◌else◌, update, Run, ok, stopped, out_of_fuel, ◌>>=◌}
use crack_os.Memory.{page_size, gi, ti}
use crack_os.Language.Bytes.{Bytes}

-- PrdtEntry; the other fields are reserved.
pub record PrdtEntry : Type 0 where
  pub data_base_address_low : ℕ
  pub data_base_address_high : ℕ
  pub data_byte_count : ℕ
  pub interrupt_enable : Bool

abbrev pub no_entry : PrdtEntry
no_entry = record {
  data_base_address_low = 0;
  data_base_address_high = 0;
  data_byte_count = 0;
  interrupt_enable = false;
}

-- `((pageSize / 0x10) - 64 - 16 - 48) / sizeof(PrdtEntry)`
abbrev pub prdt_entry_count : ℕ
prdt_entry_count = 8

abbrev pub min : ℕ → ℕ → ℕ
min a b = if ltb a b then a else b

-- The variables of createPrdt: prdtEntries, currentEntryIndex, lastPhysicalAddress, address and
-- size.
pub record Prdt : Type 0 where
  pub prdt_entries : ℕ → PrdtEntry
  pub current_entry_index : ℕ
  pub last_physical_address : ℕ
  pub address : ℕ
  pub size : ℕ

-- `entrySize` of a round.
pub entry_size : ℕ → ℕ → ℕ
entry_size address size = min (min size page_size) (page_size - address % page_size)

-- A round's last part: it starts the current entry, when that is empty, and goes on.
pub fill_entry : ℕ → Prdt → Prdt
fill_entry at p =
    let size = entry_size p.address p.size in
    let entry = p.prdt_entries p.current_entry_index in
    let started = record entry {
      data_base_address_low = at % 2 ^ 32;
      data_base_address_high = at / 2 ^ 32 % 2 ^ 32;
      data_byte_count = (size + 2 ^ 32 - 1) % 2 ^ 32 % 2 ^ 22;
      interrupt_enable = false;
    } in
    record p {
      prdt_entries =
          if entry.data_byte_count == 0
          then update p.prdt_entries p.current_entry_index started
          else p.prdt_entries;
      last_physical_address = at;
      address = p.address + size;
      size = p.size - size;
    }

-- A round's first part, with its index after it: a full entry is left, and an entry grows when the
-- page follows the last one.
pub extend_entry : ℕ → Prdt → Prdt
extend_entry at p =
    let size = entry_size p.address p.size in
    let entry = p.prdt_entries p.current_entry_index in
    let count = entry.data_byte_count in
    if count == 0
    then p
    else if leb (2 ^ 22 - 1) (count + size)
    then record p { current_entry_index = p.current_entry_index + 1 }
    else if p.last_physical_address / page_size * page_size + page_size == at
    then record p {
      prdt_entries =
          update p.prdt_entries p.current_entry_index
            (record entry { data_byte_count = (count + size) % 2 ^ 22 });
    }
    else p

-- The loop of createPrdt. Its result is the number of entries, with the entries and what is left of
-- the size.
pub prdt_loop : (ℕ → ℕ) → ℕ → Prdt → Run (ℕ × Prdt)
prdt_loop physical zero p = out_of_fuel
prdt_loop physical (suc fuel) p = elim (p.size == 0) [
  | true ↦ ok (p.current_entry_index + 1, p)
  | false ↦
      let q = extend_entry (physical p.address) p in
      elim (leb prdt_entry_count q.current_entry_index) [
        | true ↦ ok (q.current_entry_index, q)
        | false ↦ prdt_loop physical fuel (fill_entry (physical p.address) q)
      ]
]

-- CommandTable::createPrdt
pub create_prdt : (ℕ → ℕ) → ℕ → ℕ → ℕ → Run (ℕ × Prdt)
create_prdt physical fuel address size = prdt_loop physical fuel (record {
  prdt_entries = λ i. no_entry;
  current_entry_index = 0;
  last_physical_address = 0;
  address = address;
  size = size;
})
