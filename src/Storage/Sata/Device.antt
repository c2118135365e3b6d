-- ===== src/Storage/Sata/Device.antt =====
-- struct SATA of src/Storage/SATA.cpp: the slots and tables in memory, the transfer of whole
-- sectors, and the identify command. `physical` is PageTable::getPhysicalAddress, which stays the
-- same during a call, and `fuel` bounds the rounds of every loop.
pub mod Memory
pub mod Issue
use Prim.Native.Nat.{bit_or}
use crack_os.Base.{ℕ, zero, suc, ◌+◌, ◌-◌, ◌*◌, ◌/◌, ◌%◌, ◌^◌, Bool, true, false, not}
use crack_os.Base.{
  ltb, leb, ◌==◌, if◌then◌else◌, ◌&&◌, update, Run, ok, stopped, out_of_fuel, ◌>>=◌,
}
use crack_os.Memory.{gi, ti}
use crack_os.Language.Bytes.{Bytes, memset}
use crack_os.Storage.Sata.{Machine}
use crack_os.Storage.Sata.Command.{PrdtEntry, Prdt, create_prdt}
use crack_os.Storage.Sata.Port.{Bus, command_issue, find_slot, wait_for_task, wait_for_finish}
use crack_os.Storage.Sata.Transfer.{Request, minus_one, read_with, write_with}

pub store16 : Bytes → ℕ → ℕ → Bytes
store16 m p v = update (update m p (v % 2 ^ 8)) (p + 1) (v / 2 ^ 8 % 2 ^ 8)

pub store32 : Bytes → ℕ → ℕ → Bytes
store32 m p v =
    update
      (update (update (update m p (v % 2 ^ 8)) (p + 1) (v / 2 ^ 8 % 2 ^ 8)) (p + 2)
        (v / 2 ^ 16 % 2 ^ 8))
      (p + 3) (v / 2 ^ 24 % 2 ^ 8)

unfoldable pub load32 : Bytes → ℕ → ℕ
load32 m p = m p + m (p + 1) * 2 ^ 8 + m (p + 2) * 2 ^ 16 + m (p + 3) * 2 ^ 24

-- TempMemory::mapPages, for the kernel.
pub map_pages : ℕ → Run ℕ
map_pages physical = if ltb physical (gi 512) then ok (physical + ti 32 + ti 64) else stopped

-- CommandSlot::getCommandTable, with commandTableBaseLow and commandTableBaseHigh.
pub get_command_table : Bytes → ℕ → Run ℕ
get_command_table m slot = map_pages (load32 m (slot + 8) + load32 m (slot + 12) * 2 ^ 32)

-- `commandFISLength = sizeof(FisH2D) / sizeof(uint32_t)`, in the low bits of a slot's first byte.
abbrev pub with_fis_length : Bytes → ℕ → Bytes
with_fis_length m slot = update m slot (m slot / 2 ^ 5 * 2 ^ 5 + 5)

-- `fis->isCommand = true`
abbrev pub with_command_bit : Bytes → ℕ → Bytes
with_command_bit m fis = update m (fis + 1) (m (fis + 1) % 2 ^ 7 + 2 ^ 7)

-- The fields of a FisH2D that writeH2DCommand sets.
pub fill_fis : Bytes → ℕ → ℕ → ℕ → ℕ → Bytes
fill_fis m fis command sector_index sector_count =
    let m1 = update (update (update m fis 0x27) (fis + 7) (2 ^ 6)) (fis + 2) command in
    let m2 = with_command_bit m1 fis in
    let m3 = update m2 (fis + 4) (sector_index % 2 ^ 8) in
    let m4 = update m3 (fis + 5) (sector_index / 2 ^ 8 % 2 ^ 8) in
    let m5 = update m4 (fis + 6) (sector_index / 2 ^ 16 % 2 ^ 8) in
    let m6 = update m5 (fis + 8) (sector_index / 2 ^ 24 % 2 ^ 8) in
    let m7 = update m6 (fis + 9) (sector_index / 2 ^ 32 % 2 ^ 8) in
    let m8 = update m7 (fis + 10) (sector_index / 2 ^ 40 % 2 ^ 8) in
    let m9 = update m8 (fis + 12) (sector_count % 2 ^ 8) in
    update m9 (fis + 13) (sector_count / 2 ^ 8 % 2 ^ 8)

-- SATA::writeH2DCommand, which takes the slot at `commandSlotPtr + slotID`.
pub write_h2d_command : ℕ → Bytes → ℕ → ℕ → ℕ → ℕ → Run Bytes
write_h2d_command command_slot_ptr m slot_id command sector_index sector_count = do
  let slot = command_slot_ptr + slot_id
  table ← get_command_table m slot
  ok (fill_fis (with_fis_length m slot) table command sector_index sector_count)

-- A PrdtEntry in memory.
pub store_entry : Bytes → ℕ → PrdtEntry → Bytes
store_entry m p e =
    let m1 = store32 (store32 m p e.data_base_address_low) (p + 4) e.data_base_address_high in
    store32 (store32 m1 (p + 8) 0) (p + 12)
      (e.data_byte_count % 2 ^ 22 + (if e.interrupt_enable then 2 ^ 31 else 0))

-- The entries of a command table behind `commandFIS`, `atapiCommand` and `rsv`.
pub store_entries : Bytes → ℕ → (ℕ → PrdtEntry) → ℕ → Bytes
store_entries m table entries zero = m
store_entries m table entries (suc n) =
    store_entry (store_entries m table entries n) (table + 128 + 16 * n) (entries n)

-- SATA::Type
pub data SataType : Type 0 where
  sata satapi semb pm unknown : SataType

-- The fields of struct SATA, with the capabilities of its controller.
pub record Disk : Type 0 where
  pub capabilities : ℕ
  pub command_slot_ptr : ℕ
  pub sector_count : ℕ
  pub has_lba48 : Bool
  pub disk_type : SataType

-- SATA::getSize
pub sata_size : Disk → ℕ
sata_size d = d.sector_count * 512 % 2 ^ 64

module _ {S : Type 0} (bus : Bus S) (fuel : ℕ) where
  -- `port->commandIssue |= 0b1 << slotID`, between the two loops that wait.
  pub execute_command : ℕ → Machine S → Run (Bool × Machine S)
  execute_command slot_id s = do
    ready ← wait_for_finish bus fuel s
    elim ready.0 [
      | false ↦ ok (false, ready.1)
      | true ↦
          let (issue, s1) = bus.load command_issue ready.1 in
          wait_for_task bus fuel slot_id
            (bus.store command_issue (bit_or issue (2 ^ slot_id % 2 ^ 32)) s1)
    ]

  module _ (physical : ℕ → ℕ) (d : Disk) where
    -- The parts of SATA::read and SATA::write for an aligned request, which differ in the command:
    -- what they do with a slot, and the search for it.
    pub transfer_in : ℕ → ℕ → Request S
    transfer_in slot_id command offset size buffer s =
        let slot = d.command_slot_ptr + slot_id * 32 in
        do
          table ← get_command_table s.memory slot
          prdt ← create_prdt physical fuel buffer size
          let m = store_entries s.memory table prdt.1.prdt_entries 8
          let used = size - prdt.1.size
          m' ←
              write_h2d_command d.command_slot_ptr (store16 m (slot + 2) prdt.0) slot_id command
                (offset / 512) (used / 512)
          done ← execute_command slot_id (record s { memory = m' })
          ok (if done.0 then used else minus_one, done.1)

    pub transfer : ℕ → Request S
    transfer command offset size buffer s =
        let (found, s1) = find_slot bus d.capabilities s in
        let slot_id = found % 2 ^ 32 in
        elim (ltb 32 slot_id) [
          | true ↦ ok (minus_one, s1)
          | false ↦ transfer_in slot_id command offset size buffer s1
        ]

    module _ (frame heap : ℕ → ℕ) where
      -- SATA::read and SATA::write
      pub sata_read : Request S
      sata_read = read_with (transfer 0x20) frame heap fuel

      pub sata_write : Request S
      sata_write = write_with (transfer 0x20) (transfer 0x35) frame heap fuel
