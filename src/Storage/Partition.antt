-- ===== src/Storage/Partition.antt =====
-- header/Storage/Partition.hpp and src/Storage/Partition.cpp: the partitions of a device, and the
-- partition table in its master boot record. `S` is the state of the devices. A buffer is passed as
-- its bytes, and a read returns what it then holds.
pub mod Bounds
pub mod Table
mod Tests
use crack_os.Base.{
  ℕ, zero, suc, ◌+◌, ◌*◌, ◌-◌, ◌^◌, Bool, true, false, ◌&&◌, ◌||◌, not, Option, none, some, List,
  [], ◌∷◌,
}
use crack_os.Base.{ltb, leb, ◌==◌, if◌then◌else◌, add64, get_or}

-- What a partition uses of class Storage (header/Storage/Storage.hpp).
pub record Device (S : Type 0) : Type 0 where
  pub read_device : ℕ → ℕ → List ℕ → S → ℕ × List ℕ × S
  pub write_device : ℕ → ℕ → List ℕ → S → ℕ × S

-- MBRPartition with the fields of OffsetImplementationPartition.
pub record MbrPartition : Type 0 where
  pub size : ℕ
  pub offset : ℕ
  pub bootable : Bool
  pub type : ℕ

abbrev failed : ℕ
failed = 2 ^ 64 - 1

-- A byte of a buffer, and the uint32_t at a position, as x86 stores it.
abbrev pub byte_at : List ℕ → ℕ → ℕ
byte_at bytes i = get_or bytes i 0

abbrev pub word_at : List ℕ → ℕ → ℕ
word_at bytes i =
    byte_at bytes i
    + byte_at bytes (i + 1) * 2 ^ 8
    + byte_at bytes (i + 2) * 2 ^ 16
    + byte_at bytes (i + 3) * 2 ^ 24

-- `uint8_t bootSector[n]{}`
pub zero_bytes : ℕ → List ℕ
zero_bytes zero = []
zero_bytes (suc n) = 0 ∷ zero_bytes n

-- MBRPartitionTable::getPartition, on the boot sector that the table keeps.
pub get_partition : List ℕ → ℕ → Option MbrPartition
get_partition boot_sector index =
    let entry = 446 + index * 16 in
    let type = byte_at boot_sector (entry + 4) in
    let offset = word_at boot_sector (entry + 8) * 512 in
    let size = word_at boot_sector (entry + 12) * 512 in
    if leb 4 index
    then none
    else if type == 0 || size == 0
    then none
    else some (record {
      size = size;
      offset = offset;
      bootable = byte_at boot_sector entry == 0x80;
      type = type;
    })

-- The condition of the loop body of getPartitionCount, where `alive` says that the storage still
-- exists.
pub is_counted : Bool → List ℕ → ℕ → Bool
is_counted alive boot_sector i =
    alive && elim (get_partition boot_sector i) [ none ↦ false | some part ↦ ltb 0 part.size ]

-- The loop of getPartitionCount, with `left` of its four rounds to come.
pub count_loop : Bool → List ℕ → ℕ → ℕ → ℕ
count_loop alive boot_sector zero i = 0
count_loop alive boot_sector (suc left) i =
    (if is_counted alive boot_sector i then 1 else 0) + count_loop alive boot_sector left (i + 1)

-- MBRPartitionTable::getPartitionCount
pub get_partition_count : Bool → List ℕ → ℕ
get_partition_count alive boot_sector = count_loop alive boot_sector 4 0

-- The loop of isUsableTableType: no partition has the type of a GUID partition table.
pub no_guid : List ℕ → ℕ → ℕ → Bool
no_guid boot_sector zero i = true
no_guid boot_sector (suc left) i =
    let more = no_guid boot_sector left (i + 1) in
    if byte_at boot_sector (446 + i * 16 + 4) == 0xEE then false else more

-- MBRPartition::createFilesystem: whether it makes an Ext4 file system.
pub creates_ext4 : MbrPartition → Bool
creates_ext4 p = p.type == 0x83

module _ {S : Type 0} where
  -- OffsetImplementationPartition::read and write. The storage is `none` when it was destroyed.
  pub read_partition : Option (Device S) → MbrPartition → ℕ → ℕ → List ℕ → S → ℕ × List ℕ × S
  read_partition storage p offset size buffer s =
      if ltb p.size size then (failed, buffer, s) else elim storage [
        | none ↦ (failed, buffer, s)
        | some d ↦ d.read_device (add64 p.offset offset) size buffer s
      ]

  pub write_partition : Option (Device S) → MbrPartition → ℕ → ℕ → List ℕ → S → ℕ × S
  write_partition storage p offset size buffer s =
      if ltb p.size size then (failed, s) else elim storage [
        | none ↦ (failed, s)
        | some d ↦ d.write_device (add64 p.offset offset) size buffer s
      ]

  -- MBRPartitionTable::MBRPartitionTable: the boot sector that it keeps.
  pub new_table : Option (Device S) → S → List ℕ × S
  new_table none s = (zero_bytes 512, s)
  new_table (some d) s =
      let (n, sector, s') = d.read_device 0 512 (zero_bytes 512) s in (sector, s')

  -- MBRPartitionTable::isUsableTableType
  pub is_usable_table_type : Device S → S → Bool × S
  is_usable_table_type d s =
      let (n, sector, s') = d.read_device 0 512 (zero_bytes 512) s in
      (
        (if not (n == 512)
            then false
            else if not (byte_at sector 510 == 0x55) || not (byte_at sector 511 == 0xAA)
            then false
            else no_guid sector 4 0),
        s',
      )
