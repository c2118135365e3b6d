-- ===== src/Storage/Devices.antt =====
-- src/Storage/Storage.cpp and header/Storage/Storage.hpp: the list of devices, and what is mounted
-- when a device is added.
use crack_os.Base.{ℕ, zero, suc, ◌+◌, ◌*◌, true, Option, none, some, List, [], ◌∷◌}
use crack_os.Base.{ltb, leb, ◌==◌, if◌then◌else◌, update, Run, ok, fault, ◌>>=◌}
use crack_os.Memory.{gi, ti}
use crack_os.Language.Bytes.{Bytes}
use crack_os.Language.Digits.{int_to_string}
use crack_os.Storage.Filesystem.{Filesystem, add_partition}
use crack_os.Storage.Partition.{
  Device, MbrPartition, get_partition, get_partition_count, creates_ext4, new_table,
  is_usable_table_type,
}

-- A Storage: its operations, its size, and the boot sector of its partition table.
pub record Storage (S : Type 0) : Type 0 where
  pub device : Device S
  pub device_size : ℕ
  pub partition_table : Option (List ℕ)

-- firstStorage with the chain of `next`, storageCount, and the mounted file systems.
pub record StorageList (S : Type 0) : Type 0 where
  pub storages : List (Storage S)
  pub storage_count : ℕ
  pub nodes : List (Filesystem S)

-- The string at an address, of at most `left` characters.
pub text_at : ℕ → Bytes → ℕ → List ℕ
text_at zero m p = []
text_at (suc left) m p = let more = m p ∷ text_at left m (p + 1) in if m p == 0 then [] else more

-- The prefix of the i-th partition, in a buffer of 256 bytes at the address 1.
pub partition_prefix : ℕ → Run (List ℕ)
partition_prefix i =
    let named : Bytes = update (update (update (λ a. 0) 1 b'/') 2 b'f') 3 b's' in
    int_to_string (i + 2) named i 4 10 >>= λ m. ok (text_at 256 m 1)

-- The unit in which a size is printed, and its bytes.
pub size_unit : ℕ → List ℕ × ℕ
size_unit size =
    if leb (ti 1) size
    then (b'T' ∷ b'i' ∷ b'B' ∷ [], ti 1)
    else if leb (gi 1) size
    then (b'G' ∷ b'i' ∷ b'B' ∷ [], gi 1)
    else if leb (1024 * 1024) size
    then (b'M' ∷ b'i' ∷ b'B' ∷ [], 1024 * 1024)
    else if leb 1024 size
    then (b'K' ∷ b'i' ∷ b'B' ∷ [], 1024)
    else (b'B' ∷ [], 1)

-- `ext4` is the constructor of Ext4, which reads the partition.
module _ {S : Type 0} (ext4 : MbrPartition → Device S → S → Filesystem S × S) where
  -- createFilesystem of src/Storage/Filesystem.cpp, with that of MBRPartition.
  pub create_filesystem : Option MbrPartition → Device S → S → Option (Filesystem S) × S
  create_filesystem none d s = (none, s)
  create_filesystem (some p) d s =
      let (made, s') = ext4 p d s in if creates_ext4 p then (some made, s') else (none, s)

  -- The loop of addStorage over the partitions from `i` on.
  pub mount_loop :
      ℕ → Device S → List ℕ → ℕ → List (Filesystem S) → S → Run (List (Filesystem S) × S)
  mount_loop zero d sector i nodes s = ok (nodes, s)
  mount_loop (suc left) d sector i nodes s = do
    prefix ← partition_prefix i
    let r = create_filesystem (get_partition sector i) d s
    mount_loop left d sector (i + 1) (add_partition nodes r.0 prefix) r.1

  -- The partition table that addStorage gives a device. Without a usable one it calls setSelf
  -- through a null pointer.
  pub find_table : Device S → ℕ → S → Run (Option (List ℕ) × S)
  find_table d size s =
      let (usable, s1) = is_usable_table_type d s in
      let (sector, s2) = new_table (some d) s1 in
      if ltb 0 size then (if usable then ok (some sector, s2) else fault) else ok (none, s)

  -- Storage::addStorage, without what it prints.
  pub add_storage : StorageList S → Device S → ℕ → S → Run (StorageList S × S)
  add_storage l d size s = find_table d size s >>= λ t.
      let count : ℕ = elim t.0 [ none ↦ 0 | some sector ↦ get_partition_count true sector ] in
      let sector : List ℕ = elim t.0 [ none ↦ [] | some sector ↦ sector ] in
      mount_loop count d sector 0 l.nodes t.1 >>= λ r. ok (
        record {
          storages = record { device = d; device_size = size; partition_table = t.0 } ∷ l.storages;
          storage_count = l.storage_count + 1;
          nodes = r.0;
        },
        r.1,
      )
