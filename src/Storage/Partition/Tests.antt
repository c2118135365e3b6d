-- ===== src/Storage/Partition/Tests.antt =====
-- A boot sector with a Linux and a FAT partition, and a device that returns the offset it was read at.
use crack_os.Base.{ℕ, zero, suc, ◌≡◌, refl, arith, Bool, true, false, List, [], ◌∷◌, length}
use crack_os.Storage.Partition.{Device, MbrPartition, get_partition}
use crack_os.Storage.Partition.Table.{
  RawEntry, AreRaw, sector_of, described_at, entry_at, get_partition-table_bytes,
}

abbrev raw : Bool → ℕ → ℕ → ℕ → RawEntry
raw active type first count = record {
  active = active;
  type = type;
  first_sector = first;
  sector_count = count;
  cylinders = (32, 33, 0, 254, 255, 255);
}

abbrev entries : List RawEntry
entries =
    raw true 0x83 2048 409600 ∷ raw false 0 0 0 ∷ raw false 0x0C 411648 65536 ∷ raw false 0 0 0 ∷ []

code : ℕ → List ℕ
code zero = []
code (suc n) = 0x90 ∷ code n

length-code : (n : ℕ) → length (code n) ≡ n
unfolding code
length-code zero = refl
length-code (suc n) = omega (arith, length-code n)

entries-AreRaw : AreRaw entries
entries-AreRaw = ground arith

get_partition-table_bytes_example :
    get_partition (sector_of (code 446) entries) 2 ≡ described_at (entry_at entries 2)
get_partition-table_bytes_example =
    get_partition-table_bytes (code 446) entries 2 (length-code 446) refl entries-AreRaw
      (omega arith)

abbrev echo : Device ℕ
echo = record {
  read_device = λ offset size buffer s. (size, offset ∷ [], s);
  write_device = λ offset size buffer s. (size, offset);
}

abbrev linux : MbrPartition
linux = record { size = 209715200; offset = 1048576; bootable = true; type = 0x83 }
