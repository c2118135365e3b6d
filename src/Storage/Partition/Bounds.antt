-- ===== src/Storage/Partition/Bounds.antt =====
-- The bounds of a partition in src/Storage/Partition.cpp.
use crack_os.Base.{ℕ, ◌+◌, ◌^◌, ◌<◌, ◌≤◌, ◌≡◌, refl, arith, false, some, List}
use crack_os.Base.{add64, sub64, ltb}
use crack_os.Storage.Partition.{Device, MbrPartition, read_partition, write_partition}

module _ {S : Type 0} (d : Device S) (p : MbrPartition) (buffer : List ℕ) (s : S) where
  -- A request inside the partition is the device's at the sum of the offsets, and so inside the
  -- device's part that the partition occupies.
  pub read_partition-read_device :
      (offset size : ℕ)
      → offset + size ≤ p.size
      → p.offset + p.size < 2 ^ 64
      → (read_partition (some d) p offset size buffer s
          ≡ d.read_device (p.offset + offset) size buffer s)
        × (write_partition (some d) p offset size buffer s
            ≡ d.write_device (p.offset + offset) size buffer s)
        × (p.offset + offset + size ≤ p.offset + p.size)
  unfolding read_partition write_partition
  read_partition-read_device offset size inside small =
      let sum : add64 p.offset offset ≡ p.offset + offset = omega arith in
      let fits : ltb p.size size ≡ false = ground arith in rw (fits, sum) (refl, refl, omega arith)

  -- The offset is not checked: through a partition that is at least as large as the request, some
  -- offset reads and writes every place of the device, also outside of the partition.
  pub read_partition_anywhere :
      (at size : ℕ)
      → size ≤ p.size
      → p.offset < 2 ^ 64
      → at < 2 ^ 64
      → (read_partition (some d) p (sub64 at p.offset) size buffer s
          ≡ d.read_device at size buffer s)
        × (write_partition (some d) p (sub64 at p.offset) size buffer s
            ≡ d.write_device at size buffer s)
  unfolding read_partition write_partition
  read_partition_anywhere at size fits small inside =
      let sum : add64 p.offset (sub64 at p.offset) ≡ at = omega arith in
      let enough : ltb p.size size ≡ false = ground arith in rw (enough, sum) (refl, refl)
