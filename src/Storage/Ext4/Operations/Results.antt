-- ===== src/Storage/Ext4/Operations/Results.antt =====
-- What the operations of Ext4 in src/Storage/Ext4.cpp answer.
use crack_os.Base.{ℕ, ◌/◌, ◌%◌, ◌^◌, ◌≡◌, ◌≢◌, refl, arith, true, false, List}
use crack_os.Base.{◌==◌, ok}
use crack_os.Language.Bytes.{Bytes}
use crack_os.Storage.Filesystem.{file, directory}
use crack_os.Storage.Ext4.{Source, Ext4, half, get_inode}
use crack_os.Storage.Ext4.Paths.{not_found, get_inode_number}
use crack_os.Storage.Ext4.Operations.{file_type_of, ext4_get_size, ext4_exists, ext4_get_type}

module _ {S : Type 0} (disk : Source S) (fs : Ext4) (old : Bytes) (address fuel : ℕ) (path : List ℕ)
    (s t : S) (valid : fs.valid ≡ true) where
  -- A path that leads to nothing exists, and its size is -1, when the file system is valid and the
  -- search ends.
  pub ext4_exists-not_found :
      get_inode_number disk fs fuel old address path 2 s ≡ ok (not_found, t)
      → (ext4_exists disk fs old address fuel path s ≡ ok (true, t))
        × (ext4_get_size disk fs old address fuel path s ≡ ok (not_found, t))
  unfolding ext4_exists ext4_get_size
  ext4_exists-not_found search =
      (rw (valid, search, ext4_exists) refl, rw (valid, search, ext4_get_size) refl)

  -- A path to a regular file is reported as one to a directory, and the other way round, when the
  -- file system is valid.
  pub ext4_get_type-swapped :
      (n : ℕ)
      → n ≢ 0
      → get_inode_number disk fs fuel old address path 2 s ≡ ok (n, t)
      → let (node, u) = get_inode disk fs old n t in
        (half node 0 / 2 ^ 12 % 2 ^ 4 ≡ 8
          → ext4_get_type disk fs old address fuel path s ≡ ok (directory, u))
        × (half node 0 / 2 ^ 12 % 2 ^ 4 ≡ 4
            → ext4_get_type disk fs old address fuel path s ≡ ok (file, u))
  unfolding ext4_get_type file_type_of
  ext4_get_type-swapped n found search =
      let (node, u) = get_inode disk fs old n t in
      let some_node : (n == 0) ≡ false = ground arith in
      (
        λ regular.
            let e : (half node 0 / 2 ^ 12 % 2 ^ 4 == 8) ≡ true = ground arith in ground arith,
        λ dir.
            let e : (half node 0 / 2 ^ 12 % 2 ^ 4 == 8) ≡ false = ground arith in
            let e1 : (half node 0 / 2 ^ 12 % 2 ^ 4 == 4) ≡ true = ground arith in ground arith,
      )
