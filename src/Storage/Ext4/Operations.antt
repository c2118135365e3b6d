-- ===== src/Storage/Ext4/Operations.antt =====
-- The constructor of Ext4 and its virtual functions in src/Storage/Ext4.cpp. `old` is what an INode
-- on the stack holds before it is filled, `address` is where the path of a call lies, and `fuel`
-- bounds the loops and the depth of the recursions.
pub mod Results
use crack_os.Base.{
  ℕ, zero, suc, ◌+◌, ◌-◌, ◌*◌, ◌/◌, ◌%◌, ◌^◌, Bool, true, false, not, ◌||◌, ◌&&◌, List, [], ◌∷◌,
}
use crack_os.Base.{ltb, leb, ◌==◌, if◌then◌else◌, Run, ok, stopped, ◌>>=◌}
use crack_os.Language.Bytes.{Bytes, sign_extend}
use crack_os.Storage.Filesystem.{Filesystem, FileType, file, directory, other, no_file}
use crack_os.Storage.Ext4.{
  Source, Ext4, IoOperation, half, full, get_file_size, get_inode, travel_file, read_extent,
}
use crack_os.Storage.Ext4.Paths.{not_found, get_inode_number}

-- The switch of implGetType.
pub file_type_of : ℕ → FileType
file_type_of mode =
    if mode / 2 ^ 12 % 2 ^ 4 == 8
    then directory
    else if mode / 2 ^ 12 % 2 ^ 4 == 4
    then file
    else other

-- What Ext4::Ext4 reads from the superblock.
pub superblock_fields : Bytes → Bool → Ext4
superblock_fields b valid = record {
  valid = valid;
  block_size = sign_extend (2 ^ (10 + full b 0x18) % 2 ^ 32);
  inodes_per_group = full b 0x28;
  inode_size = half b 0x58;
  desc_size = half b 0xFE;
}

module _ {S : Type 0} (disk : Source S) where
  -- Ext4::Ext4
  pub new_ext4 : S → Ext4 × S
  new_ext4 s =
      let (superblock, count, s1) = disk.read_own 1024 1024 s in
      (superblock_fields superblock (count == 1024 && half superblock 0x38 == 0xEF53), s1)

  module _ (fs : Ext4) (old : Bytes) (address fuel : ℕ) where
    -- Ext4::implRead
    pub ext4_read : List ℕ → ℕ → ℕ → ℕ → S → Run (ℕ × S)
    ext4_read path offset size buffer s =
        let io : IoOperation = record {
          offset = offset;
          size = size;
          buffer = buffer;
          result = 0;
        } in
        elim fs.valid [
          | false ↦ ok (not_found, s)
          | true ↦ do
            n ← get_inode_number disk fs fuel old address path 2 s
            elim (n.0 == 0) [
              | true ↦ ok (not_found, n.1)
              | false ↦ do
                r ← travel_file disk fs (read_extent disk fs) fuel old n.0 io n.1
                ok (r.0.result, r.1)
            ]
        ]

    -- Ext4::implGetSize
    pub ext4_get_size : List ℕ → S → Run (ℕ × S)
    ext4_get_size path s = elim fs.valid [
      | false ↦ ok (not_found, s)
      | true ↦ do
        n ← get_inode_number disk fs fuel old address path 2 s
        let (node, s1) = get_inode disk fs old n.0 n.1
        ok (if leb (2 ^ 63) n.0 then (not_found, n.1) else (get_file_size node, s1))
    ]

    -- Ext4::implExists
    pub ext4_exists : List ℕ → S → Run (Bool × S)
    ext4_exists path s = elim fs.valid [
      | false ↦ ok (false, s)
      | true ↦ do n ← get_inode_number disk fs fuel old address path 2 s; ok (not (n.0 == 0), n.1)
    ]

    -- Ext4::implGetType
    pub ext4_get_type : List ℕ → S → Run (FileType × S)
    ext4_get_type path s = elim fs.valid [
      | false ↦ ok (other, s)
      | true ↦ do
        n ← get_inode_number disk fs fuel old address path 2 s
        let (node, s1) = get_inode disk fs old n.0 n.1
        ok (if n.0 == 0 then (no_file, n.1) else (file_type_of (half node 0), s1))
    ]

    -- The functions that are not implemented.
    pub not_implemented : S → Run (ℕ × S)
    not_implemented s = if fs.valid then stopped else ok (not_found, s)

    -- The object as a Filesystem, before it is mounted.
    pub ext4_filesystem : Filesystem S
    ext4_filesystem = record {
      handling_prefix = [];
      prefix_length = 0;
      impl_read = ext4_read;
      impl_write = λ path offset size buffer. not_implemented;
      impl_get_size = ext4_get_size;
      impl_exists = ext4_exists;
      impl_create_file = λ path. not_implemented;
      impl_delete_file = λ path. not_implemented;
      impl_create_directory = λ path. not_implemented;
      impl_delete_directory = λ path. not_implemented;
      impl_get_file_list = λ path buffer size. not_implemented;
      impl_get_type = ext4_get_type;
      impl_rename = λ old_path new_path. not_implemented;
      impl_get_file_time = λ path. not_implemented;
      impl_set_file_time = λ path time. not_implemented;
      impl_get_file_permissions = λ path. not_implemented;
      impl_set_file_permissions = λ path permissions. not_implemented;
      impl_get_file_owner = λ path. not_implemented;
      impl_set_file_owner = λ path owner. not_implemented;
    }
