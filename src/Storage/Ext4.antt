-- ===== src/Storage/Ext4.antt =====
-- src/Storage/Ext4.cpp and header/Storage/Ext4.hpp: an Ext4 file system, which is read only. `S` is
-- the state of the disk and of all memory but the buffers that the functions make themselves: such a
-- buffer is a function from its indices to its bytes. A path is its characters without the final
-- '\0', with its address. Text that is printed is left out. An int64_t is its bit pattern.
pub mod Paths
pub mod Operations
pub mod Extents
mod Tests
use crack_os.Base.{
  ℕ, zero, suc, ◌+◌, ◌-◌, ◌*◌, ◌/◌, ◌%◌, ◌^◌, Bool, true, false, not, ◌||◌, ◌&&◌, List, [], ◌∷◌,
}
use crack_os.Base.{
  ltb, leb, ◌==◌, if◌then◌else◌, add64, sub64, mul64, get_or, Run, ok, stopped, out_of_fuel, ◌>>=◌,
}
use crack_os.Language.Bytes.{Bytes, sign_extend}
use crack_os.Storage.Filesystem.{Filesystem, FileType, file, directory, other, no_file}

-- `partition->read`: into a buffer of the caller's own, whose bytes it then returns, and to an
-- address.
pub record Source (S : Type 0) : Type 0 where
  pub read_own : ℕ → ℕ → S → Bytes × ℕ × S
  pub read_to : ℕ → ℕ → ℕ → S → ℕ × S

abbrev pub half : Bytes → ℕ → ℕ
half b i = b i + b (i + 1) * 2 ^ 8

abbrev pub full : Bytes → ℕ → ℕ
full b i = b i + b (i + 1) * 2 ^ 8 + b (i + 2) * 2 ^ 16 + b (i + 3) * 2 ^ 24

-- Ext4, with the fields of its Superblock that are used.
pub record Ext4 : Type 0 where
  pub valid : Bool
  pub block_size : ℕ
  pub inodes_per_group : ℕ
  pub inode_size : ℕ
  pub desc_size : ℕ

abbrev pub below_one : ℕ → Bool
below_one n = n == 0 || leb (2 ^ 63) n

-- INode::getFileSize
abbrev pub get_file_size : Bytes → ℕ
get_file_size inode = full inode 0x4 + full inode 0x6C * 2 ^ 32

-- ExtentLeaf and ExtentIndex in a node of the tree.
pub record ExtentLeaf : Type 0 where
  pub block_in_file : ℕ
  pub block_count : ℕ
  pub start : ℕ

abbrev pub leaf_at : Bytes → ℕ → ExtentLeaf
leaf_at b i = record {
  block_in_file = full b i;
  block_count = half b (i + 4);
  start = full b (i + 8) + half b (i + 6) * 2 ^ 32;
}

-- IOOperationData
pub record IoOperation : Type 0 where
  pub offset : ℕ
  pub size : ℕ
  pub buffer : ℕ
  pub result : ℕ

-- The union Context of getINodeNumber.
pub data Context : Type 0 where
  filepath : ℕ → List ℕ → Context
  result_of : ℕ → Context

-- `max` and `min` of header/Common/Math.hpp
abbrev pub larger : ℕ → ℕ → ℕ
larger a b = if ltb b a then a else b

abbrev pub smaller : ℕ → ℕ → ℕ
smaller a b = if ltb a b then a else b

-- The loop that compares a name of `left` characters at `i` with a path from its character `j` on.
pub is_prefix : Bytes → ℕ → List ℕ → ℕ → ℕ → Bool
is_prefix b i path j zero = true
is_prefix b i path j (suc left) =
    let more = is_prefix b i path (j + 1) left in
    if b (i + j) == get_or path j 0 then more else false

-- `filename + n`
pub drop_path : ℕ → List ℕ → List ℕ
drop_path zero path = path
drop_path (suc n) [] = []
drop_path (suc n) (c ∷ path) = drop_path n path

-- The loop over the leading '/'.
pub skip_slashes : ℕ → List ℕ → Context
skip_slashes address [] = filepath address []
skip_slashes address (c ∷ path) =
    let more = skip_slashes (address + 1) path in
    if c == 47 then more else filepath address (c ∷ path)

-- A TravelCallback, with its context.
abbrev pub Callback : Type 0 → Type 0 → Type 0
Callback S C = ℕ → ℕ → ℕ → C → S → Run (Bool × C × S)

module _ {S : Type 0} (disk : Source S) (fs : Ext4) where
  -- Ext4::getGroupDescriptor, and the position of an inode in getINode and travelFile. An inode
  -- number below 1 leaves what the buffer held.
  pub get_group_descriptor : Bytes → ℕ → S → Bytes × S
  get_group_descriptor old n s =
      let (bytes, count, s1) =
        disk.read_own (add64 fs.block_size (mul64 ((n - 1) / fs.inodes_per_group) fs.desc_size)) 64
          s in
      if below_one n then (old, s) else (bytes, s1)

  pub inode_position : Bytes → ℕ → ℕ
  inode_position desc n =
      add64 (mul64 (full desc 0x8 + full desc 0x28 * 2 ^ 32) fs.block_size)
        (mul64 ((n - 1) % fs.inodes_per_group) fs.inode_size)

  -- Ext4::getINode, where `old` is what the buffers held.
  pub get_inode : Bytes → ℕ → S → Bytes × S
  get_inode old n s =
      let (desc, s1) = get_group_descriptor old n s in
      let (bytes, count, s2) = disk.read_own (inode_position desc n) 0xA0 s1 in
      if below_one n then (old, s) else (bytes, s2)

  module _ {C : Type 0} (callback : Callback S C) where
    -- The loop over the leaves of a node, which are at `i` and behind it.
    pub leaf_loop : Bytes → ℕ → ℕ → C → S → Run (Bool × C × S)
    leaf_loop b i zero c s = ok (false, c, s)
    leaf_loop b i (suc left) c s =
        let leaf = leaf_at b i in
        do
          r ←
              callback (mul64 leaf.block_in_file fs.block_size) (mul64 leaf.start fs.block_size)
                (mul64 leaf.block_count fs.block_size) c s
          elim r.0 [ true ↦ ok r | false ↦ leaf_loop b (i + 12) left r.1 r.2 ]

    -- The loop over the indices of a node. `entries` stays at the first of them.
    pub index_loop : (Bytes → C → S → Run (Bool × C × S)) → Bytes → ℕ → C → S → Run (Bool × C × S)
    index_loop descend b zero c s = ok (false, c, s)
    index_loop descend b (suc left) c s =
        let position = full b (12 + 4) + half b (12 + 8) * 2 ^ 32 in
        let (bytes, count, s1) = disk.read_own (mul64 position fs.block_size) fs.block_size s in
        do
          r ← descend bytes c s1
          elim r.0 [ true ↦ ok r | false ↦ index_loop descend b left r.1 r.2 ]

    -- Ext4::travelExtentTree; `fuel` bounds the depth of the tree.
    pub travel_extent_tree : ℕ → Bytes → C → S → Run (Bool × C × S)
    travel_extent_tree zero b c s = out_of_fuel
    travel_extent_tree (suc fuel) b c s = elim (half b 0 == 0xF30A) [
      | false ↦ ok (false, c, s)
      | true ↦ elim (half b 6 == 0) [
        | true ↦ leaf_loop b 12 (half b 2) c s
        | false ↦ index_loop (travel_extent_tree fuel) b (half b 2) c s
      ]
    ]

    -- Ext4::travelFile
    pub travel_file : ℕ → Bytes → ℕ → C → S → Run (C × S)
    travel_file fuel old n c s =
        let (inode, s1) = get_inode old n s in
        let flags = full inode 0x20 in
        let (desc, s2) = get_group_descriptor old n s1 in
        elim (below_one n) [
          | true ↦ ok (c, s)
          | false ↦ elim (flags / 0x80000 % 2 == 0) [
            | false ↦ do r ← travel_extent_tree fuel (λ k. inode (0x28 + k)) c s1; ok (r.1, r.2)
            | true ↦ elim (flags / 0x10000000 % 2 == 0) [
              | true ↦ ok (c, s1)
              | false ↦ do
                r ← callback 0 (add64 (inode_position desc n) 0x28) (get_file_size inode) c s2
                ok (r.1, r.2)
            ]
          ]
        ]

  -- The callback of implRead.
  pub read_extent : Callback S IoOperation
  read_extent in_file in_partition length io s =
      let overlap_start = larger in_file io.offset in
      let overlap_end = smaller (add64 in_file length) (add64 io.offset io.size) in
      let offset_in_buffer = sub64 io.offset overlap_start in
      let length_in_buffer =
        smaller (overlap_end - overlap_start) (sub64 io.size offset_in_buffer) in
      let (count, s1) =
        disk.read_to (add64 in_partition overlap_start) length_in_buffer
          (add64 io.buffer offset_in_buffer) s in
      ok (
        if leb overlap_end overlap_start
        then (false, io, s)
        else (false, record io { result = add64 io.result count }, s1))
