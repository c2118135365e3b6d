-- ===== src/Storage/Ext4/Paths.antt =====
-- lookForFile and Ext4::getINodeNumber of src/Storage/Ext4.cpp: from a path to an inode. `old` is
-- what an INode on the stack holds before it is filled.
use crack_os.Base.{
  ℕ, zero, suc, ◌+◌, ◌-◌, ◌*◌, ◌/◌, ◌%◌, ◌^◌, Bool, true, false, not, ◌||◌, ◌&&◌, List, [], ◌∷◌,
}
use crack_os.Base.{ltb, leb, ◌==◌, if◌then◌else◌, add64, get_or, Run, ok, fault, out_of_fuel, ◌>>=◌}
use crack_os.Language.Bytes.{Bytes}
use crack_os.Storage.Ext4.{
  Source, Ext4, Callback, Context, filepath, result_of, half, full, below_one, is_prefix, drop_path,
  skip_slashes, get_inode, travel_file,
}
pub mod Entries
pub mod Search

abbrev pub not_found : ℕ
not_found = 2 ^ 64 - 1

-- `*(uint64_t*) context |= 1ull << 63ull`
abbrev pub with_found_bit : ℕ → ℕ
with_found_bit n = if leb (2 ^ 63) n then n else n + 2 ^ 63

-- `strcmp(filepath, "/") == 0`
pub is_slash : List ℕ → Bool
is_slash (c ∷ []) = c == 47
is_slash path = false

-- getINodeNumber after the walk through a directory.
pub number_of : Context → ℕ
number_of (result_of n) = if leb (2 ^ 63) n then n - 2 ^ 63 else not_found
number_of (filepath address path) = if leb (2 ^ 63) address then address - 2 ^ 63 else not_found

-- A call of getINodeNumber: address and characters of the path, and the inode to start at.
abbrev pub NumberOf : Type 0 → Type 0
NumberOf S = ℕ → List ℕ → ℕ → S → Run (ℕ × S)

module _ {S : Type 0} (disk : Source S) (fs : Ext4) where
  module _ (get_number : NumberOf S) where
    -- An entry with its fields, where `matches` says that the path starts with its name. `again` is
    -- the loop from the next entry on.
    pub look_at_entry :
        ℕ → ℕ → ℕ → Bool → ℕ → List ℕ → S → Run (Bool × Context × S) → Run (Bool × Context × S)
    look_at_entry inode name_length kind matches address path s again =
        elim (not (inode == 0) && matches) [
          | false ↦ again
          | true ↦ elim (get_or path name_length 0 == 0) [
            | true ↦ ok (true, result_of (with_found_bit inode), s)
            | false ↦ elim (get_or path name_length 0 == 47 && kind == 2) [
              | false ↦ again
              | true ↦ elim (get_or path (name_length + 1) 0 == 0) [
                | true ↦ ok (true, result_of (with_found_bit inode), s)
                | false ↦ do
                  r ← get_number (address + name_length) (drop_path name_length path) inode s
                  ok (true, result_of (with_found_bit r.0), r.1)
              ]
            ]
          ]
        ]

    -- The loop over the entries of a block of a directory.
    pub entry_loop : ℕ → Bytes → ℕ → ℕ → List ℕ → S → Run (Bool × Context × S)
    entry_loop zero b i address path s = out_of_fuel
    entry_loop (suc fuel) b i address path s =
        let again = entry_loop fuel b (i + half b (i + 4)) address path s in
        elim (ltb i fs.block_size) [
          | false ↦ ok (false, filepath address path, s)
          | true ↦
              look_at_entry (full b i) (b (i + 6)) (b (i + 7))
                (is_prefix b (i + 8) path 0 (b (i + 6))) address path s again
        ]

    -- The loop over the blocks of an extent of a directory.
    pub block_loop : ℕ → ℕ → ℕ → ℕ → ℕ → List ℕ → S → Run (Bool × Context × S)
    block_loop zero offset in_partition size address path s = out_of_fuel
    block_loop (suc fuel) offset in_partition size address path s =
        let (bytes, count, s1) = disk.read_own (add64 in_partition offset) fs.block_size s in
        elim (ltb offset size) [
          | false ↦ ok (false, filepath address path, s)
          | true ↦ do
            r ← entry_loop fuel bytes 0 address path s1
            elim r.0 [
              | true ↦ ok r
              | false ↦
                  block_loop fuel (add64 offset fs.block_size) in_partition size address path r.2
            ]
        ]

    -- lookForFile. A result in the context is not a path: the walk has ended when there is one.
    pub look_for_file : ℕ → Callback S Context
    look_for_file fuel in_file in_partition size (filepath address path) s =
        block_loop fuel 0 in_partition size address path s
    look_for_file fuel in_file in_partition size (result_of n) s = fault

  -- Ext4::getINodeNumber; `fuel` bounds the depth of directories and the rounds of the loops.
  pub get_inode_number : ℕ → Bytes → NumberOf S
  get_inode_number zero old address path n s = out_of_fuel
  get_inode_number (suc fuel) old address path n s =
      let (inode, s1) = get_inode disk fs old n s in
      let mode = half inode 0 / 2 ^ 12 % 2 ^ 4 in
      elim (below_one n) [
        | true ↦ ok (not_found, s)
        | false ↦ elim (n == 2 && is_slash path) [
          | true ↦ ok (2, s)
          | false ↦ elim (mode == 4) [
            | true ↦ do
              r ←
                  travel_file disk fs (look_for_file (get_inode_number fuel old) fuel) fuel old n
                    (skip_slashes address path) s1
              ok (number_of r.0, r.1)
            | false ↦ ok (if mode == 8 then n else not_found, s1)
          ]
        ]
      ]
