-- ===== src/Storage/Ext4/Tests.antt =====
-- A disk and a directory on which the theorems about src/Storage/Ext4.cpp are used.
use crack_os.Base.{ℕ, ◌+◌, ◌-◌, ◌*◌, ◌^◌, ◌≡◌, refl, arith, true, false, List, [], ◌∷◌}
use crack_os.Base.{◌==◌, if◌then◌else◌, get_or, ok}
use crack_os.Language.Bytes.{Bytes}
use crack_os.Storage.Ext4.{
  Source, Ext4, ExtentLeaf, IoOperation, Callback, Context, get_inode, get_group_descriptor,
  travel_extent_tree,
}
use crack_os.Storage.Ext4.Extents.{visited, passes, HoldsNode, Fit, travel_extent_tree-visited}
use crack_os.Storage.Ext4.Paths.{NumberOf, not_found, number_of, entry_loop, get_inode_number}
use crack_os.Storage.Ext4.Paths.Entries.{
  DirEntry, HoldsEntries, inside, first_verdict, strip, behind, verdict,
}
use crack_os.Storage.Ext4.Paths.Search.{
  outcome, entry_loop-first_verdict, entry_loop-inside_not_found, get_inode_number-file,
}

-- A disk as its bytes.
abbrev image : Source Bytes
image = record { read_own = λ at n s. (λ k. s (at + k), n, s); read_to = λ at n to s. (n, s) }

abbrev fs : Ext4
fs = record {
  valid = true;
  block_size = 28;
  inodes_per_group = 8;
  inode_size = 256;
  desc_size = 64;
}

-- The file `a` and the directory `dir`.
abbrev block : Bytes
block i =
    get_or
      (12 ∷ 0 ∷ 0 ∷ 0 ∷ 16 ∷ 0 ∷ 1 ∷ 1 ∷ b'a' ∷ 0 ∷ 0 ∷ 0 ∷ 0 ∷ 0 ∷ 0 ∷ 0 ∷ 13 ∷ 0 ∷ 0 ∷ 0 ∷ 12 ∷ 0
        ∷ 3 ∷ 2 ∷ b'd' ∷ b'i' ∷ b'r' ∷ 0 ∷ [])
      i 0

abbrev entries : List DirEntry
entries =
    record { inode = 12; rec_length = 16; file_type = 1; name = b'a' ∷ [] }
    ∷ record { inode = 13; rec_length = 12; file_type = 2; name = b'd' ∷ b'i' ∷ b'r' ∷ [] }
    ∷ []

block-HoldsEntries : HoldsEntries block 28 0 entries
block-HoldsEntries = omega arith

-- "dir/x"
abbrev dir_x : List ℕ
dir_x = b'd' ∷ b'i' ∷ b'r' ∷ b'/' ∷ b'x' ∷ []

abbrev nothing_there : NumberOf Bytes
nothing_there address path n s = ok (not_found, s)

entry_loop-first_verdict_example :
    entry_loop image fs nothing_there 3 block 0 4096 dir_x block
    ≡ outcome image fs nothing_there 4096 dir_x block (first_verdict entries dir_x)
entry_loop-first_verdict_example =
    entry_loop-first_verdict image fs nothing_there entries 3 block 0 4096 dir_x block (omega arith)
      (omega arith) block-HoldsEntries

dir_inside : first_verdict entries dir_x ≡ inside 13 (b'/' ∷ b'x' ∷ [])
unfolding first_verdict verdict behind strip
dir_inside = refl

entry_loop-inside_not_found_example :
    (c : Context) × (entry_loop image fs nothing_there 3 block 0 4096 dir_x block
      ≡ ok (true, c, block))
    × (number_of c ≡ 2 ^ 63 - 1)
entry_loop-inside_not_found_example =
    entry_loop-inside_not_found image fs nothing_there entries 3 block 0 4096 13 dir_x
      (b'/' ∷ b'x' ∷ []) block block (omega arith) (omega arith) block-HoldsEntries dir_inside refl

-- A callback that counts the bytes of the extents.
abbrev count_bytes : Callback Bytes ℕ
count_bytes in_file in_partition size n s = ok (false, n + size, s)

abbrev counted : ℕ → ℕ → ℕ → ℕ × Bytes → ℕ × Bytes
counted in_file in_partition size x = (x.0 + size, x.1)

-- A node with two leaves, of 3 blocks and of 1, the second one in the upper half of the partition's
-- numbers, and one with two children.
abbrev leaves : Bytes
leaves i =
    get_or (0x0A ∷ 0xF3 ∷ 2 ∷ 0 ∷ 4 ∷ 0 ∷ 0 ∷ 0 ∷ 0 ∷ 0 ∷ 0 ∷ 0 ∷ 0 ∷ 0 ∷ 0 ∷ 0 ∷ 3 ∷ []) i (
      if i == 24 then 3 else if i == 28 then 1 else if i == 30 then 2 else if i == 33 then 5 else 0)

abbrev two_leaves : List ExtentLeaf
two_leaves =
    record { block_in_file = 0; block_count = 3; start = 0 }
    ∷ record { block_in_file = 3; block_count = 1; start = 2 * 2 ^ 32 + 5 * 2 ^ 8 }
    ∷ []

leaves-HoldsNode : HoldsNode leaves two_leaves
leaves-HoldsNode = (
  refl,
  refl,
  refl,
  refl,
  refl,
  refl,
  (
    (refl, refl, refl, refl, refl, refl, refl, refl, refl, refl, refl, refl),
    ((refl, refl, refl, refl, refl, refl, refl, refl, refl, refl, refl, refl), tt),
  ),
)

two_leaves-Fit : Fit image fs count_bytes two_leaves
two_leaves-Fit =
    (omega arith, omega arith, omega arith, (omega arith, omega arith, omega arith, tt))

travel_extent_tree-visited_example :
    travel_extent_tree image fs count_bytes 1 leaves 0 block
    ≡ passes image fs count_bytes (visited image fs count_bytes counted two_leaves (0, block))
travel_extent_tree-visited_example =
    travel_extent_tree-visited image fs count_bytes counted (λ f p l c s. refl) 0 leaves two_leaves
      0 block leaves-HoldsNode two_leaves-Fit

abbrev io : IoOperation
io = record { offset = 100; size = 100; buffer = 5000; result = 50 }

-- Disks whose inodes have neither type, and are all regular files.
abbrev empty_disk : Source ℕ
empty_disk = record { read_own = λ at n s. (λ k. 0, n, s); read_to = λ at n to s. (n, s) }

abbrev full_disk : Source ℕ
full_disk = record { read_own = λ at n s. (λ k. 0x80, n, s); read_to = λ at n to s. (n, s) }

abbrev garbage : Bytes
garbage k = 0xCC

search_nothing : get_inode_number empty_disk fs 5 garbage 4096 dir_x 2 7 ≡ ok (not_found, 7)
unfolding get_inode get_group_descriptor
search_nothing =
    get_inode_number-file empty_disk fs 4 garbage 4096 b'd' b'i' 2 (b'r' ∷ b'/' ∷ b'x' ∷ []) 7 refl
      (omega arith)

search_file : get_inode_number full_disk fs 5 garbage 4096 dir_x 2 7 ≡ ok (2, 7)
unfolding get_inode get_group_descriptor
search_file =
    get_inode_number-file full_disk fs 4 garbage 4096 b'd' b'i' 2 (b'r' ∷ b'/' ∷ b'x' ∷ []) 7 refl
      (omega arith)
