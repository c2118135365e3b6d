-- ===== src/Storage/Partition/Table.antt =====
-- The partition table that MBRPartitionTable of src/Storage/Partition.cpp reads.
use crack_os.Base.{
  ℕ, zero, suc, ◌+◌, ◌*◌, ◌/◌, ◌%◌, ◌^◌, ◌<◌, ◌≡◌, refl, arith, ap, ap₂, sym, ◌∙◌, Bool, true,
  false, not, Option, none, some, List, [], ◌∷◌, ◌++◌,
}
use crack_os.Base.{length, get_or-append, length-append, ◌==◌, leb, ◌||◌, if◌then◌else◌}
use crack_os.Storage.Partition.{
  MbrPartition, byte_at, word_at, get_partition, is_counted, count_loop, get_partition_count,
}

-- An entry of the table as its fields; the addresses by cylinder are not read.
pub record RawEntry : Type 0 where
  pub active : Bool
  pub type : ℕ
  pub first_sector : ℕ
  pub sector_count : ℕ
  pub cylinders : ℕ × ℕ × ℕ × ℕ × ℕ × ℕ

abbrev pub IsRaw : RawEntry → Type 0
IsRaw r = (r.first_sector < 2 ^ 32) × (r.sector_count < 2 ^ 32)

-- A uint32_t in memory, in front of `more`.
abbrev little_endian : ℕ → List ℕ → List ℕ
little_endian n more =
    n % 2 ^ 8 ∷ n / 2 ^ 8 % 2 ^ 8 ∷ n / 2 ^ 16 % 2 ^ 8 ∷ n / 2 ^ 24 % 2 ^ 8 ∷ more

abbrev pub entry_bytes : RawEntry → List ℕ → List ℕ
entry_bytes r more =
    let (a, b, c, d, e, f) = r.cylinders in
    (if r.active then 0x80 else 0)
    ∷ a
    ∷ b
    ∷ c
    ∷ r.type
    ∷ d
    ∷ e
    ∷ f
    ∷ little_endian r.first_sector (little_endian r.sector_count more)

abbrev pub table_bytes : List RawEntry → List ℕ → List ℕ
table_bytes [] more = more
table_bytes (r ∷ rs) more = entry_bytes r (table_bytes rs more)

-- The partition that an entry describes: none when it has no type or no sectors.
unfoldable pub described : RawEntry → Option MbrPartition
described r =
    if r.type == 0 || r.sector_count == 0
    then none
    else some (record {
      size = r.sector_count * 512;
      offset = r.first_sector * 512;
      bootable = r.active;
      type = r.type;
    })

-- getPartition from the fields that it reads.
from_fields : Bool → ℕ → ℕ → ℕ → Option MbrPartition
from_fields active type first count =
    if type == 0 || count * 512 == 0
    then none
    else some (record { size = count * 512; offset = first * 512; bootable = active; type = type })

get_from_fields :
    (sector : List ℕ) (index : ℕ)
    → index < 4
    → get_partition sector index
      ≡ from_fields
          (byte_at sector (446 + index * 16) == 0x80)
          (byte_at sector (446 + index * 16 + 4))
          (word_at sector (446 + index * 16 + 8))
          (word_at sector (446 + index * 16 + 12))
unfolding get_partition from_fields
get_from_fields sector index small =
    let inside : leb 4 index ≡ false = ground arith in rw inside refl

no_sectors : (n : ℕ) → (n * 512 == 0) ≡ (n == 0)
no_sectors zero = refl
no_sectors (suc n) = ground arith

from_fields-described :
    (r : RawEntry) → from_fields r.active r.type r.first_sector r.sector_count ≡ described r
unfolding from_fields described
from_fields-described r = rw (no_sectors r.sector_count) refl

word_lem :
    (n : ℕ)
    → n < 2 ^ 32
    → n % 2 ^ 8
        + n / 2 ^ 8 % 2 ^ 8 * 2 ^ 8
        + n / 2 ^ 16 % 2 ^ 8 * 2 ^ 16
        + n / 2 ^ 24 % 2 ^ 8 * 2 ^ 24
      ≡ n
word_lem n h = omega arith

module _ (before : List ℕ) (r : RawEntry) (more : List ℕ) (index : ℕ)
    (place : length before ≡ 446 + index * 16) where
  byte_lem :
      (n k : ℕ)
      → n ≡ 446 + index * 16 + k
      → byte_at (before ++ entry_bytes r more) n ≡ byte_at (entry_bytes r more) k
  byte_lem n k e =
      ap (byte_at (before ++ entry_bytes r more)) (e ∙ ap (λ (b : ℕ). b + k) (sym place))
      ∙ get_or-append before (entry_bytes r more) k 0

  active_lem : (byte_at (before ++ entry_bytes r more) (446 + index * 16) == 0x80) ≡ r.active
  active_lem =
      ap (λ (b : ℕ). b == 0x80) (byte_lem (446 + index * 16) 0 (omega arith)) ∙ flag r.active
    where
      flag : (b : Bool) → ((if b then 0x80 else 0) == 0x80) ≡ b
      flag true = refl
      flag false = refl

  type_lem : byte_at (before ++ entry_bytes r more) (446 + index * 16 + 4) ≡ r.type
  type_lem = byte_lem (446 + index * 16 + 4) 4 refl

  first_lem :
      r.first_sector < 2 ^ 32
      → word_at (before ++ entry_bytes r more) (446 + index * 16 + 8) ≡ r.first_sector
  first_lem h =
      let at = 446 + index * 16 + 8 in
      rw
        (
          byte_lem at 8 refl,
          byte_lem (at + 1) 9 (omega arith),
          byte_lem (at + 2) 10 (omega arith),
          byte_lem (at + 3) 11 (omega arith),
        )
        (word_lem r.first_sector h)

  count_lem :
      r.sector_count < 2 ^ 32
      → word_at (before ++ entry_bytes r more) (446 + index * 16 + 12) ≡ r.sector_count
  count_lem h =
      let at = 446 + index * 16 + 12 in
      rw
        (
          byte_lem at 12 refl,
          byte_lem (at + 1) 13 (omega arith),
          byte_lem (at + 2) 14 (omega arith),
          byte_lem (at + 3) 15 (omega arith),
        )
        (word_lem r.sector_count h)

  entry_lem : index < 4 → IsRaw r → get_partition (before ++ entry_bytes r more) index ≡ described r
  entry_lem small raw =
      get_from_fields (before ++ entry_bytes r more) index small
      ∙ rw (active_lem, type_lem, first_lem raw.0, count_lem raw.1) (from_fields-described r)

-- The entry at an index of a table.
abbrev pub entry_at : List RawEntry → ℕ → Option RawEntry
entry_at [] i = none
entry_at (r ∷ rs) zero = some r
entry_at (r ∷ rs) (suc i) = entry_at rs i

abbrev pub described_at : Option RawEntry → Option MbrPartition
described_at none = none
described_at (some r) = described r

abbrev pub AreRaw : List RawEntry → Type 0
AreRaw [] = Unit
AreRaw (r ∷ rs) = IsRaw r × AreRaw rs

length_place :
    (before : List ℕ) (r : RawEntry) (start : ℕ)
    → length before ≡ 446 + start * 16
    → length (before ++ entry_bytes r []) ≡ 446 + (start + 1) * 16
length_place before r start e = omega (arith, length-append before (entry_bytes r []))

append_next :
    (before : List ℕ) (r : RawEntry) (more : List ℕ)
    → before ++ entry_bytes r more ≡ (before ++ entry_bytes r []) ++ more
append_next [] r more = refl
append_next (b ∷ bs) r more = ap (λ x. b ∷ x) (append_next bs r more)

from_start :
    (before : List ℕ) (rs : List RawEntry) (more : List ℕ) (start index : ℕ)
    → length before ≡ 446 + start * 16
    → AreRaw rs
    → start + index < 4
    → index < length rs
    → get_partition (before ++ table_bytes rs more) (start + index)
      ≡ described_at (entry_at rs index)
from_start before [] more start index place raw small at = absurd (omega arith)
from_start before (q ∷ rs) more start zero place raw small at =
    ap (get_partition (before ++ entry_bytes q (table_bytes rs more))) (plus_zero start)
    ∙ entry_lem before q (table_bytes rs more) start place (omega arith) raw.0
  where
    plus_zero : (n : ℕ) → n + 0 ≡ n
    plus_zero n = omega arith
from_start before (q ∷ rs) more start (suc index) place raw small at =
    ap₂ get_partition (append_next before q (table_bytes rs more)) (next start index)
    ∙ from_start (before ++ entry_bytes q []) rs more (start + 1) index
        (length_place before q start place) raw.1 (omega arith) (omega arith)
  where
    next : (m n : ℕ) → m + suc n ≡ m + 1 + n
    next m n = omega arith

-- The boot sector with this table behind its 446 bytes of code.
abbrev pub sector_of : List ℕ → List RawEntry → List ℕ
sector_of code rs = code ++ table_bytes rs (0x55 ∷ 0xAA ∷ [])

-- Reading an entry of the partition table of a boot sector gives the partition that was written
-- there, with its offset and size in bytes, and none for an entry without a type or sectors.
pub get_partition-table_bytes :
    (code : List ℕ) (rs : List RawEntry) (index : ℕ)
    → length code ≡ 446
    → length rs ≡ 4
    → AreRaw rs
    → index < 4
    → get_partition (sector_of code rs) index ≡ described_at (entry_at rs index)
get_partition-table_bytes code rs index size four raw small =
    ap (get_partition (sector_of code rs)) (zero_plus index)
    ∙ from_start code rs (0x55 ∷ 0xAA ∷ []) 0 index (omega (arith, size)) raw (omega arith)
        (omega (arith, four))
  where
    zero_plus : (n : ℕ) → n ≡ 0 + n
    zero_plus n = omega arith

-- The entries that describe a partition.
unfoldable pub described_count : List RawEntry → ℕ
described_count [] = 0
described_count (r ∷ rs) =
    (if r.type == 0 || r.sector_count == 0 then 0 else 1) + described_count rs

is_counted-described :
    (sector : List ℕ) (i : ℕ) (r : RawEntry)
    → get_partition sector i ≡ described r
    → is_counted true sector i ≡ not (r.type == 0 || r.sector_count == 0)
unfolding is_counted described
is_counted-described sector i r e = rw e (ground arith)

count_step :
    (sector : List ℕ) (left i : ℕ)
    → count_loop true sector (suc left) i
      ≡ (if is_counted true sector i then 1 else 0) + count_loop true sector left (i + 1)
unfolding count_loop
count_step sector left i = refl

count_end : (sector : List ℕ) (i : ℕ) → count_loop true sector 0 i ≡ 0
unfolding count_loop
count_end sector i = refl

count_more :
    (sector : List ℕ) (left i n : ℕ) (r : RawEntry)
    → get_partition sector i ≡ described r
    → count_loop true sector left (i + 1) ≡ n
    → count_loop true sector (suc left) i
      ≡ (if r.type == 0 || r.sector_count == 0 then 0 else 1) + n
count_more sector left i n r e c =
    count_step sector left i ∙ rw (is_counted-described sector i r e, c) (ground arith)

-- getPartitionCount of a boot sector whose device exists is the number of its entries that describe
-- a partition.
pub get_partition_count-table_bytes :
    (code : List ℕ) (a b c d : RawEntry)
    → length code ≡ 446
    → AreRaw (a ∷ b ∷ c ∷ d ∷ [])
    → get_partition_count true (sector_of code (a ∷ b ∷ c ∷ d ∷ []))
      ≡ described_count (a ∷ b ∷ c ∷ d ∷ [])
unfolding get_partition_count described_count
get_partition_count-table_bytes code a b c d size raw =
    let rs : List RawEntry = a ∷ b ∷ c ∷ d ∷ [] in
    let sector = sector_of code rs in
    let at = λ (i : ℕ) (h : i < 4). get_partition-table_bytes code rs i size refl raw h in
    count_more sector 3 0 _ a (at 0 (omega arith)) (
      count_more sector 2 1 _ b (at 1 (omega arith)) (
        count_more sector 1 2 _ c (at 2 (omega arith))
          (count_more sector 0 3 _ d (at 3 (omega arith)) (count_end sector 4))))
