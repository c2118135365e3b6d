-- ===== src/Memory/PageEntry.antt =====
-- src/Memory/pageTable.cpp and header/Memory/pageTable.hpp: the formats of an entry and of an
-- address, and the entries that the page tables' functions write.
use crack_os.Base.{ℕ, ◌/◌, ◌%◌, ◌^◌, Bool, true, false}
use crack_os.Base.{◌==◌}
use crack_os.Memory.{gi}

-- The struct of PageEntry's union.
pub record PageEntry : Type 0 where
  pub present : Bool
  pub write_enable : Bool
  pub user_mode_enable : Bool
  pub write_through : Bool
  pub cache_disable : Bool
  pub accessed : Bool
  pub dirty : Bool
  pub big_page : Bool
  pub is_global : Bool
  pub available1 : ℕ
  pub enc_address : ℕ
  pub zeros : ℕ
  pub available2 : ℕ
  pub protection_key : ℕ
  pub execute_disable : Bool

abbrev bit : ℕ → ℕ → Bool
bit raw k = raw / 2 ^ k % 2 == 1

-- A write of PageEntry::raw
abbrev pub from_raw : ℕ → PageEntry
from_raw raw = record {
  present = raw % 2 == 1;
  write_enable = bit raw 1;
  user_mode_enable = bit raw 2;
  write_through = bit raw 3;
  cache_disable = bit raw 4;
  accessed = bit raw 5;
  dirty = bit raw 6;
  big_page = bit raw 7;
  is_global = bit raw 8;
  available1 = raw / 2 ^ 9 % 2 ^ 3;
  enc_address = raw / 2 ^ 12 % 2 ^ 36;
  zeros = raw / 2 ^ 48 % 2 ^ 4;
  available2 = raw / 2 ^ 52 % 2 ^ 7;
  protection_key = raw / 2 ^ 59 % 2 ^ 4;
  execute_disable = bit raw 63;
}

-- The fields of PagingAddress
abbrev pub in_page : ℕ → ℕ
in_page v = v % 2 ^ 12

abbrev pub level1 : ℕ → ℕ
level1 v = v / 2 ^ 12 % 2 ^ 9

abbrev pub level2 : ℕ → ℕ
level2 v = v / 2 ^ 21 % 2 ^ 9

abbrev pub level3 : ℕ → ℕ
level3 v = v / 2 ^ 30 % 2 ^ 9

abbrev pub level4 : ℕ → ℕ
level4 v = v / 2 ^ 39 % 2 ^ 9

-- What getLinkedPage writes to an entry that it links to a new table.
abbrev pub table_entry : ℕ → PageEntry
table_entry physical = record {
  present = true;
  write_enable = true;
  user_mode_enable = true;
  write_through = false;
  cache_disable = false;
  accessed = false;
  dirty = false;
  big_page = false;
  is_global = false;
  available1 = 0;
  enc_address = physical / 2 ^ 12 % 2 ^ 36;
  zeros = 0;
  available2 = 0;
  protection_key = 0;
  execute_disable = false;
}

-- An entry of PageTable::init's table of 1 GiB pages
abbrev pub gi_entry : ℕ → PageEntry
gi_entry i = record (from_raw (gi i)) {
  big_page = true;
  present = true;
  write_enable = true;
  user_mode_enable = false;
  write_through = true;
  cache_disable = true;
  dirty = false;
  accessed = false;
  is_global = false;
  available1 = 0;
  available2 = 0;
  protection_key = 0;
  execute_disable = false;
}

-- PageTable::Option
pub record MapOption : Type 0 where
  pub writable : Bool
  pub user_available : Bool
  pub through : Bool
  pub uncached : Bool
  pub no_execute : Bool

abbrev pub page_entry : ℕ → MapOption → PageEntry
page_entry physical option = record {
  present = true;
  write_enable = option.writable;
  user_mode_enable = option.user_available;
  write_through = option.through;
  cache_disable = option.uncached;
  accessed = false;
  dirty = false;
  big_page = false;
  is_global = false;
  available1 = 0;
  enc_address = physical / 2 ^ 12 % 2 ^ 36;
  zeros = 0;
  available2 = 0;
  protection_key = 0;
  execute_disable = false;
}
