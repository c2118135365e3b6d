-- ===== src/Memory/TempMapping/Tests.antt =====
-- A run of src/Memory/tempMapping.cpp for user mode.
use crack_os.Base.{ℕ, ◌+◌, ◌≡◌, refl, arith, false}
use crack_os.Base.{◌==◌, if◌then◌else◌, ok}
use crack_os.Memory.{ti}
use crack_os.Memory.Physical.{Region, Allocator, unclaimed, window}
use crack_os.Memory.PageTable.{PageTables, map_page}
use crack_os.Memory.PageEntry.{PageEntry, from_raw, table_entry}
use crack_os.Memory.PageTable.Walk.{Walk, get_physical_address-absent}
use crack_os.Memory.TempMapping.{user_option, map_user_pages}
use crack_os.Memory.TempMapping.FirstPage.{map_user_pages-first_page}

abbrev no_region : Region
no_region = record {
  start_page_index = 0;
  page_count = 0;
  type = unclaimed;
  next_physical_address = 0;
}

abbrev no_memory : Allocator
no_memory = record {
  mem = λ _. no_region;
  max_address = 0;
  total_memory_size = 0;
  used_memory_size = 0;
  unusable_region_count = 0;
  usable_regions_count = 0;
}

abbrev entries_of_32_ti : ℕ → PageEntry
entries_of_32_ti q =
    if q == 0x1200
    then table_entry 0x2000
    else if q == 0x2000
    then table_entry 0x3000
    else if q == 0x3000
    then table_entry 0x4000
    else from_raw 0

abbrev user_tables : PageTables
user_tables = record {
  entries = entries_of_32_ti;
  cr3 = 0x1000;
  virtual_level4_address = 0x1000 + window;
  in_init = false;
  init_page_buffer = 0x400000100000;
  kernel_offset = 0x3FFFFFF00000;
  init_page_index = 1;
  allocator = no_memory;
}

user_tables-Walk : Walk user_tables (ti 32 + 0x7000) 0x2000 0x3000 0x4000
user_tables-Walk = record {
  late = refl;
  first = record { present = refl; big_page = refl; address = refl; low = omega arith };
  second = record { present = refl; big_page = refl; address = refl; low = omega arith };
  third = record { present = refl; big_page = refl; address = refl; low = omega arith };
}

map_user_pages-first_page_example :
    (t : PageTables) × (map_page 0 user_tables 0x7000 (ti 32 + 0x7000) user_option ≡ ok t)
    × (map_user_pages 0 user_tables 0x7000 4 ≡ ok (ti 32 + 0x7000, t))
map_user_pages-first_page_example =
    map_user_pages-first_page 0 3 user_tables 0x7000 0 0x2000 0x3000 0x4000 (omega arith) refl
      (omega arith) user_tables-Walk
      (record { not_first = omega arith; not_second = omega arith; not_third = omega arith })
      (get_physical_address-absent user_tables (ti 32 + 0x7000) 0x2000 0x3000 0x4000
        user_tables-Walk refl)
      (omega arith)
