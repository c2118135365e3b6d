-- ===== src/Memory/PageTable/Tests.antt =====
-- Runs of src/Memory/pageTable.cpp: tables as the boot loader leaves them, and those of one page.
use crack_os.Base.{ℕ, ◌+◌, ◌*◌, ◌/◌, ◌%◌, ◌<◌, ◌≡◌, refl, inl, arith, true, false}
use crack_os.Base.{◌==◌, if◌then◌else◌, ok}
use crack_os.Memory.{page_size, gi}
use crack_os.Memory.Physical.{Region, Allocator, unclaimed, window}
use crack_os.Memory.PageTable.{
  PageTables, get_linked_page, physical_by_level1, physical_by_level2, physical_by_level3,
  get_physical_address, map_page, unmap, init, big_address,
}
use crack_os.Memory.PageEntry.{PageEntry, MapOption, from_raw, table_entry, gi_entry}
use crack_os.Memory.PageTable.Window.{IsBooted, init-window}
use crack_os.Memory.PageTable.Walk.{Walk, Aside}
use crack_os.Memory.PageTable.Walk.Pages.{
  map_page-get_physical_address, unmap-get_physical_address, other_pages_same,
}
use crack_os.Memory.PageTable.Walk.BigPages.{unmap-still_mapped}

abbrev no_region : Region
no_region = record {
  start_page_index = 0;
  page_count = 0;
  type = unclaimed;
  next_physical_address = 0;
}

abbrev no_memory : Allocator
no_memory = record {
  mem = λ _. no_region;
  max_address = 0;
  total_memory_size = 0;
  used_memory_size = 0;
  unusable_region_count = 0;
  usable_regions_count = 0;
}

-- The first GiB is mapped to itself, and the kernel's first page at 64 TiB to 0x200000.
abbrev boot_entries : ℕ → PageEntry
boot_entries q =
    if q == 0x1000
    then table_entry 0x2000
    else if q == 0x2000
    then gi_entry 0
    else if q == 0x1400
    then table_entry 0x3000
    else if q == 0x3000
    then table_entry 0x4000
    else if q == 0x4000
    then table_entry 0x5000
    else if q == 0x5000
    then table_entry 0x200000
    else from_raw 0

abbrev boot_tables : PageTables
boot_tables = record {
  entries = boot_entries;
  cr3 = 0x1000;
  virtual_level4_address = 0;
  in_init = false;
  init_page_buffer = 0x400000000000;
  kernel_offset = 0x3FFFFFE00000;
  init_page_index = 0;
  allocator = no_memory;
}

boot_tables-IsBooted : IsBooted boot_tables
unfolding get_physical_address physical_by_level3 physical_by_level2 physical_by_level1
    get_linked_page
boot_tables-IsBooted = record {
  index = refl;
  aligned = refl;
  place_aligned = refl;
  high = omega arith;
  below = omega arith;
  root_below = omega arith;
  unused = refl;
  apart = inl (omega arith);
  mapped = refl;
}

init-window_example :
    (t : PageTables) × (init 0 boot_tables ≡ ok t)
    × ((p : ℕ) → p < gi 512 → get_physical_address t (p + window) ≡ ok p)
init-window_example = init-window boot_tables boot_tables-IsBooted 0

-- The address 0x8040201123 has the index 1 in each of its tables.
abbrev page_entries : ℕ → PageEntry
page_entries q =
    if q == 0x1008
    then table_entry 0x2000
    else if q == 0x2008
    then table_entry 0x3000
    else if q == 0x3008
    then table_entry 0x4000
    else if q == 0x1010
    then table_entry 0x2000
    else if q == 0x2010
    then gi_entry 3
    else from_raw 0

abbrev page_tables : PageTables
page_tables = record boot_tables {
  entries = page_entries;
  virtual_level4_address = 0x1000 + window;
}

abbrev some_address : ℕ
some_address = 0x8040201123

abbrev next_address : ℕ
next_address = 0x8040202123

abbrev plain : MapOption
plain = record {
  writable = true;
  user_available = false;
  through = false;
  uncached = false;
  no_execute = true;
}

some_address-Walk : Walk page_tables some_address 0x2000 0x3000 0x4000
some_address-Walk = record {
  late = refl;
  first = record { present = refl; big_page = refl; address = refl; low = omega arith };
  second = record { present = refl; big_page = refl; address = refl; low = omega arith };
  third = record { present = refl; big_page = refl; address = refl; low = omega arith };
}

next_address-Walk : Walk page_tables next_address 0x2000 0x3000 0x4000
next_address-Walk = record {
  late = refl;
  first = record { present = refl; big_page = refl; address = refl; low = omega arith };
  second = record { present = refl; big_page = refl; address = refl; low = omega arith };
  third = record { present = refl; big_page = refl; address = refl; low = omega arith };
}

some_address-Aside : Aside page_tables some_address 0x2000 0x3000 0x4008
some_address-Aside = record {
  not_first = omega arith;
  not_second = omega arith;
  not_third = omega arith;
}

next_address-Aside : Aside page_tables next_address 0x2000 0x3000 0x4008
next_address-Aside = record {
  not_first = omega arith;
  not_second = omega arith;
  not_third = omega arith;
}

map_page-get_physical_address_example :
    (t : PageTables) × (map_page 0 page_tables 0x7000 some_address plain ≡ ok t)
    × ((u : ℕ)
        → u / page_size ≡ some_address / page_size
        → get_physical_address t u ≡ ok (0x7000 / page_size * page_size + u % page_size))
map_page-get_physical_address_example =
    map_page-get_physical_address page_tables some_address 0x2000 0x3000 0x4000 some_address-Walk
      some_address-Aside 0 0x7000 plain (omega arith)

other_pages_same_example :
    ((t : PageTables) × (map_page 0 page_tables 0x7000 some_address plain ≡ ok t)
      × (get_physical_address t next_address ≡ get_physical_address page_tables next_address))
    × ((t : PageTables) × (unmap page_tables some_address ≡ ok t)
        × (get_physical_address t next_address ≡ get_physical_address page_tables next_address))
other_pages_same_example =
    other_pages_same page_tables some_address 0x2000 0x3000 0x4000 some_address-Walk
      some_address-Aside next_address 0x2000 0x3000 0x4000 0 0x7000 plain next_address-Walk
      next_address-Aside (omega arith)

-- The address 0x10080001000 stands in a page of 1 GiB.
unmap-still_mapped_example :
    (t : PageTables) × (unmap page_tables 0x10080001000 ≡ ok t)
    × ((t.entries 0x2010).present ≡ false)
    × (get_physical_address t 0x10080001000 ≡ ok (big_address (gi_entry 3) 0x10080001000))
    × (get_physical_address t 0x10080001000 ≡ get_physical_address page_tables 0x10080001000)
unmap-still_mapped_example =
    unmap-still_mapped page_tables 0x10080001000 0x2000 refl
      (record { present = refl; big_page = refl; address = refl; low = omega arith }) refl
      (omega arith)

big_page_address : big_address (gi_entry 3) 0x10080001234 ≡ 0xc0001234
unfolding big_address
big_page_address = refl

unmap-get_physical_address_example :
    (t : PageTables) × (unmap page_tables some_address ≡ ok t)
    × ((u : ℕ) → u / page_size ≡ some_address / page_size → get_physical_address t u ≡ ok 0)
unmap-get_physical_address_example =
    unmap-get_physical_address page_tables some_address 0x2000 0x3000 0x4000 some_address-Walk
      some_address-Aside
