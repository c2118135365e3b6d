-- ===== src/Memory/Heap/Tests.antt =====
-- Runs of src/Memory/heap.cpp: three blocks in one page of the heap.
use crack_os.Base.{ℕ, ◌+◌, ◌≡◌, refl, arith, some, none}
use crack_os.Base.{◌==◌, if◌then◌else◌, ok}
use crack_os.Memory.{ti}
use crack_os.Base.{false}
use crack_os.Memory.Physical.{Region, unclaimed}
use crack_os.Memory.PageTable.{PageTables}
use crack_os.Memory.PageEntry.{from_raw}
use crack_os.Memory.Heap.Placed.{kmalloc-next_block}
use crack_os.Memory.Heap.{Heap, kmalloc, header_size}
use crack_os.Memory.Heap.{PointerData, link_block, unlink_block, fit_loop, fits_behind}
use crack_os.Memory.Heap.Links.{unlink_block-link_block}

abbrev dummy_address : ℕ
dummy_address = 0x100

abbrev first_block : ℕ
first_block = ti 80

abbrev second_block : ℕ
second_block = ti 80 + 100

abbrev heap_blocks : ℕ → PointerData
heap_blocks q =
    if q == 0x100
    then (record { size = 24; next_virtual = ti 80; prev_virtual = 0 })
    else if q == ti 80
    then (record { size = 100; next_virtual = ti 80 + 100; prev_virtual = 0x100 })
    else if q == ti 80 + 100
    then (record { size = 60; next_virtual = 0; prev_virtual = ti 80 })
    else (record { size = 0; next_virtual = 0; prev_virtual = 0 })

-- A block of 40 bytes is put behind the second block, and one of 3000 bytes behind none.
behind_second : fit_loop 9 heap_blocks 40 dummy_address ≡ ok (some second_block)
unfolding fit_loop fits_behind
behind_second = refl

too_large : fit_loop 9 heap_blocks 3000 dummy_address ≡ ok none
unfolding fit_loop fits_behind
too_large = refl

unlink_block-link_block_example :
    unlink_block
      (link_block heap_blocks first_block (ti 80 + 0x2000) 40)
      (ti 80 + 0x2000)
      second_block
    ≡ heap_blocks second_block
unlink_block-link_block_example =
    unlink_block-link_block heap_blocks first_block (ti 80 + 0x2000) 40 (omega arith) (omega arith)
      (omega arith) (omega arith) (λ _. refl) second_block (omega arith)

abbrev no_region : Region
no_region = record {
  start_page_index = 0;
  page_count = 0;
  type = unclaimed;
  next_physical_address = 0;
}

abbrev no_tables : PageTables
no_tables = record {
  entries = λ _. from_raw 0;
  cr3 = 0x1000;
  virtual_level4_address = 0;
  in_init = false;
  init_page_buffer = 0x400000100000;
  kernel_offset = 0x3FFFFFF00000;
  init_page_index = 0;
  allocator = record {
    mem = λ _. no_region;
    max_address = 0;
    total_memory_size = 0;
    used_memory_size = 0;
    unusable_region_count = 0;
    usable_regions_count = 0;
  };
}

-- A block of one page, behind it one of 100 bytes.
abbrev page_blocks : ℕ → PointerData
page_blocks q =
    if q == 0x100
    then (record { size = 24; next_virtual = ti 80; prev_virtual = 0 })
    else if q == ti 80
    then (record { size = 4096; next_virtual = ti 80 + 4096; prev_virtual = 0x100 })
    else (record { size = 100; next_virtual = 0; prev_virtual = ti 80 })

abbrev page_heap : Heap
page_heap = record { blocks = page_blocks; dummy = 0x100; tables = no_tables }

kmalloc-next_block_example :
    (after : Heap) × (kmalloc 1 page_heap 50 ≡ ok (ti 80 + 4096 + header_size, after))
kmalloc-next_block_example =
    kmalloc-next_block 0 page_heap 50 (ti 80) (omega arith) refl (omega arith) (omega arith) refl
      refl

abbrev packed_heap : Heap
packed_heap = record { blocks = heap_blocks; dummy = 0x100; tables = no_tables }
