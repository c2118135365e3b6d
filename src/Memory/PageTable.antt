-- ===== src/Memory/PageTable.antt =====
-- src/Memory/pageTable.cpp: the page tables of the CPU. `entries` is the entry that stands at a
-- physical address.
pub mod Digits
pub mod Window
pub mod Walk
mod Tests
use Prim.Native.Nat.{bit_or}
use crack_os.Memory.PageEntry.{
  PageEntry, from_raw, in_page, level1, level2, level3, level4, table_entry, gi_entry, MapOption,
  page_entry,
}
use crack_os.Base.{ℕ, zero, suc, ◌+◌, ◌-◌, ◌*◌, ◌/◌, ◌%◌, ◌^◌, Bool, true, false, ◌&&◌}
use crack_os.Base.{ltb, leb, ◌==◌, if◌then◌else◌, add64}
use crack_os.Base.{Run, ok, stopped, ◌>>=◌, update}
use crack_os.Memory.{page_size, gi, ti}
use crack_os.Memory.Physical.{Allocator, allocate, window, map_pages}

pub record PageTables : Type 0 where
  pub entries : ℕ → PageEntry
  pub cr3 : ℕ
  pub virtual_level4_address : ℕ
  pub in_init : Bool
  pub init_page_buffer : ℕ
  pub init_page_index : ℕ
  pub kernel_offset : ℕ
  pub allocator : Allocator

-- The physical address that a pointer to a table means. In `init` it is the pointer itself for the
-- low memory, which the boot loader maps to itself, and for the kernel's own data, linked from 64 TiB
-- on, where the linker script loads it; later the pointer is one in TempMemory's window.
abbrev pub physical_place : PageTables → ℕ → ℕ
physical_place s page =
    if s.in_init then (if leb (ti 64) page then page - s.kernel_offset else page) else page - window

-- &page->entries[i]
abbrev pub slot : PageTables → ℕ → ℕ → ℕ
slot s page i = physical_place s page + 8 * i

abbrev pub set_entry : PageTables → ℕ → PageEntry → PageTables
set_entry s at e = record s { entries = update s.entries at e }

-- memset(page, 0, size)
abbrev pub clear_entries : PageTables → ℕ → ℕ → ℕ → PageEntry
clear_entries s page size q =
    if leb (physical_place s page) q && ltb q (physical_place s page + size)
    then from_raw 0
    else s.entries q

-- The page of pagingInitPageBuffer that allocatePage takes, and the state after it; the index is
-- one byte wide.
abbrev pub init_page : PageTables → ℕ
init_page s = s.init_page_buffer + s.init_page_index * page_size

abbrev pub take_init_page : PageTables → PageTables
take_init_page s = record s {
  entries = clear_entries s (init_page s) page_size;
  init_page_index = (s.init_page_index + 1) % 2 ^ 8;
}

-- `fuel` is for the search in the free list.
pub allocate_page : ℕ → PageTables → Run (ℕ × PageTables)
allocate_page fuel s = elim s.in_init [
  | true ↦
      if leb (page_size * 6) s.init_page_index then stopped else ok (init_page s, take_init_page s)
  | false ↦ do
    (physical, allocator) ← allocate fuel s.allocator 1
    page ← map_pages physical
    ok (page, record s { entries = clear_entries s page page_size; allocator = allocator })
]

abbrev pub get_level4_page : PageTables → ℕ
get_level4_page s = if s.in_init then s.cr3 else s.virtual_level4_address

-- getLinkedPage(entry, false)
unfoldable pub get_linked_page : PageTables → PageEntry → Run ℕ
get_linked_page s e = elim e.present [
  | true ↦ elim s.in_init [
    | true ↦ ok (e.enc_address * 2 ^ 12)
    | false ↦ map_pages (e.enc_address * 2 ^ 12)
  ]
  | false ↦ ok 0
]

-- The part of getPhysicalAddress after each call of getLinkedPage, by the level of the table that
-- the call answers.
pub physical_by_level1 : PageTables → ℕ → ℕ → Run ℕ
physical_by_level1 s v page =
    let e = s.entries (slot s page (level1 v)) in
    if page == 0
    then ok 0
    else if e.present
    then ok (bit_or (e.enc_address * 2 ^ 12) (in_page v))
    else ok 0

pub physical_by_level2 : PageTables → ℕ → ℕ → Run ℕ
physical_by_level2 s v page =
    let e = s.entries (slot s page (level2 v)) in
    if page == 0
    then ok 0
    else if e.big_page
    then ok (bit_or (bit_or (e.enc_address * 2 ^ 12) (in_page v)) (level1 v * 2 ^ 12))
    else get_linked_page s e >>= physical_by_level1 s v

unfoldable pub big_address : PageEntry → ℕ → ℕ
big_address e v =
    bit_or (bit_or (bit_or (e.enc_address * 2 ^ 12) (in_page v)) (level2 v * 2 ^ 21))
      (level1 v * 2 ^ 12)

pub physical_by_level3 : PageTables → ℕ → ℕ → Run ℕ
physical_by_level3 s v page =
    let e = s.entries (slot s page (level3 v)) in
    if page == 0
    then ok 0
    else if e.big_page
    then ok (big_address e v)
    else get_linked_page s e >>= physical_by_level2 s v

-- PageTable::getPhysicalAddress
pub get_physical_address : PageTables → ℕ → Run ℕ
get_physical_address s v =
    get_linked_page s (s.entries (slot s (get_level4_page s) (level4 v))) >>= physical_by_level3 s v

-- The branch of getLinkedPage(entry, true) for an entry that is not present.
pub link_new_page : ℕ → PageTables → ℕ → Run (ℕ × PageTables)
link_new_page fuel s at = do
  (new, t) ← allocate_page fuel s
  let page = new / page_size * page_size
  physical ← get_physical_address t page
  let u = record t { entries = clear_entries t page page_size }
  ok (page, set_entry u at (table_entry physical))

-- getLinkedPage(entry, true), for the entry at `at`
pub link_page : ℕ → PageTables → ℕ → Run (ℕ × PageTables)
link_page fuel s at = elim (s.entries at).present [
  | true ↦ do page ← get_linked_page s (s.entries at); ok (page, s)
  | false ↦ link_new_page fuel s at
]

pub init_loop : ℕ → (ℕ → PageEntry) → ℕ → ℕ → ℕ → PageEntry
init_loop zero m place i = m
init_loop (suc left) m place i =
    init_loop left (update m (place + 8 * i) (gi_entry i)) place (i + 1)

-- The state before `init` links the table, and the one that its loop leaves.
abbrev pub begin_init : PageTables → PageTables
begin_init s =
    let t = record s { in_init = true; virtual_level4_address = add64 s.cr3 window } in
    record t { entries = clear_entries t s.init_page_buffer (page_size * 6) }

abbrev pub end_init : PageTables → ℕ → PageTables
end_init s page = record s {
  entries = init_loop 512 s.entries (physical_place s page) 0;
  in_init = false;
}

-- PageTable::init
pub init : ℕ → PageTables → Run PageTables
init fuel s = do
  let t = begin_init s
  (page, u) ← link_page fuel t (slot t s.cr3 (level4 (ti 96)))
  ok (end_init u page)

-- PageTable::map
pub map_page : ℕ → PageTables → ℕ → ℕ → MapOption → Run PageTables
map_page fuel s0 physical v option = do
  (page3, s1) ← link_page fuel s0 (slot s0 (get_level4_page s0) (level4 v))
  (page2, s2) ← link_page fuel s1 (slot s1 page3 (level3 v))
  (page1, s3) ← link_page fuel s2 (slot s2 page2 (level2 v))
  ok (set_entry s3 (slot s3 page1 (level1 v)) (page_entry physical option))

-- The parts of PageTable::unmap, as those of getPhysicalAddress.
abbrev pub not_present : PageTables → ℕ → PageTables
not_present s at = set_entry s at (record (s.entries at) { present = false })

abbrev pub drop_big_page : PageTables → ℕ → PageTables
drop_big_page s at = elim (s.entries at).big_page [ true ↦ not_present s at | false ↦ s ]

pub unmap_by_level1 : PageTables → ℕ → ℕ → Run PageTables
unmap_by_level1 s v page = if page == 0 then ok s else ok (not_present s (slot s page (level1 v)))

pub unmap_by_level2 : PageTables → ℕ → ℕ → Run PageTables
unmap_by_level2 s v page =
    let t = drop_big_page s (slot s page (level2 v)) in
    if page == 0
    then ok s
    else get_linked_page t (t.entries (slot s page (level2 v))) >>= unmap_by_level1 t v

pub unmap_by_level3 : PageTables → ℕ → ℕ → Run PageTables
unmap_by_level3 s v page =
    let t = drop_big_page s (slot s page (level3 v)) in
    if page == 0
    then ok s
    else get_linked_page t (t.entries (slot s page (level3 v))) >>= unmap_by_level2 t v

-- PageTable::unmap
pub unmap : PageTables → ℕ → Run PageTables
unmap s v =
    get_linked_page s (s.entries (slot s (get_level4_page s) (level4 v))) >>= unmap_by_level3 s v
