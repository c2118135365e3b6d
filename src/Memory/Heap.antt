-- ===== src/Memory/Heap.antt =====
-- src/Memory/heap.cpp: the kernel's heap, a list of blocks whose headers stand before them. `blocks`
-- is the header that a pointer reads.
pub mod Links
pub mod Freed
pub mod Placed
mod Tests
use crack_os.Base.{
  ℕ, zero, suc, ◌+◌, ◌-◌, ◌*◌, ◌/◌, ◌%◌, ◌^◌, Bool, true, false, not, ◌&&◌, Option, none, some,
}
use crack_os.Base.{ltb, leb, ◌==◌, if◌then◌else◌, add64, sub64, mul64}
use crack_os.Base.{Run, ok, out_of_fuel, ◌>>=◌, update}
use crack_os.Memory.{page_size, ti}
use crack_os.Memory.Physical.{allocate, free}
use crack_os.Memory.PageTable.{PageTables, map_page}
use crack_os.Memory.PageEntry.{MapOption}

pub record PointerData : Type 0 where
  pub size : ℕ
  pub next_virtual : ℕ
  pub prev_virtual : ℕ

-- The headers, the address of `dummy`, and the page tables with the physical allocator.
pub record Heap : Type 0 where
  pub blocks : ℕ → PointerData
  pub dummy : ℕ
  pub tables : PageTables

abbrev pub kernel_heap_start : ℕ
kernel_heap_start = ti 80

-- sizeof(PointerData)
abbrev pub header_size : ℕ
header_size = 24

-- a & ~(pageSize - 1)
abbrev pub page_base : ℕ → ℕ
page_base a = a / page_size * page_size

abbrev pub end_of : (ℕ → PointerData) → ℕ → ℕ
end_of blocks block = add64 block (blocks block).size

pub init_heap : Heap → Heap
init_heap h = record h {
  blocks =
      update h.blocks h.dummy (record { size = header_size; next_virtual = 0; prev_virtual = 0 });
}

-- The writes to the neighbours of a block, if they are there.
unfoldable pub with_prev : (ℕ → PointerData) → ℕ → ℕ → ℕ → PointerData
with_prev blocks p prev =
    if p == 0 then blocks else update blocks p (record (blocks p) { prev_virtual = prev })

unfoldable pub with_next : (ℕ → PointerData) → ℕ → ℕ → ℕ → PointerData
with_next blocks p next =
    if p == 0 then blocks else update blocks p (record (blocks p) { next_virtual = next })

abbrev pub put_next : (ℕ → PointerData) → ℕ → ℕ → ℕ → PointerData
put_next blocks p next = update blocks p (record (blocks p) { next_virtual = next })

-- A new header at `new` behind the one at `block`; at the end of the list there is no next one.
pub link_block : (ℕ → PointerData) → ℕ → ℕ → ℕ → ℕ → PointerData
link_block blocks block new size =
    let next = (blocks block).next_virtual in
    let header : PointerData = record { size = size; next_virtual = next; prev_virtual = block } in
    put_next (with_prev (update blocks new header) next new) block new

-- Whether a small block fits behind the one at `block`, in the page where that one ends.
pub fits_behind : (ℕ → PointerData) → ℕ → ℕ → Bool
fits_behind blocks real_size block =
    let next = (blocks block).next_virtual in
    let end_page = page_base (end_of blocks block) in
    leb real_size (page_size / 2)
    && not (ltb end_page next && ltb next (add64 end_page page_size))
    && ltb real_size (sub64 (add64 end_page page_size) (end_of blocks block))

-- The first loop of kmalloc: the block behind which the new one fits.
pub fit_loop : ℕ → (ℕ → PointerData) → ℕ → ℕ → Run (Option ℕ)
fit_loop zero blocks real_size block = out_of_fuel
fit_loop (suc fuel) blocks real_size block =
    let next = (blocks block).next_virtual in
    elim (next == 0) [
      | true ↦ ok none
      | false ↦ elim (fits_behind blocks real_size next) [
        | true ↦ ok (some next)
        | false ↦ fit_loop fuel blocks real_size next
      ]
    ]

-- The first page behind the block at `block`, and the pages from there to the next block.
abbrev pub page_behind : (ℕ → PointerData) → ℕ → ℕ
page_behind blocks block = add64 (end_of blocks block) (page_size - 1) / page_size

abbrev pub unused_pages : (ℕ → PointerData) → ℕ → ℕ
unused_pages blocks block =
    sub64 ((blocks block).next_virtual / page_size) (page_behind blocks block)

-- The second loop of kmalloc: the block behind which there are `count` unused pages, or the last
-- one, and whether the first was found.
pub gap_loop : ℕ → (ℕ → PointerData) → ℕ → ℕ → Run (ℕ × Bool)
gap_loop zero blocks count block = out_of_fuel
gap_loop (suc fuel) blocks count block =
    let next = (blocks block).next_virtual in
    elim (next == 0) [
      | true ↦ ok (block, false)
      | false ↦ elim ((blocks next).next_virtual == 0) [
        | true ↦ ok (next, false)
        | false ↦ elim (leb count (unused_pages blocks next)) [
          | true ↦ ok (next, true)
          | false ↦ gap_loop fuel blocks count next
        ]
      ]
    ]

abbrev pub heap_option : MapOption
heap_option = record {
  writable = true;
  user_available = false;
  through = false;
  uncached = false;
  no_execute = false;
}

pub map_heap_pages : ℕ → ℕ → PageTables → ℕ → ℕ → ℕ → Run PageTables
map_heap_pages fuel zero s physical base i = ok s
map_heap_pages fuel (suc left) s physical base i = do
  t ← map_page fuel s (add64 physical (i * page_size)) (add64 base (i * page_size)) heap_option
  map_heap_pages fuel left t physical base (i + 1)

-- The address of the new pages.
abbrev pub virtual_base : Heap → ℕ → Bool → ℕ
virtual_base h block found =
    if found
    then mul64 (page_behind h.blocks block) page_size
    else if block == h.dummy
    then kernel_heap_start
    else page_base (add64 (end_of h.blocks block) (page_size - 1))

-- The rest of kmalloc after the pages are allocated.
pub place_block : ℕ → Heap → ℕ → ℕ → Run (ℕ × Heap)
place_block fuel h real_size physical = do
  let count = add64 real_size (page_size - 1) / page_size
  (block, found) ← gap_loop fuel h.blocks count h.dummy
  let base = virtual_base h block found
  tables ← map_heap_pages fuel count h.tables physical base 0
  ok (
    add64 base header_size,
    record h { blocks = link_block h.blocks block base real_size; tables = tables },
  )

-- kmalloc after its first loop has found no place.
pub allocate_block : ℕ → Heap → ℕ → Run (ℕ × Heap)
allocate_block fuel h real_size = do
  let count = add64 real_size (page_size - 1) / page_size
  (physical, allocator) ← allocate fuel h.tables.allocator count
  let s = record h { tables = record h.tables { allocator = allocator } }
  elim (physical == 2 ^ 64 - 1) [ true ↦ ok (0, s) | false ↦ place_block fuel s real_size physical ]

pub kmalloc : ℕ → Heap → ℕ → Run (ℕ × Heap)
kmalloc fuel h requested_size = do
  let real_size = add64 requested_size header_size
  place ← fit_loop fuel h.blocks real_size h.dummy
  elim place [
    | some block ↦
        let new = end_of h.blocks block in
        ok (add64 new header_size, record h { blocks = link_block h.blocks block new real_size })
    | none ↦ allocate_block fuel h real_size
  ]

-- The block at `block` leaves the list.
pub unlink_block : (ℕ → PointerData) → ℕ → ℕ → PointerData
unlink_block blocks block =
    let b1 = with_prev blocks (blocks block).next_virtual (blocks block).prev_virtual in
    let b2 = with_next b1 (b1 block).prev_virtual (b1 block).next_virtual in
    update b2 block (record (b2 block) { next_virtual = 0; prev_virtual = 0 })

abbrev pub extended_end : (ℕ → PointerData) → ℕ → ℕ
extended_end blocks block = add64 (page_base (end_of blocks block)) page_size

pub end_page_used : (ℕ → PointerData) → ℕ → Bool
end_page_used blocks block =
    let next = (blocks block).next_virtual in
    not (next == 0)
    && ltb next (extended_end blocks block)
    && leb (sub64 (extended_end blocks block) page_size) next

pub begin_page_used : (ℕ → PointerData) → ℕ → Bool
begin_page_used blocks block =
    let prev = (blocks block).prev_virtual in ltb prev (add64 block page_size) && leb block prev

-- What kfree hands to freePhysicalMemory: an address and a number of pages.
pub freed_pages : (ℕ → PointerData) → ℕ → Option (ℕ × ℕ)
freed_pages blocks block =
    let start = page_base block in
    let count = sub64 (extended_end blocks block) start / page_size in
    let begins = begin_page_used blocks block in
    let ends = end_page_used blocks block in
    if count == 1
    then (if not ends && not begins then some (start, 1) else none)
    else some (
      if begins then add64 start page_size else start,
      add64 (add64 (sub64 count 2) (if begins then 0 else 1)) (if ends then 0 else 1),
    )

pub free_pages : ℕ → Heap → Option (ℕ × ℕ) → Run Heap
free_pages fuel h none = ok h
free_pages fuel h (some (address, count)) = do
  allocator ← free fuel h.tables.allocator address count
  ok (record h { tables = record h.tables { allocator = allocator } })

pub kfree : ℕ → Heap → ℕ → Run Heap
kfree fuel h pointer =
    let block = sub64 pointer header_size in
    let freed = freed_pages h.blocks block in
    let unlinked = record h { blocks = unlink_block h.blocks block } in
    elim ((h.blocks block).next_virtual == 0 && (h.blocks block).prev_virtual == 0) [
      | true ↦ ok h
      | false ↦ free_pages fuel unlinked freed
    ]
