-- ===== src/Memory/Physical.antt =====
-- src/Memory/physicalAllocator.cpp: a free list of page regions, whose descriptors stand in the
-- regions themselves. `mem` is the descriptor that a pointer reads.
pub mod FreeList
pub mod Allocate
pub mod Free
pub mod Connect
pub mod Scan
pub mod Release
pub mod Gap
pub mod Startup
mod Tests
use crack_os.Base.{
  ℕ, zero, suc, ◌+◌, ◌-◌, ◌*◌, ◌/◌, ◌<◌, Bool, true, false, ◌&&◌, Option, none, some,
}
use crack_os.Base.{ltb, leb, ◌==◌, if◌then◌else◌, add64, sub64, mul64}
use crack_os.Base.{Run, ok, stopped, out_of_fuel, ◌>>=◌, update}
use crack_os.Memory.{page_size, gi, ti}

pub data RegionType : Type 0 where
  unclaimed unusable_memory acpi_table claimed ignore : RegionType

-- MemoryRegionDescriptor
pub record Region : Type 0 where
  pub start_page_index : ℕ
  pub page_count : ℕ
  pub type : RegionType
  pub next_physical_address : ℕ

-- The descriptors in memory, and the file's static variables.
pub record Allocator : Type 0 where
  pub mem : ℕ → Region
  pub max_address : ℕ
  pub total_memory_size : ℕ
  pub used_memory_size : ℕ
  pub unusable_region_count : ℕ
  pub usable_regions_count : ℕ

-- Where TempMemory::mapPages shows physical memory, and where the first descriptor stands.
abbrev pub window : ℕ
window = ti 96

-- TempMemory::mapPages(physicalAddress, 1, false)
unfoldable pub map_pages : ℕ → Run ℕ
map_pages physical = if ltb physical (gi 512) then ok (physical + ti 32 + ti 64) else stopped

-- PageTable::getPhysicalAddress at an address of that window
abbrev pub physical_of : ℕ → ℕ
physical_of virtual = virtual - window

unfoldable pub set_next : (ℕ → Region) → ℕ → ℕ → ℕ → Region
set_next m p next = update m p (record (m p) { next_physical_address = next })

unfoldable pub set_count : (ℕ → Region) → ℕ → ℕ → ℕ → Region
set_count m p count = update m p (record (m p) { page_count = count })

-- The body of the branch that found a region: the pages come from its back, and a region that is
-- used up leaves the list.
pub take_pages : Allocator → ℕ → ℕ → ℕ → ℕ × Allocator
take_pages s count last region =
    let left = sub64 (s.mem region).page_count count in
    let page = add64 (s.mem region).start_page_index left in
    let shrunk = set_count s.mem region left in
    let next = (s.mem region).next_physical_address in
    let mem = if left == 0 then set_next (set_next shrunk last next) region 0 else shrunk in
    (
      mul64 page page_size,
      record s { mem = mem; used_memory_size = add64 s.used_memory_size count },
    )

pub allocate_from : ℕ → Allocator → ℕ → ℕ → ℕ → Run (ℕ × Allocator)
allocate_from zero s count last region = out_of_fuel
allocate_from (suc fuel) s count last region = elim ((s.mem region).next_physical_address == 0) [
  | true ↦ stopped
  | false ↦ elim (leb count (s.mem region).page_count) [
    | true ↦ ok (take_pages s count last region)
    | false ↦ do
      next ← map_pages (s.mem region).next_physical_address
      allocate_from fuel s count region next
  ]
]

-- PhysicalAllocator::allocatePhysicalMemory
pub allocate : ℕ → Allocator → ℕ → Run (ℕ × Allocator)
allocate fuel s count = do
  first ← map_pages (s.mem window).next_physical_address
  allocate_from fuel s count window first

-- The test on the pages at `page` that both loops of `free` make.
abbrev pub touches : ℕ → ℕ → Region → Bool
touches page count r =
    leb page (add64 r.start_page_index r.page_count) && leb r.start_page_index (add64 page count)

-- The loop over region[1] to region[unusableRegionCount], `left` of them still to come; a
-- descriptor has 32 bytes.
pub is_unusable : ℕ → (ℕ → Region) → ℕ → ℕ → ℕ → Bool
is_unusable zero mem page count i = false
is_unusable (suc left) mem page count i = elim (touches page count (mem (window + 32 * i))) [
  | true ↦ true
  | false ↦ is_unusable left mem page count (i + 1)
]

abbrev pub new_region : ℕ → ℕ → ℕ → Region
new_region page count next = record {
  start_page_index = page;
  page_count = count;
  type = unclaimed;
  next_physical_address = next;
}

-- Whether the pages go in between `last` and `region`.
abbrev pub fits_between : ℕ → ℕ → Region → Region → Bool
fits_between page count last region =
    ltb (add64 last.start_page_index last.page_count) page
    && ltb (add64 page count) (add64 region.start_page_index region.page_count)

pub insert_between : (ℕ → Region) → ℕ → ℕ → ℕ → ℕ → ℕ → ℕ → Region
insert_between mem page count new last region =
    set_next (update mem new (new_region page count (physical_of region))) last
      (mul64 page page_size)

-- The first loop of `free`. `none`: the pages touch a free region, and `free` returns at once.
pub free_scan : ℕ → (ℕ → Region) → ℕ → ℕ → Option ℕ → ℕ → Run (Option (ℕ → Region))
free_scan zero mem page count last region = out_of_fuel
free_scan (suc fuel) mem page count last region =
    let onward = map_pages (mem region).next_physical_address >>= λ next.
    free_scan fuel mem page count (some region) next in
    if (mem region).next_physical_address == 0
    then ok (some mem)
    else if touches page count (mem region)
    then ok none
    else elim last [
      | none ↦ onward
      | some l ↦
          if fits_between page count (mem l) (mem region)
          then (do
            new ← map_pages (mul64 page page_size)
            ok (some (insert_between mem page count new l region)))
          else onward
    ]

-- The body of the branch of `connect` that joins `region` to `last`.
pub join : (ℕ → Region) → ℕ → ℕ → ℕ → Region
join mem last region =
    let next = (mem region).next_physical_address in
    let grown = set_count mem last (add64 (mem last).page_count (mem region).page_count) in
    set_next (set_next grown last next) region 0

abbrev pub is_adjacent : Region → Region → Bool
is_adjacent last region =
    add64 (add64 last.start_page_index last.page_count) 1 == region.start_page_index

-- The second loop of `free`: connect adjacent regions.
pub connect : ℕ → (ℕ → Region) → Option ℕ → ℕ → Run (ℕ → Region)
connect zero mem last region = out_of_fuel
connect (suc fuel) mem last region =
    let onward = map_pages (mem region).next_physical_address >>= λ next.
    connect fuel mem (some region) next in
    if (mem region).next_physical_address == 0 then ok mem else elim last [
      | none ↦ onward
      | some l ↦
          if is_adjacent (mem l) (mem region)
          then (do
            next ← map_pages (join mem l region l).next_physical_address
            connect fuel (join mem l region) (some l) next)
          else onward
    ]

-- What follows the first loop.
pub after_scan : ℕ → Allocator → Option (ℕ → Region) → Run Allocator
after_scan fuel s none = ok s
after_scan fuel s (some mem) = do
  connected ← connect fuel mem none window
  ok (record s { mem = connected })

-- PhysicalAllocator::freePhysicalMemory
pub free : ℕ → Allocator → ℕ → ℕ → Run Allocator
unfolding after_scan
free fuel s address count =
    let page = address / page_size in
    if page == 0
    then ok s
    else if is_unusable s.unusable_region_count s.mem page count 1
    then ok s
    else do scanned ← free_scan fuel s.mem page count none window; after_scan fuel s scanned
