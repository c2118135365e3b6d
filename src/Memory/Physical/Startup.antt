-- ===== src/Memory/Physical/Startup.antt =====
-- The start-up of src/Memory/physicalAllocator.cpp: the memory map of the boot loader, the list of
-- free regions that it gives, and the removal of the pages of the kernel from it.
use crack_os.Base.{ℕ, zero, suc, ◌+◌, ◌-◌, ◌/◌, ◌%◌, ◌^◌, true, false, ◌&&◌, ◌||◌, List, [], ◌∷◌}
use crack_os.Base.{ltb, leb, ◌==◌, if◌then◌else◌, add64, sub64, mul64, update}
use crack_os.Base.{Run, ok, stopped, fault, out_of_fuel, ◌>>=◌}
use crack_os.Memory.{page_size}
use crack_os.Memory.Physical.{
  unclaimed, unusable_memory, acpi_table, ignore, Region, Allocator, window, map_pages, set_next,
  set_count,
}

-- MemoryData, an entry of the memory map.
pub record MemoryData : Type 0 where
  pub base_address : ℕ
  pub length : ℕ
  pub type : ℕ

-- MemoryTag and the entries behind it.
pub record MemoryTag : Type 0 where
  pub type : ℕ
  pub size : ℕ
  pub entry_size : ℕ
  pub entries : List MemoryData

-- The loop of readMemoryInfos, whose callback changes `s`. Behind the entries the map is not read.
pub read_entries : {S : Type 0} → ℕ → List MemoryData → (S → MemoryData → Run S) → S → Run S
read_entries zero entries callback s = ok s
read_entries (suc left) [] callback s = fault
read_entries (suc left) (e ∷ entries) callback s =
    callback s e >>= λ s'. read_entries left entries callback s'

-- readMemoryInfos; a division by 0 is a fault of the processor.
pub read_memory_infos : {S : Type 0} → MemoryTag → (S → MemoryData → Run S) → S → Run S
read_memory_infos tag callback s =
    if tag.type == 6
    then (if tag.entry_size == 0
        then fault
        else read_entries ((tag.size + 2 ^ 32 - 16) % 2 ^ 32 / tag.entry_size) tag.entries callback
            s)
    else stopped

-- The callback of getStaticData.
pub count_region : Allocator → MemoryData → Run Allocator
count_region s e =
    let end = add64 e.base_address e.length in
    if e.type == 1
    then ok (record s {
      total_memory_size = add64 s.total_memory_size e.length;
      max_address = if ltb s.max_address end then end else s.max_address;
      usable_regions_count = add64 s.usable_regions_count 1;
    })
    else ok (record s { unusable_region_count = add64 s.unusable_region_count 1 })

pub get_static_data : MemoryTag → Allocator → Run Allocator
get_static_data tag s = read_memory_infos tag count_region (record s {
  total_memory_size = 0;
  used_memory_size = 0;
  max_address = 0;
  unusable_region_count = 0;
  usable_regions_count = 0;
})

-- sizeof(MemoryRegionDescriptor)
abbrev descriptor_size : ℕ
descriptor_size = 32

-- The first callback of initMemoryInfos, with Context1: it writes a descriptor of memory that is not
-- usable and moves on to the next one.
pub note_unusable : (ℕ → Region) × ℕ → MemoryData → Run ((ℕ → Region) × ℕ)
note_unusable (m, regions) e =
    if e.type == 1
    then ok (m, regions)
    else ok (
      update m regions (record (m regions) {
        type = if e.type == 3 then acpi_table else unusable_memory;
        start_page_index = e.base_address / page_size;
        page_count = e.length / page_size;
      }),
      regions + descriptor_size,
    )

-- The second callback, with Context2: it writes a descriptor of free memory into its first page and
-- puts it behind the last one.
pub note_usable : (ℕ → Region) × ℕ → MemoryData → Run ((ℕ → Region) × ℕ)
note_usable (m, last) e =
    let base = if e.base_address == 0 then add64 e.base_address page_size else e.base_address in
    let size = if e.base_address == 0 then sub64 e.length page_size else e.length in
    if e.type == 1
    then (map_pages base >>= λ descriptor.
        let m1 : ℕ → Region = update m descriptor (record {
          start_page_index = base / page_size;
          page_count = size / page_size;
          type = unclaimed;
          next_physical_address = 0;
        }) in
        ok (set_next m1 last base, descriptor))
    else ok (m, last)

pub init_memory_infos : MemoryTag → Allocator → Run Allocator
init_memory_infos tag s =
    let first : Region = record {
      start_page_index = 0;
      page_count = 0;
      type = ignore;
      next_physical_address = 0;
    } in
    if ltb page_size (mul64 descriptor_size (add64 s.unusable_region_count 1))
    then stopped
    else (map_pages 0 >>= λ page.
        read_memory_infos tag note_unusable (update s.mem page first, page + descriptor_size)
        >>= λ noted. read_memory_infos tag note_usable (noted.0, page) >>= λ linked.
            ok (record s { mem = linked.0 }))

-- The descriptor of the pages from `a2` to `b2`, in the first of them.
pub new_tail : (ℕ → Region) → ℕ → ℕ → ℕ → ℕ → ℕ → Region
new_tail m region at a2 b2 = update m at (record {
  start_page_index = a2;
  page_count = sub64 b2 a2;
  type = (m region).type;
  next_physical_address = (m region).next_physical_address;
})

-- The cases of the loop of setUsed for one region: memory, the next `last`, and the next address to
-- map.
pub use_region : (ℕ → Region) → ℕ → ℕ → ℕ → ℕ → Run ((ℕ → Region) × ℕ × ℕ)
use_region m a1 a2 last region =
    let b1 = (m region).start_page_index in
    let b2 = add64 (m region).start_page_index (m region).page_count in
    let next = (m region).next_physical_address in
    if leb a2 b1 || leb b2 a1
    then ok (m, region, next)
    else if leb a1 b1 && leb b2 a2
    then ok (set_next m last next, last, next)
    else if leb a1 b1
    then (map_pages (mul64 a2 page_size) >>= λ at.
        ok (set_next (new_tail m region at a2 b2) last (mul64 a2 page_size), at, next))
    else if leb b2 a2
    then ok (set_count m region (sub64 a1 b1), region, next)
    else (map_pages (mul64 a2 page_size) >>= λ at.
        let m1 : ℕ → Region = new_tail (set_count m region (sub64 a1 b1)) region at a2 b2 in
        ok (set_next m1 region (mul64 a2 page_size), region, mul64 a2 page_size))

-- The loop of setUsed.
pub use_from : ℕ → (ℕ → Region) → ℕ → ℕ → ℕ → ℕ → Run (ℕ → Region)
use_from zero m a1 a2 last region = out_of_fuel
use_from (suc fuel) m a1 a2 last region = elim (region == window) [
  | true ↦ ok m
  | false ↦ do
    r ← use_region m a1 a2 last region
    next ← map_pages r.2
    use_from fuel r.0 a1 a2 r.1 next
]

pub set_used : ℕ → (ℕ → Region) → ℕ → ℕ → Run (ℕ → Region)
set_used fuel m start length = do
  first ← map_pages 0
  region ← map_pages (m first).next_physical_address
  use_from fuel m (start / page_size)
      (add64 (sub64 (add64 (add64 start length) page_size) 1 / page_size) 1) first region

-- PhysicalAllocator::readMultibootInfos, with the symbols of the linker.
pub read_multiboot_infos : ℕ → MemoryTag → Allocator → ℕ → ℕ → ℕ → ℕ → Run Allocator
read_multiboot_infos fuel tag s kernel_start kernel_end trampoline_start trampoline_end = do
  s1 ← get_static_data tag s
  s2 ← init_memory_infos tag s1
  m1 ← set_used fuel s2.mem kernel_start (sub64 kernel_end kernel_start)
  m2 ← set_used fuel m1 trampoline_start (sub64 trampoline_end trampoline_start)
  ok (record s2 { mem = m2 })
