-- ===== src/Memory/Heap/Freed.antt =====
-- The pages that kfree of src/Memory/heap.cpp means to give back. It hands their virtual address to
-- freePhysicalMemory.
use crack_os.Base.{refl, ℕ, ◌+◌, ◌*◌, ◌/◌, ◌^◌, ◌<◌, ◌≡◌, arith, true, false, some}
use crack_os.Base.{◌==◌, sub64}
use crack_os.Memory.{page_size}
use crack_os.Memory.Heap.{
  PointerData, page_base, extended_end, end_page_used, begin_page_used, freed_pages,
}

-- The start of a block's page is never found to be in use when the block before stands below it.
begin_page_used-below :
    (blocks : ℕ → PointerData) (block : ℕ)
    → (blocks block).prev_virtual < block
    → begin_page_used blocks block ≡ false
unfolding begin_page_used
begin_page_used-below blocks block h = ground arith

end_page_used-last :
    (blocks : ℕ → PointerData) (block : ℕ)
    → (blocks block).next_virtual ≡ 0
    → end_page_used blocks block ≡ false
unfolding end_page_used
end_page_used-last blocks block h = ground arith

-- The page of the last block of the list, which stands in one page and whose predecessor stands
-- at a lower address, is the one to give back, whatever else stands in that page.
pub freed_pages-shared_page :
    (blocks : ℕ → PointerData) (block : ℕ)
    → block + (blocks block).size < 2 ^ 63
    → (block + (blocks block).size) / page_size ≡ block / page_size
    → (blocks block).next_virtual ≡ 0
    → (blocks block).prev_virtual < block
    → freed_pages blocks block ≡ some (block / page_size * page_size, 1)
unfolding freed_pages
freed_pages-shared_page blocks block low one last h =
    let pages : sub64 (extended_end blocks block) (page_base block) / page_size ≡ 1 = omega arith in
    let count : (sub64 (extended_end blocks block) (page_base block) / page_size == 1) ≡ true =
      ground arith in
    rw
      (
        begin_page_used-below blocks block h,
        end_page_used-last blocks block last,
        count,
        freed_pages,
      )
      refl
