-- ===== src/Memory/Heap/Placed.antt =====
-- Where kmalloc of src/Memory/heap.cpp puts a block.
use crack_os.Base.{
  ℕ, suc, ◌+◌, ◌-◌, ◌*◌, ◌/◌, ◌%◌, ◌^◌, ◌<◌, ◌≤◌, ◌≡◌, ◌≢◌, arith, ap, true, false, some,
}
use crack_os.Base.{◌==◌, leb, add64, ok}
use crack_os.Memory.{page_size}
use crack_os.Memory.Heap.{
  PointerData, Heap, header_size, end_of, fits_behind, fit_loop, gap_loop, unused_pages,
  virtual_base, link_block, kmalloc,
}

fits_at_boundary :
    (blocks : ℕ → PointerData) (real_size block : ℕ)
    → real_size ≤ 2048
    → block + (blocks block).size < 2 ^ 63
    → (block + (blocks block).size) % page_size ≡ 0
    → (blocks block).next_virtual ≡ block + (blocks block).size
    → fits_behind blocks real_size block ≡ true
unfolding fits_behind
fits_at_boundary blocks real_size block few small boundary next = ground arith

fit_loop-first :
    (fuel : ℕ) (blocks : ℕ → PointerData) (real_size dummy block : ℕ)
    → (blocks dummy).next_virtual ≡ block
    → block ≢ 0
    → fits_behind blocks real_size block ≡ true
    → fit_loop (suc fuel) blocks real_size dummy ≡ ok (some block)
unfolding fit_loop
fit_loop-first fuel blocks real_size dummy block first some_block fits =
    let e : (block == 0) ≡ false = ground arith in
    rw (first, e, fit_loop) (rw (first, fits) (ap (λ (n : ℕ). ok (some n)) first))

-- A block that ends at a page boundary where the next one starts, the first of the list, makes
-- kmalloc return the memory of that next block, for a request of up to 2024 bytes.
pub kmalloc-next_block :
    (fuel : ℕ) (h : Heap) (requested_size block : ℕ)
    → requested_size ≤ 2024
    → (h.blocks h.dummy).next_virtual ≡ block
    → block ≢ 0
    → block + (h.blocks block).size < 2 ^ 63
    → (block + (h.blocks block).size) % page_size ≡ 0
    → (h.blocks block).next_virtual ≡ block + (h.blocks block).size
    → (after : Heap) × (kmalloc (suc fuel) h requested_size
        ≡ ok ((h.blocks block).next_virtual + header_size, after))
unfolding kmalloc
kmalloc-next_block fuel h requested_size block few first some_block small boundary next =
    let real_size = add64 requested_size header_size in
    let new = end_of h.blocks block in
    let after : Heap = record h { blocks = link_block h.blocks block new real_size } in
    let found =
      fit_loop-first fuel h.blocks real_size h.dummy block first some_block
        (fits_at_boundary h.blocks real_size block (omega arith) small boundary next) in
    (after, rw found (ap (λ (p : ℕ). ok (p, after)) (omega arith)))

gap_loop-first :
    (fuel : ℕ) (blocks : ℕ → PointerData) (count dummy block next : ℕ)
    → (blocks dummy).next_virtual ≡ block
    → (blocks block).next_virtual ≡ next
    → (block == 0) ≡ false
    → (next == 0) ≡ false
    → leb count (unused_pages blocks block) ≡ true
    → gap_loop (suc fuel) blocks count dummy ≡ ok (block, true)
unfolding gap_loop
gap_loop-first fuel blocks count dummy block next first second e e2 wide =
    rw (first, e, gap_loop)
      (rw (first, second, e2) (rw (first, wide) (ap (λ (n : ℕ). ok (n, true)) first)))

-- When the next block starts in the page where the first one ends, the second loop takes the pages
-- from the following one on for free, whatever stands there.
pub gap_loop-packed :
    (fuel : ℕ) (h : Heap) (count block next : ℕ)
    → (h.blocks h.dummy).next_virtual ≡ block
    → block ≢ 0
    → (h.blocks block).next_virtual ≡ next
    → next ≢ 0
    → block + (h.blocks block).size < 2 ^ 63
    → (block + (h.blocks block).size) % page_size ≢ 0
    → next / page_size ≡ (block + (h.blocks block).size) / page_size
    → count < 2 ^ 63
    → (gap_loop (suc fuel) h.blocks count h.dummy ≡ ok (block, true))
      × (virtual_base h block true ≡ (next / page_size + 1) * page_size)
gap_loop-packed fuel h count block next first some_block second some_next small inside same few =
    let e : (block == 0) ≡ false = ground arith in
    let e2 : (next == 0) ≡ false = ground arith in
    let wrapped : unused_pages h.blocks block ≡ 2 ^ 64 - 1 = omega arith in
    let wide : leb count (unused_pages h.blocks block) ≡ true = ground arith in
    (gap_loop-first fuel h.blocks count h.dummy block next first second e e2 wide, omega arith)
