-- ===== src/Memory/PageTable/Window.antt =====
-- PageTable::init of src/Memory/pageTable.cpp: the window of TempMemory.
use crack_os.Base.{
  ℕ, zero, suc, ◌+◌, ◌-◌, ◌*◌, ◌/◌, ◌%◌, ◌^◌, ◌<◌, ◌≤◌, ◌≡◌, ◌≢◌, ◌⊎◌, inl, refl, arith, ap, sym,
  ◌∙◌, true, false,
}
use native.Mathlib.Decide.{ℕ_discrete}
use crack_os.Base.{◌==◌, leb, add64, Run, ok, ◌>>=◌, update, update_self, update_ne}
use Prim.Native.Nat.{bit_or}
use crack_os.Memory.{page_size, gi, ti}
use crack_os.Memory.Physical.{map_pages, window}
use crack_os.Memory.PageTable.{
  PageTables, slot, get_linked_page, physical_by_level3, big_address, get_physical_address,
  link_page, link_new_page, allocate_page, init_loop, begin_init, end_init, take_init_page,
  init_page, init, set_entry, clear_entries, physical_place,
}
use crack_os.Memory.PageEntry.{
  PageEntry, table_entry, gi_entry, level4, level3, level2, level1, in_page,
}
use crack_os.Memory.PageTable.Digits.{bit_or_page}

map_pages_low : (a : ℕ) → a < gi 512 → map_pages a ≡ ok (a + window)
unfolding map_pages
map_pages_low a h = ground arith

-- The loop writes the entries from `i` on, and nothing else.
init_loop_before :
    (left : ℕ) (m : ℕ → PageEntry) (place i q : ℕ)
    → (q < place + 8 * i) ⊎ (place + 8 * (i + left) ≤ q)
    → init_loop left m place i q ≡ m q
unfolding init_loop
init_loop_before zero m place i q h = refl
init_loop_before (suc left) m place i q h =
    init_loop_before left (update m (place + 8 * i) (gi_entry i)) place (i + 1) q (grind arith)
    ∙ update_ne m (place + 8 * i) (gi_entry i) q (λ e. grind arith)

init_loop_entry :
    (left : ℕ) (m : ℕ → PageEntry) (place i j : ℕ)
    → i ≤ j
    → j < i + left
    → init_loop left m place i (place + 8 * j) ≡ gi_entry j
unfolding init_loop
init_loop_entry zero m place i j h k = absurd (omega arith)
init_loop_entry (suc left) m place i j h k = elim (ℕ_discrete j i) [
  | yes here ↦
      init_loop_before left (update m (place + 8 * i) (gi_entry i)) place (i + 1) (place + 8 * j)
        (inl (omega arith))
      ∙ ap (λ (n : ℕ). update m (place + 8 * i) (gi_entry i) (place + 8 * n)) here
      ∙ update_self m (place + 8 * i) (gi_entry i)
      ∙ ap gi_entry (sym here)
  | no later ↦
      init_loop_entry left (update m (place + 8 * i) (gi_entry i)) place (i + 1) j (omega arith)
        (omega arith)
]

gi_page : (p : ℕ) → p < gi 512 → big_address (gi_entry (level3 (p + ti 96))) (p + ti 96) ≡ p
unfolding big_address
gi_page p h =
    let v = p + ti 96 in
    ap (λ (t : ℕ). bit_or (bit_or (bit_or t (in_page v)) (level2 v * 2 ^ 21)) (level1 v * 2 ^ 12))
      (omega arith)
    ∙ bit_or_page (level3 v) (level2 v) (level1 v) (in_page v) (omega arith) (omega arith)
        (omega arith)
    ∙ omega arith

-- A call that links a new table, when it finds a page and that page is mapped.
link_page-new :
    (fuel : ℕ) (s : PageTables) (at new : ℕ) (t : PageTables) (physical : ℕ)
    → (s.entries at).present ≡ false
    → allocate_page fuel s ≡ ok (new, t)
    → get_physical_address t (new / page_size * page_size) ≡ ok physical
    → link_page fuel s at
      ≡ ok (
        new / page_size * page_size,
        set_entry
            (record t { entries = clear_entries t (new / page_size * page_size) page_size })
            at
            (table_entry physical),
      )
unfolding link_page link_new_page
link_page-new fuel s at new t physical h page mapped =
    rw (h, link_page) (rw (page, mapped, link_new_page) refl)

-- An entry of the third level that is a page.
physical_by_level3-page :
    (s : PageTables) (v page : ℕ) (e : PageEntry)
    → page ≢ 0
    → s.entries (slot s page (level3 v)) ≡ e
    → e.big_page ≡ true
    → physical_by_level3 s v page ≡ ok (big_address e v)
unfolding physical_by_level3
physical_by_level3-page s v page e h found big =
    let some_page : (page == 0) ≡ false = ground arith in
    rw (some_page, found, big, physical_by_level3) refl

get_linked_page-table :
    (s : PageTables) (physical : ℕ)
    → s.in_init ≡ false
    → physical % page_size ≡ 0
    → physical < gi 512
    → get_linked_page s (table_entry physical) ≡ ok (physical + window)
unfolding get_linked_page
get_linked_page-table s physical late aligned low =
    let e : physical / 2 ^ 12 % 2 ^ 36 * 2 ^ 12 ≡ physical = omega arith in
    rw late (rw e (map_pages_low physical low))

-- The physical address of the buffer for the first tables, which is the kernel's data.
abbrev pub buffer_place : PageTables → ℕ
buffer_place s = s.init_page_buffer - s.kernel_offset

-- The state in which `init` is called: one of the boot loader's tables, its entry for 96 TiB not
-- in use, and the buffer for the first tables at a kernel address, from 64 TiB on, that they map.
pub record IsBooted (s : PageTables) : Type 0 where
  pub index : s.init_page_index ≡ 0
  pub aligned : s.init_page_buffer % page_size ≡ 0
  pub place_aligned : buffer_place s % page_size ≡ 0
  pub high : ti 64 ≤ s.init_page_buffer
  pub below : buffer_place s + 6 * page_size ≤ gi 512
  pub root_below : s.cr3 < gi 512
  pub unused : (s.entries (s.cr3 + 8 * 192)).present ≡ false
  pub apart :
      (s.cr3 + 8 * 192 < buffer_place s) ⊎ (buffer_place s + 6 * page_size ≤ s.cr3 + 8 * 192)
  pub mapped :
      get_physical_address (take_init_page (begin_init s)) s.init_page_buffer ≡ ok (buffer_place s)

module _ (s : PageTables) (boot : IsBooted s) where
  abbrev taken : PageTables
  taken = take_init_page (begin_init s)

  abbrev linked : PageTables
  linked =
      set_entry (record taken { entries = clear_entries taken s.init_page_buffer page_size })
        (s.cr3 + 8 * 192) (table_entry (buffer_place s))

  page_start : init_page (begin_init s) / page_size * page_size ≡ s.init_page_buffer
  page_start = let e = boot.index in let a = boot.aligned in omega arith

  first_page : (fuel : ℕ) → allocate_page fuel (begin_init s) ≡ ok (init_page (begin_init s), taken)
  unfolding allocate_page
  first_page fuel = rw (boot.index) refl

  high_buffer : leb (ti 64) s.init_page_buffer ≡ true
  high_buffer = let h = boot.high in ground arith

  low_root : leb (ti 64) s.cr3 ≡ false
  low_root = let h = boot.root_below in ground arith

  same_root : (begin_init s).entries (s.cr3 + 8 * 192) ≡ s.entries (s.cr3 + 8 * 192)
  same_root = let h = boot.apart in let e = high_buffer in ground arith

  link_lem :
      (fuel : ℕ) → link_page fuel (begin_init s) (s.cr3 + 8 * 192) ≡ ok (s.init_page_buffer, linked)
  link_lem fuel =
      link_page-new fuel (begin_init s) (s.cr3 + 8 * 192) (init_page (begin_init s)) taken
        (buffer_place s) (ap (λ (e : PageEntry). e.present) same_root ∙ boot.unused)
        (first_page fuel) (ap (get_physical_address taken) page_start ∙ boot.mapped)
      ∙ ap
          (λ (p : ℕ). ok (
            p,
            set_entry (record taken { entries = clear_entries taken p page_size }) (s.cr3 + 8 * 192)
                (table_entry (buffer_place s)),
          ))
          page_start

  begin_place : slot (begin_init s) s.cr3 (level4 (ti 96)) ≡ s.cr3 + 8 * 192
  begin_place = let e = low_root in ground arith

  init_lem : (fuel : ℕ) → init fuel s ≡ ok (end_init linked s.init_page_buffer)
  unfolding init
  init_lem fuel =
      ap (λ (n : ℕ). link_page fuel (begin_init s) n >>= λ r. ok (end_init r.1 r.0)) begin_place
      ∙ ap (λ (r : Run (ℕ × PageTables)). r >>= λ q. ok (end_init q.1 q.0)) (link_lem fuel)

  linked_place : physical_place linked s.init_page_buffer ≡ buffer_place s
  linked_place = let e = high_buffer in ground arith

  filled :
      (q : ℕ)
      → (end_init linked s.init_page_buffer).entries q
        ≡ init_loop 512 linked.entries (buffer_place s) 0 q
  filled q = ap (λ (n : ℕ). init_loop 512 linked.entries n 0 q) linked_place

  root_found :
      (end_init linked s.init_page_buffer).entries (s.cr3 + 8 * 192) ≡ table_entry (buffer_place s)
  root_found =
      filled (s.cr3 + 8 * 192)
      ∙ init_loop_before 512 linked.entries (buffer_place s) 0 (s.cr3 + 8 * 192)
          (let h = boot.apart in ground arith)
      ∙ update_self (clear_entries taken s.init_page_buffer page_size) (s.cr3 + 8 * 192)
          (table_entry (buffer_place s))

  root_place :
      (p : ℕ) → p < gi 512 → add64 s.cr3 window - window + 8 * level4 (p + window) ≡ s.cr3 + 8 * 192
  root_place p h = let r = boot.root_below in omega arith

  page_found :
      (p : ℕ)
      → p < gi 512
      → (end_init linked s.init_page_buffer).entries
          (buffer_place s + window - window + 8 * level3 (p + window))
        ≡ gi_entry (level3 (p + window))
  page_found p h =
      filled (buffer_place s + window - window + 8 * level3 (p + window))
      ∙ ap
          (λ (n : ℕ). init_loop 512 linked.entries (buffer_place s) 0 (n + 8 * level3 (p + window)))
          (omega arith)
      ∙ init_loop_entry 512 linked.entries (buffer_place s) 0 (level3 (p + window)) (omega arith)
          (omega arith)

  -- `init` succeeds, and then the 512 GiB from 96 TiB on are mapped to the physical memory below
  -- 512 GiB. It is called with the boot loader's tables: their root lies below 512 GiB, its entry for
  -- 96 TiB is not in use, and they map pagingInitPageBuffer, at a kernel address from 64 TiB on, to
  -- its place in physical memory, below 512 GiB and apart from that entry.
  pub init-window :
      (fuel : ℕ)
      → (t : PageTables) × (init fuel s ≡ ok t)
        × ((p : ℕ) → p < gi 512 → get_physical_address t (p + window) ≡ ok p)
  unfolding get_physical_address
  init-window fuel =
      let t = end_init linked s.init_page_buffer in
      (
        t,
        init_lem fuel,
        λ p h.
            ap (λ (n : ℕ). get_linked_page t (t.entries n) >>= physical_by_level3 t (p + window))
              (root_place p h)
            ∙ ap (λ (e : PageEntry). get_linked_page t e >>= physical_by_level3 t (p + window))
                root_found
            ∙ ap (λ (r : Run ℕ). r >>= physical_by_level3 t (p + window))
                (get_linked_page-table t (buffer_place s) refl boot.place_aligned
                  (let b = boot.below in omega arith))
            ∙ physical_by_level3-page t (p + window) (buffer_place s + window)
                (gi_entry (level3 (p + window))) (omega arith) (page_found p h) refl
            ∙ ap ok (gi_page p h),
      )
