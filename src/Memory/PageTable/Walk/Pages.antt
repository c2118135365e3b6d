-- ===== src/Memory/PageTable/Walk/Pages.antt =====
-- What PageTable::map and unmap of src/Memory/pageTable.cpp do to the translation of addresses.
use Prim.Native.Nat.{bit_or}
use crack_os.Base.{ℕ, ◌+◌, ◌*◌, ◌/◌, ◌%◌, ◌^◌, ◌<◌, ◌≡◌, ◌≢◌, refl, arith, ap, sym, ◌∙◌, false}
use crack_os.Base.{ok, update, update_self, update_ne}
use crack_os.Memory.{page_size}
use crack_os.Memory.PageTable.{
  PageTables, get_physical_address, physical_by_level1, map_page, set_entry, unmap,
}
use crack_os.Memory.PageEntry.{
  PageEntry, MapOption, page_entry, level4, level3, level2, level1, in_page,
}
use crack_os.Memory.PageTable.Digits.{bit_or_low}
use crack_os.Memory.PageTable.Walk.{
  Walk, Aside, Walk-set_entry, map_page-Walk, unmap-Walk, get_physical_address-present,
  get_physical_address-absent, get_physical_address-Walk, leaf_slot,
}

same_level1 : (u v : ℕ) → u / page_size ≡ v / page_size → level1 u ≡ level1 v
same_level1 u v h = omega arith

-- The addresses of a page have the same tables.
Walk-page :
    (s : PageTables) (u v table3 table2 table1 : ℕ)
    → u / page_size ≡ v / page_size
    → Walk s v table3 table2 table1
    → Walk s u table3 table2 table1
Walk-page s u v table3 table2 table1 h w =
    let e4 : level4 u ≡ level4 v = omega arith in
    let e3 : level3 u ≡ level3 v = omega arith in
    let e2 : level2 u ≡ level2 v = omega arith in
    record { late = w.late; first = rw e4 w.first; second = rw e3 w.second; third = rw e2 w.third }

module _ (s : PageTables) (v table3 table2 table1 : ℕ) (w : Walk s v table3 table2 table1)
    (aside : Aside s v table3 table2 (table1 + 8 * level1 v)) where
  last_entry :
      (u : ℕ) (e : PageEntry)
      → u / page_size ≡ v / page_size
      → (set_entry s (table1 + 8 * level1 v) e).entries (table1 + 8 * level1 u) ≡ e
  last_entry u e h =
      ap (λ (i : ℕ). update s.entries (table1 + 8 * level1 v) e (table1 + 8 * i))
        (same_level1 u v h)
      ∙ update_self s.entries (table1 + 8 * level1 v) e

  Walk-after :
      (u : ℕ) (e : PageEntry)
      → u / page_size ≡ v / page_size
      → Walk (set_entry s (table1 + 8 * level1 v) e) u table3 table2 table1
  Walk-after u e h =
      Walk-page (set_entry s (table1 + 8 * level1 v) e) u v table3 table2 table1 h
        (Walk-set_entry s v table3 table2 table1 (table1 + 8 * level1 v) e aside w)

  -- After `init`, with the tables for an address there and the entry to write not one of those
  -- that lead to it, `map` succeeds, and then every address of the page has the physical address
  -- with the same offset in the page given, for a page below 2^48.
  pub map_page-get_physical_address :
      (fuel physical : ℕ) (option : MapOption)
      → physical < 2 ^ 48
      → (t : PageTables) × (map_page fuel s physical v option ≡ ok t)
        × ((u : ℕ)
            → u / page_size ≡ v / page_size
            → get_physical_address t u ≡ ok (physical / page_size * page_size + u % page_size))
  map_page-get_physical_address fuel physical option low =
      let e = page_entry physical option in
      let t = set_entry s (table1 + 8 * level1 v) e in
      (
        t,
        map_page-Walk s v table3 table2 table1 w fuel physical option,
        λ u h.
            get_physical_address-present t u table3 table2 table1 (Walk-after u e h)
              (ap (λ (x : PageEntry). x.present) (last_entry u e h))
            ∙ ap (λ (x : PageEntry). ok (bit_or (x.enc_address * 2 ^ 12) (in_page u)))
                (last_entry u e h)
            ∙ ap ok (
                bit_or_low 12 (physical / 2 ^ 12 % 2 ^ 36) (in_page u) (omega arith) ∙ omega arith),
      )

  -- After `init`, with the tables for an address there and the entry to write not one of those
  -- that lead to it, `unmap` succeeds, and then no address of the page has a physical address.
  pub unmap-get_physical_address :
      (t : PageTables) × (unmap s v ≡ ok t)
      × ((u : ℕ) → u / page_size ≡ v / page_size → get_physical_address t u ≡ ok 0)
  unmap-get_physical_address =
      let e : PageEntry = record (s.entries (table1 + 8 * level1 v)) { present = false } in
      let t = set_entry s (table1 + 8 * level1 v) e in
      (
        t,
        unmap-Walk s v table3 table2 table1 w,
        λ u h.
            get_physical_address-absent t u table3 table2 table1 (Walk-after u e h)
              (ap (λ (x : PageEntry). x.present) (last_entry u e h)),
      )

  other_page :
      (x c3 c2 c1 : ℕ) (e : PageEntry)
      → Walk s x c3 c2 c1
      → Aside s x c3 c2 (table1 + 8 * level1 v)
      → c1 + 8 * level1 x ≢ table1 + 8 * level1 v
      → get_physical_address (set_entry s (table1 + 8 * level1 v) e) x ≡ get_physical_address s x
  unfolding physical_by_level1
  other_page x c3 c2 c1 e there apart other =
      let t = set_entry s (table1 + 8 * level1 v) e in
      let still = Walk-set_entry s x c3 c2 c1 (table1 + 8 * level1 v) e apart there in
      get_physical_address-Walk t x c3 c2 c1 still
      ∙ rw
          (
            leaf_slot t x c3 c2 c1 still,
            update_ne s.entries (table1 + 8 * level1 v) e (c1 + 8 * level1 x) other,
            physical_by_level1,
          )
          refl
      ∙ sym (get_physical_address-Walk s x c3 c2 c1 there)

  -- After `init`, `map` and `unmap` succeed for an address whose tables are there and not reached
  -- through the entry to write, and leave the translation of another address as it is, if its
  -- tables are there, not reached through that entry, and its own entry is another one.
  pub other_pages_same :
      (x c3 c2 c1 fuel physical : ℕ) (option : MapOption)
      → Walk s x c3 c2 c1
      → Aside s x c3 c2 (table1 + 8 * level1 v)
      → c1 + 8 * level1 x ≢ table1 + 8 * level1 v
      → ((t : PageTables) × (map_page fuel s physical v option ≡ ok t)
          × (get_physical_address t x ≡ get_physical_address s x))
        × ((t : PageTables) × (unmap s v ≡ ok t)
            × (get_physical_address t x ≡ get_physical_address s x))
  other_pages_same x c3 c2 c1 fuel physical option there apart other =
      let mapped = page_entry physical option in
      let gone : PageEntry = record (s.entries (table1 + 8 * level1 v)) { present = false } in
      (
        (
          set_entry s (table1 + 8 * level1 v) mapped,
          map_page-Walk s v table3 table2 table1 w fuel physical option,
          other_page x c3 c2 c1 mapped there apart other,
        ),
        (
          set_entry s (table1 + 8 * level1 v) gone,
          unmap-Walk s v table3 table2 table1 w,
          other_page x c3 c2 c1 gone there apart other,
        ),
      )
