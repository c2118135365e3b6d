-- ===== src/Memory/PageTable/Walk.antt =====
-- PageTable::map, unmap and getPhysicalAddress of src/Memory/pageTable.cpp after `init`, on an
-- address whose tables are there.
pub mod Pages
pub mod BigPages
use Prim.Native.Nat.{bit_or}
use crack_os.Base.{
  ℕ, ◌+◌, ◌-◌, ◌*◌, ◌/◌, ◌%◌, ◌^◌, ◌<◌, ◌≡◌, ◌≢◌, refl, arith, ap, sym, ◌∙◌, true, false,
}
use crack_os.Base.{◌==◌, if◌then◌else◌, Run, ok, ◌>>=◌, update, update_ne}
use crack_os.Memory.{gi}
use crack_os.Memory.Physical.{map_pages, window}
use crack_os.Memory.PageTable.{
  PageTables, slot, get_level4_page, get_linked_page, physical_by_level1, physical_by_level2,
  physical_by_level3, get_physical_address, link_page, map_page, set_entry, not_present,
  drop_big_page, unmap_by_level1, unmap_by_level2, unmap_by_level3, unmap,
}
use crack_os.Memory.PageEntry.{
  PageEntry, MapOption, page_entry, level4, level3, level2, level1, in_page,
}

-- The entry at `at` links to the table at `table`.
pub record Links (s : PageTables) (at table : ℕ) : Type 0 where
  pub present : (s.entries at).present ≡ true
  pub big_page : (s.entries at).big_page ≡ false
  pub address : (s.entries at).enc_address * 2 ^ 12 ≡ table
  pub low : table < gi 512

-- After `init`, the tables on the way to the page of `v` are `table3`, `table2` and `table1`.
pub record Walk (s : PageTables) (v table3 table2 table1 : ℕ) : Type 0 where
  pub late : s.in_init ≡ false
  pub first : Links s (s.virtual_level4_address - window + 8 * level4 v) table3
  pub second : Links s (table3 + 8 * level3 v) table2
  pub third : Links s (table2 + 8 * level2 v) table1

-- A slot that the walk does not read.
pub record Aside (s : PageTables) (v table3 table2 at : ℕ) : Type 0 where
  pub not_first : s.virtual_level4_address - window + 8 * level4 v ≢ at
  pub not_second : table3 + 8 * level3 v ≢ at
  pub not_third : table2 + 8 * level2 v ≢ at

pub Links-set_entry :
    (s : PageTables) (at table p : ℕ) (e : PageEntry)
    → at ≢ p
    → Links s at table
    → Links (set_entry s p e) at table
Links-set_entry s at table p e other l =
    let same = update_ne s.entries p e at other in
    record {
      present = ap (λ (x : PageEntry). x.present) same ∙ l.present;
      big_page = ap (λ (x : PageEntry). x.big_page) same ∙ l.big_page;
      address = ap (λ (x : PageEntry). x.enc_address * 2 ^ 12) same ∙ l.address;
      low = l.low;
    }

pub Walk-set_entry :
    (s : PageTables) (v table3 table2 table1 p : ℕ) (e : PageEntry)
    → Aside s v table3 table2 p
    → Walk s v table3 table2 table1
    → Walk (set_entry s p e) v table3 table2 table1
Walk-set_entry s v table3 table2 table1 p e a w = record {
  late = w.late;
  first =
      Links-set_entry s (s.virtual_level4_address - window + 8 * level4 v) table3 p e a.not_first
        w.first;
  second = Links-set_entry s (table3 + 8 * level3 v) table2 p e a.not_second w.second;
  third = Links-set_entry s (table2 + 8 * level2 v) table1 p e a.not_third w.third;
}

module _ (s : PageTables) (late : s.in_init ≡ false) where
  pub get_linked_page-Links :
      (at table : ℕ) → Links s at table → get_linked_page s (s.entries at) ≡ ok (table + window)
  unfolding get_linked_page map_pages
  get_linked_page-Links at table l = rw (l.present, late, l.address) (let h = l.low in ground arith)

  pub root_slot : (i : ℕ) → slot s (get_level4_page s) i ≡ s.virtual_level4_address - window + 8 * i
  root_slot i = rw late refl

  pub table_slot : (table i : ℕ) → slot s (table + window) i ≡ table + 8 * i
  table_slot table i = rw late (omega arith)

  pub not_null : (table : ℕ) → (table + window == 0) ≡ false
  not_null table = ground arith

  physical_step3 :
      (v table next : ℕ)
      → Links s (table + 8 * level3 v) next
      → physical_by_level3 s v (table + window) ≡ physical_by_level2 s v (next + window)
  unfolding physical_by_level3
  physical_step3 v table next l =
      rw
        (
          not_null table,
          table_slot table (level3 v),
          get_linked_page-Links (table + 8 * level3 v) next l,
          l.big_page,
          physical_by_level3,
        )
        refl

  physical_step2 :
      (v table next : ℕ)
      → Links s (table + 8 * level2 v) next
      → physical_by_level2 s v (table + window) ≡ physical_by_level1 s v (next + window)
  unfolding physical_by_level2
  physical_step2 v table next l =
      rw
        (
          not_null table,
          table_slot table (level2 v),
          get_linked_page-Links (table + 8 * level2 v) next l,
          l.big_page,
          physical_by_level2,
        )
        refl

  drop_none : (at : ℕ) → (s.entries at).big_page ≡ false → drop_big_page s at ≡ s
  drop_none at h = rw (h, drop_big_page) refl

  unmap_step3 :
      (v table next : ℕ)
      → Links s (table + 8 * level3 v) next
      → unmap_by_level3 s v (table + window) ≡ unmap_by_level2 s v (next + window)
  unfolding unmap_by_level3
  unmap_step3 v table next l =
      rw
        (
          not_null table,
          table_slot table (level3 v),
          drop_none (table + 8 * level3 v) l.big_page,
          get_linked_page-Links (table + 8 * level3 v) next l,
          unmap_by_level3,
        )
        refl

  unmap_step2 :
      (v table next : ℕ)
      → Links s (table + 8 * level2 v) next
      → unmap_by_level2 s v (table + window) ≡ unmap_by_level1 s v (next + window)
  unfolding unmap_by_level2
  unmap_step2 v table next l =
      rw
        (
          not_null table,
          table_slot table (level2 v),
          drop_none (table + 8 * level2 v) l.big_page,
          get_linked_page-Links (table + 8 * level2 v) next l,
          unmap_by_level2,
        )
        refl

  link_step : (fuel at table : ℕ) → Links s at table → link_page fuel s at ≡ ok (table + window, s)
  unfolding link_page
  link_step fuel at table l = rw (l.present, link_page) (rw (get_linked_page-Links at table l) refl)

module _ (s : PageTables) (v table3 table2 table1 : ℕ) (w : Walk s v table3 table2 table1) where
  pub get_physical_address-Walk :
      get_physical_address s v ≡ physical_by_level1 s v (table1 + window)
  unfolding get_physical_address
  get_physical_address-Walk =
      rw
        (
          root_slot s w.late (level4 v),
          get_linked_page-Links s w.late (s.virtual_level4_address - window + 8 * level4 v) table3
              w.first,
        )
        (physical_step3 s w.late v table3 table2 w.second
          ∙ physical_step2 s w.late v table2 table1 w.third)

  pub unmap-Walk : unmap s v ≡ ok (not_present s (table1 + 8 * level1 v))
  unfolding unmap unmap_by_level1
  unmap-Walk =
      rw
        (
          root_slot s w.late (level4 v),
          get_linked_page-Links s w.late (s.virtual_level4_address - window + 8 * level4 v) table3
              w.first,
        )
        (unmap_step3 s w.late v table3 table2 w.second
          ∙ unmap_step2 s w.late v table2 table1 w.third
          ∙ rw (not_null s w.late table1)
              (ap (λ (n : ℕ). ok (not_present s n)) (table_slot s w.late table1 (level1 v))))

  pub map_page-Walk :
      (fuel physical : ℕ) (option : MapOption)
      → map_page fuel s physical v option
        ≡ ok (set_entry s (table1 + 8 * level1 v) (page_entry physical option))
  unfolding map_page
  map_page-Walk fuel physical option =
      rw
        (
          root_slot s w.late (level4 v),
          link_step s w.late fuel (s.virtual_level4_address - window + 8 * level4 v) table3 w.first,
        )
        (rw
          (
            table_slot s w.late table3 (level3 v),
            link_step s w.late fuel (table3 + 8 * level3 v) table2 w.second,
          )
          (rw
            (
              table_slot s w.late table2 (level2 v),
              link_step s w.late fuel (table2 + 8 * level2 v) table1 w.third,
            )
            (ap (λ (n : ℕ). ok (set_entry s n (page_entry physical option)))
              (table_slot s w.late table1 (level1 v)))))

  pub leaf_slot : slot s (table1 + window) (level1 v) ≡ table1 + 8 * level1 v
  leaf_slot = table_slot s w.late table1 (level1 v)

  -- What the last entry says.
  pub get_physical_address-present :
      (s.entries (table1 + 8 * level1 v)).present ≡ true
      → get_physical_address s v
        ≡ ok (bit_or ((s.entries (table1 + 8 * level1 v)).enc_address * 2 ^ 12) (in_page v))
  unfolding physical_by_level1
  get_physical_address-present h =
      get_physical_address-Walk
      ∙ rw (not_null s w.late table1, leaf_slot, h, physical_by_level1) refl

  pub get_physical_address-absent :
      (s.entries (table1 + 8 * level1 v)).present ≡ false → get_physical_address s v ≡ ok 0
  unfolding physical_by_level1
  get_physical_address-absent h =
      get_physical_address-Walk
      ∙ rw (not_null s w.late table1, leaf_slot, h, physical_by_level1) refl
