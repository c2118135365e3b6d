-- ===== src/Memory/PageTable/Walk/BigPages.antt =====
-- What PageTable::unmap of src/Memory/pageTable.cpp does to a page of 1 GiB.
use crack_os.Base.{ℕ, ◌+◌, ◌-◌, ◌*◌, ◌≡◌, ◌≢◌, refl, ap, sym, ◌∙◌, true, false}
use crack_os.Base.{Bool, ok, update_self}
use crack_os.Memory.Physical.{window}
use crack_os.Memory.PageTable.{
  PageTables, get_linked_page, get_physical_address, physical_by_level3, big_address, not_present,
  drop_big_page, unmap, unmap_by_level3, unmap_by_level2,
}
use crack_os.Memory.PageEntry.{PageEntry, level4, level3}
use crack_os.Memory.PageTable.Walk.{
  Links, Links-set_entry, get_linked_page-Links, root_slot, table_slot, not_null,
}

get_linked_page-absent :
    (s : PageTables) (e : PageEntry) → e.present ≡ false → get_linked_page s e ≡ ok 0
unfolding get_linked_page
get_linked_page-absent s e h = rw (h, get_linked_page) refl

unmap_nothing : (s : PageTables) (v : ℕ) → unmap_by_level2 s v 0 ≡ ok s
unfolding unmap_by_level2
unmap_nothing s v = refl

-- The translation of an address in a page of 1 GiB, present or not.
get_physical_address-big :
    (s : PageTables) (v table3 : ℕ)
    → s.in_init ≡ false
    → Links s (s.virtual_level4_address - window + 8 * level4 v) table3
    → (s.entries (table3 + 8 * level3 v)).big_page ≡ true
    → get_physical_address s v ≡ ok (big_address (s.entries (table3 + 8 * level3 v)) v)
unfolding get_physical_address physical_by_level3
get_physical_address-big s v table3 late l big =
    rw
      (
        root_slot s late (level4 v),
        get_linked_page-Links s late (s.virtual_level4_address - window + 8 * level4 v) table3 l,
      )
      (rw (not_null s late table3, table_slot s late table3 (level3 v), big, physical_by_level3)
        refl)

module _ (s : PageTables) (v table3 : ℕ) (late : s.in_init ≡ false)
    (l : Links s (s.virtual_level4_address - window + 8 * level4 v) table3)
    (big : (s.entries (table3 + 8 * level3 v)).big_page ≡ true) where
  abbrev gone : PageTables
  gone = not_present s (table3 + 8 * level3 v)

  gone_entry :
      gone.entries (table3 + 8 * level3 v)
      ≡ record (s.entries (table3 + 8 * level3 v)) { present = false }
  gone_entry =
      update_self s.entries (table3 + 8 * level3 v)
        (record (s.entries (table3 + 8 * level3 v)) { present = false })

  dropped : drop_big_page s (table3 + 8 * level3 v) ≡ gone
  dropped = ap (λ (b : Bool). elim b as (λ _. PageTables) [ true ↦ gone | false ↦ s ]) big

  stops : get_linked_page gone (gone.entries (table3 + 8 * level3 v)) ≡ ok 0
  stops =
      get_linked_page-absent gone (gone.entries (table3 + 8 * level3 v))
        (ap (λ (x : PageEntry). x.present) gone_entry)

  unmap_by_level3-big : unmap_by_level3 s v (table3 + window) ≡ ok gone
  unfolding unmap_by_level3
  unmap_by_level3-big =
      rw (not_null s late table3, table_slot s late table3 (level3 v), dropped, stops)
        (unmap_nothing gone v)

  unmap_big : unmap s v ≡ ok gone
  unfolding unmap
  unmap_big =
      rw
        (
          root_slot s late (level4 v),
          get_linked_page-Links s late (s.virtual_level4_address - window + 8 * level4 v) table3 l,
        )
        unmap_by_level3-big

  -- After `init`, `unmap` of an address in a page of 1 GiB clears the entry's present bit, when
  -- that entry is not the one that leads to its table, and the address still has the physical
  -- address that it had.
  pub unmap-still_mapped :
      s.virtual_level4_address - window + 8 * level4 v ≢ table3 + 8 * level3 v
      → (t : PageTables) × (unmap s v ≡ ok t)
        × ((t.entries (table3 + 8 * level3 v)).present ≡ false)
        × (get_physical_address t v ≡ ok (big_address (s.entries (table3 + 8 * level3 v)) v))
        × (get_physical_address t v ≡ get_physical_address s v)
  unfolding big_address
  unmap-still_mapped apart =
      let before = get_physical_address-big s v table3 late l big in
      let after =
        get_physical_address-big gone v table3 late
          (Links-set_entry s (s.virtual_level4_address - window + 8 * level4 v) table3
            (table3 + 8 * level3 v) (record (s.entries (table3 + 8 * level3 v)) { present = false })
            apart l)
          (ap (λ (x : PageEntry). x.big_page) gone_entry ∙ big)
        ∙ ap (λ (x : PageEntry). ok (big_address x v)) gone_entry in
      (gone, unmap_big, ap (λ (x : PageEntry). x.present) gone_entry, after, after ∙ sym before)
