-- ===== src/Storage/Sata/Command/Gaps.antt =====
-- CommandTable::createPrdt of src/Storage/SATA.cpp on a buffer whose pages do not follow one
-- another.
use crack_os.Base.{
  ℕ, zero, suc, ◌+◌, ◌-◌, ◌*◌, ◌/◌, ◌%◌, ◌<◌, ◌≤◌, ◌≡◌, ◌≢◌, refl, arith, ap, sym, ◌∙◌,
}
use crack_os.Base.{update, update_self, ok}
use crack_os.Storage.Sata.Command.{
  PrdtEntry, Prdt, no_entry, entry_size, fill_entry, extend_entry, prdt_loop, create_prdt,
}
use crack_os.Storage.Sata.Command.Rounds.{
  total, entry_for, moved, fill_empty, fill_begun, extend_empty, extend_skips, loop_done, loop_next,
}

-- The bytes of a buffer in its first page.
abbrev pub first_part : ℕ → ℕ
first_part address = 4096 - address % 4096

module _ (physical : ℕ → ℕ) (address size : ℕ) where
  first_size :
      1 < first_part address
      → first_part address < size
      → entry_size address size ≡ first_part address
  unfolding entry_size
  first_size one more = ground arith

  second_size :
      1 < first_part address
      → first_part address < size
      → size ≤ first_part address + 4096
      → entry_size (address + first_part address) (size - first_part address)
        ≡ size - first_part address
  unfolding entry_size
  second_size one more two = ground arith

  -- When a buffer lies in two pages, and the second does not follow the first in physical memory,
  -- createPrdt takes the whole size, but the one entry that it fills describes the first part only.
  pub create_prdt-skips :
      (fuel : ℕ)
      → 2 < fuel
      → 1 < first_part address
      → first_part address < size
      → size ≤ first_part address + 4096
      → physical (address + first_part address) ≢ physical address / 4096 * 4096 + 4096
      → (p : Prdt) × (create_prdt physical fuel address size ≡ ok (1, p))
        × (p.size ≡ 0)
        × (total p.prdt_entries 1 ≡ first_part address)
  unfolding create_prdt
  create_prdt-skips zero f one more two apart = absurd (omega arith)
  create_prdt-skips (suc zero) f one more two apart = absurd (omega arith)
  create_prdt-skips (suc (suc zero)) f one more two apart = absurd (omega arith)
  create_prdt-skips (suc (suc (suc fuel))) f one more two apart =
      let p : Prdt = record {
        prdt_entries = λ i. no_entry;
        current_entry_index = 0;
        last_physical_address = 0;
        address = address;
        size = size;
      } in
      let at = physical address in
      let n : entry_size address size ≡ first_part address = first_size one more in
      let entries = update p.prdt_entries 0 (entry_for at (first_part address)) in
      let q : Prdt = record {
        prdt_entries = entries;
        current_entry_index = 0;
        last_physical_address = at;
        address = address + first_part address;
        size = size - first_part address;
      } in
      let at' = physical (address + first_part address) in
      let m : entry_size (address + first_part address) (size - first_part address)
          ≡ size - first_part address =
        second_size one more two in
      let count : (entries 0).data_byte_count ≡ first_part address - 1 =
        ap (λ (e : PrdtEntry). e.data_byte_count)
          (update_self p.prdt_entries 0 (entry_for at (first_part address)))
        ∙ omega arith in
      let filled : fill_entry at p ≡ q =
        fill_empty at p refl
        ∙ ap
            (λ (k : ℕ). record p {
              prdt_entries = update p.prdt_entries 0 (entry_for at k);
              last_physical_address = at;
              address = address + k;
              size = size - k;
            })
            n in
      let last = moved entries at' q in
      let skipped : extend_entry at' q ≡ q =
        extend_skips at' q (omega arith) (omega arith) (λ e. apart (sym e)) in
      let end : last.size ≡ 0 = omega arith in
      (
        last,
        loop_next physical (suc (suc fuel)) p (omega arith) p (extend_empty at p refl) (omega arith)
            ∙ ap (prdt_loop physical (suc (suc fuel))) filled
            ∙ loop_next physical (suc fuel) q (omega arith) q skipped (omega arith)
            ∙ ap (prdt_loop physical (suc fuel)) (fill_begun at' q (omega arith))
            ∙ loop_done physical fuel last end,
        end,
        omega arith,
      )
