-- ===== src/Storage/Sata/Command/Regions.antt =====
-- The regions of memory that CommandTable::createPrdt of src/Storage/SATA.cpp describes.
use crack_os.Base.{
  ℕ, zero, suc, ◌+◌, ◌-◌, ◌*◌, ◌/◌, ◌%◌, ◌^◌, ◌<◌, ◌≤◌, ◌≡◌, ◌⊎◌, inl, inr, refl, arith, ap, sym,
  subst, ◌∙◌,
}
use crack_os.Base.{update, update_self, update_ne, ok}
use native.Mathlib.Decide.{dec_lt, ℕ_discrete}
use crack_os.Storage.Sata.Command.{
  PrdtEntry, Prdt, no_entry, entry_size, fill_entry, extend_entry, prdt_loop, create_prdt,
}
use crack_os.Storage.Sata.Command.Rounds.{
  total, Chained, total-update, Chained-update, entry_size_lem, entry_for, fill_empty, fill_begun,
  extend_empty, extend_full, extend_grown, loop_done, fill_entry_fields, round-lt, loop_full,
  loop_next,
}

module _ (physical : ℕ → ℕ) (address size : ℕ) where
  -- The pages of the buffer follow one another in physical memory.
  abbrev pub Contiguous : Type 0
  Contiguous =
      ((k : ℕ) → k < size → physical (address + k) ≡ physical address + k)
      × (physical address % 4096 ≡ address % 4096)
      × (physical address + size < 2 ^ 64)

  -- The entries in front of the current one lie behind one another, from the start of the buffer on.
  record IsReady (p : Prdt) : Type 0 where
    whole : p.address + p.size ≡ address + size
    forward : address ≤ p.address
    even_address : p.address % 2 ≡ 0
    even_size : p.size % 2 ≡ 0
    small : p.current_entry_index < 8
    later : (j : ℕ) → p.current_entry_index ≤ j → (p.prdt_entries j).data_byte_count ≡ 0
    covered : total p.prdt_entries p.current_entry_index ≡ p.address - address
    starts : Chained (physical address) p.prdt_entries p.current_entry_index

  -- So does the current one, and the next page follows it.
  record IsBegun (p : Prdt) : Type 0 where
    whole : p.address + p.size ≡ address + size
    forward : address ≤ p.address
    even_address : p.address % 2 ≡ 0
    even_size : p.size % 2 ≡ 0
    small : p.current_entry_index < 8
    later : (j : ℕ) → p.current_entry_index < j → (p.prdt_entries j).data_byte_count ≡ 0
    covered : total p.prdt_entries (suc p.current_entry_index) ≡ p.address - address
    starts : Chained (physical address) p.prdt_entries (suc p.current_entry_index)
    filled : 0 < (p.prdt_entries p.current_entry_index).data_byte_count
    limited : (p.prdt_entries p.current_entry_index).data_byte_count < 2 ^ 22 - 1
    next_page :
        0 < p.size
        → p.last_physical_address / 4096 * 4096 + 4096 ≡ physical address + (p.address - address)

  -- The first `n` entries describe the start of the buffer, and leave out a part of it only when
  -- all eight are used.
  pub record IsCovered (n : ℕ) (p : Prdt) : Type 0 where
    pub whole : p.address + p.size ≡ address + size
    pub small : n ≤ 8
    pub covered : total p.prdt_entries n ≡ p.address - address
    pub starts : Chained (physical address) p.prdt_entries n
    pub ended : (p.size ≡ 0) ⊎ (n ≡ 8)

  module _ (contiguous : Contiguous) where
    start-IsBegun :
        (p : Prdt) → 0 < p.size → IsReady p → IsBegun (fill_entry (physical p.address) p)
    unfolding fill_entry
    start-IsBegun p h r =
        let n = entry_size p.address p.size in
        let at = physical p.address in
        let i = p.current_entry_index in
        let whole = r.whole in
        let forward = r.forward in
        let even_address = r.even_address in
        let even_size = r.even_size in
        let shift : address + (p.address - address) ≡ p.address = omega arith in
        let where_at : at ≡ physical address + (p.address - address) =
          ap physical (sym shift) ∙ contiguous.0 (p.address - address) (omega arith) in
        let congruent = contiguous.1 in
        let fits = contiguous.2 in
        let covered = r.covered in
        let (pos, le, even, page, last) =
          entry_size_lem p.address p.size h even_size even_address in
        let new = update p.prdt_entries i (entry_for at n) in
        let this : new i ≡ entry_for at n = update_self p.prdt_entries i (entry_for at n) in
        let count : (new i).data_byte_count ≡ n - 1 =
          ap (λ (e : PrdtEntry). e.data_byte_count) this ∙ omega arith in
        let before : total new i ≡ total p.prdt_entries i =
          total-update p.prdt_entries i i (entry_for at n) (omega arith) in
        subst IsBegun (sym (fill_empty at p (r.later i (omega arith)))) (record {
          whole = omega arith;
          forward = omega arith;
          even_address = omega arith;
          even_size = omega arith;
          small = r.small;
          later = λ j lt.
              ap (λ (e : PrdtEntry). e.data_byte_count)
                (update_ne p.prdt_entries i (entry_for at n) j (omega arith))
              ∙ r.later j (omega arith);
          covered = omega arith;
          starts =
              Chained-update (physical address) p.prdt_entries i (entry_for at n) r.starts
                (omega arith) (omega arith);
          filled = omega arith;
          limited = omega arith;
          next_page = λ more. let full = last (omega arith) in omega arith;
        })

    -- A round on an entry that is begun: it grows by the bytes of the page.
    grow-IsBegun :
        (p : Prdt)
        → 0 < p.size
        → IsBegun p
        → (p.prdt_entries p.current_entry_index).data_byte_count + entry_size p.address p.size
          < 2 ^ 22 - 1
        → IsBegun (fill_entry (physical p.address) (extend_entry (physical p.address) p))
    grow-IsBegun p h r fits_in =
        let n = entry_size p.address p.size in
        let at = physical p.address in
        let i = p.current_entry_index in
        let old = p.prdt_entries i in
        let whole = r.whole in
        let forward = r.forward in
        let even_address = r.even_address in
        let even_size = r.even_size in
        let shift : address + (p.address - address) ≡ p.address = omega arith in
        let where_at : at ≡ physical address + (p.address - address) =
          ap physical (sym shift) ∙ contiguous.0 (p.address - address) (omega arith) in
        let congruent = contiguous.1 in
        let covered = r.covered in
        let (pos, le, even, page, last) =
          entry_size_lem p.address p.size h even_size even_address in
        let grown : PrdtEntry = record old {
          data_byte_count = (old.data_byte_count + n) % 2 ^ 22;
        } in
        let new = update p.prdt_entries i grown in
        let q = record p { prdt_entries = new } in
        let this : new i ≡ grown = update_self p.prdt_entries i grown in
        let count : (new i).data_byte_count ≡ old.data_byte_count + n =
          ap (λ (e : PrdtEntry). e.data_byte_count) this ∙ omega arith in
        let before : total new i ≡ total p.prdt_entries i =
          total-update p.prdt_entries i i grown (omega arith) in
        let follows : p.last_physical_address / 4096 * 4096 + 4096 ≡ at =
          r.next_page h ∙ sym where_at in
        let filled = r.filled in
        let (low, high, room) = (r.starts i (omega arith)).1 in
        let extended : extend_entry at p ≡ q = extend_grown at p filled fits_in follows in
        subst IsBegun (sym (ap (fill_entry at) extended ∙ fill_begun at q (omega arith))) (record {
          whole = omega arith;
          forward = omega arith;
          even_address = omega arith;
          even_size = omega arith;
          small = r.small;
          later = λ j lt.
              ap (λ (e : PrdtEntry). e.data_byte_count)
                (update_ne p.prdt_entries i grown j (omega arith))
              ∙ r.later j (omega arith);
          covered = omega arith;
          starts =
              Chained-update (physical address) p.prdt_entries i grown
                (λ j lt. r.starts j (omega arith)) ((r.starts i (omega arith)).0) (omega arith);
          filled = omega arith;
          limited = omega arith;
          next_page = λ more. let full = last (omega arith) in omega arith;
        })

    full-IsReady :
        (p : Prdt)
        → IsBegun p
        → p.current_entry_index + 1 < 8
        → IsReady (record p { current_entry_index = p.current_entry_index + 1 })
    full-IsReady p r small =
        let next : suc p.current_entry_index ≡ p.current_entry_index + 1 = omega arith in
        record {
          whole = r.whole;
          forward = r.forward;
          even_address = r.even_address;
          even_size = r.even_size;
          small = small;
          later = λ j lt. r.later j (omega arith);
          covered = ap (total p.prdt_entries) (sym next) ∙ r.covered;
          starts = subst (Chained (physical address) p.prdt_entries) next r.starts;
        }

    loop-IsCovered :
        (fuel : ℕ) (p : Prdt)
        → IsBegun p
        → p.size < fuel
        → (n : ℕ) × (q : Prdt) × (prdt_loop physical fuel p ≡ ok (n, q)) × IsCovered n q
    loop-IsCovered zero p r h = absurd (omega arith)
    loop-IsCovered (suc fuel) p r h = elim (ℕ_discrete p.size 0) [
      | yes done ↦
          let next : suc p.current_entry_index ≡ p.current_entry_index + 1 = omega arith in
          let small = r.small in
          (
            p.current_entry_index + 1,
            p,
            loop_done physical fuel p done,
            record {
              whole = r.whole;
              small = omega arith;
              covered = ap (total p.prdt_entries) (sym next) ∙ r.covered;
              starts = subst (Chained (physical address) p.prdt_entries) next r.starts;
              ended = inl done;
            },
          )
      | no more ↦
          let pos : 0 < p.size = omega arith in
          let at = physical p.address in
          let n = entry_size p.address p.size in
          let i = p.current_entry_index in
          let count = (p.prdt_entries i).data_byte_count in
          let falls = round-lt at p pos r.even_size r.even_address in
          elim (dec_lt (count + n) (2 ^ 22 - 1)) [
            | yes fits ↦
                let next = grow-IsBegun p pos r fits in
                let same = (fill_entry_fields at (extend_entry at p)).0 in
                let small = next.small in
                let (m, q, e, c) =
                  loop-IsCovered fuel (fill_entry at (extend_entry at p)) next (omega arith) in
                (m, q, loop_next physical fuel p pos (extend_entry at p) refl (omega arith) ∙ e, c)
            | no full ↦
                let q = record p { current_entry_index = i + 1 } in
                let is : extend_entry at p ≡ q = extend_full at p r.filled (omega arith) in
                elim (dec_lt (i + 1) 8) [
                  | yes small ↦
                      let ready = full-IsReady p r small in
                      let next = start-IsBegun q pos ready in
                      let falls' = subst (λ (x : Prdt). (fill_entry at x).size < p.size) is falls in
                      let (m, u, e, c) = loop-IsCovered fuel (fill_entry at q) next (omega arith) in
                      (m, u, loop_next physical fuel p pos q is small ∙ e, c)
                  | no last ↦
                      let small = r.small in
                      let next : suc i ≡ i + 1 = omega arith in
                      (
                        i + 1,
                        q,
                        loop_full physical fuel p pos q is (omega arith),
                        record {
                          whole = r.whole;
                          small = omega arith;
                          covered = ap (total p.prdt_entries) (sym next) ∙ r.covered;
                          starts = subst (Chained (physical address) p.prdt_entries) next r.starts;
                          ended = inr (omega arith);
                        },
                      )
                ]
          ]
    ]

    -- When the pages of a buffer follow one another in physical memory, and its address and size
    -- are even, createPrdt ends and describes the buffer from its start on: the entries lie behind
    -- one another, their bytes are as many as the size has lost, and something is left of the
    -- size only when all eight entries are used.
    pub create_prdt-IsCovered :
        (fuel : ℕ)
        → 0 < size
        → address % 2 ≡ 0
        → size % 2 ≡ 0
        → size < fuel
        → (n : ℕ) × (p : Prdt) × (create_prdt physical fuel address size ≡ ok (n, p))
          × IsCovered n p
    unfolding create_prdt
    create_prdt-IsCovered zero h a z f = absurd (omega arith)
    create_prdt-IsCovered (suc fuel) h a z f =
        let p : Prdt = record {
          prdt_entries = λ i. no_entry;
          current_entry_index = 0;
          last_physical_address = 0;
          address = address;
          size = size;
        } in
        let is : extend_entry (physical address) p ≡ p = extend_empty (physical address) p refl in
        let falls =
          subst (λ (x : Prdt). (fill_entry (physical address) x).size < size) is
            (round-lt (physical address) p h z a) in
        let (n, q, e, c) =
          loop-IsCovered fuel (fill_entry (physical address) p)
            (start-IsBegun p h (record {
              whole = refl;
              forward = omega arith;
              even_address = a;
              even_size = z;
              small = omega arith;
              later = λ j lt. refl;
              covered = omega arith;
              starts = λ j lt. absurd (omega arith);
            }))
            (omega arith) in
        (n, q, loop_next physical fuel p h p is (omega arith) ∙ e, c)
