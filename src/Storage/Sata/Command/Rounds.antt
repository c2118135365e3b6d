-- ===== src/Storage/Sata/Command/Rounds.antt =====
-- The rounds of CommandTable::createPrdt of src/Storage/SATA.cpp, one by one.
use crack_os.Base.{
  ℕ, zero, suc, ◌+◌, ◌-◌, ◌*◌, ◌/◌, ◌%◌, ◌^◌, ◌<◌, ◌≤◌, ◌≡◌, ◌≢◌, refl, arith, ap, ap₂, sym, subst,
  ◌∙◌, true, false,
}
use crack_os.Base.{leb, ◌==◌, update, update_self, update_ne, ok}
use native.Mathlib.Decide.{ℕ_discrete}
use crack_os.Storage.Sata.Command.{PrdtEntry, Prdt, entry_size, fill_entry, extend_entry, prdt_loop}

-- The bytes of the first `n` entries, whose counts start at 0, and the address of an entry.
abbrev pub total : (ℕ → PrdtEntry) → ℕ → ℕ
total entries zero = 0
total entries (suc n) = total entries n + ((entries n).data_byte_count + 1)

abbrev pub start_of : PrdtEntry → ℕ
start_of e = e.data_base_address_low + e.data_base_address_high * 2 ^ 32

pub total-update :
    (entries : ℕ → PrdtEntry) (i n : ℕ) (e : PrdtEntry)
    → n ≤ i
    → total (update entries i e) n ≡ total entries n
total-update entries i zero e h = refl
total-update entries i (suc n) e h =
    let same = ap (λ (x : PrdtEntry). x.data_byte_count) (update_ne entries i e n (omega arith)) in
    omega (arith, total-update entries i n e (omega arith))

-- The fields of an entry as the bits of a PrdtEntry hold them.
abbrev pub Fits : PrdtEntry → Type 0
Fits e =
    (e.data_base_address_low < 2 ^ 32)
    × (e.data_base_address_high < 2 ^ 32)
    × (e.data_byte_count < 2 ^ 22)

-- The first `n` entries lie behind one another from `base` on.
abbrev pub Chained : ℕ → (ℕ → PrdtEntry) → ℕ → Type 0
Chained base entries n =
    (j : ℕ) → j < n → (start_of (entries j) ≡ base + total entries j) × Fits (entries j)

pub Chained-update :
    (base : ℕ) (entries : ℕ → PrdtEntry) (i : ℕ) (e : PrdtEntry)
    → Chained base entries i
    → start_of e ≡ base + total entries i
    → Fits e
    → Chained base (update entries i e) (suc i)
Chained-update base entries i e chained here fits j h = elim (ℕ_discrete j i) [
  | yes is ↦
      subst
        (λ (k : ℕ).
          (start_of (update entries i e k) ≡ base + total (update entries i e) k)
          × Fits (update entries i e k))
        (sym is)
        (
          ap start_of (update_self entries i e)
              ∙ here
              ∙ ap (λ (n : ℕ). base + n) (sym (total-update entries i i e (omega arith))),
          subst Fits (sym (update_self entries i e)) fits,
        )
  | no is_not ↦ (
    ap start_of (update_ne entries i e j is_not)
        ∙ (chained j (omega arith)).0
        ∙ ap (λ (n : ℕ). base + n) (sym (total-update entries i j e (omega arith))),
    subst Fits (sym (update_ne entries i e j is_not)) ((chained j (omega arith)).1),
  )
]

pub entry_size_lem :
    (address size : ℕ)
    → 0 < size
    → size % 2 ≡ 0
    → address % 2 ≡ 0
    → let n = entry_size address size in
      (0 < n)
      × (n ≤ size)
      × (n % 2 ≡ 0)
      × (n + address % 4096 ≤ 4096)
      × (n < size → n + address % 4096 ≡ 4096)
unfolding entry_size
entry_size_lem address size h z a =
    (ground arith, ground arith, ground arith, ground arith, λ lt. ground arith)

-- A new entry, for `n` bytes at an address.
abbrev pub entry_for : ℕ → ℕ → PrdtEntry
entry_for at n = record {
  data_base_address_low = at % 2 ^ 32;
  data_base_address_high = at / 2 ^ 32 % 2 ^ 32;
  data_byte_count = (n + 2 ^ 32 - 1) % 2 ^ 32 % 2 ^ 22;
  interrupt_enable = false;
}

abbrev pub moved : (ℕ → PrdtEntry) → ℕ → Prdt → Prdt
moved entries at p = record p {
  prdt_entries = entries;
  last_physical_address = at;
  address = p.address + entry_size p.address p.size;
  size = p.size - entry_size p.address p.size;
}

pub fill_empty :
    (at : ℕ) (p : Prdt)
    → (p.prdt_entries p.current_entry_index).data_byte_count ≡ 0
    → fill_entry at p
      ≡ moved
          (update p.prdt_entries p.current_entry_index (entry_for at (entry_size p.address p.size)))
          at
          p
unfolding fill_entry
fill_empty at p empty =
    let e : ((p.prdt_entries p.current_entry_index).data_byte_count == 0) ≡ true = ground arith in
    rw e refl

pub fill_begun :
    (at : ℕ) (p : Prdt)
    → 0 < (p.prdt_entries p.current_entry_index).data_byte_count
    → fill_entry at p ≡ moved p.prdt_entries at p
unfolding fill_entry
fill_begun at p begun =
    let e : ((p.prdt_entries p.current_entry_index).data_byte_count == 0) ≡ false = ground arith in
    rw e refl

module _ (at : ℕ) (p : Prdt) where
  abbrev pub count_at : ℕ
  count_at = (p.prdt_entries p.current_entry_index).data_byte_count

  pub extend_empty : count_at ≡ 0 → extend_entry at p ≡ p
  unfolding extend_entry
  extend_empty empty = let e : (count_at == 0) ≡ true = ground arith in rw e refl

  pub extend_full :
      0 < count_at
      → 2 ^ 22 - 1 ≤ count_at + entry_size p.address p.size
      → extend_entry at p ≡ record p { current_entry_index = p.current_entry_index + 1 }
  unfolding extend_entry
  extend_full begun full =
      let e : (count_at == 0) ≡ false = ground arith in
      let e1 : leb (2 ^ 22 - 1) (count_at + entry_size p.address p.size) ≡ true = ground arith in
      rw (e, e1) refl

  pub extend_grown :
      0 < count_at
      → count_at + entry_size p.address p.size < 2 ^ 22 - 1
      → p.last_physical_address / 4096 * 4096 + 4096 ≡ at
      → extend_entry at p ≡ record p {
        prdt_entries =
            update p.prdt_entries p.current_entry_index
              (record (p.prdt_entries p.current_entry_index) {
                data_byte_count = (count_at + entry_size p.address p.size) % 2 ^ 22;
              });
      }
  unfolding extend_entry
  extend_grown begun fits follows =
      let e : (count_at == 0) ≡ false = ground arith in
      let e1 : leb (2 ^ 22 - 1) (count_at + entry_size p.address p.size) ≡ false = ground arith in
      let e2 : (p.last_physical_address / 4096 * 4096 + 4096 == at) ≡ true = ground arith in
      rw (e, e1, e2) refl

  -- A page that does not follow the last one is passed over.
  pub extend_skips :
      0 < count_at
      → count_at + entry_size p.address p.size < 2 ^ 22 - 1
      → p.last_physical_address / 4096 * 4096 + 4096 ≢ at
      → extend_entry at p ≡ p
  unfolding extend_entry
  extend_skips begun fits skips =
      let e : (count_at == 0) ≡ false = ground arith in
      let e1 : leb (2 ^ 22 - 1) (count_at + entry_size p.address p.size) ≡ false = ground arith in
      let e2 : (p.last_physical_address / 4096 * 4096 + 4096 == at) ≡ false = ground arith in
      rw (e, e1, e2) refl

pub fill_entry_fields :
    (at : ℕ) (p : Prdt)
    → ((fill_entry at p).current_entry_index ≡ p.current_entry_index)
      × ((fill_entry at p).size ≡ p.size - entry_size p.address p.size)
unfolding fill_entry
fill_entry_fields at p = (refl, refl)

extend_entry_fields :
    (at : ℕ) (p : Prdt)
    → ((extend_entry at p).address ≡ p.address) × ((extend_entry at p).size ≡ p.size)
unfolding extend_entry
extend_entry_fields at p = (ground arith, ground arith)

-- A round takes bytes from the size.
pub round-lt :
    (at : ℕ) (p : Prdt)
    → 0 < p.size
    → p.size % 2 ≡ 0
    → p.address % 2 ≡ 0
    → (fill_entry at (extend_entry at p)).size < p.size
round-lt at p h z a =
    let (address, size) = extend_entry_fields at p in
    let (pos, le, even, page, last) = entry_size_lem p.address p.size h z a in
    let (index, left) = fill_entry_fields at (extend_entry at p) in
    let same : entry_size (extend_entry at p).address (extend_entry at p).size
        ≡ entry_size p.address p.size =
      ap₂ entry_size address size in
    omega arith

module _ (physical : ℕ → ℕ) (fuel : ℕ) (p : Prdt) (more : 0 < p.size) where
  extended : Prdt
  extended = extend_entry (physical p.address) p

  leaves :
      8 ≤ extended.current_entry_index
      → prdt_loop physical (suc fuel) p ≡ ok (extended.current_entry_index, extended)
  unfolding prdt_loop extended
  leaves full =
      let e : (p.size == 0) ≡ false = ground arith in
      let e1 : leb 8 (extend_entry (physical p.address) p).current_entry_index ≡ true =
        ground arith in
      rw (e, e1, prdt_loop) refl

  stays :
      extended.current_entry_index < 8
      → prdt_loop physical (suc fuel) p
        ≡ prdt_loop physical fuel (fill_entry (physical p.address) extended)
  unfolding prdt_loop extended
  stays small =
      let e : (p.size == 0) ≡ false = ground arith in
      let e1 : leb 8 (extend_entry (physical p.address) p).current_entry_index ≡ false =
        ground arith in
      rw (e, e1, prdt_loop) refl

  module _ (q : Prdt) (is : extend_entry (physical p.address) p ≡ q) where
    pub loop_full :
        8 ≤ q.current_entry_index → prdt_loop physical (suc fuel) p ≡ ok (q.current_entry_index, q)
    unfolding extended
    loop_full =
        subst
          (λ (x : Prdt).
            8 ≤ x.current_entry_index
            → prdt_loop physical (suc fuel) p ≡ ok (x.current_entry_index, x))
          is leaves

    pub loop_next :
        q.current_entry_index < 8
        → prdt_loop physical (suc fuel) p
          ≡ prdt_loop physical fuel (fill_entry (physical p.address) q)
    unfolding extended
    loop_next =
        subst
          (λ (x : Prdt).
            x.current_entry_index < 8
            → prdt_loop physical (suc fuel) p
              ≡ prdt_loop physical fuel (fill_entry (physical p.address) x))
          is stays

pub loop_done :
    (physical : ℕ → ℕ) (fuel : ℕ) (p : Prdt)
    → p.size ≡ 0
    → prdt_loop physical (suc fuel) p ≡ ok (p.current_entry_index + 1, p)
unfolding prdt_loop
loop_done physical fuel p done =
    let e : (p.size == 0) ≡ true = ground arith in rw (e, prdt_loop) refl
