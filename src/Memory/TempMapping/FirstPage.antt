-- ===== src/Memory/TempMapping/FirstPage.antt =====
-- TempMemory::mapPages of src/Memory/tempMapping.cpp when it maps several pages for user mode.
use crack_os.Base.{
  ℕ, zero, suc, ◌+◌, ◌*◌, ◌%◌, ◌^◌, ◌<◌, ◌≡◌, ◌≢◌, refl, arith, ap, ap₂, sym, ◌∙◌, true, false,
}
use crack_os.Base.{Bool, Run, ok, ◌>>=◌}
use crack_os.Memory.{page_size, ti}
use crack_os.Memory.PageTable.Digits.{bit_or-zero}
use crack_os.Memory.PageTable.{PageTables, map_page, get_physical_address}
use crack_os.Memory.PageEntry.{level1}
use crack_os.Memory.PageTable.Walk.{Walk, Aside}
use crack_os.Memory.PageTable.Walk.Pages.{map_page-get_physical_address}
use crack_os.Memory.TempMapping.{
  user_option, is_missing, map_if, map_round, map_loop, map_user_pages,
}

start_page : (a : ℕ) → a + 0 * page_size ≡ a
start_page a = omega arith

round_lem :
    (fuel : ℕ) (s : PageTables) (physical virtual i found : ℕ)
    → get_physical_address s virtual ≡ ok found
    → map_round fuel s physical virtual i
      ≡ map_if fuel
          (is_missing found physical)
          s
          (physical + i * page_size)
          (virtual + i * page_size)
unfolding map_round
round_lem fuel s physical virtual i found h =
    ap
      (λ (r : Run ℕ). r >>= λ n.
        map_if fuel (is_missing n physical) s (physical + i * page_size) (virtual + i * page_size))
      h

round_found :
    (fuel : ℕ) (s : PageTables) (physical virtual i : ℕ)
    → physical ≢ 0
    → get_physical_address s virtual ≡ ok physical
    → map_round fuel s physical virtual i ≡ ok s
unfolding map_if
round_found fuel s physical virtual i h found =
    let there : is_missing physical physical ≡ false = ground arith in
    round_lem fuel s physical virtual i physical found
    ∙ ap (λ (b : Bool). map_if fuel b s (physical + i * page_size) (virtual + i * page_size)) there

round_missing :
    (fuel : ℕ) (s : PageTables) (physical virtual found : ℕ)
    → get_physical_address s virtual ≡ ok found
    → found ≢ physical
    → map_round fuel s physical virtual 0 ≡ map_page fuel s physical virtual user_option
unfolding map_if
round_missing fuel s physical virtual found was other =
    let missing : is_missing found physical ≡ true = ground arith in
    round_lem fuel s physical virtual 0 found was
    ∙ ap (λ (b : Bool). map_if fuel b s (physical + 0 * page_size) (virtual + 0 * page_size))
        missing
    ∙ ap₂ (λ (p v : ℕ). map_page fuel s p v user_option) (start_page physical) (start_page virtual)

-- When the first page is found, no round maps a page.
map_loop-found :
    (fuel left : ℕ) (s : PageTables) (physical virtual i : ℕ)
    → physical ≢ 0
    → get_physical_address s virtual ≡ ok physical
    → map_loop fuel left s physical virtual i ≡ ok s
unfolding map_loop
map_loop-found fuel zero s physical virtual i h found = refl
map_loop-found fuel (suc left) s physical virtual i h found =
    rw (round_found fuel s physical virtual i h found)
      (map_loop-found fuel left s physical virtual (i + 1) h found)

map_loop-first_page :
    (fuel left : ℕ) (s : PageTables) (physical virtual found table3 table2 table1 : ℕ)
    → physical ≢ 0
    → physical % page_size ≡ 0
    → virtual % page_size ≡ 0
    → physical < 2 ^ 48
    → Walk s virtual table3 table2 table1
    → Aside s virtual table3 table2 (table1 + 8 * level1 virtual)
    → get_physical_address s virtual ≡ ok found
    → found ≢ physical
    → map_loop fuel (suc left) s physical virtual 0 ≡ map_page fuel s physical virtual user_option
unfolding map_loop
map_loop-first_page fuel left s physical virtual found table3 table2 table1 h aligned start low w
      aside was other =
    let (t, mapped, translated) =
      map_page-get_physical_address s virtual table3 table2 table1 w aside fuel physical user_option
        low in
    let now : get_physical_address t virtual ≡ ok physical =
      translated virtual refl ∙ ap ok (omega arith) in
    ap (λ (r : Run PageTables). r >>= λ u. map_loop fuel left u physical virtual 1)
      (round_missing fuel s physical virtual found was other ∙ mapped)
    ∙ map_loop-found fuel left t physical virtual 1 h now
    ∙ sym mapped

-- When the first page for `physical`, a page boundary below 2^48 and not 0, is not mapped to it,
-- and its tables are there and not reached through the entry that is written, a call for user mode
-- maps that page and no other, whatever the number of pages, and returns its address.
pub map_user_pages-first_page :
    (fuel left : ℕ) (s : PageTables) (physical found table3 table2 table1 : ℕ)
    → physical ≢ 0
    → physical % page_size ≡ 0
    → physical < 2 ^ 48
    → Walk s (ti 32 + physical) table3 table2 table1
    → Aside s (ti 32 + physical) table3 table2 (table1 + 8 * level1 (ti 32 + physical))
    → get_physical_address s (ti 32 + physical) ≡ ok found
    → found ≢ physical
    → (t : PageTables) × (map_page fuel s physical (ti 32 + physical) user_option ≡ ok t)
      × (map_user_pages fuel s physical (suc left) ≡ ok (ti 32 + physical, t))
unfolding map_user_pages
map_user_pages-first_page fuel left s physical found table3 table2 table1 h aligned low w aside was
      other =
    let virtual = ti 32 + physical in
    let (t, mapped, translated) =
      map_page-get_physical_address s virtual table3 table2 table1 w aside fuel physical user_option
        low in
    let fits : (ti 32 + physical) % 2 ^ 64 ≡ ti 32 + physical = omega arith in
    let start : virtual % page_size ≡ 0 = omega arith in
    let loop : map_loop fuel (suc left) s physical virtual 0 ≡ ok t =
      map_loop-first_page fuel left s physical virtual found table3 table2 table1 h aligned start
        low w aside was other
      ∙ mapped in
    (
      t,
      mapped,
      rw (fits, loop, aligned)
          (ap (λ (n : ℕ). ok (n, t)) (bit_or-zero virtual virtual (omega arith))),
    )
