-- ===== src/Memory/Physical/Gap.antt =====
-- What the joining at the end of freePhysicalMemory does to the pages between two free regions.
use crack_os.Base.{ℕ, ◌+◌, ◌*◌, ◌/◌, ◌≤◌, ◌<◌, ◌≡◌, ◌≢◌, refl, arith, ap, subst, ◌∙◌}
use crack_os.Base.{List, [], ◌∷◌, Option, some, length, false, ok, inl, inr}
use crack_os.Memory.{page_size, gi}
use crack_os.Memory.Physical.{Region, Allocator, window, is_unusable, free}
use crack_os.Memory.Physical.FreeList.{Interval, Fresh, Chain, Holds, placed, joined, released}
use crack_os.Memory.Physical.Connect.{joined_join, joined_pass, ==_cases}
use crack_os.Memory.Physical.Scan.{new_at, placed_onward, placed_here, placing}
use crack_os.Memory.Physical.Release.{Lists, Releases, free-released, released_onward, joining}

-- The page lies in the first interval of the list.
abbrev InFirst : ℕ → List Interval → Type 0
InFirst g [] = ⊥
InFirst g (i ∷ is) = (i.start ≤ g) × (g < i.start + i.count)

joined-InFirst :
    (g : ℕ) (i : Interval) (is : List Interval)
    → i.start ≤ g
    → g < i.start + i.count
    → InFirst g (joined i is)
joined-InFirst g i [] le lt = unfold joined in (le, lt)
joined-InFirst g i (j ∷ []) le lt = unfold joined in (le, lt)
joined-InFirst g i (j ∷ k ∷ is) le lt = elim (==_cases (i.start + i.count + 1) j.start) [
  | inl e ↦
      rw (joined_join i j k is e)
        (joined-InFirst g (record i { count = i.count + j.count }) (k ∷ is) le (omega arith))
  | inr n ↦ rw (joined_pass i j k is n) (le, lt)
]

-- The regions `i`, `j` and `k` follow the special first one, and `page` is the second page after
-- `i`.
module _ (page count : ℕ) (first i j k : Interval) (is : List Interval)
    (next : i.start + i.count + 1 ≡ page) (before : page + count < j.start) (some_pages : 0 < count)
    (apart : first.start + first.count < page)
    (other : first.start + first.count + 1 ≢ i.start) where
  gap_placed :
      placed page count first (i ∷ j ∷ k ∷ is)
      ≡ some (i ∷ record { start = page; count = count } ∷ j ∷ k ∷ is)
  gap_placed =
      placed_onward page count first i j (k ∷ is) (ground arith) (ground arith)
      ∙ ap (placing i) (placed_here page count i j k is (ground arith) (ground arith))

  gap_released :
      released page count first (i ∷ j ∷ k ∷ is)
      ≡ some (first ∷ joined (record i { count = i.count + count }) (j ∷ k ∷ is))
  gap_released =
      released_onward page count first i (j ∷ k ∷ is) (ground arith)
      ∙ ap (joining first) gap_placed
      ∙ ap {B = Option (List Interval)} some (
          joined_pass first i (record { start = page; count = count }) (j ∷ k ∷ is) other
          ∙ ap (λ rest. first ∷ rest)
              (joined_join i (record { start = page; count = count }) j (k ∷ is) next))

-- The list's first region after the special one holds the page.
pub record FirstHolds (g : ℕ) (m : ℕ → Region) (qs : List ℕ) : Type 0 where
  pub region : ℕ
  pub rest : List ℕ
  pub at_front : qs ≡ region ∷ rest
  pub from : (m region).start_page_index ≤ g
  pub to : g < (m region).start_page_index + (m region).page_count

FirstHolds-of :
    (g : ℕ) (m : ℕ → Region) (qs : List ℕ) (is : List Interval)
    → Holds m qs is
    → InFirst g is
    → FirstHolds g m qs
FirstHolds-of g m [] [] h f = absurd f
FirstHolds-of g m [] (i ∷ is) h f = absurd h
FirstHolds-of g m (q ∷ qs) [] h f = absurd h
FirstHolds-of g m (q ∷ qs) (i ∷ is) h f = record {
  region = q;
  rest = qs;
  at_front = refl;
  from = ground arith;
  to = ground arith;
}

-- Where the freed pages begin one page after the first free region ends, and lie before the second
-- one, `free` makes the page in between free too: it returns with a free list whose first region
-- holds that page, which neither the region nor the freed pages held. The special first descriptor
-- ends before the pages and does not adjoin the region, and the other premises are those of
-- `free-released`.
pub free-claims_gap :
    (fuel : ℕ) (s : Allocator) (address count : ℕ) (first i j k : Interval) (is : List Interval)
    (v : Lists s first (i ∷ j ∷ k ∷ is))
    → i.start + i.count + 1 ≡ address / page_size
    → address / page_size + count < j.start
    → 0 < count
    → first.start + first.count < address / page_size
    → first.start + first.count + 1 ≢ i.start
    → Fresh (new_at (address / page_size)) (window ∷ v.regions)
    → address / page_size * page_size < gi 512
    → address / page_size + count < 0x10_0000_0000_0000
    → is_unusable s.unusable_region_count s.mem (address / page_size) count 1 ≡ false
    → length is + 4 < fuel
    → (m : ℕ → Region) × (qs : List ℕ) × (free fuel s address count ≡ ok (record s { mem = m }))
      × Chain m window qs
      × FirstHolds (i.start + i.count) m qs
free-claims_gap fuel s address count first i j k is v next before pos apart other fresh low few
      usable f =
    let page = address / page_size in
    let done =
      subst (Releases s (free fuel s address count))
        (gap_released page count first i j k is next before pos apart other)
        (free-released fuel s address count first (i ∷ j ∷ k ∷ is) v fresh (ground arith) low few
          usable (omega arith)) in
    let (m, qs, ran, chain, holds) = done in
    (
      m,
      qs,
      ran,
      chain,
      FirstHolds-of (i.start + i.count) m qs _ holds.2 (
          joined-InFirst (i.start + i.count) (record i { count = i.count + count }) (j ∷ k ∷ is)
            (omega arith) (omega arith)),
    )
