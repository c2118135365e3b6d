-- ===== src/Memory/Physical/Free.antt =====
-- What freePhysicalMemory does with pages that touch a free region.
use crack_os.Base.{◌∙◌, ℕ, zero, suc, ◌+◌, ◌*◌, ◌/◌, ◌≤◌, ◌<◌, ◌≡◌, inl, inr, ◌⊎◌, arith, ◌≢◌}
use crack_os.Base.{List, [], ◌∷◌, Option, none, some, length}
use crack_os.Base.{ok, stopped}
use crack_os.Memory.{page_size, gi, ti}
use crack_os.Memory.Physical.{Region, Allocator, window, map_pages, free_scan, free, allocate}
use crack_os.Memory.Physical.FreeList.{Interval, interval, Chain, Holds, Holds-length, first_fit}
use crack_os.Memory.Physical.Allocate.{
  Represents, Allocates, allocate-first_fit, fit_all, fit_some, fit_skip, keeping, order,
}

le_cases : (a b : ℕ) → (a ≤ b) ⊎ (b < a)
le_cases a b = grind arith

-- Pages that overlap an interval or adjoin it.
abbrev pub Touches : ℕ → ℕ → Interval → Type 0
Touches page count i = (page ≤ i.start + i.count) × (i.start ≤ page + count)

-- Some interval, but not the last, touches the pages, and those before it end before the pages.
abbrev pub Blocked : ℕ → ℕ → List Interval → Type 0
Blocked page count [] = ⊥
Blocked page count (i ∷ []) = ⊥
Blocked page count (i ∷ j ∷ is) =
    Touches page count i ⊎ ((i.start + i.count ≤ page) × Blocked page count (j ∷ is))

module _ (fuel : ℕ) (mem : ℕ → Region) (page count : ℕ) (last : Option ℕ) (p : ℕ) (i : Interval)
    (at : interval (mem p) ≡ i) (some_next : (mem p).next_physical_address ≢ 0)
    (small : i.start + i.count < 0x10_0000_0000_0000)
    (few : page + count < 0x10_0000_0000_0000) where
  scan_touch : Touches page count i → free_scan (suc fuel) mem page count last p ≡ ok none
  unfolding free_scan
  scan_touch t = ground arith

  scan_pass :
      (mem p).next_physical_address < gi 512
      → i.start + i.count < page
      → free_scan (suc fuel) mem page count last p
        ≡ free_scan fuel mem page count (some p) ((mem p).next_physical_address + ti 32 + ti 64)
  unfolding free_scan map_pages
  scan_pass low t = ground arith

-- The loop finds the interval that blocks the pages, and says that there is nothing to free.
scan-Blocked :
    (fuel : ℕ) (mem : ℕ → Region) (page count : ℕ) (last : Option ℕ) (p : ℕ) (ps : List ℕ)
    (i : Interval) (is : List Interval)
    → Chain mem p ps
    → Holds mem (p ∷ ps) (i ∷ is)
    → page + count < 0x10_0000_0000_0000
    → Blocked page count (i ∷ is)
    → length ps < fuel
    → free_scan fuel mem page count last p ≡ ok none
scan-Blocked zero mem page count last p ps i is c h few b f = absurd (omega arith)
scan-Blocked (suc fuel) mem page count last p [] i [] c h few b f = absurd b
scan-Blocked (suc fuel) mem page count last p [] i (j ∷ js) c h few b f = absurd h.2
scan-Blocked (suc fuel) mem page count last p (q ∷ qs) i [] c h few b f = absurd h.2
scan-Blocked (suc fuel) mem page count last p (q ∷ qs) i (j ∷ js) c h few (inl t) f =
    scan_touch fuel mem page count last p i h.0 c.0 h.1 few t
scan-Blocked (suc fuel) mem page count last p (q ∷ qs) i (j ∷ js) c h few (inr (le, b)) f =
    elim (le_cases page (i.start + i.count)) [
      | inl near ↦ scan_touch fuel mem page count last p i h.0 c.0 h.1 few (omega arith)
      | inr far ↦
          scan_pass fuel mem page count last p i h.0 c.0 h.1 few c.1 far
          ∙ rw (← c.2)
              (scan-Blocked fuel mem page count (some p) q qs j js c.4 h.2 few b (omega arith))
    ]

-- The first descriptor is passed, or blocks the pages itself.
scan_first :
    (fuel : ℕ) (mem : ℕ → Region) (page count p : ℕ)
    → (mem p).next_physical_address ≢ 0
    → (mem p).next_physical_address < gi 512
    → free_scan fuel mem page count (some p) ((mem p).next_physical_address + ti 32 + ti 64)
      ≡ ok none
    → free_scan (suc fuel) mem page count none p ≡ ok none
unfolding free_scan map_pages
scan_first fuel mem page count p e low h = ground arith

scan_list :
    (fuel : ℕ) (mem : ℕ → Region) (page count p : ℕ) (ps : List ℕ) (is : List Interval)
    → Chain mem p ps
    → Holds mem ps is
    → page + count < 0x10_0000_0000_0000
    → Blocked page count is
    → length is < fuel
    → free_scan fuel mem page count none p ≡ ok none
scan_list zero mem page count p ps is c h few b f = absurd (omega arith)
scan_list (suc fuel) mem page count p [] [] c h few b f = absurd b
scan_list (suc fuel) mem page count p [] (i ∷ is) c h few b f = absurd h
scan_list (suc fuel) mem page count p (q ∷ qs) [] c h few b f = absurd h
scan_list (suc fuel) mem page count p (q ∷ qs) (i ∷ is) c h few b f =
    scan_first fuel mem page count p c.0 c.1 (
      rw (← c.2) (
        scan-Blocked fuel mem page count (some p) q qs i is c.4 h few b
          (omega (arith, Holds-length mem qs is h.2))))

-- Freeing pages that overlap or adjoin a free region, not the last of the list, whose predecessors
-- end before the pages, changes nothing.
free-Blocked :
    (fuel : ℕ) (s : Allocator) (page count : ℕ) (is : List Interval) (v : Represents s is)
    → page + count < 0x10_0000_0000_0000
    → Blocked page count is
    → length is < fuel
    → free fuel s (page * page_size) count ≡ ok s
unfolding free
free-Blocked fuel s page count is v few b f =
    let same : page * page_size / page_size ≡ page = omega arith in
    rw (same, scan_list fuel s.mem page count window v.regions is v.chain v.holds few b f)
      (ground arith)

-- The intervals follow one another, with none overlapping the next.
abbrev pub Sorted : List Interval → Type 0
Sorted [] = Unit
Sorted (i ∷ []) = Unit
Sorted (i ∷ j ∷ is) = (i.start + i.count ≤ j.start) × Sorted (j ∷ is)

-- No sum of an interval passes 2 ^ 52.
abbrev pub Small : List Interval → Type 0
Small [] = Unit
Small (i ∷ is) = (i.start + i.count < 0x10_0000_0000_0000) × Small is

Holds-Small : (m : ℕ → Region) (ps : List ℕ) (is : List Interval) → Holds m ps is → Small is
Holds-Small m [] [] h = tt
Holds-Small m [] (i ∷ is) h = absurd h
Holds-Small m (p ∷ ps) [] h = absurd h
Holds-Small m (p ∷ ps) (i ∷ is) h = (h.1, Holds-Small m ps is h.2)

-- The first interval, if any, starts at or before the page.
abbrev StartsBefore : ℕ → List Interval → Type 0
StartsBefore page [] = Unit
StartsBefore page (i ∷ is) = i.start ≤ page

-- What first fit takes from the back of an interval is blocked by what is left of it.
abbrev Leaves : ℕ → List Interval → Option (ℕ × List Interval) → Type 0
Leaves count is none = Unit
Leaves count is (some (page, rest)) =
    (length rest ≡ length is → Blocked page count rest)
    × (page + count < 0x10_0000_0000_0000)
    × StartsBefore page is

Blocked-cons :
    (page count : ℕ) (i : Interval) (is : List Interval)
    → i.start + i.count ≤ page
    → Blocked page count is
    → Blocked page count (i ∷ is)
Blocked-cons page count i [] le b = absurd b
Blocked-cons page count i (j ∷ is) le b = inr (le, b)

Leaves-keeping :
    (count : ℕ) (i j : Interval) (is : List Interval) (o : Option (ℕ × List Interval))
    → i.start + i.count ≤ j.start
    → Leaves count (j ∷ is) o
    → Leaves count (i ∷ j ∷ is) (keeping count i j is o)
Leaves-keeping count i j is none le h = tt
Leaves-keeping count i j is (some (page, rest)) le (b, few, before) =
    (λ e. Blocked-cons page count i rest (omega arith) (b (omega arith)), few, omega arith)

first_fit-Leaves :
    (count : ℕ) (is : List Interval) → Sorted is → Small is → Leaves count is (first_fit count is)
unfolding first_fit
first_fit-Leaves count [] o small = tt
first_fit-Leaves count (i ∷ []) o small = tt
first_fit-Leaves count (i ∷ j ∷ is) o small = elim (order i.count count) [
  | inl lt ↦ rw (fit_skip count i j is lt) (
      Leaves-keeping count i j is (first_fit count (j ∷ is)) o.0
        (first_fit-Leaves count (j ∷ is) o.1 small.1))
  | inr (inl eq) ↦
      rw (fit_all count i j is eq) (λ e. absurd (omega arith), omega arith, omega arith)
  | inr (inr gt) ↦
      rw (fit_some count i j is gt) (λ e. inl (omega arith, omega arith), omega arith, omega arith)
]

-- Pages that first fit took from a region without using it up are allocated, and not freed again.
abbrev pub FreeIsLost : ℕ → Allocator → ℕ → List Interval → Option (ℕ × List Interval) → Type 0
FreeIsLost fuel s count is none = allocate fuel s count ≡ stopped
FreeIsLost fuel s count is (some (page, rest)) =
    length rest ≡ length is
    → (t : Allocator) × (allocate fuel s count ≡ ok (page * page_size, t))
      × (free fuel t (page * page_size) count ≡ ok t)

FreeIsLost-of :
    (fuel : ℕ) (s : Allocator) (count : ℕ) (is : List Interval) (o : Option (ℕ × List Interval))
    → length is < fuel
    → Leaves count is o
    → Allocates s count (allocate fuel s count) o
    → FreeIsLost fuel s count is o
FreeIsLost-of fuel s count is none f leaves ran = ran
FreeIsLost-of fuel s count is (some (page, rest)) f leaves (t, ran, v, _) =
    λ same. (t, ran, free-Blocked fuel t page count rest v leaves.1 (leaves.0 same) (omega arith))

-- A call of `allocate` that took its pages from a region without using it up cannot be undone: in
-- a list of regions in order of their pages, with fuel above their number, `free` of just these
-- pages leaves the allocator as it is. Where `allocate` finds no region, the machine stops.
pub free-allocate_lost :
    (fuel : ℕ) (s : Allocator) (count : ℕ) (is : List Interval)
    → Represents s is
    → Sorted is
    → length is < fuel
    → FreeIsLost fuel s count is (first_fit count is)
free-allocate_lost fuel s count is v o f =
    FreeIsLost-of fuel s count is (first_fit count is) f
      (first_fit-Leaves count is o (Holds-Small s.mem v.regions is v.holds))
      (allocate-first_fit fuel s count is v f)
