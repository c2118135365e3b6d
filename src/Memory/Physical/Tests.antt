-- ===== src/Memory/Physical/Tests.antt =====
-- Runs of the physical allocator on a free list of four regions.
use crack_os.Base.{ℕ, ◌+◌, ◌*◌, ◌≡◌, refl, arith, List, [], ◌∷◌, some}
use crack_os.Base.{ok, ◌==◌, if◌then◌else◌}
use crack_os.Memory.{page_size}
use crack_os.Memory.Physical.{Region, Allocator, unclaimed, window, allocate, free, is_unusable}
use crack_os.Memory.Physical.FreeList.{Interval, Chain, Holds, first_fit, released, placed, joined}
use crack_os.Memory.Physical.Allocate.{Represents, Allocates, allocate-first_fit}
use crack_os.Memory.Physical.Release.{Lists, Releases, free-released}
use crack_os.Memory.Physical.Gap.{FirstHolds, free-claims_gap}

abbrev region : ℕ → ℕ → ℕ → Region
region start count next = record {
  start_page_index = start;
  page_count = count;
  type = unclaimed;
  next_physical_address = next * page_size;
}

abbrev run_of : ℕ → ℕ → Interval
run_of start count = record { start = start; count = count }

abbrev at : ℕ → ℕ
at page = window + page * page_size

abbrev four_regions : ℕ → Region
four_regions p =
    if p == window
    then region 0 0 16
    else if p == at 16
    then region 16 4 64
    else if p == at 64
    then region 64 8 200
    else if p == at 200
    then region 200 4 300
    else region 300 1 0

abbrev machine : Allocator
machine = record {
  mem = four_regions;
  max_address = 0x200_0000;
  total_memory_size = 0x200_0000;
  used_memory_size = 0;
  unusable_region_count = 0;
  usable_regions_count = 4;
}

abbrev runs : List Interval
runs = run_of 16 4 ∷ run_of 64 8 ∷ run_of 200 4 ∷ run_of 300 1 ∷ []

abbrev pointers : List ℕ
pointers = at 16 ∷ at 64 ∷ at 200 ∷ at 300 ∷ []

machine-Chain : Chain four_regions window pointers
machine-Chain = ground arith

machine-Holds : Holds four_regions (window ∷ pointers) (run_of 0 0 ∷ runs)
machine-Holds = ground arith

machine-Represents : Represents machine runs
machine-Represents = record { regions = pointers; chain = machine-Chain; holds = machine-Holds.2 }

machine-Lists : Lists machine (run_of 0 0) runs
machine-Lists = record { regions = pointers; chain = machine-Chain; holds = machine-Holds }

-- Six pages come from the back of the second region.
allocate-first_fit_example :
    Allocates machine 6
      (allocate 5 machine 6)
      (some (66, run_of 16 4 ∷ run_of 64 2 ∷ run_of 200 4 ∷ run_of 300 1 ∷ []))
unfolding first_fit
allocate-first_fit_example = allocate-first_fit 5 machine 6 runs machine-Represents (omega arith)

-- Three pages between the second and the third region go back into the list.
free-released_example : Releases machine (free 9 machine (100 * page_size) 3) (
    some (run_of 0 0 ∷ run_of 16 4 ∷ run_of 64 8 ∷ run_of 100 3 ∷ run_of 200 4 ∷ run_of 300 1 ∷ []))
unfolding released placed joined machine-Lists
free-released_example =
    free-released 9 machine (100 * page_size) 3 (run_of 0 0) runs machine-Lists (omega arith)
      (omega arith) (omega arith) (omega arith) (unfold is_unusable in refl) (omega arith)

-- Page 20 is in use; freeing pages 21 and 22 makes it free.
free-claims_gap_example :
    (m : ℕ → Region) × (qs : List ℕ) × (free 9 machine (21 * page_size) 2
      ≡ ok (record machine { mem = m }))
    × Chain m window qs
    × FirstHolds 20 m qs
unfolding machine-Lists
free-claims_gap_example =
    free-claims_gap 9 machine (21 * page_size) 2 (run_of 0 0) (run_of 16 4) (run_of 64 8)
      (run_of 200 4) (run_of 300 1 ∷ []) machine-Lists refl (omega arith) (omega arith)
      (omega arith) (omega arith) (omega arith) (omega arith) (omega arith)
      (unfold is_unusable in refl) (omega arith)
