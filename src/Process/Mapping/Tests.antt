-- ===== src/Process/Mapping/Tests.antt =====
-- Mappings of three entries, of which the second and the third can be merged.
use crack_os.Base.{ℕ, ◌+◌, ◌<◌, ◌≤◌, ◌≡◌, ◌↔◌, ◌⊎◌, inl, refl, arith, none, some, List, [], ◌∷◌}
use crack_os.Base.{ok, ◌==◌, if◌then◌else◌, true, false}
use crack_os.Process.Mapping.{Entry, Heap, Mapping, lower, upper, unmap_range}
use crack_os.Process.Mapping.Segment.{Segment}
use crack_os.Process.Mapping.Split.{Reaches, split_list, unmap_range-split_list}

abbrev entry : ℕ → ℕ → ℕ → ℕ → Entry
entry virt phys size next = record {
  virt_addr = virt;
  phys_addr = phys;
  size = size;
  writable = true;
  executable = false;
  next = next;
}

abbrev first : Entry
first = entry 0x1000 0x90000 0x1000 16

abbrev second : Entry
second = entry 0x10000 0x40000 0x4000 24

abbrev third : Entry
third = entry 0x14000 0x44000 0x2800 0

abbrev memory : Heap
memory p =
    if p == 8
    then some first
    else if p == 16
    then some second
    else if p == 24
    then some third
    else none

abbrev three : Mapping
three = record { heap = memory; head = 8 }

abbrev entries : List (ℕ × Entry)
entries = (8, first) ∷ (16, second) ∷ (24, third) ∷ []

three-Segment : Segment memory 8 entries
three-Segment = ground arith

-- Unmapping the last page of the second entry.
unmap_range-split_list_example :
    (m' : Mapping) × (unmap_range 9 three 32 0x13000 0x1000 ≡ ok m')
    × Segment m'.heap m'.head
        (split_list ((8, first) ∷ []) 16 second 32 0x13000 0x1000 ((24, third) ∷ []))
    × ((a : ℕ)
        → (Reaches (lower second 32 0x13000) a ⊎ Reaches (upper second 0x1000) a)
          ↔ (Reaches second a × ((a < 0x13000) ⊎ (second.virt_addr + 0x1000 ≤ a))))
unmap_range-split_list_example =
    unmap_range-split_list 9 three 32 0x13000 0x1000 ((8, first) ∷ []) 16 second ((24, third) ∷ [])
      three-Segment (refl, tt) refl (omega arith) (inl (omega arith)) (omega arith) (ground arith)
      (omega arith) (omega arith)

abbrev one : Mapping
one = record { heap = λ p. if p == 24 then some third else none; head = 24 }
