-- ===== src/Process/Mapping.antt =====
-- Mapping of header/Process/Process.hpp and src/Process/Process.cpp: a list of entries, each owned
-- by the `unique_ptr` before it (header/LanguageFeatures/SmartPointer.hpp). The heap is explicit:
-- `none` is memory that holds no entry, because it was never allocated or was freed.
pub mod Segment
pub mod Unmap
pub mod Compact
pub mod Pages
pub mod Split
mod Tests
use crack_os.Base.{
  ℕ, zero, suc, ◌+◌, ◌<◌, Bool, true, false, ◌&&◌, Option, none, some, List, [], ◌∷◌, ◌++◌,
}
use crack_os.Base.{
  ltb, leb, ◌==◌, if◌then◌else◌, add64, sub64, update, Run, ok, fault, out_of_fuel, ◌>>=◌,
}
use crack_os.Memory.{page_size}

-- Mapping::Entry; the null pointer is 0.
pub record Entry : Type 0 where
  pub virt_addr : ℕ
  pub phys_addr : ℕ
  pub size : ℕ
  pub writable : Bool
  pub executable : Bool
  pub next : ℕ

abbrev pub Heap : Type 0
Heap = ℕ → Option Entry

pub record Mapping : Type 0 where
  pub heap : Heap
  pub head : ℕ

-- A read through a pointer to an entry.
abbrev pub load_entry : Heap → ℕ → Run Entry
load_entry h p = elim (h p) [ none ↦ fault | some e ↦ ok e ]

-- `delete` of an entry: its destructor deletes the rest of the list before the memory is freed.
pub destroy : ℕ → Heap → ℕ → Run Heap
destroy zero h p = out_of_fuel
destroy (suc fuel) h p = elim (p == 0) [
  | true ↦ ok h
  | false ↦ load_entry h p >>= λ e. destroy fuel h e.next >>= λ h'. ok (update h' p none)
]

-- Mapping::map, with the new entry at `new`.
pub map_range : Mapping → ℕ → ℕ → ℕ → ℕ → Bool → Bool → Mapping
map_range m new virt phys size writable executable =
    let entry : Entry = record {
      virt_addr = virt;
      phys_addr = phys;
      size = size;
      writable = writable;
      executable = executable;
      next = m.head;
    } in
    record { heap = update m.heap new (some entry); head = new }

-- `head = std::move(entry->next)`: the assignment deletes the old head first, and reads
-- `entry->next` only then.
pub take_next : ℕ → Mapping → ℕ → Run Mapping
take_next fuel m p = destroy fuel m.heap m.head >>= λ h. load_entry h p >>= λ e.
    ok (record { heap = update h p (some (record e { next = 0 })); head = e.next })

-- The new entry of a split, and what the split leaves of the old one.
abbrev pub upper : Entry → ℕ → Entry
upper e size = record e {
  virt_addr = add64 e.virt_addr size;
  phys_addr = add64 e.phys_addr size;
  size = sub64 e.size size;
}

abbrev pub lower : Entry → ℕ → ℕ → Entry
lower e new virt = record e { size = sub64 virt e.virt_addr; next = new }

-- The branch of unmap that splits an entry, with the new entry at `new`.
pub split_entry : Mapping → ℕ → ℕ → Entry → ℕ → ℕ → Mapping
split_entry m new p e virt size = record m {
  heap = update (update m.heap new (some (upper e size))) p (some (lower e new virt));
}

abbrev pub contains : Entry → ℕ → ℕ → Bool
contains e virt size = leb e.virt_addr virt && leb (add64 virt size) (add64 e.virt_addr e.size)

-- The loop of unmap.
pub unmap_from : ℕ → Mapping → ℕ → ℕ → ℕ → ℕ → Run Mapping
unmap_from zero m new p virt size = out_of_fuel
unmap_from (suc fuel) m new p virt size = elim (p == 0) [
  | true ↦ ok m
  | false ↦ load_entry m.heap p >>= λ e. elim (contains e virt size) [
    | true ↦
        if e.virt_addr == virt && e.size == size
        then take_next fuel m p
        else ok (split_entry m new p e virt size)
    | false ↦ unmap_from fuel m new e.next virt size
  ]
]

-- Mapping::unmap
pub unmap_range : ℕ → Mapping → ℕ → ℕ → ℕ → Run Mapping
unmap_range fuel m new virt size = unmap_from fuel m new m.head virt size

abbrev pub continues : Entry → Entry → Bool
continues e n = add64 e.virt_addr e.size == n.virt_addr && add64 e.phys_addr e.size == n.phys_addr

-- The branch of compact that merges: `entry->size` grows, and `entry->next` is assigned
-- `std::move(entry->next->next)`, which deletes the next entry before it reads its `next`.
pub merge_next : ℕ → Mapping → ℕ → Entry → Entry → Run Mapping
merge_next fuel m p e n =
    let grown : Entry = record e { size = add64 e.size n.size } in
    destroy fuel (update m.heap p (some grown)) e.next >>= λ h. load_entry h e.next >>= λ gone.
    ok (record m { heap = update h p (some (record grown { next = gone.next })) })

-- One round of compact's outer loop from the entry at `p` on.
pub compact_pass : ℕ → Mapping → ℕ → Bool → Run (Mapping × Bool)
compact_pass zero m p compacted = out_of_fuel
compact_pass (suc fuel) m p compacted = elim (p == 0) [
  | true ↦ ok (m, compacted)
  | false ↦ load_entry m.heap p >>= λ e. elim (e.next == 0) [
    | true ↦ compact_pass fuel m e.next compacted
    | false ↦ load_entry m.heap e.next >>= λ n. elim (continues e n) [
      | true ↦ merge_next fuel m p e n >>= λ m'.
          load_entry m'.heap p >>= λ e'. compact_pass fuel m' e'.next true
      | false ↦ compact_pass fuel m e.next compacted
    ]
  ]
]

-- Mapping::compact, with `rounds` for its outer loop.
pub compact : ℕ → ℕ → Mapping → Run Mapping
compact fuel zero m = out_of_fuel
compact fuel (suc rounds) m = compact_pass fuel m m.head false >>= λ r. elim r.1 [
  | true ↦ compact fuel rounds r.0
  | false ↦ ok r.0
]
