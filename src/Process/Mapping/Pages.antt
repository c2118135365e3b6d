-- ===== src/Process/Mapping/Pages.antt =====
-- Mapping::load and Mapping::unload of src/Process/Process.cpp, as the calls of PageTable::map and
-- PageTable::unmap that they make, in their order.
use crack_os.Base.{
  ℕ, zero, suc, ◌+◌, ◌*◌, ◌/◌, ◌^◌, ◌<◌, ◌≤◌, ◌≡◌, ◌≢◌, arith, ap, sym, ◌∙◌, some, List, [], ◌∷◌,
  ◌++◌, length, map,
}
use crack_os.Base.{add64, Run, ok, out_of_fuel, ◌>>=◌, true, false, Bool, ltb, ◌==◌}
use crack_os.Memory.{page_size}
use crack_os.Process.Mapping.{Entry, Heap, Mapping, load_entry}
use crack_os.Process.Mapping.Segment.{Segment}

pub data PageCall : Type 0 where
  map_page : (phys virt : ℕ) (write_enable user_available execute_disable : Bool) → PageCall
  unmap_page : (virt : ℕ) → PageCall

-- The values of the loop variable `i` of both functions from `i` on.
pub offsets : ℕ → ℕ → ℕ → Run (List ℕ)
offsets zero i size = out_of_fuel
offsets (suc fuel) i size =
    let more = offsets fuel (add64 i page_size) size >>= λ is. ok (i ∷ is) in
    elim (ltb i size) [ true ↦ more | false ↦ ok [] ]

pub load_call : Entry → ℕ → PageCall
load_call e i = map_page (add64 e.phys_addr i) (add64 e.virt_addr i) e.writable true false

pub unload_call : Entry → ℕ → PageCall
unload_call e i = unmap_page (add64 e.virt_addr i)

-- The loop over the entries, with the body's call.
pub for_pages : (Entry → ℕ → PageCall) → ℕ → ℕ → Heap → ℕ → Run (List PageCall)
for_pages call pages zero h p = out_of_fuel
for_pages call pages (suc fuel) h p = elim (p == 0) [
  | true ↦ ok []
  | false ↦ load_entry h p >>= λ e. offsets pages 0 e.size >>= λ is.
      for_pages call pages fuel h e.next >>= λ more. ok (map (call e) is ++ more)
]

-- Mapping::load and Mapping::unload
pub load : ℕ → ℕ → Mapping → Run (List PageCall)
load pages fuel m = for_pages load_call pages fuel m.heap m.head

pub unload : ℕ → ℕ → Mapping → Run (List PageCall)
unload pages fuel m = for_pages unload_call pages fuel m.heap m.head

-- The starts of `n` pages from the page `k` on.
unfoldable pub page_starts : ℕ → ℕ → List ℕ
page_starts k zero = []
page_starts k (suc n) = k * page_size ∷ page_starts (k + 1) n

-- The pages that hold `size` bytes.
abbrev pub pages_of : ℕ → ℕ
pages_of size = (size + 4095) / page_size

-- The calls for a list of entries: for each, in their order, one for each page of its size.
unfoldable pub calls : (Entry → ℕ → PageCall) → List (ℕ × Entry) → List PageCall
calls call [] = []
calls call ((p, e) ∷ es) = map (call e) (page_starts 0 (pages_of e.size)) ++ calls call es

-- The sizes of the entries leave room for the loop variable to pass them, within the fuel.
abbrev pub Fits : ℕ → List (ℕ × Entry) → Type 0
Fits pages [] = Unit
Fits pages ((p, e) ∷ es) = (e.size + 4096 ≤ 2 ^ 64) × (pages_of e.size < pages) × Fits pages es

offsets_end : (fuel i size : ℕ) → size ≤ i → offsets (suc fuel) i size ≡ ok []
unfolding offsets
offsets_end fuel i size h = ground arith

offsets_more :
    (fuel i size : ℕ)
    → i < size
    → i + page_size < 2 ^ 64
    → offsets (suc fuel) i size ≡ (offsets fuel (i + page_size) size >>= λ is. ok (i ∷ is))
unfolding offsets
offsets_more fuel i size h w = ground arith

offsets_lem :
    (fuel k n size : ℕ)
    → size + 4096 ≤ 2 ^ 64
    → k + n ≡ pages_of size
    → n < fuel
    → offsets fuel (k * page_size) size ≡ ok (page_starts k n)
unfolding page_starts
offsets_lem zero k n size w c f = absurd (omega arith)
offsets_lem (suc fuel) k zero size w c f = offsets_end fuel (k * page_size) size (omega arith)
offsets_lem (suc fuel) k (suc n) size w c f =
    offsets_more fuel (k * page_size) size (omega arith) (omega arith)
    ∙ ap (λ r. r >>= λ is. ok (k * page_size ∷ is))
        (ap (λ (i : ℕ). offsets fuel i size) (omega arith)
          ∙ offsets_lem fuel (k + 1) n size w (omega arith) (omega arith))

module _ (call : Entry → ℕ → PageCall) (pages : ℕ) where
  for_null : (fuel : ℕ) (h : Heap) → for_pages call pages (suc fuel) h 0 ≡ ok []
  unfolding for_pages
  for_null fuel h = ground arith

  for_step :
      (fuel : ℕ) (h : Heap) (p : ℕ) (e : Entry) (is : List ℕ) (more : List PageCall)
      → p ≢ 0
      → h p ≡ some e
      → offsets pages 0 e.size ≡ ok is
      → for_pages call pages fuel h e.next ≡ ok more
      → for_pages call pages (suc fuel) h p ≡ ok (map (call e) is ++ more)
  unfolding for_pages
  for_step fuel h p e is more n is_e o m = ground arith

  for_pages_lem :
      (fuel : ℕ) (h : Heap) (p : ℕ) (es : List (ℕ × Entry))
      → Segment h p es
      → Fits pages es
      → length es < fuel
      → for_pages call pages fuel h p ≡ ok (calls call es)
  unfolding calls
  for_pages_lem zero h p es s t f = absurd (omega arith)
  for_pages_lem (suc fuel) h p [] s t f = ap (for_pages call pages (suc fuel) h) s ∙ for_null fuel h
  for_pages_lem (suc fuel) h p ((q, e) ∷ es) s t f =
      for_step fuel h p e (page_starts 0 (pages_of e.size)) (calls call es) (λ z. s.1 (sym s.0 ∙ z))
        (ap h s.0 ∙ s.2) (offsets_lem pages 0 (pages_of e.size) e.size t.0 (omega arith) t.1)
        (for_pages_lem fuel h e.next es s.4 t.2 (omega arith))

-- Loading a mapping maps, and unloading it unmaps, for each entry exactly the pages that hold its
-- size, each once and in their order, and both come to an end.
pub load-calls :
    (pages fuel : ℕ) (m : Mapping) (es : List (ℕ × Entry))
    → Segment m.heap m.head es
    → Fits pages es
    → length es < fuel
    → (load pages fuel m ≡ ok (calls load_call es))
      × (unload pages fuel m ≡ ok (calls unload_call es))
unfolding load unload
load-calls pages fuel m es s t f = (
  for_pages_lem load_call pages fuel m.heap m.head es s t f,
  for_pages_lem unload_call pages fuel m.heap m.head es s t f,
)
