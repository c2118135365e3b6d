-- ===== src/Process/Mapping/Unmap.antt =====
-- Mapping::unmap of src/Process/Process.cpp on a list of entries.
use crack_os.Base.{
  ℕ, zero, suc, ◌+◌, ◌-◌, ◌<◌, ◌≡◌, ◌≢◌, arith, ap, ap₂, sym, ◌∙◌, none, some, List, [], ◌∷◌, ◌++◌,
  length, ◌&&◌,
}
use crack_os.Base.{ok, fault, ◌==◌, true, false, if◌then◌else◌}
use crack_os.Process.Mapping.{
  Entry, Heap, Mapping, destroy, split_entry, contains, take_next, unmap_from, unmap_range,
}
use crack_os.Process.Mapping.Segment.{Segment, destroy-Gone, Segment-suffix, Gone-at}

-- None of the entries contains the range.
abbrev pub Skips : ℕ → ℕ → List (ℕ × Entry) → Type 0
Skips virt size [] = Unit
Skips virt size ((p, e) ∷ es) = (contains e virt size ≡ false) × Skips virt size es

module _ (m : Mapping) (new virt size : ℕ) where
  unmap_null : (fuel : ℕ) → unmap_from (suc fuel) m new 0 virt size ≡ ok m
  unfolding unmap_from
  unmap_null fuel = ground arith

  unmap_skip :
      (fuel p : ℕ) (e : Entry)
      → p ≢ 0
      → m.heap p ≡ some e
      → contains e virt size ≡ false
      → unmap_from (suc fuel) m new p virt size ≡ unmap_from fuel m new e.next virt size
  unfolding unmap_from
  unmap_skip fuel p e n is_e h = ground arith

  unmap_found :
      (fuel p : ℕ) (e : Entry)
      → p ≢ 0
      → m.heap p ≡ some e
      → contains e virt size ≡ true
      → unmap_from (suc fuel) m new p virt size ≡ (
          if e.virt_addr == virt && e.size == size
          then take_next fuel m p
          else ok (split_entry m new p e virt size))
  unfolding unmap_from
  unmap_found fuel p e n is_e h = ground arith

  unmap_walk :
      (n fuel p : ℕ) (pre : List (ℕ × Entry)) (q : ℕ) (e : Entry) (post : List (ℕ × Entry))
      → Segment m.heap p (pre ++ (q, e) ∷ post)
      → Skips virt size pre
      → n ≡ length pre + fuel
      → unmap_from n m new p virt size ≡ unmap_from fuel m new q virt size
  unmap_walk n fuel p [] q e post s k c =
      ap₂ (λ (i r : ℕ). unmap_from i m new r virt size) (omega (arith, c)) s.0
  unmap_walk zero fuel p ((o, d) ∷ pre) q e post s k c = absurd (omega arith)
  unmap_walk (suc n) fuel p ((o, d) ∷ pre) q e post s k c =
      unmap_skip n p d (λ z. s.1 (sym s.0 ∙ z)) (ap m.heap s.0 ∙ s.2) k.0
      ∙ unmap_walk n fuel d.next pre q e post s.4 k.1 (omega arith)

  unmap_none :
      (fuel p : ℕ) (es : List (ℕ × Entry))
      → Segment m.heap p es
      → Skips virt size es
      → length es < fuel
      → unmap_from fuel m new p virt size ≡ ok m
  unmap_none zero p es s k f = absurd (omega arith)
  unmap_none (suc fuel) p [] s k f =
      ap (λ (r : ℕ). unmap_from (suc fuel) m new r virt size) s ∙ unmap_null fuel
  unmap_none (suc fuel) p ((o, d) ∷ es) s k f =
      unmap_skip fuel p d (λ z. s.1 (sym s.0 ∙ z)) (ap m.heap s.0 ∙ s.2) k.0
      ∙ unmap_none fuel d.next es s.4 k.1 (omega arith)

take_next_gone :
    (fuel : ℕ) (m : Mapping) (p : ℕ) (h : Heap)
    → destroy fuel m.heap m.head ≡ ok h
    → h p ≡ none
    → take_next fuel m p ≡ fault
unfolding take_next
take_next_gone fuel m p h ran gone = ground arith

-- Moving the list on behind an entry that it holds reads that entry after `delete`.
take_next_lem :
    (fuel : ℕ) (m : Mapping) (pre : List (ℕ × Entry)) (q : ℕ) (e : Entry) (post : List (ℕ × Entry))
    → Segment m.heap m.head (pre ++ (q, e) ∷ post)
    → length (pre ++ (q, e) ∷ post) < fuel
    → take_next fuel m q ≡ fault
take_next_lem fuel m pre q e post s f =
    let (h, ran, gone) = destroy-Gone fuel m.heap m.head (pre ++ (q, e) ∷ post) s f in
    take_next_gone fuel m q h ran (Gone-at h pre q e post gone)

module _ (fuel : ℕ) (m : Mapping) (new virt size : ℕ) (es : List (ℕ × Entry)) (q : ℕ) (e : Entry)
    (more : List (ℕ × Entry)) (s : Segment m.heap m.head (es ++ (q, e) ∷ more))
    (k : Skips virt size es) (c : contains e virt size ≡ true)
    (f : length es + length (es ++ (q, e) ∷ more) + 1 < fuel) where
  pub unmap_at : unmap_range fuel m new virt size ≡ (
      if e.virt_addr == virt && e.size == size
      then take_next (fuel - length es - 1) m q
      else ok (split_entry m new q e virt size))
  unfolding unmap_range
  unmap_at =
      let at = Segment-suffix m.heap m.head es q e more s in
      unmap_walk m new virt size fuel (suc (fuel - length es - 1)) m.head es q e more s k
        (omega arith)
      ∙ unmap_found m new virt size (fuel - length es - 1) q e at.1 at.2 c

  -- When the first entry that contains the range is that range exactly, unmap reads the entry's
  -- `next` after the whole list up from its head was deleted.
  pub unmap_range-fault :
      e.virt_addr ≡ virt → e.size ≡ size → unmap_range fuel m new virt size ≡ fault
  unmap_range-fault v z =
      rw (unmap_at, v, z)
        (ground (arith, take_next_lem (fuel - length es - 1) m es q e more s (omega arith)))
