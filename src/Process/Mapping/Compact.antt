-- ===== src/Process/Mapping/Compact.antt =====
-- Mapping::compact of src/Process/Process.cpp on a list of entries.
use crack_os.Base.{
  ℕ, zero, suc, ◌+◌, ◌<◌, ◌≡◌, ◌≢◌, refl, arith, ap, sym, subst, ◌∙◌, Option, none, some, List, [],
  ◌∷◌, ◌++◌, length,
}
use crack_os.Base.{update, add64, ok, fault, true, false, Bool}
use crack_os.Process.Mapping.{
  Entry, Heap, Mapping, destroy, continues, merge_next, compact_pass, compact,
}
use crack_os.Process.Mapping.Segment.{Absent, Segment, destroy-Gone, Segment-frame}

-- No entry continues where the one before it ends.
abbrev pub Settled : List (ℕ × Entry) → Type 0
Settled [] = Unit
Settled ((p, e) ∷ []) = Unit
Settled ((p, e) ∷ (q, n) ∷ es) = (continues e n ≡ false) × Settled ((q, n) ∷ es)

module _ (m : Mapping) (c : Bool) where
  pass_null : (fuel : ℕ) → compact_pass (suc fuel) m 0 c ≡ ok (m, c)
  unfolding compact_pass
  pass_null fuel = ground arith

  pass_last :
      (fuel p : ℕ) (e : Entry)
      → p ≢ 0
      → m.heap p ≡ some e
      → e.next ≡ 0
      → compact_pass (suc fuel) m p c ≡ compact_pass fuel m e.next c
  unfolding compact_pass
  pass_last fuel p e z is_e l = ground arith

  pass_skip :
      (fuel p : ℕ) (e n : Entry)
      → p ≢ 0
      → m.heap p ≡ some e
      → e.next ≢ 0
      → m.heap e.next ≡ some n
      → continues e n ≡ false
      → compact_pass (suc fuel) m p c ≡ compact_pass fuel m e.next c
  unfolding compact_pass
  pass_skip fuel p e n z is_e y is_n d = ground arith

  pass_fault :
      (fuel p : ℕ) (e n : Entry)
      → p ≢ 0
      → m.heap p ≡ some e
      → e.next ≢ 0
      → m.heap e.next ≡ some n
      → continues e n ≡ true
      → merge_next fuel m p e n ≡ fault
      → compact_pass (suc fuel) m p c ≡ fault
  unfolding compact_pass
  pass_fault fuel p e n z is_e y is_n d b = ground arith

  pass-Settled :
      (fuel p : ℕ) (es : List (ℕ × Entry))
      → Segment m.heap p es
      → Settled es
      → length es < fuel
      → compact_pass fuel m p c ≡ ok (m, c)
  pass-Settled zero p es s k f = absurd (omega arith)
  pass-Settled (suc fuel) p [] s k f =
      ap (λ (r : ℕ). compact_pass (suc fuel) m r c) s ∙ pass_null fuel
  pass-Settled (suc fuel) p ((q, e) ∷ []) s k f =
      pass_last fuel p e (λ z. s.1 (sym s.0 ∙ z)) (ap m.heap s.0 ∙ s.2) s.4
      ∙ pass-Settled fuel e.next [] s.4 tt (omega arith)
  pass-Settled (suc fuel) p ((q, e) ∷ (o, n) ∷ es) s k f =
      let t = s.4 in
      pass_skip fuel p e n (λ z. s.1 (sym s.0 ∙ z)) (ap m.heap s.0 ∙ s.2) (λ z. t.1 (sym t.0 ∙ z))
        (ap m.heap t.0 ∙ t.2) k.0
      ∙ pass-Settled fuel e.next ((o, n) ∷ es) t k.1 (omega arith)

merge_gone :
    (fuel : ℕ) (m : Mapping) (p : ℕ) (e n : Entry) (h : Heap)
    → destroy fuel (update m.heap p (some (record e { size = add64 e.size n.size }))) e.next ≡ ok h
    → h e.next ≡ none
    → merge_next fuel m p e n ≡ fault
unfolding merge_next
merge_gone fuel m p e n h ran gone = ground arith

module _ (m : Mapping) (c : Bool) (e n : Entry) (q r : ℕ) (more : List (ℕ × Entry)) where
  -- The merge of two entries reads the second one after `delete`.
  merge_lem :
      (fuel p : ℕ)
      → Segment m.heap p ((q, e) ∷ (r, n) ∷ more)
      → length more + 1 < fuel
      → merge_next fuel m p e n ≡ fault
  merge_lem fuel p s f =
      let t = s.4 in
      let grown : Option Entry = some (record e { size = add64 e.size n.size }) in
      let (h, ran, gone) =
        destroy-Gone fuel (update m.heap p grown) e.next ((r, n) ∷ more)
          (Segment-frame m.heap p grown e.next ((r, n) ∷ more) t
            (subst (λ x. Absent x ((r, n) ∷ more)) (sym s.0) s.3))
          (omega arith) in
      merge_gone fuel m p e n h ran (ap h t.0 ∙ gone.0)

  pass_merges :
      (fuel p : ℕ) (es : List (ℕ × Entry))
      → Segment m.heap p (es ++ (q, e) ∷ (r, n) ∷ more)
      → Settled (es ++ (q, e) ∷ [])
      → continues e n ≡ true
      → length (es ++ (q, e) ∷ (r, n) ∷ more) < fuel
      → compact_pass fuel m p c ≡ fault
  pass_merges zero p es s k d f = absurd (omega arith)
  pass_merges (suc fuel) p [] s k d f =
      let t = s.4 in
      pass_fault m c fuel p e n (λ z. s.1 (sym s.0 ∙ z)) (ap m.heap s.0 ∙ s.2)
        (λ z. t.1 (sym t.0 ∙ z)) (ap m.heap t.0 ∙ t.2) d (merge_lem fuel p s (omega arith))
  pass_merges (suc fuel) p ((o, b) ∷ []) s k d f =
      let t = s.4 in
      pass_skip m c fuel p b e (λ z. s.1 (sym s.0 ∙ z)) (ap m.heap s.0 ∙ s.2)
        (λ z. t.1 (sym t.0 ∙ z)) (ap m.heap t.0 ∙ t.2) k.0
      ∙ pass_merges fuel b.next [] t k.1 d (omega arith)
  pass_merges (suc fuel) p ((o, b) ∷ (o', b') ∷ es) s k d f =
      let t = s.4 in
      pass_skip m c fuel p b b' (λ z. s.1 (sym s.0 ∙ z)) (ap m.heap s.0 ∙ s.2)
        (λ z. t.1 (sym t.0 ∙ z)) (ap m.heap t.0 ∙ t.2) k.0
      ∙ pass_merges fuel b.next ((o', b') ∷ es) t k.1 d (omega arith)

compact_done :
    (fuel rounds : ℕ) (m : Mapping)
    → compact_pass fuel m m.head false ≡ ok (m, false)
    → compact fuel (suc rounds) m ≡ ok m
unfolding compact
compact_done fuel rounds m e = rw e refl

compact_stops :
    (fuel rounds : ℕ) (m : Mapping)
    → compact_pass fuel m m.head false ≡ fault
    → compact fuel (suc rounds) m ≡ fault
unfolding compact
compact_stops fuel rounds m e = rw e refl

-- Without an entry that continues the one before it, compact changes nothing.
pub compact-Settled :
    (fuel rounds : ℕ) (m : Mapping) (es : List (ℕ × Entry))
    → Segment m.heap m.head es
    → Settled es
    → length es < fuel
    → compact fuel (suc rounds) m ≡ ok m
compact-Settled fuel rounds m es s k f =
    compact_done fuel rounds m (pass-Settled m false fuel m.head es s k f)

-- When some entry continues the one before it, compact reads it after it was deleted.
pub compact-fault :
    (fuel rounds : ℕ) (m : Mapping) (es : List (ℕ × Entry)) (q : ℕ) (e : Entry) (r : ℕ) (n : Entry)
    (more : List (ℕ × Entry))
    → Segment m.heap m.head (es ++ (q, e) ∷ (r, n) ∷ more)
    → Settled (es ++ (q, e) ∷ [])
    → continues e n ≡ true
    → length (es ++ (q, e) ∷ (r, n) ∷ more) < fuel
    → compact fuel (suc rounds) m ≡ fault
compact-fault fuel rounds m es q e r n more s k c f =
    compact_stops fuel rounds m (pass_merges m false e n q r more fuel m.head es s k c f)
