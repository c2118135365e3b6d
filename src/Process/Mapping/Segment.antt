-- ===== src/Process/Mapping/Segment.antt =====
-- The entries that a pointer leads to, and what `delete` does to them.
use crack_os.Base.{
  ℕ, zero, suc, ◌<◌, ◌≡◌, ◌≢◌, refl, arith, ap, sym, ◌∙◌, Option, none, some, List, [], ◌∷◌, ◌++◌,
  length,
}
use crack_os.Base.{update, update_self, update_ne, ◌>>=◌, ok, Bool}
use crack_os.Process.Mapping.{Entry, Heap, Mapping, destroy, map_range}

-- `x` is the address of no entry.
abbrev pub Absent : ℕ → List (ℕ × Entry) → Type 0
Absent x [] = Unit
Absent x ((p, e) ∷ es) = (x ≢ p) × Absent x es

-- The pointer leads to these entries, at different addresses, and the last one holds null.
abbrev pub Segment : Heap → ℕ → List (ℕ × Entry) → Type 0
Segment h p [] = p ≡ 0
Segment h p ((q, e) ∷ es) = (p ≡ q) × (q ≢ 0) × (h q ≡ some e) × Absent q es × Segment h e.next es

-- The memory of these entries was freed.
abbrev pub Gone : Heap → List (ℕ × Entry) → Type 0
Gone h [] = Unit
Gone h ((q, e) ∷ es) = (h q ≡ none) × Gone h es

none_stays : (h : Heap) (p q : ℕ) → h q ≡ none → update h p none q ≡ none
unfolding update
none_stays h p q n = ground arith

update-Gone : (h : Heap) (p : ℕ) (es : List (ℕ × Entry)) → Gone h es → Gone (update h p none) es
update-Gone h p [] g = tt
update-Gone h p ((q, e) ∷ es) g = (none_stays h p q g.0, update-Gone h p es g.1)

destroy_null : (fuel : ℕ) (h : Heap) → destroy (suc fuel) h 0 ≡ ok h
unfolding destroy
destroy_null fuel h = ground arith

destroy_step :
    (fuel : ℕ) (h : Heap) (p : ℕ) (e : Entry)
    → p ≢ 0
    → h p ≡ some e
    → destroy (suc fuel) h p ≡ (destroy fuel h e.next >>= λ h'. ok (update h' p none))
unfolding destroy
destroy_step fuel h p e n is_e = ground arith

-- `delete` frees every entry that the pointer leads to.
pub destroy-Gone :
    (fuel : ℕ) (h : Heap) (p : ℕ) (es : List (ℕ × Entry))
    → Segment h p es
    → length es < fuel
    → (h' : Heap) × (destroy fuel h p ≡ ok h') × Gone h' es
destroy-Gone zero h p es s f = absurd (omega arith)
destroy-Gone (suc fuel) h p [] s f = (h, ap (destroy (suc fuel) h) s ∙ destroy_null fuel h, tt)
destroy-Gone (suc fuel) h p ((q, e) ∷ es) s f =
    let (h', ran, gone) = destroy-Gone fuel h e.next es s.4 (omega arith) in
    (
      update h' p none,
      destroy_step fuel h p e (λ z. s.1 (sym s.0 ∙ z)) (ap h s.0 ∙ s.2)
          ∙ ap (λ r. r >>= λ h1. ok (update h1 p none)) ran,
      (ap (update h' p none) (sym s.0) ∙ update_self h' p none, update-Gone h' p es gone),
    )

-- An object outside of the list does not matter to it.
pub Segment-frame :
    (h : Heap) (x : ℕ) (r : Option Entry) (p : ℕ) (es : List (ℕ × Entry))
    → Segment h p es
    → Absent x es
    → Segment (update h x r) p es
Segment-frame h x r p [] s a = s
Segment-frame h x r p ((q, e) ∷ es) s a = (
  s.0,
  s.1,
  update_ne h x r q (λ z. a.0 (sym z)) ∙ s.2,
  s.3,
  Segment-frame h x r e.next es s.4 a.1,
)

pub Absent-at :
    (x : ℕ) (pre : List (ℕ × Entry)) (q : ℕ) (e : Entry) (post : List (ℕ × Entry))
    → Absent x (pre ++ (q, e) ∷ post)
    → (x ≢ q) × Absent x post
Absent-at x [] q e post a = a
Absent-at x ((p, d) ∷ pre) q e post a = Absent-at x pre q e post a.1

pub Segment-suffix :
    (h : Heap) (p : ℕ) (pre : List (ℕ × Entry)) (q : ℕ) (e : Entry) (post : List (ℕ × Entry))
    → Segment h p (pre ++ (q, e) ∷ post)
    → Segment h q ((q, e) ∷ post)
Segment-suffix h p [] q e post s = (refl, s.1, s.2, s.3, s.4)
Segment-suffix h p ((o, d) ∷ pre) q e post s = Segment-suffix h d.next pre q e post s.4

pub Gone-at :
    (h : Heap) (pre : List (ℕ × Entry)) (q : ℕ) (e : Entry) (post : List (ℕ × Entry))
    → Gone h (pre ++ (q, e) ∷ post)
    → h q ≡ none
Gone-at h [] q e post g = g.0
Gone-at h ((o, d) ∷ pre) q e post g = Gone-at h pre q e post g.1

-- Mapping::map puts the new entry in front of the list, which it leaves as it was.
pub map_range-Segment :
    (m : Mapping) (new virt phys size : ℕ) (writable executable : Bool) (es : List (ℕ × Entry))
    → Segment m.heap m.head es
    → new ≢ 0
    → Absent new es
    → let m' = map_range m new virt phys size writable executable in
      let e : Entry = record {
        virt_addr = virt;
        phys_addr = phys;
        size = size;
        writable = writable;
        executable = executable;
        next = m.head;
      } in
      Segment m'.heap m'.head ((new, e) ∷ es)
unfolding map_range
map_range-Segment m new virt phys size writable executable es s n a =
    (refl, n, update_self m.heap new _, a, Segment-frame m.heap new _ m.head es s a)
