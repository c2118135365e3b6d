-- ===== src/Memory/Physical/Connect.antt =====
-- The second loop of freePhysicalMemory against the joining of intervals.
use crack_os.Base.{◌∙◌, ℕ, zero, suc, ◌+◌, ◌^◌, ◌<◌, ◌≡◌, refl, inl, inr, ◌⊎◌, arith, ap, ◌≢◌}
use crack_os.Base.{List, [], ◌∷◌, some, length}
use crack_os.Base.{add64, Run, ok}
use crack_os.Memory.{gi, ti}
use crack_os.Memory.Physical.{Region, map_pages, join, connect}
use crack_os.Memory.Physical.FreeList.{
  Interval, interval, Fresh, Chain, Holds, joined, Agree, Agree-self, set_next-Agree,
  set_count-Agree, set_next_self, set_next_ne, set_count_self, set_count_ne, Chain-frame,
  Holds-frame, next_eq,
}

module _ (fuel : ℕ) (mem : ℕ → Region) (l p : ℕ) (i j : Interval) (at_l : interval (mem l) ≡ i)
    (at_p : interval (mem p) ≡ j) (small_i : i.start + i.count < 0x10_0000_0000_0000)
    (small_j : j.start + j.count < 0x10_0000_0000_0000) where
  connect-join :
      (mem p).next_physical_address ≢ 0
      → (join mem l p l).next_physical_address < gi 512
      → i.start + i.count + 1 ≡ j.start
      → connect (suc fuel) mem (some l) p
        ≡ connect fuel
            (join mem l p)
            (some l)
            ((join mem l p l).next_physical_address + ti 32 + ti 64)
  unfolding connect map_pages
  connect-join e low eq = ground arith

  connect_onward :
      (mem p).next_physical_address ≢ 0
      → (mem p).next_physical_address < gi 512
      → i.start + i.count + 1 ≢ j.start
      → connect (suc fuel) mem (some l) p
        ≡ connect fuel mem (some p) ((mem p).next_physical_address + ti 32 + ti 64)
  unfolding connect map_pages
  connect_onward e low ne = ground arith

-- The joined descriptor leads on to where `p` led, and has the pages of both.
module _ (mem : ℕ → Region) (l p q : ℕ) (qs : List ℕ) (c : Chain mem l (p ∷ q ∷ qs)) where
  join-Agree : Agree mem (join mem l p) (q ∷ qs)
  unfolding join
  join-Agree = set_next-Agree mem _ p 0 (q ∷ qs) c.4.3 (
      set_next-Agree mem _ l _ (q ∷ qs) c.3.1
        (set_count-Agree mem mem l _ (q ∷ qs) c.3.1 (Agree-self mem (q ∷ qs))))

  join_self : join mem l p l ≡ record (mem l) {
    page_count = add64 (mem l).page_count (mem p).page_count;
    next_physical_address = (mem p).next_physical_address;
  }
  unfolding join
  join_self =
      set_next_ne _ p 0 l c.3.0
      ∙ (set_next_self _ l _
          ∙ ap {A = Region}
              (λ r. record r { next_physical_address = (mem p).next_physical_address })
              (set_count_self mem l _))

  join_next : (join mem l p l).next_physical_address ≡ (mem p).next_physical_address
  join_next = ap (λ r. r.next_physical_address) join_self

  join_pages :
      (i j : Interval)
      → interval (mem l) ≡ i
      → interval (mem p) ≡ j
      → i.count + j.count < 2 ^ 64
      → interval (join mem l p l) ≡ record i { count = i.count + j.count }
  join_pages i j at_l at_p small = ap interval join_self ∙ ground arith

  join_frame : (x : ℕ) → Fresh x (l ∷ p ∷ q ∷ qs) → join mem l p x ≡ mem x
  unfolding join
  join_frame x f = set_next_ne _ p 0 x f.1.0 ∙ set_next_ne _ l _ x f.0 ∙ set_count_ne mem l _ x f.0

-- What the loop leaves of a chain: the joined intervals, and nothing changed elsewhere.
abbrev pub Joins : (ℕ → Region) → ℕ → List ℕ → List Interval → Run (ℕ → Region) → Type 0
Joins mem l ps is r =
    (m : ℕ → Region) × (qs : List ℕ) × (r ≡ ok m)
    × Chain m l qs
    × Holds m (l ∷ qs) is
    × ((x : ℕ) → Fresh x (l ∷ ps) → m x ≡ mem x)
    × ((x : ℕ) → Fresh x ps → Fresh x qs)

Joins-pass :
    (mem : ℕ → Region) (l p : ℕ) (ps : List ℕ) (i : Interval) (is : List Interval)
    (r : Run (ℕ → Region))
    → Chain mem l (p ∷ ps)
    → interval (mem l) ≡ i
    → i.start + i.count < 0x10_0000_0000_0000
    → Joins mem p ps is r
    → Joins mem l (p ∷ ps) (i ∷ is) r
Joins-pass mem l p ps i is r c e small (m, qs, ran, chain, holds, frame, sub) = (
  m,
  p ∷ qs,
  ran,
  (rw next c.0, rw next c.1, rw next c.2, (c.3.0, sub l c.3.1), chain),
  (ap interval (frame l c.3) ∙ e, small, holds),
  λ x f. frame x f.1,
  λ x f. (f.0, sub x f.1),
)
  where
    next : (m l).next_physical_address ≡ (mem l).next_physical_address
    next = next_eq mem m l (frame l c.3)

Joins-join :
    (mem : ℕ → Region) (l p q : ℕ) (qs : List ℕ) (is : List Interval) (r : Run (ℕ → Region))
    → Chain mem l (p ∷ q ∷ qs)
    → Joins (join mem l p) l (q ∷ qs) is r
    → Joins mem l (p ∷ q ∷ qs) is r
Joins-join mem l p q qs is r c (m, rs, ran, chain, holds, frame, sub) = (
  m,
  rs,
  ran,
  chain,
  holds,
  λ x f. frame x (f.0, f.1.1) ∙ join_frame mem l p q qs c x f,
  λ x f. sub x f.1,
)

-- The chain after a joining.
join-Chain :
    (mem : ℕ → Region) (l p q : ℕ) (qs : List ℕ)
    → Chain mem l (p ∷ q ∷ qs)
    → Chain (join mem l p) l (q ∷ qs)
join-Chain mem l p q qs c = (
  rw next c.4.0,
  rw next c.4.1,
  rw next c.4.2,
  c.3.1,
  Chain-frame mem (join mem l p) q qs agree.1 (next_eq mem (join mem l p) q agree.0) c.4.4,
)
  where
    next : (join mem l p l).next_physical_address ≡ (mem p).next_physical_address
    next = join_next mem l p q qs c

    agree : Agree mem (join mem l p) (q ∷ qs)
    agree = join-Agree mem l p q qs c

pub ==_cases : (a b : ℕ) → (a ≡ b) ⊎ (a ≢ b)
==_cases a b = ground arith

module _ (i j k : Interval) (is : List Interval) where
  pub joined_join :
      i.start + i.count + 1 ≡ j.start
      → joined i (j ∷ k ∷ is) ≡ joined (record i { count = i.count + j.count }) (k ∷ is)
  unfolding joined
  joined_join e = ground arith

  pub joined_pass : i.start + i.count + 1 ≢ j.start → joined i (j ∷ k ∷ is) ≡ i ∷ joined j (k ∷ is)
  unfolding joined
  joined_pass e = ground arith

connect_end :
    (fuel : ℕ) (mem : ℕ → Region) (l p : ℕ)
    → (mem p).next_physical_address ≡ 0
    → connect (suc fuel) mem (some l) p ≡ ok mem
unfolding connect
connect_end fuel mem l p e = ground arith

-- The loop from the second region on comes to the joined intervals.
pub connect_from_lem :
    (fuel : ℕ) (mem : ℕ → Region) (l p : ℕ) (ps : List ℕ) (i j : Interval) (is : List Interval)
    → Chain mem l (p ∷ ps)
    → Holds mem (l ∷ p ∷ ps) (i ∷ j ∷ is)
    → length ps < fuel
    → Joins mem l (p ∷ ps) (joined i (j ∷ is)) (connect fuel mem (some l) p)
connect_from_lem zero mem l p ps i j is c h f = absurd (omega arith)
connect_from_lem (suc fuel) mem l p [] i j [] c h f =
    (mem, p ∷ [], connect_end fuel mem l p c.4, c, unfold joined in h, λ x f. refl, λ x f. f)
connect_from_lem (suc fuel) mem l p [] i j (k ∷ ks) c h f = absurd h.2.2
connect_from_lem (suc fuel) mem l p (q ∷ qs) i j [] c h f = absurd h.2.2
connect_from_lem (suc fuel) mem l p (q ∷ qs) i j (k ∷ ks) c h f =
    elim (==_cases (i.start + i.count + 1) j.start) [
      | inl eq ↦
          rw
            (
              joined_join i j k ks eq,
              connect-join fuel mem l p i j h.0 h.2.0 h.1 h.2.1 c.4.0 (rw next c.4.1) eq,
              next,
              ← c.4.2,
            )
            (Joins-join mem l p q qs _ _ c (
              connect_from_lem fuel (join mem l p) l q qs (record i { count = i.count + j.count }) k
                ks (join-Chain mem l p q qs c)
                (
                  join_pages mem l p q qs c i j h.0 h.2.0 (omega arith),
                  omega arith,
                  Holds-frame mem (join mem l p) (q ∷ qs) (k ∷ ks) (join-Agree mem l p q qs c)
                      h.2.2,
                )
                (omega arith)))
      | inr ne ↦
          rw
            (
              joined_pass i j k ks ne,
              connect_onward fuel mem l p i j h.0 h.2.0 h.1 h.2.1 c.4.0 c.4.1 ne,
              ← c.4.2,
            )
            (Joins-pass mem l p (q ∷ qs) i _ _ c h.0 h.1
              (connect_from_lem fuel mem p q qs j k ks c.4 h.2 (omega arith)))
    ]
  where
    next : (join mem l p l).next_physical_address ≡ (mem p).next_physical_address
    next = join_next mem l p q qs c
