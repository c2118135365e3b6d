-- ===== src/Memory/Physical/Scan.antt =====
-- The first loop of freePhysicalMemory against the placing of pages in a list of intervals.
use crack_os.Base.{◌∙◌, ℕ, zero, suc, ◌+◌, ◌*◌, ◌<◌, ◌≡◌, refl, inl, inr, arith, sym, ap, ◌≢◌}
use crack_os.Base.{
  List, [], ◌∷◌, Option, none, some, length, Bool, true, false, ltb, ◌&&◌, Bool-cases,
}
use crack_os.Base.{mul64, Run, ok, update_self, update_ne}
use crack_os.Memory.{page_size, gi, ti}
use crack_os.Memory.Physical.{Region, map_pages, free_scan, insert_between, new_region, physical_of}
use crack_os.Memory.Physical.FreeList.{
  Interval, interval, Fresh, Chain, Holds, placed, is_touched, Agree, Agree-self, set_next-Agree,
  update-Agree, set_next_self, set_next_ne, Chain-frame, Holds-frame, next_eq,
}

-- Where the descriptor of freed pages stands.
abbrev pub new_at : ℕ → ℕ
new_at page = page * page_size + ti 32 + ti 64

abbrev pub is_place : ℕ → ℕ → Interval → Interval → Bool
is_place page count last i =
    ltb (last.start + last.count) page && ltb (page + count) (i.start + i.count)

module _ (fuel : ℕ) (mem : ℕ → Region) (page count l p : ℕ) (k i : Interval)
    (at_l : interval (mem l) ≡ k) (at_p : interval (mem p) ≡ i)
    (small_k : k.start + k.count < 0x10_0000_0000_0000)
    (small_i : i.start + i.count < 0x10_0000_0000_0000) (few : page + count < 0x10_0000_0000_0000)
    (some_next : (mem p).next_physical_address ≢ 0) where
  scan_touched :
      is_touched page count i ≡ true → free_scan (suc fuel) mem page count (some l) p ≡ ok none
  unfolding free_scan
  scan_touched t = ground arith

  scan_insert :
      is_touched page count i ≡ false
      → is_place page count k i ≡ true
      → page * page_size < gi 512
      → free_scan (suc fuel) mem page count (some l) p
        ≡ ok (some (insert_between mem page count (new_at page) l p))
  unfolding free_scan map_pages
  scan_insert t place low = ground arith

  scan_onward :
      is_touched page count i ≡ false
      → is_place page count k i ≡ false
      → (mem p).next_physical_address < gi 512
      → free_scan (suc fuel) mem page count (some l) p
        ≡ free_scan fuel mem page count (some p) ((mem p).next_physical_address + ti 32 + ti 64)
  unfolding free_scan map_pages
  scan_onward t place low = ground arith

-- The chain with a new descriptor behind `l`.
module _ (mem : ℕ → Region) (page count l p : ℕ) (ps : List ℕ) (c : Chain mem l (p ∷ ps))
    (fresh : Fresh (new_at page) (l ∷ p ∷ ps)) (pos : page ≢ 0)
    (low : page * page_size < gi 512) where
  inserted : ℕ → Region
  inserted = insert_between mem page count (new_at page) l p

  insert_new : inserted (new_at page) ≡ new_region page count (physical_of p)
  unfolding inserted insert_between
  insert_new = set_next_ne _ l _ (new_at page) fresh.0 ∙ update_self mem (new_at page) _

  insert_self : inserted l ≡ record (mem l) { next_physical_address = page * page_size }
  unfolding inserted insert_between
  insert_self =
      set_next_self _ l _
      ∙ ap {A = Region} (λ r. record r { next_physical_address = mul64 page page_size })
          (update_ne mem (new_at page) _ l (λ e. fresh.0 (sym e)))
      ∙ ap {B = Region} (λ n. record (mem l) { next_physical_address = n }) (omega arith)

  insert-Agree : Agree mem inserted (p ∷ ps)
  unfolding inserted insert_between
  insert-Agree =
      set_next-Agree mem _ l _ (p ∷ ps) c.3
        (update-Agree mem mem (new_at page) _ (p ∷ ps) fresh.1 (Agree-self mem (p ∷ ps)))

  insert_frame : (x : ℕ) → x ≢ l → x ≢ new_at page → inserted x ≡ mem x
  unfolding inserted insert_between
  insert_frame x f g = set_next_ne _ l _ x f ∙ update_ne mem (new_at page) _ x g

  insert-Chain : Chain inserted l (new_at page ∷ p ∷ ps)
  insert-Chain = (
    rw next_l (omega arith),
    rw next_l low,
    rw next_l refl,
    (λ e. fresh.0 (sym e), c.3),
    (
      rw next_new c.0,
      rw next_new c.1,
      rw next_new c.2,
      fresh.1,
      Chain-frame mem inserted p ps insert-Agree.1 (next_eq mem inserted p insert-Agree.0) c.4,
    ),
  )
    where
      next_l : (inserted l).next_physical_address ≡ page * page_size
      next_l = ap (λ r. r.next_physical_address) insert_self

      next_new : (inserted (new_at page)).next_physical_address ≡ (mem l).next_physical_address
      next_new = ap (λ r. r.next_physical_address) insert_new ∙ omega arith

-- What the loop makes of a chain behind `l`, for what `placed` makes of its intervals.
abbrev pub Scans :
    (ℕ → Region) → ℕ → ℕ → List ℕ → Run (Option (ℕ → Region)) → Option (List Interval) → Type 0
Scans mem new l ps r none = r ≡ ok none
Scans mem new l ps r (some is) =
    (m : ℕ → Region) × (qs : List ℕ) × (r ≡ ok (some m))
    × Chain m l qs
    × Holds m qs is
    × ((x : ℕ) → x ≢ new → Fresh x (l ∷ ps) → m x ≡ mem x)
    × (interval (m l) ≡ interval (mem l))
    × ((x : ℕ) → x ≢ new → Fresh x ps → Fresh x qs)

abbrev pub placing : Interval → Option (List Interval) → Option (List Interval)
placing i none = none
placing i (some rest) = some (i ∷ rest)

Scans-onward :
    (mem : ℕ → Region) (new l p : ℕ) (ps : List ℕ) (i : Interval) (r : Run (Option (ℕ → Region)))
    (o : Option (List Interval))
    → Chain mem l (p ∷ ps)
    → Fresh new (l ∷ p ∷ ps)
    → interval (mem p) ≡ i
    → i.start + i.count < 0x10_0000_0000_0000
    → Scans mem new p ps r o
    → Scans mem new l (p ∷ ps) r (placing i o)
Scans-onward mem new l p ps i r none c fresh e small h = h
Scans-onward mem new l p ps i r (some is) c fresh e small
      (m, qs, ran, chain, holds, frame, same, sub) =
    (
      m,
      p ∷ qs,
      ran,
      (rw next c.0, rw next c.1, rw next c.2, (c.3.0, sub l other c.3.1), chain),
      (same ∙ e, small, holds),
      λ x n f. frame x n f.1,
      ap interval (frame l other c.3),
      λ x n f. (f.0, sub x n f.1),
    )
  where
    other : l ≢ new
    other e = fresh.0 (sym e)

    next : (m l).next_physical_address ≡ (mem l).next_physical_address
    next = next_eq mem m l (frame l other c.3)

insert-Scans :
    (mem : ℕ → Region) (page count l p : ℕ) (ps : List ℕ) (is : List Interval)
    → Chain mem l (p ∷ ps)
    → Fresh (new_at page) (l ∷ p ∷ ps)
    → page ≢ 0
    → page * page_size < gi 512
    → page + count < 0x10_0000_0000_0000
    → Holds mem (p ∷ ps) is
    → Scans mem
        (new_at page)
        l
        (p ∷ ps)
        (ok (some (insert_between mem page count (new_at page) l p)))
        (some (record { start = page; count = count } ∷ is))
unfolding inserted
insert-Scans mem page count l p ps is c fresh pos low few h = (
  insert_between mem page count (new_at page) l p,
  new_at page ∷ p ∷ ps,
  refl,
  insert-Chain mem page count l p ps c fresh pos low,
  (
    ap interval (insert_new mem page count l p ps c fresh pos low),
    few,
    Holds-frame mem _ (p ∷ ps) is (insert-Agree mem page count l p ps c fresh pos low) h,
  ),
  λ x n f. insert_frame mem page count l p ps c fresh pos low x f.0 n,
  ap interval (insert_self mem page count l p ps c fresh pos low),
  λ x n f. (n, f),
)

-- `placed`, by its three ways.
module _ (page count : ℕ) (k i j : Interval) (is : List Interval) where
  pub placed_touched : is_touched page count i ≡ true → placed page count k (i ∷ j ∷ is) ≡ none
  unfolding placed
  placed_touched t = ground arith

  pub placed_here :
      is_touched page count i ≡ false
      → is_place page count k i ≡ true
      → placed page count k (i ∷ j ∷ is)
        ≡ some (record { start = page; count = count } ∷ i ∷ j ∷ is)
  unfolding placed
  placed_here t b = ground arith

  pub placed_onward :
      is_touched page count i ≡ false
      → is_place page count k i ≡ false
      → placed page count k (i ∷ j ∷ is) ≡ placing i (placed page count i (j ∷ is))
  unfolding placed
  placed_onward t b = ground arith

scan_end :
    (fuel : ℕ) (mem : ℕ → Region) (page count l p : ℕ)
    → (mem p).next_physical_address ≡ 0
    → free_scan (suc fuel) mem page count (some l) p ≡ ok (some mem)
unfolding free_scan
scan_end fuel mem page count l p e = ground arith

module _ (page count : ℕ) (pos : page ≢ 0) (low : page * page_size < gi 512)
    (few : page + count < 0x10_0000_0000_0000) where
  -- The loop comes to what `placed` says.
  pub scan_from_lem :
      (fuel : ℕ) (mem : ℕ → Region) (l p : ℕ) (ps : List ℕ) (k i : Interval) (is : List Interval)
      → Chain mem l (p ∷ ps)
      → Holds mem (l ∷ p ∷ ps) (k ∷ i ∷ is)
      → Fresh (new_at page) (l ∷ p ∷ ps)
      → length ps < fuel
      → Scans mem
          (new_at page)
          l
          (p ∷ ps)
          (free_scan fuel mem page count (some l) p)
          (placed page count k (i ∷ is))
  scan_from_lem zero mem l p ps k i is c h fresh f = absurd (omega arith)
  scan_from_lem (suc fuel) mem l p [] k i [] c h fresh f =
      unfold placed in
      (mem, p ∷ [], scan_end fuel mem page count l p c.4, c, h.2, λ x n f. refl, refl, λ x n f. f)
  scan_from_lem (suc fuel) mem l p [] k i (j ∷ js) c h fresh f = absurd h.2.2
  scan_from_lem (suc fuel) mem l p (q ∷ qs) k i [] c h fresh f = absurd h.2.2
  scan_from_lem (suc fuel) mem l p (q ∷ qs) k i (j ∷ js) c h fresh f =
      elim (Bool-cases (is_touched page count i)) [
        | inl t ↦
            rw
              (
                scan_touched fuel mem page count l p k i h.0 h.2.0 h.1 h.2.1 few c.4.0 t,
                placed_touched page count k i j js t,
              )
              refl
        | inr t ↦ elim (Bool-cases (is_place page count k i)) [
          | inl b ↦
              rw
                (
                  scan_insert fuel mem page count l p k i h.0 h.2.0 h.1 h.2.1 few c.4.0 t b low,
                  placed_here page count k i j js t b,
                )
                (insert-Scans mem page count l p (q ∷ qs) (i ∷ j ∷ js) c fresh pos low few h.2)
          | inr b ↦
              rw
                (
                  scan_onward fuel mem page count l p k i h.0 h.2.0 h.1 h.2.1 few c.4.0 t b c.4.1,
                  ← c.4.2,
                  placed_onward page count k i j js t b,
                )
                (Scans-onward mem (new_at page) l p (q ∷ qs) i _ _ c fresh h.2.0 h.2.1
                  (scan_from_lem fuel mem p q qs i j js c.4 h.2 fresh.1 (omega arith)))
        ]
      ]
