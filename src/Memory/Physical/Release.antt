-- ===== src/Memory/Physical/Release.antt =====
-- freePhysicalMemory as a whole against the release of pages into a list of intervals.
use crack_os.Base.{◌∙◌, ℕ, zero, suc, ◌+◌, ◌*◌, ◌/◌, ◌≤◌, ◌<◌, ◌≡◌, refl, inl, inr, arith, ◌≢◌}
use crack_os.Base.{List, [], ◌∷◌, Option, none, some, length, true, false, Bool-cases}
use crack_os.Base.{Run, ok}
use crack_os.Memory.{page_size, gi, ti}
use crack_os.Memory.Physical.{
  Region, Allocator, window, map_pages, free_scan, connect, is_unusable, after_scan, free,
}
use crack_os.Memory.Physical.FreeList.{
  Interval, interval, Fresh, Chain, Holds, Holds-length, placed, joined, released, is_touched,
}
use crack_os.Memory.Physical.Connect.{Joins, connect_from_lem}
use crack_os.Memory.Physical.Scan.{
  Scans, new_at, scan_from_lem, placing, is_place, placed_touched, placed_here, placed_onward,
}

-- The second loop from the special first descriptor on.
connect_end :
    (fuel : ℕ) (mem : ℕ → Region) (p : ℕ)
    → (mem p).next_physical_address ≡ 0
    → connect (suc fuel) mem none p ≡ ok mem
unfolding connect
connect_end fuel mem p e = ground arith

connect_start :
    (fuel : ℕ) (mem : ℕ → Region) (p : ℕ)
    → (mem p).next_physical_address ≢ 0
    → (mem p).next_physical_address < gi 512
    → connect (suc fuel) mem none p
      ≡ connect fuel mem (some p) ((mem p).next_physical_address + ti 32 + ti 64)
unfolding connect map_pages
connect_start fuel mem p e low = ground arith

connect_lem :
    (fuel : ℕ) (mem : ℕ → Region) (l : ℕ) (ps : List ℕ) (i : Interval) (is : List Interval)
    → Chain mem l ps
    → Holds mem (l ∷ ps) (i ∷ is)
    → length is < fuel
    → Joins mem l ps (joined i is) (connect fuel mem none l)
connect_lem zero mem l ps i is c h f = absurd (omega arith)
connect_lem (suc fuel) mem l [] i [] c h f =
    unfold joined in (mem, [], connect_end fuel mem l c, c, h, λ x g. refl, λ x g. g)
connect_lem (suc fuel) mem l [] i (j ∷ js) c h f = absurd h.2
connect_lem (suc fuel) mem l (p ∷ ps) i [] c h f = absurd h.2
connect_lem (suc fuel) mem l (p ∷ ps) i (j ∷ js) c h f =
    rw (connect_start fuel mem l c.0 c.1, ← c.2)
      (connect_from_lem fuel mem l p ps i j js c h (omega (arith, Holds-length mem ps js h.2.2)))

-- The first loop at the special first descriptor.
module _ (fuel : ℕ) (mem : ℕ → Region) (page count p : ℕ) (i : Interval) (at : interval (mem p) ≡ i)
    (small : i.start + i.count < 0x10_0000_0000_0000)
    (few : page + count < 0x10_0000_0000_0000) where
  scan_end :
      (mem p).next_physical_address ≡ 0 → free_scan (suc fuel) mem page count none p ≡ ok (some mem)
  unfolding free_scan
  scan_end e = ground arith

  scan_touched :
      (mem p).next_physical_address ≢ 0
      → is_touched page count i ≡ true
      → free_scan (suc fuel) mem page count none p ≡ ok none
  unfolding free_scan
  scan_touched e t = ground arith

  scan_start :
      (mem p).next_physical_address ≢ 0
      → (mem p).next_physical_address < gi 512
      → is_touched page count i ≡ false
      → free_scan (suc fuel) mem page count none p
        ≡ free_scan fuel mem page count (some p) ((mem p).next_physical_address + ti 32 + ti 64)
  unfolding free_scan map_pages
  scan_start e low t = ground arith

-- `free`, once its two guards have let the pages through.
free_guards :
    (fuel : ℕ) (s : Allocator) (address count : ℕ) (o : Option (ℕ → Region))
    → address / page_size ≢ 0
    → is_unusable s.unusable_region_count s.mem (address / page_size) count 1 ≡ false
    → free_scan fuel s.mem (address / page_size) count none window ≡ ok o
    → free fuel s address count ≡ after_scan fuel s o
unfolding free
free_guards fuel s address count none pos usable e = ground arith
free_guards fuel s address count (some m) pos usable e = ground arith

-- The free list from the special first descriptor on, whose own pages are `first`.
pub record Lists (s : Allocator) (first : Interval) (is : List Interval) : Type 0 where
  pub regions : List ℕ
  pub chain : Chain s.mem window regions
  pub holds : Holds s.mem (window ∷ regions) (first ∷ is)

-- What a run of `free` is, for what `released` says.
abbrev pub Releases : Allocator → Run Allocator → Option (List Interval) → Type 0
Releases s r none = r ≡ ok s
Releases s r (some is) =
    (m : ℕ → Region) × (qs : List ℕ) × (r ≡ ok (record s { mem = m }))
    × Chain m window qs
    × Holds m (window ∷ qs) is

-- The second loop after the first one.
Releases-of :
    (fuel : ℕ) (s : Allocator) (new : ℕ) (ps : List ℕ) (first : Interval)
    (r : Run (Option (ℕ → Region))) (is : List Interval)
    → interval (s.mem window) ≡ first
    → first.start + first.count < 0x10_0000_0000_0000
    → length is < fuel
    → Scans s.mem new window ps r (some is)
    → (m : ℕ → Region) × (r ≡ ok (some m))
      × Releases s (after_scan fuel s (some m)) (some (joined first is))
unfolding after_scan
Releases-of fuel s new ps first r is e small f (m, qs, ran, chain, holds, _, same, _) =
    let (m', rs, ran', chain', holds', _, _) =
      connect_lem fuel m window qs first is chain (same ∙ e, small, holds) f in
    (m, ran, (m', rs, rw (ran', after_scan), chain', holds'))

abbrev pub joining : Interval → Option (List Interval) → Option (List Interval)
joining first none = none
joining first (some rest) = some (joined first rest)

module _ (page count : ℕ) (first i : Interval) (is : List Interval) where
  released_touched : is_touched page count first ≡ true → released page count first (i ∷ is) ≡ none
  unfolding released
  released_touched t = ground arith

  pub released_onward :
      is_touched page count first ≡ false
      → released page count first (i ∷ is) ≡ joining first (placed page count first (i ∷ is))
  unfolding released
  released_onward t = ground arith

-- The placing adds one interval at most.
abbrev AtMost : ℕ → Option (List Interval) → Type 0
AtMost n none = Unit
AtMost n (some is) = length is ≤ n

AtMost-placing :
    (n : ℕ) (i : Interval) (o : Option (List Interval)) → AtMost n o → AtMost (suc n) (placing i o)
AtMost-placing n i none h = tt
AtMost-placing n i (some is) h = omega arith

AtMost-le : (m n : ℕ) (o : Option (List Interval)) → m ≤ n → AtMost m o → AtMost n o
AtMost-le m n none le h = tt
AtMost-le m n (some is) le h = omega arith

placed-AtMost :
    (page count : ℕ) (k i : Interval) (is : List Interval)
    → AtMost (suc (suc (length is))) (placed page count k (i ∷ is))
placed-AtMost page count k i [] = unfold placed in omega arith
placed-AtMost page count k i (j ∷ js) = elim (Bool-cases (is_touched page count i)) [
  | inl t ↦ rw (placed_touched page count k i j js t) tt
  | inr t ↦ elim (Bool-cases (is_place page count k i)) [
    | inl b ↦ rw (placed_here page count k i j js t b) (omega arith)
    | inr b ↦
        rw (placed_onward page count k i j js t b)
          (AtMost-placing (suc (suc (length js))) i _ (placed-AtMost page count i j js))
  ]
]

Releases-joining :
    (fuel : ℕ) (s : Allocator) (new : ℕ) (ps : List ℕ) (first : Interval)
    (r : Run (Option (ℕ → Region))) (o : Option (List Interval))
    → interval (s.mem window) ≡ first
    → first.start + first.count < 0x10_0000_0000_0000
    → AtMost fuel o
    → Scans s.mem new window ps r o
    → (m : Option (ℕ → Region)) × (r ≡ ok m)
      × Releases s (after_scan (suc fuel) s m) (joining first o)
Releases-joining fuel s new ps first r none e small f h = (none, h, unfold after_scan in refl)
Releases-joining fuel s new ps first r (some is) e small f h =
    let (m, ran, done) = Releases-of (suc fuel) s new ps first r is e small (omega arith) h in
    (some m, ran, done)

scan_lem :
    (fuel : ℕ) (s : Allocator) (page count : ℕ) (ps : List ℕ) (first : Interval)
    (is : List Interval)
    → Chain s.mem window ps
    → Holds s.mem (window ∷ ps) (first ∷ is)
    → Fresh (new_at page) (window ∷ ps)
    → page ≢ 0
    → page * page_size < gi 512
    → page + count < 0x10_0000_0000_0000
    → length is + 1 < fuel
    → (o : Option (ℕ → Region)) × (free_scan fuel s.mem page count none window ≡ ok o)
      × Releases s (after_scan fuel s o) (released page count first is)
scan_lem zero s page count ps first is c h fresh pos low few f = absurd (omega arith)
scan_lem (suc fuel) s page count [] first [] c h fresh pos low few f =
    unfold released after_scan in
    (
      some s.mem,
      scan_end fuel s.mem page count window first h.0 h.1 few c,
      (s.mem, [], rw (connect_end fuel s.mem window c), c, h),
    )
scan_lem (suc fuel) s page count [] first (i ∷ is) c h fresh pos low few f = absurd h.2
scan_lem (suc fuel) s page count (p ∷ ps) first [] c h fresh pos low few f = absurd h.2
scan_lem (suc fuel) s page count (p ∷ ps) first (i ∷ is) c h fresh pos low few f =
    elim (Bool-cases (is_touched page count first)) [
      | inl t ↦ rw (released_touched page count first i is t) (
        none,
        scan_touched fuel s.mem page count window first h.0 h.1 few c.0 t,
        unfold after_scan in refl,
      )
      | inr t ↦
          rw
            (
              released_onward page count first i is t,
              scan_start fuel s.mem page count window first h.0 h.1 few c.0 c.1 t,
              ← c.2,
            )
            (Releases-joining fuel s (new_at page) (p ∷ ps) first _ _ h.0 h.1
              (AtMost-le _ fuel _ (omega arith) (placed-AtMost page count first i is))
              (scan_from_lem page count pos low few fuel s.mem window p ps first i is c h fresh
                (omega (arith, Holds-length s.mem ps is h.2.2))))
    ]

-- `free` puts pages back as `released` says of intervals: where they touch a region that is met
-- before their place, or the special first one, nothing changes, and otherwise they are placed in
-- the list, if a place is found, and the list is joined. The pages are not the first page and
-- touch no unusable region, their descriptor is none of the list's and can be mapped, and the fuel
-- passes the number of regions by two.
pub free-released :
    (fuel : ℕ) (s : Allocator) (address count : ℕ) (first : Interval) (is : List Interval)
    (v : Lists s first is)
    → Fresh (new_at (address / page_size)) (window ∷ v.regions)
    → address / page_size ≢ 0
    → address / page_size * page_size < gi 512
    → address / page_size + count < 0x10_0000_0000_0000
    → is_unusable s.unusable_region_count s.mem (address / page_size) count 1 ≡ false
    → length is + 1 < fuel
    → Releases s (free fuel s address count) (released (address / page_size) count first is)
free-released fuel s address count first is v fresh pos low few usable f =
    let (o, ran, done) =
      scan_lem fuel s (address / page_size) count v.regions first is v.chain v.holds fresh pos low
        few f in
    rw (free_guards fuel s address count o pos usable ran) done
