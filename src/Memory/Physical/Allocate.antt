-- ===== src/Memory/Physical/Allocate.antt =====
-- allocatePhysicalMemory against first fit on a list of page intervals.
use crack_os.Base.{
  ◌∙◌, ℕ, zero, suc, ◌+◌, ◌-◌, ◌*◌, ◌^◌, ◌≤◌, ◌<◌, ◌≡◌, refl, ◌≢◌, inl, inr, ◌⊎◌, arith, sym, ap,
}
use crack_os.Base.{List, [], ◌∷◌, Option, none, some, length}
use crack_os.Base.{Run, ok, stopped, add64, sub64}
use crack_os.Memory.{page_size, gi, ti}
use crack_os.Memory.Physical.{Region, Allocator, window, map_pages, set_next, set_count}
use crack_os.Memory.Physical.{take_pages, allocate_from, allocate}
use crack_os.Memory.Physical.FreeList.{
  Interval, interval, Fresh, Chain, Holds, first_fit, Agree, Chain-Fresh, Chain-cons, next_eq,
  set_next-Agree, set_count-Agree, set_next_self, set_count_self, set_next_ne, set_count_ne,
  Agree-self, Chain-frame, Holds-frame, Holds-length,
}

-- A physical address below 512 GiB is seen at 96 TiB above it.
map_pages_low : (a : ℕ) → a < gi 512 → map_pages a ≡ ok (a + ti 32 + ti 64)
unfolding map_pages
map_pages_low a h = ground arith

abbrev after_take : Allocator → (ℕ → Region) → ℕ → Allocator
after_take s m count = record s { mem = m; used_memory_size = add64 s.used_memory_size count }

-- What `first_fit` says of the pages, as a statement about a run of the loop.
abbrev Refines :
    Allocator → ℕ → List ℕ → ℕ → Run (ℕ × Allocator) → Option (ℕ × List Interval) → Type 0
Refines s last ps count r none = r ≡ stopped
Refines s last ps count r (some (page, rest)) =
    (m : ℕ → Region) × (qs : List ℕ) × (r ≡ ok (page * page_size, after_take s m count))
    × Chain m last qs
    × Holds m qs rest
    × ((x : ℕ) → Fresh x (last ∷ ps) → m x ≡ s.mem x)
    × (interval (m last) ≡ interval (s.mem last))
    × ((x : ℕ) → Fresh x ps → Fresh x qs)

pub order : (a b : ℕ) → (a < b) ⊎ ((a ≡ b) ⊎ (b < a))
order a b = grind arith

sub64_le : (a b : ℕ) → b ≤ a → a < 2 ^ 64 → sub64 a b ≡ a - b
sub64_le a b h k = omega arith

module _ (s : Allocator) (count last p : ℕ) where
  -- The run is larger than what is asked for.
  take_some :
      (s.mem p).start_page_index + (s.mem p).page_count < 0x10_0000_0000_0000
      → count < (s.mem p).page_count
      → take_pages s count last p ≡ (
        ((s.mem p).start_page_index + ((s.mem p).page_count - count)) * page_size,
        after_take s (set_count s.mem p ((s.mem p).page_count - count)) count,
      )
  unfolding take_pages
  take_some small lt =
      rw (sub64_le (s.mem p).page_count count (omega arith) (omega arith)) (ground arith)

  -- The run is used up.
  take_all :
      (s.mem p).start_page_index + (s.mem p).page_count < 0x10_0000_0000_0000
      → count ≡ (s.mem p).page_count
      → take_pages s count last p ≡ (
        (s.mem p).start_page_index * page_size,
        after_take s
            (set_next (set_next (set_count s.mem p 0) last (s.mem p).next_physical_address) p 0)
            count,
      )
  unfolding take_pages
  take_all small eq =
      rw (sub64_le (s.mem p).page_count count (omega arith) (omega arith)) (ground arith)

module _ (s : Allocator) (count last p : ℕ) (ps : List ℕ) (i : Interval) (is : List Interval)
    (c : Chain s.mem last (p ∷ ps)) (h : Holds s.mem (p ∷ ps) (i ∷ is)) where
  -- A run that is larger than what is asked for keeps its descriptor, with fewer pages.
  shrink_lem :
      count < i.count
      → Refines s last
          (p ∷ ps)
          count
          (ok (take_pages s count last p))
          (some (i.start + (i.count - count), record i { count = i.count - count } ∷ is))
  shrink_lem lt = (
    m,
    p ∷ ps,
    ground (arith, take_some s count last p),
    Chain-cons s.mem m last p ps (next_eq s.mem m last kept_last) c
        (Chain-frame s.mem m p ps kept_rest (ap (λ r. r.next_physical_address) kept_p) c.4),
    (ap interval kept_p ∙ ground arith, omega arith, Holds-frame s.mem m ps is kept_rest h.2),
    λ x f. set_count_ne s.mem p _ x f.1.0,
    ap interval kept_last,
    λ x f. f,
  )
    where
      m : ℕ → Region
      m = set_count s.mem p (i.count - count)

      kept_last : m last ≡ s.mem last
      kept_last = set_count_ne s.mem p _ last c.3.0

      kept_p : m p ≡ record (s.mem p) { page_count = i.count - count }
      kept_p = set_count_self s.mem p _

      kept_rest : Agree s.mem m ps
      kept_rest =
          set_count-Agree s.mem s.mem p _ ps (Chain-Fresh s.mem p ps c.4) (Agree-self s.mem ps)

module _ (s : Allocator) (count last p q : ℕ) (qs : List ℕ) (i : Interval) (is : List Interval)
    (c : Chain s.mem last (p ∷ q ∷ qs)) (h : Holds s.mem (p ∷ q ∷ qs) (i ∷ is)) where
  -- A run that is used up leaves the list.
  drop_lem :
      count ≡ i.count
      → Refines s last (p ∷ q ∷ qs) count (ok (take_pages s count last p)) (some (i.start, is))
  drop_lem eq = (
    m,
    q ∷ qs,
    ground (arith, take_all s count last p),
    (
      rw next_last c.4.0,
      rw next_last c.4.1,
      rw next_last c.4.2,
      c.3.1,
      Chain-frame s.mem m q qs kept_rest.1 (next_eq s.mem m q kept_rest.0) c.4.4,
    ),
    Holds-frame s.mem m (q ∷ qs) is kept_rest h.2,
    λ x f.
        set_next_ne _ p 0 x f.1.0 ∙ set_next_ne _ last next x f.0 ∙ set_count_ne s.mem p 0 x f.1.0,
    ap interval at_last,
    λ x f. f.1,
  )
    where
      next : ℕ
      next = (s.mem p).next_physical_address

      m : ℕ → Region
      m = set_next (set_next (set_count s.mem p 0) last next) p 0

      kept_rest : Agree s.mem m (q ∷ qs)
      kept_rest = set_next-Agree s.mem _ p 0 (q ∷ qs) (Chain-Fresh s.mem p (q ∷ qs) c.4) (
          set_next-Agree s.mem _ last next (q ∷ qs) c.3.1 (
            set_count-Agree s.mem s.mem p 0 (q ∷ qs) (Chain-Fresh s.mem p (q ∷ qs) c.4)
              (Agree-self s.mem (q ∷ qs))))

      at_last : m last ≡ record (s.mem last) { next_physical_address = next }
      at_last =
          set_next_ne _ p 0 last c.3.0
          ∙ set_next_self _ last next
          ∙ ap {A = Region} (λ r. record r { next_physical_address = next })
              (set_count_ne s.mem p 0 last c.3.0)

      next_last : (m last).next_physical_address ≡ next
      next_last = ap (λ r. r.next_physical_address) at_last

-- The loop's three ways, as equations.
module _ (fuel : ℕ) (s : Allocator) (count last p : ℕ) where
  from_end : (s.mem p).next_physical_address ≡ 0 → allocate_from (suc fuel) s count last p ≡ stopped
  unfolding allocate_from
  from_end e = ground arith

  from_hit :
      (s.mem p).next_physical_address ≢ 0
      → count ≤ (s.mem p).page_count
      → allocate_from (suc fuel) s count last p ≡ ok (take_pages s count last p)
  unfolding allocate_from
  from_hit e le = ground arith

  from_skip :
      (s.mem p).next_physical_address ≢ 0
      → (s.mem p).next_physical_address < gi 512
      → (s.mem p).page_count < count
      → allocate_from (suc fuel) s count last p
        ≡ allocate_from fuel s count p ((s.mem p).next_physical_address + ti 32 + ti 64)
  unfolding allocate_from map_pages
  from_skip e low lt = ground arith

-- The same three ways of `first_fit`.
module _ (count : ℕ) (i j : Interval) (is : List Interval) where
  pub fit_all : i.count ≡ count → first_fit count (i ∷ j ∷ is) ≡ some (i.start, j ∷ is)
  unfolding first_fit
  fit_all e = ground arith

  pub fit_some :
      count < i.count
      → first_fit count (i ∷ j ∷ is)
        ≡ some (i.start + (i.count - count), record i { count = i.count - count } ∷ j ∷ is)
  unfolding first_fit
  fit_some lt = ground arith

  abbrev pub keeping : Option (ℕ × List Interval) → Option (ℕ × List Interval)
  keeping none = none
  keeping (some (page, rest)) = some (page, i ∷ rest)

  pub fit_skip : i.count < count → first_fit count (i ∷ j ∷ is) ≡ keeping (first_fit count (j ∷ is))
  unfolding first_fit
  fit_skip lt = ground arith

-- A run from the second region on is one from the first, which it leaves as it is.
extend_lem :
    (s : Allocator) (count last p q : ℕ) (qs : List ℕ) (i j : Interval) (is : List Interval)
    (r : Run (ℕ × Allocator))
    → Chain s.mem last (p ∷ q ∷ qs)
    → interval (s.mem p) ≡ i
    → i.start + i.count < 0x10_0000_0000_0000
    → (o : Option (ℕ × List Interval)) → Refines s p (q ∷ qs) count r o
    → Refines s last (p ∷ q ∷ qs) count r (keeping count i j is o)
extend_lem s count last p q qs i j is r c e small none h = h
extend_lem s count last p q qs i j is r c e small (some (page, rest))
      (m, rs, ran, chain, holds, frame, same, sub) =
    (
      m,
      p ∷ rs,
      ran,
      (rw next c.0, rw next c.1, rw next c.2, (c.3.0, sub last c.3.1), chain),
      (same ∙ e, small, holds),
      λ x f. frame x f.1,
      ap interval (frame last c.3),
      λ x f. (f.0, sub x f.1),
    )
  where
    next : (m last).next_physical_address ≡ (s.mem last).next_physical_address
    next = next_eq s.mem m last (frame last c.3)

-- The loop comes to what `first_fit` says of the pages.
allocate_from_lem :
    (fuel : ℕ) (s : Allocator) (count last p : ℕ) (ps : List ℕ) (i : Interval) (is : List Interval)
    → Chain s.mem last (p ∷ ps)
    → Holds s.mem (p ∷ ps) (i ∷ is)
    → length ps < fuel
    → Refines s last (p ∷ ps) count (allocate_from fuel s count last p) (first_fit count (i ∷ is))
allocate_from_lem zero s count last p ps i is c h f = absurd (omega arith)
allocate_from_lem (suc fuel) s count last p [] i [] c h f =
    rw (from_end fuel s count last p c.4) (unfold first_fit in refl)
allocate_from_lem (suc fuel) s count last p [] i (j ∷ js) c h f = absurd h.2
allocate_from_lem (suc fuel) s count last p (q ∷ qs) i [] c h f = absurd h.2
allocate_from_lem (suc fuel) s count last p (q ∷ qs) i (j ∷ js) c h f = elim (order i.count count) [
  | inl lt ↦
      rw
        (from_skip fuel s count last p c.4.0 c.4.1 (rw pages lt), ← c.4.2, fit_skip count i j js lt)
        (extend_lem s count last p q qs i j js _ c h.0 h.1 (first_fit count (j ∷ js))
          (allocate_from_lem fuel s count p q qs j js c.4 h.2 (omega arith)))
  | inr (inl eq) ↦
      rw (from_hit fuel s count last p c.4.0 (omega (arith, pages)), fit_all count i j js eq)
        (drop_lem s count last p q qs i (j ∷ js) c h (sym eq))
  | inr (inr gt) ↦
      rw (from_hit fuel s count last p c.4.0 (omega (arith, pages)), fit_some count i j js gt)
        (shrink_lem s count last p (q ∷ qs) i (j ∷ js) c h gt)
]
  where
    pages : (s.mem p).page_count ≡ i.count
    pages = ap (λ k. k.count) h.0

-- The allocator's free list, from the special first region on.
pub record Represents (s : Allocator) (is : List Interval) : Type 0 where
  pub regions : List ℕ
  pub chain : Chain s.mem window regions
  pub holds : Holds s.mem regions is

-- What `first_fit` promises of a call of `allocate`.
abbrev pub Allocates : Allocator → ℕ → Run (ℕ × Allocator) → Option (ℕ × List Interval) → Type 0
Allocates s count r none = r ≡ stopped
Allocates s count r (some (page, rest)) =
    (t : Allocator) × (r ≡ ok (page * page_size, t))
    × Represents t rest
    × (t.used_memory_size ≡ add64 s.used_memory_size count)

Allocates-of :
    (s : Allocator) (count p : ℕ) (ps : List ℕ) (r : Run (ℕ × Allocator))
    (o : Option (ℕ × List Interval))
    → Refines s window (p ∷ ps) count r o
    → Allocates s count r o
Allocates-of s count p ps r none h = h
Allocates-of s count p ps r (some (page, rest)) (m, qs, ran, chain, holds, _, _, _) =
    (after_take s m count, ran, record { regions = qs; chain = chain; holds = holds }, refl)

allocate_first :
    (fuel : ℕ) (s : Allocator) (count : ℕ)
    → (s.mem window).next_physical_address < gi 512
    → allocate fuel s count
      ≡ allocate_from fuel s count window ((s.mem window).next_physical_address + ti 32 + ti 64)
unfolding allocate map_pages
allocate_first fuel s count low = ground arith

allocate_cases :
    (fuel : ℕ) (s : Allocator) (count : ℕ) (ps : List ℕ) (is : List Interval)
    → Chain s.mem window ps
    → Holds s.mem ps is
    → length is < fuel
    → Allocates s count (allocate fuel s count) (first_fit count is)
allocate_cases zero s count ps is c h f = absurd (omega arith)
allocate_cases (suc fuel) s count [] [] c h f =
    rw (allocate_first (suc fuel) s count (omega arith), c)
      (unfold first_fit in from_end fuel s count window window c)
allocate_cases (suc fuel) s count [] (i ∷ is) c h f = absurd h
allocate_cases (suc fuel) s count (p ∷ ps) [] c h f = absurd h
allocate_cases (suc fuel) s count (p ∷ ps) (i ∷ is) c h f =
    rw (allocate_first (suc fuel) s count c.1, ← c.2)
      (Allocates-of s count p ps _ _ (
        allocate_from_lem (suc fuel) s count window p ps i is c h
          (omega (arith, Holds-length s.mem ps is h.2))))

-- Allocation is first fit from the back of a region: if the free list represents the intervals
-- `is`, and the fuel exceeds their number, `allocate` stops the machine where `first_fit` finds
-- nothing, and otherwise returns the address of the page that `first_fit` names, counts the pages
-- as used, and leaves a free list that represents the intervals that `first_fit` leaves.
pub allocate-first_fit :
    (fuel : ℕ) (s : Allocator) (count : ℕ) (is : List Interval)
    → Represents s is
    → length is < fuel
    → Allocates s count (allocate fuel s count) (first_fit count is)
allocate-first_fit fuel s count is v = allocate_cases fuel s count v.regions is v.chain v.holds
