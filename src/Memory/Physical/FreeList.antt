-- ===== src/Memory/Physical/FreeList.antt =====
-- What src/Memory/physicalAllocator.cpp keeps in memory, as a list of page intervals.
use crack_os.Base.{refl, ap, sym, ◌∙◌, update, update_self, update_ne}
use crack_os.Base.{ℕ, suc, ◌+◌, ◌-◌, ◌<◌, ◌≡◌, ◌≢◌, List, [], ◌∷◌, Option, none, some}
use crack_os.Base.{length, leb, ltb, ◌==◌, if◌then◌else◌, Bool, true, false, ◌&&◌}
use crack_os.Memory.{gi, ti}
use crack_os.Memory.Physical.{Region, set_next, set_count}

-- A run of pages: the first, and how many.
pub record Interval : Type 0 where
  pub start : ℕ
  pub count : ℕ

abbrev pub interval : Region → Interval
interval r = record { start = r.start_page_index; count = r.page_count }

-- `x` is none of the pointers.
abbrev pub Fresh : ℕ → List ℕ → Type 0
Fresh x [] = Unit
Fresh x (p ∷ ps) = (x ≢ p) × Fresh x ps

-- The descriptor at `p` leads to those at `ps`, all of them at different places, and the last one
-- leads nowhere.
abbrev pub Chain : (ℕ → Region) → ℕ → List ℕ → Type 0
Chain m p [] = (m p).next_physical_address ≡ 0
Chain m p (q ∷ qs) =
    ((m p).next_physical_address ≢ 0)
    × ((m p).next_physical_address < gi 512)
    × (q ≡ (m p).next_physical_address + ti 32 + ti 64)
    × Fresh p (q ∷ qs)
    × Chain m q qs

-- The regions that the pointers lead to hold these pages, and no sum of theirs passes 2 ^ 52.
abbrev pub Holds : (ℕ → Region) → List ℕ → List Interval → Type 0
Holds m [] [] = Unit
Holds m [] (i ∷ is) = ⊥
Holds m (p ∷ ps) [] = ⊥
Holds m (p ∷ ps) (i ∷ is) =
    (interval (m p) ≡ i) × (i.start + i.count < 0x10_0000_0000_0000) × Holds m ps is

-- First fit from the back of a run. The last run of the list is never used.
unfoldable pub first_fit : ℕ → List Interval → Option (ℕ × List Interval)
first_fit count [] = none
first_fit count (i ∷ []) = none
first_fit count (i ∷ j ∷ is) = elim (leb count i.count) [
  | true ↦ some (
    i.start + (i.count - count),
    if i.count == count then j ∷ is else record i { count = i.count - count } ∷ j ∷ is,
  )
  | false ↦ elim (first_fit count (j ∷ is)) [
    | none ↦ none
    | some (page, rest) ↦ some (page, i ∷ rest)
  ]
]

-- `n` has the descriptors of `m` at these pointers.
abbrev pub Agree : (ℕ → Region) → (ℕ → Region) → List ℕ → Type 0
Agree m n [] = Unit
Agree m n (p ∷ ps) = (n p ≡ m p) × Agree m n ps

pub update-Agree :
    (m n : ℕ → Region) (x : ℕ) (r : Region) (ps : List ℕ)
    → Fresh x ps
    → Agree m n ps
    → Agree m (update n x r) ps
update-Agree m n x r [] f a = tt
update-Agree m n x r (p ∷ ps) f a =
    (update_ne n x r p (λ e. f.0 (sym e)) ∙ a.0, update-Agree m n x r ps f.1 a.1)

module _ (m n : ℕ → Region) (x v : ℕ) (ps : List ℕ) (f : Fresh x ps) (a : Agree m n ps) where
  pub set_next-Agree : Agree m (set_next n x v) ps
  unfolding set_next
  set_next-Agree = update-Agree m n x _ ps f a

  pub set_count-Agree : Agree m (set_count n x v) ps
  unfolding set_count
  set_count-Agree = update-Agree m n x _ ps f a

module _ (m : ℕ → Region) (p v : ℕ) where
  pub set_next_self : set_next m p v p ≡ record (m p) { next_physical_address = v }
  unfolding set_next
  set_next_self = update_self m p _

  pub set_count_self : set_count m p v p ≡ record (m p) { page_count = v }
  unfolding set_count
  set_count_self = update_self m p _

  pub set_next_ne : (q : ℕ) → q ≢ p → set_next m p v q ≡ m q
  unfolding set_next
  set_next_ne = update_ne m p _

  pub set_count_ne : (q : ℕ) → q ≢ p → set_count m p v q ≡ m q
  unfolding set_count
  set_count_ne = update_ne m p _

pub Agree-self : (m : ℕ → Region) (ps : List ℕ) → Agree m m ps
Agree-self m [] = tt
Agree-self m (p ∷ ps) = (refl, Agree-self m ps)

pub Chain-frame :
    (m n : ℕ → Region) (x : ℕ) (ps : List ℕ)
    → Agree m n ps
    → (n x).next_physical_address ≡ (m x).next_physical_address
    → Chain m x ps
    → Chain n x ps
Chain-frame m n x [] a e c = e ∙ c
Chain-frame m n x (q ∷ qs) a e c = (
  rw e c.0,
  rw e c.1,
  rw e c.2,
  c.3,
  Chain-frame m n q qs a.1 (ap (λ r. r.next_physical_address) a.0) c.4,
)

pub Holds-frame :
    (m n : ℕ → Region) (ps : List ℕ) (is : List Interval)
    → Agree m n ps
    → Holds m ps is
    → Holds n ps is
Holds-frame m n [] [] a h = tt
Holds-frame m n [] (i ∷ is) a h = h
Holds-frame m n (p ∷ ps) [] a h = h
Holds-frame m n (p ∷ ps) (i ∷ is) a h = (ap interval a.0 ∙ h.0, h.1, Holds-frame m n ps is a.1 h.2)

pub Chain-cons :
    (m n : ℕ → Region) (x q : ℕ) (qs : List ℕ)
    → (n x).next_physical_address ≡ (m x).next_physical_address
    → Chain m x (q ∷ qs)
    → Chain n q qs
    → Chain n x (q ∷ qs)
Chain-cons m n x q qs e c d = (rw e c.0, rw e c.1, rw e c.2, c.3, d)

pub next_eq :
    (m n : ℕ → Region) (x : ℕ)
    → n x ≡ m x
    → (n x).next_physical_address ≡ (m x).next_physical_address
next_eq m n x e = ap (λ r. r.next_physical_address) e

pub Chain-Fresh : (m : ℕ → Region) (p : ℕ) (ps : List ℕ) → Chain m p ps → Fresh p ps
Chain-Fresh m p [] c = tt
Chain-Fresh m p (q ∷ qs) c = c.3

pub Holds-length :
    (m : ℕ → Region) (ps : List ℕ) (is : List Interval) → Holds m ps is → length ps ≡ length is
Holds-length m [] [] h = refl
Holds-length m [] (i ∷ is) h = absurd h
Holds-length m (p ∷ ps) [] h = absurd h
Holds-length m (p ∷ ps) (i ∷ is) h = ap suc (Holds-length m ps is h.2)

-- The joining of regions that freePhysicalMemory ends with, from the interval `i` on: an interval
-- is taken for adjacent if one page lies in between. The last one is never looked at.
unfoldable pub joined : Interval → List Interval → List Interval
joined i [] = i ∷ []
joined i (j ∷ []) = i ∷ j ∷ []
joined i (j ∷ k ∷ is) = elim (i.start + i.count + 1 == j.start) [
  | true ↦ joined (record i { count = i.count + j.count }) (k ∷ is)
  | false ↦ i ∷ joined j (k ∷ is)
]

-- The test that pages overlap or adjoin an interval.
abbrev pub is_touched : ℕ → ℕ → Interval → Bool
is_touched page count i = leb page (i.start + i.count) && leb i.start (page + count)

-- The pages put into the list behind `last`: `none` if they touch an interval that is met before
-- a place for them is found. The last interval is never looked at; without a place before it the
-- pages are dropped.
unfoldable pub placed : ℕ → ℕ → Interval → List Interval → Option (List Interval)
placed page count last [] = some []
placed page count last (i ∷ []) = some (i ∷ [])
placed page count last (i ∷ j ∷ is) = elim (is_touched page count i) [
  | true ↦ none
  | false ↦ elim (ltb (last.start + last.count) page && ltb (page + count) (i.start + i.count)) [
    | true ↦ some (record { start = page; count = count } ∷ i ∷ j ∷ is)
    | false ↦ elim (placed page count i (j ∷ is)) [ none ↦ none | some rest ↦ some (i ∷ rest) ]
  ]
]

-- What freePhysicalMemory makes of the list behind the special first interval.
unfoldable pub released : ℕ → ℕ → Interval → List Interval → Option (List Interval)
released page count first [] = some (first ∷ [])
released page count first (i ∷ is) = elim (is_touched page count first) [
  | true ↦ none
  | false ↦ elim (placed page count first (i ∷ is)) [
    | none ↦ none
    | some rest ↦ some (joined first rest)
  ]
]
