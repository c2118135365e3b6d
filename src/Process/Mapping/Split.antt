-- ===== src/Process/Mapping/Split.antt =====
-- The split of Mapping::unmap of src/Process/Process.cpp: the list after it, and the addresses that
-- it reaches.
use crack_os.Base.{
  ℕ, ◌+◌, ◌-◌, ◌<◌, ◌≤◌, ◌^◌, ◌≡◌, ◌≢◌, ◌↔◌, ◌⊎◌, inl, inr, refl, arith, sym, ◌∙◌, some, List, [],
  ◌∷◌, ◌++◌, length,
}
use crack_os.Base.{update, update_self, update_ne, ok, true}
use crack_os.Process.Mapping.{
  Entry, Heap, Mapping, upper, lower, split_entry, contains, unmap_range,
}
use crack_os.Process.Mapping.Segment.{Absent, Segment, Segment-frame, Absent-at}
use crack_os.Process.Mapping.Unmap.{Skips, unmap_at}

abbrev pub Reaches : Entry → ℕ → Type 0
Reaches e a = (e.virt_addr ≤ a) × (a < e.virt_addr + e.size)

-- The list with an entry replaced by the two of its split.
abbrev pub split_list :
    List (ℕ × Entry) → ℕ → Entry → ℕ → ℕ → ℕ → List (ℕ × Entry) → List (ℕ × Entry)
split_list es q e new virt size more = es ++ (q, lower e new virt) ∷ (new, upper e size) ∷ more

Absent-split :
    (x : ℕ) (es : List (ℕ × Entry)) (q : ℕ) (e : Entry) (new virt size : ℕ)
    (more : List (ℕ × Entry))
    → x ≢ new
    → Absent x (es ++ (q, e) ∷ more)
    → Absent x (split_list es q e new virt size more)
Absent-split x [] q e new virt size more n a = (a.0, (n, a.1))
Absent-split x ((p, d) ∷ es) q e new virt size more n a =
    (a.0, Absent-split x es q e new virt size more n a.1)

split-Segment :
    (h : Heap) (p : ℕ) (es : List (ℕ × Entry)) (q : ℕ) (e : Entry) (new virt size : ℕ)
    (more : List (ℕ × Entry))
    → Segment h p (es ++ (q, e) ∷ more)
    → new ≢ 0
    → Absent new (es ++ (q, e) ∷ more)
    → Segment
        (update (update h new (some (upper e size))) q (some (lower e new virt)))
        p
        (split_list es q e new virt size more)
split-Segment h p [] q e new virt size more s n a =
    let h1 = update h new (some (upper e size)) in
    let low = some (lower e new virt) in
    (
      s.0,
      s.1,
      update_self h1 q low,
      ((λ z. a.0 (sym z)), s.3),
      (
        refl,
        n,
        update_ne h1 q low new a.0 ∙ update_self h new (some (upper e size)),
        a.1,
        Segment-frame h1 q low e.next more
            (Segment-frame h new (some (upper e size)) e.next more s.4 a.1) s.3,
      ),
    )
split-Segment h p ((o, d) ∷ es) q e new virt size more s n a =
    let h1 = update h new (some (upper e size)) in
    (
      s.0,
      s.1,
      update_ne h1 q (some (lower e new virt)) o (Absent-at o es q e more s.3).0
          ∙ update_ne h new (some (upper e size)) o (λ z. a.0 (sym z))
          ∙ s.2,
      Absent-split o es q e new virt size more (λ z. a.0 (sym z)) s.3,
      split-Segment h d.next es q e new virt size more s.4 n a.1,
    )

-- What `contains` says of numbers, and the fields of a split without their wrap-around.
module _ (e : Entry) (new virt size : ℕ) (c : contains e virt size ≡ true)
    (w : e.virt_addr + e.size < 2 ^ 64) (v : virt + size < 2 ^ 64) where
  contains_lem : (e.virt_addr ≤ virt) × (virt + size ≤ e.virt_addr + e.size)
  contains_lem = ground arith

  lower_size : (lower e new virt).size ≡ virt - e.virt_addr
  lower_size = omega (arith, contains_lem)

  upper_start : (upper e size).virt_addr ≡ e.virt_addr + size
  upper_start = omega (arith, contains_lem)

  upper_size : (upper e size).size ≡ e.size - size
  upper_size = omega (arith, contains_lem)

  -- The two entries of a split reach the old addresses below the range, and those above the first
  -- `size` bytes of the old entry, wherever in it the range lies.
  split_reach :
      (a : ℕ)
      → (Reaches (lower e new virt) a ⊎ Reaches (upper e size) a)
        ↔ (Reaches e a × ((a < virt) ⊎ (e.virt_addr + size ≤ a)))
  split_reach a = (to, from)
    where
      to :
          Reaches (lower e new virt) a ⊎ Reaches (upper e size) a
          → Reaches e a × ((a < virt) ⊎ (e.virt_addr + size ≤ a))
      to (inl r) = (
        (r.0, omega (arith, lower_size, contains_lem)),
        inl (omega (arith, lower_size, contains_lem)),
      )
      to (inr r) = (
        (
          omega (arith, upper_start, upper_size, contains_lem),
          omega (arith, upper_start, upper_size, contains_lem),
        ),
        inr (omega (arith, upper_start, upper_size, contains_lem)),
      )

      from :
          Reaches e a × ((a < virt) ⊎ (e.virt_addr + size ≤ a))
          → Reaches (lower e new virt) a ⊎ Reaches (upper e size) a
      from (r, inl b) = inl (r.0, omega (arith, lower_size, contains_lem))
      from (r, inr b) = inr (
        omega (arith, upper_start, upper_size, contains_lem),
        omega (arith, upper_start, upper_size, contains_lem),
      )

-- When the first entry that contains the range is not that range, unmap replaces it by two: the
-- list after it is the old one with the lower entry, which keeps the addresses below the range, and
-- the upper one, which keeps those from `size` bytes behind the old entry's start. That is where
-- the range ends only if it starts at the entry's start.
pub unmap_range-split_list :
    (fuel : ℕ) (m : Mapping) (new virt size : ℕ) (es : List (ℕ × Entry)) (q : ℕ) (e : Entry)
    (more : List (ℕ × Entry))
    → Segment m.heap m.head (es ++ (q, e) ∷ more)
    → Skips virt size es
    → contains e virt size ≡ true
    → length es + length (es ++ (q, e) ∷ more) + 1 < fuel
    → ((e.virt_addr ≢ virt) ⊎ (e.size ≢ size))
    → new ≢ 0
    → Absent new (es ++ (q, e) ∷ more)
    → e.virt_addr + e.size < 2 ^ 64
    → virt + size < 2 ^ 64
    → (m' : Mapping) × (unmap_range fuel m new virt size ≡ ok m')
      × Segment m'.heap m'.head (split_list es q e new virt size more)
      × ((a : ℕ)
          → (Reaches (lower e new virt) a ⊎ Reaches (upper e size) a)
            ↔ (Reaches e a × ((a < virt) ⊎ (e.virt_addr + size ≤ a))))
unfolding split_entry
unmap_range-split_list fuel m new virt size es q e more s k c f other n absent w v = (
  split_entry m new q e virt size,
  unmap_at fuel m new virt size es q e more s k c f ∙ ground (arith, other),
  split-Segment m.heap m.head es q e new virt size more s n absent,
  split_reach e new virt size c w v,
)
