-- ===== src/Memory/Heap/Links.antt =====
-- The list of blocks of src/Memory/heap.cpp: a block that is linked and unlinked again.
use native.Mathlib.Decide.{ℕ_discrete}
use crack_os.Base.{ℕ, ◌≡◌, ◌≢◌, refl, arith, sym, ap, ◌∙◌, true, false}
use crack_os.Base.{◌==◌, update, update_self, update_ne}
use crack_os.Memory.Heap.{PointerData, with_prev, with_next, link_block, unlink_block}

with_prev_self :
    (b : ℕ → PointerData) (p v : ℕ) → p ≢ 0 → with_prev b p v p ≡ record (b p) { prev_virtual = v }
unfolding with_prev
with_prev_self b p v h =
    let e : (p == 0) ≡ false = ground arith in
    rw (e, with_prev) (update_self b p (record (b p) { prev_virtual = v }))

with_prev_ne : (b : ℕ → PointerData) (p v q : ℕ) → q ≢ p → with_prev b p v q ≡ b q
unfolding with_prev
with_prev_ne b p v q h = elim (ℕ_discrete p 0) [
  | yes z ↦ let e : (p == 0) ≡ true = ground arith in rw (e, with_prev) refl
  | no z ↦
      let e : (p == 0) ≡ false = ground arith in
      rw (e, with_prev) (update_ne b p (record (b p) { prev_virtual = v }) q h)
]

with_prev_zero : (b : ℕ → PointerData) (p v q : ℕ) → p ≡ 0 → with_prev b p v q ≡ b q
unfolding with_prev
with_prev_zero b p v q z = let e : (p == 0) ≡ true = ground arith in rw (e, with_prev) refl

with_next_self :
    (b : ℕ → PointerData) (p v : ℕ) → p ≢ 0 → with_next b p v p ≡ record (b p) { next_virtual = v }
unfolding with_next
with_next_self b p v h =
    let e : (p == 0) ≡ false = ground arith in
    rw (e, with_next) (update_self b p (record (b p) { next_virtual = v }))

with_next_ne : (b : ℕ → PointerData) (p v q : ℕ) → q ≢ p → with_next b p v q ≡ b q
unfolding with_next
with_next_ne b p v q h = elim (ℕ_discrete p 0) [
  | yes z ↦ let e : (p == 0) ≡ true = ground arith in rw (e, with_next) refl
  | no z ↦
      let e : (p == 0) ≡ false = ground arith in
      rw (e, with_next) (update_ne b p (record (b p) { next_virtual = v }) q h)
]

module _ (blocks : ℕ → PointerData) (block new size : ℕ) (some_block : block ≢ 0)
    (other : block ≢ new) (apart : (blocks block).next_virtual ≢ new)
    (ahead : (blocks block).next_virtual ≢ block) where
  abbrev next : ℕ
  next = (blocks block).next_virtual

  abbrev header : PointerData
  header = record { size = size; next_virtual = next; prev_virtual = block }

  abbrev middle : ℕ → PointerData
  middle = with_prev (update blocks new header) next new

  abbrev linked : ℕ → PointerData
  linked = link_block blocks block new size

  linked_new : linked new ≡ header
  unfolding link_block
  linked_new =
      update_ne middle block (record (middle block) { next_virtual = new }) new (λ e. other (sym e))
      ∙ with_prev_ne (update blocks new header) next new new (λ e. apart (sym e))
      ∙ update_self blocks new header

  linked_self : linked block ≡ record (blocks block) { next_virtual = new }
  unfolding link_block
  linked_self =
      update_self middle block (record (middle block) { next_virtual = new })
      ∙ ap (λ (r : PointerData). record r { next_virtual = new })
          (with_prev_ne (update blocks new header) next new block (λ e. ahead (sym e))
            ∙ update_ne blocks new header block other)

  linked_next : next ≢ 0 → linked next ≡ record (blocks next) { prev_virtual = new }
  unfolding link_block
  linked_next h =
      update_ne middle block (record (middle block) { next_virtual = new }) next ahead
      ∙ with_prev_self (update blocks new header) next new h
      ∙ ap (λ (r : PointerData). record r { prev_virtual = new })
          (update_ne blocks new header next apart)

  linked_away : (q : ℕ) → q ≢ new → q ≢ block → q ≢ next → linked q ≡ blocks q
  unfolding link_block
  linked_away q h k l =
      update_ne middle block (record (middle block) { next_virtual = new }) q k
      ∙ with_prev_ne (update blocks new header) next new q l
      ∙ update_ne blocks new header q h

  abbrev behind : ℕ → PointerData
  behind = with_prev linked next block

  behind_new : behind new ≡ header
  behind_new = with_prev_ne linked next block new (λ e. apart (sym e)) ∙ linked_new

  unlinked_at : (q : ℕ) → q ≢ new → unlink_block linked new q ≡ with_next behind block next q
  unfolding unlink_block
  unlinked_at q h =
      let b1 = with_prev linked (linked new).next_virtual (linked new).prev_virtual in
      let b2 = with_next b1 (b1 new).prev_virtual (b1 new).next_virtual in
      update_ne b2 new (record (b2 new) { next_virtual = 0; prev_virtual = 0 }) q h
      ∙ ap
          (λ (r : PointerData).
            let b = with_prev linked r.next_virtual r.prev_virtual in
            with_next b (b new).prev_virtual (b new).next_virtual q)
          linked_new
      ∙ ap (λ (r : PointerData). with_next behind r.prev_virtual r.next_virtual q) behind_new

  unlinked_self : unlink_block linked new block ≡ blocks block
  unlinked_self =
      unlinked_at block other
      ∙ with_next_self behind block next some_block
      ∙ ap (λ (r : PointerData). record r { next_virtual = next })
          (with_prev_ne linked next block block (λ e. ahead (sym e)) ∙ linked_self)

  unlinked_next :
      next ≢ 0 → (blocks next).prev_virtual ≡ block → unlink_block linked new next ≡ blocks next
  unlinked_next h back =
      unlinked_at next apart
      ∙ with_next_ne behind block next next ahead
      ∙ with_prev_self linked next block h
      ∙ ap (λ (r : PointerData). record r { prev_virtual = block }) (linked_next h)
      ∙ ap (λ (p : ℕ). record (blocks next) { prev_virtual = p }) (sym back)

  unlinked_away : (q : ℕ) → q ≢ new → q ≢ block → q ≢ next → unlink_block linked new q ≡ blocks q
  unlinked_away q h k l =
      unlinked_at q h
      ∙ with_next_ne behind block next q k
      ∙ with_prev_ne linked next block q l
      ∙ linked_away q h k l

  unlinked_end : next ≡ 0 → unlink_block linked new next ≡ blocks next
  unfolding link_block
  unlinked_end z =
      unlinked_at next apart
      ∙ with_next_ne behind block next next ahead
      ∙ with_prev_zero linked next block next z
      ∙ update_ne middle block (record (middle block) { next_virtual = new }) next ahead
      ∙ with_prev_zero (update blocks new header) next new next z
      ∙ update_ne blocks new header next apart

  -- When a block is linked behind another one and then unlinked, every header but its own is what
  -- it was, if the three blocks are different and the next one, if there is one, points back.
  pub unlink_block-link_block :
      ((blocks block).next_virtual ≢ 0 → (blocks (blocks block).next_virtual).prev_virtual ≡ block)
      → (q : ℕ) → q ≢ new
      → unlink_block (link_block blocks block new size) new q ≡ blocks q
  unlink_block-link_block back q away = elim (ℕ_discrete q block) [
    | yes here ↦ ap (unlink_block linked new) here ∙ unlinked_self ∙ ap blocks (sym here)
    | no k ↦ elim (ℕ_discrete q next) [
      | no l ↦ unlinked_away q away k l
      | yes there ↦ elim (ℕ_discrete next 0) [
        | yes z ↦ ap (unlink_block linked new) there ∙ unlinked_end z ∙ ap blocks (sym there)
        | no h ↦
            ap (unlink_block linked new) there ∙ unlinked_next h (back h) ∙ ap blocks (sym there)
      ]
    ]
  ]
