-- ===== src/Language/Digits/Reverse.antt =====
-- reverse of src/LanguageFeatures/string.cpp.
use crack_os.Base.{ℕ, zero, suc, ◌+◌, ◌-◌, ◌<◌, ◌≤◌, ◌≡◌, ◌≢◌, ◌⊎◌, inl, inr, refl, arith, ap, ◌∙◌}
use crack_os.Base.{ltb, ◌==◌, update, update_self, update_ne, ok, Bool-cases}
use crack_os.Language.Bytes.{Bytes}
use crack_os.Language.Digits.{reverse_loop, reverse}

-- The bytes of the addresses from `start` to `last` in the reverse order.
pub record Mirrored (m m' : Bytes) (start last : ℕ) : Type 0 where
  pub inside : (p q : ℕ) → start ≤ p → p ≤ last → p + q ≡ start + last → m' p ≡ m q
  pub outside : (p : ℕ) → ((p < start) ⊎ (last < p)) → m' p ≡ m p

loop_end :
    (fuel : ℕ) (m : Bytes) (start last : ℕ)
    → last ≤ start
    → reverse_loop (suc fuel) m start last ≡ ok m
unfolding reverse_loop
loop_end fuel m start last h = ground arith

loop_step :
    (fuel : ℕ) (m : Bytes) (start last : ℕ)
    → start < last
    → reverse_loop (suc fuel) m start last
      ≡ reverse_loop fuel (update (update m start (m last)) last (m start)) (start + 1) (last - 1)
unfolding reverse_loop
loop_step fuel m start last h = ground arith

module _ (m : Bytes) (start last : ℕ) (lt : start < last) where
  swapped : Bytes
  swapped = update (update m start (m last)) last (m start)

  swapped_start : swapped start ≡ m last
  unfolding swapped
  swapped_start =
      update_ne (update m start (m last)) last (m start) start (omega arith)
      ∙ update_self m start (m last)

  swapped_last : swapped last ≡ m start
  unfolding swapped
  swapped_last = update_self (update m start (m last)) last (m start)

  swapped_other : (p : ℕ) → p ≢ start → p ≢ last → swapped p ≡ m p
  unfolding swapped
  swapped_other p h l =
      update_ne (update m start (m last)) last (m start) p l ∙ update_ne m start (m last) p h

  -- The first and the last byte are swapped, and the ones between mirrored.
  wrap-Mirrored :
      (m' : Bytes) → Mirrored swapped m' (start + 1) (last - 1) → Mirrored m m' start last
  wrap-Mirrored m' r = record {
    inside = λ p q lo hi e. elim (Bool-cases (p == start)) [
      | inl first ↦
          r.outside p (inl (ground arith))
          ∙ ap swapped {y = start} (ground arith)
          ∙ swapped_start
          ∙ ap m (ground arith)
      | inr behind ↦ elim (Bool-cases (p == last)) [
        | inl end ↦
            r.outside p (inr (ground arith))
            ∙ ap swapped {y = last} (ground arith)
            ∙ swapped_last
            ∙ ap m (ground arith)
        | inr between ↦
            r.inside p q (ground arith) (ground arith) (ground arith)
            ∙ swapped_other q (ground arith) (ground arith)
      ]
    ];
    outside = λ p h. r.outside p (ground arith) ∙ swapped_other p (ground arith) (ground arith);
  }

loop-Mirrored :
    (fuel : ℕ) (m : Bytes) (start last : ℕ)
    → last < start + fuel
    → 0 < fuel
    → (m' : Bytes) × (reverse_loop fuel m start last ≡ ok m') × Mirrored m m' start last
unfolding swapped
loop-Mirrored zero m start last h z = absurd (omega arith)
loop-Mirrored (suc fuel) m start last h z = elim (Bool-cases (ltb start last)) [
  | inl more ↦
      let (m', ran, r) =
        loop-Mirrored fuel (update (update m start (m last)) last (m start)) (start + 1) (last - 1)
          (ground arith) (ground arith) in
      (
        m',
        loop_step fuel m start last (ground arith) ∙ ran,
        wrap-Mirrored m start last (ground arith) m' r,
      )
  | inr done ↦ (
    m,
    loop_end fuel m start last (ground arith),
    record { inside = λ p q lo hi e. ap m (ground arith); outside = λ p g. refl },
  )
]

-- reverse of the `n` bytes from an address on ends, and leaves them in the reverse order and every
-- other byte as it was.
pub reverse-Mirrored :
    (fuel : ℕ) (m : Bytes) (buffer n : ℕ)
    → n < fuel
    → 0 < buffer
    → (m' : Bytes) × (reverse fuel m buffer (buffer + n) ≡ ok m')
      × ((k j : ℕ) → k + j + 1 ≡ n → m' (buffer + k) ≡ m (buffer + j))
      × ((p : ℕ) → ((p < buffer) ⊎ (buffer + n ≤ p)) → m' p ≡ m p)
unfolding reverse
reverse-Mirrored fuel m buffer n f z =
    let (m', ran, r) = loop-Mirrored fuel m buffer (buffer + n - 1) (omega arith) (omega arith) in
    (
      m',
      ran,
      λ k j e. r.inside (buffer + k) (buffer + j) (omega arith) (omega arith) (omega arith),
      λ p h. r.outside p (ground arith),
    )
