-- ===== src/Language/Pointer/Count.antt =====
-- The counts in header/LanguageFeatures/SmartPointer.hpp: one operation on one object's Data.
use crack_os.Base.{
  ℕ, zero, suc, ◌+◌, ◌-◌, ◌%◌, ◌^◌, ◌<◌, ◌≡◌, ◌≢◌, ◌⊎◌, inl, inr, refl, arith, ap, ◌∙◌, true, false,
  none, some,
}
use crack_os.Base.{◌==◌, update, update_self, Run, ok, ◌>>=◌}
use crack_os.Language.Pointer.{
  Data, Heap, load_block, store, weak_destroy, delete_object, shared_destroy, shared_copy,
  weak_copy, lock, expired,
}

abbrev pub counted : ℕ → ℕ → ℕ → Data
counted r w p = record { ref_count = r; weak_count = w; ptr = p }

-- The Data at `d` and its object at `p` while `r` shared_ptrs and `w` weak_ptrs have this Data: the
-- object lives until there is no shared_ptr, and the Data until there is no pointer at all.
abbrev pub Counted : Heap → ℕ → ℕ → ℕ → ℕ → Type 0
Counted h d p zero zero = (h.blocks d ≡ none) × (h.objects p ≡ none)
Counted h d p zero (suc w) = (h.blocks d ≡ some (counted 0 (suc w) 0)) × (h.objects p ≡ none)
Counted h d p (suc r) w = (h.blocks d ≡ some (counted (suc r) w p)) × (h.objects p ≡ some 0)

module _ (h : Heap) (d p : ℕ) (d_real : d ≢ 0) (p_real : p ≢ 0) where
  copy_runs :
      (b : Data)
      → h.blocks d ≡ some b
      → shared_copy h d ≡ ok (store h d (record b { ref_count = (b.ref_count + 1) % 2 ^ 32 }))
  unfolding shared_copy
  copy_runs b e = ground arith

  weak_runs :
      (b : Data)
      → h.blocks d ≡ some b
      → weak_copy h d ≡ ok (store h d (record b { weak_count = (b.weak_count + 1) % 2 ^ 32 }))
  unfolding weak_copy
  weak_runs b e = ground arith

  lock_runs :
      (b : Data)
      → h.blocks d ≡ some b
      → b.ref_count ≢ 0
      → lock h d ≡ ok (d, store h d (record b { ref_count = (b.ref_count + 1) % 2 ^ 32 }))
  unfolding lock expired
  lock_runs b e n = ground arith

  lock_expired : (b : Data) → h.blocks d ≡ some b → b.ref_count ≡ 0 → lock h d ≡ ok (0, h)
  unfolding lock expired
  lock_expired b e n = ground arith

  -- What shared_destroy does behind the `delete`.
  abbrev pub after_delete : Heap → Run Heap
  after_delete h1 = load_block h1 d >>= λ b1. elim (b1.weak_count == 0) [
    | true ↦
        ok
          (record h1 { blocks = update (update h1.blocks d (some (record b1 { ptr = 0 }))) d none })
    | false ↦ ok (store h1 d (record b1 { ptr = 0 }))
  ]

  pub destroy_last :
      (w : ℕ)
      → h.blocks d ≡ some (counted 1 w p)
      → shared_destroy h d ≡ (delete_object (store h d (counted 0 w p)) p >>= after_delete)
  unfolding shared_destroy
  destroy_last w e = ground arith

  after_last :
      (h1 : Heap)
      → h1.blocks d ≡ some (counted 0 0 p)
      → after_delete h1
        ≡ ok (record h1 { blocks = update (update h1.blocks d (some (counted 0 0 0))) d none })
  after_last h1 e = ground arith

  after_watched :
      (h1 : Heap) (w : ℕ)
      → h1.blocks d ≡ some (counted 0 (suc w) p)
      → after_delete h1 ≡ ok (store h1 d (counted 0 (suc w) 0))
  after_watched h1 w e = ground arith

  destroy_rest :
      (b : Data)
      → h.blocks d ≡ some b
      → (b.ref_count + (2 ^ 32 - 1)) % 2 ^ 32 ≢ 0
      → shared_destroy h d
        ≡ ok (store h d (record b { ref_count = (b.ref_count + (2 ^ 32 - 1)) % 2 ^ 32 }))
  unfolding shared_destroy
  destroy_rest b e n = ground arith

  delete_runs :
      (h' : Heap)
      → h'.objects p ≡ some 0
      → delete_object h' p ≡ ok (record h' { objects = update h'.objects p none })
  unfolding delete_object weak_destroy
  delete_runs h' e = ground arith

  weak_rest :
      (b : Data)
      → h.blocks d ≡ some b
      → (((b.weak_count + (2 ^ 32 - 1)) % 2 ^ 32 ≢ 0) ⊎ (b.ref_count ≢ 0))
      → weak_destroy h d
        ≡ ok (store h d (record b { weak_count = (b.weak_count + (2 ^ 32 - 1)) % 2 ^ 32 }))
  unfolding weak_destroy
  weak_rest b e n = ground arith

  weak_last :
      h.blocks d ≡ some (counted 0 1 0)
      → weak_destroy h d ≡ ok (record h { blocks = update h.blocks d none })
  unfolding weak_destroy
  weak_last e = ground arith

  -- Storing the Data of other counts.
  stored : (b : Data) → (store h d b).blocks d ≡ some b
  stored b = update_self h.blocks d (some b)

  -- A shared_ptr that is copied.
  pub shared_copy-Counted :
      (r w : ℕ)
      → r + 2 < 2 ^ 32
      → Counted h d p (suc r) w
      → (h' : Heap) × (shared_copy h d ≡ ok h') × Counted h' d p (suc (suc r)) w
  shared_copy-Counted r w small c =
      let n : (suc r + 1) % 2 ^ 32 ≡ suc (suc r) = omega arith in
      (
        store h d (counted (suc (suc r)) w p),
        copy_runs (counted (suc r) w p) c.0 ∙ ap (λ (k : ℕ). ok (store h d (counted k w p))) n,
        (stored (counted (suc (suc r)) w p), c.1),
      )

  -- The heap after the `delete` of the object.
  deleted : ℕ → Heap
  deleted w = record (store h d (counted 0 w p)) { objects = update h.objects p none }

  last_runs : (w : ℕ) → Counted h d p 1 w → shared_destroy h d ≡ after_delete (deleted w)
  unfolding deleted
  last_runs w c =
      destroy_last w c.0
      ∙ ap (λ r. r >>= after_delete) (delete_runs (store h d (counted 0 w p)) c.1)

  -- A shared_ptr that is destroyed.
  pub shared_destroy-Counted :
      (r w : ℕ)
      → r + 1 < 2 ^ 32
      → Counted h d p (suc r) w
      → (h' : Heap) × (shared_destroy h d ≡ ok h') × Counted h' d p r w
  unfolding deleted
  shared_destroy-Counted (suc r) w small c =
      let n : (suc (suc r) + (2 ^ 32 - 1)) % 2 ^ 32 ≡ suc r = omega arith in
      (
        store h d (counted (suc r) w p),
        destroy_rest (counted (suc (suc r)) w p) c.0 (omega (arith, n))
            ∙ ap (λ (k : ℕ). ok (store h d (counted k w p))) n,
        (stored (counted (suc r) w p), c.1),
      )
  shared_destroy-Counted zero zero small c =
      let h1 = deleted 0 in
      (
        record h1 { blocks = update (update h1.blocks d (some (counted 0 0 0))) d none },
        last_runs 0 c ∙ after_last h1 (stored (counted 0 0 p)),
        (
          update_self (update h1.blocks d (some (counted 0 0 0))) d none,
          update_self h.objects p none,
        ),
      )
  shared_destroy-Counted zero (suc w) small c =
      let h1 = deleted (suc w) in
      (
        store h1 d (counted 0 (suc w) 0),
        last_runs (suc w) c ∙ after_watched h1 w (stored (counted 0 (suc w) p)),
        (update_self h1.blocks d (some (counted 0 (suc w) 0)), update_self h.objects p none),
      )

  -- A weak_ptr that is destroyed.
  pub weak_destroy-Counted :
      (r w : ℕ)
      → w + 1 < 2 ^ 32
      → Counted h d p r (suc w)
      → (h' : Heap) × (weak_destroy h d ≡ ok h') × Counted h' d p r w
  weak_destroy-Counted (suc r) w small c =
      let n : (suc w + (2 ^ 32 - 1)) % 2 ^ 32 ≡ w = omega arith in
      (
        store h d (counted (suc r) w p),
        weak_rest (counted (suc r) (suc w) p) c.0 (inr (omega arith))
            ∙ ap (λ (k : ℕ). ok (store h d (counted (suc r) k p))) n,
        (stored (counted (suc r) w p), c.1),
      )
  weak_destroy-Counted zero (suc w) small c =
      let n : (suc (suc w) + (2 ^ 32 - 1)) % 2 ^ 32 ≡ suc w = omega arith in
      (
        store h d (counted 0 (suc w) 0),
        weak_rest (counted 0 (suc (suc w)) 0) c.0 (inl (omega (arith, n)))
            ∙ ap (λ (k : ℕ). ok (store h d (counted 0 k 0))) n,
        (stored (counted 0 (suc w) 0), c.1),
      )
  weak_destroy-Counted zero zero small c = (
    record h { blocks = update h.blocks d none },
    weak_last c.0,
    (update_self h.blocks d none, c.1),
  )

  -- A weak_ptr that is made from a pointer to the same Data.
  pub weak_copy-Counted :
      (r w : ℕ)
      → w + 1 < 2 ^ 32
      → ((r ≢ 0) ⊎ (w ≢ 0))
      → Counted h d p r w
      → (h' : Heap) × (weak_copy h d ≡ ok h') × Counted h' d p r (suc w)
  weak_copy-Counted (suc r) w small some_left c =
      let n : (w + 1) % 2 ^ 32 ≡ suc w = omega arith in
      (
        store h d (counted (suc r) (suc w) p),
        weak_runs (counted (suc r) w p) c.0
            ∙ ap (λ (k : ℕ). ok (store h d (counted (suc r) k p))) n,
        (stored (counted (suc r) (suc w) p), c.1),
      )
  weak_copy-Counted zero (suc w) small some_left c =
      let n : (suc w + 1) % 2 ^ 32 ≡ suc (suc w) = omega arith in
      (
        store h d (counted 0 (suc (suc w)) 0),
        weak_runs (counted 0 (suc w) 0) c.0 ∙ ap (λ (k : ℕ). ok (store h d (counted 0 k 0))) n,
        (stored (counted 0 (suc (suc w)) 0), c.1),
      )
  weak_copy-Counted zero zero small some_left c = absurd (ground arith)

  -- lock of a weak_ptr whose object lives.
  pub lock-Counted :
      (r w : ℕ)
      → r + 2 < 2 ^ 32
      → Counted h d p (suc r) (suc w)
      → (h' : Heap) × (lock h d ≡ ok (d, h')) × Counted h' d p (suc (suc r)) (suc w)
  lock-Counted r w small c =
      let n : (suc r + 1) % 2 ^ 32 ≡ suc (suc r) = omega arith in
      (
        store h d (counted (suc (suc r)) (suc w) p),
        lock_runs (counted (suc r) (suc w) p) c.0 (omega arith)
            ∙ ap (λ (k : ℕ). ok (d, store h d (counted k (suc w) p))) n,
        (stored (counted (suc (suc r)) (suc w) p), c.1),
      )

  -- lock of a weak_ptr whose object is gone returns null.
  pub lock_expired-Counted : (w : ℕ) → Counted h d p 0 (suc w) → lock h d ≡ ok (0, h)
  lock_expired-Counted w c = lock_expired (counted 0 (suc w) 0) c.0 refl
