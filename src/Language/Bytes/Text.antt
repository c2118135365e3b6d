-- ===== src/Language/Bytes/Text.antt =====
-- strncpy of src/LanguageFeatures/memory.cpp.
use crack_os.Base.{
  ℕ, zero, suc, ◌+◌, ◌-◌, ◌<◌, ◌≤◌, ◌≡◌, ◌≢◌, ◌⊎◌, inl, inr, refl, arith, ap, sym, ◌∙◌,
}
use crack_os.Base.{◌==◌, update, update_self, update_ne, Bool-cases}
use crack_os.Language.Bytes.{Bytes, pad_loop, text_loop, strncpy}

pad_outside :
    (left : ℕ) (m : Bytes) (d i q : ℕ)
    → ((q < d + i) ⊎ (d + i + left ≤ q))
    → pad_loop left m d i q ≡ m q
unfolding pad_loop
pad_outside zero m d i q h = refl
pad_outside (suc left) m d i q h =
    pad_outside left (update m (d + i) 0) d (i + 1) q (ground arith)
    ∙ update_ne m (d + i) 0 q (ground arith)

pad_inside :
    (left : ℕ) (m : Bytes) (d i k q : ℕ) → k < left → q ≡ d + i + k → pad_loop left m d i q ≡ 0
unfolding pad_loop
pad_inside zero m d i k q h e = absurd (omega arith)
pad_inside (suc left) m d i zero q h e =
    pad_outside left (update m (d + i) 0) d (i + 1) q (inl (omega arith))
    ∙ ap (update m (d + i) 0) {y = d + i} (omega arith)
    ∙ update_self m (d + i) 0
pad_inside (suc left) m d i (suc k) q h e =
    pad_inside left (update m (d + i) 0) d (i + 1) k q (omega arith) (omega arith)

-- The text from `i` to its end at `n`, zeros up to `num`, and all else as it was.
pub record Copied (m m' : Bytes) (d s i n num : ℕ) : Type 0 where
  pub text : (k q : ℕ) → i ≤ k → k < n → q ≡ d + k → m' q ≡ m (s + k)
  pub zeros : (k q : ℕ) → n ≤ k → k < num → q ≡ d + k → m' q ≡ 0
  pub outside : (q : ℕ) → ((q < d + i) ⊎ (d + num ≤ q)) → m' q ≡ m q

module _ (d s n num : ℕ) (inside : n < num) (apart : (d + num ≤ s) ⊎ (s + n < d)) where
  text_end :
      (left : ℕ) (m : Bytes) (i : ℕ)
      → i ≡ n
      → m (s + i) ≡ 0
      → text_loop (suc left) m d s i ≡ pad_loop (suc left) (update m (d + i) (m (s + i))) d i
  unfolding text_loop
  text_end left m i e z =
      let kept : update m (d + i) (m (s + i)) (s + i) ≡ 0 =
        update_ne m (d + i) (m (s + i)) (s + i) (ground arith) ∙ z in
      rw kept refl

  text_more :
      (left : ℕ) (m : Bytes) (i : ℕ)
      → i < n
      → m (s + i) ≢ 0
      → text_loop (suc left) m d s i ≡ text_loop left (update m (d + i) (m (s + i))) d s (i + 1)
  unfolding text_loop
  text_more left m i e z =
      let kept : update m (d + i) (m (s + i)) (s + i) ≡ m (s + i) =
        update_ne m (d + i) (m (s + i)) (s + i) (ground arith) in
      let differs : update m (d + i) (m (s + i)) (s + i) ≢ 0 = λ x. z (sym kept ∙ x) in ground arith

  -- The source is not written over.
  keeps : (m : Bytes) (i k : ℕ) → i < num → k ≤ n → update m (d + i) (m (s + i)) (s + k) ≡ m (s + k)
  keeps m i k small le = update_ne m (d + i) (m (s + i)) (s + k) (ground arith)

  text-Copied :
      (left : ℕ) (m : Bytes) (i : ℕ)
      → i ≤ n
      → i + left ≡ num
      → ((k : ℕ) → i ≤ k → k < n → m (s + k) ≢ 0)
      → m (s + n) ≡ 0
      → Copied m (text_loop left m d s i) d s i n num
  text-Copied zero m i le c live z = absurd (omega arith)
  text-Copied (suc left) m i le c live z = elim (Bool-cases (i == n)) [
    | inl end ↦
        let here : i ≡ n = ground arith in
        let m1 = update m (d + i) (m (s + i)) in
        rw (text_end left m i here (ap m {y = s + n} (omega arith) ∙ z)) (record {
          text = λ k q lo hi e. absurd (omega arith);
          zeros = λ k q lo hi e. pad_inside (suc left) m1 d i (k - i) q (omega arith) (omega arith);
          outside = λ q h.
              pad_outside (suc left) m1 d i q (ground arith)
              ∙ update_ne m (d + i) (m (s + i)) q (ground arith);
        })
    | inr more ↦
        let before : i < n = ground arith in
        let m1 = update m (d + i) (m (s + i)) in
        let r =
          text-Copied left m1 (i + 1) (omega arith) (omega arith)
            (λ k lo hi x.
              live k (omega arith) hi (sym (keeps m i k (omega arith) (omega arith)) ∙ x))
            (keeps m i n (omega arith) (omega arith) ∙ z) in
        rw (text_more left m i before (live i (omega arith) before)) (record {
          text = λ k q lo hi e. elim (Bool-cases (k == i)) [
            | inl first ↦
                r.outside q (inl (ground arith))
                ∙ ap m1 {y = d + i} (ground arith)
                ∙ update_self m (d + i) (m (s + i))
                ∙ ap m (ground arith)
            | inr behind ↦ r.text k q (ground arith) hi e ∙ keeps m i k (omega arith) (omega arith)
          ];
          zeros = r.zeros;
          outside =
              λ q h. r.outside q (ground arith) ∙ update_ne m (d + i) (m (s + i)) q (ground arith);
        })
  ]

  -- strncpy of a text that ends at `n`, within its `num` bytes, to a place that the text does not
  -- reach and that does not reach the text: the text, zeros up to `num`, and all else as it was.
  pub strncpy-Copied :
      (m : Bytes)
      → ((k : ℕ) → k < n → m (s + k) ≢ 0)
      → m (s + n) ≡ 0
      → Copied m (strncpy m d s num) d s 0 n num
  unfolding strncpy
  strncpy-Copied m live z = text-Copied num m 0 (omega arith) (omega arith) (λ k lo hi. live k hi) z
