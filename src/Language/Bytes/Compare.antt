-- ===== src/Language/Bytes/Compare.antt =====
-- memcmp, strlen and strcmp of src/LanguageFeatures/memory.cpp.
use crack_os.Base.{ℕ, zero, suc, ◌+◌, ◌-◌, ◌%◌, ◌^◌, ◌<◌, ◌≡◌, ◌≢◌, refl, arith, ap, ap₂, sym, ◌∙◌}
use crack_os.Base.{ok}
use crack_os.Language.Bytes.{
  Bytes, char_of, compare_loop, memcmp, strlen_loop, strlen, strcmp_loop, strcmp,
}

module _ (m : Bytes) (p : ℕ) where
  -- No 0 stands in the `n` bytes from `i` on.
  abbrev pub NoEnd : ℕ → ℕ → Type 0
  NoEnd i n = (k : ℕ) → k < n → m (p + (i + k)) ≢ 0

  end_here : (i n : ℕ) → NoEnd i (suc n) → m (p + i) ≢ 0
  end_here i n s e = s 0 (omega arith) (ap m {y = p + i} (omega arith) ∙ e)

  end_next : (i n : ℕ) → NoEnd i (suc n) → NoEnd (i + 1) n
  end_next i n s k h e = s (suc k) (omega arith) (ap m {y = p + (i + 1 + k)} (omega arith) ∙ e)

  strlen_more :
      (fuel i : ℕ) → m (p + i) ≢ 0 → strlen_loop (suc fuel) m p i ≡ strlen_loop fuel m p (i + 1)
  unfolding strlen_loop
  strlen_more fuel i h = ground arith

  strlen_end : (fuel i : ℕ) → m (p + i) ≡ 0 → strlen_loop (suc fuel) m p i ≡ ok i
  unfolding strlen_loop
  strlen_end fuel i h = ground arith

  strlen_walk :
      (n fuel i j : ℕ)
      → j ≡ i + n
      → n < fuel
      → NoEnd i n
      → m (p + j) ≡ 0
      → strlen_loop fuel m p i ≡ ok j
  strlen_walk n zero i j e h o z = absurd (omega arith)
  strlen_walk zero (suc fuel) i j e h o z =
      let same : i ≡ j = omega arith in rw same (strlen_end fuel j z)
  strlen_walk (suc n) (suc fuel) i j e h o z =
      strlen_more fuel i (end_here i n o)
      ∙ strlen_walk n fuel (i + 1) j (omega arith) (omega arith) (end_next i n o) z

  -- strlen is the number of bytes before the first 0.
  pub strlen_lem : (fuel n : ℕ) → n < fuel → NoEnd 0 n → m (p + n) ≡ 0 → strlen fuel m p ≡ ok n
  unfolding strlen
  strlen_lem fuel n h o z = strlen_walk n fuel 0 n (omega arith) h o z

module _ (m : Bytes) (p q : ℕ) where
  -- The memory at both addresses holds the same `n` bytes from `i` on.
  abbrev pub Same : ℕ → ℕ → Type 0
  Same i n = (k : ℕ) → k < n → m (p + (i + k)) ≡ m (q + (i + k))

  Same-here : (i n : ℕ) → Same i (suc n) → m (p + i) ≡ m (q + i)
  Same-here i n s = ap m (place p) ∙ s 0 (omega arith) ∙ ap m (sym (place q))
    where
      place : (a : ℕ) → a + i ≡ a + (i + 0)
      place a = omega arith

  Same-next : (i n : ℕ) → Same i (suc n) → Same (i + 1) n
  Same-next i n s k h = ap m (place p) ∙ s (suc k) (omega arith) ∙ ap m (sym (place q))
    where
      place : (a : ℕ) → a + (i + 1 + k) ≡ a + (i + suc k)
      place a = omega arith

  compare_same :
      (left i : ℕ)
      → m (p + i) ≡ m (q + i)
      → compare_loop (suc left) m p q i ≡ compare_loop left m p q (i + 1)
  unfolding compare_loop
  compare_same left i e = ground arith

  compare_differ :
      (left i : ℕ)
      → m (p + i) ≢ m (q + i)
      → compare_loop (suc left) m p q i ≡ (m (p + i) + 2 ^ 32 - m (q + i)) % 2 ^ 32
  unfolding compare_loop
  compare_differ left i e = ground arith

  compare_all : (left i : ℕ) → Same i left → compare_loop left m p q i ≡ 0
  unfolding compare_loop
  compare_all zero i s = refl
  compare_all (suc left) i s =
      compare_same left i (Same-here i left s) ∙ compare_all left (i + 1) (Same-next i left s)

  compare_first :
      (n left i j : ℕ)
      → j ≡ i + n
      → n < left
      → Same i n
      → m (p + j) ≢ m (q + j)
      → compare_loop left m p q i ≡ (m (p + j) + 2 ^ 32 - m (q + j)) % 2 ^ 32
  compare_first n zero i j e h s d = absurd (omega arith)
  compare_first zero (suc left) i j e h s d =
      let same : i ≡ j = omega arith in rw same (compare_differ left j d)
  compare_first (suc n) (suc left) i j e h s d =
      compare_same left i (Same-here i n s)
      ∙ compare_first n left (i + 1) j (omega arith) (omega arith) (Same-next i n s) d

  -- memcmp is 0 when the bytes are the same, and else the difference of the first two bytes that
  -- differ, as an int.
  pub memcmp_lem :
      (num : ℕ)
      → (Same 0 num → memcmp m p q num ≡ 0)
        × ((n : ℕ)
            → n < num
            → Same 0 n
            → m (p + n) ≢ m (q + n)
            → memcmp m p q num ≡ (m (p + n) + 2 ^ 32 - m (q + n)) % 2 ^ 32)
  unfolding memcmp
  memcmp_lem num = (compare_all num 0, λ n h s d. compare_first n num 0 n (omega arith) h s d)

  strcmp_same :
      (fuel i : ℕ)
      → m (p + i) ≡ m (q + i)
      → m (p + i) ≢ 0
      → strcmp_loop (suc fuel) m p q i ≡ strcmp_loop fuel m p q (i + 1)
  unfolding strcmp_loop
  strcmp_same fuel i e h = ground arith

  strcmp_end :
      (fuel i : ℕ) → m (p + i) ≡ m (q + i) → m (p + i) ≡ 0 → strcmp_loop (suc fuel) m p q i ≡ ok 0
  unfolding strcmp_loop
  strcmp_end fuel i e h = ground arith

  strcmp_differ :
      (fuel i : ℕ)
      → m (p + i) ≢ m (q + i)
      → strcmp_loop (suc fuel) m p q i
        ≡ ok ((char_of (m (p + i)) + 2 ^ 32 - char_of (m (q + i))) % 2 ^ 32)
  unfolding strcmp_loop
  strcmp_differ fuel i e = ground arith

  strcmp_walk :
      (n fuel i : ℕ)
      → Same i n
      → NoEnd m p i n
      → strcmp_loop (n + suc fuel) m p q i ≡ strcmp_loop (suc fuel) m p q (i + n)
  strcmp_walk zero fuel i s o = ap₂ (λ (f j : ℕ). strcmp_loop f m p q j) (omega arith) (omega arith)
  strcmp_walk (suc n) fuel i s o =
      ap (λ (f : ℕ). strcmp_loop f m p q i) (omega arith)
      ∙ strcmp_same (n + suc fuel) i (Same-here i n s) (end_here m p i n o)
      ∙ strcmp_walk n fuel (i + 1) (Same-next i n s) (end_next m p i n o)
      ∙ ap (strcmp_loop (suc fuel) m p q) (omega arith)

  strcmp_at :
      (fuel n : ℕ)
      → n < fuel
      → Same 0 n
      → NoEnd m p 0 n
      → strcmp fuel m p q ≡ strcmp_loop (suc (fuel - n - 1)) m p q n
  unfolding strcmp
  strcmp_at fuel n h s o =
      ap (λ (f : ℕ). strcmp_loop f m p q 0) {y = n + suc (fuel - n - 1)} (omega arith)
      ∙ strcmp_walk n (fuel - n - 1) 0 s o
      ∙ ap (strcmp_loop (suc (fuel - n - 1)) m p q) (omega arith)

  -- strcmp of two strings that have their first `n` characters in common is 0 when both end there,
  -- and the difference of the next characters, as signed ones, when these differ.
  pub strcmp_lem :
      (fuel n : ℕ)
      → n < fuel
      → Same 0 n
      → NoEnd m p 0 n
      → (m (p + n) ≡ 0 → m (q + n) ≡ 0 → strcmp fuel m p q ≡ ok 0)
        × (m (p + n) ≢ m (q + n)
            → strcmp fuel m p q
              ≡ ok ((char_of (m (p + n)) + 2 ^ 32 - char_of (m (q + n))) % 2 ^ 32))
  strcmp_lem fuel n h s o = (
    λ z y. strcmp_at fuel n h s o ∙ strcmp_end (fuel - n - 1) n (z ∙ sym y) z,
    λ d. strcmp_at fuel n h s o ∙ strcmp_differ (fuel - n - 1) n d,
  )
