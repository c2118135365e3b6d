-- ===== src/Language/Digits/Text.antt =====
-- intToString of src/LanguageFeatures/string.cpp: the text is the number's numeral.
use native.Mathlib.Nat.{div-add-mod', div-lt_self, mod-lt}
use crack_os.Base.{
  ℕ, zero, suc, ◌+◌, ◌-◌, ◌*◌, ◌/◌, ◌%◌, ◌^◌, ◌<◌, ◌≤◌, ◌≡◌, ◌⊎◌, inl, inr, refl, arith, ap, sym,
  subst, ◌∙◌, true, false,
}
use crack_os.Base.{ltb, if◌then◌else◌, update, update_self, update_ne, ok, ◌>>=◌}
use crack_os.Language.Bytes.{Bytes}
use crack_os.Language.Digits.{digit_char, digit_loop, finish, reverse, int_to_string}
use crack_os.Language.Digits.Reverse.{reverse-Mirrored}

abbrev digit_value : ℕ → ℕ
digit_value c = if ltb c b'a' then c - b'0' else c + 10 - b'a'

-- The number that `n` digits from an address on denote, read behind the number `acc`.
unfoldable pub read_number : Bytes → ℕ → ℕ → ℕ → ℕ → ℕ
read_number m p zero base acc = acc
read_number m p (suc n) base acc = read_number m (p + 1) n base (acc * base + digit_value (m p))

-- The digit at the place `k`, from the lowest one up, and the number without its `k` lowest digits.
nth_digit : ℕ → ℕ → ℕ → ℕ
nth_digit base zero v = v % base
nth_digit base (suc k) v = nth_digit base k (v / base)

rest : ℕ → ℕ → ℕ → ℕ
rest base zero v = v
rest base (suc k) v = rest base k (v / base)

digit_lem : (d : ℕ) → d < 36 → digit_value (digit_char d) ≡ d
digit_lem d h = ground arith

module _ (base : ℕ) (two : 2 ≤ base) where
  rest_split : (k v : ℕ) → rest base k v ≡ rest base (suc k) v * base + nth_digit base k v
  unfolding rest nth_digit
  rest_split zero v = sym (div-add-mod' v base)
  rest_split (suc k) v = rest_split k (v / base)

  nth_small : (k v : ℕ) → nth_digit base k v < base
  unfolding nth_digit
  nth_small zero v = mod-lt v (omega arith)
  nth_small (suc k) v = nth_small k (v / base)

  smaller : (v : ℕ) → 0 < v → v / base < v
  smaller v h = div-lt_self h two

  -- What the loop leaves from `at` on: `n` digits of a number, and all other bytes as they were.
  record Written (m m' : Bytes) (at n v : ℕ) : Type 0 where
    digits : (k q : ℕ) → k < n → q ≡ at + k → m' q ≡ digit_char (nth_digit base k v)
    outside : (q : ℕ) → ((q < at) ⊎ (at + n ≤ q)) → m' q ≡ m q
    all : rest base n v ≡ 0
    count : n ≤ v

  loop_end :
      (fuel : ℕ) (m : Bytes) (buffer i : ℕ) → digit_loop (suc fuel) m 0 buffer base i ≡ ok (i, m)
  unfolding digit_loop
  loop_end fuel m buffer i = refl

  loop_step :
      (fuel : ℕ) (m : Bytes) (v buffer i : ℕ)
      → 0 < v
      → v < 2 ^ 63
      → digit_loop (suc fuel) m v buffer base i
        ≡ digit_loop fuel
            (update m (buffer + i) (digit_char (v % base)))
            (v / base)
            buffer
            base
            (i + 1)
  unfolding digit_loop
  loop_step fuel m v buffer i pos small =
      let lo : ltb 0 v ≡ true = ground arith in
      let hi : ltb v (2 ^ 63) ≡ true = ground arith in ground arith

  Written-more :
      (m m' : Bytes) (buffer i n v : ℕ)
      → 0 < v
      → Written (update m (buffer + i) (digit_char (v % base))) m' (buffer + (i + 1)) n (v / base)
      → Written m m' (buffer + i) (suc n) v
  unfolding rest nth_digit
  Written-more m m' buffer i n v pos w = record {
    digits = written_digit;
    outside = λ q h.
        w.outside q (ground arith)
        ∙ update_ne m (buffer + i) (digit_char (v % base)) q (ground arith);
    all = w.all;
    count = omega (arith, w.count, smaller v pos);
  }
    where
      m1 : Bytes
      m1 = update m (buffer + i) (digit_char (v % base))

      written_digit :
          (k q : ℕ) → k < suc n → q ≡ buffer + i + k → m' q ≡ digit_char (nth_digit base k v)
      written_digit zero q h e =
          w.outside q (inl (omega arith))
          ∙ ap m1 {y = buffer + i} (omega arith)
          ∙ update_self m (buffer + i) (digit_char (v % base))
      written_digit (suc k) q h e = w.digits k q (omega arith) (omega arith)

  digit_loop-Written :
      (fuel : ℕ) (m : Bytes) (v buffer i : ℕ)
      → v < fuel
      → v < 2 ^ 63
      → (n : ℕ) × (m' : Bytes) × (digit_loop fuel m v buffer base i ≡ ok (i + n, m'))
        × Written m m' (buffer + i) n v
  unfolding rest
  digit_loop-Written zero m v buffer i f small = absurd (omega arith)
  digit_loop-Written (suc fuel) m zero buffer i f small = (
    0,
    m,
    loop_end fuel m buffer i ∙ ap (λ (j : ℕ). ok (j, m)) {y = i + 0} (omega arith),
    record {
      digits = λ k q h e. absurd (omega arith);
      outside = λ q h. refl;
      all = refl;
      count = omega arith;
    },
  )
  digit_loop-Written (suc fuel) m (suc u) buffer i f small =
      let v = suc u in
      let less = smaller v (omega arith) in
      let m1 = update m (buffer + i) (digit_char (v % base)) in
      let (n, m', ran, w) =
        digit_loop-Written fuel m1 (v / base) buffer (i + 1) (omega (arith, less))
          (omega (arith, less)) in
      (
        suc n,
        m',
        loop_step fuel m v buffer i (omega arith) small
            ∙ ran
            ∙ ap (λ (j : ℕ). ok (j, m')) {y = i + suc n} (omega arith),
        Written-more m m' buffer i n v (omega arith) w,
      )

  -- Reading the reversed digits adds them to what the number is without them.
  read_back :
      (m m' : Bytes) (buffer n v : ℕ)
      → base ≤ 36
      → Written m m' buffer n v
      → (m2 : Bytes) → ((k j : ℕ) → k + j + 1 ≡ n → m2 (buffer + k) ≡ m' (buffer + j))
      → (left q : ℕ) → left ≤ n
      → q + left ≡ buffer + n
      → read_number m2 q left base (rest base left v) ≡ v
  unfolding read_number rest
  read_back m m' buffer n v b w m2 mirror zero q h e = refl
  read_back m m' buffer n v b w m2 mirror (suc left) q h e =
      ap (read_number m2 (q + 1) left base) {y = rest base left v} here
      ∙ read_back m m' buffer n v b w m2 mirror left (q + 1) (omega arith) (omega arith)
    where
      byte : m2 q ≡ digit_char (nth_digit base left v)
      byte =
          ap m2 {y = buffer + (n - left - 1)} (omega arith)
          ∙ mirror (n - left - 1) left (omega arith)
          ∙ w.digits left (buffer + left) (omega arith) refl

      here : rest base (suc left) v * base + digit_value (m2 q) ≡ rest base left v
      here =
          ap (λ (d : ℕ). rest base (suc left) v * base + d)
            (ap digit_value byte
              ∙ digit_lem (nth_digit base left v) (omega (arith, nth_small left v)))
          ∙ sym (rest_split left v)

  positive_step :
      (fuel : ℕ) (m : Bytes) (v buffer : ℕ)
      → 0 < v
      → v < 2 ^ 63
      → int_to_string fuel m v buffer base
        ≡ (digit_loop fuel m v buffer base 0 >>= λ r. finish fuel false buffer r)
  unfolding int_to_string
  positive_step fuel m v buffer pos small = ground arith

  finish_positive :
      (fuel : ℕ) (m1 : Bytes) (buffer n : ℕ)
      → finish fuel false buffer (n, m1)
        ≡ reverse fuel (update m1 (buffer + n) 0) buffer (buffer + n)
  unfolding finish
  finish_positive fuel m1 buffer n = refl

  -- intToString of a positive number, in a base from 2 to 36, with fuel above the number and a buffer
  -- that is not null, ends, and leaves the number's numeral in the base, followed by
  -- a 0, at the start of the buffer: reading the text back gives the number.
  pub int_to_string-read_number :
      (fuel : ℕ) (m : Bytes) (v buffer : ℕ)
      → base ≤ 36
      → 0 < v
      → v < 2 ^ 63
      → v < fuel
      → 0 < buffer
      → (n : ℕ) × (m' : Bytes) × (int_to_string fuel m v buffer base ≡ ok m')
        × (read_number m' buffer n base 0 ≡ v)
        × (m' (buffer + n) ≡ 0)
  int_to_string-read_number fuel m v buffer b pos small f z =
      let (n, m1, ran, w) = digit_loop-Written fuel m v buffer 0 f small in
      let len : 0 + n ≡ n = omega arith in
      let w' = subst (λ (a : ℕ). Written m m1 a n v) {y = buffer} (omega arith) w in
      let (m2, turned, mirror, beyond) =
        reverse-Mirrored fuel (update m1 (buffer + n) 0) buffer n (omega (arith, w.count)) z in
      (
        n,
        m2,
        positive_step fuel m v buffer pos small
            ∙ ap (λ r. r >>= λ x. finish fuel false buffer x) ran
            ∙ ap (λ (k : ℕ). finish fuel false buffer (k, m1)) len
            ∙ finish_positive fuel m1 buffer n
            ∙ turned,
        ap (read_number m2 buffer n base) (sym w.all)
            ∙ read_back m m1 buffer n v b w' m2
                (λ k j e. mirror k j e ∙ update_ne m1 (buffer + n) 0 (buffer + j) (omega arith)) n
                buffer (omega arith) (omega arith),
        beyond (buffer + n) (inr (omega arith)) ∙ update_self m1 (buffer + n) 0,
      )
