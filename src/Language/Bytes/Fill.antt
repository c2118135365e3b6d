-- ===== src/Language/Bytes/Fill.antt =====
-- memset of src/LanguageFeatures/memory.cpp.
use crack_os.Base.{
  ℕ, zero, suc, ◌+◌, ◌-◌, ◌*◌, ◌/◌, ◌%◌, ◌^◌, ◌<◌, ◌≤◌, ◌≡◌, ◌⊎◌, inl, inr, refl, arith, ap, ◌∙◌,
  Bool, true, false, ◌&&◌,
}
use crack_os.Base.{update, update_self, update_ne, ltb, leb, ◌==◌, if◌then◌else◌, ok, Bool-cases}
use crack_os.Language.Bytes.{Bytes, fill_value, store64, align_loop, wide_loop, rest_loop, memset}

-- The byte of memset's `val` at the position `j`: the upper four are all ones for a value whose
-- highest bit is set.
abbrev pub byte_of : ℕ → ℕ → ℕ
byte_of v j = if leb 128 v && leb 4 j then 255 else v

all : (ℕ → Bool) → ℕ → Bool
all f zero = true
all f (suc n) = f n && all f n

both : (a b : Bool) → (a && b) ≡ true → (a ≡ true) × (b ≡ true)
both true true h = (refl, refl)
both true false h = ground arith
both false b h = ground arith

all_lem : (f : ℕ → Bool) (n k : ℕ) → all f n ≡ true → k < n → f k ≡ true
unfolding all
all_lem f zero k h small = absurd (omega arith)
all_lem f (suc n) k h small = elim (Bool-cases (k == n)) [
  | inl same ↦ (let k_is : k ≡ n = ground arith in rw k_is (both (f n) (all f n) h).0)
  | inr other ↦ all_lem f n k (both (f n) (all f n) h).1 (ground arith)
]

abbrev is_byte_of : ℕ → ℕ → Bool
is_byte_of v j = fill_value v / 2 ^ (8 * j) % 2 ^ 8 == byte_of v j

all_bytes : all (λ v. all (is_byte_of v) 8) 256 ≡ true
unfolding all
all_bytes = refl

fill_value_lem : (v j : ℕ) → v < 256 → j < 8 → fill_value v / 2 ^ (8 * j) % 2 ^ 8 ≡ byte_of v j
fill_value_lem v j small inside =
    let is =
      all_lem (is_byte_of v) 8 j (all_lem (λ v. all (is_byte_of v) 8) 256 v all_bytes small)
        inside in
    ground arith

-- A store of memset's `val` changes the eight bytes from its address on.
store_inside :
    (m : Bytes) (p v q j : ℕ)
    → v < 256
    → j < 8
    → q ≡ p + j
    → store64 m p (fill_value v) q ≡ byte_of v j
unfolding store64
store_inside m p v q j small h e =
    let lo : leb p q ≡ true = ground arith in
    let hi : ltb q (p + 8) ≡ true = ground arith in
    let diff : q - p ≡ j = omega arith in rw (lo, hi, diff) (fill_value_lem v j small h)

store_outside : (m : Bytes) (p val q : ℕ) → ((q < p) ⊎ (p + 8 ≤ q)) → store64 m p val q ≡ m q
unfolding store64
store_outside m p val q h = ground arith

wide_end :
    (fuel : ℕ) (m : Bytes) (p val num i : ℕ)
    → num + 8 ≤ 2 ^ 64
    → i ≤ num
    → num < i + 8
    → wide_loop (suc fuel) m p val num i ≡ ok (i, m)
unfolding wide_loop
wide_end fuel m p val num i small le lt = ground arith

wide_step :
    (fuel : ℕ) (m : Bytes) (p val num i : ℕ)
    → num + 8 ≤ 2 ^ 64
    → i + 8 ≤ num
    → wide_loop (suc fuel) m p val num i ≡ wide_loop fuel (store64 m (p + i) val) p val num (i + 8)
unfolding wide_loop
wide_step fuel m p val num i small le = ground arith

-- What the memory holds after bytes of a kind were written to the addresses from `p + from` to
-- `p + to`.
pub record Filled (m m' : Bytes) (p from to : ℕ) (byte : ℕ → ℕ) : Type 0 where
  pub inside : (k q : ℕ) → from ≤ k → k < to → q ≡ p + k → m' q ≡ byte k
  pub outside : (q : ℕ) → ((q < p + from) ⊎ (p + to ≤ q)) → m' q ≡ m q

wide_lem :
    (rounds fuel : ℕ) (m : Bytes) (p v num j : ℕ)
    → v < 256
    → num + 8 ≤ 2 ^ 64
    → j + rounds ≡ num / 8
    → rounds < fuel
    → (m' : Bytes) × (wide_loop fuel m p (fill_value v) num (j * 8) ≡ ok (num / 8 * 8, m'))
      × Filled m m' p (j * 8) (num / 8 * 8) (λ k. byte_of v (k % 8))
wide_lem rounds zero m p v num j small w c f = absurd (omega arith)
wide_lem zero (suc fuel) m p v num j small w c f = (
  m,
  wide_end fuel m p (fill_value v) num (j * 8) w (omega arith) (omega arith)
      ∙ ap (λ (i : ℕ). ok (i, m)) {y = num / 8 * 8} (omega arith),
  record { inside = λ k q lo hi e. absurd (omega arith); outside = λ q h. refl },
)
wide_lem (suc rounds) (suc fuel) m p v num j small w c f =
    let m1 = store64 m (p + j * 8) (fill_value v) in
    let (m', ran, filled) =
      wide_lem rounds fuel m1 p v num (j + 1) small w (omega arith) (omega arith) in
    (
      m',
      wide_step fuel m p (fill_value v) num (j * 8) w (omega arith)
          ∙ ap (wide_loop fuel m1 p (fill_value v) num) {y = (j + 1) * 8} (omega arith)
          ∙ ran,
      record {
        inside = λ k q lo hi e. elim (Bool-cases (ltb k (j * 8 + 8))) [
          | inl here ↦
              filled.outside q (inl (ground arith))
              ∙ store_inside m (p + j * 8) v q (k % 8) small (omega arith) (ground arith)
          | inr above ↦ filled.inside k q (ground arith) hi e
        ];
        outside = λ q h.
            filled.outside q (ground arith)
            ∙ store_outside m (p + j * 8) (fill_value v) q (ground arith);
      },
    )

rest_end : (fuel : ℕ) (m : Bytes) (p v num : ℕ) → rest_loop (suc fuel) m p v num num ≡ ok m
unfolding rest_loop
rest_end fuel m p v num = ground arith

rest_step :
    (fuel : ℕ) (m : Bytes) (p v num i : ℕ)
    → i < num
    → rest_loop (suc fuel) m p v num i ≡ rest_loop fuel (update m (p + i) v) p v num (i + 1)
unfolding rest_loop
rest_step fuel m p v num i lt = ground arith

rest_lem :
    (rounds fuel : ℕ) (m : Bytes) (p v num i : ℕ)
    → i + rounds ≡ num
    → rounds < fuel
    → (m' : Bytes) × (rest_loop fuel m p v num i ≡ ok m') × Filled m m' p i num (λ k. v)
rest_lem rounds zero m p v num i c f = absurd (omega arith)
rest_lem zero (suc fuel) m p v num i c f = (
  m,
  ap (rest_loop (suc fuel) m p v num) {y = num} (omega arith) ∙ rest_end fuel m p v num,
  record { inside = λ k q lo hi e. absurd (omega arith); outside = λ q h. refl },
)
rest_lem (suc rounds) (suc fuel) m p v num i c f =
    let m1 = update m (p + i) v in
    let (m', ran, filled) = rest_lem rounds fuel m1 p v num (i + 1) (omega arith) (omega arith) in
    (
      m',
      rest_step fuel m p v num i (omega arith) ∙ ran,
      record {
        inside = λ k q lo hi e. elim (Bool-cases (k == i)) [
          | inl here ↦
              filled.outside q (inl (ground arith))
              ∙ ap m1 {y = p + i} (ground arith)
              ∙ update_self m (p + i) v
          | inr above ↦ filled.inside k q (ground arith) hi e
        ];
        outside = λ q h. filled.outside q (ground arith) ∙ update_ne m (p + i) v q (ground arith);
      },
    )

-- The byte that memset leaves at the position `k` of `num`.
abbrev pub set_byte : ℕ → ℕ → ℕ → ℕ
set_byte v num k = if ltb k (num / 8 * 8) then byte_of v (k % 8) else v

no_align : (fuel : ℕ) (m : Bytes) (p v num : ℕ) → align_loop (suc fuel) m p v num 0 ≡ ok (0, m)
unfolding align_loop
no_align fuel m p v num = ground arith

memset_runs :
    (fuel : ℕ) (m m1 m2 : Bytes) (p v num i : ℕ)
    → v < 256
    → wide_loop (suc fuel) m p (fill_value v) num 0 ≡ ok (i, m1)
    → rest_loop (suc fuel) m1 p v num i ≡ ok m2
    → memset (suc fuel) m p v num ≡ ok m2
unfolding memset
memset_runs fuel m m1 m2 p v num i small wide rest =
    let byte : v % 2 ^ 8 ≡ v = omega arith in rw (byte, no_align fuel m p v num, wide) rest

-- The bytes after both loops.
Filled-twice :
    (m m1 m2 : Bytes) (p v num : ℕ)
    → Filled m m1 p (0 * 8) (num / 8 * 8) (λ k. byte_of v (k % 8))
    → Filled m1 m2 p (num / 8 * 8) num (λ k. v)
    → Filled m m2 p 0 num (set_byte v num)
Filled-twice m m1 m2 p v num low high = record {
  inside = λ k q lo hi e. elim (Bool-cases (ltb k (num / 8 * 8))) [
    | inl wide ↦
        high.outside q (inl (ground arith))
        ∙ low.inside k q (omega arith) (ground arith) e
        ∙ ground arith
    | inr rest ↦ high.inside k q (ground arith) hi e ∙ ground arith
  ];
  outside = λ q h. high.outside q (ground arith) ∙ low.outside q (ground arith);
}

-- memset of a byte, with fuel above the number of bytes, ends, changes nothing outside of its range, and fills the range with its value, except
-- that of every eight bytes that it stores together the upper four become 0xFF when the value's
-- highest bit is set.
pub memset_lem :
    (fuel : ℕ) (m : Bytes) (p v num : ℕ)
    → v < 256
    → num + 8 ≤ 2 ^ 64
    → num < fuel
    → (m' : Bytes) × (memset fuel m p v num ≡ ok m')
      × ((k : ℕ) → k < num → m' (p + k) ≡ set_byte v num k)
      × ((q : ℕ) → ((q < p) ⊎ (p + num ≤ q)) → m' q ≡ m q)
memset_lem zero m p v num small w f = absurd (omega arith)
memset_lem (suc fuel) m p v num small w f =
    let (m1, wide, low) =
      wide_lem (num / 8) (suc fuel) m p v num 0 small w (omega arith) (omega arith) in
    let (m2, rest, high) =
      rest_lem (num % 8) (suc fuel) m1 p v num (num / 8 * 8) (omega arith) (omega arith) in
    let both = Filled-twice m m1 m2 p v num low high in
    (
      m2,
      memset_runs fuel m m1 m2 p v num (num / 8 * 8) small wide rest,
      λ k h. both.inside k (p + k) (omega arith) h refl,
      λ q h. both.outside q (ground arith),
    )
