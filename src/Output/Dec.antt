-- ===== src/Output/Dec.antt =====
-- printDec of src/BasicOutput/Output.cpp: the decimal numeral of its argument.
use native.Mathlib.Nat.{
  pow-suc, one-le-pow, div-add-mod, div-mul-le_self, lt-div-mul-add, mod-eq_of_lt,
  div-div-eq-div-mul,
}
use crack_os.Base.{
  ℕ, zero, suc, ◌+◌, ◌-◌, ◌*◌, ◌/◌, ◌%◌, ◌^◌, ◌≤◌, ◌<◌, ◌≡◌, ◌≢◌, refl, sym, arith, ap, ◌⊎◌, inl,
  inr,
}
use crack_os.Base.{List, [], ◌∷◌, mul64, ◌∙◌}
use crack_os.Base.{Bool, Bool-cases, if◌then◌else◌, leb}
use crack_os.Output.{leading, dec_digits, print_dec, print_int}

-- The number that a text of decimal digits denotes, read behind the number `acc`.
unfoldable pub dec_value : ℕ → List ℕ → ℕ
dec_value acc [] = acc
dec_value acc (c ∷ cs) = dec_value (acc * 10 + (c - b'0')) cs

abbrev pub Digits : List ℕ → Type 0
Digits [] = Unit
Digits (c ∷ cs) = (b'0' ≤ c) × (c ≤ b'9') × Digits cs

split_digit : (n p : ℕ) → n % (p * 10) ≡ n / p % 10 * p + n % p
split_digit n p =
    let d : n / p ≡ n / p / 10 * 10 + n / p % 10 = omega arith in
    let whole : n ≡ p * 10 * (n / p / 10) + n % (p * 10) =
      sym (div-add-mod n (p * 10))
      ∙ ap (λ (t : ℕ). p * 10 * t + n % (p * 10)) (sym (div-div-eq-div-mul n p 10)) in
    omega (arith, whole, div-add-mod n p, ap (λ (t : ℕ). t * p) d)

-- A digit in front of the lower ones.
join_digit :
    (acc dec p q : ℕ)
    → q ≡ p * 10
    → (acc * 10 + (dec / p % 10 + 48 - 48)) * p + dec % p ≡ acc * q + dec % q
join_digit acc dec p q e =
    let s : dec / p % 10 + 48 - 48 ≡ dec / p % 10 = omega arith in
    rw (s, e) (omega (arith, split_digit dec p))

leading_step :
    (fuel dec div : ℕ)
    → 10 ≤ dec / div
    → leading (suc fuel) dec div ≡ leading fuel dec (mul64 div 10)
unfolding leading
leading_step fuel dec div h = ground arith

leading_end : (fuel dec div : ℕ) → dec / div < 10 → leading (suc fuel) dec div ≡ div
unfolding leading
leading_end fuel dec div h = ground arith

split_le : (a b : ℕ) → (a ≤ b) ⊎ (b < a)
split_le a b = grind arith

times_le : (a n p : ℕ) → a ≤ n / p → a * p ≤ n
times_le a n p h = grind (arith, div-mul-le_self n p)

-- Where the first loop stops: at the power of ten of the leading digit.
record IsLeading (dec div : ℕ) : Type 0 where
  power : ℕ
  is_power : div ≡ 10 ^ power
  short : power < 20
  above : dec / div < 10
  below : (div ≡ 1) ⊎ (div ≤ dec)

leading-IsLeading :
    (fuel k dec div : ℕ)
    → dec < 2 ^ 64
    → fuel + k ≡ 20
    → div ≡ 10 ^ k
    → (div ≡ 1) ⊎ (div ≤ dec)
    → IsLeading dec (leading fuel dec div)
leading-IsLeading zero k dec div small f e le =
    let big : div ≡ 10 ^ 20 = e ∙ ap (λ (t : ℕ). 10 ^ t) (let t : k ≡ 20 = omega arith in t) in
    absurd (omega arith)
leading-IsLeading (suc fuel) k dec div small f e le = elim (split_le 10 (dec / div)) [
  | inl more ↦ rw (leading_step fuel dec div more) (
      leading-IsLeading fuel (suc k) dec (mul64 div 10) small (omega arith)
        (omega (arith, times_le 10 dec div more, pow-suc 10 k))
        (inr (omega (arith, times_le 10 dec div more))))
  | inr less ↦
      rw (leading_end fuel dec div less)
        (record { power = k; is_power = e; short = omega arith; above = less; below = le })
]

digits_step :
    (fuel dec div : ℕ)
    → 0 < div
    → dec_digits (suc fuel) dec div ≡ (dec / div % 10 + b'0') ∷ dec_digits fuel dec (div / 10)
unfolding dec_digits
digits_step fuel dec div h = ground arith

digits_end : (fuel dec : ℕ) → dec_digits fuel dec 0 ≡ []
unfolding dec_digits
digits_end zero dec = refl
digits_end (suc fuel) dec = refl

ten_div : (n m : ℕ) → n ≡ m * 10 → n / 10 ≡ m
ten_div n m e = omega arith

-- The second loop writes the lowest `k + 1` digits.
digits_lem :
    (k fuel dec acc : ℕ)
    → k < fuel
    → (dec_value acc (dec_digits fuel dec (10 ^ k)) ≡ acc * 10 ^ suc k + dec % 10 ^ suc k)
      × Digits (dec_digits fuel dec (10 ^ k))
unfolding dec_value
digits_lem zero zero dec acc f = absurd (omega arith)
digits_lem zero (suc fuel) dec acc f =
    rw (digits_step fuel dec 1 (omega arith), digits_end fuel dec) (omega arith)
digits_lem (suc k) zero dec acc f = absurd (omega arith)
digits_lem (suc k) (suc fuel) dec acc f =
    let ih = digits_lem k fuel dec (acc * 10 + (dec / 10 ^ suc k % 10 + 48 - 48)) (omega arith) in
    rw
      (
        digits_step fuel dec (10 ^ suc k) (one-le-pow (suc k) 10 (omega arith)),
        ten_div (10 ^ suc k) (10 ^ k) (pow-suc 10 k),
      )
      (
        ih.0 ∙ join_digit acc dec (10 ^ suc k) (10 ^ suc (suc k)) (pow-suc 10 (suc k)),
        (omega arith, omega arith, ih.1),
      )

lt_times : (a n p : ℕ) → 0 < p → n / p < a → n < a * p
lt_times a n p pos h = grind (arith, lt-div-mul-add {a = n} {b = p} pos)

whole : (n p q : ℕ) → 0 < p → q ≡ p * 10 → n / p < 10 → 0 * q + n % q ≡ n
whole n p q pos e h =
    let lt : n < q = omega (arith, lt_times 10 n p pos h) in omega (arith, mod-eq_of_lt lt)

-- A text for `dec` starts with a digit other than 0, unless `dec` is 0.
abbrev pub StartsWell : ℕ → List ℕ → Type 0
StartsWell dec [] = ⊥
StartsWell dec (c ∷ cs) = (dec ≢ 0) → (c ≢ b'0')

digits-StartsWell :
    (fuel k dec : ℕ)
    → dec / 10 ^ k < 10
    → (10 ^ k ≡ 1) ⊎ (10 ^ k ≤ dec)
    → StartsWell dec (dec_digits (suc fuel) dec (10 ^ k))
digits-StartsWell fuel k dec lt le =
    rw (digits_step fuel dec (10 ^ k) (one-le-pow k 10 (omega arith))) λ pos e.
      absurd (omega (arith, lt_times 1 dec (10 ^ k) (one-le-pow k 10 (omega arith)) (omega arith)))

-- printDec of a uint64_t prints decimal digits only, which denote the number, with no leading zero
-- unless the number is 0.
pub print_dec_lem :
    (dec : ℕ)
    → dec < 2 ^ 64
    → (dec_value 0 (print_dec dec) ≡ dec) × Digits (print_dec dec) × StartsWell dec (print_dec dec)
unfolding print_dec
print_dec_lem dec small =
    let l = leading-IsLeading 20 0 dec 1 small refl refl (inl refl) in
    let k = l.power in
    let lem = digits_lem k 20 dec 0 l.short in
    rw l.is_power (
      lem.0
          ∙ whole dec (10 ^ k) (10 ^ suc k) (one-le-pow k 10 (omega arith)) (pow-suc 10 k)
              (rw (← l.is_power) l.above),
      lem.1,
      digits-StartsWell 19 k dec (rw (← l.is_power) l.above) (rw (← l.is_power) l.below),
    )

negative_lem :
    (v : ℕ) (plus : Bool) → 2 ^ 63 ≤ v → print_int v plus ≡ b'-' ∷ print_dec ((2 ^ 64 - v) % 2 ^ 64)
unfolding print_int
negative_lem v plus h = ground arith

positive_lem :
    (v : ℕ) (plus : Bool)
    → v < 2 ^ 63
    → print_int v plus ≡ (if plus then b'+' ∷ print_dec v else print_dec v)
unfolding print_int
positive_lem v plus h = ground arith

-- printDec of an int64_t, by its bit pattern `v`, prints the numeral of its absolute value, behind a
-- '-' for a negative number, and behind a '+' for another one exactly when that is asked for.
pub print_int_lem :
    (v : ℕ) (plus : Bool)
    → v < 2 ^ 64
    → (text : List ℕ) × Digits text
      × (2 ^ 63 ≤ v → (print_int v plus ≡ b'-' ∷ text) × (dec_value 0 text ≡ 2 ^ 64 - v))
      × (v < 2 ^ 63
          → (print_int v plus ≡ (if plus then b'+' ∷ text else text)) × (dec_value 0 text ≡ v))
print_int_lem v plus small = elim (Bool-cases (leb (2 ^ 63) v)) [
  | inl negative ↦
      let (value, digits, start) = print_dec_lem ((2 ^ 64 - v) % 2 ^ 64) (omega arith) in
      (
        print_dec ((2 ^ 64 - v) % 2 ^ 64),
        digits,
        λ h. (negative_lem v plus h, value ∙ omega arith),
        λ h. absurd (ground arith),
      )
  | inr other ↦
      let (value, digits, start) = print_dec_lem v small in
      (print_dec v, digits, λ h. absurd (ground arith), λ h. (positive_lem v plus h, value))
]
