-- ===== src/Memory/PageTable/Digits.antt =====
-- `|` on the fields of an address, as src/Memory/pageTable.cpp uses it.
use Prim.Native.Nat.{max, digits, bit_or, bit_or-bitwise}
use native.Mathlib.Nat.{pow-suc}
use crack_os.Base.{
  ℕ, zero, suc, ◌+◌, ◌*◌, ◌/◌, ◌%◌, ◌^◌, ◌≤◌, ◌<◌, ◌≡◌, refl, arith, ap, ap₂, sym, ◌∙◌,
}

abbrev join : ℕ → ℕ → ℕ → ℕ
join n a b = digits (λ y. y) max n a b

-- The count of digits to go does not matter when it is large enough.
join_count : (b a n : ℕ) → a ≤ n → (m : ℕ) → a ≤ m → join m a b ≡ join n a b
join_count b zero zero h zero k = refl
join_count b zero zero h (suc m) k = refl
join_count b zero (suc n) h zero k = refl
join_count b zero (suc n) h (suc m) k = refl
join_count b (suc a) zero h m k = absurd (omega arith)
join_count b (suc a) (suc n) h zero k = absurd (omega arith)
join_count b (suc a) (suc n) h (suc m) k =
    let half = join_count (b / 2) (suc a / 2) n (omega arith) m (omega arith) in
    ap (λ (t : ℕ). t * 2 + max (suc a % 2) (b % 2)) half

bit_or_digit : (a b : ℕ) → bit_or a b ≡ bit_or (a / 2) (b / 2) * 2 + max (a % 2) (b % 2)
bit_or_digit zero b = simp bit_or-bitwise (omega arith)
bit_or_digit (suc a) b = simp bit_or-bitwise (
    ap (λ (t : ℕ). t * 2 + max (suc a % 2) (b % 2))
      (join_count (b / 2) (suc a / 2) (suc a / 2) (omega arith) a (omega arith)))

pub bit_or-zero : (n a : ℕ) → a ≤ n → bit_or a 0 ≡ a
bit_or-zero zero zero h = refl
bit_or-zero zero (suc a) h = absurd (omega arith)
bit_or-zero (suc n) zero h = refl
bit_or-zero (suc n) (suc a) h =
    ground (arith, bit_or_digit (suc a) 0, bit_or-zero n (suc a / 2) (omega arith))

double : (h k : ℕ) → h * 2 ^ suc k ≡ 2 * (h * 2 ^ k)
double h k = omega (arith, ap (λ (t : ℕ). h * t) (pow-suc 2 k))

below_half : (k l : ℕ) → l < 2 ^ suc k → l / 2 < 2 ^ k
below_half k l h = omega (arith, pow-suc 2 k)

upper : (k h l : ℕ) → (h * 2 ^ suc k + l) / 2 ≡ h * 2 ^ k + l / 2
upper k h l = omega (arith, double h k)

lowest : (k h l : ℕ) → (h * 2 ^ suc k + l) % 2 ≡ l % 2
lowest k h l = omega (arith, double h k)

plus_zero : (n : ℕ) → n + 0 ≡ n
plus_zero n = omega arith

zero_times : (n l : ℕ) → 0 * n + l ≡ l
zero_times n l = omega arith

times_one : (h : ℕ) → h * 2 ^ 0 + 0 ≡ h
times_one h = omega arith

-- The digits below a power of 2 and those from it on are joined apart.
pub bit_or-split :
    (k h l h' l' : ℕ)
    → l < 2 ^ k
    → l' < 2 ^ k
    → bit_or (h * 2 ^ k + l) (h' * 2 ^ k + l') ≡ bit_or h h' * 2 ^ k + bit_or l l'
bit_or-split zero h zero h' zero lo lo' = ap₂ bit_or (times_one h) (times_one h') ∙ omega arith
bit_or-split zero h zero h' (suc l') lo lo' = absurd (omega arith)
bit_or-split zero h (suc l) h' l' lo lo' = absurd (omega arith)
bit_or-split (suc k) h l h' l' lo lo' =
    let rest = bit_or-split k h (l / 2) h' (l' / 2) (below_half k l lo) (below_half k l' lo') in
    bit_or_digit (h * 2 ^ suc k + l) (h' * 2 ^ suc k + l')
    ∙ rw (upper k h l, upper k h' l', lowest k h l, lowest k h' l', rest)
        (omega (arith, double (bit_or h h') k, bit_or_digit l l'))

zero_or : (l : ℕ) → bit_or 0 l ≡ l
zero_or l = simp bit_or-bitwise refl

-- A field below or between those of `h * 2 ^ k + l`.
pub bit_or_low : (k h l : ℕ) → l < 2 ^ k → bit_or (h * 2 ^ k) l ≡ h * 2 ^ k + l
bit_or_low k h l lo =
    ap₂ bit_or (sym (plus_zero (h * 2 ^ k))) (sym (zero_times (2 ^ k) l))
    ∙ bit_or-split k h 0 0 l (omega (arith, lo)) lo
    ∙ omega (arith, ap (λ (t : ℕ). t * 2 ^ k) (bit_or-zero h h (omega arith)), zero_or l)

pub bit_or_middle :
    (k h l m : ℕ) → l < 2 ^ k → bit_or (h * 2 ^ k + l) (m * 2 ^ k) ≡ bit_or h m * 2 ^ k + l
bit_or_middle k h l m lo =
    ap (bit_or (h * 2 ^ k + l)) (sym (plus_zero (m * 2 ^ k)))
    ∙ bit_or-split k h l m 0 lo (omega (arith, lo))
    ∙ omega (arith, bit_or-zero l l (omega arith))

-- The three fields below a 1 GiB page's number make up an address in that page.
pub bit_or_page :
    (i a b p : ℕ)
    → a < 2 ^ 9
    → b < 2 ^ 9
    → p < 2 ^ 12
    → bit_or (bit_or (bit_or (i * 2 ^ 18 * 2 ^ 12) p) (a * 2 ^ 21)) (b * 2 ^ 12)
      ≡ i * 2 ^ 30 + a * 2 ^ 21 + b * 2 ^ 12 + p
bit_or_page i a b p ha hb hp =
    ap (λ (t : ℕ). bit_or (bit_or t (a * 2 ^ 21)) (b * 2 ^ 12))
      (bit_or_low 12 (i * 2 ^ 18) p hp ∙ regroup)
    ∙ ap (λ (t : ℕ). bit_or t (b * 2 ^ 12))
        (bit_or_middle 21 (i * 2 ^ 9) p a (omega arith)
          ∙ ap (λ (t : ℕ). t * 2 ^ 21 + p) (bit_or_low 9 i a ha)
          ∙ regroup2)
    ∙ bit_or_middle 12 ((i * 2 ^ 9 + a) * 2 ^ 9) p b hp
    ∙ ap (λ (t : ℕ). t * 2 ^ 12 + p) (bit_or_low 9 (i * 2 ^ 9 + a) b hb)
    ∙ omega arith
  where
    regroup : i * 2 ^ 18 * 2 ^ 12 + p ≡ i * 2 ^ 9 * 2 ^ 21 + p
    regroup = omega arith

    regroup2 : (i * 2 ^ 9 + a) * 2 ^ 21 + p ≡ (i * 2 ^ 9 + a) * 2 ^ 9 * 2 ^ 12 + p
    regroup2 = omega arith
