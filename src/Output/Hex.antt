-- ===== src/Output/Hex.antt =====
-- print(uint64_t, uint8_t, uint64_t) of src/BasicOutput/Output.cpp at the value 0.
use crack_os.Base.{ℕ, zero, suc, ◌+◌, ◌-◌, ◌%◌, ◌≤◌, ◌<◌, ◌≡◌, refl, arith, ap, List, [], ◌∷◌, ◌∙◌}
use Prim.Native.Nat.add
use crack_os.Output.{hex_loop, print_hex}

abbrev pub zeros : ℕ → List ℕ
zeros zero = []
zeros (suc n) = b'0' ∷ zeros n

loop_wide : (left m : ℕ) → 15 < m → hex_loop left 0 m ≡ []
unfolding hex_loop
loop_wide zero m h = refl
loop_wide (suc left) m h = ground (arith, loop_wide left m h)

loop_digit : (left m : ℕ) → m ≤ 15 - left → hex_loop (suc left) 0 m ≡ b'0' ∷ hex_loop left 0 m
unfolding hex_loop
loop_digit left m h = ground arith

loop_skip : (left m : ℕ) → 15 - left < m → hex_loop (suc left) 0 m ≡ hex_loop left 0 m
unfolding hex_loop
loop_skip left m h = ground arith

-- Once it prints, the loop prints a digit in each round.
loop_zeros : (left m : ℕ) → left ≤ 16 → m + left ≤ 16 → hex_loop left 0 m ≡ zeros left
loop_zeros zero m le h = unfold hex_loop in refl
loop_zeros (suc left) m le h =
    loop_digit left m (omega arith)
    ∙ ap (λ x. b'0' ∷ x) (loop_zeros left m (omega arith) (omega arith))

loop_lem : (extra m w : ℕ) → m + w ≡ 16 → extra + w ≤ 16 → hex_loop (extra + w) 0 m ≡ zeros w
loop_lem zero m w e h = rw add.zero (loop_zeros w m (omega arith) (omega arith))
loop_lem (suc extra) m w e h =
    rw add.suc (loop_skip (extra + w) m (omega arith) ∙ loop_lem extra m w e (omega arith))

-- A 64-bit value 0 is printed as its minimal number of digits, if that is 16 at most, and as
-- nothing at all for each minimal number from 17 on: `16 - minSize` wraps round in a uint8_t.
pub print_hex-zero :
    (w : ℕ) → w < 256 → ((w ≤ 16) → print_hex 0 w 16 ≡ zeros w) × ((16 < w) → print_hex 0 w 16 ≡ [])
unfolding print_hex
print_hex-zero w small = (narrow, λ lt. loop_wide 16 _ (omega arith))
  where
    narrow : w ≤ 16 → print_hex 0 w 16 ≡ zeros w
    narrow le =
        let wraps : (272 - w) % 256 ≡ 16 - w = omega arith in
        let rounds : 16 ≡ 16 - w + w = omega arith in
        rw wraps (
          ap (λ (n : ℕ). hex_loop n 0 (16 - w)) rounds
          ∙ loop_lem (16 - w) (16 - w) w (omega arith) (omega arith))
