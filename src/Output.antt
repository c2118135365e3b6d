-- ===== src/Output.antt =====
-- src/BasicOutput/Output.cpp: numbers and format strings as the characters that they print, and
-- the ring buffer that keeps the last characters. Characters are their byte values.
pub mod Dec
pub mod Hex
pub mod Ring
pub mod Format
pub mod Vga
pub mod Dump
mod Tests
use crack_os.Base.{
  ℕ, zero, suc, ◌+◌, ◌-◌, ◌*◌, ◌/◌, ◌%◌, ◌^◌, Bool, true, false, List, [], ◌∷◌, ◌++◌,
}
use crack_os.Base.{ltb, leb, ◌==◌, if◌then◌else◌, mul64, ◌&&◌}

-- The first loop of printDec(uint64_t): the power of ten of the leading digit. A uint64_t has at
-- most 20 digits, so the loop makes at most 19 rounds.
pub leading : ℕ → ℕ → ℕ → ℕ
leading zero dec div = div
leading (suc fuel) dec div =
    let more = leading fuel dec (mul64 div 10) in if leb 10 (dec / div) then more else div

-- The second loop of printDec(uint64_t), in which `div` falls to 0 within 20 rounds.
pub dec_digits : ℕ → ℕ → ℕ → List ℕ
dec_digits zero dec div = []
dec_digits (suc fuel) dec div =
    let more = (dec / div % 10 + b'0') ∷ dec_digits fuel dec (div / 10) in
    if ltb 0 div then more else []

-- Output::printDec(uint64_t)
pub print_dec : ℕ → List ℕ
print_dec dec = dec_digits 20 dec (leading 20 dec 1)

-- An int64_t by its bit pattern.
abbrev pub is_negative : ℕ → Bool
is_negative v = leb (2 ^ 63) v

-- Output::printDec(int64_t, bool)
pub print_int : ℕ → Bool → List ℕ
print_int v plus =
    if is_negative v
    then b'-' ∷ print_dec ((2 ^ 64 - v) % 2 ^ 64)
    else if plus
    then b'+' ∷ print_dec v
    else print_dec v

abbrev pub hex_char : ℕ → ℕ
hex_char digit = if ltb digit 10 then digit + b'0' else digit - 10 + b'A'

-- The loop of print(uint64_t, uint8_t, uint64_t), with `left` of its 16 rounds to come.
pub hex_loop : ℕ → ℕ → ℕ → List ℕ
hex_loop zero hex min_size = []
hex_loop (suc left) hex min_size =
    let i = 15 - left in
    let digit = hex / 2 ^ 60 % 16 in
    let min_size' = if digit == 0 then min_size else i in
    let rest = hex_loop left (hex * 16 % 2 ^ 64) min_size' in
    if leb min_size' i then hex_char digit ∷ rest else rest

-- Output::print(uint64_t, uint8_t, uint64_t)
pub print_hex : ℕ → ℕ → ℕ → List ℕ
print_hex hex min_size max_size =
    let hex' = if ltb max_size 16 then hex % 2 ^ (max_size * 4) else hex in
    let min_size' = if ltb max_size 16 && ltb max_size min_size then max_size else min_size in
    hex_loop 16 hex' ((16 + 256 - min_size') % 256)
