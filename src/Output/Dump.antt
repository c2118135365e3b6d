-- ===== src/Output/Dump.antt =====
-- print(char), print(const char*), print(BitList) and printHexDump of src/BasicOutput/Output.cpp and
-- header/BasicOutput/Output.hpp.
use crack_os.Base.{
  ℕ, zero, suc, ◌+◌, ◌*◌, ◌/◌, ◌%◌, ◌^◌, Bool, true, false, not, List, [], ◌∷◌, ◌++◌,
}
use crack_os.Base.{leb, ◌==◌, if◌then◌else◌}
use crack_os.Output.{print_dec, print_hex}
use crack_os.Output.Ring.{Buffer, add_to_buffer}

-- Output::print(char): the buffer, and the characters that reached printImpl.
pub print_char : Buffer × List ℕ → ℕ → Buffer × List ℕ
print_char (b, shown) c = (add_to_buffer b c, shown ++ c ∷ [])

-- Output::print(const char*)
pub print_text : Buffer × List ℕ → List ℕ → Buffer × List ℕ
print_text out [] = out
print_text out (c ∷ cs) = print_text (print_char out c) cs

-- A BitList of `bit_count` bits, which its constructor takes from a value of that size.
pub record BitList : Type 0 where
  pub value : ℕ
  pub bit_count : ℕ

pub to_bit_list : ℕ → ℕ → BitList
to_bit_list size t =
    let width =
      if leb size 1 then 8 else if leb size 2 then 16 else if leb size 4 then 32 else 64 in
    record { value = t % 2 ^ width; bit_count = size * 8 }

-- `bits.value & 1 << i`: the 1 is an int, which the processor shifts by `i % 32`, and whose sign
-- fills the upper bits.
pub has_bit : ℕ → ℕ → Bool
has_bit value i = if i % 32 == 31 then not (value / 2 ^ 31 == 0) else value / 2 ^ (i % 32) % 2 == 1

-- The loop of print(BitList) from `i` on.
pub bits_loop : ℕ → ℕ → ℕ → Bool → List ℕ
bits_loop zero value i first = []
bits_loop (suc left) value i first =
    let set =
      (if first then [] else b',' ∷ []) ++ (print_dec i ++ bits_loop left value (i + 1) false) in
    let unset = bits_loop left value (i + 1) first in if has_bit value i then set else unset

pub print_bits : BitList → List ℕ
print_bits bits = b'[' ∷ (bits_loop bits.bit_count bits.value 0 true ++ b']' ∷ [])

-- Output::printHexDump from the byte `i` on. printHex reads the eight bytes from that one on, and
-- prints the lowest.
pub print_hex_dump : List ℕ → ℕ → List ℕ
print_hex_dump [] i = []
print_hex_dump (byte ∷ bytes) i =
    let more = print_hex_dump bytes (i + 1) in
    print_hex byte 2 2 ++ b' ' ∷ (if i % 16 == 15 then b'\n' ∷ more else more)
