-- ===== src/Language/Digits.antt =====
-- intToString and reverse of src/LanguageFeatures/string.cpp, on memory as a function from addresses
-- to bytes. An int64_t is its bit pattern; the base is positive.
pub mod Reverse
pub mod Text
mod Tests
use crack_os.Base.{ℕ, zero, suc, ◌+◌, ◌-◌, ◌/◌, ◌%◌, ◌^◌, Bool, true, false, ◌&&◌}
use crack_os.Base.{ltb, leb, ◌==◌, if◌then◌else◌, update, Run, ok, out_of_fuel, ◌>>=◌}
use crack_os.Language.Bytes.{Bytes}

-- The loop of reverse.
pub reverse_loop : ℕ → Bytes → ℕ → ℕ → Run Bytes
reverse_loop zero m start last = out_of_fuel
reverse_loop (suc fuel) m start last = elim (ltb start last) [
  | false ↦ ok m
  | true ↦
      reverse_loop fuel (update (update m start (m last)) last (m start)) (start + 1) (last - 1)
]

-- `end - 1` is an address, and `end` is not 0.
pub reverse : ℕ → Bytes → ℕ → ℕ → Run Bytes
reverse fuel m buffer end = reverse_loop fuel m buffer (end - 1)

abbrev pub digit_char : ℕ → ℕ
digit_char digit = if ltb digit 10 then b'0' + digit else b'a' + digit - 10

abbrev is_positive : ℕ → Bool
is_positive value = ltb 0 value && ltb value (2 ^ 63)

-- The loop of intToString: the position behind the digits, and the memory with them.
pub digit_loop : ℕ → Bytes → ℕ → ℕ → ℕ → ℕ → Run (ℕ × Bytes)
digit_loop zero m value buffer base i = out_of_fuel
digit_loop (suc fuel) m value buffer base i = elim (is_positive value) [
  | false ↦ ok (i, m)
  | true ↦
      digit_loop fuel (update m (buffer + i) (digit_char (value % base))) (value / base) buffer base
        (i + 1)
]

-- What intToString does behind its loop.
pub finish : ℕ → Bool → ℕ → ℕ × Bytes → Run Bytes
finish fuel negative buffer (i, m) =
    let signed = if negative then update m (buffer + i) b'-' else m in
    let i' = if negative then i + 1 else i in
    reverse fuel (update signed (buffer + i') 0) buffer (buffer + i')

pub int_to_string : ℕ → Bytes → ℕ → ℕ → ℕ → Run Bytes
int_to_string fuel m value buffer base =
    let negative = leb (2 ^ 63) value in
    let magnitude = if negative then (2 ^ 64 - value) % 2 ^ 64 else value in
    elim (value == 0) [
      | true ↦ ok (update (update m buffer b'0') (buffer + 1) 0)
      | false ↦ digit_loop fuel m magnitude buffer base 0 >>= λ r. finish fuel negative buffer r
    ]
