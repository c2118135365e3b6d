-- ===== src/Language/Bytes.antt =====
-- The functions on memory of src/LanguageFeatures/memory.cpp. Memory is a function from addresses
-- to bytes; the addresses of a call do not wrap round.
pub mod Copy
pub mod Fill
pub mod Compare
pub mod Text
mod Tests
use Prim.Native.Nat.{bit_or}
use crack_os.Base.{ℕ, zero, suc, ◌+◌, ◌-◌, ◌*◌, ◌/◌, ◌%◌, ◌^◌, Bool, true, false, List, [], ◌∷◌}
use crack_os.Base.{ltb, leb, ◌==◌, if◌then◌else◌, update, Run, ok, out_of_fuel, ◌>>=◌}

abbrev pub Bytes : Type 0
Bytes = ℕ → ℕ

-- The loop of memcpy from `i` on, with `left` rounds to come.
pub copy_loop : ℕ → Bytes → ℕ → ℕ → ℕ → Bytes
copy_loop zero m destination source i = m
copy_loop (suc left) m destination source i =
    copy_loop left (update m (destination + i) (m (source + i))) destination source (i + 1)

pub memcpy : Bytes → ℕ → ℕ → ℕ → Bytes
memcpy m destination source num = copy_loop num m destination source 0

-- An int as a uint64_t: the sign fills the upper half.
abbrev pub sign_extend : ℕ → ℕ
sign_extend w = if leb (2 ^ 31) w then w + (2 ^ 64 - 2 ^ 32) else w

-- memset's `val`: `value | (value << 8) | (value << 16) | (value << 24)` is an int, which is made a
-- uint64_t before `val |= val << 32`.
abbrev pub fill_value : ℕ → ℕ
fill_value value =
    let low = bit_or (bit_or (bit_or value (value * 2 ^ 8)) (value * 2 ^ 16)) (value * 2 ^ 24) in
    let val = sign_extend low in bit_or val (val * 2 ^ 32 % 2 ^ 64)

-- `*reinterpret_cast<uint64_t*>(p) = val`
pub store64 : Bytes → ℕ → ℕ → Bytes
store64 m p val q =
    if leb p q then (if ltb q (p + 8) then val / 2 ^ (8 * (q - p)) % 2 ^ 8 else m q) else m q

-- The three loops of memset, which go on from the same `i`; `fuel` bounds their rounds.
pub align_loop : ℕ → Bytes → ℕ → ℕ → ℕ → ℕ → Run (ℕ × Bytes)
align_loop zero m p value num i = out_of_fuel
align_loop (suc fuel) m p value num i = elim (ltb i num) [
  | false ↦ ok (i, m)
  | true ↦ elim (i % 8 == 0) [
    | true ↦ ok (i, m)
    | false ↦ align_loop fuel (update m (p + i) value) p value num (i + 1)
  ]
]

pub wide_loop : ℕ → Bytes → ℕ → ℕ → ℕ → ℕ → Run (ℕ × Bytes)
wide_loop zero m p val num i = out_of_fuel
wide_loop (suc fuel) m p val num i = elim (ltb ((i + 7) % 2 ^ 64) num) [
  | false ↦ ok (i, m)
  | true ↦ wide_loop fuel (store64 m (p + i) val) p val num (i + 8)
]

pub rest_loop : ℕ → Bytes → ℕ → ℕ → ℕ → ℕ → Run Bytes
rest_loop zero m p value num i = out_of_fuel
rest_loop (suc fuel) m p value num i = elim (ltb i num) [
  | false ↦ ok m
  | true ↦ rest_loop fuel (update m (p + i) value) p value num (i + 1)
]

pub memset : ℕ → Bytes → ℕ → ℕ → ℕ → Run Bytes
memset fuel m p v num = do
  a ← align_loop fuel m p (v % 2 ^ 8) num 0
  w ← wide_loop fuel a.1 p (fill_value (v % 2 ^ 8)) num a.0
  rest_loop fuel w.1 p (v % 2 ^ 8) num w.0

-- The loop of memcmp; its int is a number of 32 bits.
pub compare_loop : ℕ → Bytes → ℕ → ℕ → ℕ → ℕ
compare_loop zero m p q i = 0
compare_loop (suc left) m p q i =
    let more = compare_loop left m p q (i + 1) in
    if m (p + i) == m (q + i) then more else (m (p + i) + 2 ^ 32 - m (q + i)) % 2 ^ 32

pub memcmp : Bytes → ℕ → ℕ → ℕ → ℕ
memcmp m p q num = compare_loop num m p q 0

pub strlen_loop : ℕ → Bytes → ℕ → ℕ → Run ℕ
strlen_loop zero m str i = out_of_fuel
strlen_loop (suc fuel) m str i = elim (m (str + i) == 0) [
  | true ↦ ok i
  | false ↦ strlen_loop fuel m str (i + 1)
]

pub strlen : ℕ → Bytes → ℕ → Run ℕ
strlen fuel m str = strlen_loop fuel m str 0

-- A char of this platform is signed.
abbrev pub char_of : ℕ → ℕ
char_of b = if ltb b 128 then b else b + (2 ^ 32 - 2 ^ 8)

pub strcmp_loop : ℕ → Bytes → ℕ → ℕ → ℕ → Run ℕ
strcmp_loop zero m p q i = out_of_fuel
strcmp_loop (suc fuel) m p q i = elim (m (p + i) == m (q + i)) [
  | false ↦ ok ((char_of (m (p + i)) + 2 ^ 32 - char_of (m (q + i))) % 2 ^ 32)
  | true ↦ elim (m (p + i) == 0) [ true ↦ ok 0 | false ↦ strcmp_loop fuel m p q (i + 1) ]
]

pub strcmp : ℕ → Bytes → ℕ → ℕ → Run ℕ
strcmp fuel m p q = strcmp_loop fuel m p q 0

-- The second loop of strncpy, and the first one, which ends at the end of the source.
pub pad_loop : ℕ → Bytes → ℕ → ℕ → Bytes
pad_loop zero m destination i = m
pad_loop (suc left) m destination i =
    pad_loop left (update m (destination + i) 0) destination (i + 1)

pub text_loop : ℕ → Bytes → ℕ → ℕ → ℕ → Bytes
text_loop zero m destination source i = m
text_loop (suc left) m destination source i =
    let c = m (source + i) in
    let m' = update m (destination + i) c in
    let more = text_loop left m' destination source (i + 1) in
    let padded = pad_loop (suc left) m' destination i in
    if m' (source + i) == 0 then padded else more

pub strncpy : Bytes → ℕ → ℕ → ℕ → Bytes
strncpy m destination source num = text_loop num m destination source 0
