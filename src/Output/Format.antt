-- ===== src/Output/Format.antt =====
-- printFormat, printValueImpl and printf of src/BasicOutput/Output.cpp and
-- header/BasicOutput/Output.hpp. A format string is its characters, without the final '\0'; each
-- loop ends at the end of the list. What they print is a list of characters.
pub mod Width
use crack_os.Base.{
  ℕ, zero, suc, ◌+◌, ◌-◌, ◌*◌, ◌/◌, ◌%◌, ◌^◌, ◌≤◌, ◌<◌, ◌≡◌, ◌≢◌, refl, arith, ap, List, [], ◌∷◌,
  ◌++◌, ◌∙◌,
}
use crack_os.Base.{Bool, true, false, ◌&&◌, ◌||◌, ltb, leb, ◌==◌, if◌then◌else◌}
use crack_os.Output.{print_dec, print_int, print_hex}

-- The out parameters of printFormat.
pub record Spec : Type 0 where
  pub specifier : ℕ
  pub length : ℕ
  pub flags : ℕ
  pub width : ℕ

abbrev pub no_spec : Spec
no_spec = record { specifier = 0; length = 0; flags = 0; width = 0 }

-- The first loop: the characters before the first '%', and what stands behind it.
pub literal : List ℕ → List ℕ × List ℕ
literal [] = ([], [])
literal (c ∷ cs) = elim (c == b'%') [
  | true ↦ ([], cs)
  | false ↦ let (text, rest) = literal cs in (c ∷ text, rest)
]

abbrev is_digit : ℕ → Bool
is_digit c = leb b'0' c && leb c b'9'

abbrev pub is_specifier : ℕ → Bool
is_specifier c =
    c == b'%' || c == b'd' || c == b'i' || c == b'u' || c == b'x' || c == b's' || c == b'c'

-- One round of the second loop, for a character that does not end it. `wide` says that the inner
-- loop over the digits of a width runs.
pub next_spec : Spec → Bool → ℕ → Spec × Bool
next_spec s wide c =
    if wide && is_digit c
    then (record s { width = (s.width * 10 + c - b'0') % 256 }, true)
    else if c == b'h'
    then (record s { length = if s.length == b'h' then b'H' else b'h' }, false)
    else if c == b'l'
    then (record s { length = b'l' }, false)
    else if c == b'+'
    then (record s { flags = b'+' }, false)
    else if c == b'0'
    then (record s { flags = b'0' }, false)
    else if c == b' '
    then (record s { flags = b' ' }, false)
    else if is_digit c
    then (record s { width = c - b'0' }, true)
    else (s, false)

-- The second loop.
pub parse_spec : Spec → Bool → List ℕ → Spec × List ℕ
unfolding next_spec
parse_spec s wide [] = (s, [])
parse_spec s wide (c ∷ cs) =
    let (s', wide') = next_spec s wide c in
    let rest = parse_spec s' wide' cs in
    if is_specifier c
    then (record s { specifier = c }, cs)
    else if c == b'p'
    then (record s { length = b'l'; specifier = b'x' }, cs)
    else rest

-- Output::printFormat: the text that it prints, the specification, and the rest of the format.
pub print_format : List ℕ → List ℕ × Spec × List ℕ
print_format format =
    let (text, behind) = literal format in
    let (spec, rest) = parse_spec no_spec false behind in (text, spec, rest)

-- A two's complement number of `w` bits as an int64_t.
pub extend : ℕ → ℕ → ℕ
extend w v = let low = v % 2 ^ w in if leb (2 ^ (w - 1)) low then low + (2 ^ 64 - 2 ^ w) else low

-- `char_at p` is the C string at the address `p`.
module _ (string_at : ℕ → List ℕ) where
  -- Output::printValueImpl
  pub print_value : ℕ → Spec → List ℕ
  print_value v s =
      let width = if s.width == 0 then 1 else s.width in
      let plus = s.flags == b'+' in
      let short = s.length == b'h' in
      let byte = s.length == b'H' in
      let long = s.length == b'l' in
      if s.specifier == b'%'
      then b'%' ∷ []
      else if s.specifier == b's'
      then string_at v
      else if s.specifier == b'c'
      then v % 256 ∷ []
      else if s.specifier == b'd' || s.specifier == b'i'
      then print_int (extend (if short then 16 else if byte then 8 else if long then 64 else 32) v)
          plus
      else if s.specifier == b'u'
      then print_dec (v % 2 ^ (if short then 16 else if byte then 8 else if long then 64 else 32))
      else if s.specifier == b'x'
      then (if short
          then print_hex (v % 2 ^ 16) width 4
          else if byte
          then print_hex (v % 2 ^ 8) width 2
          else if long
          then print_hex (v % 2 ^ 64) width 16
          else print_hex (v % 2 ^ 32) width 8)
      else []

  -- Output::printf. Without a value left the rest of the format is printed as it stands.
  pub printf : List ℕ → List ℕ → List ℕ
  printf format [] = format
  printf format (v ∷ args) =
      let (text, s, rest) = print_format format in
      let value = if s.specifier == 0 then [] else print_value v s in
      let more = printf rest args in text ++ (value ++ elim rest [ [] ↦ [] | c ∷ cs ↦ more ])
