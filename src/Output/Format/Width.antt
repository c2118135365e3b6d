-- ===== src/Output/Format/Width.antt =====
-- Format strings that printf of src/BasicOutput/Output.cpp prints as they mean.
use crack_os.Base.{ℕ, ◌+◌, ◌-◌, ◌*◌, ◌≤◌, ◌<◌, ◌≡◌, ◌≢◌, refl, arith, ap, List, [], ◌∷◌, ◌++◌, ◌∙◌}
use crack_os.Base.{Bool, true, false, ◌==◌, if◌then◌else◌}
use crack_os.Output.{print_dec}
use crack_os.Output.Dec.{dec_value, Digits, StartsWell, print_dec_lem}
use crack_os.Output.Format.{
  Spec, no_spec, literal, parse_spec, print_format, print_value, printf, is_specifier,
}

dec_value-ge : (acc : ℕ) (cs : List ℕ) → acc ≤ dec_value acc cs
unfolding dec_value
dec_value-ge acc [] = omega arith
dec_value-ge acc (c ∷ cs) = omega (arith, dec_value-ge (acc * 10 + (c - b'0')) cs)

module _ (s : Spec) (c : ℕ) (cs : List ℕ) where
  digit_more :
      b'0' ≤ c
      → c ≤ b'9'
      → s.width * 10 + (c - b'0') < 256
      → parse_spec s true (c ∷ cs)
        ≡ parse_spec (record s { width = s.width * 10 + (c - b'0') }) true cs
  unfolding parse_spec
  digit_more lo hi small = ground arith

  digit_first :
      b'0' < c
      → c ≤ b'9'
      → parse_spec s false (c ∷ cs) ≡ parse_spec (record s { width = 0 * 10 + (c - b'0') }) true cs
  unfolding parse_spec
  digit_first lo hi = ground arith

  spec_end :
      (wide : Bool)
      → is_specifier c ≡ true
      → parse_spec s wide (c ∷ cs) ≡ (record s { specifier = c }, cs)
  unfolding parse_spec
  spec_end wide h = ground arith

width_more :
    (s : Spec) (ds : List ℕ) (c : ℕ) (rest : List ℕ)
    → Digits ds
    → dec_value s.width ds < 256
    → is_specifier c ≡ true
    → parse_spec s true (ds ++ c ∷ rest)
      ≡ (record s { width = dec_value s.width ds; specifier = c }, rest)
unfolding dec_value
width_more s [] c rest h small e = spec_end s c rest true e
width_more s (d ∷ ds) c rest h small e =
    digit_more s d (ds ++ c ∷ rest) h.0 h.1
      (omega (arith, dec_value-ge (s.width * 10 + (d - b'0')) ds))
    ∙ width_more (record s { width = s.width * 10 + (d - b'0') }) ds c rest h.2 small e

width_first :
    (n : ℕ) (ds : List ℕ) (c : ℕ) (rest : List ℕ)
    → Digits ds
    → StartsWell n ds
    → n ≢ 0
    → dec_value 0 ds < 256
    → is_specifier c ≡ true
    → parse_spec no_spec false (ds ++ c ∷ rest)
      ≡ (record no_spec { width = dec_value 0 ds; specifier = c }, rest)
unfolding dec_value
width_first n [] c rest h start pos small e = absurd start
width_first n (d ∷ ds) c rest h start pos small e =
    digit_first no_spec d (ds ++ c ∷ rest) (let ne = start pos in omega arith) h.1
    ∙ width_more (record no_spec { width = 0 * 10 + (d - b'0') }) ds c rest h.2 small e

-- A width that printDec wrote is read back by printFormat: behind it the conversion character ends
-- the specification, whose width is the number, for every number from 1 to 255.
pub parse_spec-print_dec :
    (n c : ℕ) (rest : List ℕ)
    → n ≢ 0
    → n < 256
    → is_specifier c ≡ true
    → parse_spec no_spec false (print_dec n ++ c ∷ rest)
      ≡ (record no_spec { width = n; specifier = c }, rest)
parse_spec-print_dec n c rest pos small e =
    let (value, digits, start) = print_dec_lem n (omega arith) in
    width_first n (print_dec n) c rest digits start pos (omega (arith, value)) e
    ∙ ap {B = Spec × List ℕ} (λ w. (record no_spec { width = w; specifier = c }, rest)) value

-- A text without a '%'.
abbrev pub Plain : List ℕ → Type 0
Plain [] = Unit
Plain (c ∷ cs) = (c ≢ b'%') × Plain cs

literal_lem : (text rest : List ℕ) → Plain text → literal (text ++ b'%' ∷ rest) ≡ (text, rest)
unfolding literal
literal_lem [] rest h = refl
literal_lem (c ∷ cs) rest h = ground (arith, literal_lem cs rest h.1)

print-Plain :
    (text rest : List ℕ)
    → Plain text
    → print_format (text ++ b'%' ∷ rest)
      ≡ (text, (parse_spec no_spec false rest).0, (parse_spec no_spec false rest).1)
unfolding print_format
print-Plain text rest h = rw (literal_lem text rest h)

-- The rest of printf, for what print_format returns.
after_format : (ℕ → List ℕ) → ℕ → List ℕ → List ℕ × Spec × List ℕ → List ℕ
after_format string_at v args (text, s, rest) =
    let value = if s.specifier == 0 then [] else print_value string_at v s in
    let more = printf string_at rest args in
    text ++ (value ++ elim rest [ [] ↦ [] | c ∷ cs ↦ more ])

printf_lem :
    (string_at : ℕ → List ℕ) (format : List ℕ) (v : ℕ) (args : List ℕ)
    → printf string_at format (v ∷ args) ≡ after_format string_at v args (print_format format)
unfolding printf after_format
printf_lem string_at format v args = refl

-- printf of a text, a hexadecimal conversion with a minimal width that printDec wrote, and more:
-- the text, the value as print_value prints it at this width, and what printf makes of the rest.
pub printf-hex :
    (string_at : ℕ → List ℕ) (text : List ℕ) (n v c : ℕ) (rest args : List ℕ)
    → Plain text
    → n ≢ 0
    → n < 256
    → printf string_at (text ++ b'%' ∷ (print_dec n ++ b'x' ∷ c ∷ rest)) (v ∷ args)
      ≡ text
        ++ (print_value string_at v (record no_spec { width = n; specifier = b'x' })
            ++ printf string_at (c ∷ rest) args)
unfolding after_format
printf-hex string_at text n v c rest args h pos small =
    printf_lem string_at _ v args
    ∙ ap (after_format string_at v args) (print-Plain text (print_dec n ++ b'x' ∷ c ∷ rest) h)
    ∙ ap (λ r. after_format string_at v args (text, r.0, r.1))
        (parse_spec-print_dec n b'x' (c ∷ rest) pos small refl)
