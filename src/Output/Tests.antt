-- ===== src/Output/Tests.antt =====
-- Runs of the output functions: the numeral 1024, the width 12, a buffer that was just initialised.
use crack_os.Base.{ℕ, zero, suc, ◌≡◌, refl, arith, List, [], ◌∷◌, length}
use crack_os.Output.{print_dec}
use crack_os.Output.Dec.{dec_value, Digits, StartsWell, print_dec_lem}

print_dec_lem_example :
    (dec_value 0 (print_dec 1024) ≡ 1024)
    × Digits (print_dec 1024)
    × StartsWell 1024 (print_dec 1024)
print_dec_lem_example = print_dec_lem 1024 (omega arith)

abbrev blank : ℕ → List ℕ
blank zero = []
blank (suc n) = 0 ∷ blank n

length-blank : (n : ℕ) → length (blank n) ≡ n
length-blank zero = refl
length-blank (suc n) = omega (arith, length-blank n)

no_strings : ℕ → List ℕ
no_strings p = []
