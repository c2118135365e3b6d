-- ===== src/Language/Digits/Tests.antt =====
-- The number 255 as "ff" at the address 64, and the reversal of three bytes.
use crack_os.Base.{ℕ, ◌+◌, ◌%◌, ◌≡◌, arith, ok}
use crack_os.Language.Bytes.{Bytes}
use crack_os.Language.Digits.{int_to_string}
use crack_os.Language.Digits.Text.{read_number, int_to_string-read_number}

abbrev counting : Bytes
counting a = a % 256

int_to_string-read_number_example :
    (n : ℕ) × (m' : Bytes) × (int_to_string 256 counting 255 64 16 ≡ ok m')
    × (read_number m' 64 n 16 0 ≡ 255)
    × (m' (64 + n) ≡ 0)
int_to_string-read_number_example =
    int_to_string-read_number 16 (omega arith) 256 counting 255 64 (omega arith) (omega arith)
      (omega arith) (omega arith) (omega arith)
