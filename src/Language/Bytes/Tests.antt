-- ===== src/Language/Bytes/Tests.antt =====
-- A memory whose address `a` holds `a % 256`, and one with two strings.
use crack_os.Base.{ℕ, ◌+◌, ◌%◌, ◌<◌, ◌≤◌, ◌≡◌, ◌⊎◌, inl, arith, ◌==◌, if◌then◌else◌}
use crack_os.Language.Bytes.{Bytes, memcpy}
use crack_os.Language.Bytes.Copy.{memcpy_lem}

abbrev counting : Bytes
counting a = a % 256

-- "ab" at 16 and "a" at 32.
abbrev strings : Bytes
strings a = if a == 16 then b'a' else if a == 17 then b'b' else if a == 32 then b'a' else 0

-- Five bytes to a place three before their own.
memcpy_lem_example :
    ((k : ℕ) → k < 5 → memcpy counting 100 103 5 (100 + k) ≡ counting (103 + k))
    × ((q : ℕ) → ((q < 100) ⊎ (105 ≤ q)) → memcpy counting 100 103 5 q ≡ counting q)
memcpy_lem_example = memcpy_lem counting 100 103 5 (inl (omega arith))
