-- ===== src/Units/Laws.antt =====
-- The conversions of src/Common/Units.cpp against the lengths of the units.
use crack_os.Base.{ℕ, ◌*◌, ◌/◌, ◌^◌, ◌<◌, ◌≡◌, arith, Bool, true, false, leb, if◌then◌else◌, mul64}
use crack_os.Units.{
  TimeUnit, nanosecond, microsecond, millisecond, second, minute, hour, day, convert,
}

-- The length of a unit in nanoseconds.
unfoldable pub nanoseconds : TimeUnit → ℕ
nanoseconds nanosecond = 1
nanoseconds microsecond = 1000
nanoseconds millisecond = 1000 * 1000
nanoseconds second = 1000 * (1000 * 1000)
nanoseconds minute = 60 * (1000 * (1000 * 1000))
nanoseconds hour = 60 * (60 * (1000 * (1000 * 1000)))
nanoseconds day = 24 * (60 * (60 * (1000 * (1000 * 1000))))

-- Whole target units, rounded down; the product to a smaller unit wraps round at 2 ^ 64.
unfoldable pub exact : TimeUnit → TimeUnit → ℕ → ℕ
unfolding nanoseconds
exact u w value =
    if leb (nanoseconds w) (nanoseconds u)
    then mul64 value (nanoseconds u / nanoseconds w)
    else value / (nanoseconds w / nanoseconds u)

-- The conversions with a factor of their own: hours and days to microseconds.
unfoldable pub is_short : TimeUnit → TimeUnit → Bool
is_short hour microsecond = true
is_short day microsecond = true
is_short _ _ = false

-- Every conversion of a uint64_t but those of hours and of days to microseconds is the quotient by
-- the larger unit's length, rounded down, or to a smaller unit the product with it modulo 2 ^ 64.
pub convert-exact :
    (u w : TimeUnit) (value : ℕ)
    → is_short u w ≡ false
    → value < 2 ^ 64
    → convert u w value ≡ exact u w value
unfolding convert exact is_short
convert-exact u w value h small = ground arith

-- Hours and days come to a tenth of their microseconds, as long as the exact number fits 64 bits.
pub convert_short :
    (u w : TimeUnit) (value : ℕ)
    → is_short u w ≡ true
    → value * (nanoseconds u / nanoseconds w) < 2 ^ 64
    → 10 * convert u w value ≡ exact u w value
unfolding convert exact is_short
convert_short u w value h small = ground arith
