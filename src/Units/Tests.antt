-- ===== src/Units/Tests.antt =====
-- Conversions of a day and of two hours.
use crack_os.Base.{◌≡◌, refl, arith}
use crack_os.Units.{nanosecond, microsecond, hour, day, convert}
use crack_os.Units.Laws.{exact, convert-exact, convert_short}

convert-exact_example : convert day nanosecond 3 ≡ exact day nanosecond 3
unfolding crack_os.Units.Laws.nanoseconds crack_os.Units.Laws.is_short
convert-exact_example = convert-exact day nanosecond 3 refl (omega arith)
