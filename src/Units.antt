-- ===== src/Units.antt =====
-- header/Common/Units.hpp and src/Common/Units.cpp: units of time, whose values are uint64_t, and
-- the conversion operators between them.
pub mod Laws
mod Tests
use crack_os.Base.{ℕ, ◌/◌, mul64}

pub data TimeUnit : Type 0 where
  nanosecond microsecond millisecond second minute hour day : TimeUnit

-- The operators of `struct nanosecond`.
pub from_nanosecond : TimeUnit → ℕ → ℕ
from_nanosecond nanosecond value = value
from_nanosecond microsecond value = value / 1000
from_nanosecond millisecond value = value / 1000000
from_nanosecond second value = value / 1000000000
from_nanosecond minute value = value / 60000000000
from_nanosecond hour value = value / 3600000000000
from_nanosecond day value = value / 86400000000000

-- The operators of `struct microsecond`.
pub from_microsecond : TimeUnit → ℕ → ℕ
from_microsecond nanosecond value = mul64 value 1000
from_microsecond microsecond value = value
from_microsecond millisecond value = value / 1000
from_microsecond second value = value / 1000000
from_microsecond minute value = value / 60000000
from_microsecond hour value = value / 3600000000
from_microsecond day value = value / 86400000000

-- The operators of `struct millisecond`.
pub from_millisecond : TimeUnit → ℕ → ℕ
from_millisecond nanosecond value = mul64 value 1000000
from_millisecond microsecond value = mul64 value 1000
from_millisecond millisecond value = value
from_millisecond second value = value / 1000
from_millisecond minute value = value / 60000
from_millisecond hour value = value / 3600000
from_millisecond day value = value / 86400000

-- The operators of `struct second`.
pub from_second : TimeUnit → ℕ → ℕ
from_second nanosecond value = mul64 value 1000000000
from_second microsecond value = mul64 value 1000000
from_second millisecond value = mul64 value 1000
from_second second value = value
from_second minute value = value / 60
from_second hour value = value / 3600
from_second day value = value / 86400

-- The operators of `struct minute`.
pub from_minute : TimeUnit → ℕ → ℕ
from_minute nanosecond value = mul64 value 60000000000
from_minute microsecond value = mul64 value 60000000
from_minute millisecond value = mul64 value 60000
from_minute second value = mul64 value 60
from_minute minute value = value
from_minute hour value = value / 60
from_minute day value = value / 1440

-- The operators of `struct hour`.
pub from_hour : TimeUnit → ℕ → ℕ
from_hour nanosecond value = mul64 value 3600000000000
from_hour microsecond value = mul64 value 360000000
from_hour millisecond value = mul64 value 3600000
from_hour second value = mul64 value 3600
from_hour minute value = mul64 value 60
from_hour hour value = value
from_hour day value = value / 24

-- The operators of `struct day`.
pub from_day : TimeUnit → ℕ → ℕ
from_day nanosecond value = mul64 value 86400000000000
from_day microsecond value = mul64 value 8640000000
from_day millisecond value = mul64 value 86400000
from_day second value = mul64 value 86400
from_day minute value = mul64 value 1440
from_day hour value = mul64 value 24
from_day day value = value

pub convert : TimeUnit → TimeUnit → ℕ → ℕ
unfolding from_nanosecond from_microsecond from_millisecond from_second from_minute from_hour
    from_day
convert nanosecond = from_nanosecond
convert microsecond = from_microsecond
convert millisecond = from_millisecond
convert second = from_second
convert minute = from_minute
convert hour = from_hour
convert day = from_day
