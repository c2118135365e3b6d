-- ===== src/Memory.antt =====
-- header/Memory and src/Memory: what the memory components share.
pub mod Physical
pub mod Heap
pub mod PageEntry
pub mod PageTable
pub mod TempMapping
use crack_os.Base.{ℕ, ◌*◌, ◌+◌, ◌^◌}

-- header/Memory/memory.hpp
abbrev pub page_size : ℕ
page_size = 0x1000

-- The literals of header/Common/Units.hpp that the memory code uses.
abbrev pub gi : ℕ → ℕ
gi t = t * (1024 * (1024 * 1024))

abbrev pub ti : ℕ → ℕ
ti t = t * (1024 * (1024 * (1024 * 1024)))
