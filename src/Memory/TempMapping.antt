-- ===== src/Memory/TempMapping.antt =====
-- src/Memory/tempMapping.cpp: the mapping for user mode, on the page tables. The kernel's window is
-- `map_pages` of Memory/Physical.
pub mod FirstPage
mod Tests
use Prim.Native.Nat.{bit_or}
use crack_os.Base.{ℕ, zero, suc, ◌+◌, ◌*◌, ◌%◌, ◌^◌, Bool, true, false, not, ◌||◌}
use crack_os.Base.{◌==◌, if◌then◌else◌, Run, ok, ◌>>=◌}
use crack_os.Memory.{page_size, ti}
use crack_os.Memory.PageTable.{PageTables, map_page, get_physical_address}
use crack_os.Memory.PageEntry.{MapOption}

abbrev pub user_option : MapOption
user_option = record {
  writable = true;
  user_available = true;
  through = true;
  uncached = true;
  no_execute = true;
}

-- Whether a round of the loop maps its page.
abbrev pub is_missing : ℕ → ℕ → Bool
is_missing found physical = not (found == physical) || physical == 0

pub map_if : ℕ → Bool → PageTables → ℕ → ℕ → Run PageTables
map_if fuel true s physical virtual = map_page fuel s physical virtual user_option
map_if fuel false s physical virtual = ok s

pub map_round : ℕ → PageTables → ℕ → ℕ → ℕ → Run PageTables
map_round fuel s physical virtual i = do
  found ← get_physical_address s virtual
  map_if fuel (is_missing found physical) s (physical + i * page_size) (virtual + i * page_size)

pub map_loop : ℕ → ℕ → PageTables → ℕ → ℕ → ℕ → Run PageTables
map_loop fuel zero s physical virtual i = ok s
map_loop fuel (suc left) s physical virtual i = do
  t ← map_round fuel s physical virtual i
  map_loop fuel left t physical virtual (i + 1)

-- TempMemory::mapPages(physicalAddress, count, true), with `fuel` for each call of `map`; the
-- address is that of the mapping.
pub map_user_pages : ℕ → PageTables → ℕ → ℕ → Run (ℕ × PageTables)
map_user_pages fuel s physical count = do
  let virtual = (ti 32 + physical) % 2 ^ 64
  t ← map_loop fuel count s physical virtual 0
  ok (bit_or virtual (physical % 2 ^ 12), t)
