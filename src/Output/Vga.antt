-- ===== src/Output/Vga.antt =====
-- VGATextOut of src/BasicOutput/VGATextOut.cpp: the text screen in memory and its cursor.
pub mod Scroll
pub mod Cursor
mod Tests
use crack_os.Base.{ℕ, zero, suc, ◌+◌, ◌-◌, ◌*◌, ◌/◌, ◌%◌, Bool, true, false}
use crack_os.Base.{◌==◌, if◌then◌else◌, update, Run, ok, ◌>>=◌}
use crack_os.Language.Bytes.{Bytes, memcpy, memset}

pub record Screen : Type 0 where
  pub index : ℕ
  pub mem : Bytes

abbrev pub text_buffer : ℕ
text_buffer = 0xB_8000

abbrev pub width : ℕ
width = 80

abbrev pub height : ℕ
height = 25

abbrev pub get_x : Screen → ℕ
get_x s = s.index % 80

abbrev pub get_y : Screen → ℕ
get_y s = s.index / 80

abbrev pub set_x : Screen → ℕ → Screen
set_x s x = record s { index = x + get_y s * 80 }

abbrev pub set_y : Screen → ℕ → Screen
set_y s y = record s { index = y * 80 + get_x s }

-- Output::setCursor of header/BasicOutput/Output.hpp
abbrev pub set_cursor : Screen → ℕ → ℕ → Screen
set_cursor s x y = set_y (set_x s x) y

-- The loop of scroll from `line` on.
pub scroll_loop : ℕ → Bytes → ℕ → Bytes
scroll_loop zero m line = m
scroll_loop (suc left) m line =
    scroll_loop left
      (memcpy m (text_buffer + (line - 1) * width * 2) (text_buffer + line * width * 2) (width * 2))
      (line + 1)

-- VGATextOut::scroll
pub scroll : Screen → Run Screen
scroll s = do
  m ←
      memset (width * 2 + 1) (scroll_loop (height - 1) s.mem 1)
        (text_buffer + (height - 1) * width * 2) 0 (width * 2)
  ok (set_cursor (record s { mem = m }) 0 (height - 1))

-- The first statement of printImpl.
pub put_char : Screen → ℕ → Screen
put_char s c = elim (c == b'\n') [
  | true ↦ set_x (set_y s (get_y s + 1)) 0
  | false ↦ record {
    index = s.index + 1;
    mem =
        update (update s.mem (text_buffer + s.index * 2) c) (text_buffer + (s.index * 2 + 1)) 0x07;
  }
]

-- VGATextOut::printImpl
pub print_impl : Screen → ℕ → Run Screen
print_impl s c =
    let after = put_char s c in
    elim (get_y after == height) [ true ↦ scroll after | false ↦ ok after ]

-- VGATextOut::clear, whose loop has `left` rounds to come.
pub clear_loop : ℕ → Bytes → ℕ → Bytes
clear_loop zero m i = m
clear_loop (suc left) m i =
    clear_loop left (update (update m (text_buffer + i * 2) b' ') (text_buffer + (i * 2 + 1)) 0x07)
      (i + 1)

pub clear : Screen → Screen
clear s = record s { mem = clear_loop (80 * 25) s.mem 0 }
