-- ===== src/Output/Vga/Cursor.antt =====
-- VGATextOut::printImpl of src/BasicOutput/VGATextOut.cpp: the cursor stays on the screen.
use crack_os.Base.{ℕ, ◌+◌, ◌*◌, ◌/◌, ◌<◌, ◌≤◌, ◌≡◌, ◌≢◌, ◌⊎◌, inl, inr, refl, arith, ◌∙◌}
use crack_os.Base.{ltb, ◌==◌, if◌then◌else◌, update, update_self, update_ne, ok, Bool-cases}
use crack_os.Output.Vga.{Screen, text_buffer, put_char, print_impl, scroll}
use crack_os.Output.Vga.Scroll.{scroll-Scrolled}

-- The cursor is at a place of the screen.
abbrev pub IsOnScreen : Screen → Type 0
IsOnScreen s = s.index < 2000

-- Nothing but the screen's own memory differs.
abbrev pub IsDrawn : Screen → Screen → Type 0
IsDrawn s s' = (q : ℕ) → ((q < text_buffer) ⊎ (text_buffer + 4000 ≤ q)) → s'.mem q ≡ s.mem q

-- The place behind a character, as if the screen had no end.
abbrev pub next_place : Screen → ℕ → ℕ
next_place s c = if c == b'\n' then (s.index / 80 + 1) * 80 else s.index + 1

put_place : (s : Screen) (c : ℕ) → (put_char s c).index ≡ next_place s c
unfolding put_char
put_place s c = ground arith

put_newline : (s : Screen) (q : ℕ) → (put_char s b'\n').mem q ≡ s.mem q
unfolding put_char
put_newline s q = refl

put_other :
    (s : Screen) (c q : ℕ)
    → c ≢ b'\n'
    → (put_char s c).mem q
      ≡ update (update s.mem (text_buffer + s.index * 2) c) (text_buffer + (s.index * 2 + 1)) 0x07 q
unfolding put_char
put_other s c q h = ground arith

put-IsDrawn : (s : Screen) (c : ℕ) → IsOnScreen s → IsDrawn s (put_char s c)
put-IsDrawn s c on q h = elim (Bool-cases (c == b'\n')) [
  | inl newline ↦ let is : c ≡ b'\n' = ground arith in rw is (put_newline s q)
  | inr other ↦
      put_other s c q (ground arith)
      ∙ update_ne (update s.mem (text_buffer + s.index * 2) c) (text_buffer + (s.index * 2 + 1))
          0x07 q (ground arith)
      ∙ update_ne s.mem (text_buffer + s.index * 2) c q (ground arith)
]

print_scrolls :
    (s : Screen) (c : ℕ) → (put_char s c).index / 80 ≡ 25 → print_impl s c ≡ scroll (put_char s c)
unfolding print_impl
print_scrolls s c h = ground arith

print_stays :
    (s : Screen) (c : ℕ) → (put_char s c).index / 80 ≢ 25 → print_impl s c ≡ ok (put_char s c)
unfolding print_impl
print_stays s c h = ground arith

-- Printing a character on a screen whose cursor is on it ends, leaves the cursor on it, behind the
-- character or at the start of the last line after a scroll, and changes no memory but the screen.
pub print_impl-IsOnScreen :
    (s : Screen) (c : ℕ)
    → IsOnScreen s
    → (s' : Screen) × (print_impl s c ≡ ok s')
      × IsOnScreen s'
      × (s'.index ≡ (if ltb (next_place s c) 2000 then next_place s c else 1920))
      × IsDrawn s s'
print_impl-IsOnScreen s c on = elim (Bool-cases (ltb (next_place s c) 2000)) [
  | inl stays ↦ (
    put_char s c,
    print_stays s c (ground (arith, put_place s c)),
    ground (arith, put_place s c),
    put_place s c ∙ ground arith,
    put-IsDrawn s c on,
  )
  | inr full ↦
      let (s', ran, is) = scroll-Scrolled (put_char s c) in
      (
        s',
        print_scrolls s c (ground (arith, put_place s c)) ∙ ran,
        omega (arith, is.index),
        is.index ∙ ground arith,
        λ q h. is.outside q h ∙ put-IsDrawn s c on q h,
      )
]

-- A printed character stands at the cursor's place, with its colour, when no scroll follows.
pub print_impl_lem :
    (s : Screen) (c : ℕ)
    → c ≢ b'\n'
    → s.index < 1999
    → (s' : Screen) × (print_impl s c ≡ ok s')
      × (s'.index ≡ s.index + 1)
      × (s'.mem (text_buffer + s.index * 2) ≡ c)
      × (s'.mem (text_buffer + (s.index * 2 + 1)) ≡ 0x07)
print_impl_lem s c h on = (
  put_char s c,
  print_stays s c (ground (arith, put_place s c)),
  put_place s c ∙ ground arith,
  put_other s c (text_buffer + s.index * 2) h
      ∙ update_ne (update s.mem (text_buffer + s.index * 2) c) (text_buffer + (s.index * 2 + 1))
          0x07 (text_buffer + s.index * 2) (ground arith)
      ∙ update_self s.mem (text_buffer + s.index * 2) c,
  put_other s c (text_buffer + (s.index * 2 + 1)) h
      ∙ update_self (update s.mem (text_buffer + s.index * 2) c) (text_buffer + (s.index * 2 + 1))
          0x07,
)
