-- ===== src/Output/Vga/Tests.antt =====
-- An empty screen, with the cursor in the middle and at the last place.
use crack_os.Base.{ℕ, ◌≡◌, arith, ok, ltb, if◌then◌else◌}
use crack_os.Output.Vga.{Screen, print_impl, scroll}
use crack_os.Output.Vga.Scroll.{Scrolled, scroll-Scrolled}
use crack_os.Output.Vga.Cursor.{IsOnScreen, IsDrawn, next_place, print_impl-IsOnScreen}

abbrev screen : ℕ → Screen
screen index = record { index = index; mem = λ q. 0 }

scroll-Scrolled_example : (s' : Screen) × (scroll (screen 2000) ≡ ok s') × Scrolled (screen 2000) s'
scroll-Scrolled_example = scroll-Scrolled (screen 2000)

print_impl-IsOnScreen_example :
    (s' : Screen) × (print_impl (screen 1999) b'A' ≡ ok s')
    × IsOnScreen s'
    × (s'.index ≡ (
        if ltb (next_place (screen 1999) b'A') 2000 then next_place (screen 1999) b'A' else 1920))
    × IsDrawn (screen 1999) s'
print_impl-IsOnScreen_example = print_impl-IsOnScreen (screen 1999) b'A' (omega arith)
