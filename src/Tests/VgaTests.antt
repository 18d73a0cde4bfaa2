-- ===== src/Tests/VgaTests.antt =====
-- The screen, kernel/drivers/vga/vga_basic.c: all bytes 7, the cursor in the last cell or in row 3.
use bhos.Common.{ℕ, ◌+◌, ◌≡◌, refl, arith, [], ◌∷◌, ◌==◌, if◌then◌else◌}
use bhos.Vga.{Screen, attribute, vga_putc, kputs_color, newline_blanks}
use bhos.Vga.Cell.{IsOnScreen, position, written, rolled, vga_putc-IsOnScreen}
use bhos.Vga.Bounds.{kputs_color-IsOnScreen}

abbrev at_end : Screen
at_end = record { video = λ _. 7; cursor_x = 79; cursor_y = 24; ports = [] }

at_end-IsOnScreen : IsOnScreen at_end
at_end-IsOnScreen = record { column = omega arith; row = omega arith }

abbrev in_row_3 : Screen
in_row_3 = record at_end { cursor_x = 5; cursor_y = 3 }

in_row_3-IsOnScreen : IsOnScreen in_row_3
in_row_3-IsOnScreen = record { column = omega arith; row = omega arith }

newline_blanks_test : newline_blanks in_row_3.cursor_x ≡ 75
newline_blanks_test = refl

vga_putc-IsOnScreen_example :
    let t = vga_putc 65 0 15 at_end in
    let filled = written 65 (attribute 0 15) at_end in
    IsOnScreen t
    × (position t ≡ (if position at_end == 1999 then 1920 else position at_end + 1))
    × ((o : ℕ) → t.video o ≡ (if position at_end == 1999 then rolled filled o else filled o))
vga_putc-IsOnScreen_example = vga_putc-IsOnScreen 65 0 15 at_end at_end-IsOnScreen

kputs_color-IsOnScreen_example :
    IsOnScreen (kputs_color (9 ∷ 72 ∷ 10 ∷ []) 0 15 at_end)
    × ((kputs_color (9 ∷ 72 ∷ 10 ∷ []) 0 15 at_end).video 4000 ≡ at_end.video 4000)
kputs_color-IsOnScreen_example =
    kputs_color-IsOnScreen 0 15 (9 ∷ 72 ∷ 10 ∷ []) at_end 4000 at_end-IsOnScreen (omega arith)
