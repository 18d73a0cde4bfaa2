-- ===== src/Vga.antt =====
-- The text screen: kernel/drivers/vga/vga_basic.c and include/vga_basic.h.
--
-- `video` holds the bytes from `video_memory` on; `ports` is the sequence of bytes that were written to
-- ports. A colour is its number, a character its byte. A 16-bit cell is two bytes, the character first.
-- The loops over columns and rows are recursions on the number of rounds done.
pub mod Roll
pub mod Cell
pub mod Bounds
pub mod Text
use bhos.Common.{
  ℕ, zero, suc, ◌+◌, ◌-◌, ◌*◌, ◌%◌, ◌^◌, ◌||◌, List, [], ◌∷◌, ◌++◌, ltb, ◌==◌, if◌then◌else◌,
  update, shr, bit_and, bit_or,
}

pub record Screen : Type 0 where
  pub video : ℕ → ℕ
  pub cursor_x : ℕ
  pub cursor_y : ℕ
  pub ports : List (ℕ × ℕ)

abbrev pub tab_length : ℕ
tab_length = 4

abbrev pub black : ℕ
black = 0

abbrev pub white : ℕ
white = 15

-- Port 0x3D4 names the register, 0x3D5 takes its byte.
unfoldable pub move_cursor : Screen → Screen
move_cursor s =
    let cursor_location = (s.cursor_y * 80 + s.cursor_x) % 2 ^ 16 in
    record s {
      ports =
          s.ports
          ++ ((0x3D4, 14)
              ∷ (0x3D5, shr cursor_location 8 % 2 ^ 8)
              ∷ (0x3D4, 15)
              ∷ (0x3D5, cursor_location % 2 ^ 8)
              ∷ []);
    }

unfoldable pub move_cursor_by_xy : ℕ → ℕ → Screen → Screen
unfolding move_cursor
move_cursor_by_xy x y s =
    if ltb 79 x || ltb 24 y then s else move_cursor (record s { cursor_x = x; cursor_y = y })

-- One 16-bit assignment from cell `from` to cell `to`.
abbrev pub copy_cell : ℕ → ℕ → (ℕ → ℕ) → ℕ → ℕ
copy_cell to from m = update (update m (2 * to) (m (2 * from))) (2 * to + 1) (m (2 * from + 1))

-- The first `n` columns of row `j` go up one row.
unfoldable pub copy_row : ℕ → ℕ → (ℕ → ℕ) → ℕ → ℕ
copy_row j zero m = m
copy_row j (suc n) m = copy_cell ((j - 1) * 80 + n) (j * 80 + n) (copy_row j n m)

-- Rows 1 to `n` go up one row.
unfoldable pub copy_rows : ℕ → (ℕ → ℕ) → ℕ → ℕ
copy_rows zero m = m
copy_rows (suc n) m = copy_row (suc n) 80 (copy_rows n m)

-- The first `n` columns of row 24 are blank.
unfoldable pub blank_row : ℕ → (ℕ → ℕ) → ℕ → ℕ
blank_row zero m = m
blank_row (suc n) m =
    let location = 24 * 80 + n in
    update (update (blank_row n m) (2 * location) 0) (2 * location + 1) 0x0F

unfoldable pub screen_uproll_once : Screen → Screen
unfolding move_cursor
screen_uproll_once s =
    let rolled = record s { video = blank_row 80 (copy_rows 24 s.video) } in
    if s.cursor_y == 0 then rolled else move_cursor (record rolled { cursor_y = s.cursor_y - 1 })

abbrev pub attribute : ℕ → ℕ → ℕ
attribute back fore = bit_or (back * 2 ^ 4) (bit_and fore 0x0F) % 2 ^ 8

-- The two bytes that `vga_putc` writes.
abbrev pub put_cell : ℕ → ℕ → ℕ → (ℕ → ℕ) → ℕ → ℕ
put_cell location input attr m = update (update m (2 * location) input) (2 * location + 1) attr

unfoldable pub vga_putc : ℕ → ℕ → ℕ → Screen → Screen
unfolding move_cursor
vga_putc input back fore s =
    let cursor_location = (s.cursor_y * 80 + s.cursor_x) % 2 ^ 16 in
    let s1 = record s { video = put_cell cursor_location input (attribute back fore) s.video } in
    move_cursor (
      if s1.cursor_x == 79
      then (if s1.cursor_y == 24
          then record (screen_uproll_once s1) { cursor_x = 0; cursor_y = 24 }
          else record s1 { cursor_x = 0; cursor_y = s1.cursor_y + 1 })
      else record s1 { cursor_x = s1.cursor_x + 1 })

-- `n` calls of vga_putc('\0', back, fore).
unfoldable pub put_blanks : ℕ → ℕ → ℕ → Screen → Screen
put_blanks zero back fore s = s
put_blanks (suc n) back fore s = put_blanks n back fore (vga_putc 0 back fore s)

unfoldable pub clear_screen : Screen → Screen
unfolding move_cursor
clear_screen s =
    let filled = put_blanks (25 * 80) black white (record s { cursor_x = 0; cursor_y = 0 }) in
    move_cursor (record filled { cursor_x = 0; cursor_y = 0 })

-- The number of blanks that '\n' puts; the subtraction is of bytes.
abbrev pub newline_blanks : ℕ → ℕ
newline_blanks cursor_x =
    let temp_num = (80 + 2 ^ 8 - cursor_x) % 2 ^ 8 in if temp_num == 0 then 80 else temp_num

unfoldable pub kputc_color : ℕ → ℕ → ℕ → Screen → Screen
kputc_color input back fore s =
    if input == 9
    then put_blanks tab_length back fore s
    else if input == 10
    then put_blanks (newline_blanks s.cursor_x) back fore s
    else vga_putc input back fore s

abbrev pub kputc : ℕ → Screen → Screen
kputc input = kputc_color input black white

-- `kputs_color` of a string, given as the characters in front of its '\0'.
unfoldable pub kputs_color : List ℕ → ℕ → ℕ → Screen → Screen
kputs_color [] back fore s = s
kputs_color (c ∷ cs) back fore s = kputs_color cs back fore (kputc_color c back fore s)

abbrev pub kputs : List ℕ → Screen → Screen
kputs cs = kputs_color cs black white

abbrev pub vga_init : Screen → Screen
vga_init = clear_screen
