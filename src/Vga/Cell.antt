-- ===== src/Vga/Cell.antt =====
-- One character on the screen.
use bhos.Common.{
  ℕ, ◌+◌, ◌*◌, ◌%◌, ◌^◌, ◌<◌, ◌≡◌, refl, arith, true, false, Bool-cases, inl, inr, ltb, ◌==◌,
  if◌then◌else◌, bit_and, bit_and_low, bit_or_sum,
}
use bhos.Vga.{Screen, attribute, put_cell, move_cursor, screen_uproll_once, vga_putc}
use bhos.Vga.Roll.{screen_uproll_once-bytes}

-- The cursor stands inside the 25 rows of 80 columns.
pub record IsOnScreen (s : Screen) : Type 0 where
  pub column : s.cursor_x < 80
  pub row : s.cursor_y < 25

-- The number of the cursor's cell.
abbrev pub position : Screen → ℕ
position s = s.cursor_y * 80 + s.cursor_x

-- The bytes of the screen with one more character at the cursor.
abbrev pub written : ℕ → ℕ → Screen → ℕ → ℕ
written input attr s = put_cell (position s) input attr s.video

-- The bytes of a screen that has gone up by one row.
abbrev pub rolled : (ℕ → ℕ) → ℕ → ℕ
rolled m o =
    if ltb o 3840 then m (o + 160) else if ltb o 4000 then (if o % 2 == 0 then 0 else 0x0F) else m o

-- The three ways on from a character that is put.
putc_next :
    (input back fore : ℕ) (s : Screen)
    → IsOnScreen s
    → (s.cursor_x == 79) ≡ false
    → vga_putc input back fore s
      ≡ move_cursor
          (record s { video = written input (attribute back fore) s; cursor_x = s.cursor_x + 1 })
unfolding vga_putc
putc_next input back fore s on e =
    let small : position s % 2 ^ 16 ≡ position s = omega (arith, on.column, on.row) in
    rw (small, e) refl

putc_row :
    (input back fore : ℕ) (s : Screen)
    → IsOnScreen s
    → (s.cursor_x == 79) ≡ true
    → (s.cursor_y == 24) ≡ false
    → vga_putc input back fore s
      ≡ move_cursor (record s {
        video = written input (attribute back fore) s;
        cursor_x = 0;
        cursor_y = s.cursor_y + 1;
      })
unfolding vga_putc
putc_row input back fore s on e f =
    let small : position s % 2 ^ 16 ≡ position s = omega (arith, on.column, on.row) in
    rw (small, e, f) refl

putc_roll :
    (input back fore : ℕ) (s : Screen)
    → IsOnScreen s
    → (s.cursor_x == 79) ≡ true
    → (s.cursor_y == 24) ≡ true
    → vga_putc input back fore s
      ≡ move_cursor
          (record (screen_uproll_once
            (record s { video = written input (attribute back fore) s })) {
              cursor_x = 0;
              cursor_y = 24;
            })
unfolding vga_putc
putc_roll input back fore s on e f =
    let small : position s % 2 ^ 16 ≡ position s = omega (arith, on.column, on.row) in
    rw (small, e, f) refl

pub putc_inside :
    (input back fore : ℕ) (s : Screen)
    → (position s == 1999) ≡ false
    → IsOnScreen s
    → IsOnScreen (vga_putc input back fore s)
      × (position (vga_putc input back fore s) ≡ position s + 1)
      × ((o : ℕ) → (vga_putc input back fore s).video o ≡ written input (attribute back fore) s o)
unfolding move_cursor
putc_inside input back fore s inside on = elim (Bool-cases (s.cursor_x == 79)) [
  | inr e ↦
      rw (putc_next input back fore s on e)
        (record { column = ground (arith, on.column); row = on.row }, omega arith, (λ o. refl))
  | inl e ↦
      let f : (s.cursor_y == 24) ≡ false = ground arith in
      rw (putc_row input back fore s on e f)
        (record { column = omega arith; row = ground (arith, on.row) }, ground arith, (λ o. refl))
]

pub putc_last :
    (input back fore : ℕ) (s : Screen)
    → (position s == 1999) ≡ true
    → IsOnScreen s
    → IsOnScreen (vga_putc input back fore s)
      × (position (vga_putc input back fore s) ≡ 1920)
      × ((o : ℕ)
          → (vga_putc input back fore s).video o ≡ rolled (written input (attribute back fore) s) o)
unfolding move_cursor
putc_last input back fore s last on =
    let e : (s.cursor_x == 79) ≡ true = ground (arith, on.column, on.row) in
    let f : (s.cursor_y == 24) ≡ true = ground (arith, on.column, on.row) in
    rw (putc_roll input back fore s on e f) (
      record { column = omega arith; row = omega arith },
      refl,
      (λ o.
          screen_uproll_once-bytes (record s { video = written input (attribute back fore) s }) o),
    )

-- `vga_putc` with the cursor on the screen leaves it there: the character and its attribute are in the
-- cursor's cell and the cursor stands on the next one, or, behind the last cell, at the start of row 24
-- of a screen that has gone up by one row. No other byte changes.
pub vga_putc-IsOnScreen :
    (input back fore : ℕ) (s : Screen)
    → IsOnScreen s
    → let t = vga_putc input back fore s in
      let filled = written input (attribute back fore) s in
      IsOnScreen t
      × (position t ≡ (if position s == 1999 then 1920 else position s + 1))
      × ((o : ℕ) → t.video o ≡ (if position s == 1999 then rolled filled o else filled o))
vga_putc-IsOnScreen input back fore s on = elim (Bool-cases (position s == 1999)) [
  | inl e ↦ rw e (putc_last input back fore s e on)
  | inr e ↦ rw e (putc_inside input back fore s e on)
]

-- The attribute byte of two colour numbers.
pub attribute_lem : (back fore : ℕ) → back < 16 → fore < 16 → attribute back fore ≡ back * 16 + fore
attribute_lem back fore hb hf =
    let low : bit_and fore 0x0F ≡ fore = omega (arith, bit_and_low 4 fore) in
    rw low (omega (arith, bit_or_sum 4 back fore hf))
