-- ===== src/Vga/Bounds.antt =====
-- Text on the screen: it stays inside, a line ends, and the screen is cleared.
use bhos.Common.{
  ℕ, zero, suc, ◌+◌, ◌-◌, ◌≤◌, ◌≡◌, refl, ◌∙◌, arith, false, Bool-cases, inl, inr, ◌==◌,
  if◌then◌else◌, List, [], ◌∷◌,
}
use bhos.Vga.{Screen, vga_putc, put_blanks, kputc_color, kputs_color, newline_blanks, tab_length}
use bhos.Vga.Cell.{IsOnScreen, position, vga_putc-IsOnScreen, putc_inside}

module _ (back fore : ℕ) where
  putc_outside :
      (input : ℕ) (s : Screen) (o : ℕ)
      → IsOnScreen s
      → 4000 ≤ o
      → (vga_putc input back fore s).video o ≡ s.video o
  putc_outside input s o on h =
      let put = vga_putc-IsOnScreen input back fore s on in
      ground (arith, put.2 o, on.column, on.row)

  pub put_blanks-IsOnScreen :
      (n : ℕ) (s : Screen) (o : ℕ)
      → IsOnScreen s
      → 4000 ≤ o
      → IsOnScreen (put_blanks n back fore s) × ((put_blanks n back fore s).video o ≡ s.video o)
  unfolding put_blanks
  put_blanks-IsOnScreen zero s o on h = (on, refl)
  put_blanks-IsOnScreen (suc n) s o on h =
      let put = vga_putc-IsOnScreen 0 back fore s on in
      let rest = put_blanks-IsOnScreen n (vga_putc 0 back fore s) o put.0 h in
      (rest.0, rest.1 ∙ putc_outside 0 s o on h)

  kputc_color-IsOnScreen :
      (input : ℕ) (s : Screen) (o : ℕ)
      → IsOnScreen s
      → 4000 ≤ o
      → IsOnScreen (kputc_color input back fore s)
        × ((kputc_color input back fore s).video o ≡ s.video o)
  unfolding kputc_color
  kputc_color-IsOnScreen input s o on h = elim (Bool-cases (input == 9)) [
    | inl e ↦ rw e (put_blanks-IsOnScreen tab_length s o on h)
    | inr e ↦ elim (Bool-cases (input == 10)) [
      | inl f ↦ rw (e, f) (put_blanks-IsOnScreen (newline_blanks s.cursor_x) s o on h)
      | inr f ↦
          rw (e, f) ((vga_putc-IsOnScreen input back fore s on).0, putc_outside input s o on h)
    ]
  ]

  -- No text leaves the screen: whatever `kputs_color` prints, the cursor stays on the screen and no byte
  -- behind its 4000 bytes changes.
  pub kputs_color-IsOnScreen :
      (cs : List ℕ) (s : Screen) (o : ℕ)
      → IsOnScreen s
      → 4000 ≤ o
      → IsOnScreen (kputs_color cs back fore s) × ((kputs_color cs back fore s).video o ≡ s.video o)
  unfolding kputs_color
  kputs_color-IsOnScreen [] s o on h = (on, refl)
  kputs_color-IsOnScreen (c ∷ cs) s o on h =
      let one = kputc_color-IsOnScreen c s o on h in
      let rest = kputs_color-IsOnScreen cs (kputc_color c back fore s) o one.0 h in
      (rest.0, rest.1 ∙ one.1)

  -- Blanks up to the end of the screen.
  pub put_blanks-position :
      (n : ℕ) (s : Screen)
      → IsOnScreen s
      → position s + n ≤ 2000
      → position (put_blanks n back fore s)
        ≡ (if position s + n == 2000 then 1920 else position s + n)
  unfolding put_blanks
  put_blanks-position zero s on h = ground (arith, on.column, on.row)
  put_blanks-position (suc zero) s on h =
      let put = vga_putc-IsOnScreen 0 back fore s on in ground (arith, put.1)
  put_blanks-position (suc (suc n)) s on h =
      let inside : (position s == 1999) ≡ false = ground arith in
      let put = putc_inside 0 back fore s inside on in
      put_blanks-position (suc n) (vga_putc 0 back fore s) put.0 (omega (arith, put.1))
      ∙ ground (arith, put.1)

  -- '\n' goes to the start of the next row; on the last row the screen goes up instead.
  pub kputc_color-newline :
      (s : Screen)
      → IsOnScreen s
      → let t = kputc_color 10 back fore s in
        (t.cursor_x ≡ 0) × (t.cursor_y ≡ (if s.cursor_y == 24 then 24 else s.cursor_y + 1))
  unfolding kputc_color
  kputc_color-newline s on =
      let n : newline_blanks s.cursor_x ≡ 80 - s.cursor_x = ground (arith, on.column) in
      let at = put_blanks-position (80 - s.cursor_x) s on (omega (arith, on.column, on.row)) in
      let kept = put_blanks-IsOnScreen (80 - s.cursor_x) s 4000 on (omega arith) in
      rw n
        (ground (arith, at, kept.0.column, on.column), ground (arith, at, kept.0.column, on.column))

  pub put_blanks-snoc :
      (n : ℕ) (s : Screen)
      → put_blanks (suc n) back fore s ≡ vga_putc 0 back fore (put_blanks n back fore s)
  unfolding put_blanks
  put_blanks-snoc zero s = refl
  put_blanks-snoc (suc n) s = put_blanks-snoc n (vga_putc 0 back fore s)
