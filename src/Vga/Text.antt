-- ===== src/Vga/Text.antt =====
-- What stands on the screen: text on a line, and the cleared screen.
use bhos.Common.{
  ℕ, zero, suc, ◌+◌, ◌*◌, ◌%◌, ◌<◌, ◌≤◌, ◌≡◌, refl, ap, ◌∙◌, arith, true, false, Bool-cases, inl,
  inr, ltb, ◌==◌, if◌then◌else◌, List, [], ◌∷◌, length, get_or,
}
use bhos.Vga.{
  Screen, attribute, vga_putc, put_blanks, clear_screen, kputc_color, kputs_color, black, white,
}
use bhos.Vga.Cell.{IsOnScreen, position, putc_inside, putc_last}
use bhos.Vga.Bounds.{put_blanks-snoc, put_blanks-IsOnScreen, put_blanks-position}

-- No tab and no newline.
abbrev pub IsPlain : List ℕ → Type 0
IsPlain [] = Unit
IsPlain (c ∷ cs) = (((c == 9) ≡ false) × ((c == 10) ≡ false)) × IsPlain cs

module _ (back fore : ℕ) where
  kputc_plain :
      (c : ℕ) (s : Screen)
      → (c == 9) ≡ false
      → (c == 10) ≡ false
      → kputc_color c back fore s ≡ vga_putc c back fore s
  unfolding kputc_color
  kputc_plain c s e f = rw (e, f) refl

  kputs_cons :
      (c : ℕ) (cs : List ℕ) (s : Screen)
      → (c == 9) ≡ false
      → (c == 10) ≡ false
      → kputs_color (c ∷ cs) back fore s ≡ kputs_color cs back fore (vga_putc c back fore s)
  unfolding kputs_color
  kputs_cons c cs s e f = ap (kputs_color cs back fore) (kputc_plain c s e f)

  -- Plain text that ends before the last cell: the cursor behind it, and the bytes that stay.
  kputs_before :
      (cs : List ℕ) (s : Screen) (o : ℕ)
      → IsPlain cs
      → IsOnScreen s
      → position s + length cs ≤ 1999
      → o < 2 * position s
      → (position (kputs_color cs back fore s) ≡ position s + length cs)
        × ((kputs_color cs back fore s).video o ≡ s.video o)
  unfolding kputs_color
  kputs_before [] s o plain on fit h = (omega arith, refl)
  kputs_before (c ∷ cs) s o plain on fit h =
      let inside : (position s == 1999) ≡ false = ground arith in
      let put = putc_inside c back fore s inside on in
      let rest =
        kputs_before cs (vga_putc c back fore s) o plain.1 put.0 (omega (arith, put.1))
          (omega (arith, put.1)) in
      rw (kputs_cons c cs s plain.0.0 plain.0.1)
        (rest.0 ∙ omega (arith, put.1), rest.1 ∙ put.2 o ∙ ground arith)

  -- Plain text that ends before the last cell stands on the screen, from the cursor's cell on, one
  -- character to a cell, each with the attribute of the colours.
  pub kputs_color-get_or :
      (cs : List ℕ) (s : Screen) (i : ℕ)
      → IsPlain cs
      → IsOnScreen s
      → position s + length cs ≤ 1999
      → i < length cs
      → let t = kputs_color cs back fore s in
        (t.video (2 * (position s + i)) ≡ get_or cs i 0)
        × (t.video (2 * (position s + i) + 1) ≡ attribute back fore)
  kputs_color-get_or [] s i plain on fit h = absurd (omega arith)
  kputs_color-get_or (c ∷ cs) s zero plain on fit h =
      let inside : (position s == 1999) ≡ false = ground arith in
      let put = putc_inside c back fore s inside on in
      let u = vga_putc c back fore s in
      let even =
        kputs_before cs u (2 * (position s + 0)) plain.1 put.0 (omega (arith, put.1))
          (omega (arith, put.1)) in
      let odd =
        kputs_before cs u (2 * (position s + 0) + 1) plain.1 put.0 (omega (arith, put.1))
          (omega (arith, put.1)) in
      rw (kputs_cons c cs s plain.0.0 plain.0.1) (
        even.1 ∙ put.2 (2 * (position s + 0)) ∙ ground arith,
        odd.1 ∙ put.2 (2 * (position s + 0) + 1) ∙ ground arith,
      )
  kputs_color-get_or (c ∷ cs) s (suc i) plain on fit h =
      let inside : (position s == 1999) ≡ false = ground arith in
      let put = putc_inside c back fore s inside on in
      let u = vga_putc c back fore s in
      let rest = kputs_color-get_or cs u i plain.1 put.0 (omega (arith, put.1)) (omega arith) in
      let at : position u + i ≡ position s + suc i = omega (arith, put.1) in
      rw (kputs_cons c cs s plain.0.0 plain.0.1, ← at) rest

-- The bytes of `n` blanks, as long as they end before the last cell.
put_blanks-bytes :
    (n : ℕ) (s : Screen) (o : ℕ)
    → IsOnScreen s
    → position s ≡ 0
    → n ≤ 1999
    → o < 2 * n
    → (put_blanks n black white s).video o ≡ (if o % 2 == 0 then 0 else 0x0F)
put_blanks-bytes zero s o on start fit h = absurd (omega arith)
put_blanks-bytes (suc n) s o on start fit h =
    let u = put_blanks n black white s in
    let at : position u ≡ n = put_blanks-position black white n s on (omega arith) ∙ ground arith in
    let kept = put_blanks-IsOnScreen black white n s 4000 on (omega arith) in
    let inside : (position u == 1999) ≡ false = ground arith in
    let put = putc_inside 0 black white u inside kept.0 in
    rw (put_blanks-snoc black white n s) (
      put.2 o ∙ elim (Bool-cases (ltb o (2 * n))) [
        | inl e ↦
            let old = put_blanks-bytes n s o on start (omega arith) (ground arith) in
            ground (arith, old, at)
        | inr e ↦ ground (arith, at)
      ])

-- The blank in the last cell sends the screen up by one row.
last_blank :
    (s : Screen) (o : ℕ)
    → IsOnScreen s
    → position s ≡ 0
    → o < 4000
    → (put_blanks 2000 black white s).video o ≡ (if o % 2 == 0 then 0 else 0x0F)
last_blank s o on start h =
    let u = put_blanks 1999 black white s in
    let at : position u ≡ 1999 =
      put_blanks-position black white 1999 s on (omega arith) ∙ ground arith in
    let kept = put_blanks-IsOnScreen black white 1999 s 4000 on (omega arith) in
    let last : (position u == 1999) ≡ true = ground arith in
    let put = putc_last 0 black white u last kept.0 in
    rw (put_blanks-snoc black white 1999 s) (
      put.2 o ∙ elim (Bool-cases (ltb (o + 160) 3998)) [
        | inl e ↦
            let old = put_blanks-bytes 1999 s (o + 160) on start (omega arith) (ground arith) in
            ground (arith, old, at)
        | inr e ↦ ground (arith, at)
      ])

-- `clear_screen` blanks all 25 rows of 80 columns, white on black, and puts the cursor at the start,
-- wherever it stood.
pub clear_screen_lem :
    (s : Screen) (o : ℕ)
    → o < 4000
    → ((clear_screen s).video o ≡ (if o % 2 == 0 then 0 else 0x0F))
      × ((clear_screen s).cursor_x ≡ 0)
      × ((clear_screen s).cursor_y ≡ 0)
unfolding clear_screen
clear_screen_lem s o h = (filled, refl, refl)
  where
    home : Screen
    home = record s { cursor_x = 0; cursor_y = 0 }

    home-IsOnScreen : IsOnScreen home
    home-IsOnScreen = record { column = omega arith; row = omega arith }

    filled : (put_blanks (25 * 80) black white home).video o ≡ (if o % 2 == 0 then 0 else 0x0F)
    filled = last_blank home o home-IsOnScreen refl h
