-- ===== src/Vga/Roll.antt =====
-- What one step of scrolling does to the bytes.
use bhos.Common.{
  ℕ, zero, suc, ◌+◌, ◌*◌, ◌/◌, ◌%◌, ◌≤◌, ◌≡◌, arith, ltb, ◌==◌, if◌then◌else◌, Bool-cases, inl, inr,
}
use bhos.Vga.{Screen, copy_row, copy_rows, blank_row, screen_uproll_once}

copy_row-bytes :
    (j n o : ℕ) (m : ℕ → ℕ)
    → n ≤ 80
    → copy_row (suc j) n m o
      ≡ (if ltb o (j * 160) then m o else if ltb o (j * 160 + 2 * n) then m (o + 160) else m o)
unfolding copy_row
copy_row-bytes j zero o m h = ground arith
copy_row-bytes j (suc n) o m h =
    let source : ℕ = suc j * 80 + n in
    let first = copy_row-bytes j n (2 * source) m (omega arith) in
    let second = copy_row-bytes j n (2 * source + 1) m (omega arith) in
    let rest = copy_row-bytes j n o m (omega arith) in
    elim (Bool-cases (o / 2 == j * 80 + n)) [
      | inl e ↦ elim (Bool-cases (o % 2 == 0)) [
        | inl even ↦ let at : o + 160 ≡ 2 * source = ground arith in rw at (ground (arith, first))
        | inr odd ↦
            let at : o + 160 ≡ 2 * source + 1 = ground arith in rw at (ground (arith, second))
      ]
      | inr e ↦ ground (arith, rest)
    ]

copy_rows-bytes :
    (n o : ℕ) (m : ℕ → ℕ) → copy_rows n m o ≡ (if ltb o (n * 160) then m (o + 160) else m o)
unfolding copy_rows
copy_rows-bytes zero o m = ground arith
copy_rows-bytes (suc n) o m = ground (
  arith,
  copy_row-bytes n 80 o (copy_rows n m) (omega arith),
  copy_rows-bytes n o m,
  copy_rows-bytes n (o + 160) m,
)

blank_row-bytes :
    (n o : ℕ) (m : ℕ → ℕ)
    → blank_row n m o ≡ (
        if ltb o 3840
        then m o
        else if ltb o (3840 + 2 * n)
        then (if o % 2 == 0 then 0 else 0x0F)
        else m o)
unfolding blank_row
blank_row-bytes zero o m = ground arith
blank_row-bytes (suc n) o m = ground (arith, blank_row-bytes n o m)

-- Every row goes up by one, the last one is blank, and memory behind the screen is not touched.
pub screen_uproll_once-bytes :
    (s : Screen) (o : ℕ)
    → (screen_uproll_once s).video o ≡ (
        if ltb o 3840
        then s.video (o + 160)
        else if ltb o 4000
        then (if o % 2 == 0 then 0 else 0x0F)
        else s.video o)
unfolding screen_uproll_once
screen_uproll_once-bytes s o =
    let rows = copy_rows-bytes 24 o s.video in
    let last = blank_row-bytes 80 o (copy_rows 24 s.video) in ground (arith, rows, last)
