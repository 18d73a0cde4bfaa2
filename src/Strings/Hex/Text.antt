-- ===== src/Strings/Hex/Text.antt =====
-- `num2hexstr` prints a word in hexadecimal.
use bhos.Common.{
  ℕ, ◌+◌, ◌^◌, ◌<◌, ◌≡◌, refl, sym, ap, ◌∙◌, arith, Bool, true, false, Bool-cases, inl, inr, some,
  List, [], ◌∷◌, ◌++◌, length, ◌==◌, if◌then◌else◌, update, ◌||◌, replicate,
}
use bhos.Bitmap.{Memory, memset}
use bhos.Bitmap.Fill.{memset-bytes}
use bhos.Strings.{strcpy}
use bhos.Strings.Spelled.{
  Spells, Spells-at, Spells-placed, Spells-IsText, placed, placed-outside, inside,
}
use bhos.Strings.Copy.{strcpy-placed}
use bhos.Strings.Hex.{HexPlaces, func, pad_hex, hex_digits, num2hexstr}
use bhos.Strings.Hex.Digits.{func-Spells, length-base_digits, base_digits, read_base}
use bhos.Strings.Hex.Pad.{AreApart, pad_hex-replicate}
use bhos.Strings.Hex.Fixed.{
  hex_fixed, hex_fixed-replicate, length-hex_fixed, Fits-word, read_base-word, hex_fixed-zero,
}

-- The bytes of the three arrays that a call writes.
abbrev pub of_arrays : HexPlaces → ℕ → Bool
of_arrays h o = inside h.static_hexstr 10 o || (inside h.temp_arry 8 o || inside h.temp_arry2 8 o)

abbrev pub prefix : Bool → List ℕ
prefix need0x = if need0x then b'0' ∷ b'x' ∷ [] else []

-- Where `num2hexstr` leaves its text.
abbrev pub hex_place : HexPlaces → ℕ → Bool → ℕ
hex_place h number need0x =
    if number == 0 then (if need0x then h.zero_0x else h.zero_bare) else h.static_hexstr

zero_run :
    (fuel : ℕ) (h : HexPlaces) (number : ℕ) (m : Memory) (need0x : Bool)
    → (number == 0) ≡ true
    → num2hexstr fuel h number need0x m ≡ some (if need0x then h.zero_0x else h.zero_bare, m)
unfolding num2hexstr
zero_run fuel h number m need0x e = rw (num2hexstr, e) refl

literal_text :
    (h : HexPlaces) (m : Memory) (need0x : Bool)
    → Spells m h.zero_0x (prefix true ++ replicate 8 b'0')
    → Spells m h.zero_bare (replicate 8 b'0')
    → Spells m (if need0x then h.zero_0x else h.zero_bare) (prefix need0x ++ replicate 8 b'0')
literal_text h m true long bare = long
literal_text h m false long bare = bare

zero_text :
    (h : HexPlaces) (number : ℕ) (m : Memory) (need0x : Bool)
    → (number == 0) ≡ true
    → Spells m h.zero_0x (prefix true ++ replicate 8 b'0')
    → Spells m h.zero_bare (replicate 8 b'0')
    → Spells m (if need0x then h.zero_0x else h.zero_bare) (prefix need0x ++ hex_fixed 8 number)
zero_text h number m need0x e long bare =
    let value : number ≡ 0 = ground arith in
    rw (value, hex_fixed-zero 8) (literal_text h m need0x long bare)

module _ (fuel : ℕ) (h : HexPlaces) (number : ℕ) (m : Memory) (apart : AreApart h)
    (word : number < 2 ^ 32) (enough : 8 < fuel) where
  abbrev begun : Memory
  begun = update (update m h.static_hexstr b'0') (h.static_hexstr + 1) b'x'

  digits_run :
      (m1 m2 : Memory)
      → func fuel h.temp_arry number 16 (memset h.temp_arry 0 9 begun) ≡ some m1
      → pad_hex fuel h m1 ≡ some m2
      → hex_digits fuel h number m ≡ some m2
  unfolding hex_digits
  digits_run m1 m2 first second = rw (hex_digits, first) second

  digits_same :
      (m1 m2 : Memory) (o : ℕ)
      → (if inside h.temp_arry 8 o then memset h.temp_arry 0 9 begun o else m1 o)
        ≡ memset h.temp_arry 0 9 begun o
      → ((inside h.temp_arry 8 o || inside h.temp_arry2 8 o) ≡ false → m2 o ≡ m1 o)
      → (inside h.temp_arry 8 o || inside h.temp_arry2 8 o) ≡ false
      → m2 o ≡ begun o
  digits_same m1 m2 o first second k =
      second k ∙ ground (arith, first, memset-bytes h.temp_arry 0 9 begun o apart.first_whole)

  hex_digits-hex_fixed :
      (m' : Memory) × (hex_digits fuel h number m ≡ some m')
      × Spells m' h.temp_arry (hex_fixed 8 number)
      × ((o : ℕ) → (inside h.temp_arry 8 o || inside h.temp_arry2 8 o) ≡ false → m' o ≡ begun o)
  hex_digits-hex_fixed =
      let fits = Fits-word number word in
      let (m1, first, text, beside) =
        func-Spells 8 fuel h.temp_arry number 16 (memset h.temp_arry 0 9 begun) fits (omega arith)
          (omega arith) enough in
      let (m2, second, padded, around) =
        pad_hex-replicate fuel h m1 (base_digits 16 8 number) apart text
          (length-base_digits 16 8 number) enough in
      (
        m2,
        digits_run m1 m2 first second,
        rw (hex_fixed-replicate 8 number fits) padded,
        (λ o k. digits_same m1 m2 o (beside o) (around o) k),
      )

  text_run :
      (need0x : Bool) (dest : ℕ) (m1 m2 : Memory)
      → dest ≡ (if need0x then h.static_hexstr + 2 else h.static_hexstr)
      → (number == 0) ≡ false
      → hex_digits fuel h number m ≡ some m1
      → strcpy fuel dest h.temp_arry m1 ≡ some m2
      → num2hexstr fuel h number need0x m ≡ some (h.static_hexstr, m2)
  unfolding num2hexstr
  text_run need0x dest m1 m2 e other first second =
      let there = sym (ap (λ (d : ℕ). strcpy fuel d h.temp_arry m1) e) ∙ second in
      rw (num2hexstr, other, first, there) refl

  fits_static : length (hex_fixed 8 number) ≡ 8
  fits_static = length-hex_fixed 8 number

  -- The static array behind the last copy.
  text_bytes :
      (need0x : Bool) (m1 : Memory)
      → Spells m1 h.temp_arry (hex_fixed 8 number)
      → ((o : ℕ) → (inside h.temp_arry 8 o || inside h.temp_arry2 8 o) ≡ false → m1 o ≡ begun o)
      → let dest : ℕ = if need0x then h.static_hexstr + 2 else h.static_hexstr in
        let m2 : Memory = placed dest (hex_fixed 8 number) m1 in
        Spells m2 h.static_hexstr (prefix need0x ++ hex_fixed 8 number)
        × ((o : ℕ) → (if of_arrays h o then m o else m2 o) ≡ m o)
  text_bytes true m1 text same =
      let spot = h.static_hexstr + 2 in
      let copied = Spells-IsText m1 h.temp_arry (hex_fixed 8 number) text in
      let outside = placed-outside spot (hex_fixed 8 number) m1 in
      (
        (
          outside h.static_hexstr (ground arith)
              ∙ same h.static_hexstr (ground (arith, apart.first_static, apart.second_static))
              ∙ ground arith,
          refl,
          (
            outside (h.static_hexstr + 1) (ground arith)
                ∙ same (h.static_hexstr + 1)
                    (ground (arith, apart.first_static, apart.second_static))
                ∙ ground arith,
            refl,
            Spells-at (placed spot (hex_fixed 8 number) m1) spot (h.static_hexstr + 1 + 1)
                (hex_fixed 8 number) (omega arith)
                (Spells-placed spot (hex_fixed 8 number) m1 copied),
          ),
        ),
        (λ o. ground (arith, same o, fits_static, outside o)),
      )
  text_bytes false m1 text same = (
    Spells-placed h.static_hexstr (hex_fixed 8 number) m1
        (Spells-IsText m1 h.temp_arry (hex_fixed 8 number) text),
    (λ o.
        ground
          (arith, same o, fits_static, placed-outside h.static_hexstr (hex_fixed 8 number) m1 o)),
  )

  text_other :
      (need0x : Bool)
      → (number == 0) ≡ false
      → (m' : Memory) × (num2hexstr fuel h number need0x m ≡ some (h.static_hexstr, m'))
        × Spells m' h.static_hexstr (prefix need0x ++ hex_fixed 8 number)
        × ((o : ℕ) → (if of_arrays h o then m o else m' o) ≡ m o)
  text_other need0x other =
      let dest : ℕ = if need0x then h.static_hexstr + 2 else h.static_hexstr in
      let (m1, first, text, same) = hex_digits-hex_fixed in
      let (spelled, beside) = text_bytes need0x m1 text same in
      let m2 : Memory = placed dest (hex_fixed 8 number) m1 in
      (
        m2,
        text_run need0x dest m1 m2 refl other first (
            strcpy-placed fuel dest h.temp_arry m1 (hex_fixed 8 number) text
              (ground (arith, fits_static, apart.first_static)) (omega (arith, fits_static))),
        spelled,
        beside,
      )

  -- `num2hexstr` returns the address of a string of eight hexadecimal digits, after "0x" when that is
  -- wanted, that reads as the word, for arrays that lie apart and the two literals in memory. No byte beside
  -- the arrays changes.
  pub num2hexstr-hex_fixed :
      (need0x : Bool)
      → Spells m h.zero_0x (prefix true ++ replicate 8 b'0')
      → Spells m h.zero_bare (replicate 8 b'0')
      → (m' : Memory) × (num2hexstr fuel h number need0x m ≡ some (hex_place h number need0x, m'))
        × Spells m' (hex_place h number need0x) (prefix need0x ++ hex_fixed 8 number)
        × (read_base 16 0 (hex_fixed 8 number) ≡ number)
        × ((o : ℕ) → (if of_arrays h o then m o else m' o) ≡ m o)
  num2hexstr-hex_fixed need0x long bare = elim (Bool-cases (number == 0)) [
    | inl e ↦ rw e (
      m,
      zero_run fuel h number m need0x e,
      zero_text h number m need0x e long bare,
      read_base-word number word,
      (λ o. ground arith),
    )
    | inr e ↦
        let (m', run, text, beside) = text_other need0x e in
        rw e (m', run, text, read_base-word number word, beside)
  ]
