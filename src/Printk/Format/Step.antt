-- ===== src/Printk/Format/Step.antt =====
-- One directive of `printk`: the text of its argument comes into its place.
use bhos.Common.{
  ℕ, ◌+◌, ◌^◌, ◌<◌, ◌≤◌, ◌≡◌, refl, arith, Bool, true, false, Bool-cases, inl, inr, some, List,
  ◌++◌, length, ◌==◌, if◌then◌else◌, replicate,
}
use bhos.Bitmap.{Memory}
use bhos.Strings.Spelled.{Spells}
use bhos.Strings.Decimal.{uint_to_string-decimal, length-decimal}
use bhos.Strings.Hex.Fixed.{hex_fixed, length-hex_fixed}
use bhos.Strings.Hex.Pad.{AreApart}
use bhos.Strings.Hex.Text.{prefix, hex_place, num2hexstr-hex_fixed}
use bhos.Printk.Format.{Places, Directive, as_string, as_decimal, as_hex, text_of}
use bhos.Printk.Format.Render.{shown, clear, IsConst, IsConst-frame, IsGiven, of_numbers, of_printk}

-- The arrays of the texts lie apart, also from those in which numbers are converted, and within the
-- address space.
pub record AreLaid (p : Places) : Type 0 where
  pub two_texts : clear p.out 100 p.temp 100 ≡ true
  pub out_decimal : clear p.out 100 p.decimal_buffer 11 ≡ true
  pub out_static : clear p.out 100 p.hex.static_hexstr 11 ≡ true
  pub out_first : clear p.out 100 p.hex.temp_arry 9 ≡ true
  pub out_second : clear p.out 100 p.hex.temp_arry2 9 ≡ true
  pub temp_decimal : clear p.temp 100 p.decimal_buffer 11 ≡ true
  pub temp_static : clear p.temp 100 p.hex.static_hexstr 11 ≡ true
  pub hex_apart : AreApart p.hex
  pub out_whole : p.out + 100 ≤ 2 ^ 32
  pub temp_whole : p.temp + 100 ≤ 2 ^ 32

-- The two literals of `num2hexstr` stand in memory.
pub record HasLiterals (m : Memory) (p : Places) : Type 0 where
  pub long : IsConst m p p.hex.zero_0x (prefix true ++ replicate 8 b'0')
  pub bare : IsConst m p p.hex.zero_bare (replicate 8 b'0')

pub HasLiterals-frame :
    (m m' : Memory) (p : Places)
    → ((o : ℕ) → (if of_printk p o then m o else m' o) ≡ m o)
    → HasLiterals m p
    → HasLiterals m' p
HasLiterals-frame m m' p same l = record {
  long = IsConst-frame m m' p p.hex.zero_0x (prefix true ++ replicate 8 b'0') l.long same;
  bare = IsConst-frame m m' p p.hex.zero_bare (replicate 8 b'0') l.bare same;
}

-- The address of the text of an argument.
abbrev pub place_of : Places → Directive → ℕ → ℕ
place_of p as_string word = word
place_of p as_decimal word = p.decimal_buffer
place_of p (as_hex need0x) word = hex_place p.hex word need0x

module _ (fuel : ℕ) (text : ℕ → List ℕ) (m : Memory) (p : Places) (laid : AreLaid p)
    (enough : 10 < fuel) where
  pub text_of-shown :
      (k : Directive) (word : ℕ)
      → word < 2 ^ 32
      → IsGiven text m p k word
      → HasLiterals m p
      → (m' : Memory) × (text_of fuel p k word m ≡ some (place_of p k word, m'))
        × Spells m' (place_of p k word) (shown text k word)
        × ((o : ℕ) → (if of_numbers p o then m o else m' o) ≡ m o)
  unfolding text_of shown
  text_of-shown as_string word h g l = (m, refl, g.spelled, (λ o. ground arith))
  text_of-shown as_decimal word h g l =
      let (m', run, text, beside) = uint_to_string-decimal fuel p.decimal_buffer word m h enough in
      (m', rw (text_of, run) refl, text, (λ o. ground (arith, beside o)))
  text_of-shown (as_hex need0x) word h g l =
      let (m', run, text, _, beside) =
        num2hexstr-hex_fixed fuel p.hex word m laid.hex_apart h (omega arith) need0x l.long.spelled
          l.bare.spelled in
      (m', run, text, (λ o. ground (arith, beside o)))

shrink : (a n b k l : ℕ) → clear a n b k ≡ true → l ≤ k → clear a n b l ≡ true
shrink a n b k l h le = ground arith

hex_clear :
    (a n : ℕ) (p : Places) (word : ℕ) (need0x : Bool)
    → clear a n p.hex.static_hexstr 11 ≡ true
    → clear a n p.hex.zero_0x 11 ≡ true
    → clear a n p.hex.zero_bare 9 ≡ true
    → clear a n (hex_place p.hex word need0x) (length (prefix need0x ++ hex_fixed 8 word) + 1)
      ≡ true
hex_clear a n p word true s l b = elim (Bool-cases (word == 0)) [
  | inl e ↦ rw e (shrink a n p.hex.zero_0x 11 _ l (omega (arith, length-hex_fixed 8 word)))
  | inr e ↦ rw e (shrink a n p.hex.static_hexstr 11 _ s (omega (arith, length-hex_fixed 8 word)))
]
hex_clear a n p word false s l b = elim (Bool-cases (word == 0)) [
  | inl e ↦ rw e (shrink a n p.hex.zero_bare 9 _ b (omega (arith, length-hex_fixed 8 word)))
  | inr e ↦ rw e (shrink a n p.hex.static_hexstr 11 _ s (omega (arith, length-hex_fixed 8 word)))
]

module _ (text : ℕ → List ℕ) (m : Memory) (p : Places) (laid : AreLaid p)
    (l : HasLiterals m p) where
  -- The text of an argument stands apart from the arrays of the texts.
  pub shown_off :
      (k : Directive) (word : ℕ)
      → IsGiven text m p k word
      → (clear p.out 100 (place_of p k word) (length (shown text k word) + 1) ≡ true)
        × (clear p.temp 100 (place_of p k word) (length (shown text k word) + 1) ≡ true)
  unfolding shown
  shown_off as_string word g = (g.off_out, g.off_temp)
  shown_off as_decimal word g = (
    shrink p.out 100 p.decimal_buffer 11 _ laid.out_decimal (omega (arith, length-decimal word)),
    shrink p.temp 100 p.decimal_buffer 11 _ laid.temp_decimal (omega (arith, length-decimal word)),
  )
  shown_off (as_hex need0x) word g = (
    hex_clear p.out 100 p word need0x laid.out_static l.long.off_out l.bare.off_out,
    hex_clear p.temp 100 p word need0x laid.temp_static l.long.off_temp l.bare.off_temp,
  )
